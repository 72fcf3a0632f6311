-- ===== src/Protocol/Sdp/Lines.antt =====
-- The line ends in `hashSdp` of packages/protocol/src/index.ts.
use call_sign.Prelude.{
  ℕ, ◌≡◌, refl, Bool, false, not, ◌&&◌, List, [], ◌∷◌, arith, nat_beq, Bool-cases, inl, inr,
}
use call_sign.Protocol.Sdp.{to_crlf}

pub to_crlf_idem : (b : Bool) (s : List ℕ) → to_crlf b (to_crlf b s) ≡ to_crlf b s
unfolding to_crlf
to_crlf_idem b [] = refl
to_crlf_idem b (c ∷ s) = elim (Bool-cases (nat_beq c 10 && not b)) [
  | inl e ↦ ground (arith, to_crlf_idem false s)
  | inr e ↦ ground (arith, to_crlf_idem (nat_beq c 13) s)
]
