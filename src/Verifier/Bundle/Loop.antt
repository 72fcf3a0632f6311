-- ===== src/Verifier/Bundle/Loop.antt =====
-- The loop of `verifyStateBundle` over the signatures.
use call_sign.Prelude.{
  ℕ, ◌≡◌, String, some, true, false, List, [], ◌∷◌, ◌++◌, map, Nodup, arith, ok, ok-injective, All,
  Dict, lookup, any, ◌==◌, string_eq, Nodup-snoc, All-snoc, not-mem_of_any-false, append_assoc,
  append-nil,
}
use call_sign.Protocol.Json.{Jws, Libraries, is_text}
use call_sign.Verifier.Bytes.{equal_bytes, equal_bytes_iff}
use call_sign.Verifier.Bundle.{WitnessKey, WitnessSignature, check_signature, check_signatures}

module _ (lib : Libraries) (bytes : List ℕ) (trusted : Dict WitnessKey) where
  -- Some signature of the trusted key of `w` covers exactly the expected bytes.
  pub record Attests (w : String) : Type 0 where
    pub entry : WitnessKey
    pub known : lookup trusted w ≡ some entry
    pub jws : String
    pub message : Jws
    pub signature : lib.compact_verify jws entry.jwk ≡ some message
    pub typ : is_text message.protected_header.typ "callsign/SignedStateSnapshot+jws" ≡ true
    pub kid : is_text message.protected_header.kid entry.kid ≡ true
    pub payload : message.payload ≡ bytes

  signature-parts :
      (e : WitnessKey) (jws : String)
      → check_signature lib bytes e jws ≡ ok tt
      → (m : Jws) × (lib.compact_verify jws e.jwk ≡ some m)
        × (is_text m.protected_header.typ "callsign/SignedStateSnapshot+jws" ≡ true)
        × (is_text m.protected_header.kid e.kid ≡ true)
        × (equal_bytes m.payload bytes ≡ true)
  unfolding check_signature
  signature-parts e jws h = ground arith

  pub step-parts :
      (unique : List String) (s : WitnessSignature) (rest : List WitnessSignature) (r : List String)
      → check_signatures lib bytes trusted unique (s ∷ rest) ≡ ok r
      → (e : WitnessKey) × (any (λ w. w == s.witness_id) unique ≡ false)
        × (lookup trusted s.witness_id ≡ some e)
        × (check_signature lib bytes e s.jws ≡ ok tt)
        × (check_signatures lib bytes trusted (unique ++ s.witness_id ∷ []) rest ≡ ok r)
  unfolding check_signatures
  step-parts unique s rest r h = ground arith

  pub loop-Attests :
      (unique : List String) (signatures : List WitnessSignature) (r : List String)
      → check_signatures lib bytes trusted unique signatures ≡ ok r
      → Nodup unique
      → All Attests unique
      → Nodup r × All Attests r
  unfolding check_signatures
  loop-Attests unique [] r h n a = rw (← ok-injective h) (n, a)
  loop-Attests unique (s ∷ rest) r h n a =
      let (e, new, known, signed, tail) = step-parts unique s rest r h in
      let (m, sig, typ, kid, same) = signature-parts e s.jws signed in
      loop-Attests (unique ++ s.witness_id ∷ []) rest r tail
        (Nodup-snoc unique s.witness_id n (not-mem_of_any-false s.witness_id unique new))
        (All-snoc Attests unique s.witness_id a (record {
          entry = e;
          known = known;
          jws = s.jws;
          message = m;
          signature = sig;
          typ = typ;
          kid = kid;
          payload = (equal_bytes_iff m.payload bytes).0 same;
        }))

  -- The loop counts every signature of the bundle, in its order.
  pub loop-signers :
      (unique : List String) (signatures : List WitnessSignature) (r : List String)
      → check_signatures lib bytes trusted unique signatures ≡ ok r
      → r ≡ unique ++ map (λ s. s.witness_id) signatures
  unfolding check_signatures
  loop-signers unique [] r h = rw append-nil (rw (← ok-injective h))
  loop-signers unique (s ∷ rest) r h =
      let (e, new, known, signed, tail) = step-parts unique s rest r h in
      rw (loop-signers (unique ++ s.witness_id ∷ []) rest r tail, append_assoc)
