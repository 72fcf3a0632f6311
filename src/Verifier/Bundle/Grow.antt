-- ===== src/Verifier/Bundle/Grow.antt =====
-- `verifyStateBundle` of packages/verifier/src/index.ts, on bundles that differ in their signatures.
use call_sign.Prelude.{
  ℕ, ◌≤◌, ◌≡◌, refl, ap, sym, ◌∙◌, String, some, true, false, ◌||◌, List, [], ◌∷◌, ◌++◌, map, arith,
  ◌==◌, string_eq, length, length-append, any, lookup, ok, is_ok, Dict,
}
use call_sign.Protocol.Json.{Libraries}
use call_sign.Verifier.Snapshot.{StateSnapshot, snapshot_json}
use call_sign.Verifier.Bundle.{
  StateBundle, TrustBundle, VerificationContext, VerifiedState, WitnessKey, WitnessSignature,
  check_signature, check_signatures, check_trust, check_snapshot, check_freshness,
  verify_state_bundle, map_of_keys,
}
use call_sign.Verifier.Bundle.Loop.{step-parts, loop-signers}
use call_sign.Verifier.Bundle.Sound.{bundle-parts}

any-map :
    (signatures : List WitnessSignature) (id : String)
    → any (λ w. w == id) (map (λ s. s.witness_id) signatures)
      ≡ any (λ s. s.witness_id == id) signatures
unfolding any
any-map [] id = refl
any-map (s ∷ signatures) id = ap (λ b. s.witness_id == id || b) (any-map signatures id)

module _ (lib : Libraries) (bytes : List ℕ) (trusted : Dict WitnessKey) where
  check_signatures-snoc :
      (signatures : List WitnessSignature) (unique r : List String) (one : WitnessSignature)
      (entry : WitnessKey)
      → check_signatures lib bytes trusted unique signatures ≡ ok r
      → any (λ w. w == one.witness_id) r ≡ false
      → lookup trusted one.witness_id ≡ some entry
      → check_signature lib bytes entry one.jws ≡ ok tt
      → check_signatures lib bytes trusted unique (signatures ++ one ∷ [])
        ≡ ok (r ++ one.witness_id ∷ [])
  unfolding check_signatures
  check_signatures-snoc [] unique r one entry h new known signed = ground arith
  check_signatures-snoc (s ∷ signatures) unique r one entry h new known signed =
      let (e, fresh, trusted_s, signed_s, tail) =
        step-parts lib bytes trusted unique s signatures r h in
      rw (fresh, trusted_s, signed_s)
        (check_signatures-snoc signatures (unique ++ s.witness_id ∷ []) r one entry tail new known
          signed)

pub bundle-ok :
    (lib : Libraries) (bundle : StateBundle) (trust : TrustBundle) (context : VerificationContext)
    (unique : List String)
    → check_trust trust ≡ ok tt
    → check_snapshot bundle.snapshot trust context ≡ ok tt
    → check_freshness bundle.snapshot.block_timestamp context ≡ ok tt
    → check_signatures lib
        (lib.canonicalize (snapshot_json bundle.snapshot))
        (map_of_keys [] trust.witness_public_keys)
        []
        bundle.signatures
      ≡ ok unique
    → trust.witness_threshold ≤ length unique
    → is_ok (verify_state_bundle lib bundle trust context) ≡ true
unfolding verify_state_bundle
bundle-ok lib bundle trust context unique t s f c n = ground arith

grown :
    (lib : Libraries) (group : StateBundle) (one : WitnessSignature) (trust : TrustBundle)
    (context : VerificationContext) (v : VerifiedState) (entry : WitnessKey)
    → verify_state_bundle lib group trust context ≡ ok v
    → any (λ s. s.witness_id == one.witness_id) group.signatures ≡ false
    → lookup (map_of_keys [] trust.witness_public_keys) one.witness_id ≡ some entry
    → check_signature lib (lib.canonicalize (snapshot_json group.snapshot)) entry one.jws ≡ ok tt
    → is_ok (
        verify_state_bundle lib
          (record group { signatures = group.signatures ++ one ∷ [] })
          trust
          context)
      ≡ true
grown lib group one trust context v entry h new known signed =
    let (t, s, f, c, n, _, _, _) = bundle-parts lib group trust context v h in
    let fresh : any (λ w. w == one.witness_id) v.signer_ids ≡ false =
      ap (any (λ w. w == one.witness_id)) (loop-signers lib _ _ [] group.signatures v.signer_ids c)
      ∙ any-map group.signatures one.witness_id
      ∙ new in
    bundle-ok lib (record group { signatures = group.signatures ++ one ∷ [] }) trust context
      (v.signer_ids ++ one.witness_id ∷ []) t s f
      (check_signatures-snoc lib _ _ group.signatures [] v.signer_ids one entry c fresh known
        signed)
      (simp length-append (omega (arith, n)))

-- A bundle that verifies takes in a signature by another witness, which has been verified alone over
-- a snapshot with the same canonical bytes.
pub verify_state_bundle-snoc :
    (lib : Libraries) (group : StateBundle) (alone : StateSnapshot) (one : WitnessSignature)
    (trust trust_alone : TrustBundle) (context context_alone : VerificationContext)
    (v v_alone : VerifiedState)
    → verify_state_bundle lib group trust context ≡ ok v
    → verify_state_bundle lib
        (record { snapshot = alone; signatures = one ∷ [] })
        trust_alone
        context_alone
      ≡ ok v_alone
    → trust_alone.witness_public_keys ≡ trust.witness_public_keys
    → lib.canonicalize (snapshot_json alone) ≡ lib.canonicalize (snapshot_json group.snapshot)
    → any (λ s. s.witness_id == one.witness_id) group.signatures ≡ false
    → is_ok (
        verify_state_bundle lib
          (record group { signatures = group.signatures ++ one ∷ [] })
          trust
          context)
      ≡ true
verify_state_bundle-snoc lib group alone one trust trust_alone context context_alone v v_alone h a
      keys same new =
    let (_, _, _, c, _, _, _, _) = bundle-parts lib _ trust_alone context_alone v_alone a in
    let (entry, _, known, signed, _) = step-parts lib _ _ [] one [] v_alone.signer_ids c in
    grown lib group one trust context v entry h new
      (ap (λ k. lookup (map_of_keys [] k) one.witness_id) (sym keys) ∙ known)
      (ap (λ b. check_signature lib b entry one.jws) (sym same) ∙ signed)
