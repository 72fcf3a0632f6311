-- ===== src/Verifier/Package/Proven.antt =====
-- `verifyFinalsPackage` of packages/verifier/src/finals.ts: all its checks together.
use call_sign.Prelude.{
  ◌≤◌, ◌≡◌, refl, false, ◌||◌, ◌!=◌, string_eq, nat_eq, arith, Result, ok, err, length,
}
use call_sign.Verifier.Bundle.{VerifiedState, verify_state_bundle}
use call_sign.Verifier.Bundle.Sound.{IsQuorum, verify_state_bundle-IsQuorum}
use call_sign.Verifier.Guard.{Guard, limit_deadline, accept}
use call_sign.Verifier.Package.{
  FinalsPackage, Platform, FinalsMessages, FinalsVerdict, assert_ledger_binding,
}
use call_sign.Verifier.Package.Verify.{
  check_package, state_context, ledger_expectation, verdict_of, with_guard, with_state,
  with_messages, verify_finals_package,
}
use call_sign.Verifier.Package.Parts.{
  package-parts, AreSigned, messages-AreSigned, IsConsumedNow, currency-IsConsumedNow, IsBound,
  package-IsBound,
}
use call_sign.Verifier.Package.Live.{
  IsTransported, package-IsTransported, IsBacked, ledger-IsBacked,
}

module _ (o : Platform) where
  verdict-parts :
      (i : FinalsPackage) (m : FinalsMessages) (guard after : Guard) (state : VerifiedState)
      (accepted : Result Guard) (verdict : FinalsVerdict)
      → with_guard o i m guard state accepted ≡ (ok verdict, after)
      → (accepted ≡ ok after)
        × (assert_ledger_binding o state.snapshot (ledger_expectation o i m) ≡ ok tt)
        × (verdict ≡ verdict_of o m state)
  verdict-parts i m guard after state (err e) verdict h = cc
  verdict-parts i m guard after state (ok g) verdict h = ground arith

  -- A package that passes: its messages, a state that three witnesses signed, and the guard's assent.
  pub record IsProven (i : FinalsPackage) (guard after : Guard) (verdict : FinalsVerdict)
      : Type 0 where
    pub messages : FinalsMessages
    pub state : VerifiedState
    pub signed : AreSigned o i messages
    pub consumed : IsConsumedNow o i messages
    pub bound : IsBound o i messages
    pub transported : IsTransported o i messages
    pub quorum : IsQuorum o.lib i.state i.trust.chain state
    pub three : 3 ≤ length state.signer_ids
    pub backed : IsBacked o i messages (limit_deadline guard state).snapshot
    pub accepted : accept guard (limit_deadline guard state) i.monotonic_ms ≡ ok after
    pub verdict_is : verdict ≡ verdict_of o messages (limit_deadline guard state)

  finals-parts :
      (i : FinalsPackage) (guard after : Guard) (checked : Result FinalsMessages)
      (verdict : FinalsVerdict)
      → with_messages o i guard checked ≡ (ok verdict, after)
      → (m : FinalsMessages) × (checked ≡ ok m)
        × (with_state o i m guard
              (verify_state_bundle o.lib i.state i.trust.chain (state_context o i m))
            ≡ (ok verdict, after))
  finals-parts i guard after (err e) verdict h = cc
  finals-parts i guard after (ok m) verdict h = (m, refl, h)

  state-parts :
      (i : FinalsPackage) (m : FinalsMessages) (guard after : Guard)
      (checked : Result VerifiedState) (verdict : FinalsVerdict)
      → with_state o i m guard checked ≡ (ok verdict, after)
      → (state : VerifiedState) × (checked ≡ ok state)
        × (with_guard o i m guard
              (limit_deadline guard state)
              (accept guard (limit_deadline guard state) i.monotonic_ms)
            ≡ (ok verdict, after))
  state-parts i m guard after (err e) verdict h = cc
  state-parts i m guard after (ok state) verdict h = (state, refl, h)

  threshold :
      (i : FinalsPackage) (state : VerifiedState)
      → (i.trust.chain.witness_threshold != 3 || length i.trust.chain.witness_public_keys != 4)
        ≡ false
      → IsQuorum o.lib i.state i.trust.chain state
      → 3 ≤ length state.signer_ids
  threshold i state h q = ground (arith, q.enough)

  -- A package that `verifyFinalsPackage` accepts holds messages signed under the trusted keys; the
  -- authorization has just been consumed for the binding of this session, its recipient and its
  -- transport; and at least three of the witnesses signed a state, which the guard accepts, in which the
  -- institution is active under the issuer's key and its delegation to the service's key is valid.
  pub verify_finals_package-IsProven :
      (i : FinalsPackage) (guard after : Guard) (verdict : FinalsVerdict)
      → verify_finals_package o i guard ≡ (ok verdict, after)
      → IsProven i guard after verdict
  unfolding verify_finals_package
  verify_finals_package-IsProven i guard after verdict h =
      let (m, checked, with_m) = finals-parts i guard after (check_package o i) verdict h in
      let (state, verified, with_s) =
        state-parts i m guard after
          (verify_state_bundle o.lib i.state i.trust.chain (state_context o i m)) verdict with_m in
      let (accepted, backed, returned) =
        verdict-parts i m guard after (limit_deadline guard state) _ verdict with_s in
      let (counts, messages, currency, authorization, credential, permit, binding, sdp, transport) =
        package-parts o i m checked in
      let quorum =
        verify_state_bundle-IsQuorum o.lib i.state i.trust.chain (state_context o i m) state
          verified in
      record {
        messages = m;
        state = state;
        signed = messages-AreSigned o i m messages;
        consumed = currency-IsConsumedNow o i m currency;
        bound = package-IsBound o i m authorization binding;
        transported = package-IsTransported o i m sdp transport;
        quorum = quorum;
        three = threshold i state counts quorum;
        backed = ledger-IsBacked o i m (limit_deadline guard state).snapshot backed;
        accepted = accepted;
        verdict_is = returned;
      }
