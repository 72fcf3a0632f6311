-- ===== src/Verifier/Package/Verify.antt =====
-- `verifyFinalsPackage` of packages/verifier/src/finals.ts.
use call_sign.Prelude.{
  none, ◌||◌, ◌!=◌, string_eq, nat_eq, Result, ok, err, error, throw_if, ◌>>=◌, ◌>>◌, length,
}
use call_sign.Verifier.Bundle.{VerificationContext, VerifiedState, verify_state_bundle}
use call_sign.Verifier.Guard.{Guard, limit_deadline, accept}
use call_sign.Verifier.Package.{
  LedgerExpectation, FinalsPackage, Platform, FinalsMessages, FinalsVerdict, assert_ledger_binding,
  read_messages,
}
use call_sign.Verifier.Package.Checks.{
  binding_hash_of, check_currency, check_authorization, check_credential, check_permit,
  check_binding, check_sdp, check_transport,
}

module _ (o : Platform) where
  -- `verifyFinalsPackage`, up to the verification of the state
  unfoldable pub check_package : FinalsPackage → Result FinalsMessages
  check_package i = do
    throw_if (i.trust.chain.witness_threshold != 3 || length i.trust.chain.witness_public_keys != 4)
        (error "FINALS_REQUIRES_THREE_OF_FOUR")
    m ← read_messages o i
    check_currency o i m
    check_authorization o i m
    check_credential o i m
    check_permit o i m
    check_binding o i m
    check_sdp o i m.binding
    check_transport o i m
    ok m

  abbrev pub state_context : FinalsPackage → FinalsMessages → VerificationContext
  state_context i m = record {
    max_state_age_seconds = none;
    max_future_skew_seconds = none;
    now_wall_seconds = i.now;
    now_monotonic_ms = i.monotonic_ms;
    expected_institution_id = m.authorization.institution_id;
    expected_delegation_id = m.authorization.vc_digest;
  }

  abbrev pub ledger_expectation : FinalsPackage → FinalsMessages → LedgerExpectation
  ledger_expectation i m = record {
    epoch = m.authorization.epoch;
    approval_public_key = i.trust.issuer_public_key;
    service_public_key = i.trust.service_public_key;
    purpose_mask = none;
    now = i.now;
  }

  abbrev pub verdict_of : FinalsMessages → VerifiedState → FinalsVerdict
  verdict_of m verified = record {
    authorization = m.authorization;
    binding_hash = binding_hash_of o m;
    deadline_monotonic_ms = verified.deadline_monotonic_ms;
  }

  -- The guard keeps the state, even if the ledger's binding is refused afterwards.
  abbrev pub with_guard :
      FinalsPackage
      → FinalsMessages
      → Guard
      → VerifiedState
      → Result Guard
      → Result FinalsVerdict × Guard
  with_guard i m guard verified (err e) = (err e, guard)
  with_guard i m guard verified (ok after) = (
    (do
      assert_ledger_binding o verified.snapshot (ledger_expectation i m)
      ok (verdict_of m verified)),
    after,
  )

  abbrev pub with_state :
      FinalsPackage → FinalsMessages → Guard → Result VerifiedState → Result FinalsVerdict × Guard
  with_state i m guard (err e) = (err e, guard)
  with_state i m guard (ok state) =
      let verified = limit_deadline guard state in
      with_guard i m guard verified (accept guard verified i.monotonic_ms)

  abbrev pub with_messages :
      FinalsPackage → Guard → Result FinalsMessages → Result FinalsVerdict × Guard
  with_messages i guard (err e) = (err e, guard)
  with_messages i guard (ok m) =
      with_state i m guard (verify_state_bundle o.lib i.state i.trust.chain (state_context i m))

  -- `verifyFinalsPackage`, with the guard after it
  unfoldable pub verify_finals_package : FinalsPackage → Guard → Result FinalsVerdict × Guard
  verify_finals_package i guard = with_messages i guard (check_package i)
