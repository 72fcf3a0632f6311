-- ===== src/Tests/Finals.antt =====
-- The second version's authority on the institution of the tests.
use call_sign.Prelude.{
  ◌≡◌, ◌≢◌, refl, String, true, false, ok, some, Result, is_ok, lookup, insert, any, every, find,
  update_values,
}
use call_sign.Prelude.Text.{
  codes, has_length, matches_0x, matches_class, matches_digits, utf16_length, big_int,
}
use call_sign.Protocol.Schemas.{
  is_address, is_digest, is_fingerprint, hex_groups, matches_fingerprint, public_key_conforms,
}
use call_sign.Protocol.Temporal.{assert_temporal_validity}
use call_sign.Protocol.Signing.{
  hash_canonical, sign_payload, verify_payload, parse_json_no_duplicate_keys,
}
use call_sign.Protocol.Finals.{policy_hash, vc_digest, verify_delegation_vc}
use call_sign.Protocol.Finals.Credential.{
  policy_conforms, credential_conforms, status_conforms, subject_conforms,
}
use call_sign.Protocol.Finals.Messages.{session_permit_conforms}
use call_sign.Protocol.Finals.Binding.{binding_conforms, possession_conforms, receipt_conforms}
use call_sign.Finals.Record.{InstitutionRecord}
use call_sign.Finals.Model.{membership, active_intent, may_see}
use call_sign.Finals.Authority.Options.{credential, assert_did, assert_registered, issuer_key}
use call_sign.Finals.Authority.Consume.{Consumed, consume, check_possession, settle}
use call_sign.Finals.Authority.Lifecycle.{cancel_authorization, cancel, revoke, activate_key}
use call_sign.Finals.Authority.Options.{key_hash}
use call_sign.Finals.Evolution.{Evolves}
use call_sign.Finals.Steps.{step_consume, unchanged, after, Later-Evolves}
use call_sign.Finals.Steps.Once.{consume-once}
use call_sign.Finals.Steps.Withdrawn.{cancel-consume, revoke-consume, activate_key-consume}
use call_sign.Finals.Entitled.{IsEntitled, consume-IsEntitled}
use call_sign.Finals.Receipt.{IsReceipt, consume-IsReceipt}
use call_sign.Tests.World.{value_of, options, digest, bank, customer, manager, request, issued}

abbrev first_run : Result (Consumed × InstitutionRecord)
first_run = consume options bank customer request 1000 "event"

first-is_ok : is_ok first_run ≡ true
unfolding consume membership lookup binding_conforms has_length is_address is_digest is_fingerprint
    active_intent may_see policy_hash policy_conforms hash_canonical credential assert_did
    assert_registered verify_delegation_vc parse_json_no_duplicate_keys check_possession settle
    issuer_key any every find insert codes matches_0x matches_class matches_digits utf16_length
    possession_conforms receipt_conforms credential_conforms status_conforms subject_conforms
    session_permit_conforms vc_digest hex_groups matches_fingerprint public_key_conforms
    sign_payload verify_payload assert_temporal_validity
first-is_ok = refl

abbrev first : (x : Consumed × InstitutionRecord) × (first_run ≡ ok x)
first = value_of first_run first-is_ok

abbrev second_run : Result (Consumed × InstitutionRecord)
second_run = consume options first.0.1 customer request 1010 "again"

second-is_ok : is_ok second_run ≡ true
unfolding consume membership lookup binding_conforms has_length is_address is_digest is_fingerprint
    active_intent may_see policy_hash policy_conforms hash_canonical credential assert_did
    assert_registered verify_delegation_vc parse_json_no_duplicate_keys check_possession settle
    issuer_key any every find insert codes matches_0x matches_class matches_digits utf16_length
    possession_conforms receipt_conforms credential_conforms status_conforms subject_conforms
    session_permit_conforms vc_digest hex_groups matches_fingerprint public_key_conforms
    sign_payload verify_payload assert_temporal_validity
second-is_ok = refl

abbrev second : (x : Consumed × InstitutionRecord) × (second_run ≡ ok x)
second = value_of second_run second-is_ok

-- The first run is no replay.
first-replay : first.0.0.replay ≡ false
unfolding consume membership lookup binding_conforms has_length is_address is_digest is_fingerprint
    active_intent may_see policy_hash policy_conforms hash_canonical credential assert_did
    assert_registered verify_delegation_vc parse_json_no_duplicate_keys check_possession settle
    issuer_key any every find insert codes matches_0x matches_class matches_digits utf16_length
    possession_conforms receipt_conforms credential_conforms status_conforms subject_conforms
    session_permit_conforms vc_digest hex_groups matches_fingerprint public_key_conforms
    sign_payload verify_payload assert_temporal_validity
first-replay = refl

consume-once_example :
    (second.0.0.payload ≡ first.0.0.payload)
    × (second.0.0.jws ≡ first.0.0.jws)
    × (second.0.0.replay ≡ true)
    × (second.0.1 ≡ first.0.1)
consume-once_example =
    consume-once options bank first.0.1 first.0.1 second.0.1 customer customer request request 1000
      1010 "event" "again" first.0.0 second.0.0 first.1 unchanged second.1 refl

consume-IsEntitled_example : IsEntitled options bank customer request 1000
consume-IsEntitled_example =
    consume-IsEntitled options bank customer request 1000 "event" first.0.0 first.0.1 first.1

consume-IsReceipt_example : IsReceipt options bank request 1000 first.0.0.payload
consume-IsReceipt_example =
    consume-IsReceipt options bank customer request 1000 "event" first.0.0 first.0.1 first.1
      first-replay

Later-Evolves_example : Evolves (key_hash options) bank first.0.1
Later-Evolves_example =
    Later-Evolves options
      (after (step_consume customer request 1000 "event" first.0.0 first.1) unchanged)

abbrev cancel_run : Result InstitutionRecord
cancel_run = cancel options bank manager "intent" 1000 "event"

cancel-is_ok : is_ok cancel_run ≡ true
unfolding cancel membership lookup any
cancel-is_ok = refl

abbrev cancelled_bank : (r : InstitutionRecord) × (cancel_run ≡ ok r)
cancelled_bank = value_of cancel_run cancel-is_ok

abbrev revoke_run : Result InstitutionRecord
revoke_run = revoke options bank manager digest 1000 "event"

revoke-is_ok : is_ok revoke_run ≡ true
unfolding revoke membership lookup any
revoke-is_ok = refl

abbrev revoked_bank : (r : InstitutionRecord) × (revoke_run ≡ ok r)
revoked_bank = value_of revoke_run revoke-is_ok

abbrev rotate_run : Result (String × InstitutionRecord)
rotate_run = activate_key options bank manager 2 "2" 1000 "event"

rotate-is_ok : is_ok rotate_run ≡ true
unfolding activate_key membership lookup any big_int
rotate-is_ok = refl

abbrev rotated_bank : (x : String × InstitutionRecord) × (rotate_run ≡ ok x)
rotated_bank = value_of rotate_run rotate-is_ok

cancelled-authorization :
    lookup cancelled_bank.0.authorizations "authorization" ≡ some (cancel_authorization issued)
unfolding cancel membership lookup any update_values
cancelled-authorization = refl

cancel-consume_example :
    consume options cancelled_bank.0 customer request 1000 "again" ≢ ok (first.0.0, bank)
cancel-consume_example =
    cancel-consume options bank cancelled_bank.0 cancelled_bank.0 bank manager customer "intent"
      request 1000 1000 "event" "again" (cancel_authorization issued) first.0.0 cancelled_bank.1
      unchanged cancelled-authorization refl

revoked-authorization :
    lookup revoked_bank.0.authorizations "authorization" ≡ some (cancel_authorization issued)
unfolding revoke membership lookup any update_values
revoked-authorization = refl

revoke-consume_example :
    consume options revoked_bank.0 customer request 1000 "again" ≢ ok (first.0.0, bank)
revoke-consume_example =
    revoke-consume options bank revoked_bank.0 revoked_bank.0 bank manager customer digest request
      1000 1000 "event" "again" (cancel_authorization issued) first.0.0 revoked_bank.1 unchanged
      revoked-authorization refl

issued-authorization : lookup bank.authorizations "authorization" ≡ some issued
unfolding lookup
issued-authorization = refl

activate_key-consume_example :
    consume options rotated_bank.0.1 customer request 1000 "again" ≢ ok (first.0.0, bank)
activate_key-consume_example =
    activate_key-consume options bank rotated_bank.0.1 rotated_bank.0.1 bank manager customer 2 "2"
      rotated_bank.0.0 request 1000 1000 "event" "again" issued first.0.0 rotated_bank.1 unchanged
      issued-authorization
