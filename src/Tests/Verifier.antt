-- ===== src/Tests/Verifier.antt =====
-- A bundle of one witness, the guard, and a contact, on small inputs.
use call_sign.Prelude.{
  ℕ, ◌≡◌, ◌↔◌, refl, String, Option, some, none, List, [], ◌∷◌, true, false, ok, error, err, is_ok,
  Result, any, every, lookup, insert, length,
}
use call_sign.Prelude.Text.{
  codes, has_length, matches_0x, matches_class, matches_decimal, utf16_length, big_int,
  big_int_from, same_lower, codes_eq,
}
use call_sign.Protocol.Json.{Jwk, Libraries, Jws}
use call_sign.Protocol.Schemas.{is_address}
use call_sign.Protocol.Contact.{ContactAuthorization, civil_reply}
use call_sign.Verifier.Bytes.{equal_bytes, bytes_difference, equal_bytes_iff}
use call_sign.Verifier.Snapshot.{
  LedgerStatus, InstitutionState, DelegationState, StateSnapshot, snapshot_conforms,
  institution_state_conforms, delegation_state_conforms, is_decimal, is_hash32,
}
use call_sign.Verifier.Bundle.{
  StateBundle, TrustBundle, VerificationContext, VerifiedState, verify_state_bundle, check_trust,
  check_snapshot, check_freshness, check_signatures, check_signature, map_of_keys, set_size,
}
use call_sign.Verifier.Bundle.Sound.{
  IsQuorum, IsPinned, IsTimely, verify_state_bundle-IsQuorum, verify_state_bundle-IsTimely,
}
use call_sign.Verifier.Guard.{Guard, new_guard, accept, offer_all, offer, record_state}
use call_sign.Verifier.Guard.Accept.{IsAccepted, accept-IsAccepted}
use call_sign.Verifier.Guard.Runs.{Later, IsOrdered, Succeeds, offer_all-Later, accept-Succeeds}
use call_sign.Verifier.Context.{
  ExpectedContact, verify_authorization_context, IsExpected,
  verify_authorization_context-IsExpected,
}
use call_sign.Tests.World.{value_of, jwk, address}

abbrev pub witness_lib : Libraries
witness_lib = record {
  canonicalize = λ v. 1 ∷ 2 ∷ [];
  sha256_hex = λ b. "hash";
  compact_verify = λ jws key. some (record {
    protected_header = record {
      alg = some "EdDSA";
      typ = some "callsign/SignedStateSnapshot+jws";
      cty = none;
      kid = some "kid";
    };
    payload = 1 ∷ 2 ∷ [];
  });
  compact_sign = λ b h k. "signed";
  decode_utf8 = λ b. none;
  json_validate = λ t. none;
  json_parse = λ t. call_sign.Protocol.Json.null;
}

abbrev pub hash32 : String
hash32 = "0xaaaaaaaaaaaaaaaaaaaaaaaaaaaaaaaaaaaaaaaaaaaaaaaaaaaaaaaaaaaaaaaa"

abbrev institution_state : InstitutionState
institution_state = record {
  exists = true;
  status = LedgerStatus.active;
  epoch = "1";
  approval_public_key = hash32;
  policy_version = "1";
}

abbrev pub delegation_state : DelegationState
delegation_state = record {
  exists = true;
  epoch = "1";
  gateway_public_key = hash32;
  purpose_mask = "4";
  valid_from = 0;
  valid_until = 5000;
  revoked = false;
}

abbrev pub snapshot : StateSnapshot
snapshot = record {
  network_id = "31337";
  genesis_hash = hash32;
  registry_address = address;
  registry_profile = none;
  policy_hash = none;
  policy_version = "1";
  block_number = "7";
  block_hash = hash32;
  block_timestamp = 1000;
  institution_id = "institution-00001";
  institution_state = institution_state;
  delegation_id = "delegation-000001";
  delegation_state = delegation_state;
  directory_hash = hash32;
  directory_version = "1";
}

abbrev pub bundle : StateBundle
bundle = record {
  snapshot = snapshot;
  signatures = record { witness_id = "w1"; jws = "signed" } ∷ [];
}

abbrev pub trust : TrustBundle
trust = record {
  network_id = "31337";
  genesis_hash = hash32;
  registry_address = address;
  policy_version = "1";
  registry_profile = none;
  witness_threshold = 1;
  witness_public_keys = record { witness_id = "w1"; kid = "kid"; jwk = jwk } ∷ [];
  enrollment_public_key = jwk;
  supported_protocol_versions = 1 ∷ [];
}

abbrev context : VerificationContext
context = record {
  max_state_age_seconds = none;
  max_future_skew_seconds = none;
  now_wall_seconds = 1003;
  now_monotonic_ms = 50;
  expected_institution_id = "institution-00001";
  expected_delegation_id = "delegation-000001";
}

abbrev bundle_run : Result VerifiedState
bundle_run = verify_state_bundle witness_lib bundle trust context

bundle-is_ok : is_ok bundle_run ≡ true
unfolding verify_state_bundle check_trust check_snapshot check_freshness check_signatures
    check_signature map_of_keys set_size snapshot_conforms institution_state_conforms
    delegation_state_conforms is_decimal is_hash32 is_address has_length codes matches_0x
    matches_class matches_decimal utf16_length same_lower codes_eq equal_bytes bytes_difference any
    every lookup insert
bundle-is_ok = refl

abbrev verified : (v : VerifiedState) × (bundle_run ≡ ok v)
verified = value_of bundle_run bundle-is_ok

verify_state_bundle-IsQuorum_example : IsQuorum witness_lib bundle trust verified.0
verify_state_bundle-IsQuorum_example =
    verify_state_bundle-IsQuorum witness_lib bundle trust context verified.0 verified.1

verify_state_bundle-IsTimely_example :
    IsPinned snapshot trust context × IsTimely witness_lib bundle context verified.0
verify_state_bundle-IsTimely_example =
    verify_state_bundle-IsTimely witness_lib bundle trust context verified.0 verified.1

-- A later state of the same institution.
abbrev state : String → VerifiedState
state block = record {
  snapshot = record snapshot { block_number = block; block_hash = block };
  signer_ids = "w1" ∷ [];
  snapshot_hash = "hash";
  deadline_monotonic_ms = 9000;
  observed_age_seconds = call_sign.Prelude.Int.pos 3;
}

abbrev guard_run : Result Guard
guard_run = accept new_guard (state "7") 60

guard-is_ok : is_ok guard_run ≡ true
unfolding accept lookup big_int codes big_int_from
guard-is_ok = refl

abbrev guarded : (g : Guard) × (guard_run ≡ ok g)
guarded = value_of guard_run guard-is_ok

abbrev offered : List (VerifiedState × ℕ)
offered = (state "8", 70) ∷ (state "6", 80) ∷ []

abbrev later_run : Result Guard
later_run = accept (offer_all guarded.0 offered) (state "9") 90

later-is_ok : is_ok later_run ≡ true
unfolding accept offer_all offer record_state lookup insert big_int codes big_int_from
later-is_ok = refl

abbrev later_guard : (g : Guard) × (later_run ≡ ok g)
later_guard = value_of later_run later-is_ok

accept-Succeeds_example : Succeeds (state "7") (state "9")
accept-Succeeds_example =
    accept-Succeeds new_guard guarded.0 later_guard.0 (state "7") (state "9") offered 60 90 tt
      guarded.1 later_guard.1

offer_all-Later_example :
    Later new_guard (offer_all new_guard offered) × IsOrdered (offer_all new_guard offered)
offer_all-Later_example = offer_all-Later new_guard offered tt

accept-IsAccepted_example :
    (accept new_guard (state "7") 60 ≡ ok (record_state new_guard (state "7")))
    ↔ IsAccepted new_guard (state "7") 60
accept-IsAccepted_example = accept-IsAccepted new_guard (state "7") 60

abbrev bytes : List ℕ
bytes = 1 ∷ 2 ∷ []

equal_bytes_iff_example : (equal_bytes bytes bytes ≡ true) ↔ (bytes ≡ bytes)
equal_bytes_iff_example = equal_bytes_iff bytes bytes

abbrev contact : ContactAuthorization
contact = record {
  network_id = "31337";
  registry_address = address;
  authorization_id = "authorization-01";
  institution_id = "institution-00001";
  epoch = "1";
  delegation_id = "delegation-000001";
  recipient_id = "recipient-000001";
  purpose_code = civil_reply;
  official_task_opaque_id = "task-00000000001";
  issued_at = 100;
  not_before = 100;
  expires_at = 200;
}

abbrev expected_contact : ExpectedContact
expected_contact = record {
  recipient_id = "recipient-000001";
  session_id = none;
  epoch = "1";
  delegation_id = "delegation-000001";
  purpose_code = civil_reply;
  now_seconds = 150;
  binding = none;
}

verify_authorization_context-IsExpected_example :
    (verify_authorization_context witness_lib contact expected_contact ≡ ok tt)
    ↔ IsExpected witness_lib contact expected_contact
verify_authorization_context-IsExpected_example =
    verify_authorization_context-IsExpected witness_lib contact expected_contact
