-- ===== src/Tests/Package.antt =====
-- A package of protocol version 2 that passes, with three of four witnesses.
use call_sign.Prelude.{
  ◌≡◌, refl, ap, String, some, none, true, [], ◌∷◌, Result, ok, is_ok, any, every, lookup, insert,
  ◌==◌, string_eq, if◌then◌else◌,
}
use call_sign.Prelude.Hex.{hex}
use call_sign.Prelude.Text.{
  codes, codes_eq, has_length, matches_0x, matches_class, matches_decimal, matches_digits,
  utf16_length, same_lower, big_int,
}
use call_sign.Protocol.Json.{text, Jws, Libraries}
use call_sign.Protocol.Schemas.{
  is_address, is_digest, is_fingerprint, hex_groups, matches_fingerprint, public_key_conforms,
}
use call_sign.Protocol.Temporal.{assert_temporal_validity}
use call_sign.Protocol.Signing.{hash_canonical, verify_payload, parse_json_no_duplicate_keys}
use call_sign.Protocol.Sdp.{
  after_prefix, captures, drop_algorithm, drop_marks, extract_single_sdp_fingerprint, given_back,
  hash_sdp, join_pairs, line, match_fingerprint, normalize_all, normalize_fingerprint, single,
  skip_spaces, to_upper, trim, trim_end,
}
use call_sign.Protocol.Finals.{policy_hash, vc_digest, verify_delegation_vc}
use call_sign.Protocol.Finals.Credential.{
  DelegationCredential, policy_conforms, credential_conforms, subject_conforms, status_conforms,
}
use call_sign.Protocol.Finals.Messages.{
  SessionPermit, session_permit_conforms, ContactAuthorizationV2, authorization_v2_conforms,
}
use call_sign.Protocol.Finals.Binding.{BindingV2, binding_conforms, ReceiptV2, receipt_conforms}
use call_sign.Protocol.Finals.Status.{
  AuthorizationState, AuthorizationStatus, authorization_status_conforms,
}
use call_sign.Verifier.Bytes.{equal_bytes, bytes_difference}
use call_sign.Verifier.Snapshot.{
  snapshot_conforms, institution_state_conforms, delegation_state_conforms, is_decimal, is_hash32,
}
use call_sign.Verifier.Bundle.{
  StateBundle, TrustBundle, WitnessKey, WitnessSignature, verify_state_bundle, check_trust,
  check_snapshot, check_freshness, check_signatures, check_signature, map_of_keys, set_size,
}
use call_sign.Verifier.Guard.{Guard, new_guard, limit_deadline, accept, record_state}
use call_sign.Verifier.Package.{
  FinalsTrust, FinalsPackage, FinalsVerdict, Platform, raw, assert_ledger_binding, read_messages,
}
use call_sign.Verifier.Package.Checks.{
  check_currency, check_authorization, check_credential, check_permit, check_binding, check_sdp,
  check_transport,
}
use call_sign.Verifier.Package.Verify.{check_package, verify_finals_package}
use call_sign.Verifier.Package.Proven.{IsProven, verify_finals_package-IsProven}
use call_sign.Tests.World.{
  value_of, digest, address, jwk, policy, vc, subject, credential_status, permit, authorization,
  binding, fingerprint,
}
use call_sign.Tests.Verifier.{snapshot, trust}
use call_sign.Tests.Rtc.{sdp}

abbrev typ_of : String → String
typ_of jws =
    if jws == "vc"
    then "vc+jwt"
    else if jws == "permit"
    then "callsign/SenderSessionPermit+jws"
    else if jws == "receipt"
    then "callsign/ConsumptionReceipt+jws"
    else if jws == "status"
    then "callsign/AuthorizationStatus+jws"
    else if jws == "state"
    then "callsign/SignedStateSnapshot+jws"
    else "callsign/ContactAuthorization+jws"

abbrev message : String → Jws
message jws = record {
  protected_header = record {
    alg = some "EdDSA";
    typ = some (typ_of jws);
    cty = some "vc";
    kid = some "kid";
  };
  payload = [];
}

abbrev lib : Libraries
lib = record {
  canonicalize = λ v. [];
  sha256_hex = λ b. digest;
  compact_verify = λ jws key. some (message jws);
  compact_sign = λ b h k. "signed";
  decode_utf8 = λ b. some "";
  json_validate = λ t. none;
  json_parse = text;
}

abbrev a : ContactAuthorizationV2
a = record authorization { network_id = "31337"; institution_id = "institution-00001" }

abbrev p : SessionPermit
p = record permit { network_id = "31337"; institution_id = "institution-00001" }

abbrev c : DelegationCredential
c = record vc {
  subject = record subject { institution_id = "institution-00001" };
  status = record credential_status { network_id = "31337" };
}

abbrev b : BindingV2
b = record binding { network_id = "31337" }

abbrev receipt : ReceiptV2
receipt = record {
  network_id = "31337";
  registry_address = address;
  authorization_id = "authorization";
  authorization_hash = digest;
  binding_hash = digest;
  session_id = "session";
  recipient_id = "customer";
  approval_key_version = 1;
  consumed_at = 999;
  expires_at = 1030;
}

abbrev status : AuthorizationStatus
status = record {
  network_id = "31337";
  registry_address = address;
  issued_at = 1000;
  expires_at = 1005;
  authorization_id = "authorization";
  binding_hash = digest;
  nonce = "nonce";
  status = AuthorizationState.consumed;
  approval_key_version = 1;
}

abbrev platform : Platform
platform = record {
  lib = lib;
  atob = λ s. some (
      170 ∷ 170 ∷ 170 ∷ 170 ∷ 170 ∷ 170 ∷ 170 ∷ 170 ∷ 170 ∷ 170 ∷ 170 ∷ 170 ∷ 170 ∷ 170 ∷ 170 ∷ 170
      ∷ 170 ∷ 170 ∷ 170 ∷ 170 ∷ 170 ∷ 170 ∷ 170 ∷ 170 ∷ 170 ∷ 170 ∷ 170 ∷ 170 ∷ 170 ∷ 170 ∷ 170
      ∷ 170 ∷ []);
  read_authorization = λ v. some a;
  read_receipt = λ v. some receipt;
  read_credential = λ v. some c;
  read_permit = λ v. some p;
  read_status = λ v. some status;
  read_binding = λ v. some b;
}

abbrev witness : String → String → WitnessKey
witness id x = record { witness_id = id; kid = "kid"; jwk = record jwk { x = x } }

abbrev chain : TrustBundle
chain = record trust {
  witness_threshold = 3;
  witness_public_keys =
      witness "w1" "a" ∷ witness "w2" "b" ∷ witness "w3" "c" ∷ witness "w4" "d" ∷ [];
}

abbrev signed_by : String → WitnessSignature
signed_by id = record { witness_id = id; jws = "state" }

abbrev state : StateBundle
state = record {
  snapshot = record snapshot { delegation_id = digest };
  signatures = signed_by "w4" ∷ signed_by "w1" ∷ signed_by "w2" ∷ [];
}

abbrev finals_trust : FinalsTrust
finals_trust = record {
  issuer_did = "did:bank";
  issuer_kid = "kid";
  issuer_public_key = jwk;
  service_did = "did:service";
  service_kid = "kid";
  service_public_key = jwk;
  approval_key_version = 1;
  service_key_version = 1;
  chain = chain;
}

abbrev contact : FinalsPackage
contact = record {
  status_jws = "status";
  status_nonce = "nonce";
  authorization_jws = "authorization";
  vc_jws = "vc";
  permit_jws = "permit";
  receipt_jws = "receipt";
  binding = text "binding";
  trust = finals_trust;
  policy = policy;
  state = state;
  recipient_id = "customer";
  session_id = "session";
  local_sdp = sdp;
  remote_sdp = sdp;
  recipient_public_key = jwk;
  now = 1001;
  monotonic_ms = 50;
  observed_transport = record {
    profile = "chromium-dtls-certificate-v1";
    remote_fingerprint = fingerprint;
    data_channel_binding_hash = digest;
    connected = true;
  };
}

abbrev contact_run : Result FinalsVerdict × Guard
contact_run = verify_finals_package platform contact new_guard

contact-is_ok : is_ok contact_run.0 ≡ true
unfolding verify_finals_package check_package read_messages verify_payload
    parse_json_no_duplicate_keys authorization_v2_conforms has_length is_address matches_digits
    is_digest receipt_conforms verify_delegation_vc credential_conforms subject_conforms
    public_key_conforms status_conforms session_permit_conforms binding_conforms is_fingerprint
    hex_groups matches_fingerprint authorization_status_conforms check_currency
    assert_temporal_validity check_authorization policy_hash policy_conforms vc_digest
    hash_canonical check_credential check_permit check_binding check_sdp hash_sdp
    extract_single_sdp_fingerprint captures match_fingerprint after_prefix skip_spaces line
    given_back normalize_all normalize_fingerprint trim trim_end drop_algorithm drop_marks to_upper
    join_pairs single codes every codes_eq any check_transport verify_state_bundle check_trust
    check_snapshot check_freshness check_signatures check_signature map_of_keys set_size
    snapshot_conforms institution_state_conforms delegation_state_conforms is_decimal is_hash32
    matches_0x matches_class matches_decimal utf16_length same_lower equal_bytes bytes_difference
    lookup insert limit_deadline accept record_state big_int assert_ledger_binding raw hex
contact-is_ok = refl

abbrev passed : (v : FinalsVerdict) × (contact_run.0 ≡ ok v)
passed = value_of contact_run.0 contact-is_ok

verify_finals_package-IsProven_example : IsProven platform contact new_guard contact_run.1 passed.0
verify_finals_package-IsProven_example =
    verify_finals_package-IsProven platform contact new_guard contact_run.1 passed.0
      (ap (λ r. (r, contact_run.1)) passed.1)
