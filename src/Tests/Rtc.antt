-- ===== src/Tests/Rtc.antt =====
-- An authorization that the ledger backs, a proof package and a transcript, on small inputs.
use call_sign.Prelude.{
  ℕ, ◌≡◌, refl, String, some, none, List, [], true, Result, ok, is_ok, arith, any, every, lookup,
  insert, ◌==◌, string_eq, if◌then◌else◌,
}
use call_sign.Prelude.Text.{
  codes, codes_eq, has_length, matches_0x, matches_class, matches_decimal, utf16_length, same_lower,
  big_int,
}
use call_sign.Protocol.Json.{text, Jws, Libraries}
use call_sign.Protocol.Schemas.{
  is_address, is_digest, is_fingerprint, hex_groups, matches_fingerprint,
}
use call_sign.Protocol.Temporal.{assert_temporal_validity}
use call_sign.Protocol.Contact.{ContactAuthorization, civil_reply}
use call_sign.Protocol.Session.{
  SessionBinding, session_binding_conforms, ConsumptionReceipt, consumption_receipt_conforms,
  SessionProof, session_proof_conforms, TranscriptRole, TransportTranscript,
  transport_transcript_conforms,
}
use call_sign.Protocol.Signing.{
  hash_canonical, sign_payload, verify_payload, parse_json_no_duplicate_keys,
}
use call_sign.Protocol.Sdp.{
  after_prefix, captures, drop_algorithm, drop_marks, extract_single_sdp_fingerprint, given_back,
  hash_sdp, join_pairs, line, match_fingerprint, normalize_all, normalize_fingerprint, single,
  skip_spaces, to_upper, trim, trim_end,
}
use call_sign.Protocol.Sdp.Canonical.{
  IsFingerprintOf, extract_single_sdp_fingerprint-IsFingerprintOf,
}
use call_sign.Verifier.Bytes.{equal_bytes, bytes_difference}
use call_sign.Verifier.Snapshot.{
  snapshot_conforms, institution_state_conforms, delegation_state_conforms, is_decimal, is_hash32,
}
use call_sign.Verifier.Bundle.{
  StateBundle, VerifiedState, verify_state_bundle, check_trust, check_snapshot, check_freshness,
  check_signatures, check_signature, map_of_keys, set_size,
}
use call_sign.Verifier.Context.{verify_authorization_context, check_binding}
use call_sign.Prelude.Hex.{hex}
use call_sign.Web.Rtc.{
  Browser, TrustKeys, ProofPackage, check_ledger, raw_jwk_hex, verify_ledger_authorization,
  check_sdp, verify_proof_package, make_transport_transcript, verify_transport_transcript,
}
use call_sign.Web.Rtc.Delegated.{IsDelegated, verify_ledger_authorization-IsDelegated}
use call_sign.Web.Rtc.Proven.{
  IsProven, verify_proof_package-IsProven, verify_transport_transcript-make_transport_transcript,
}
use call_sign.Tests.World.{value_of, jwk, address, digest, fingerprint}
use call_sign.Tests.Verifier.{snapshot, delegation_state, bundle, trust}
use call_sign.Tests.Web.{browser}

abbrev authorization : ContactAuthorization
authorization = record {
  network_id = "1";
  registry_address = address;
  authorization_id = "auth_000000000001";
  institution_id = "institution-00001";
  epoch = "1";
  delegation_id = "delegation-000001";
  recipient_id = "recipient_alice_01HZZZZZZZZZZZZZZZZZZZZZZZ";
  purpose_code = civil_reply;
  official_task_opaque_id = "task-00000000001";
  issued_at = 900;
  not_before = 900;
  expires_at = 1500;
}

abbrev purposeful : StateBundle
purposeful = record bundle {
  snapshot = record snapshot { delegation_state = record delegation_state { purpose_mask = "3" } };
}

abbrev keys : TrustKeys
keys = record {
  chain = trust;
  issuer_public_key = jwk;
  issuer_kid = "issuer";
  enrollment_kid = "enrollment";
}

abbrev ledger_run : Result VerifiedState
ledger_run = verify_ledger_authorization browser (ok purposeful) authorization jwk keys 1003 50

ledger-is_ok : is_ok ledger_run ≡ true
unfolding verify_ledger_authorization check_ledger raw_jwk_hex hex big_int verify_state_bundle
    check_trust check_snapshot check_freshness check_signatures check_signature map_of_keys set_size
    snapshot_conforms institution_state_conforms delegation_state_conforms is_decimal is_hash32
    is_address has_length codes matches_0x matches_class matches_decimal utf16_length same_lower
    codes_eq equal_bytes bytes_difference any every lookup insert
ledger-is_ok = refl

abbrev backed : (v : VerifiedState) × (ledger_run ≡ ok v)
backed = value_of ledger_run ledger-is_ok

verify_ledger_authorization-IsDelegated_example :
    IsDelegated browser purposeful authorization jwk keys 1003 backed.0
verify_ledger_authorization-IsDelegated_example =
    verify_ledger_authorization-IsDelegated browser purposeful authorization jwk keys 1003 50
      backed.0 backed.1

abbrev pub sdp : List ℕ
sdp =
    codes
      "v=0\r\na=fingerprint:SHA-256 aa:aa:aa:aa:aa:aa:aa:aa:aa:aa:aa:aa:aa:aa:aa:aa:aa:aa:aa:aa:aa:aa:aa:aa:aa:aa:aa:aa:aa:aa:aa:aa\r\ns=-\r\n"

extracted : extract_single_sdp_fingerprint sdp ≡ ok (codes fingerprint)
unfolding extract_single_sdp_fingerprint captures match_fingerprint after_prefix skip_spaces line
    given_back normalize_all normalize_fingerprint trim trim_end drop_algorithm drop_marks to_upper
    join_pairs single codes every codes_eq
extracted = refl

extract_single_sdp_fingerprint-IsFingerprintOf_example : IsFingerprintOf sdp (codes fingerprint)
extract_single_sdp_fingerprint-IsFingerprintOf_example =
    extract_single_sdp_fingerprint-IsFingerprintOf sdp (codes fingerprint) extracted

abbrev message : String → Jws
message jws = record {
  protected_header = record {
    alg = some "EdDSA";
    typ = some (
        if jws == "receipt"
        then "callsign/ConsumptionReceipt+jws"
        else if jws == "proof"
        then "callsign/SessionProof+jws"
        else "callsign/TransportTranscript+jws");
    cty = none;
    kid = some "kid-1";
  };
  payload = [];
}

abbrev lib : Libraries
lib = record {
  canonicalize = λ v. [];
  sha256_hex = λ b. digest;
  compact_verify = λ jws key. some (message jws);
  compact_sign = λ b h k. "signed";
  decode_utf8 = λ b. some "";
  json_validate = λ t. none;
  json_parse = text;
}

abbrev binding : SessionBinding
binding = record {
  network_id = "1";
  registry_address = address;
  authorization_hash = digest;
  session_id = "session_000000001";
  institution_id = "institution-00001";
  epoch = "1";
  delegation_id = "delegation-000001";
  recipient_id = "recipient_alice_01HZZZZZZZZZZZZZZZZZZZZZZZ";
  recipient_nonce = "nonce_00000000001";
  recipient_session_key_hash = digest;
  gateway_fingerprint = fingerprint;
  receiver_fingerprint = fingerprint;
  offer_sdp_hash = digest;
  answer_sdp_hash = digest;
  issued_at = 990;
  expires_at = 1100;
}

abbrev receipt : ConsumptionReceipt
receipt = record {
  network_id = "1";
  registry_address = address;
  authorization_id = "auth_000000000001";
  authorization_hash = digest;
  binding_hash = digest;
  recipient_id = "recipient_alice_01HZZZZZZZZZZZZZZZZZZZZZZZ";
  session_id = "session_000000001";
  consumed_at = 995;
  expires_at = 1055;
}

abbrev proof : SessionProof
proof = record {
  network_id = "1";
  registry_address = address;
  binding_hash = digest;
  consumption_receipt_hash = digest;
  binding = binding;
  issued_at = 996;
  expires_at = 1050;
}

abbrev transcript : TransportTranscript
transcript = record {
  network_id = "31337";
  registry_address = address;
  role = TranscriptRole.receiver;
  binding_hash = digest;
  receiver_nonce = "nonce_00000000001";
  gateway_nonce = "nonce_00000000002";
  issued_at = 1000;
  expires_at = 1060;
}

abbrev alice : Browser
alice = record {
  lib = lib;
  atob = λ s. none;
  digest = λ b. b;
  read_authorization = λ v. none;
  read_receipt = λ v. some receipt;
  read_proof = λ v. some proof;
  read_transcript = λ v. some transcript;
}

abbrev shown : ProofPackage
shown = record {
  authorization = authorization;
  authorization_hash = digest;
  binding = binding;
  receipt_jws = "receipt";
  session_proof_jws = "proof";
  issuer_public_key = jwk;
  issuer_kid = "kid-1";
  gateway_public_jwk = jwk;
  gateway_kid = "kid-1";
  local_sdp = sdp;
  remote_sdp = sdp;
}

proven : verify_proof_package alice shown 1000 ≡ ok digest
unfolding verify_proof_package check_sdp verify_payload parse_json_no_duplicate_keys hash_canonical
    hash_sdp extract_single_sdp_fingerprint captures match_fingerprint after_prefix skip_spaces line
    given_back normalize_all normalize_fingerprint trim trim_end drop_algorithm drop_marks to_upper
    join_pairs single codes every codes_eq consumption_receipt_conforms session_proof_conforms
    session_binding_conforms is_address is_digest is_fingerprint hex_groups matches_fingerprint
    has_length matches_0x matches_class matches_decimal utf16_length assert_temporal_validity
    verify_authorization_context check_binding
proven = refl

verify_proof_package-IsProven_example : IsProven alice shown 1000 digest
verify_proof_package-IsProven_example = verify_proof_package-IsProven alice shown 1000 digest proven

verify_transport_transcript-make_transport_transcript_example :
    verify_transport_transcript alice
      (make_transport_transcript alice TranscriptRole.receiver digest "nonce_00000000001"
        "nonce_00000000002" jwk "kid-1" keys 1000).1
      (make_transport_transcript alice TranscriptRole.receiver digest "nonce_00000000001"
        "nonce_00000000002" jwk "kid-1" keys 1000).0
      jwk
      "kid-1"
      TranscriptRole.receiver
      1010
    ≡ ok tt
unfolding make_transport_transcript transport_transcript_conforms is_address is_digest has_length
    matches_0x matches_class matches_decimal utf16_length codes every sign_payload
verify_transport_transcript-make_transport_transcript_example =
    verify_transport_transcript-make_transport_transcript alice TranscriptRole.receiver digest
      "nonce_00000000001" "nonce_00000000002" jwk "kid-1" keys 1000 1010
      (record {
        verifies = refl;
        text = "";
        decoded = refl;
        fits = omega arith;
        unique_keys = refl;
        read_back = refl;
      })
      (omega arith) (omega arith) (omega arith) (omega arith)
