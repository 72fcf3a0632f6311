-- ===== src/Web/Rtc.antt =====
-- What the browser checks before and during a call of the first version: apps/web/src/lib/rtc.ts. The
-- libraries, the platform's `atob` and `crypto.subtle`, and the shapes that zod reads are parameters.
pub mod Delegated
pub mod Proven
use Prim.Native.Nat.{bit_and}
use call_sign.Prelude.{
  ℕ, zero, suc, ◌+◌, ◌-◌, ◌*◌, ◌/◌, ◌%◌, String, Option, none, some, Bool, true, false, not, ◌&&◌,
  ◌||◌, List, [], ◌∷◌, ◌++◌, map, ltb, leb, nat_beq, ◌==◌, ◌!=◌, string_eq, nat_eq, if◌then◌else◌,
  Result, Checked, ok, err, error, invalid_input, throw_if, or_throw, ◌>>=◌, ◌>>◌, length,
}
use call_sign.Prelude.Hex.{hex, from_url}
use call_sign.Prelude.Text.{codes, codes_eq, to_lower, same_lower, big_int}
use call_sign.Protocol.Json.{Json, Jwk, Jwk_json, Libraries}
use call_sign.Protocol.Temporal.{assert_temporal_validity, Clock}
use call_sign.Protocol.Contact.{
  ContactAuthorization, contact_authorization_conforms, contact_authorization_json, PurposeCode,
  EnrollmentProof, RecipientChallenge, recipient_challenge_conforms, recipient_challenge_json,
}
use call_sign.Protocol.Session.{
  SessionBinding, session_binding_json, ConsumptionReceipt, consumption_receipt_conforms,
  consumption_receipt_json, SessionProof, session_proof_conforms, TranscriptRole,
  TransportTranscript, transport_transcript_conforms, transport_transcript_json,
}
use call_sign.Protocol.Signing.{checked_by, hash_canonical, sign_payload, verify_payload}
use call_sign.Protocol.Sdp.{hash_sdp, extract_single_sdp_fingerprint}
use call_sign.Verifier.Snapshot.{is_active}
use call_sign.Verifier.Bundle.{
  StateBundle, TrustBundle, VerificationContext, VerifiedState, verify_state_bundle,
}
use call_sign.Verifier.Context.{ExpectedContact, verify_authorization_context}

-- `ALICE_ID`
abbrev pub alice_id : String
alice_id = "recipient_alice_01HZZZZZZZZZZZZZZZZZZZZZZZ"

pub record AuthorizationRow : Type 0 where
  pub id : String
  pub signed_jws : String
  pub authorization_hash : String

pub record Enrollment : Type 0 where
  pub payload : EnrollmentProof
  pub proof_jws : String

pub record TrustKeys : Type 0 where
  pub chain : TrustBundle
  pub issuer_public_key : Jwk
  pub issuer_kid : String
  pub enrollment_kid : String

pub record Browser : Type 0 where
  pub lib : Libraries
  -- `Uint8Array.from(atob(text), …)`; `none` where `atob` throws
  pub atob : List ℕ → Option (List ℕ)
  -- `crypto.subtle.digest('SHA-256', bytes)`
  pub digest : List ℕ → List ℕ
  pub read_authorization : Json → Option ContactAuthorization
  pub read_receipt : Json → Option ConsumptionReceipt
  pub read_proof : Json → Option SessionProof
  pub read_transcript : Json → Option TransportTranscript

-- `.padEnd(Math.ceil(length / 4) * 4, "=")`
abbrev padding : ℕ → List ℕ
padding r =
    if nat_beq r 1
    then b'=' ∷ b'=' ∷ b'=' ∷ []
    else if nat_beq r 2
    then b'=' ∷ b'=' ∷ []
    else if nat_beq r 3
    then b'=' ∷ []
    else []

unfoldable pub raw_jwk_hex : Browser → Jwk → Result (List ℕ)
unfolding hex
raw_jwk_hex o jwk = do
  bytes ←
      or_throw (o.atob (map from_url (codes jwk.x) ++ padding (length (codes jwk.x) % 4)))
        (error "InvalidCharacterError")
  ok (b'0' ∷ b'x' ∷ hex bytes)

abbrev pub lower : List ℕ → List ℕ
lower s = map to_lower s

abbrev pub purpose_bit : PurposeCode → ℕ
purpose_bit PurposeCode.civil_reply = 1
purpose_bit PurposeCode.document_supplement = 2

abbrev pub ledger_context : ContactAuthorization → ℕ → ℕ → VerificationContext
ledger_context authorization now now_ms = record {
  max_state_age_seconds = none;
  max_future_skew_seconds = none;
  now_wall_seconds = now;
  now_monotonic_ms = now_ms;
  expected_institution_id = authorization.institution_id;
  expected_delegation_id = authorization.delegation_id;
}

module _ (o : Browser) where
  -- The tests of `verifyLedgerAuthorization` on the verified state.
  unfoldable pub check_ledger : ContactAuthorization → Jwk → TrustKeys → ℕ → VerifiedState → Checked
  check_ledger authorization gateway trust now verified = do
    let institution = verified.snapshot.institution_state
    let delegation = verified.snapshot.delegation_state
    throw_if (not institution.exists || not (is_active institution.status))
        (error "INSTITUTION_NOT_ACTIVE")
    throw_if (not delegation.exists || delegation.revoked) (error "DELEGATION_NOT_ACTIVE")
    throw_if (institution.epoch != authorization.epoch || delegation.epoch != authorization.epoch)
        (error "LEDGER_EPOCH_MISMATCH")
    gateway_key ← raw_jwk_hex o gateway
    throw_if (not (codes_eq (lower (codes delegation.gateway_public_key)) (lower gateway_key)))
        (error "GATEWAY_KEY_NOT_DELEGATED")
    issuer_key ← raw_jwk_hex o trust.issuer_public_key
    throw_if (not (codes_eq (lower (codes institution.approval_public_key)) (lower issuer_key)))
        (error "ISSUER_KEY_NOT_CURRENT_ON_LEDGER")
    let bit = purpose_bit authorization.purpose_code
    throw_if (bit_and (big_int delegation.purpose_mask) bit != bit) (error "PURPOSE_NOT_DELEGATED")
    throw_if (ltb now delegation.valid_from || leb delegation.valid_until now)
        (error "DELEGATION_TIME_INVALID")

  -- `verifyLedgerAuthorization`, on the bundle that the server sends; `now_ms` is `performance.now()`.
  unfoldable pub verify_ledger_authorization :
      Result StateBundle → ContactAuthorization → Jwk → TrustKeys → ℕ → ℕ → Result VerifiedState
  verify_ledger_authorization answer authorization gateway trust now now_ms = do
    bundle ← answer
    verified ←
        verify_state_bundle o.lib bundle trust.chain (ledger_context authorization now now_ms)
    check_ledger authorization gateway trust now verified
    ok verified

  -- `loadTrustKeys`: the pinned bundle wins, and the issuer's key is the server's.
  unfoldable pub load_trust_keys : TrustBundle → String → Result TrustKeys → Result TrustKeys
  load_trust_keys pinned pinned_enrollment_kid answer = do
    upstream ← answer
    throw_if
        (upstream.chain.network_id != pinned.network_id
          || not (same_lower upstream.chain.registry_address pinned.registry_address)
          || upstream.chain.genesis_hash != pinned.genesis_hash)
        (error "DEPLOYED_TRUST_BUNDLE_MISMATCH_RESTART_REQUIRED")
    throw_if
        (upstream.enrollment_kid != pinned_enrollment_kid
          || hash_canonical o.lib (Jwk_json upstream.chain.enrollment_public_key)
            != hash_canonical o.lib (Jwk_json pinned.enrollment_public_key))
        (error "ENROLLMENT_TRUST_KEY_MISMATCH")
    ok (record {
      chain = record pinned { registry_profile = upstream.chain.registry_profile };
      issuer_public_key = upstream.issuer_public_key;
      issuer_kid = upstream.issuer_kid;
      enrollment_kid = pinned_enrollment_kid;
    })

  -- `createRecipientChallenge`; the key goes by its public half, and the nonce is drawn at random.
  unfoldable pub create_recipient_challenge :
      Jwk
      → String
      → Enrollment
      → String
      → String
      → String
      → String
      → ℕ
      → Result (RecipientChallenge × String)
  create_recipient_challenge key kid enrollment session_id network_id registry_address nonce
        issued_at =
      do
        let payload : RecipientChallenge = record {
          network_id = network_id;
          registry_address = registry_address;
          recipient_id = alice_id;
          recipient_session_public_key = key.x;
          enrollment_proof = enrollment.proof_jws;
          session_id = session_id;
          recipient_nonce = nonce;
          issued_at = issued_at;
          expires_at = issued_at + 60;
        }
        throw_if (not (recipient_challenge_conforms payload)) invalid_input
        ok (
          payload,
          sign_payload o.lib (recipient_challenge_json payload) "RecipientChallenge" key kid,
        )

  unfoldable pub verify_incoming_authorization :
      AuthorizationRow → TrustKeys → ℕ → Result ContactAuthorization
  verify_incoming_authorization row trust now = do
    authorization ←
        verify_payload o.lib
          (λ v. checked_by contact_authorization_conforms (o.read_authorization v))
          (λ v. "ContactAuthorization") row.signed_jws trust.issuer_public_key
          (record { type = "ContactAuthorization"; kid = trust.issuer_kid })
    throw_if
        (hash_canonical o.lib (contact_authorization_json authorization) != row.authorization_hash
          || authorization.authorization_id != row.id)
        (error "AUTHORIZATION_HASH_MISMATCH")
    verify_authorization_context o.lib authorization (record {
      recipient_id = alice_id;
      session_id = none;
      epoch = authorization.epoch;
      delegation_id = authorization.delegation_id;
      purpose_code = authorization.purpose_code;
      now_seconds = now;
      binding = none;
    })
    ok authorization

-- The argument of `verifyProofPackage`; the sessions' descriptions are code points.
pub record ProofPackage : Type 0 where
  pub authorization : ContactAuthorization
  pub authorization_hash : String
  pub binding : SessionBinding
  pub receipt_jws : String
  pub session_proof_jws : String
  pub issuer_public_key : Jwk
  pub issuer_kid : String
  pub gateway_public_jwk : Jwk
  pub gateway_kid : String
  pub local_sdp : List ℕ
  pub remote_sdp : List ℕ

abbrev pub proof_clock : SessionProof → Clock
proof_clock v = record { issued_at = v.issued_at; expires_at = v.expires_at; not_before = none }

abbrev pub transcript_clock : TransportTranscript → Clock
transcript_clock v = record {
  issued_at = v.issued_at;
  expires_at = v.expires_at;
  not_before = none;
}

-- What `verifyProofPackage` expects of the authorization and the binding.
abbrev pub expected_of : ProofPackage → ℕ → ExpectedContact
expected_of i now = record {
  recipient_id = alice_id;
  session_id = some i.binding.session_id;
  epoch = i.binding.epoch;
  delegation_id = i.binding.delegation_id;
  purpose_code = i.authorization.purpose_code;
  now_seconds = now;
  binding = some i.binding;
}

abbrev pub role_eq : TranscriptRole → TranscriptRole → Bool
role_eq TranscriptRole.gateway TranscriptRole.gateway = true
role_eq TranscriptRole.receiver TranscriptRole.receiver = true
role_eq _ _ = false

module _ (o : Browser) where
  abbrev pub receipt_schema : Json → Option ConsumptionReceipt
  receipt_schema v = checked_by consumption_receipt_conforms (o.read_receipt v)

  abbrev pub proof_schema : Json → Option SessionProof
  proof_schema v = checked_by session_proof_conforms (o.read_proof v)

  abbrev pub transcript_schema : Json → Option TransportTranscript
  transcript_schema v = checked_by transport_transcript_conforms (o.read_transcript v)

  -- The comparison of the binding with the two session descriptions.
  unfoldable pub check_sdp : SessionBinding → List ℕ → List ℕ → Checked
  check_sdp binding local_sdp remote_sdp = do
    receiver ← extract_single_sdp_fingerprint local_sdp
    throw_if (not (codes_eq (codes binding.receiver_fingerprint) receiver))
        (error "SDP_BINDING_MISMATCH")
    gateway ← extract_single_sdp_fingerprint remote_sdp
    throw_if
        (not (codes_eq (codes binding.gateway_fingerprint) gateway)
          || binding.answer_sdp_hash != hash_sdp o.lib local_sdp
          || binding.offer_sdp_hash != hash_sdp o.lib remote_sdp)
        (error "SDP_BINDING_MISMATCH")

  unfoldable pub verify_proof_package : ProofPackage → ℕ → Result String
  verify_proof_package i now = do
    receipt ←
        verify_payload o.lib receipt_schema (λ v. "ConsumptionReceipt") i.receipt_jws
          i.issuer_public_key (record { type = "ConsumptionReceipt"; kid = i.issuer_kid })
    proof ←
        verify_payload o.lib proof_schema (λ v. "SessionProof") i.session_proof_jws
          i.gateway_public_jwk (record { type = "SessionProof"; kid = i.gateway_kid })
    throw_if (leb receipt.expires_at receipt.consumed_at || leb receipt.expires_at now)
        (error "RECEIPT_EXPIRED")
    assert_temporal_validity (proof_clock proof) now
    let binding_hash = hash_canonical o.lib (session_binding_json i.binding)
    throw_if
        (hash_canonical o.lib (contact_authorization_json i.authorization) != i.authorization_hash
          || receipt.binding_hash != binding_hash
          || receipt.authorization_hash != i.authorization_hash
          || proof.binding_hash != binding_hash
          || proof.consumption_receipt_hash
            != hash_canonical o.lib (consumption_receipt_json receipt)
          || hash_canonical o.lib (session_binding_json proof.binding) != binding_hash)
        (error "PROOF_PACKAGE_CONTEXT_MISMATCH")
    check_sdp i.binding i.local_sdp i.remote_sdp
    verify_authorization_context o.lib i.authorization (expected_of i now)
    ok binding_hash

  unfoldable pub make_transport_transcript :
      TranscriptRole
      → String
      → String
      → String
      → Jwk
      → String
      → TrustKeys
      → ℕ
      → TransportTranscript × String
  make_transport_transcript role binding_hash receiver_nonce gateway_nonce key kid trust issued_at =
      let payload : TransportTranscript = record {
        network_id = trust.chain.network_id;
        registry_address = trust.chain.registry_address;
        role = role;
        binding_hash = binding_hash;
        receiver_nonce = receiver_nonce;
        gateway_nonce = gateway_nonce;
        issued_at = issued_at;
        expires_at = issued_at + 60;
      } in
      (
        payload,
        sign_payload o.lib (transport_transcript_json payload) "TransportTranscript" key kid,
      )

  unfoldable pub verify_transport_transcript :
      String → TransportTranscript → Jwk → String → TranscriptRole → ℕ → Checked
  verify_transport_transcript jws payload key kid expected_role now = do
    verified ←
        verify_payload o.lib transcript_schema (λ v. "TransportTranscript") jws key
          (record { type = "TransportTranscript"; kid = kid })
    assert_temporal_validity (transcript_clock verified) now
    throw_if
        (not (role_eq verified.role expected_role)
          || hash_canonical o.lib (transport_transcript_json verified)
            != hash_canonical o.lib (transport_transcript_json payload))
        (error "TRANSPORT_TRANSCRIPT_MISMATCH")
