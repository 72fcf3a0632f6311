-- ===== src/Verifier/Package.antt =====
-- packages/verifier/src/finals.ts: what the browser of the called person verifies of a contact of protocol
-- version 2. The libraries, `atob` and the shapes that zod reads are a parameter.
pub mod Checks
pub mod Verify
pub mod Parts
pub mod Live
pub mod Proven
use Prim.Native.Nat.{bit_and}
use call_sign.Prelude.{
  ℕ, ◌+◌, ◌*◌, String, Option, none, some, Bool, true, false, not, ◌&&◌, ◌||◌, List, [], ◌∷◌, ◌++◌,
  map, ltb, leb, ◌==◌, ◌!=◌, string_eq, nat_eq, Result, Checked, ok, err, error, invalid_input,
  throw_if, or_throw, ◌>>=◌, ◌>>◌, length,
}
use call_sign.Prelude.Hex.{hex, from_url}
use call_sign.Prelude.Text.{codes, codes_eq, to_lower, big_int}
use call_sign.Protocol.Json.{Json, Jwk, Jwk_json, Libraries}
use call_sign.Protocol.Schemas.{public_key_conforms}
use call_sign.Protocol.Temporal.{assert_temporal_validity}
use call_sign.Protocol.Signing.{checked_by, hash_canonical, verify_payload}
use call_sign.Protocol.Sdp.{hash_sdp, extract_single_sdp_fingerprint}
use call_sign.Protocol.Finals.{policy_hash, vc_digest, verify_delegation_vc}
use call_sign.Protocol.Finals.Credential.{PurposePolicy, DelegationCredential, credential_conforms}
use call_sign.Protocol.Finals.Messages.{
  SessionPermit, session_permit_conforms, session_permit_json, permit_clock, ContactAuthorizationV2,
  authorization_v2_conforms, authorization_v2_json, authorization_v2_clock,
}
use call_sign.Protocol.Finals.Binding.{
  BindingV2, binding_conforms, binding_json, binding_clock, ReceiptV2, receipt_conforms,
  is_webrtc_bundle,
}
use call_sign.Protocol.Finals.Status.{
  AuthorizationStatus, authorization_status_conforms, authorization_status_clock, is_consumed,
}
use call_sign.Verifier.Snapshot.{StateSnapshot, is_active}
use call_sign.Verifier.Bundle.{
  StateBundle, TrustBundle, VerificationContext, VerifiedState, verify_state_bundle,
}
use call_sign.Verifier.Guard.{Guard, limit_deadline, accept}

pub record FinalsTrust : Type 0 where
  pub issuer_did : String
  pub issuer_kid : String
  pub issuer_public_key : Jwk
  pub service_did : String
  pub service_kid : String
  pub service_public_key : Jwk
  pub approval_key_version : ℕ
  pub service_key_version : ℕ
  pub chain : TrustBundle

-- The second argument of `assertLedgerBinding`.
pub record LedgerExpectation : Type 0 where
  pub epoch : String
  pub approval_public_key : Jwk
  pub service_public_key : Jwk
  pub purpose_mask : Option ℕ
  pub now : ℕ

pub record ObservedTransport : Type 0 where
  pub profile : String
  pub remote_fingerprint : String
  pub data_channel_binding_hash : String
  pub connected : Bool

pub record FinalsPackage : Type 0 where
  pub status_jws : String
  pub status_nonce : String
  pub authorization_jws : String
  pub vc_jws : String
  pub permit_jws : String
  pub receipt_jws : String
  pub binding : Json
  pub trust : FinalsTrust
  pub policy : PurposePolicy
  pub state : StateBundle
  pub recipient_id : String
  pub session_id : String
  pub local_sdp : List ℕ
  pub remote_sdp : List ℕ
  pub recipient_public_key : Jwk
  pub now : ℕ
  pub monotonic_ms : ℕ
  pub observed_transport : ObservedTransport

-- The libraries, `atob`, and the shapes of the messages.
pub record Platform : Type 0 where
  pub lib : Libraries
  pub atob : List ℕ → Option (List ℕ)
  pub read_authorization : Json → Option ContactAuthorizationV2
  pub read_receipt : Json → Option ReceiptV2
  pub read_credential : Json → Option DelegationCredential
  pub read_permit : Json → Option SessionPermit
  pub read_status : Json → Option AuthorizationStatus
  pub read_binding : Json → Option BindingV2

-- The messages of a package, once their signatures and their schemas are checked.
pub record FinalsMessages : Type 0 where
  pub authorization : ContactAuthorizationV2
  pub receipt : ReceiptV2
  pub credential : DelegationCredential
  pub permit : SessionPermit
  pub binding : BindingV2
  pub status : AuthorizationStatus

-- What is returned; the path of the policy is a literal.
pub record FinalsVerdict : Type 0 where
  pub authorization : ContactAuthorizationV2
  pub binding_hash : String
  pub deadline_monotonic_ms : ℕ

abbrev pub mask_of : Option ℕ → ℕ
mask_of none = 4
mask_of (some mask) = mask

module _ (o : Platform) where
  -- `raw`
  unfoldable pub raw : Jwk → Result (List ℕ)
  raw jwk = do
    throw_if (not (public_key_conforms jwk)) invalid_input
    bytes ←
        or_throw (o.atob (map from_url (codes jwk.x) ++ b'=' ∷ [])) (error "InvalidCharacterError")
    ok (b'0' ∷ b'x' ∷ hex bytes)

  -- `text.toLowerCase() !== raw`
  abbrev pub differs : String → List ℕ → Bool
  differs s key = not (codes_eq (map to_lower (codes s)) key)

  unfoldable pub assert_ledger_binding : StateSnapshot → LedgerExpectation → Checked
  assert_ledger_binding state expected = do
    let d = state.delegation_state
    throw_if (not state.institution_state.exists || not (is_active state.institution_state.status))
        (error "INSTITUTION_NOT_ACTIVE")
    throw_if (state.institution_state.epoch != expected.epoch || d.epoch != expected.epoch)
        (error "EPOCH_MISMATCH")
    approval ← raw expected.approval_public_key
    throw_if (differs state.institution_state.approval_public_key approval)
        (error "LEDGER_KEY_MISMATCH")
    service ← raw expected.service_public_key
    throw_if (differs d.gateway_public_key service) (error "LEDGER_KEY_MISMATCH")
    throw_if (not d.exists || d.revoked) (error "DELEGATION_REVOKED")
    throw_if
        (ltb expected.now d.valid_from
          || leb d.valid_until expected.now
          || bit_and (big_int d.purpose_mask) (mask_of expected.purpose_mask)
            != mask_of expected.purpose_mask)
        (error "DELEGATION_SCOPE_INVALID")

  unfoldable pub read_messages : FinalsPackage → Result FinalsMessages
  read_messages i = do
    let t = i.trust
    a ←
        verify_payload o.lib (λ j. checked_by authorization_v2_conforms (o.read_authorization j))
          (λ v. "ContactAuthorization") i.authorization_jws t.issuer_public_key
          (record { type = "ContactAuthorization"; kid = t.issuer_kid })
    receipt ←
        verify_payload o.lib (λ j. checked_by receipt_conforms (o.read_receipt j))
          (λ v. "ConsumptionReceipt") i.receipt_jws t.issuer_public_key
          (record { type = "ConsumptionReceipt"; kid = t.issuer_kid })
    vc ←
        verify_delegation_vc o.lib (λ j. checked_by credential_conforms (o.read_credential j))
          i.vc_jws t.issuer_public_key t.issuer_kid
    permit ←
        verify_payload o.lib (λ j. checked_by session_permit_conforms (o.read_permit j))
          (λ v. "SenderSessionPermit") i.permit_jws t.service_public_key
          (record { type = "SenderSessionPermit"; kid = t.service_kid })
    b ← or_throw (checked_by binding_conforms (o.read_binding i.binding)) invalid_input
    status ←
        verify_payload o.lib (λ j. checked_by authorization_status_conforms (o.read_status j))
          (λ v. "AuthorizationStatus") i.status_jws t.issuer_public_key
          (record { type = "AuthorizationStatus"; kid = t.issuer_kid })
    ok (record {
      authorization = a;
      receipt = receipt;
      credential = vc;
      permit = permit;
      binding = b;
      status = status;
    })
