-- ===== src/Finals/Authority/Consume.antt =====
-- `consume` of FinalsAuthority: a recipient consumes the authorization of a call.
use call_sign.Prelude.{
  ℕ, ◌+◌, min, String, Option, none, some, Bool, true, false, not, ◌||◌, [], ◌∷◌, leb, ◌!=◌,
  string_eq, nat_eq, lookup, insert, Result, Checked, ok, http_error, invalid_input, throw_if,
  or_throw, ◌>>=◌, ◌>>◌,
}
use call_sign.Prelude.Int.{sub_ℕ}
use call_sign.Protocol.Json.{Jwk}
use call_sign.Protocol.Temporal.{assert_temporal_validity}
use call_sign.Protocol.Signing.{hash_canonical, sign_payload, verify_payload}
use call_sign.Protocol.Finals.Messages.{
  SessionPermit, session_permit_json, permit_clock, ContactAuthorizationV2, authorization_v2_json,
  authorization_v2_clock,
}
use call_sign.Protocol.Finals.Binding.{
  is_webrtc_bundle, BindingV2, binding_conforms, binding_json, binding_clock, ProofRole, sender,
  recipient, same_role, PossessionProof, possession_clock, ReceiptV2, receipt_conforms,
  receipt_json,
}
use call_sign.Finals.Record.{
  Actor, AttemptStatus, is_consumable, CallAttempt, Consumption, RecipientKey, InstitutionRecord,
}
use call_sign.Finals.Model.{active_intent, membership}
use call_sign.Finals.Authority.Options.{
  AuthorityOptions, record_event, key_hash, permit_schema, possession_schema, issuer_key,
  credential,
}
use call_sign.Finals.Authority.Permit.{over_a_minute}

pub record ConsumeInput : Type 0 where
  pub authorization_id : String
  pub binding : BindingV2
  pub sender_proof : String
  pub recipient_proof : String
  pub permit_jws : String

-- The receipt, its signature and whether it was there before.
pub record Consumed : Type 0 where
  pub payload : ReceiptV2
  pub jws : String
  pub replay : Bool

module _ (options : AuthorityOptions) where
  abbrev pub other_proof : ContactAuthorizationV2 → String → ProofRole → PossessionProof → Bool
  other_proof a binding_hash role proof =
      over_a_minute (sub_ℕ proof.expires_at proof.issued_at)
      || not (same_role proof.role role)
      || proof.authorization_id != a.authorization_id
      || proof.binding_hash != binding_hash
      || proof.session_id != a.session_id
      || proof.network_id != a.network_id
      || proof.registry_address != a.registry_address

  -- The body of the loop over the two proofs.
  unfoldable pub check_possession :
      ContactAuthorizationV2 → String → ℕ → ProofRole → String → Jwk → Checked
  check_possession a binding_hash now role jws jwk = do
    proof ←
        verify_payload options.lib (possession_schema options) (λ _. "PossessionProof") jws jwk
          (record { type = "PossessionProof"; kid = key_hash options jwk })
    assert_temporal_validity (possession_clock proof) now
    throw_if (other_proof a binding_hash role proof) (http_error 409 "POSSESSION_CONTEXT_INVALID")

  abbrev pub other_binding :
      Actor → ContactAuthorizationV2 → SessionPermit → RecipientKey → BindingV2 → Bool
  other_binding actor a permit enrolled binding =
      hash_canonical options.lib (session_permit_json permit) != a.permit_hash
      || key_hash options permit.browser_public_key != a.browser_key_hash
      || binding.authorization_hash != hash_canonical options.lib (authorization_v2_json a)
      || binding.session_id != a.session_id
      || binding.recipient_id != actor.user_id
      || binding.recipient_key_hash != key_hash options enrolled.public_key
      || binding.network_id != a.network_id
      || binding.registry_address != a.registry_address
      || not (is_webrtc_bundle binding.transport_profile)

  abbrev pub receipt_of :
      InstitutionRecord → ContactAuthorizationV2 → CallAttempt → String → ℕ → ReceiptV2
  receipt_of r a attempt binding_hash now = record {
    network_id = options.network_id;
    registry_address = options.registry_address;
    authorization_id = a.authorization_id;
    authorization_hash = hash_canonical options.lib (authorization_v2_json a);
    binding_hash = binding_hash;
    session_id = a.session_id;
    recipient_id = a.recipient_id;
    approval_key_version = r.approval_key_version;
    consumed_at = now;
    expires_at = min attempt.expires_at (now + 60);
  }

  -- What `consume` does past the proofs: `prior` is the consumption on record.
  unfoldable pub settle :
      InstitutionRecord
      → Actor
      → ContactAuthorizationV2
      → CallAttempt
      → SessionPermit
      → BindingV2
      → ℕ
      → String
      → Option Consumption
      → Result (Consumed × InstitutionRecord)
  settle r actor a attempt permit binding now event_id (some prior) = do
    throw_if (prior.payload.binding_hash != hash_canonical options.lib (binding_json binding))
        (http_error 409 "AUTHORIZATION_ALREADY_CONSUMED")
    ok (record { payload = prior.payload; jws = prior.jws; replay = true }, r)
  settle r actor a attempt permit binding now event_id none = do
    assert_temporal_validity (authorization_v2_clock a) now
    assert_temporal_validity (binding_clock binding) now
    assert_temporal_validity (permit_clock permit) now
    let payload = receipt_of r a attempt (hash_canonical options.lib (binding_json binding)) now
    throw_if (not (receipt_conforms payload)) invalid_input
    key ← issuer_key options r
    let jws =
        sign_payload options.lib (receipt_json payload) "ConsumptionReceipt" key.private_key key.kid
    let r' : InstitutionRecord = record r {
      consumptions =
          insert r.consumptions a.authorization_id (record { payload = payload; jws = jws });
      attempts =
          insert r.attempts a.attempt_id (record attempt { status = AttemptStatus.consumed });
    }
    ok (
      record { payload = payload; jws = jws; replay = false },
      record_event options r' actor "authorization.consumed" a.authorization_id now event_id,
    )

  unfoldable pub consume :
      InstitutionRecord → Actor → ConsumeInput → ℕ → String → Result (Consumed × InstitutionRecord)
  consume r actor input now event_id = do
    membership r actor ("recipient" ∷ [])
    let binding = input.binding
    throw_if (not (binding_conforms binding)) invalid_input
    auth ←
        or_throw (lookup r.authorizations input.authorization_id)
          (http_error 404 "AUTHORIZATION_NOT_FOUND")
    let a = auth.payload
    intent ← active_intent options.lib r a.intent_id actor now
    throw_if auth.cancelled (http_error 409 "AUTHORIZATION_INVALID")
    attempt ← or_throw (lookup r.attempts a.attempt_id) (http_error 409 "AUTHORIZATION_INVALID")
    throw_if
        (not (is_consumable attempt.status)
          || a.approval_key_version != r.approval_key_version
          || a.epoch != r.epoch)
        (http_error 409 "AUTHORIZATION_INVALID")
    (_, service) ← credential options r a.vc_digest intent.service_did now
    permit ←
        verify_payload options.lib (permit_schema options) (λ _. "SenderSessionPermit")
          input.permit_jws service.public_key
          (record { type = "SenderSessionPermit"; kid = service.kid })
    enrolled ←
        or_throw (lookup r.recipient_keys a.session_id) (http_error 409 "RECIPIENT_KEY_UNAVAILABLE")
    throw_if (enrolled.user_id != actor.user_id || leb enrolled.expires_at now)
        (http_error 409 "RECIPIENT_KEY_UNAVAILABLE")
    let binding_hash = hash_canonical options.lib (binding_json binding)
    throw_if (other_binding actor a permit enrolled binding)
        (http_error 409 "BINDING_CONTEXT_INVALID")
    check_possession a binding_hash now sender input.sender_proof permit.browser_public_key
    check_possession a binding_hash now recipient input.recipient_proof enrolled.public_key
    settle r actor a attempt permit binding now event_id (lookup r.consumptions a.authorization_id)
