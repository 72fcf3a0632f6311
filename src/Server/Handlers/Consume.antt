-- ===== src/Server/Handlers/Consume.antt =====
-- POST /authorizations/:id/consume
use call_sign.Prelude.{
  ℕ, ◌+◌, ◌*◌, ◌/◌, String, Option, Bool, not, ◌&&◌, ◌||◌, [], ◌∷◌, ltb, ◌==◌, ◌!=◌, string_eq,
  find, Result, ok, err, http_error, invalid_input, throw_if, or_throw, ◌>>=◌, ◌>>◌,
}
use call_sign.Protocol.Temporal.{assert_temporal_validity}
use call_sign.Protocol.Contact.{
  EnrollmentProof, RecipientChallenge, recipient_challenge_json, challenge_clock,
}
use call_sign.Protocol.Session.{
  SessionBinding, session_binding_conforms, session_binding_json, ConsumptionReceipt,
  consumption_receipt_conforms, consumption_receipt_json, GatewayConsumeRequest,
  consume_request_clock,
}
use call_sign.Protocol.Signing.{sign_payload, verify_payload, hash_canonical}
use call_sign.Server.Tables.{
  GatewayRegistration, RecipientEnrollment, Authorization, AuthorizationConsumption, Database,
}
use call_sign.Server.Auth.{Request, require_role, protected_write}
use call_sign.Server.Consumption.{Replayed, consume_authorization_atomic}
use call_sign.Server.Handlers.{
  ServerOptions, enrollment_schema, challenge_schema, consume_request_schema,
}
use call_sign.Server.Handlers.Contact.{is_uncancelled}

pub record ConsumeBody : Type 0 where
  pub binding : SessionBinding
  pub recipient_enrollment_id : String
  pub recipient_challenge_jws : String
  pub gateway_consume_request_jws : String

pub record ConsumeReply : Type 0 where
  pub receipt : ConsumptionReceipt
  pub signed_jws : String
  pub replay : Bool

-- The three selections.
unfoldable pub live_authorization : Database → String → ℕ → Option Authorization
live_authorization db id now =
    find (λ a. a.id == id && is_uncancelled a.cancelled_at && ltb (now * 1000) a.expires_at)
      db.authorizations

unfoldable pub live_gateway : Database → Authorization → String → Option GatewayRegistration
live_gateway db auth user_id =
    find (λ g. g.id == auth.gateway_registration_id && g.user_id == user_id && g.active) db.gateways

unfoldable pub live_enrollment : Database → Authorization → String → ℕ → Option RecipientEnrollment
live_enrollment db auth id now =
    find (λ e. e.id == id && e.user_id == auth.recipient_id && ltb (now * 1000) e.expires_at)
      db.enrollments

module _ (o : ServerOptions) where
  -- The test before CONSUMPTION_CONTEXT_MISMATCH.
  abbrev pub other_context :
      Authorization
      → RecipientEnrollment
      → EnrollmentProof
      → RecipientChallenge
      → GatewayConsumeRequest
      → SessionBinding
      → Bool
  other_context auth enrollment proof challenge request binding =
      proof.recipient_id != auth.recipient_id
      || challenge.recipient_id != auth.recipient_id
      || challenge.enrollment_proof != enrollment.proof_jws
      || challenge.recipient_session_public_key != proof.recipient_session_public_key
      || binding.recipient_id != auth.recipient_id
      || binding.session_id != challenge.session_id
      || binding.recipient_nonce != challenge.recipient_nonce
      || binding.authorization_hash != auth.authorization_hash
      || binding.delegation_id != auth.delegation_id
      || request.authorization_id != auth.id
      || request.authorization_hash != auth.authorization_hash
      || request.binding_hash != hash_canonical o.lib (session_binding_json binding)
      || request.recipient_challenge_hash
        != hash_canonical o.lib (recipient_challenge_json challenge)
      || request.session_id != challenge.session_id

  abbrev pub consumption_input :
      Authorization → RecipientChallenge → SessionBinding → ℕ → AuthorizationConsumption
  consumption_input auth challenge binding now = record {
    authorization_id = auth.id;
    authorization_hash = auth.authorization_hash;
    binding_hash = hash_canonical o.lib (session_binding_json binding);
    recipient_id = auth.recipient_id;
    session_id = challenge.session_id;
    consumed_at = now * 1000;
    expires_at = (now + 60) * 1000;
  }

  abbrev pub receipt_for : AuthorizationConsumption → ConsumptionReceipt
  receipt_for r = record {
    network_id = o.network_id;
    registry_address = o.registry_address;
    authorization_id = r.authorization_id;
    authorization_hash = r.authorization_hash;
    binding_hash = r.binding_hash;
    recipient_id = r.recipient_id;
    session_id = r.session_id;
    consumed_at = r.consumed_at / 1000;
    expires_at = r.expires_at / 1000;
  }

  -- Everything before the consumption is committed.
  unfoldable pub prepare_consumption :
      Database → Request → String → ConsumeBody → ℕ → ℕ → Result AuthorizationConsumption
  prepare_consumption db request id body now now_ms = do
    session ← protected_write o.token_hash db request o.web_origin now_ms
    require_role session ("gateway" ∷ [])
    throw_if (not (session_binding_conforms body.binding)) invalid_input
    auth ← or_throw (live_authorization db id now) (http_error 409 "AUTHORIZATION_INVALID")
    gateway ←
        or_throw (live_gateway db auth session.user_id)
          (http_error 403 "POSSESSION_CONTEXT_INVALID")
    enrollment ←
        or_throw (live_enrollment db auth body.recipient_enrollment_id now)
          (http_error 403 "POSSESSION_CONTEXT_INVALID")
    proof ←
        verify_payload o.lib (enrollment_schema o) (λ _. "EnrollmentProof") enrollment.proof_jws
          o.enrollment_key.public_jwk
          (record { type = "EnrollmentProof"; kid = o.enrollment_key.kid })
    challenge ←
        verify_payload o.lib (challenge_schema o) (λ _. "RecipientChallenge")
          body.recipient_challenge_jws enrollment.public_jwk
          (record { type = "RecipientChallenge"; kid = enrollment.kid })
    consume_request ←
        verify_payload o.lib (consume_request_schema o) (λ _. "GatewayConsumeRequest")
          body.gateway_consume_request_jws gateway.public_jwk
          (record { type = "GatewayConsumeRequest"; kid = gateway.kid })
    assert_temporal_validity (challenge_clock challenge) now
    assert_temporal_validity (consume_request_clock consume_request) now
    throw_if (other_context auth enrollment proof challenge consume_request body.binding)
        (http_error 409 "CONSUMPTION_CONTEXT_MISMATCH")
    ok (consumption_input auth challenge body.binding now)

  -- The reply after the commit; `fail` is the header `x-demo-fail-after-commit: true`.
  unfoldable pub reply_for : Bool → Replayed → Result ConsumeReply
  reply_for fail done = do
    throw_if (o.demo_mode && fail && not done.replay)
        (http_error 503 "DEMO_SIGNING_FAILURE_AFTER_COMMIT")
    let receipt = receipt_for done.record_
    throw_if (not (consumption_receipt_conforms receipt)) invalid_input
    ok (record {
      receipt = receipt;
      signed_jws =
          sign_payload o.lib (consumption_receipt_json receipt) "ConsumptionReceipt"
            o.issuer_key.public_jwk o.issuer_key.kid;
      replay = done.replay;
    })

  abbrev pub commit :
      Database → Bool → Result (Replayed × Database) → Result ConsumeReply × Database
  commit db fail (err failure) = (err failure, db)
  commit db fail (ok (done, db')) = (reply_for fail done, db')

  abbrev pub complete :
      Database → Bool → Result AuthorizationConsumption → Result ConsumeReply × Database
  complete db fail (err failure) = (err failure, db)
  complete db fail (ok input) = commit db fail (consume_authorization_atomic db input)

  unfoldable pub consume_authorization :
      Database → Request → String → ConsumeBody → Bool → ℕ → ℕ → Result ConsumeReply × Database
  consume_authorization db request id body fail now now_ms =
      complete db fail (prepare_consumption db request id body now now_ms)
