-- ===== src/Server/Handlers/Possession.antt =====
-- The consume handler of services/api/src/server.ts, up to the transaction.
use call_sign.Prelude.{
  ℕ, ◌*◌, ◌<◌, ◌≡◌, String, some, true, false, ◌&&◌, [], ◌∷◌, arith, eq_iff, find-test, ltb, ◌==◌,
  string_eq, ok,
}
use call_sign.Protocol.Temporal.{
  IsCurrent, assert_temporal_validity, assert_temporal_validity-IsCurrent,
}
use call_sign.Protocol.Contact.{
  EnrollmentProof, RecipientChallenge, recipient_challenge_json, challenge_clock,
}
use call_sign.Protocol.Session.{session_binding_json, GatewayConsumeRequest, consume_request_clock}
use call_sign.Protocol.Signing.{hash_canonical, verify_payload}
use call_sign.Protocol.Signing.Sound.{IsSigned, verify_payload-IsSigned}
use call_sign.Server.Tables.{
  GatewayRegistration, RecipientEnrollment, Authorization, AuthorizationConsumption, Database,
}
use call_sign.Server.Auth.{Request, AuthSession, require_role, protected_write}
use call_sign.Server.Handlers.{
  ServerOptions, enrollment_schema, challenge_schema, consume_request_schema,
}
use call_sign.Server.Handlers.Contact.{is_uncancelled}
use call_sign.Server.Handlers.Consume.{
  ConsumeBody, live_authorization, live_gateway, live_enrollment, other_context, consumption_input,
  prepare_consumption,
}

module _ (o : ServerOptions) (db : Database) (request : Request) (id : String) (body : ConsumeBody)
    (now now_ms : ℕ) where
  prepare-parts :
      (input : AuthorizationConsumption)
      → prepare_consumption o db request id body now now_ms ≡ ok input
      → (session : AuthSession) × (protected_write o.token_hash db request o.web_origin now_ms
          ≡ ok session)
        × (require_role session ("gateway" ∷ []) ≡ ok tt)
        × (auth : Authorization) × (live_authorization db id now ≡ some auth)
        × (gateway : GatewayRegistration) × (live_gateway db auth session.user_id ≡ some gateway)
        × (enrollment : RecipientEnrollment) × (live_enrollment db auth body.recipient_enrollment_id
              now
            ≡ some enrollment)
        × (proof : EnrollmentProof) × (verify_payload o.lib
              (enrollment_schema o)
              (λ _. "EnrollmentProof")
              enrollment.proof_jws
              o.enrollment_key.public_jwk
              (record { type = "EnrollmentProof"; kid = o.enrollment_key.kid })
            ≡ ok proof)
        × (challenge : RecipientChallenge) × (verify_payload o.lib
              (challenge_schema o)
              (λ _. "RecipientChallenge")
              body.recipient_challenge_jws
              enrollment.public_jwk
              (record { type = "RecipientChallenge"; kid = enrollment.kid })
            ≡ ok challenge)
        × (consume_request : GatewayConsumeRequest) × (verify_payload o.lib
              (consume_request_schema o)
              (λ _. "GatewayConsumeRequest")
              body.gateway_consume_request_jws
              gateway.public_jwk
              (record { type = "GatewayConsumeRequest"; kid = gateway.kid })
            ≡ ok consume_request)
        × (assert_temporal_validity (challenge_clock challenge) now ≡ ok tt)
        × (assert_temporal_validity (consume_request_clock consume_request) now ≡ ok tt)
        × (other_context o auth enrollment proof challenge consume_request body.binding ≡ false)
        × (input ≡ consumption_input o auth challenge body.binding now)
  unfolding prepare_consumption
  prepare-parts input h = ground arith

  -- The recipient's key has signed a challenge, and the gateway's key a request for this very
  -- binding and challenge, for one live authorization.
  pub record IsPossessed (input : AuthorizationConsumption) : Type 0 where
    pub session : AuthSession
    pub signed_in : protected_write o.token_hash db request o.web_origin now_ms ≡ ok session
    pub auth : Authorization
    pub on_record : live_authorization db id now ≡ some auth
    pub same_id : auth.id ≡ id
    pub live : now * 1000 < auth.expires_at
    pub gateway : GatewayRegistration
    pub own_gateway : gateway.user_id ≡ session.user_id
    pub gateway_active : gateway.active ≡ true
    pub gateway_of_auth : gateway.id ≡ auth.gateway_registration_id
    pub enrollment : RecipientEnrollment
    pub own_enrollment : enrollment.user_id ≡ auth.recipient_id
    pub challenge : RecipientChallenge
    pub challenge_signed :
        IsSigned o.lib
          (challenge_schema o)
          (λ _. "RecipientChallenge")
          body.recipient_challenge_jws
          enrollment.public_jwk
          (record { type = "RecipientChallenge"; kid = enrollment.kid })
          challenge
    pub challenge_current : IsCurrent (challenge_clock challenge) now
    pub consume_request : GatewayConsumeRequest
    pub request_signed :
        IsSigned o.lib
          (consume_request_schema o)
          (λ _. "GatewayConsumeRequest")
          body.gateway_consume_request_jws
          gateway.public_jwk
          (record { type = "GatewayConsumeRequest"; kid = gateway.kid })
          consume_request
    pub request_current : IsCurrent (consume_request_clock consume_request) now
    pub request_binding :
        consume_request.binding_hash ≡ hash_canonical o.lib (session_binding_json body.binding)
    pub request_challenge :
        consume_request.recipient_challenge_hash
        ≡ hash_canonical o.lib (recipient_challenge_json challenge)
    pub bound_authorization : body.binding.authorization_hash ≡ auth.authorization_hash
    pub bound_recipient : body.binding.recipient_id ≡ auth.recipient_id
    pub bound_nonce : body.binding.recipient_nonce ≡ challenge.recipient_nonce
    pub consumes : input ≡ consumption_input o auth challenge body.binding now

  -- A consumption that `consume` goes on to commit is that of a live authorization, asked for by the
  -- user of its active gateway registration in a protected write; the recipient's enrolled key signed
  -- a current challenge, and the gateway's key signed a current request that names the hashes of the
  -- binding and of this challenge; and the binding names the authorization, its recipient and the
  -- challenge's nonce.
  pub prepare_consumption-IsPossessed :
      (input : AuthorizationConsumption)
      → prepare_consumption o db request id body now now_ms ≡ ok input
      → IsPossessed input
  unfolding live_authorization live_gateway live_enrollment
  prepare_consumption-IsPossessed input h =
      let (
        session, w, r, auth, a, gateway, g, enrollment, e, proof, p, challenge, c, req, q, t, u, x,
        i,
      ) =
        prepare-parts input h in
      let at =
        find-test
          (λ a. a.id == id && is_uncancelled a.cancelled_at && ltb (now * 1000) a.expires_at)
          db.authorizations a in
      let gt =
        find-test
          (λ g. g.id == auth.gateway_registration_id && g.user_id == session.user_id && g.active)
          db.gateways g in
      let et =
        find-test
          (λ e.
            e.id == body.recipient_enrollment_id
            && e.user_id == auth.recipient_id
            && ltb (now * 1000) e.expires_at)
          db.enrollments e in
      record {
        session = session;
        signed_in = w;
        auth = auth;
        on_record = a;
        same_id = ground (arith, eq_iff auth.id id);
        live = ground arith;
        gateway = gateway;
        own_gateway = ground (arith, eq_iff gateway.user_id session.user_id);
        gateway_active = ground arith;
        gateway_of_auth = ground (arith, eq_iff gateway.id auth.gateway_registration_id);
        enrollment = enrollment;
        own_enrollment = ground (arith, eq_iff enrollment.user_id auth.recipient_id);
        challenge = challenge;
        challenge_signed =
            verify_payload-IsSigned o.lib (challenge_schema o) (λ _. "RecipientChallenge")
              body.recipient_challenge_jws enrollment.public_jwk _ challenge c;
        challenge_current =
            (assert_temporal_validity-IsCurrent (challenge_clock challenge) now).0 t;
        consume_request = req;
        request_signed =
            verify_payload-IsSigned o.lib (consume_request_schema o) (λ _. "GatewayConsumeRequest")
              body.gateway_consume_request_jws gateway.public_jwk _ req q;
        request_current = (assert_temporal_validity-IsCurrent (consume_request_clock req) now).0 u;
        request_binding = ground (
          arith,
          eq_iff req.binding_hash (hash_canonical o.lib (session_binding_json body.binding)),
        );
        request_challenge = ground (
          arith,
          eq_iff req.recipient_challenge_hash
              (hash_canonical o.lib (recipient_challenge_json challenge)),
        );
        bound_authorization =
            ground (arith, eq_iff body.binding.authorization_hash auth.authorization_hash);
        bound_recipient = ground (arith, eq_iff body.binding.recipient_id auth.recipient_id);
        bound_nonce = ground (arith, eq_iff body.binding.recipient_nonce challenge.recipient_nonce);
        consumes = i;
      }
