-- ===== src/Finals/Authority/Permit.antt =====
-- `permitContext`, `authorize` and `enroll` of FinalsAuthority.
use call_sign.Prelude.{
  ℕ, ◌+◌, min, String, Option, none, some, Bool, false, not, ◌&&◌, ◌||◌, [], ◌∷◌, ltb, leb, ◌==◌,
  ◌!=◌, string_eq, nat_eq, find, lookup, insert, values, Result, ok, http_error, invalid_input,
  throw_if, or_throw, ◌>>=◌, ◌>>◌,
}
use call_sign.Prelude.Int.{ℤ, pos, negsuc, sub_ℕ}
use call_sign.Protocol.Json.{Jwk}
use call_sign.Protocol.Temporal.{assert_temporal_validity}
use call_sign.Protocol.Schemas.{public_key_conforms}
use call_sign.Protocol.Signing.{hash_canonical, sign_payload, verify_payload}
use call_sign.Protocol.Finals.Messages.{
  SessionPermit, session_permit_conforms, session_permit_json, permit_clock, ContactAuthorizationV2,
  authorization_v2_conforms, authorization_v2_json,
}
use call_sign.Finals.Record.{
  Actor, ContactIntent, AttemptStatus, is_created, is_terminal, CallAttempt, Service,
  IssuedAuthorization, RecipientKey, InstitutionRecord,
}
use call_sign.Finals.Model.{membership, active_intent}
use call_sign.Finals.Authority.Options.{
  AuthorityOptions, record_event, key_hash, permit_schema, issuer_key, credential,
}

-- The attempt may still be authorized by this agent.
abbrev pub is_authorizable : CallAttempt → Actor → ℕ → Bool
is_authorizable attempt actor now =
    attempt.agent_id == actor.user_id && is_created attempt.status && ltb now attempt.expires_at

-- `difference > 60`
abbrev pub over_a_minute : ℤ → Bool
over_a_minute (pos n) = ltb 60 n
over_a_minute (negsuc n) = false

abbrev with_status : CallAttempt → AttemptStatus → CallAttempt
with_status attempt status = record attempt { status = status }

-- The key that is bound to a session may not change.
abbrev pub is_bound_to_other : (Jwk → String) → Option RecipientKey → Jwk → Bool
is_bound_to_other hash none key = false
is_bound_to_other hash (some prior) key = hash prior.public_key != hash key

module _ (options : AuthorityOptions) where
  unfoldable pub permit_context :
      InstitutionRecord
      → Actor
      → String
      → String
      → Jwk
      → String
      → ℕ
      → Result (SessionPermit × InstitutionRecord)
  permit_context r actor attempt_id vc_digest browser_public_key service_did now = do
    membership r actor ("gateway" ∷ [])
    attempt ← or_throw (lookup r.attempts attempt_id) (http_error 409 "ATTEMPT_INVALID")
    throw_if (not (is_authorizable attempt actor now)) (http_error 409 "ATTEMPT_INVALID")
    intent ← active_intent options.lib r attempt.intent_id actor now
    throw_if (intent.service_did != service_did) (http_error 403 "SERVICE_MISMATCH")
    (_, service) ← credential options r vc_digest intent.service_did now
    throw_if (not (public_key_conforms browser_public_key)) invalid_input
    let permit : SessionPermit = record {
      network_id = options.network_id;
      registry_address = options.registry_address;
      issued_at = now;
      expires_at = min (now + 60) attempt.expires_at;
      institution_id = r.id;
      intent_id = intent.id;
      attempt_id = attempt.id;
      agent_id = actor.user_id;
      service_did = service.did;
      service_key_version = service.key_version;
      browser_public_key = browser_public_key;
      session_id = attempt.session_id;
      policy_hash = intent.policy_hash;
      vc_digest = vc_digest;
    }
    throw_if (not (session_permit_conforms permit)) invalid_input
    ok (permit, r)

  -- The last test of `authorize`.
  abbrev pub other_permit :
      InstitutionRecord
      → Actor
      → String
      → SessionPermit
      → CallAttempt
      → ContactIntent
      → Service
      → Bool
  other_permit r actor digest permit attempt intent service =
      permit.network_id != options.network_id
      || permit.registry_address != options.registry_address
      || permit.institution_id != r.id
      || permit.agent_id != actor.user_id
      || permit.intent_id != intent.id
      || permit.session_id != attempt.session_id
      || permit.service_did != intent.service_did
      || permit.service_key_version != service.key_version
      || permit.vc_digest != digest
      || permit.policy_hash != intent.policy_hash
      || over_a_minute (sub_ℕ permit.expires_at permit.issued_at)

  abbrev pub authorization_of :
      InstitutionRecord
      → SessionPermit
      → CallAttempt
      → ContactIntent
      → String
      → ℕ
      → String
      → ContactAuthorizationV2
  authorization_of r permit attempt intent digest now uuid = record {
    network_id = options.network_id;
    registry_address = options.registry_address;
    issued_at = now;
    expires_at = min attempt.expires_at permit.expires_at;
    authorization_id = uuid;
    institution_id = r.id;
    issuer_did = r.did;
    approval_key_version = r.approval_key_version;
    epoch = r.epoch;
    intent_id = intent.id;
    attempt_id = attempt.id;
    recipient_id = intent.recipient_id;
    policy_hash = intent.policy_hash;
    vc_digest = digest;
    permit_hash = hash_canonical options.lib (session_permit_json permit);
    session_id = attempt.session_id;
    browser_key_hash = key_hash options permit.browser_public_key;
  }

  -- The result leaves out the permit, which is an argument.
  unfoldable pub authorize :
      InstitutionRecord
      → Actor
      → String
      → String
      → ℕ
      → String
      → String
      → Result ((ContactAuthorizationV2 × String) × InstitutionRecord)
  authorize r actor permit_jws digest now uuid event_id = do
    membership r actor ("gateway" ∷ [])
    item ← or_throw (lookup r.credentials digest) (http_error 404 "VC_NOT_FOUND")
    (_, service) ← credential options r digest item.vc.subject.id now
    permit ←
        verify_payload options.lib (permit_schema options) (λ _. "SenderSessionPermit") permit_jws
          service.public_key (record { type = "SenderSessionPermit"; kid = service.kid })
    assert_temporal_validity (permit_clock permit) now
    attempt ← or_throw (lookup r.attempts permit.attempt_id) (http_error 409 "ATTEMPT_INVALID")
    throw_if (not (is_authorizable attempt actor now)) (http_error 409 "ATTEMPT_INVALID")
    intent ← active_intent options.lib r attempt.intent_id actor now
    throw_if (other_permit r actor digest permit attempt intent service)
        (http_error 409 "PERMIT_CONTEXT_INVALID")
    let payload = authorization_of r permit attempt intent digest now uuid
    throw_if (not (authorization_v2_conforms payload)) invalid_input
    key ← issuer_key options r
    let jws =
        sign_payload options.lib (authorization_v2_json payload) "ContactAuthorization"
          key.private_key key.kid
    let item' : IssuedAuthorization = record { payload = payload; jws = jws; cancelled = false }
    let r' : InstitutionRecord = record r {
      authorizations = insert r.authorizations uuid item';
      attempts = insert r.attempts permit.attempt_id (with_status attempt AttemptStatus.authorized);
    }
    ok ((payload, jws), record_event options r' actor "authorization.issued" uuid now event_id)

  -- The result is the hash of the key.
  unfoldable pub enroll :
      InstitutionRecord → Actor → String → Jwk → ℕ → Result (String × InstitutionRecord)
  enroll r actor session_id public_key now = do
    membership r actor ("recipient" ∷ [])
    attempt ←
        or_throw (find (λ a. a.session_id == session_id) (values r.attempts))
          (http_error 404 "SESSION_NOT_FOUND")
    throw_if (leb attempt.expires_at now || is_terminal attempt.status)
        (http_error 404 "SESSION_NOT_FOUND")
    intent ← active_intent options.lib r attempt.intent_id actor now
    throw_if (intent.recipient_id != actor.user_id) (http_error 404 "SESSION_NOT_FOUND")
    throw_if (not (public_key_conforms public_key)) invalid_input
    throw_if (is_bound_to_other (key_hash options) (lookup r.recipient_keys session_id) public_key)
        (http_error 409 "RECIPIENT_KEY_ALREADY_BOUND")
    let entry : RecipientKey = record {
      user_id = actor.user_id;
      public_key = public_key;
      expires_at = attempt.expires_at;
    }
    ok (
      key_hash options public_key,
      record r { recipient_keys = insert r.recipient_keys session_id entry },
    )
