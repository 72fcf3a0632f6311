-- ===== src/Finals/Model.antt =====
-- The functions of services/api/src/finals-model.ts: who is a member, who may see which contact, the
-- import of a contact and the test that an attempt is live.
use call_sign.Prelude.{
  ℕ, ◌+◌, ◌*◌, String, Option, none, some, Bool, true, false, not, ◌&&◌, ◌||◌, List, [], ◌∷◌, ltb,
  leb, ◌==◌, ◌!=◌, string_eq, nat_eq, any, find, lookup, insert, values, Result, Checked, ok,
  http_error, invalid_input, if◌then◌else◌, throw_if, or_throw, if◌then◌else◌, ◌>>=◌, ◌>>◌,
}
use call_sign.Prelude.Text.{has_length}
use call_sign.Protocol.Json.{Libraries, is_text}
use call_sign.Protocol.Temporal.{max_safe_integer}
use call_sign.Protocol.Finals.{policy_hash}
use call_sign.Finals.Record.{
  Actor, IntentStatus, is_open, ContactIntent, is_created, is_consumed, is_terminal, CallAttempt,
  Service, Member, IssuedCredential, IssuedAuthorization, is_active, InstitutionRecord,
}

-- `actor.membershipGeneration !== undefined && actor.membershipGeneration !== generation`
abbrev other_generation : Option ℕ → ℕ → Bool
other_generation none generation = false
other_generation (some g) generation = g != generation

abbrev is_member : Option Member → Actor → Bool
is_member none actor = false
is_member (some m) actor =
    m.role == actor.role
    && m.active
    && not (other_generation actor.membership_generation m.session_generation)

unfoldable pub membership : InstitutionRecord → Actor → List String → Checked
unfolding any
membership record_ actor roles =
    throw_if
      (record_.id != actor.institution_id
        || not (any (λ role. role == actor.role) roles)
        || not (is_member (lookup record_.members actor.user_id) actor))
      (http_error 403 "OBJECT_FORBIDDEN")

abbrev pub service_did_of : Option Member → Option String
service_did_of none = none
service_did_of (some m) = m.service_did

-- The tests on the roles `gateway` and `recipient` in `activeIntent`.
unfoldable pub may_see : InstitutionRecord → ContactIntent → Actor → Bool
may_see record_ intent actor =
    not (
      actor.role == "gateway"
      && (intent.agent_id != actor.user_id
          || not
              (is_text (service_did_of (lookup record_.members actor.user_id)) intent.service_did)))
    && not (actor.role == "recipient" && intent.recipient_id != actor.user_id)

-- `mockFdsSchema`
pub record MockFds : Type 0 where
  pub id : String
  pub recipient_id : String
  pub agent_id : String
  pub service_did : String
  pub expires_at : ℕ

unfoldable pub fds_conforms : MockFds → Bool
fds_conforms v =
    has_length 3 100 v.id
    && has_length 3 200 v.recipient_id
    && has_length 3 200 v.agent_id
    && has_length 3 200 v.service_did
    && leb 1 v.expires_at
    && leb v.expires_at max_safe_integer

abbrev is_present {ℓ} : {A : Type ℓ} → Option A → Bool
is_present none = false
is_present (some _) = true

-- The member has this role and is not deactivated.
abbrev has_role : Option Member → String → Bool
has_role none role = false
has_role (some m) role = m.role == role && m.active

abbrev pub is_active_service : Option Service → Bool
is_active_service none = false
is_active_service (some s) = s.active

-- The condition under which `importMockFds` takes the contact.
unfoldable pub is_assignable : InstitutionRecord → MockFds → ℕ → Bool
is_assignable record_ body now =
    is_active record_.status
    && not (is_present (lookup record_.intents body.id))
    && ltb now body.expires_at
    && leb body.expires_at (now + 86400)
    && has_role (lookup record_.members body.recipient_id) "recipient"
    && has_role (lookup record_.members body.agent_id) "gateway"
    && is_text (service_did_of (lookup record_.members body.agent_id)) body.service_did
    && is_active_service (lookup record_.services body.service_did)

-- The first test of `liveAttemptFor`, on the attempt alone.
abbrev is_live : CallAttempt → ℕ → Bool → Bool
is_live attempt now consumed_only =
    ltb now attempt.expires_at
    && not (is_terminal attempt.status)
    && not (consumed_only && not (is_consumed attempt.status))

-- The second test: the authorization of the attempt.
unfoldable pub is_live_authorization :
    InstitutionRecord → ContactIntent → IssuedAuthorization → ℕ → Bool
is_live_authorization record_ intent auth now =
    not auth.cancelled
    && auth.payload.institution_id == record_.id
    && auth.payload.recipient_id == intent.recipient_id
    && auth.payload.policy_hash == intent.policy_hash
    && auth.payload.epoch == record_.epoch
    && auth.payload.approval_key_version == record_.approval_key_version
    && ltb now auth.payload.expires_at

-- The third: its credential. Instants are in milliseconds, `now` is in seconds.
unfoldable pub is_live_credential :
    InstitutionRecord → ContactIntent → Service → IssuedCredential → ℕ → Bool
is_live_credential record_ intent service credential now =
    let vc = credential.vc in
    leb vc.valid_from (now * 1000)
    && ltb (now * 1000) vc.valid_until
    && vc.subject.id == intent.service_did
    && vc.subject.service_key_version == service.key_version
    && vc.subject.policy_hash == intent.policy_hash
    && vc.status.epoch == record_.epoch
    && vc.status.approval_key_version == record_.approval_key_version

module _ (lib : Libraries) where
  unfoldable pub active_intent : InstitutionRecord → String → Actor → ℕ → Result ContactIntent
  active_intent record_ intent_id actor now = do
    membership record_ actor ("gateway" ∷ "institution" ∷ "recipient" ∷ [])
    intent ← or_throw (lookup record_.intents intent_id) (http_error 404 "INTENT_NOT_FOUND")
    throw_if (intent.institution_id != record_.id || not (may_see record_ intent actor))
        (http_error 404 "INTENT_NOT_FOUND")
    throw_if
        (not (is_active record_.status) || not (is_open intent.status) || leb intent.expires_at now)
        (http_error 409 "INTENT_NOT_ACTIVE")
    current ← policy_hash lib record_.policy
    throw_if (intent.policy_hash != current) (http_error 409 "INTENT_NOT_ACTIVE")
    ok intent

  unfoldable pub import_mock_fds :
      InstitutionRecord → Actor → MockFds → ℕ → Result (ContactIntent × InstitutionRecord)
  import_mock_fds record_ actor body now = do
    membership record_ actor ("institution" ∷ [])
    throw_if (not (fds_conforms body)) invalid_input
    throw_if (not (is_assignable record_ body now)) (http_error 409 "FDS_ASSIGNMENT_INVALID")
    current ← policy_hash lib record_.policy
    let intent : ContactIntent = record {
      id = body.id;
      institution_id = record_.id;
      recipient_id = body.recipient_id;
      agent_id = body.agent_id;
      service_did = body.service_did;
      policy_hash = current;
      expires_at = body.expires_at;
      status = IntentStatus.opened;
    }
    ok (intent, record record_ { intents = insert record_.intents intent.id intent })

  -- What `liveAttemptFor` asks of an attempt that is past `created`.
  check_live_authorization : InstitutionRecord → ContactIntent → Service → CallAttempt → ℕ → Checked
  check_live_authorization record_ intent service attempt now = do
    auth ←
        or_throw
          (find (λ item. item.payload.attempt_id == attempt.id) (values record_.authorizations))
          (http_error 403 "CALL_AUTHORIZATION_INVALID")
    throw_if (not (is_live_authorization record_ intent auth now))
        (http_error 403 "CALL_AUTHORIZATION_INVALID")
    credential ←
        or_throw (lookup record_.credentials auth.payload.vc_digest)
          (http_error 403 "CALL_AUTHORIZATION_INVALID")
    throw_if (credential.revoked || not (is_live_credential record_ intent service credential now))
        (http_error 403 "CALL_AUTHORIZATION_INVALID")

  unfoldable pub live_attempt_for :
      InstitutionRecord → Actor → String → ℕ → Bool → Result (CallAttempt × ContactIntent)
  unfolding check_live_authorization
  live_attempt_for record_ actor attempt_id now consumed_only = do
    membership record_ actor ("gateway" ∷ "recipient" ∷ [])
    attempt ← or_throw (lookup record_.attempts attempt_id) (http_error 403 "CALL_CONTEXT_INVALID")
    throw_if (not (is_live attempt now consumed_only)) (http_error 403 "CALL_CONTEXT_INVALID")
    intent ← active_intent record_ attempt.intent_id actor now
    service ←
        or_throw (lookup record_.services intent.service_did)
          (http_error 403 "CALL_CONTEXT_INVALID")
    throw_if (not service.active || attempt.agent_id != intent.agent_id)
        (http_error 403 "CALL_CONTEXT_INVALID")
    if is_created attempt.status
        then ok tt
        else check_live_authorization record_ intent service attempt now
    ok (attempt, intent)
