-- ===== src/Finals/Workspace.antt =====
-- `workspaceFor` of services/api/src/finals-model.ts: what an actor is shown of an institution's record.
pub mod Isolated
pub mod Keyed
pub mod Shown
use call_sign.Prelude.{
  ℕ, String, Option, none, some, Bool, true, false, not, ◌&&◌, ◌||◌, List, [], ◌∷◌, map, ◌==◌, ◌!=◌,
  string_eq, any, select, lookup, values, Dict, Result, ok, if◌then◌else◌, ◌>>=◌, ◌>>◌,
}
use call_sign.Protocol.Json.{is_text}
use call_sign.Protocol.Finals.Credential.{PurposePolicy}
use call_sign.Finals.Record.{
  Actor, ContactIntent, CallAttempt, IssuedCredential, IssuedAuthorization, InstitutionRecord,
}
use call_sign.Finals.Model.{membership, service_did_of}

pub record Workspace : Type 0 where
  pub actor : Actor
  pub policy : PurposePolicy
  pub intents : List ContactIntent
  pub authorizations : List IssuedAuthorization
  pub credentials : Dict IssuedCredential
  pub services : List String
  pub attempts : List CallAttempt

-- `record.intents[id]?.field === text`
abbrev pub has_field : (ContactIntent → String) → Option ContactIntent → String → Bool
has_field field none s = false
has_field field (some i) s = field i == s

-- The filter of `intents`.
abbrev pub shows_intent : InstitutionRecord → Actor → ContactIntent → Bool
shows_intent record_ actor intent =
    intent.institution_id == record_.id
    && (actor.role == "institution"
        || (if actor.role == "gateway"
            then intent.agent_id == actor.user_id
              && is_text (service_did_of (lookup record_.members actor.user_id)) intent.service_did
            else actor.role == "recipient" && intent.recipient_id == actor.user_id))

-- The filter of `attempts`, on the intents that are shown.
abbrev pub shows_attempt : InstitutionRecord → List ContactIntent → CallAttempt → Bool
shows_attempt record_ intents attempt =
    any (λ i. i.id == attempt.intent_id) intents
    && has_field (λ i. i.agent_id) (lookup record_.intents attempt.intent_id) attempt.agent_id

-- The filter of `authorizations`, on the intents and attempts that are shown.
abbrev pub shows_authorization :
    InstitutionRecord → List ContactIntent → List CallAttempt → IssuedAuthorization → Bool
shows_authorization record_ intents attempts auth =
    auth.payload.institution_id == record_.id
    && any (λ i. i.id == auth.payload.intent_id) intents
    && any (λ t. t.id == auth.payload.attempt_id) attempts
    && has_field (λ i. i.recipient_id) (lookup record_.intents auth.payload.intent_id)
        auth.payload.recipient_id

-- The filter of `credentials`, on the intents and authorizations that are shown.
abbrev pub shows_credential :
    Actor → List ContactIntent → List IssuedAuthorization → String × IssuedCredential → Bool
shows_credential actor intents authorizations (digest, item) =
    actor.role == "institution"
    || (if actor.role == "gateway"
        then any (λ i. i.service_did == item.vc.subject.id) intents
        else actor.role == "recipient" && any (λ a. a.payload.vc_digest == digest) authorizations)

unfoldable pub workspace_for : InstitutionRecord → Actor → Result Workspace
workspace_for record_ actor = do
  membership record_ actor ("institution" ∷ "gateway" ∷ "recipient" ∷ "approver" ∷ [])
  let intents = select (shows_intent record_ actor) (values record_.intents)
  let attempts = select (shows_attempt record_ intents) (values record_.attempts)
  let authorizations =
      select (shows_authorization record_ intents attempts) (values record_.authorizations)
  let credentials = select (shows_credential actor intents authorizations) record_.credentials
  ok (record {
    actor = actor;
    policy = record_.policy;
    intents = intents;
    authorizations = authorizations;
    credentials = credentials;
    services = if actor.role == "institution" then map (λ e. e.0) record_.services else [];
    attempts = attempts;
  })
