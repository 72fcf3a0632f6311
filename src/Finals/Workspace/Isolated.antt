-- ===== src/Finals/Workspace/Isolated.antt =====
-- `workspaceFor` of services/api/src/finals-model.ts: what a recipient and an agent are shown.
use call_sign.Prelude.{
  ◌≡◌, String, true, [], map, ap, ◌∙◌, ◌==◌, string_eq, any, values, All, All-unit, All-shown, ok,
  if◌then◌else◌,
}
use call_sign.Finals.Record.{Actor, InstitutionRecord}
use call_sign.Finals.Workspace.Shown.{
  IsKeyed, shown_intents, shown_attempts, shown_authorizations, workspace-parts, recipient-intent,
  gateway-intent, recipient-credential, gateway-credential, recipient-authorization,
  gateway-attempt, attempts_of_intents, authorizations_of_intents, authorizations_of_attempts,
}
use call_sign.Finals.Workspace.{
  Workspace, shows_intent, shows_attempt, shows_authorization, shows_credential, workspace_for,
}

-- What a recipient is shown: the contacts made out to the recipient, the calls for these, the
-- authorizations of these calls that are made out to the recipient, the credentials of these
-- authorizations, and no services.
pub record IsOwn (user_id : String) (w : Workspace) : Type 0 where
  pub intents : All (λ i. i.recipient_id ≡ user_id) w.intents
  pub attempts : All (λ t. any (λ i. i.id == t.intent_id) w.intents ≡ true) w.attempts
  pub authorizations : All (λ a. a.payload.recipient_id ≡ user_id) w.authorizations
  pub calls : All (λ a. any (λ t. t.id == a.payload.attempt_id) w.attempts ≡ true) w.authorizations
  pub credentials :
      All (λ c. any (λ a. a.payload.vc_digest == c.0) w.authorizations ≡ true) w.credentials
  pub services : w.services ≡ []

-- What an agent is shown: the contacts that are assigned to the agent, the agent's calls for these, the
-- authorizations of these contacts and calls, the credentials of the services of these contacts, and no
-- services.
pub record IsAssigned (user_id : String) (w : Workspace) : Type 0 where
  pub intents : All (λ i. i.agent_id ≡ user_id) w.intents
  pub attempts : All (λ t. t.agent_id ≡ user_id) w.attempts
  pub contacts : All (λ t. any (λ i. i.id == t.intent_id) w.intents ≡ true) w.attempts
  pub authorizations :
      All (λ a. any (λ i. i.id == a.payload.intent_id) w.intents ≡ true) w.authorizations
  pub calls : All (λ a. any (λ t. t.id == a.payload.attempt_id) w.attempts ≡ true) w.authorizations
  pub credentials :
      All (λ c. any (λ i. i.service_did == c.1.vc.subject.id) w.intents ≡ true) w.credentials
  pub services : w.services ≡ []

module _ (r : InstitutionRecord) (actor : Actor) where
  -- When every intent stands under its own identifier, a recipient is shown only contacts made out to
  -- this recipient, calls for these contacts, authorizations of these calls made out to this recipient,
  -- the credentials of these authorizations, and no services.
  pub workspace_for-IsOwn :
      (w : Workspace)
      → IsKeyed r.intents
      → actor.role ≡ "recipient"
      → workspace_for r actor ≡ ok w
      → IsOwn actor.user_id w
  workspace_for-IsOwn w keyed role h =
      let (intents, attempts, authorizations, credentials, services) =
        workspace-parts r actor w h in
      record {
        intents = rw (intents) (
            All-shown (λ x. Unit) (λ i. i.recipient_id ≡ actor.user_id) (shows_intent r actor)
              (values r.intents) (All-unit (values r.intents))
              (λ i e u. recipient-intent r actor i role e));
        attempts = rw (attempts, intents) (attempts_of_intents r actor);
        calls = rw (authorizations, attempts) (authorizations_of_attempts r actor);
        authorizations = rw (authorizations) (
            All-shown (λ x. Unit) (λ a. a.payload.recipient_id ≡ actor.user_id)
              (shows_authorization r (shown_intents r actor) (shown_attempts r actor))
              (values r.authorizations) (All-unit (values r.authorizations))
              (λ a e u. recipient-authorization r actor a keyed role e));
        credentials =
            rw (credentials, authorizations)
              (All-shown (λ x. Unit)
                (λ c. any (λ a. a.payload.vc_digest == c.0) (shown_authorizations r actor) ≡ true)
                (shows_credential actor (shown_intents r actor) (shown_authorizations r actor))
                r.credentials (All-unit r.credentials)
                (λ c e u.
                  recipient-credential r actor (shown_intents r actor)
                    (shown_authorizations r actor) c role e));
        services =
            services ∙ ap (λ s. if s == "institution" then map (λ e. e.0) r.services else []) role;
      }

  -- When every intent stands under its own identifier, an agent is shown only contacts assigned to this
  -- agent, calls of this agent for these contacts, authorizations of these contacts and calls, credentials
  -- of the services of these contacts, and no services.
  pub workspace_for-IsAssigned :
      (w : Workspace)
      → IsKeyed r.intents
      → actor.role ≡ "gateway"
      → workspace_for r actor ≡ ok w
      → IsAssigned actor.user_id w
  workspace_for-IsAssigned w keyed role h =
      let (intents, attempts, authorizations, credentials, services) =
        workspace-parts r actor w h in
      record {
        intents = rw (intents) (
            All-shown (λ x. Unit) (λ i. i.agent_id ≡ actor.user_id) (shows_intent r actor)
              (values r.intents) (All-unit (values r.intents))
              (λ i e u. gateway-intent r actor i role e));
        contacts = rw (attempts, intents) (attempts_of_intents r actor);
        authorizations = rw (authorizations, intents) (authorizations_of_intents r actor);
        calls = rw (authorizations, attempts) (authorizations_of_attempts r actor);
        attempts = rw (attempts) (
            All-shown (λ x. Unit) (λ t. t.agent_id ≡ actor.user_id)
              (shows_attempt r (shown_intents r actor)) (values r.attempts)
              (All-unit (values r.attempts)) (λ t e u. gateway-attempt r actor t keyed role e));
        credentials =
            rw (credentials, intents)
              (All-shown (λ x. Unit)
                (λ c. any (λ i. i.service_did == c.1.vc.subject.id) (shown_intents r actor) ≡ true)
                (shows_credential actor (shown_intents r actor) (shown_authorizations r actor))
                r.credentials (All-unit r.credentials)
                (λ c e u.
                  gateway-credential r actor (shown_intents r actor) (shown_authorizations r actor)
                    c role e));
        services =
            services ∙ ap (λ s. if s == "institution" then map (λ e. e.0) r.services else []) role;
      }
