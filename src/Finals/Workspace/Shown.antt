-- ===== src/Finals/Workspace/Shown.antt =====
-- `workspaceFor` of services/api/src/finals-model.ts: what passes its filters.
use call_sign.Prelude.{
  ◌≡◌, String, Option, none, some, true, false, List, [], map, arith, eq_iff, ap, sym, ◌∙◌, ◌==◌,
  string_eq, any, select, lookup, values, Dict, All, All-select, All-any, All-unit, All-shown, ok,
  if◌then◌else◌,
}
use call_sign.Finals.Record.{
  Actor, ContactIntent, CallAttempt, IssuedCredential, IssuedAuthorization, InstitutionRecord,
}
use call_sign.Finals.Workspace.{
  Workspace, has_field, shows_intent, shows_attempt, shows_authorization, shows_credential,
  workspace_for,
}

-- Every intent stands under its own identifier.
abbrev pub IsKeyed : Dict ContactIntent → Type 0
IsKeyed intents = All (λ i. lookup intents i.id ≡ some i) (values intents)

abbrev pub shown_intents : InstitutionRecord → Actor → List ContactIntent
shown_intents r actor = select (shows_intent r actor) (values r.intents)

abbrev pub shown_attempts : InstitutionRecord → Actor → List CallAttempt
shown_attempts r actor = select (shows_attempt r (shown_intents r actor)) (values r.attempts)

abbrev pub shown_authorizations : InstitutionRecord → Actor → List IssuedAuthorization
shown_authorizations r actor =
    select (shows_authorization r (shown_intents r actor) (shown_attempts r actor))
      (values r.authorizations)

pub workspace-parts :
    (r : InstitutionRecord) (actor : Actor) (w : Workspace)
    → workspace_for r actor ≡ ok w
    → (w.intents ≡ shown_intents r actor)
      × (w.attempts ≡ shown_attempts r actor)
      × (w.authorizations ≡ shown_authorizations r actor)
      × (w.credentials
          ≡ select
              (shows_credential actor (shown_intents r actor) (shown_authorizations r actor))
              r.credentials)
      × (w.services ≡ (if actor.role == "institution" then map (λ e. e.0) r.services else []))
unfolding workspace_for
workspace-parts r actor w h = ground arith

module _ (r : InstitutionRecord) (actor : Actor) where
  pub recipient-intent :
      (i : ContactIntent)
      → actor.role ≡ "recipient"
      → shows_intent r actor i ≡ true
      → i.recipient_id ≡ actor.user_id
  recipient-intent i role h =
      let institution : (actor.role == "institution") ≡ false = ap (λ s. s == "institution") role in
      let gateway : (actor.role == "gateway") ≡ false = ap (λ s. s == "gateway") role in
      ground (arith, eq_iff i.recipient_id actor.user_id)

  pub gateway-intent :
      (i : ContactIntent)
      → actor.role ≡ "gateway"
      → shows_intent r actor i ≡ true
      → i.agent_id ≡ actor.user_id
  gateway-intent i role h =
      let institution : (actor.role == "institution") ≡ false = ap (λ s. s == "institution") role in
      let gateway : (actor.role == "gateway") ≡ true = ap (λ s. s == "gateway") role in
      ground (arith, eq_iff i.agent_id actor.user_id)

  field-same :
      (field : ContactIntent → String) (i : ContactIntent) (o : Option ContactIntent) (s : String)
      → o ≡ some i
      → has_field field o s ≡ true
      → field i ≡ s
  field-same field i none s e h = cc
  field-same field i (some j) s e h = ground (arith, eq_iff (field j) s)

  pub recipient-credential :
      (intents : List ContactIntent) (authorizations : List IssuedAuthorization)
      (c : String × IssuedCredential)
      → actor.role ≡ "recipient"
      → shows_credential actor intents authorizations c ≡ true
      → any (λ a. a.payload.vc_digest == c.0) authorizations ≡ true
  recipient-credential intents authorizations c role h =
      let institution : (actor.role == "institution") ≡ false = ap (λ s. s == "institution") role in
      let gateway : (actor.role == "gateway") ≡ false = ap (λ s. s == "gateway") role in
      ground arith

  pub gateway-credential :
      (intents : List ContactIntent) (authorizations : List IssuedAuthorization)
      (c : String × IssuedCredential)
      → actor.role ≡ "gateway"
      → shows_credential actor intents authorizations c ≡ true
      → any (λ i. i.service_did == c.1.vc.subject.id) intents ≡ true
  gateway-credential intents authorizations c role h =
      let institution : (actor.role == "institution") ≡ false = ap (λ s. s == "institution") role in
      let gateway : (actor.role == "gateway") ≡ true = ap (λ s. s == "gateway") role in ground arith

  -- An intent that is shown is the one that stands under its identifier.
  shown-keyed :
      (id : String)
      → IsKeyed r.intents
      → any (λ i. i.id == id) (shown_intents r actor) ≡ true
      → (i : ContactIntent) × (lookup r.intents id ≡ some i) × (shows_intent r actor i ≡ true)
  shown-keyed id keyed h =
      let (i, (shown, there), same) =
        All-any (λ i. (shows_intent r actor i ≡ true) × (lookup r.intents i.id ≡ some i))
          (λ i. i.id == id) (shown_intents r actor)
          (All-select (λ i. lookup r.intents i.id ≡ some i) (shows_intent r actor)
            (values r.intents) keyed)
          h in
      let at : i.id ≡ id = ground (arith, eq_iff i.id id) in
      (i, sym (ap (lookup r.intents) at) ∙ there, shown)

  pub recipient-authorization :
      (a : IssuedAuthorization)
      → IsKeyed r.intents
      → actor.role ≡ "recipient"
      → shows_authorization r (shown_intents r actor) (shown_attempts r actor) a ≡ true
      → a.payload.recipient_id ≡ actor.user_id
  recipient-authorization a keyed role h =
      let (i, there, shown) = shown-keyed a.payload.intent_id keyed (ground arith) in
      let same : i.recipient_id ≡ a.payload.recipient_id =
        field-same (λ i. i.recipient_id) i (lookup r.intents a.payload.intent_id)
          a.payload.recipient_id there (ground arith) in
      rw (← same) (recipient-intent i role shown)

  pub gateway-attempt :
      (t : CallAttempt)
      → IsKeyed r.intents
      → actor.role ≡ "gateway"
      → shows_attempt r (shown_intents r actor) t ≡ true
      → t.agent_id ≡ actor.user_id
  gateway-attempt t keyed role h =
      let (i, there, shown) = shown-keyed t.intent_id keyed (ground arith) in
      let same : i.agent_id ≡ t.agent_id =
        field-same (λ i. i.agent_id) i (lookup r.intents t.intent_id) t.agent_id there
          (ground arith) in
      rw (← same) (gateway-intent i role shown)

  pub attempts_of_intents :
      All
        (λ t. any (λ i. i.id == t.intent_id) (shown_intents r actor) ≡ true)
        (shown_attempts r actor)
  attempts_of_intents =
      All-shown (λ x. Unit) (λ t. any (λ i. i.id == t.intent_id) (shown_intents r actor) ≡ true)
        (shows_attempt r (shown_intents r actor)) (values r.attempts) (All-unit (values r.attempts))
        (λ t e u. ground arith)

  pub authorizations_of_intents :
      All
        (λ a. any (λ i. i.id == a.payload.intent_id) (shown_intents r actor) ≡ true)
        (shown_authorizations r actor)
  authorizations_of_intents =
      All-shown (λ x. Unit)
        (λ a. any (λ i. i.id == a.payload.intent_id) (shown_intents r actor) ≡ true)
        (shows_authorization r (shown_intents r actor) (shown_attempts r actor))
        (values r.authorizations) (All-unit (values r.authorizations)) (λ a e u. ground arith)

  pub authorizations_of_attempts :
      All
        (λ a. any (λ t. t.id == a.payload.attempt_id) (shown_attempts r actor) ≡ true)
        (shown_authorizations r actor)
  authorizations_of_attempts =
      All-shown (λ x. Unit)
        (λ a. any (λ t. t.id == a.payload.attempt_id) (shown_attempts r actor) ≡ true)
        (shows_authorization r (shown_intents r actor) (shown_attempts r actor))
        (values r.authorizations) (All-unit (values r.authorizations)) (λ a e u. ground arith)
