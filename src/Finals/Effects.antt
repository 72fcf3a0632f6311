-- ===== src/Finals/Effects.antt =====
-- The operations of services/api/src/finals-authority.ts: the record of an institution before and after.
pub mod Permit
pub mod Consume
pub mod Lifecycle
use call_sign.Prelude.{
  ℕ, ◌+◌, ◌≤◌, ◌<◌, min, ◌≡◌, refl, sym, ap, ◌∙◌, String, Option, none, some, true, List, [], ◌∷◌,
  ◌++◌, arith, ◌⊎◌, inl, inr, lookup, insert, values, update_values, ok, eq_iff, chain-ok,
}
use call_sign.Prelude.Kept.{Kept, Kept-refl, Kept-insert, Kept-update_values}
use call_sign.Prelude.Text.{big_int}
use call_sign.Protocol.Json.{Jwk}
use call_sign.Finals.Record.{
  Actor, IntentStatus, ContactIntent, AttemptStatus, CallAttempt, IssuedCredential,
  IssuedAuthorization, InstitutionRecord,
}
use call_sign.Finals.Model.{MockFds, is_assignable, import_mock_fds}
use call_sign.Finals.Evolution.{
  IntentKept, IntentKept-refl, AttemptKept, AttemptKept-refl, CredentialKept, CredentialKept-refl,
  AuthorizationKept, AuthorizationKept-refl, Evolves, Evolves-trans,
}
use call_sign.Finals.Evolution.Updates.{
  Evolves-intents, Evolves-attempts, Evolves-credentials, Evolves-event,
}
use call_sign.Finals.Authority.Options.{AuthorityOptions, key_hash, record_event}
use call_sign.Finals.Authority.Issue.{create_intent, create_attempt, issue_credential}

module _ (options : AuthorityOptions) where
  assignable-free :
      (r : InstitutionRecord) (body : MockFds) (now : ℕ) (o : Option ContactIntent)
      → lookup r.intents body.id ≡ o
      → is_assignable r body now ≡ true
      → o ≡ none
  unfolding is_assignable
  assignable-free r body now none e h = refl
  assignable-free r body now (some i) e h = ground arith

  import_mock_fds-parts :
      (r : InstitutionRecord) (actor : Actor) (body : MockFds) (now : ℕ) (i : ContactIntent)
      (r' : InstitutionRecord)
      → import_mock_fds options.lib r actor body now ≡ ok (i, r')
      → (is_assignable r body now ≡ true)
        × (i.id ≡ body.id)
        × (r' ≡ record r { intents = insert r.intents i.id i })
  unfolding import_mock_fds
  import_mock_fds-parts r actor body now i r' h = ground arith

  create_intent-parts :
      (r : InstitutionRecord) (actor : Actor) (input : MockFds) (now : ℕ) (event_id : String)
      (i : ContactIntent) (r' : InstitutionRecord)
      → create_intent options r actor input now event_id ≡ ok (i, r')
      → (q : InstitutionRecord) × (import_mock_fds options.lib r actor input now ≡ ok (i, q))
        × (r' ≡ record_event options q actor "intent.created" i.id now event_id)
  unfolding create_intent
  create_intent-parts r actor input now event_id i r' h =
      let m = chain-ok (import_mock_fds options.lib r actor input now) _ h in
      (m.0.1, ground (arith, m.1, m.2), ground (arith, m.2))

  create_attempt-parts :
      (r : InstitutionRecord) (actor : Actor) (intent_id : String) (now : ℕ)
      (attempt_id session_id event_id : String) (a : CallAttempt) (r' : InstitutionRecord)
      → create_attempt options r actor intent_id now attempt_id session_id event_id ≡ ok (a, r')
      → r'
        ≡ record_event options
            (record r { attempts = insert r.attempts attempt_id a })
            actor
            "attempt.created"
            attempt_id
            now
            event_id
  unfolding create_attempt
  create_attempt-parts r actor intent_id now attempt_id session_id event_id a r' h = ground arith

  issue_credential-parts :
      (r : InstitutionRecord) (actor : Actor) (service_did : String) (now : ℕ)
      (uuid event_id : String) (item : IssuedCredential) (digest : String) (r' : InstitutionRecord)
      → issue_credential options r actor service_did now uuid event_id ≡ ok ((item, digest), r')
      → (r'
          ≡ record_event options
              (record r { credentials = insert r.credentials digest item })
              actor
              "vc.issued.pending-ledger"
              item.vc.id
              now
              event_id)
  unfolding issue_credential
  issue_credential-parts r actor service_did now uuid event_id item digest r' h = ground arith

module _ (options : AuthorityOptions) (hash : Jwk → String) where
  pub create_intent-Evolves :
      (r : InstitutionRecord) (actor : Actor) (input : MockFds) (now : ℕ) (event_id : String)
      (i : ContactIntent) (r' : InstitutionRecord)
      → create_intent options r actor input now event_id ≡ ok (i, r')
      → Evolves hash r r'
  create_intent-Evolves r actor input now event_id i r' h =
      let (q, m, e) = create_intent-parts options r actor input now event_id i r' h in
      let (free, same, e') = import_mock_fds-parts options r actor input now i q m in
      let none_there = assignable-free options r input now (lookup r.intents input.id) refl free in
      rw (e) (
        rw (e') (
          Evolves-trans hash r _ _
            (Evolves-intents hash r _
              (Kept-insert IntentKept IntentKept-refl r.intents i.id i (λ w k. cc)))
            (Evolves-event options hash _ actor "intent.created" i.id now event_id)))

  pub create_attempt-Evolves :
      (r : InstitutionRecord) (actor : Actor) (intent_id : String) (now : ℕ)
      (attempt_id session_id event_id : String) (a : CallAttempt) (r' : InstitutionRecord)
      → lookup r.attempts attempt_id ≡ none
      → create_attempt options r actor intent_id now attempt_id session_id event_id ≡ ok (a, r')
      → Evolves hash r r'
  create_attempt-Evolves r actor intent_id now attempt_id session_id event_id a r' free h =
      rw (create_attempt-parts options r actor intent_id now attempt_id session_id event_id a r' h)
        (Evolves-trans hash r _ _
          (Evolves-attempts hash r _
            (Kept-insert AttemptKept AttemptKept-refl r.attempts attempt_id a (λ w k. cc)))
          (Evolves-event options hash _ actor "attempt.created" attempt_id now event_id))

  pub issue_credential-Evolves :
      (r : InstitutionRecord) (actor : Actor) (service_did : String) (now : ℕ)
      (uuid event_id : String) (item : IssuedCredential) (digest : String) (r' : InstitutionRecord)
      → lookup r.credentials digest ≡ none
      → issue_credential options r actor service_did now uuid event_id ≡ ok ((item, digest), r')
      → Evolves hash r r'
  issue_credential-Evolves r actor service_did now uuid event_id item digest r' free h =
      rw (issue_credential-parts options r actor service_did now uuid event_id item digest r' h) (
        Evolves-trans hash r _ _
          (Evolves-credentials hash r _
            (Kept-insert CredentialKept CredentialKept-refl r.credentials digest item (λ w k. cc)))
          (Evolves-event options hash _ actor "vc.issued.pending-ledger" item.vc.id now event_id))
