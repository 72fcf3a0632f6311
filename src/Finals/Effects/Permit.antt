-- ===== src/Finals/Effects/Permit.antt =====
-- `permitContext`, `authorize`, `enroll` and `consume`: what a success says, and what it leaves of the record.
use call_sign.Prelude.{
  ℕ, ◌≡◌, refl, String, Option, none, some, true, false, arith, lookup, insert, values, ok, eq_iff,
  find, ◌==◌, string_eq,
}
use call_sign.Prelude.Kept.{Kept-insert}
use call_sign.Protocol.Json.{Jwk}
use call_sign.Protocol.Finals.Messages.{SessionPermit, permit_clock, ContactAuthorizationV2}
use call_sign.Protocol.Signing.{verify_payload}
use call_sign.Protocol.Temporal.{assert_temporal_validity}
use call_sign.Protocol.Finals.Credential.{DelegationCredential}
use call_sign.Finals.Model.{active_intent}
use call_sign.Finals.Record.{
  Service, Actor, ContactIntent, AttemptStatus, CallAttempt, IssuedCredential, RecipientKey,
  InstitutionRecord,
}
use call_sign.Finals.Evolution.{
  AttemptKept, AttemptKept-refl, AuthorizationKept, AuthorizationKept-refl, KeyKept, Evolves,
  Evolves-trans,
}
use call_sign.Finals.Evolution.Updates.{
  Evolves-attempts, Evolves-authorizations, Evolves-recipient_keys, Evolves-event,
}
use call_sign.Finals.Authority.Options.{
  AuthorityOptions, record_event, key_hash, credential, permit_schema,
}
use call_sign.Finals.Authority.Permit.{
  is_bound_to_other, is_authorizable, other_permit, authorization_of, authorize, permit_context,
  enroll,
}

module _ (options : AuthorityOptions) where
  pub authorize-parts :
      (r : InstitutionRecord) (actor : Actor) (permit_jws digest : String) (now : ℕ)
      (uuid event_id : String) (p : ContactAuthorizationV2) (jws : String) (r' : InstitutionRecord)
      → authorize options r actor permit_jws digest now uuid event_id ≡ ok ((p, jws), r')
      → (item : IssuedCredential) × (lookup r.credentials digest ≡ some item)
        × (c : DelegationCredential × Service) × (credential options r digest item.vc.subject.id now
            ≡ ok c)
        × (permit : SessionPermit) × (verify_payload options.lib
              (permit_schema options)
              (λ _. "SenderSessionPermit")
              permit_jws
              c.1.public_key
              (record { type = "SenderSessionPermit"; kid = c.1.kid })
            ≡ ok permit)
        × (assert_temporal_validity (permit_clock permit) now ≡ ok tt)
        × (attempt : CallAttempt) × (lookup r.attempts permit.attempt_id ≡ some attempt)
        × (is_authorizable attempt actor now ≡ true)
        × (intent : ContactIntent) × (active_intent options.lib r attempt.intent_id actor now
            ≡ ok intent)
        × (other_permit options r actor digest permit attempt intent c.1 ≡ false)
        × (p ≡ authorization_of options r permit attempt intent digest now uuid)
        × (r'
            ≡ record_event options
                (record r {
                  authorizations =
                      insert r.authorizations uuid
                        (record { payload = p; jws = jws; cancelled = false });
                  attempts =
                      insert r.attempts permit.attempt_id
                        (record attempt { status = AttemptStatus.authorized });
                })
                actor
                "authorization.issued"
                uuid
                now
                event_id)
  unfolding authorize
  authorize-parts r actor permit_jws digest now uuid event_id p jws r' h = ground arith

  enroll-parts :
      (r : InstitutionRecord) (actor : Actor) (session_id : String) (key : Jwk) (now : ℕ)
      (hash : String) (r' : InstitutionRecord)
      → enroll options r actor session_id key now ≡ ok (hash, r')
      → (attempt : CallAttempt) × (find (λ a. a.session_id == session_id) (values r.attempts)
          ≡ some attempt)
        × (is_bound_to_other (key_hash options) (lookup r.recipient_keys session_id) key ≡ false)
        × (r' ≡ record r {
          recipient_keys = insert r.recipient_keys session_id (record {
            user_id = actor.user_id;
            public_key = key;
            expires_at = attempt.expires_at;
          });
        })
  unfolding enroll
  enroll-parts r actor session_id key now hash r' h = ground arith

  pub permit_context-same :
      (r : InstitutionRecord) (actor : Actor) (attempt_id vc_digest : String) (key : Jwk)
      (service_did : String) (now : ℕ) (p : SessionPermit) (r' : InstitutionRecord)
      → permit_context options r actor attempt_id vc_digest key service_did now ≡ ok (p, r')
      → r' ≡ r
  unfolding permit_context
  permit_context-same r actor attempt_id vc_digest key service_did now p r' h = ground arith

  is_authorizable-created :
      (a : CallAttempt) (actor : Actor) (now : ℕ) (s : AttemptStatus)
      → a.status ≡ s
      → is_authorizable a actor now ≡ true
      → s ≡ AttemptStatus.created
  is_authorizable-created a actor now AttemptStatus.created e h = refl
  is_authorizable-created a actor now _ e h = ground arith

  authorized_later :
      (a w : CallAttempt)
      → a.status ≡ AttemptStatus.created
      → w ≡ a
      → AttemptKept w (record a { status = AttemptStatus.authorized })
  authorized_later a w s e = rw (e) (refl, rw (s) (omega arith))

  pub authorize-Evolves :
      (hash : Jwk → String) (r : InstitutionRecord) (actor : Actor) (permit_jws digest : String)
      (now : ℕ) (uuid event_id : String) (p : ContactAuthorizationV2) (jws : String)
      (r' : InstitutionRecord)
      → lookup r.authorizations uuid ≡ none
      → authorize options r actor permit_jws digest now uuid event_id ≡ ok ((p, jws), r')
      → Evolves hash r r'
  authorize-Evolves hash r actor permit_jws digest now uuid event_id p jws r' free h =
      let (item, k, c, d, permit, v, t, attempt, m, g, intent, i, x, y, e) =
        authorize-parts r actor permit_jws digest now uuid event_id p jws r' h in
      let s = is_authorizable-created attempt actor now attempt.status refl g in
      rw (e) (
        Evolves-trans hash r _ _
          (Evolves-trans hash r _ _
            (Evolves-authorizations hash r _ (
              Kept-insert AuthorizationKept AuthorizationKept-refl r.authorizations uuid
                (record { payload = p; jws = jws; cancelled = false }) (λ w q. cc)))
            (Evolves-attempts hash _ _ (
              Kept-insert AttemptKept AttemptKept-refl r.attempts permit.attempt_id
                (record attempt { status = AttemptStatus.authorized })
                (λ w q. authorized_later attempt w s (ground arith)))))
          (Evolves-event options hash _ actor "authorization.issued" uuid now event_id))

  bound_key :
      (hash : Jwk → String) (o : Option RecipientKey) (key : Jwk) (entry w : RecipientKey)
      → is_bound_to_other hash o key ≡ false
      → entry.public_key ≡ key
      → o ≡ some w
      → KeyKept hash w entry
  bound_key hash none key entry w h e q = cc
  bound_key hash (some k) key entry w h e q = ground (arith, eq_iff (hash k.public_key) (hash key))

  pub enroll-Evolves :
      (r : InstitutionRecord) (actor : Actor) (session_id : String) (key : Jwk) (now : ℕ)
      (hash : String) (r' : InstitutionRecord)
      → enroll options r actor session_id key now ≡ ok (hash, r')
      → Evolves (key_hash options) r r'
  enroll-Evolves r actor session_id key now hash r' h =
      let (attempt, f, b, e) = enroll-parts r actor session_id key now hash r' h in
      rw (e) (
        Evolves-recipient_keys (key_hash options) r _ (
          Kept-insert (KeyKept (key_hash options)) (λ k. refl) r.recipient_keys session_id
            (record { user_id = actor.user_id; public_key = key; expires_at = attempt.expires_at })
            (λ w q.
              bound_key (key_hash options) (lookup r.recipient_keys session_id) key
                (record {
                  user_id = actor.user_id;
                  public_key = key;
                  expires_at = attempt.expires_at;
                })
                w b refl q)))
