-- ===== src/Finals/Effects/Lifecycle.antt =====
-- `cancel`, `end`, `activateKey` and `revoke`: what they leave of the record.
use call_sign.Prelude.{
  ℕ, ◌+◌, ◌≤◌, ◌<◌, ◌≡◌, refl, sym, String, Option, none, some, true, false, List, [], ◌∷◌, arith,
  inl, inr, ◌==◌, string_eq, append-nil, Bool, Bool-cases, if◌then◌else◌, lookup, insert, Dict,
  values, update_values, ok,
}
use call_sign.Prelude.Kept.{Kept, Kept-insert, Kept-refl, Kept-trans, Kept-update_values}
use call_sign.Prelude.Text.{big_int}
use call_sign.Protocol.Json.{Jwk}
use call_sign.Finals.Record.{
  Actor, IntentStatus, ContactIntent, AttemptStatus, CallAttempt, IssuedCredential,
  IssuedAuthorization, InstitutionStatus, InstitutionRecord,
}
use call_sign.Finals.Evolution.{
  IntentKept, IntentKept-refl, AttemptKept, AttemptKept-refl, AttemptKept-trans, CredentialKept,
  CredentialKept-refl, AuthorizationKept, AuthorizationKept-refl, Evolves, Evolves-trans, rank,
}
use call_sign.Finals.Evolution.Updates.{
  Evolves-dicts, Evolves-attempts, Evolves-event, same_consumptions, same_recipient_keys,
  same_intents, same_credentials,
}
use call_sign.Finals.Authority.Options.{AuthorityOptions, SigningKey, record_event}
use call_sign.Finals.Authority.Lifecycle.{
  cancel_attempt, cancel_authorization, revoke_credential, cancel_attempt_of,
  cancel_authorization_of, revoke_authorization, cancel_entry, revoke_attempts, cancel, end_attempt,
  activate_key, revoke,
}

cancelled_later :
    (a : CallAttempt) (s : AttemptStatus) → a.status ≡ s → AttemptKept a (cancel_attempt a)
cancelled_later a AttemptStatus.ended e = ground arith
cancelled_later a AttemptStatus.created e = ground arith
cancelled_later a AttemptStatus.authorized e = ground arith
cancelled_later a AttemptStatus.consumed e = ground arith
cancelled_later a AttemptStatus.cancelled e = ground arith

pub cancel_attempt-kept : (a : CallAttempt) → AttemptKept a (cancel_attempt a)
cancel_attempt-kept a = cancelled_later a a.status refl

cancel_attempt_of-kept : (id : String) (a : CallAttempt) → AttemptKept a (cancel_attempt_of id a)
cancel_attempt_of-kept id a = elim (Bool-cases (a.intent_id == id)) [
  | inl e ↦ rw (e) (cancel_attempt-kept a)
  | inr e ↦ rw (e) (AttemptKept-refl a)
]

cancel_authorization_of-kept :
    (id : String) (a : IssuedAuthorization) → AuthorizationKept a (cancel_authorization_of id a)
cancel_authorization_of-kept id a = ground arith

revoke_authorization-kept :
    (digest : String) (a : IssuedAuthorization)
    → AuthorizationKept a (revoke_authorization digest a)
revoke_authorization-kept digest a = ground arith

kept_by_eq : (w a : CallAttempt) → w ≡ a → AttemptKept w (cancel_attempt a)
kept_by_eq w a e = rw (e) (cancel_attempt-kept a)

cancel_entry-Kept :
    (d : Dict CallAttempt) (id : String) (o : Option CallAttempt)
    → lookup d id ≡ o
    → Kept AttemptKept d (cancel_entry d id o)
unfolding cancel_entry
cancel_entry-Kept d id none e = Kept-refl AttemptKept AttemptKept-refl d
cancel_entry-Kept d id (some a) e =
    Kept-insert AttemptKept AttemptKept-refl d id (cancel_attempt a)
      (λ w q. kept_by_eq w a (ground arith))

rank_at_most : (s : AttemptStatus) → rank s ≤ 4
rank_at_most AttemptStatus.created = omega arith
rank_at_most AttemptStatus.authorized = omega arith
rank_at_most AttemptStatus.consumed = omega arith
rank_at_most AttemptStatus.cancelled = omega arith
rank_at_most AttemptStatus.ended = omega arith

step-Kept :
    (b : Bool) (d : Dict CallAttempt) (id : String)
    → Kept AttemptKept d (if b then cancel_entry d id (lookup d id) else d)
step-Kept true d id = cancel_entry-Kept d id (lookup d id) refl
step-Kept false d id = Kept-refl AttemptKept AttemptKept-refl d

revoke_attempts-Kept :
    (digest : String) (l : List IssuedAuthorization) (d : Dict CallAttempt)
    → Kept AttemptKept d (revoke_attempts digest l d)
unfolding revoke_attempts
revoke_attempts-Kept digest [] d = Kept-refl AttemptKept AttemptKept-refl d
revoke_attempts-Kept digest (a ∷ l) d =
    Kept-trans AttemptKept AttemptKept-trans d _ _
      (step-Kept (a.payload.vc_digest == digest) d a.payload.attempt_id)
      (revoke_attempts-Kept digest l _)

ended_later :
    (w a : CallAttempt) → w ≡ a → AttemptKept w (record a { status = AttemptStatus.ended })
ended_later w a e = rw (e) (refl, rank_at_most a.status)

module _ (options : AuthorityOptions) where
  pub cancel-parts :
      (r : InstitutionRecord) (actor : Actor) (intent_id : String) (now : ℕ) (event_id : String)
      (r' : InstitutionRecord)
      → cancel options r actor intent_id now event_id ≡ ok r'
      → (intent : ContactIntent) × (lookup r.intents intent_id ≡ some intent)
        × (r'
            ≡ record_event options
                (record r {
                  intents =
                      insert r.intents intent_id
                        (record intent { status = IntentStatus.cancelled });
                  attempts = update_values (cancel_attempt_of intent_id) r.attempts;
                  authorizations =
                      update_values (cancel_authorization_of intent_id) r.authorizations;
                })
                actor
                "intent.cancelled"
                intent_id
                now
                event_id)
  unfolding cancel
  cancel-parts r actor intent_id now event_id r' h = ground arith

  end_attempt-parts :
      (r : InstitutionRecord) (actor : Actor) (attempt_id : String) (now : ℕ) (event_id : String)
      (r' : InstitutionRecord)
      → end_attempt options r actor attempt_id now event_id ≡ ok r'
      → (attempt : CallAttempt) × (lookup r.attempts attempt_id ≡ some attempt)
        × (r'
            ≡ record_event options
                (record r {
                  attempts =
                      insert r.attempts attempt_id
                        (record attempt { status = AttemptStatus.ended });
                })
                actor
                "attempt.ended"
                attempt_id
                now
                event_id)
  unfolding end_attempt
  end_attempt-parts r actor attempt_id now event_id r' h = ground arith

  pub activate_key-parts :
      (r : InstitutionRecord) (actor : Actor) (version : ℕ) (epoch : String) (now : ℕ)
      (event_id : String) (kid : String) (r' : InstitutionRecord)
      → activate_key options r actor version epoch now event_id ≡ ok (kid, r')
      → (version ≡ r.approval_key_version + 1)
        × (big_int r.epoch < big_int epoch)
        × (key : SigningKey) × (options.signing_key version ≡ ok key)
        × (kid ≡ key.kid)
        × (public_jwk : Jwk) × (key.public_jwk ≡ some public_jwk)
        × (r'
            ≡ record_event options
                (record r {
                  approval_key_version = version;
                  approval_kid = kid;
                  approval_public_key = public_jwk;
                  epoch = epoch;
                  status = InstitutionStatus.active;
                  credentials = update_values revoke_credential r.credentials;
                  authorizations = update_values cancel_authorization r.authorizations;
                  attempts = update_values cancel_attempt r.attempts;
                })
                actor
                "approval-key.rotated"
                kid
                now
                event_id)
  unfolding activate_key
  activate_key-parts r actor version epoch now event_id kid r' h = ground arith

  pub revoke-parts :
      (r : InstitutionRecord) (actor : Actor) (digest : String) (now : ℕ) (event_id : String)
      (r' : InstitutionRecord)
      → revoke options r actor digest now event_id ≡ ok r'
      → (item : IssuedCredential) × (lookup r.credentials digest ≡ some item)
        × (r'
            ≡ record_event options
                (record r {
                  credentials = insert r.credentials digest (revoke_credential item);
                  authorizations = update_values (revoke_authorization digest) r.authorizations;
                  attempts = revoke_attempts digest (values r.authorizations) r.attempts;
                })
                actor
                "vc.revoked"
                digest
                now
                event_id)
  unfolding revoke
  revoke-parts r actor digest now event_id r' h = ground arith

module _ (options : AuthorityOptions) (hash : Jwk → String) where
  pub cancel-Evolves :
      (r : InstitutionRecord) (actor : Actor) (intent_id : String) (now : ℕ) (event_id : String)
      (r' : InstitutionRecord)
      → cancel options r actor intent_id now event_id ≡ ok r'
      → Evolves hash r r'
  cancel-Evolves r actor intent_id now event_id r' h =
      let (intent, m, e) = cancel-parts options r actor intent_id now event_id r' h in
      rw (e) (
        Evolves-trans hash r _ _
          (Evolves-dicts hash r _ _ _ _ _ _
            (Kept-insert IntentKept IntentKept-refl r.intents intent_id
              (record intent { status = IntentStatus.cancelled }) (λ w q. ground arith))
            (Kept-update_values AttemptKept (cancel_attempt_of intent_id)
              (cancel_attempt_of-kept intent_id) r.attempts)
            (same_credentials hash r)
            (Kept-update_values AuthorizationKept (cancel_authorization_of intent_id)
              (cancel_authorization_of-kept intent_id) r.authorizations)
            (same_consumptions hash r) (same_recipient_keys hash r))
          (Evolves-event options hash _ actor "intent.cancelled" intent_id now event_id))

  pub end_attempt-Evolves :
      (r : InstitutionRecord) (actor : Actor) (attempt_id : String) (now : ℕ) (event_id : String)
      (r' : InstitutionRecord)
      → end_attempt options r actor attempt_id now event_id ≡ ok r'
      → Evolves hash r r'
  end_attempt-Evolves r actor attempt_id now event_id r' h =
      let (attempt, m, e) = end_attempt-parts options r actor attempt_id now event_id r' h in
      rw (e) (
        Evolves-trans hash r _ _
          (Evolves-attempts hash r _ (
            Kept-insert AttemptKept AttemptKept-refl r.attempts attempt_id
              (record attempt { status = AttemptStatus.ended })
              (λ w q. ended_later w attempt (ground arith))))
          (Evolves-event options hash _ actor "attempt.ended" attempt_id now event_id))

  pub revoke-Evolves :
      (r : InstitutionRecord) (actor : Actor) (digest : String) (now : ℕ) (event_id : String)
      (r' : InstitutionRecord)
      → revoke options r actor digest now event_id ≡ ok r'
      → Evolves hash r r'
  revoke-Evolves r actor digest now event_id r' h =
      let (item, m, e) = revoke-parts options r actor digest now event_id r' h in
      rw (e) (
        Evolves-trans hash r _ _
          (Evolves-dicts hash r _ _ _ _ _ _ (same_intents hash r)
            (revoke_attempts-Kept digest (values r.authorizations) r.attempts)
            (Kept-insert CredentialKept CredentialKept-refl r.credentials digest
              (revoke_credential item) (λ w q. ground arith))
            (Kept-update_values AuthorizationKept (revoke_authorization digest)
              (revoke_authorization-kept digest) r.authorizations)
            (same_consumptions hash r) (same_recipient_keys hash r))
          (Evolves-event options hash _ actor "vc.revoked" digest now event_id))

  rotated-Evolves :
      (r : InstitutionRecord) (version : ℕ) (kid : String) (jwk : Jwk) (epoch : String)
      → r.approval_key_version ≤ version
      → big_int r.epoch ≤ big_int epoch
      → Evolves hash r (record r {
        approval_key_version = version;
        approval_kid = kid;
        approval_public_key = jwk;
        epoch = epoch;
        status = InstitutionStatus.active;
      })
  rotated-Evolves r version kid jwk epoch v e = record {
    id = refl;
    did = refl;
    policy = refl;
    services = refl;
    members = refl;
    key_version = v;
    epoch = e;
    intents = same_intents hash r;
    attempts = Kept-refl AttemptKept AttemptKept-refl r.attempts;
    credentials = same_credentials hash r;
    authorizations = Kept-refl AuthorizationKept AuthorizationKept-refl r.authorizations;
    consumptions = same_consumptions hash r;
    recipient_keys = same_recipient_keys hash r;
    audit = ([], sym (append-nil r.audit));
  }

  pub activate_key-Evolves :
      (r : InstitutionRecord) (actor : Actor) (version : ℕ) (epoch : String) (now : ℕ)
      (event_id : String) (kid : String) (r' : InstitutionRecord)
      → activate_key options r actor version epoch now event_id ≡ ok (kid, r')
      → Evolves hash r r'
  activate_key-Evolves r actor version epoch now event_id kid r' h =
      let (v, b, key, s, k, jwk, j, e) =
        activate_key-parts options r actor version epoch now event_id kid r' h in
      rw (e) (
        Evolves-trans hash r _ _
          (Evolves-trans hash r _ _
            (rotated-Evolves r version kid jwk epoch (omega arith) (omega arith))
            (Evolves-dicts hash _ _ _ _ _ _ _ (same_intents hash r)
              (Kept-update_values AttemptKept cancel_attempt cancel_attempt-kept r.attempts)
              (Kept-update_values CredentialKept revoke_credential (λ c. (refl, refl, λ _. refl))
                r.credentials)
              (Kept-update_values AuthorizationKept cancel_authorization
                (λ c. (refl, refl, λ _. refl)) r.authorizations)
              (same_consumptions hash r) (same_recipient_keys hash r)))
          (Evolves-event options hash _ actor "approval-key.rotated" kid now event_id))
