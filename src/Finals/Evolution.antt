-- ===== src/Finals/Evolution.antt =====
-- The records of services/api/src/finals-model.ts: the order in which the operations of
-- services/api/src/finals-authority.ts take one to the next.
pub mod Updates
use call_sign.Prelude.{
  ℕ, ◌+◌, ◌≤◌, ◌≡◌, refl, sym, ap, ◌∙◌, String, true, List, [], ◌++◌, append_assoc, append-nil,
  arith, ◌⊎◌, inl, inr,
}
use call_sign.Prelude.Kept.{Kept, Kept-refl, Kept-trans}
use call_sign.Prelude.Text.{big_int}
use call_sign.Protocol.Json.{Jwk}
use call_sign.Finals.Record.{
  IntentStatus, ContactIntent, AttemptStatus, CallAttempt, IssuedCredential, IssuedAuthorization,
  Consumption, RecipientKey, AuditEvent, InstitutionRecord,
}

-- An attempt only moves forward along this order.
abbrev pub rank : AttemptStatus → ℕ
rank AttemptStatus.created = 0
rank AttemptStatus.authorized = 1
rank AttemptStatus.consumed = 2
rank AttemptStatus.cancelled = 3
rank AttemptStatus.ended = 4

-- An intent and an attempt without their status.
abbrev pub intent_terms : ContactIntent → ContactIntent
intent_terms i = record i { status = IntentStatus.opened }

abbrev pub attempt_terms : CallAttempt → CallAttempt
attempt_terms a = record a { status = AttemptStatus.created }

abbrev pub IntentKept : ContactIntent → ContactIntent → Type 0
IntentKept i j =
    (intent_terms j ≡ intent_terms i)
    × ((j.status ≡ i.status) ⊎ (j.status ≡ IntentStatus.cancelled))

abbrev pub AttemptKept : CallAttempt → CallAttempt → Type 0
AttemptKept a b = (attempt_terms b ≡ attempt_terms a) × (rank a.status ≤ rank b.status)

abbrev pub CredentialKept : IssuedCredential → IssuedCredential → Type 0
CredentialKept c d = (d.vc ≡ c.vc) × (d.jws ≡ c.jws) × (c.revoked ≡ true → d.revoked ≡ true)

abbrev pub AuthorizationKept : IssuedAuthorization → IssuedAuthorization → Type 0
AuthorizationKept a b =
    (b.payload ≡ a.payload) × (b.jws ≡ a.jws) × (a.cancelled ≡ true → b.cancelled ≡ true)

abbrev pub ConsumptionKept : Consumption → Consumption → Type 0
ConsumptionKept c d = d ≡ c

-- The key of a session is settled up to its hash.
abbrev pub KeyKept : (Jwk → String) → RecipientKey → RecipientKey → Type 0
KeyKept hash k l = hash l.public_key ≡ hash k.public_key

pub record Evolves (hash : Jwk → String) (r s : InstitutionRecord) : Type 0 where
  pub id : s.id ≡ r.id
  pub did : s.did ≡ r.did
  pub policy : s.policy ≡ r.policy
  pub services : s.services ≡ r.services
  pub members : s.members ≡ r.members
  pub key_version : r.approval_key_version ≤ s.approval_key_version
  pub epoch : big_int r.epoch ≤ big_int s.epoch
  pub intents : Kept IntentKept r.intents s.intents
  pub attempts : Kept AttemptKept r.attempts s.attempts
  pub credentials : Kept CredentialKept r.credentials s.credentials
  pub authorizations : Kept AuthorizationKept r.authorizations s.authorizations
  pub consumptions : Kept ConsumptionKept r.consumptions s.consumptions
  pub recipient_keys : Kept (KeyKept hash) r.recipient_keys s.recipient_keys
  pub audit : (new : List AuditEvent) × (s.audit ≡ r.audit ++ new)

pub IntentKept-refl : (i : ContactIntent) → IntentKept i i
IntentKept-refl i = (refl, inl refl)

pub IntentKept-trans : (i j k : ContactIntent) → IntentKept i j → IntentKept j k → IntentKept i k
IntentKept-trans i j k p q = (q.0 ∙ p.0, ground arith)

pub AttemptKept-refl : (a : CallAttempt) → AttemptKept a a
AttemptKept-refl a = (refl, omega arith)

pub AttemptKept-trans : (a b c : CallAttempt) → AttemptKept a b → AttemptKept b c → AttemptKept a c
AttemptKept-trans a b c p q = (q.0 ∙ p.0, omega (arith, p.1, q.1))

pub CredentialKept-refl : (c : IssuedCredential) → CredentialKept c c
CredentialKept-refl c = (refl, refl, λ h. h)

pub CredentialKept-trans :
    (c d e : IssuedCredential) → CredentialKept c d → CredentialKept d e → CredentialKept c e
CredentialKept-trans c d e p q = (q.0 ∙ p.0, q.1 ∙ p.1, λ h. q.2 (p.2 h))

pub AuthorizationKept-refl : (a : IssuedAuthorization) → AuthorizationKept a a
AuthorizationKept-refl a = (refl, refl, λ h. h)

pub AuthorizationKept-trans :
    (a b c : IssuedAuthorization)
    → AuthorizationKept a b
    → AuthorizationKept b c
    → AuthorizationKept a c
AuthorizationKept-trans a b c p q = (q.0 ∙ p.0, q.1 ∙ p.1, λ h. q.2 (p.2 h))

module _ (hash : Jwk → String) where
  pub Evolves-refl : (r : InstitutionRecord) → Evolves hash r r
  Evolves-refl r = record {
    id = refl;
    did = refl;
    policy = refl;
    services = refl;
    members = refl;
    key_version = omega arith;
    epoch = omega arith;
    intents = Kept-refl IntentKept IntentKept-refl r.intents;
    attempts = Kept-refl AttemptKept AttemptKept-refl r.attempts;
    credentials = Kept-refl CredentialKept CredentialKept-refl r.credentials;
    authorizations = Kept-refl AuthorizationKept AuthorizationKept-refl r.authorizations;
    consumptions = Kept-refl ConsumptionKept (λ c. refl) r.consumptions;
    recipient_keys = Kept-refl (KeyKept hash) (λ k. refl) r.recipient_keys;
    audit = ([], sym (append-nil r.audit));
  }

  pub Evolves-trans :
      (r s t : InstitutionRecord) → Evolves hash r s → Evolves hash s t → Evolves hash r t
  Evolves-trans r s t p q = record {
    id = q.id ∙ p.id;
    did = q.did ∙ p.did;
    policy = q.policy ∙ p.policy;
    services = q.services ∙ p.services;
    members = q.members ∙ p.members;
    key_version = omega (arith, p.key_version, q.key_version);
    epoch = omega (arith, p.epoch, q.epoch);
    intents =
        Kept-trans IntentKept IntentKept-trans r.intents s.intents t.intents p.intents q.intents;
    attempts =
        Kept-trans AttemptKept AttemptKept-trans r.attempts s.attempts t.attempts p.attempts
          q.attempts;
    credentials =
        Kept-trans CredentialKept CredentialKept-trans r.credentials s.credentials t.credentials
          p.credentials q.credentials;
    authorizations =
        Kept-trans AuthorizationKept AuthorizationKept-trans r.authorizations s.authorizations
          t.authorizations p.authorizations q.authorizations;
    consumptions =
        Kept-trans ConsumptionKept (λ a b c i j. j ∙ i) r.consumptions s.consumptions t.consumptions
          p.consumptions q.consumptions;
    recipient_keys =
        Kept-trans (KeyKept hash) (λ a b c i j. j ∙ i) r.recipient_keys s.recipient_keys
          t.recipient_keys p.recipient_keys q.recipient_keys;
    audit = (
      p.audit.0 ++ q.audit.0,
      q.audit.1 ∙ ap (λ l. l ++ q.audit.0) p.audit.1 ∙ append_assoc r.audit p.audit.0 q.audit.0,
    );
  }
