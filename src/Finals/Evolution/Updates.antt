-- ===== src/Finals/Evolution/Updates.antt =====
-- Updates of one field under which a record evolves.
use call_sign.Prelude.{ℕ, refl, String, [], ◌∷◌, append-nil, Dict, sym, arith}
use call_sign.Prelude.Kept.{Kept, Kept-refl}
use call_sign.Protocol.Json.{Jwk}
use call_sign.Finals.Record.{
  Actor, ContactIntent, CallAttempt, IssuedCredential, IssuedAuthorization, Consumption,
  RecipientKey, InstitutionRecord,
}
use call_sign.Finals.Authority.Options.{AuthorityOptions, record_event}
use call_sign.Finals.Evolution.{
  IntentKept, IntentKept-refl, AttemptKept, AttemptKept-refl, CredentialKept, CredentialKept-refl,
  AuthorizationKept, AuthorizationKept-refl, ConsumptionKept, KeyKept, Evolves,
}

module _ (hash : Jwk → String) (r : InstitutionRecord) where
  pub same_intents : Kept IntentKept r.intents r.intents
  same_intents = Kept-refl IntentKept IntentKept-refl r.intents

  pub same_attempts : Kept AttemptKept r.attempts r.attempts
  same_attempts = Kept-refl AttemptKept AttemptKept-refl r.attempts

  pub same_credentials : Kept CredentialKept r.credentials r.credentials
  same_credentials = Kept-refl CredentialKept CredentialKept-refl r.credentials

  pub same_authorizations : Kept AuthorizationKept r.authorizations r.authorizations
  same_authorizations = Kept-refl AuthorizationKept AuthorizationKept-refl r.authorizations

  pub same_consumptions : Kept ConsumptionKept r.consumptions r.consumptions
  same_consumptions = Kept-refl ConsumptionKept (λ c. refl) r.consumptions

  pub same_recipient_keys : Kept (KeyKept hash) r.recipient_keys r.recipient_keys
  same_recipient_keys = Kept-refl (KeyKept hash) (λ k. refl) r.recipient_keys

  -- The dictionaries may be replaced by others that keep their entries.
  pub Evolves-dicts :
      (i : Dict ContactIntent) (a : Dict CallAttempt) (c : Dict IssuedCredential)
      (z : Dict IssuedAuthorization) (u : Dict Consumption) (k : Dict RecipientKey)
      → Kept IntentKept r.intents i
      → Kept AttemptKept r.attempts a
      → Kept CredentialKept r.credentials c
      → Kept AuthorizationKept r.authorizations z
      → Kept ConsumptionKept r.consumptions u
      → Kept (KeyKept hash) r.recipient_keys k
      → Evolves hash r (record r {
        intents = i;
        attempts = a;
        credentials = c;
        authorizations = z;
        consumptions = u;
        recipient_keys = k;
      })
  Evolves-dicts i a c z u k ki ka kc kz ku kk = record {
    id = refl;
    did = refl;
    policy = refl;
    services = refl;
    members = refl;
    key_version = omega arith;
    epoch = omega arith;
    intents = ki;
    attempts = ka;
    credentials = kc;
    authorizations = kz;
    consumptions = ku;
    recipient_keys = kk;
    audit = ([], sym (append-nil r.audit));
  }

  pub Evolves-intents :
      (d : Dict ContactIntent)
      → Kept IntentKept r.intents d
      → Evolves hash r (record r { intents = d })
  Evolves-intents d k =
      Evolves-dicts d r.attempts r.credentials r.authorizations r.consumptions r.recipient_keys k
        same_attempts same_credentials same_authorizations same_consumptions same_recipient_keys

  pub Evolves-attempts :
      (d : Dict CallAttempt)
      → Kept AttemptKept r.attempts d
      → Evolves hash r (record r { attempts = d })
  Evolves-attempts d k =
      Evolves-dicts r.intents d r.credentials r.authorizations r.consumptions r.recipient_keys
        same_intents k same_credentials same_authorizations same_consumptions same_recipient_keys

  pub Evolves-credentials :
      (d : Dict IssuedCredential)
      → Kept CredentialKept r.credentials d
      → Evolves hash r (record r { credentials = d })
  Evolves-credentials d k =
      Evolves-dicts r.intents r.attempts d r.authorizations r.consumptions r.recipient_keys
        same_intents same_attempts k same_authorizations same_consumptions same_recipient_keys

  pub Evolves-authorizations :
      (d : Dict IssuedAuthorization)
      → Kept AuthorizationKept r.authorizations d
      → Evolves hash r (record r { authorizations = d })
  Evolves-authorizations d k =
      Evolves-dicts r.intents r.attempts r.credentials d r.consumptions r.recipient_keys
        same_intents same_attempts same_credentials k same_consumptions same_recipient_keys

  pub Evolves-consumptions :
      (d : Dict Consumption)
      → Kept ConsumptionKept r.consumptions d
      → Evolves hash r (record r { consumptions = d })
  Evolves-consumptions d k =
      Evolves-dicts r.intents r.attempts r.credentials r.authorizations d r.recipient_keys
        same_intents same_attempts same_credentials same_authorizations k same_recipient_keys

  pub Evolves-recipient_keys :
      (d : Dict RecipientKey)
      → Kept (KeyKept hash) r.recipient_keys d
      → Evolves hash r (record r { recipient_keys = d })
  Evolves-recipient_keys d k =
      Evolves-dicts r.intents r.attempts r.credentials r.authorizations r.consumptions d
        same_intents same_attempts same_credentials same_authorizations same_consumptions k

pub Evolves-event :
    (options : AuthorityOptions) (hash : Jwk → String) (r : InstitutionRecord) (actor : Actor)
    (event object_id : String) (now : ℕ) (uuid : String)
    → Evolves hash r (record_event options r actor event object_id now uuid)
Evolves-event options hash r actor event object_id now uuid = record {
  id = refl;
  did = refl;
  policy = refl;
  services = refl;
  members = refl;
  key_version = omega arith;
  epoch = omega arith;
  intents = same_intents hash r;
  attempts = same_attempts hash r;
  credentials = same_credentials hash r;
  authorizations = same_authorizations hash r;
  consumptions = same_consumptions hash r;
  recipient_keys = same_recipient_keys hash r;
  audit = (
    record { id = uuid; event = event; object_id = object_id; actor = actor.user_id; at = now }
        ∷ [],
    refl,
  );
}
