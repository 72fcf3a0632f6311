-- ===== src/Finals/Steps.antt =====
-- The life of an institution's record: the operations of services/api/src/finals-authority.ts as steps,
-- and the records that they lead to.
pub mod Withdrawn
pub mod Once
use call_sign.Prelude.{ℕ, ◌≡◌, String, none, lookup, ok}
use call_sign.Protocol.Json.{Jwk}
use call_sign.Protocol.Finals.Messages.{SessionPermit, ContactAuthorizationV2}
use call_sign.Finals.Record.{Actor, ContactIntent, CallAttempt, IssuedCredential, InstitutionRecord}
use call_sign.Finals.Model.{MockFds}
use call_sign.Finals.Authority.Options.{AuthorityOptions, key_hash}
use call_sign.Finals.Authority.Issue.{create_intent, create_attempt, issue_credential}
use call_sign.Finals.Authority.Permit.{permit_context, authorize, enroll}
use call_sign.Finals.Authority.Consume.{ConsumeInput, Consumed, consume}
use call_sign.Finals.Authority.Lifecycle.{cancel, end_attempt, activate_key, revoke}
use call_sign.Finals.Evolution.{Evolves, Evolves-refl, Evolves-trans}
use call_sign.Finals.Effects.{
  create_intent-Evolves, create_attempt-Evolves, issue_credential-Evolves,
}
use call_sign.Finals.Effects.Permit.{permit_context-same, authorize-Evolves, enroll-Evolves}
use call_sign.Finals.Effects.Consume.{consume-Evolves}
use call_sign.Finals.Effects.Lifecycle.{
  cancel-Evolves, end_attempt-Evolves, activate_key-Evolves, revoke-Evolves,
}

-- An operation that succeeds. A failed one leaves the record as it is. The identifiers that the
-- source draws at random, and the digest of a credential that holds one, are not on record yet.
pub data Step (options : AuthorityOptions) : InstitutionRecord → InstitutionRecord → Type 0 where
  step_create_intent :
      {r r' : InstitutionRecord} (actor : Actor) (input : MockFds) (now : ℕ) (event_id : String)
      (intent : ContactIntent)
      → create_intent options r actor input now event_id ≡ ok (intent, r')
      → Step options r r'
  step_create_attempt :
      {r r' : InstitutionRecord} (actor : Actor) (intent_id : String) (now : ℕ)
      (attempt_id session_id event_id : String) (attempt : CallAttempt)
      → lookup r.attempts attempt_id ≡ none
      → create_attempt options r actor intent_id now attempt_id session_id event_id
        ≡ ok (attempt, r')
      → Step options r r'
  step_issue_credential :
      {r r' : InstitutionRecord} (actor : Actor) (service_did : String) (now : ℕ)
      (uuid event_id : String) (item : IssuedCredential) (digest : String)
      → lookup r.credentials digest ≡ none
      → issue_credential options r actor service_did now uuid event_id ≡ ok ((item, digest), r')
      → Step options r r'
  step_permit_context :
      {r r' : InstitutionRecord} (actor : Actor) (attempt_id vc_digest : String) (key : Jwk)
      (service_did : String) (now : ℕ) (permit : SessionPermit)
      → permit_context options r actor attempt_id vc_digest key service_did now ≡ ok (permit, r')
      → Step options r r'
  step_authorize :
      {r r' : InstitutionRecord} (actor : Actor) (permit_jws digest : String) (now : ℕ)
      (uuid event_id : String) (payload : ContactAuthorizationV2) (jws : String)
      → lookup r.authorizations uuid ≡ none
      → authorize options r actor permit_jws digest now uuid event_id ≡ ok ((payload, jws), r')
      → Step options r r'
  step_enroll :
      {r r' : InstitutionRecord} (actor : Actor) (session_id : String) (key : Jwk) (now : ℕ)
      (hash : String)
      → enroll options r actor session_id key now ≡ ok (hash, r')
      → Step options r r'
  step_consume :
      {r r' : InstitutionRecord} (actor : Actor) (input : ConsumeInput) (now : ℕ)
      (event_id : String) (receipt : Consumed)
      → consume options r actor input now event_id ≡ ok (receipt, r')
      → Step options r r'
  step_cancel :
      {r r' : InstitutionRecord} (actor : Actor) (intent_id : String) (now : ℕ) (event_id : String)
      → cancel options r actor intent_id now event_id ≡ ok r'
      → Step options r r'
  step_end :
      {r r' : InstitutionRecord} (actor : Actor) (attempt_id : String) (now : ℕ) (event_id : String)
      → end_attempt options r actor attempt_id now event_id ≡ ok r'
      → Step options r r'
  step_activate_key :
      {r r' : InstitutionRecord} (actor : Actor) (version : ℕ) (epoch : String) (now : ℕ)
      (event_id kid : String)
      → activate_key options r actor version epoch now event_id ≡ ok (kid, r')
      → Step options r r'
  step_revoke :
      {r r' : InstitutionRecord} (actor : Actor) (digest : String) (now : ℕ) (event_id : String)
      → revoke options r actor digest now event_id ≡ ok r'
      → Step options r r'

-- Any number of steps.
pub data Later (options : AuthorityOptions) : InstitutionRecord → InstitutionRecord → Type 0 where
  unchanged : {r : InstitutionRecord} → Later options r r
  after : {r s t : InstitutionRecord} → Step options r s → Later options s t → Later options r t

module _ (options : AuthorityOptions) where
  abbrev Evolved : InstitutionRecord → InstitutionRecord → Type 0
  Evolved r s = Evolves (key_hash options) r s

  pub Step-Evolves : {r s : InstitutionRecord} → Step options r s → Evolves (key_hash options) r s
  Step-Evolves {r} {s} (step_create_intent actor input now event_id intent h) =
      create_intent-Evolves options (key_hash options) r actor input now event_id intent s h
  Step-Evolves {r} {s}
        (step_create_attempt actor intent_id now attempt_id session_id event_id attempt f h) =
      create_attempt-Evolves options (key_hash options) r actor intent_id now attempt_id session_id
        event_id attempt s f h
  Step-Evolves {r} {s} (step_issue_credential actor service_did now uuid event_id item digest f h) =
      issue_credential-Evolves options (key_hash options) r actor service_did now uuid event_id item
        digest s f h
  Step-Evolves {r} {s}
        (step_permit_context actor attempt_id vc_digest key service_did now permit h) =
      rw (permit_context-same options r actor attempt_id vc_digest key service_did now permit s h)
        (Evolves-refl (key_hash options) r)
  Step-Evolves {r} {s} (step_authorize actor permit_jws digest now uuid event_id payload jws f h) =
      authorize-Evolves options (key_hash options) r actor permit_jws digest now uuid event_id
        payload jws s f h
  Step-Evolves {r} {s} (step_enroll actor session_id key now hash h) =
      enroll-Evolves options r actor session_id key now hash s h
  Step-Evolves {r} {s} (step_consume actor input now event_id receipt h) =
      consume-Evolves options (key_hash options) r actor input now event_id receipt s h
  Step-Evolves {r} {s} (step_cancel actor intent_id now event_id h) =
      cancel-Evolves options (key_hash options) r actor intent_id now event_id s h
  Step-Evolves {r} {s} (step_end actor attempt_id now event_id h) =
      end_attempt-Evolves options (key_hash options) r actor attempt_id now event_id s h
  Step-Evolves {r} {s} (step_activate_key actor version epoch now event_id kid h) =
      activate_key-Evolves options (key_hash options) r actor version epoch now event_id kid s h
  Step-Evolves {r} {s} (step_revoke actor digest now event_id h) =
      revoke-Evolves options (key_hash options) r actor digest now event_id s h

  -- Whatever the authority does, in whatever order: the identity, the policy, the services and the
  -- members of the institution stay as they are, the key version and the epoch do not fall, no intent,
  -- attempt, credential, authorization, consumption or recipient key disappears or changes its terms,
  -- an intent's status changes to cancelled only, an attempt only moves forward in the order created,
  -- authorized, consumed, cancelled, ended, a revoked credential stays revoked, a cancelled
  -- authorization stays cancelled, a consumption does not change at all, a recipient's key keeps its
  -- hash, and the audit trail only grows at its end.
  pub Later-Evolves : {r s : InstitutionRecord} → Later options r s → Evolves (key_hash options) r s
  Later-Evolves {r} unchanged = Evolves-refl (key_hash options) r
  Later-Evolves {r} {s = t} (after {s = s} p q) =
      Evolves-trans (key_hash options) r s t (Step-Evolves p) (Later-Evolves q)
