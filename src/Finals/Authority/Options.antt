-- ===== src/Finals/Authority/Options.antt =====
-- AuthorityOptions and the private methods of FinalsAuthority: the issuer's key, the check of the
-- registered DID documents, the check of a credential and the audit trail.
use call_sign.Prelude.{
  ℕ, ◌*◌, String, Option, none, some, Bool, false, not, ◌||◌, List, [], ◌∷◌, ◌++◌ as append, ltb,
  leb, ◌==◌, ◌!=◌, string_eq, nat_eq, any, find, lookup, Result, Checked, ok, http_error,
  if◌then◌else◌, throw_if, or_throw, ◌>>=◌, ◌>>◌,
}
use call_sign.Protocol.Json.{Json, Jwk, Jwk_json, Libraries}
use call_sign.Protocol.Signing.{hash_canonical}
use call_sign.Protocol.Finals.{policy_hash, vc_digest, verify_delegation_vc}
use call_sign.Protocol.Finals.Credential.{DelegationCredential, credential_conforms}
use call_sign.Protocol.Finals.Messages.{SessionPermit, session_permit_conforms}
use call_sign.Protocol.Finals.Binding.{PossessionProof, possession_conforms}
use call_sign.Finals.Record.{Actor, Service, AuditEvent, InstitutionRecord}

-- What `signingKey` returns: the private key goes by its public half.
pub record SigningKey : Type 0 where
  pub private_key : Jwk
  pub kid : String
  pub public_jwk : Option Jwk

-- `DidDocument` of services/api/src/did.ts
pub record VerificationMethod : Type 0 where
  pub id : String
  pub controller : String
  pub public_key_jwk : Jwk

pub record DidDocument : Type 0 where
  pub id : String
  pub verification_method : List VerificationMethod
  pub assertion_method : List String
  pub authentication : List String

-- The options of the class. `read_permit`, `read_possession` and `read_credential` are the shapes
-- of the three schemas, which zod reads from a JSON value.
pub record AuthorityOptions : Type 0 where
  pub lib : Libraries
  pub network_id : String
  pub registry_address : String
  pub signing_key : ℕ → Result SigningKey
  pub assert_rotation : Option (InstitutionRecord → Jwk → String → Checked)
  pub resolve_did : String → Result DidDocument
  pub assert_current : InstitutionRecord → String → Checked
  pub read_permit : Json → Option SessionPermit
  pub read_possession : Json → Option PossessionProof
  pub read_credential : Json → Option DelegationCredential

-- A value of the right shape that also passes the other conditions of its schema.
abbrev conforming {ℓ} : {A : Type ℓ} → (A → Bool) → Option A → Option A
conforming p none = none
conforming p (some a) = if p a then some a else none

abbrev other_key : (Jwk → String) → Option Jwk → Jwk → Bool
other_key hash none key = false
other_key hash (some jwk) key = hash jwk != hash key

-- `doc.verificationMethod.find(key => key.id === kid)` and the tests on it.
abbrev is_method_of : (Jwk → String) → Option VerificationMethod → String → Jwk → Bool
is_method_of hash none did jwk = false
is_method_of hash (some method) did jwk =
    if method.controller == did then hash method.public_key_jwk == hash jwk else false

module _ (options : AuthorityOptions) where
  abbrev pub permit_schema : Json → Option SessionPermit
  permit_schema v = conforming session_permit_conforms (options.read_permit v)

  abbrev pub possession_schema : Json → Option PossessionProof
  possession_schema v = conforming possession_conforms (options.read_possession v)

  abbrev pub delegation_vc_schema : Json → Option DelegationCredential
  delegation_vc_schema v = conforming credential_conforms (options.read_credential v)

  abbrev pub key_hash : Jwk → String
  key_hash jwk = hash_canonical options.lib (Jwk_json jwk)

  abbrev pub record_event :
      InstitutionRecord → Actor → String → String → ℕ → String → InstitutionRecord
  record_event r actor event object_id now uuid =
      let entry : AuditEvent = record {
        id = uuid;
        event = event;
        object_id = object_id;
        actor = actor.user_id;
        at = now;
      } in
      record r { audit = append r.audit (entry ∷ []) }

  -- `key`
  unfoldable pub issuer_key : InstitutionRecord → Result SigningKey
  issuer_key r = do
    key ← options.signing_key r.approval_key_version
    throw_if (key.kid != r.approval_kid || other_key key_hash key.public_jwk r.approval_public_key)
        (http_error 503 "ISSUER_KEY_VERSION_UNAVAILABLE")
    ok key

  -- The body of the loop in `assertDid`; `relation` is the list that must name the key.
  unfoldable pub assert_registered : (DidDocument → List String) → String → String → Jwk → Checked
  unfolding any find
  assert_registered relation did kid jwk = do
    doc ← options.resolve_did did
    throw_if
        (doc.id != did
          || not (any (λ k. k == kid) (relation doc))
          || not (is_method_of key_hash (find (λ m. m.id == kid) doc.verification_method) did jwk))
        (http_error 409 "REGISTERED_DID_KEY_MISMATCH")

  unfoldable pub assert_did : InstitutionRecord → String → Checked
  assert_did r service_did = do
    service ← or_throw (lookup r.services service_did) (http_error 409 "SERVICE_UNREGISTERED")
    assert_registered (λ doc. doc.assertion_method) r.did r.approval_kid r.approval_public_key
    assert_registered (λ doc. doc.authentication) service.did service.kid service.public_key

  -- The tests of `credential` on either side of the call of `policyHash`.
  abbrev other_subject : InstitutionRecord → String → Service → DelegationCredential → Bool
  other_subject r service_did service vc =
      vc.issuer != r.did
      || vc.subject.institution_id != r.id
      || vc.subject.id != service_did
      || vc.subject.controller != service_did
      || not service.active
      || vc.subject.service_key_version != service.key_version
      || key_hash vc.subject.public_key != key_hash service.public_key

  abbrev other_status : InstitutionRecord → DelegationCredential → ℕ → Bool
  other_status r vc now =
      vc.status.id != vc.id
      || vc.status.epoch != r.epoch
      || vc.status.approval_key_version != r.approval_key_version
      || vc.status.network_id != options.network_id
      || vc.status.registry_address != options.registry_address
      || ltb (now * 1000) vc.valid_from
      || leb vc.valid_until (now * 1000)

  unfoldable pub credential :
      InstitutionRecord → String → String → ℕ → Result (DelegationCredential × Service)
  credential r digest service_did now = do
    item ← or_throw (lookup r.credentials digest) (http_error 409 "VC_REVOKED_OR_UNKNOWN")
    throw_if item.revoked (http_error 409 "VC_REVOKED_OR_UNKNOWN")
    assert_did r service_did
    vc ←
        verify_delegation_vc options.lib delegation_vc_schema item.jws r.approval_public_key
          r.approval_kid
    actual ← vc_digest options.lib vc
    throw_if (actual != digest) (http_error 409 "VC_CONTEXT_INVALID")
    service ← or_throw (lookup r.services service_did) (http_error 409 "VC_CONTEXT_INVALID")
    throw_if (other_subject r service_did service vc) (http_error 409 "VC_CONTEXT_INVALID")
    current ← policy_hash options.lib r.policy
    throw_if (vc.subject.policy_hash != current) (http_error 409 "VC_CONTEXT_INVALID")
    throw_if (other_status r vc now) (http_error 409 "VC_CONTEXT_INVALID")
    options.assert_current r digest
    ok (vc, service)
