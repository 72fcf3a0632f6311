-- ===== src/Protocol/Finals/Credential.antt =====
-- The purpose policy and the delegation credential of packages/protocol/src/finals.ts.
use call_sign.Prelude.{starts_with, every, length, map, ℕ, String, Bool, ◌&&◌, List, [], ◌∷◌, leb}
use call_sign.Prelude.Text.{has_length, matches_digits, codes}
use call_sign.Protocol.Json.{Json, text, num, date, arr, items, object, Jwk, Jwk_json}
use call_sign.Protocol.Temporal.{max_safe_integer}
use call_sign.Protocol.Schemas.{is_address, is_digest, public_key_conforms}

-- `forbiddenRequests`
pub data ForbiddenRequest : Type 0 where
  otp transfer remote_control secrecy : ForbiddenRequest

abbrev forbidden_json : ForbiddenRequest → Json
forbidden_json otp = text "OTP"
forbidden_json transfer = text "TRANSFER"
forbidden_json remote_control = text "REMOTE_CONTROL"
forbidden_json secrecy = text "SECRECY"

-- `policySchema`; its purpose and its follow-up path are literals.
pub record PurposePolicy : Type 0 where
  pub id : String
  pub version : ℕ
  pub allowed_questions : List String
  pub forbidden_requests : List ForbiddenRequest

unfoldable pub policy_conforms : PurposePolicy → Bool
policy_conforms v =
    has_length 3 200 v.id
    && leb 1 v.version
    && leb v.version max_safe_integer
    && leb 1 (length v.allowed_questions)
    && leb (length v.allowed_questions) 20
    && every (has_length 1 300) v.allowed_questions
    && leb 1 (length v.forbidden_requests)

abbrev pub fraud_confirmation : String
fraud_confirmation = "FRAUD_CONFIRMATION"

abbrev pub policy_json : PurposePolicy → Json
policy_json v = object (
    ("id", text v.id)
    ∷ ("version", num v.version)
    ∷ ("purpose", text fraud_confirmation)
    ∷ ("allowedQuestions", arr (items (map text v.allowed_questions)))
    ∷ ("forbiddenRequests", arr (items (map forbidden_json v.forbidden_requests)))
    ∷ ("followUpPath", text "/official")
    ∷ [])

-- `credentialSubject`; its purpose is a literal.
pub record CredentialSubject : Type 0 where
  pub id : String
  pub institution_id : String
  pub controller : String
  pub service_key_version : ℕ
  pub public_key : Jwk
  pub policy_hash : String

unfoldable pub subject_conforms : CredentialSubject → Bool
subject_conforms v =
    has_length 3 200 v.id
    && has_length 3 200 v.institution_id
    && has_length 3 200 v.controller
    && leb 1 v.service_key_version
    && leb v.service_key_version max_safe_integer
    && public_key_conforms v.public_key
    && is_digest v.policy_hash

abbrev subject_json : CredentialSubject → Json
subject_json v = object (
    ("id", text v.id)
    ∷ ("institutionId", text v.institution_id)
    ∷ ("controller", text v.controller)
    ∷ ("serviceKeyVersion", num v.service_key_version)
    ∷ ("publicKey", Jwk_json v.public_key)
    ∷ ("purpose", text fraud_confirmation)
    ∷ ("policyHash", text v.policy_hash)
    ∷ [])

-- `credentialStatus`
pub record CredentialStatus : Type 0 where
  pub id : String
  pub registry_address : String
  pub network_id : String
  pub epoch : String
  pub approval_key_version : ℕ

unfoldable pub status_conforms : CredentialStatus → Bool
status_conforms v =
    has_length 3 200 v.id
    && is_address v.registry_address
    && has_length 3 200 v.network_id
    && matches_digits (codes v.epoch)
    && leb 1 v.approval_key_version
    && leb v.approval_key_version max_safe_integer

abbrev status_json : CredentialStatus → Json
status_json v = object (
    ("id", text v.id)
    ∷ ("type", text "CallSignRegistryStatus")
    ∷ ("registryAddress", text v.registry_address)
    ∷ ("networkId", text v.network_id)
    ∷ ("epoch", text v.epoch)
    ∷ ("approvalKeyVersion", num v.approval_key_version)
    ∷ [])

-- `delegationVcSchema`; `valid_from` and `valid_until` are the instants of the two texts, in
-- milliseconds, so that `Date.parse` and `toISOString` leave them as they are.
pub record DelegationCredential : Type 0 where
  pub id : String
  pub issuer : String
  pub valid_from : ℕ
  pub valid_until : ℕ
  pub subject : CredentialSubject
  pub status : CredentialStatus

-- `z.string().startsWith("urn:uuid:")` and the schemas of the parts
unfoldable pub credential_conforms : DelegationCredential → Bool
credential_conforms v =
    starts_with v.id "urn:uuid:"
    && has_length 3 200 v.issuer
    && subject_conforms v.subject
    && status_conforms v.status

abbrev pub credential_json : DelegationCredential → Json
credential_json v = object (
    (
      "@context",
      arr (
          items (
            text "https://www.w3.org/ns/credentials/v2"
            ∷ object (("@vocab", text "urn:callsign:v2:") ∷ [])
            ∷ [])),
    )
    ∷ ("id", text v.id)
    ∷ ("type", arr (items (text "VerifiableCredential" ∷ text "DelegationCredential" ∷ [])))
    ∷ ("issuer", text v.issuer)
    ∷ ("validFrom", date v.valid_from)
    ∷ ("validUntil", date v.valid_until)
    ∷ ("credentialSubject", subject_json v.subject)
    ∷ ("credentialStatus", status_json v.status)
    ∷ [])
