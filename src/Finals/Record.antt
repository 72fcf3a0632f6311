-- ===== src/Finals/Record.antt =====
-- The record of an institution: the interfaces at the top of services/api/src/finals-model.ts.
-- The fields that only the service authority and the worker use are left out.
use call_sign.Prelude.{ℕ, String, Option, Bool, true, false, List, Dict}
use call_sign.Protocol.Json.{Jwk}
use call_sign.Protocol.Finals.Credential.{PurposePolicy, DelegationCredential}
use call_sign.Protocol.Finals.Messages.{ContactAuthorizationV2}
use call_sign.Protocol.Finals.Binding.{ReceiptV2}

pub record Actor : Type 0 where
  pub user_id : String
  pub role : String
  pub institution_id : String
  pub membership_generation : Option ℕ

pub data IntentStatus : Type 0 where
  opened cancelled completed : IntentStatus

abbrev pub is_open : IntentStatus → Bool
is_open IntentStatus.opened = true
is_open _ = false

-- `purpose` and `source` are literals.
pub record ContactIntent : Type 0 where
  pub id : String
  pub institution_id : String
  pub recipient_id : String
  pub agent_id : String
  pub service_did : String
  pub policy_hash : String
  pub expires_at : ℕ
  pub status : IntentStatus

pub data AttemptStatus : Type 0 where
  created authorized consumed cancelled ended : AttemptStatus

abbrev pub is_created : AttemptStatus → Bool
is_created AttemptStatus.created = true
is_created _ = false

abbrev pub is_ended : AttemptStatus → Bool
is_ended AttemptStatus.ended = true
is_ended _ = false

abbrev pub is_consumed : AttemptStatus → Bool
is_consumed AttemptStatus.consumed = true
is_consumed _ = false

-- `["cancelled", "ended"].includes(status)`
abbrev pub is_terminal : AttemptStatus → Bool
is_terminal AttemptStatus.cancelled = true
is_terminal AttemptStatus.ended = true
is_terminal _ = false

-- `["authorized", "consumed"].includes(status)`
abbrev pub is_consumable : AttemptStatus → Bool
is_consumable AttemptStatus.authorized = true
is_consumable AttemptStatus.consumed = true
is_consumable _ = false

pub record CallAttempt : Type 0 where
  pub id : String
  pub intent_id : String
  pub session_id : String
  pub agent_id : String
  pub status : AttemptStatus
  pub expires_at : ℕ

pub record Service : Type 0 where
  pub did : String
  pub kid : String
  pub public_key : Jwk
  pub key_version : ℕ
  pub active : Bool

-- `active` and `sessionGeneration` may be absent; their defaults are true and 0.
pub record Member : Type 0 where
  pub role : String
  pub service_did : Option String
  pub permissions : List String
  pub active : Bool
  pub session_generation : ℕ

pub record IssuedCredential : Type 0 where
  pub vc : DelegationCredential
  pub jws : String
  pub revoked : Bool

pub record IssuedAuthorization : Type 0 where
  pub payload : ContactAuthorizationV2
  pub jws : String
  pub cancelled : Bool

pub record Consumption : Type 0 where
  pub payload : ReceiptV2
  pub jws : String

pub record RecipientKey : Type 0 where
  pub user_id : String
  pub public_key : Jwk
  pub expires_at : ℕ

pub record AuditEvent : Type 0 where
  pub id : String
  pub event : String
  pub actor : String
  pub at : ℕ
  pub object_id : String

pub data InstitutionStatus : Type 0 where
  active suspended : InstitutionStatus

abbrev pub is_active : InstitutionStatus → Bool
is_active InstitutionStatus.active = true
is_active InstitutionStatus.suspended = false

pub record InstitutionRecord : Type 0 where
  pub id : String
  pub did : String
  pub epoch : String
  pub approval_key_version : ℕ
  pub approval_kid : String
  pub approval_public_key : Jwk
  pub status : InstitutionStatus
  pub policy : PurposePolicy
  pub services : Dict Service
  pub members : Dict Member
  pub intents : Dict ContactIntent
  pub attempts : Dict CallAttempt
  pub credentials : Dict IssuedCredential
  pub authorizations : Dict IssuedAuthorization
  pub consumptions : Dict Consumption
  pub recipient_keys : Dict RecipientKey
  pub audit : List AuditEvent
