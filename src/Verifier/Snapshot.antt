-- ===== src/Verifier/Snapshot.antt =====
-- The state snapshots that witnesses sign, and their schemas: packages/verifier/src/index.ts.
use call_sign.Prelude.{
  ℕ, String, Option, none, some, Bool, true, false, ◌&&◌, List, [], ◌∷◌, ◌++◌, ◌==◌, string_eq,
}
use call_sign.Prelude.Tests.{leb}
use call_sign.Prelude.Text.{codes, has_length, matches_0x, matches_decimal, is_lower_hex}
use call_sign.Protocol.Json.{Json, text, num, bool, object}
use call_sign.Protocol.Schemas.{is_address}
use call_sign.Protocol.Temporal.{max_safe_integer}

-- `/^0x[0-9a-f]{64}$/`
unfoldable pub is_hash32 : String → Bool
unfolding codes matches_0x
is_hash32 s = matches_0x is_lower_hex 64 (codes s)

unfoldable pub is_decimal : String → Bool
unfolding codes matches_decimal
is_decimal s = matches_decimal (codes s)

pub data LedgerStatus : Type 0 where
  active suspended : LedgerStatus

abbrev pub is_active : LedgerStatus → Bool
is_active active = true
is_active suspended = false

abbrev ledger_status_json : LedgerStatus → Json
ledger_status_json active = text "Active"
ledger_status_json suspended = text "Suspended"

pub record InstitutionState : Type 0 where
  pub exists : Bool
  pub status : LedgerStatus
  pub epoch : String
  pub approval_public_key : String
  pub policy_version : String

unfoldable pub institution_state_conforms : InstitutionState → Bool
unfolding is_decimal has_length
institution_state_conforms v =
    is_decimal v.epoch && has_length 32 128 v.approval_public_key && is_decimal v.policy_version

abbrev institution_state_json : InstitutionState → Json
institution_state_json v = object (
    ("exists", bool v.exists)
    ∷ ("status", ledger_status_json v.status)
    ∷ ("epoch", text v.epoch)
    ∷ ("approvalPublicKey", text v.approval_public_key)
    ∷ ("policyVersion", text v.policy_version)
    ∷ [])

pub record DelegationState : Type 0 where
  pub exists : Bool
  pub epoch : String
  pub gateway_public_key : String
  pub purpose_mask : String
  pub valid_from : ℕ
  pub valid_until : ℕ
  pub revoked : Bool

unfoldable pub delegation_state_conforms : DelegationState → Bool
unfolding is_decimal has_length
delegation_state_conforms v =
    is_decimal v.epoch
    && has_length 32 128 v.gateway_public_key
    && is_decimal v.purpose_mask
    && leb v.valid_from max_safe_integer
    && leb v.valid_until max_safe_integer

abbrev delegation_state_json : DelegationState → Json
delegation_state_json v = object (
    ("exists", bool v.exists)
    ∷ ("epoch", text v.epoch)
    ∷ ("gatewayPublicKey", text v.gateway_public_key)
    ∷ ("purposeMask", text v.purpose_mask)
    ∷ ("validFrom", num v.valid_from)
    ∷ ("validUntil", num v.valid_until)
    ∷ ("revoked", bool v.revoked)
    ∷ [])

-- `protocol`, `version` and `type` are literals.
pub record StateSnapshot : Type 0 where
  pub network_id : String
  pub genesis_hash : String
  pub registry_address : String
  pub registry_profile : Option String
  pub policy_hash : Option String
  pub policy_version : String
  pub block_number : String
  pub block_hash : String
  pub block_timestamp : ℕ
  pub institution_id : String
  pub institution_state : InstitutionState
  pub delegation_id : String
  pub delegation_state : DelegationState
  pub directory_hash : String
  pub directory_version : String

abbrev pub snapshot_version : ℕ
snapshot_version = 1

abbrev profile_conforms : Option String → Bool
profile_conforms none = true
profile_conforms (some p) = p == "CALLSIGN_SERVICE_JOINT_CONFIGURATION_1"

abbrev hash_conforms : Option String → Bool
hash_conforms none = true
hash_conforms (some h) = is_hash32 h

-- `.refine(s => !!s.registryProfile === !!s.policyHash, …)`
abbrev given_together : Option String → Option String → Bool
given_together none none = true
given_together (some p) (some h) = true
given_together _ _ = false

unfoldable pub snapshot_conforms : StateSnapshot → Bool
unfolding is_decimal is_hash32 is_address has_length institution_state_conforms
    delegation_state_conforms
snapshot_conforms v =
    is_decimal v.network_id
    && is_hash32 v.genesis_hash
    && is_address v.registry_address
    && profile_conforms v.registry_profile
    && hash_conforms v.policy_hash
    && is_decimal v.policy_version
    && is_decimal v.block_number
    && is_hash32 v.block_hash
    && leb v.block_timestamp max_safe_integer
    && has_length 16 128 v.institution_id
    && institution_state_conforms v.institution_state
    && has_length 16 128 v.delegation_id
    && delegation_state_conforms v.delegation_state
    && is_hash32 v.directory_hash
    && is_decimal v.directory_version
    && given_together v.registry_profile v.policy_hash

abbrev optional_text : String → Option String → List (String × Json)
optional_text k none = []
optional_text k (some v) = (k, text v) ∷ []

abbrev pub snapshot_json : StateSnapshot → Json
snapshot_json v = object (
    ("protocol", text "callsign")
    ∷ ("version", num snapshot_version)
    ∷ ("type", text "SignedStateSnapshot")
    ∷ ("networkId", text v.network_id)
    ∷ ("genesisHash", text v.genesis_hash)
    ∷ ("registryAddress", text v.registry_address)
    ∷ (optional_text "registryProfile" v.registry_profile
        ++ (optional_text "policyHash" v.policy_hash
            ++ (("policyVersion", text v.policy_version)
                ∷ ("blockNumber", text v.block_number)
                ∷ ("blockHash", text v.block_hash)
                ∷ ("blockTimestamp", num v.block_timestamp)
                ∷ ("institutionId", text v.institution_id)
                ∷ ("institutionState", institution_state_json v.institution_state)
                ∷ ("delegationId", text v.delegation_id)
                ∷ ("delegationState", delegation_state_json v.delegation_state)
                ∷ ("directoryHash", text v.directory_hash)
                ∷ ("directoryVersion", text v.directory_version)
                ∷ []))))
