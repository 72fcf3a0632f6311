-- ===== src/Witness.antt =====
-- services/witness/src/server.ts: a witness reads the registry at a block of its own node and signs what it
-- has read. The node, read through viem, and the deployment's file are a parameter.
pub mod Quorum
use call_sign.Prelude.{
  ℕ, String, Option, none, some, Bool, true, false, not, ◌&&◌, ◌||◌, ◌==◌, ◌!=◌, string_eq, nat_eq,
  if◌then◌else◌, Result, ok, err, error, invalid_input, throw_if, or_throw, ◌>>=◌, ◌>>◌,
}
use call_sign.Prelude.Text.{same_lower, big_int, has_length}
use call_sign.Prelude.Decimal.{decimal}
use call_sign.Protocol.Json.{Jwk, Libraries, is_text}
use call_sign.Protocol.Signing.{sign_payload}
use call_sign.Verifier.Snapshot.{
  StateSnapshot, InstitutionState, DelegationState, snapshot_conforms, snapshot_json, is_decimal,
  is_hash32,
}
use call_sign.Server.Registry.{Institution, Delegation}
use call_sign.Server.Ledger.{ledger_status}

abbrev pub service_profile : String
service_profile = "CALLSIGN_SERVICE_JOINT_CONFIGURATION_1"

-- The contents of the deployment's file.
pub record WitnessDeployment : Type 0 where
  pub network_id : String
  pub genesis_hash : String
  pub registry_address : String
  pub institution_id : String
  pub registry_profile : Option String
  pub registry_code_hash : Option String

pub record Block : Type 0 where
  pub hash : Option String
  pub timestamp : ℕ

-- The witness's own node, and `keccak256` of a text and of a code.
pub record Node : Type 0 where
  pub chain_id : Result ℕ
  pub genesis : Result (Option String)
  pub block : ℕ → Result Block
  -- `readContract` at a block
  pub institutions : String → ℕ → Result Institution
  pub delegations : String → ℕ → Result Delegation
  pub profile : ℕ → Result String
  pub policy_hashes : String → ℕ → Result String
  pub code : ℕ → Result (Option String)
  pub keccak : String → String
  pub keccak_code : String → String
  pub deployment : Result WitnessDeployment
  -- `process.env.SERVICE_REGISTRY_PROFILE`
  pub service_registry_profile : Option String

pub record WitnessQuery : Type 0 where
  pub institution_id : String
  pub delegation_id : String
  pub block_number : String
  pub block_hash : String

-- `querySchema`
unfoldable pub query_conforms : WitnessQuery → Bool
unfolding has_length is_decimal is_hash32
query_conforms q =
    has_length 16 128 q.institution_id
    && has_length 16 128 q.delegation_id
    && is_decimal q.block_number
    && is_hash32 q.block_hash

-- `key`, whose private half goes by the public one
pub record PersistedKey : Type 0 where
  pub witness_id : String
  pub public_jwk : Jwk
  pub kid : String

pub record SnapshotReply : Type 0 where
  pub witness_id : String
  pub snapshot : StateSnapshot
  pub jws : String

abbrev has_code_hash : Node → Option String → Option String → Bool
has_code_hash node none expected = false
has_code_hash node (some code) expected = is_text expected (node.keccak_code code)

-- `profileFields`: the profile and the hash of the policy
unfoldable pub profile_fields :
    Node → WitnessDeployment → String → ℕ → Result (Option String × Option String)
profile_fields node deployment institution_key number =
    if is_text deployment.registry_profile service_profile
    then (do
      profile ← node.profile number
      policy_hash ← node.policy_hashes institution_key number
      code ← node.code number
      throw_if
          (profile != node.keccak service_profile
            || not (has_code_hash node code deployment.registry_code_hash))
          (error "WITNESS_REGISTRY_PROFILE_OR_CODE_MISMATCH")
      ok (some service_profile, some policy_hash))
    else if is_text node.service_registry_profile service_profile
    then err (error "SERVICE_DEPLOYMENT_METADATA_REQUIRED")
    else ok (none, none)

abbrev pub institution_state_of : Institution → InstitutionState
institution_state_of row = record {
  exists = row.exists;
  status = ledger_status row.status;
  epoch = decimal row.epoch;
  approval_public_key = row.approval_public_key;
  policy_version = decimal row.policy_version;
}

abbrev pub delegation_state_of : Delegation → DelegationState
delegation_state_of row = record {
  exists = row.exists;
  epoch = decimal row.epoch;
  gateway_public_key = row.gateway_public_key;
  purpose_mask = decimal row.purpose_mask;
  valid_from = row.valid_from;
  valid_until = row.valid_until;
  revoked = row.revoked;
}

-- The snapshot before its schema is applied.
abbrev pub snapshot_at :
    WitnessDeployment
    → WitnessQuery
    → Block
    → String
    → Option String × Option String
    → Institution
    → Delegation
    → StateSnapshot
snapshot_at deployment query block hash (profile, policy_hash) institution delegation = record {
  network_id = deployment.network_id;
  genesis_hash = deployment.genesis_hash;
  registry_address = deployment.registry_address;
  registry_profile = profile;
  policy_hash = policy_hash;
  policy_version = decimal institution.policy_version;
  block_number = decimal (big_int query.block_number);
  block_hash = hash;
  block_timestamp = block.timestamp;
  institution_id = query.institution_id;
  institution_state = institution_state_of institution;
  delegation_id = query.delegation_id;
  delegation_state = delegation_state_of delegation;
  directory_hash = institution.directory_hash;
  directory_version = decimal institution.directory_version;
}

-- POST /snapshot, up to the rows that it reads: the block's hash, and the institution's key
unfoldable pub check_query :
    Node → WitnessDeployment → WitnessQuery → Result (Block × String × String)
check_query node deployment query = do
  chain_id ← node.chain_id
  genesis ← node.genesis
  throw_if
      (decimal chain_id != deployment.network_id || not (is_text genesis deployment.genesis_hash))
      (error "OWN_NODE_CHAIN_MISMATCH")
  block ← node.block (big_int query.block_number)
  hash ← or_throw block.hash (error "PROPOSED_BLOCK_NOT_CANONICAL_ON_OWN_NODE")
  throw_if (not (same_lower hash query.block_hash))
      (error "PROPOSED_BLOCK_NOT_CANONICAL_ON_OWN_NODE")
  let institution_key = node.keccak query.institution_id
  throw_if (not (same_lower institution_key deployment.institution_id))
      (error "INSTITUTION_QUERY_NOT_DEPLOYED")
  ok (block, hash, institution_key)

-- POST /snapshot, up to the signature
unfoldable pub read_snapshot : Node → WitnessQuery → Result StateSnapshot
read_snapshot node query = do
  throw_if (not (query_conforms query)) invalid_input
  deployment ← node.deployment
  (block, hash, institution_key) ← check_query node deployment query
  let number = big_int query.block_number
  institution ← node.institutions institution_key number
  delegation ← node.delegations (node.keccak query.delegation_id) number
  throw_if (delegation.exists && not (same_lower delegation.institution_id institution_key))
      (error "DELEGATION_INSTITUTION_MISMATCH")
  fields ← profile_fields node deployment institution_key number
  let snapshot = snapshot_at deployment query block hash fields institution delegation
  throw_if (not (snapshot_conforms snapshot)) invalid_input
  ok snapshot

abbrev pub sign_snapshot : Libraries → PersistedKey → StateSnapshot → SnapshotReply
sign_snapshot lib key snapshot = record {
  witness_id = key.witness_id;
  snapshot = snapshot;
  jws = sign_payload lib (snapshot_json snapshot) "SignedStateSnapshot" key.public_jwk key.kid;
}

-- POST /snapshot
unfoldable pub take_snapshot : Libraries → Node → PersistedKey → WitnessQuery → Result SnapshotReply
take_snapshot lib node key query = do
  snapshot ← read_snapshot node query
  ok (sign_snapshot lib key snapshot)
