-- ===== src/Server/Registry.antt =====
-- The registry on the ledger as services/api/src/ledger.ts sees it: the contract's rows and calls, and viem
-- with the node and the files of `.local` behind it, which are a parameter.
use call_sign.Prelude.{ℕ, String, Option, Bool, List, Result}
use call_sign.Protocol.Json.{Jwk}
use call_sign.Verifier.Snapshot.{LedgerStatus}
use call_sign.Server.Tables.{RecoveryRequest}

pub record LedgerDeployment : Type 0 where
  pub network_id : String
  pub genesis_hash : String
  pub registry_address : String
  pub institution_id : String

pub record LedgerRoles : Type 0 where
  pub approver1 : String
  pub approver2 : String
  pub approver3 : String
  pub administrator : String
  pub emergency_stopper : String
  pub recovery_administrator : String
  pub recovery_emergency_stopper : String

pub record InstitutionLedgerState : Type 0 where
  pub institution_id : String
  pub status : LedgerStatus
  pub epoch : String
  pub administrator : String
  pub emergency_stopper : String

-- What `institutions` of the registry returns.
pub record Institution : Type 0 where
  pub status : ℕ
  pub epoch : ℕ
  pub administrator : String
  pub approval_public_key : String
  pub emergency_stopper : String
  pub directory_hash : String
  pub directory_version : ℕ
  pub policy_version : ℕ
  pub exists : Bool

-- What `delegations` of the registry returns.
pub record Delegation : Type 0 where
  pub institution_id : String
  pub epoch : ℕ
  pub gateway_public_key : String
  pub purpose_mask : ℕ
  pub valid_from : ℕ
  pub valid_until : ℕ
  pub revoked : Bool
  pub exists : Bool

-- A recovery request with its numbers, as the contract takes it.
pub record ContractRequest : Type 0 where
  pub request : RecoveryRequest
  pub expected_epoch : ℕ
  pub deadline : ℕ

-- The functions of the registry that are written to, with their arguments.
pub data Call : Type 0 where
  -- delegation, institution, epoch, gateway key, purposes, valid from, valid until
  grant_delegation : String → String → ℕ → String → ℕ → ℕ → ℕ → Call
  revoke_delegation : String → ℕ → Call
  suspend_institution : String → ℕ → Call
  recover_institution : ContractRequest → List String → Call

-- The EIP-712 data of a recovery: the domain's chain and contract, and the message.
pub record TypedData : Type 0 where
  pub chain_id : ℕ
  pub verifying_contract : String
  pub action_type : String
  pub message : ContractRequest

-- viem with the registry's contract behind it, and the files of `.local`.
pub record Registry : Type 1 where
  pub State : Type 0
  -- `readContract`
  pub institutions : State → String → Result Institution
  pub delegations : State → String → Result Delegation
  pub delegation_id_used : State → String → Result Bool
  -- `writeContract` with a private key's account, and `waitForTransactionReceipt`: the hash or what is
  -- thrown, and the state in which that leaves the ledger
  pub write_contract : State → String → Call → Result String × State
  -- `keccak256(stringToHex(text))`
  pub keccak : String → String
  -- `privateKeyToAccount(key).address`
  pub address_of : String → String
  pub sign_typed_data : String → TypedData → String
  -- Buffer.from(text, "base64url").toString("hex")
  pub base64url_hex : String → String
  pub load_ledger_deployment : Result LedgerDeployment
  pub load_ledger_roles : Result LedgerRoles

pub record DelegationInput : Type 0 where
  pub delegation_id : String
  pub institution_id : String
  pub gateway_public_jwk : Jwk
  pub purpose_mask : ℕ
  pub now : ℕ

pub record DelegationReply : Type 0 where
  pub epoch : String
  pub transaction_hash : Option String

-- A transaction before it is sent: the private key of its sender, and the call.
pub record Transaction : Type 0 where
  pub key : String
  pub call : Call
