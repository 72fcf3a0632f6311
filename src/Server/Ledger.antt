-- ===== src/Server/Ledger.antt =====
-- services/api/src/ledger.ts: what the service reads from the registry on the ledger, and the
-- transactions that it sends.
pub mod Authorized
use Prim.Native.String.{◌++◌}
use call_sign.Prelude.{
  ℕ, zero, suc, ◌+◌, ◌-◌, String, Option, none, some, Bool, true, false, not, ◌&&◌, ◌||◌, List, [],
  ◌∷◌, ltb, ◌==◌, ◌!=◌, nat_eq, any, if◌then◌else◌, Result, Checked, ok, err, error, throw_if,
  or_throw, ◌>>=◌, ◌>>◌,
}
use call_sign.Prelude.Text.{includes, same_lower, big_int, matches_digits, codes}
use call_sign.Prelude.Decimal.{decimal}
use call_sign.Protocol.Json.{Jwk}
use call_sign.Verifier.Snapshot.{LedgerStatus, active, suspended}
use call_sign.Server.Tables.{RecoveryRequest}
use call_sign.Server.Governance.{GovernanceLedger}
use call_sign.Server.Registry.{
  LedgerDeployment, LedgerRoles, InstitutionLedgerState, Institution, Delegation, ContractRequest,
  Call, grant_delegation, revoke_delegation, suspend_institution, recover_institution, TypedData,
  Registry, DelegationInput, DelegationReply, Transaction,
}

-- `new Set(texts.map((text) => text.toLowerCase())).size`
unfoldable pub distinct_lower : List String → ℕ
unfolding any
distinct_lower [] = 0
distinct_lower (x ∷ xs) = (if any (same_lower x) xs then 0 else 1) + distinct_lower xs

abbrev pub demo_institution_id : String
demo_institution_id = "inst_mock_a_city_01HZZZZZZZZZZZZZZZZ"

abbrev pub ledger_status : ℕ → LedgerStatus
ledger_status s = if s == 0 then active else suspended

-- `BigInt(text)`. The texts of a request are digits, since `recoveryRequestSchema` has read them.
abbrev pub whole : String → Result ℕ
whole s = if matches_digits (codes s) then ok (big_int s) else err (error "SyntaxError")

-- `BigInt(now - 5)` as a uint64, which viem does not encode below 0
abbrev pub five_before : ℕ → Result ℕ
five_before now = if ltb now 5 then err (error "IntegerOutOfRangeError") else ok (now - 5)

abbrev pub no_key : String
no_key = "LEDGER_ROLE_KEY_NOT_AVAILABLE"

module _ (r : Registry) where
  open r use {State, keccak, address_of}

  abbrev pub institution_key_for : LedgerDeployment → String → Result String
  institution_key_for deployment institution_id =
      if same_lower (keccak institution_id) deployment.institution_id
      then ok (keccak institution_id)
      else err (error "LEDGER_INSTITUTION_MISMATCH")

  -- `names` as the keys that they name
  unfoldable pub matching_role_key : String → List String → Result String
  matching_role_key expected_address [] = err (error no_key)
  matching_role_key expected_address (key ∷ names) =
      let rest = matching_role_key expected_address names in
      if same_lower (address_of key) expected_address then ok key else rest

  -- `["administrator", "recoveryAdministrator"]`
  abbrev pub administrators : LedgerRoles → List String
  administrators roles = roles.administrator ∷ roles.recovery_administrator ∷ []

  abbrev pub stoppers : LedgerRoles → List String
  stoppers roles = roles.emergency_stopper ∷ roles.recovery_emergency_stopper ∷ []

  -- `ledgerClients`
  abbrev pub ledger_clients : Result (LedgerDeployment × LedgerRoles)
  ledger_clients = do
    deployment ← r.load_ledger_deployment
    roles ← r.load_ledger_roles
    ok (deployment, roles)

  -- What `ensureLedgerDelegation` finds out before it sends: the epoch, and the transaction that is
  -- needed, if one is.
  abbrev pub standing :
      State → DelegationInput → String → String → Institution → Result (ℕ × Option Transaction)
  standing s input delegation_key gateway_key institution = do
    current ← r.delegations s delegation_key
    throw_if
        (not current.exists
          || current.revoked
          || not (same_lower current.gateway_public_key gateway_key)
          || current.epoch != institution.epoch)
        (error "LEDGER_DELEGATION_CONFLICT")
    ok (institution.epoch, none)

  abbrev pub grant :
      DelegationInput
      → String
      → String
      → String
      → String
      → Institution
      → Result (ℕ × Option Transaction)
  grant input key delegation_key institution_key gateway_key institution = do
    valid_from ← five_before input.now
    ok (
      institution.epoch,
      some (record {
        key = key;
        call =
            grant_delegation delegation_key institution_key institution.epoch gateway_key
              input.purpose_mask valid_from (input.now + 3600);
      }),
    )

  unfoldable pub check_delegation : State → DelegationInput → Result (ℕ × Option Transaction)
  check_delegation s input = do
    (deployment, roles) ← ledger_clients
    institution_key ← institution_key_for deployment input.institution_id
    let delegation_key = keccak input.delegation_id
    let gateway_key = "0x" ++ r.base64url_hex input.gateway_public_jwk.x
    institution ← r.institutions s institution_key
    throw_if (not institution.exists || institution.status != 0)
        (error "LEDGER_INSTITUTION_NOT_ACTIVE")
    key ← matching_role_key institution.administrator (administrators roles)
    used ← r.delegation_id_used s delegation_key
    if used
        then standing s input delegation_key gateway_key institution
        else grant input key delegation_key institution_key gateway_key institution

  -- `wallet.writeContract` and the receipt, where everything before has returned.
  abbrev pub send {ℓ} : {A : Type ℓ} → State → Result Transaction → (String → A) → Result A × State
  send s (err e) reply = (err e, s)
  send s (ok t) reply =
      let (sent, after) = r.write_contract s t.key t.call in
      ((do hash ← sent; ok (reply hash)), after)

  abbrev pub ensured : State → Result (ℕ × Option Transaction) → Result DelegationReply × State
  ensured s (err e) = (err e, s)
  ensured s (ok (epoch, none)) = (ok (record { epoch = decimal epoch; transaction_hash = none }), s)
  ensured s (ok (epoch, some t)) =
      send s (ok t) (λ hash. record { epoch = decimal epoch; transaction_hash = some hash })

  unfoldable pub ensure_ledger_delegation : State → DelegationInput → Result DelegationReply × State
  ensure_ledger_delegation s input = ensured s (check_delegation s input)

  unfoldable pub check_revocation : State → String → Result Transaction
  check_revocation s delegation_id = do
    (deployment, roles) ← ledger_clients
    delegation ← r.delegations s (keccak delegation_id)
    institution ← r.institutions s delegation.institution_id
    key ← matching_role_key institution.administrator (administrators roles)
    ok (record { key = key; call = revoke_delegation (keccak delegation_id) delegation.epoch })

  unfoldable pub revoke_ledger_delegation : State → String → Result String × State
  revoke_ledger_delegation s delegation_id =
      send s (check_revocation s delegation_id) (λ hash. hash)

  unfoldable pub read_institution_state : State → String → Result InstitutionLedgerState
  read_institution_state s institution_id = do
    (deployment, roles) ← ledger_clients
    key ← institution_key_for deployment institution_id
    institution ← r.institutions s key
    throw_if (not institution.exists) (error "LEDGER_INSTITUTION_NOT_FOUND")
    ok (record {
      institution_id = institution_id;
      status = ledger_status institution.status;
      epoch = decimal institution.epoch;
      administrator = institution.administrator;
      emergency_stopper = institution.emergency_stopper;
    })

  unfoldable pub check_suspension : State → String → Result Transaction
  check_suspension s institution_id = do
    (deployment, roles) ← ledger_clients
    key ← institution_key_for deployment institution_id
    institution ← r.institutions s key
    throw_if (not institution.exists || institution.status != 0)
        (error "LEDGER_INSTITUTION_NOT_ACTIVE")
    stopper_key ← matching_role_key institution.emergency_stopper (stoppers roles)
    ok (record { key = stopper_key; call = suspend_institution key institution.epoch })

  -- The reply of a transaction: its hash, and the state that is read after it.
  abbrev pub with_state :
      Result String × State
      → (State → Result InstitutionLedgerState)
      → Result (String × InstitutionLedgerState) × State
  with_state (sent, after) read = ((do hash ← sent; state ← read after; ok (hash, state)), after)

  unfoldable pub suspend : State → String → Result (String × InstitutionLedgerState) × State
  suspend s institution_id =
      with_state (send s (check_suspension s institution_id) (λ hash. hash))
        (λ after. read_institution_state after institution_id)

  -- `uuid` is `randomUUID()`.
  unfoldable pub create_recovery : State → String → ℕ → String → Result RecoveryRequest
  create_recovery s institution_id now uuid = do
    (deployment, roles) ← ledger_clients
    key ← institution_key_for deployment institution_id
    institution ← r.institutions s key
    throw_if (not institution.exists || institution.status != 1)
        (error "LEDGER_INSTITUTION_NOT_SUSPENDED")
    let use_recovery_pair = same_lower institution.administrator (address_of roles.administrator)
    let epoch = decimal institution.epoch
    ok (record {
      institution_id = key;
      expected_epoch = epoch;
      new_administrator =
          address_of
            (if use_recovery_pair then roles.recovery_administrator else roles.administrator);
      new_approval_public_key = institution.approval_public_key;
      new_emergency_stopper =
          address_of (
            if use_recovery_pair
            then roles.recovery_emergency_stopper
            else roles.emergency_stopper);
      nonce = keccak ("recover:" ++ institution_id ++ ":" ++ epoch ++ ":" ++ uuid);
      deadline = decimal (now + 600);
    })

  -- `{ ...request, expectedEpoch: BigInt(…), deadline: BigInt(…) }`
  abbrev pub contract_request : RecoveryRequest → Result ContractRequest
  contract_request request = do
    expected_epoch ← whole request.expected_epoch
    deadline ← whole request.deadline
    ok (record { request = request; expected_epoch = expected_epoch; deadline = deadline })

  abbrev pub recovery_typed_data : LedgerDeployment → RecoveryRequest → Result TypedData
  recovery_typed_data deployment request = do
    message ← contract_request request
    ok (record {
      chain_id = big_int deployment.network_id;
      verifying_contract = deployment.registry_address;
      action_type = keccak "RECOVER_INSTITUTION";
      message = message;
    })

  abbrev pub approver_key : LedgerRoles → String → Option String
  approver_key roles signer_user_id =
      if includes signer_user_id "approver_1_"
      then some roles.approver1
      else if includes signer_user_id "approver_2_"
      then some roles.approver2
      else if includes signer_user_id "approver_3_"
      then some roles.approver3
      else none

  unfoldable pub sign_recovery : RecoveryRequest → String → Result String
  sign_recovery request signer_user_id = do
    (deployment, roles) ← ledger_clients
    key ← or_throw (approver_key roles signer_user_id) (error "LEDGER_APPROVER_KEY_NOT_AVAILABLE")
    typed ← recovery_typed_data deployment request
    ok (r.sign_typed_data key typed)

  unfoldable pub check_submission :
      RecoveryRequest → List String → Result (LedgerDeployment × Transaction)
  check_submission request signatures = do
    throw_if (ltb (distinct_lower signatures) 2) (error "LEDGER_DUPLICATE_RECOVERY_SIGNATURE")
    (deployment, roles) ← ledger_clients
    contract ← contract_request request
    ok (
      deployment,
      record { key = roles.administrator; call = recover_institution contract signatures },
    )

  -- What `submitRecovery` does after the receipt.
  abbrev pub after_submission :
      LedgerDeployment → RecoveryRequest → State → Result InstitutionLedgerState
  after_submission deployment request after = do
    throw_if (not (same_lower request.institution_id deployment.institution_id))
        (error "LEDGER_INSTITUTION_MISMATCH")
    read_institution_state after demo_institution_id

  abbrev pub submitted :
      State
      → RecoveryRequest
      → Result (LedgerDeployment × Transaction)
      → Result (String × InstitutionLedgerState) × State
  submitted s request (err e) = (err e, s)
  submitted s request (ok (deployment, t)) =
      with_state (send s (ok t) (λ hash. hash)) (after_submission deployment request)

  unfoldable pub submit_recovery :
      State → RecoveryRequest → List String → Result (String × InstitutionLedgerState) × State
  submit_recovery s request signatures = submitted s request (check_submission request signatures)

  abbrev hash_of : Result (String × InstitutionLedgerState) × State → Result String
  hash_of (reply, after) = do sent ← reply; ok sent.0

  -- `realGovernanceLedger`, as the handlers see it in a state of the ledger.
  unfoldable pub real_governance_ledger : State → String → GovernanceLedger
  real_governance_ledger s uuid = record {
    suspend = λ institution_id. hash_of (suspend s institution_id);
    create_recovery = λ institution_id now. create_recovery s institution_id now uuid;
    sign_recovery = sign_recovery;
    submit_recovery = λ request signatures. hash_of (submit_recovery s request signatures);
  }
