-- ===== src/Server/Ledger/Authorized.antt =====
-- The transactions of services/api/src/ledger.ts: what is sent to the registry, and by whom.
use Prim.Native.String.{◌++◌}
use call_sign.Prelude.{
  ℕ, ◌+◌, ◌≤◌, ◌≡◌, refl, ◌⊎◌, inl, inr, String, Option, none, some, true, false, not, ◌||◌, List,
  [], ◌∷◌, ltb, ◌!=◌, nat_eq, Result, ok, err, arith,
}
use call_sign.Prelude.Text.{same_lower}
use call_sign.Server.Tables.{RecoveryRequest}
use call_sign.Server.Registry.{
  LedgerDeployment, LedgerRoles, Institution, Delegation, ContractRequest, Call, grant_delegation,
  revoke_delegation, suspend_institution, recover_institution, Registry, DelegationInput,
  Transaction,
}
use call_sign.Server.Ledger.{
  distinct_lower, matching_role_key, check_delegation, check_revocation, check_suspension,
  check_submission, ensure_ledger_delegation, revoke_ledger_delegation, suspend, submit_recovery,
  send, ensured, submitted, administrators, stoppers, ledger_clients, contract_request,
  institution_key_for, five_before,
}

-- The calls that send a transaction.
pub data Operation : Type 0 where
  ensures : DelegationInput → Operation
  revokes : String → Operation
  suspends : String → Operation
  submits : RecoveryRequest → List String → Operation

module _ (r : Registry) where
  open r use {State}

  -- The ledger after the call, whether it returns or throws.
  unfoldable pub perform : State → Operation → State
  perform s (ensures input) = (ensure_ledger_delegation r s input).1
  perform s (revokes delegation_id) = (revoke_ledger_delegation r s delegation_id).1
  perform s (suspends institution_id) = (suspend r s institution_id).1
  perform s (submits request signatures) = (submit_recovery r s request signatures).1

  -- The row of an institution on the ledger, whose `holder` has the key.
  abbrev pub IsHeld : State → String → String → (Institution → String) → Institution → Type 0
  IsHeld s institution_id key holder institution =
      (r.institutions s institution_id ≡ ok institution)
      × (same_lower (r.address_of key) (holder institution) ≡ true)

  abbrev pub IsActive : Institution → Type 0
  IsActive institution = (institution.exists ≡ true) × (institution.status ≡ 0)

  -- A call that its sender may make. A grant and a suspension name the present epoch of the institution, a
  -- revocation that of the delegation, and the sender holds the role on the ledger; a recovery is sent by
  -- the administrator of the service's files and carries two different signatures.
  abbrev pub IsAuthorized : State → String → Call → Type 0
  IsAuthorized s key (grant_delegation d i epoch gateway mask from until) =
      (institution : Institution) × IsHeld s i key (λ row. row.administrator) institution
      × IsActive institution
      × (epoch ≡ institution.epoch)
      × (r.delegation_id_used s d ≡ ok false)
  IsAuthorized s key (revoke_delegation d epoch) =
      (delegation : Delegation) × (institution : Institution) × (r.delegations s d ≡ ok delegation)
      × IsHeld s delegation.institution_id key (λ row. row.administrator) institution
      × (epoch ≡ delegation.epoch)
  IsAuthorized s key (suspend_institution i epoch) =
      (institution : Institution) × IsHeld s i key (λ row. row.emergency_stopper) institution
      × IsActive institution
      × (epoch ≡ institution.epoch)
  IsAuthorized s key (recover_institution request signatures) =
      (roles : LedgerRoles) × (r.load_ledger_roles ≡ ok roles)
      × (key ≡ roles.administrator)
      × (2 ≤ distinct_lower signatures)

  matching_role_key-holder :
      (address : String) (keys : List String) (key : String)
      → matching_role_key r address keys ≡ ok key
      → same_lower (r.address_of key) address ≡ true
  unfolding matching_role_key
  matching_role_key-holder address [] key h = cc
  matching_role_key-holder address (k ∷ keys) key h =
      ground (arith, matching_role_key-holder address keys key)

  submission-parts :
      (request : RecoveryRequest) (signatures : List String) (deployment : LedgerDeployment)
      (t : Transaction)
      → check_submission r request signatures ≡ ok (deployment, t)
      → (roles : LedgerRoles) × (contract : ContractRequest) × (ledger_clients r
          ≡ ok (deployment, roles))
        × (contract_request r request ≡ ok contract)
        × (ltb (distinct_lower signatures) 2 ≡ false)
        × (t.key ≡ roles.administrator)
        × (t.call ≡ recover_institution contract signatures)
  unfolding check_submission
  submission-parts request signatures deployment t h = ground arith

  suspension-parts :
      (s : State) (institution_id : String) (t : Transaction)
      → check_suspension r s institution_id ≡ ok t
      → (clients : LedgerDeployment × LedgerRoles) × (i : String) × (institution : Institution)
        × (ledger_clients r ≡ ok clients)
        × (institution_key_for r clients.0 institution_id ≡ ok i)
        × (r.institutions s i ≡ ok institution)
        × ((not institution.exists || institution.status != 0) ≡ false)
        × (matching_role_key r institution.emergency_stopper (stoppers r clients.1) ≡ ok t.key)
        × (t.call ≡ suspend_institution i institution.epoch)
  unfolding check_suspension
  suspension-parts s institution_id t h = ground arith

  revocation-parts :
      (s : State) (delegation_id : String) (t : Transaction)
      → check_revocation r s delegation_id ≡ ok t
      → (clients : LedgerDeployment × LedgerRoles) × (delegation : Delegation)
        × (institution : Institution) × (ledger_clients r ≡ ok clients)
        × (r.delegations s (r.keccak delegation_id) ≡ ok delegation)
        × (r.institutions s delegation.institution_id ≡ ok institution)
        × (matching_role_key r institution.administrator (administrators r clients.1) ≡ ok t.key)
        × (t.call ≡ revoke_delegation (r.keccak delegation_id) delegation.epoch)
  unfolding check_revocation
  revocation-parts s delegation_id t h = ground arith

  delegation-parts :
      (s : State) (input : DelegationInput) (epoch : ℕ) (t : Transaction)
      → check_delegation r s input ≡ ok (epoch, some t)
      → (clients : LedgerDeployment × LedgerRoles) × (i : String) × (institution : Institution)
        × (from : ℕ) × (ledger_clients r ≡ ok clients)
        × (institution_key_for r clients.0 input.institution_id ≡ ok i)
        × (r.institutions s i ≡ ok institution)
        × ((not institution.exists || institution.status != 0) ≡ false)
        × (matching_role_key r institution.administrator (administrators r clients.1) ≡ ok t.key)
        × (r.delegation_id_used s (r.keccak input.delegation_id) ≡ ok false)
        × (five_before input.now ≡ ok from)
        × (t.call
            ≡ grant_delegation
                (r.keccak input.delegation_id)
                i
                institution.epoch
                ("0x" ++ r.base64url_hex input.gateway_public_jwk.x)
                input.purpose_mask
                from
                (input.now + 3600))
  unfolding check_delegation
  delegation-parts s input epoch t h = ground arith

  clients-roles :
      (deployment : LedgerDeployment) (roles : LedgerRoles)
      → ledger_clients r ≡ ok (deployment, roles)
      → r.load_ledger_roles ≡ ok roles
  clients-roles deployment roles h = ground arith

  test-IsActive :
      (institution : Institution)
      → (not institution.exists || institution.status != 0) ≡ false
      → IsActive institution
  test-IsActive institution h = ground arith

  delegation-IsAuthorized :
      (s : State) (input : DelegationInput) (epoch : ℕ) (t : Transaction)
      → check_delegation r s input ≡ ok (epoch, some t)
      → IsAuthorized s t.key t.call
  delegation-IsAuthorized s input epoch t h =
      let (clients, i, row, from, _, _, read, test, key, used, _, call) =
        delegation-parts s input epoch t h in
      rw call (row, (read, matching_role_key-holder _ _ _ key), test-IsActive row test, refl, used)

  revocation-IsAuthorized :
      (s : State) (delegation_id : String) (t : Transaction)
      → check_revocation r s delegation_id ≡ ok t
      → IsAuthorized s t.key t.call
  revocation-IsAuthorized s delegation_id t h =
      let (clients, delegation, row, _, read_delegation, read, key, call) =
        revocation-parts s delegation_id t h in
      rw call (delegation, row, read_delegation, (read, matching_role_key-holder _ _ _ key), refl)

  suspension-IsAuthorized :
      (s : State) (institution_id : String) (t : Transaction)
      → check_suspension r s institution_id ≡ ok t
      → IsAuthorized s t.key t.call
  suspension-IsAuthorized s institution_id t h =
      let (clients, i, row, _, _, read, test, key, call) = suspension-parts s institution_id t h in
      rw call (row, (read, matching_role_key-holder _ _ _ key), test-IsActive row test, refl)

  submission-IsAuthorized :
      (s : State) (request : RecoveryRequest) (signatures : List String)
      (deployment : LedgerDeployment) (t : Transaction)
      → check_submission r request signatures ≡ ok (deployment, t)
      → IsAuthorized s t.key t.call
  submission-IsAuthorized s request signatures deployment t h =
      let (roles, contract, clients, _, test, key, call) =
        submission-parts request signatures deployment t h in
      rw call (roles, clients-roles deployment roles clients, key, ground arith)

  -- The ledger is as it was, or it is what one authorized transaction makes of it.
  abbrev pub IsCareful : State → State → Type 0
  IsCareful s after =
      (after ≡ s)
      ⊎ ((t : Transaction) × (after ≡ (r.write_contract s t.key t.call).1)
          × IsAuthorized s t.key t.call)

  send-IsCareful {ℓ} :
      {A : Type ℓ} (s : State) (checked : Result Transaction) (reply : String → A)
      → ((t : Transaction) → checked ≡ ok t → IsAuthorized s t.key t.call)
      → IsCareful s (send r s checked reply).1
  send-IsCareful s (err e) reply authorized = inl refl
  send-IsCareful s (ok t) reply authorized = inr (t, refl, authorized t refl)

  ensured-IsCareful :
      (s : State) (checked : Result (ℕ × Option Transaction))
      → ((epoch : ℕ) (t : Transaction) → checked ≡ ok (epoch, some t) → IsAuthorized s t.key t.call)
      → IsCareful s (ensured r s checked).1
  ensured-IsCareful s (err e) authorized = inl refl
  ensured-IsCareful s (ok (epoch, none)) authorized = inl refl
  ensured-IsCareful s (ok (epoch, some t)) authorized = inr (t, refl, authorized epoch t refl)

  submitted-IsCareful :
      (s : State) (request : RecoveryRequest) (checked : Result (LedgerDeployment × Transaction))
      → ((deployment : LedgerDeployment) (t : Transaction)
          → checked ≡ ok (deployment, t)
          → IsAuthorized s t.key t.call)
      → IsCareful s (submitted r s request checked).1
  submitted-IsCareful s request (err e) authorized = inl refl
  submitted-IsCareful s request (ok (deployment, t)) authorized =
      inr (t, refl, authorized deployment t refl)

  -- Whatever the service is asked to do, it leaves the ledger as it was or sends one transaction. A grant
  -- is sent by the administrator of an active institution in its present epoch, for an unused identifier;
  -- a suspension by the emergency stopper of an active institution in its present epoch; a revocation by
  -- the administrator of the delegation's institution, with the epoch that the delegation has on the
  -- ledger; a recovery by the administrator of the service's files, with two different signatures.
  pub perform-IsCareful : (s : State) (operation : Operation) → IsCareful s (perform s operation)
  unfolding perform ensure_ledger_delegation revoke_ledger_delegation suspend submit_recovery
  perform-IsCareful s (ensures input) =
      ensured-IsCareful s (check_delegation r s input) (delegation-IsAuthorized s input)
  perform-IsCareful s (revokes delegation_id) =
      send-IsCareful s (check_revocation r s delegation_id) (λ hash. hash)
        (revocation-IsAuthorized s delegation_id)
  perform-IsCareful s (suspends institution_id) =
      send-IsCareful s (check_suspension r s institution_id) (λ hash. hash)
        (suspension-IsAuthorized s institution_id)
  perform-IsCareful s (submits request signatures) =
      submitted-IsCareful s request (check_submission r request signatures)
        (submission-IsAuthorized s request signatures)
