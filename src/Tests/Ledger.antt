-- ===== src/Tests/Ledger.antt =====
-- A registry that keeps the calls it gets, for services/api/src/ledger.ts.
use call_sign.Prelude.{◌≡◌, refl, true, false, List, [], ◌∷◌, ok, err, error}
use call_sign.Prelude.Text.{same_lower}
use call_sign.Server.Registry.{
  LedgerDeployment, LedgerRoles, Institution, Call, suspend_institution, Registry,
}
use call_sign.Server.Ledger.{suspend, check_suspension, matching_role_key}
use call_sign.Server.Ledger.Authorized.{suspends, perform, IsCareful, perform-IsCareful}

abbrev deployment : LedgerDeployment
deployment = record {
  network_id = "1337";
  genesis_hash = "0x01";
  registry_address = "0x02";
  institution_id = "INST";
}

abbrev roles : LedgerRoles
roles = record {
  approver1 = "a1";
  approver2 = "a2";
  approver3 = "a3";
  administrator = "admin";
  emergency_stopper = "stop";
  recovery_administrator = "admin2";
  recovery_emergency_stopper = "stop2";
}

abbrev institution : Institution
institution = record {
  status = 0;
  epoch = 7;
  administrator = "admin";
  approval_public_key = "0x03";
  emergency_stopper = "STOP2";
  directory_hash = "0x04";
  directory_version = 1;
  policy_version = 1;
  exists = true;
}

-- Accounts go by their keys, and a hash by its text.
abbrev registry : Registry
registry = record {
  State = List Call;
  institutions = λ s key. ok institution;
  delegations = λ s key. err (error "NO_ROW");
  delegation_id_used = λ s key. ok false;
  write_contract = λ s key call. (ok "0x05", call ∷ s);
  keccak = λ text. text;
  address_of = λ key. key;
  sign_typed_data = λ key typed. key;
  base64url_hex = λ text. text;
  load_ledger_deployment = ok deployment;
  load_ledger_roles = ok roles;
}

-- The suspension is sent with the second key.
suspended_once : perform registry [] (suspends "inst") ≡ suspend_institution "inst" 7 ∷ []
unfolding perform suspend check_suspension matching_role_key same_lower
suspended_once = refl

perform-IsCareful_example : IsCareful registry [] (perform registry [] (suspends "inst"))
perform-IsCareful_example = perform-IsCareful registry [] (suspends "inst")
