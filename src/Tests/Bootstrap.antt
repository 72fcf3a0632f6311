-- ===== src/Tests/Bootstrap.antt =====
-- The first accounts of an issuer.
use call_sign.Prelude.{◌≡◌, refl, ok, err, http_error, String, List, [], ◌∷◌, any, every}
use call_sign.Prelude.Text.{has_length, includes, utf16_length}
use call_sign.Finals.Bootstrap.{
  Account, account_conforms, accounts_conform, set_size, is_misplaced, assert_initial_accounts,
}
use call_sign.Finals.Bootstrap.Separated.{IsSeparated, assert_initial_accounts-IsSeparated}

abbrev account : String → String → List String → Account
account id role permissions = record {
  id = id;
  display_name = "A name";
  role = role;
  permissions = permissions;
}

abbrev accounts : List Account
accounts =
    account "bank|agent" "gateway" []
    ∷ account "bank|customer" "recipient" []
    ∷ account "bank|manager" "institution" (
        "contact.manage" ∷ "delegation.manage" ∷ "institution.suspend" ∷ "institution.recover"
        ∷ "key.activate" ∷ [])
    ∷ account "bank|approver" "approver" ("governance.approve" ∷ [])
    ∷ []

accepted : assert_initial_accounts accounts "bank" ≡ ok tt
unfolding assert_initial_accounts accounts_conform account_conforms set_size is_misplaced any every
    has_length utf16_length includes
accepted = refl

-- The same accounts under another issuer.
foreign :
    assert_initial_accounts accounts "shop"
    ≡ err (http_error 400 "BOOTSTRAP_IDENTITY_OR_ROLE_INVALID")
unfolding assert_initial_accounts accounts_conform account_conforms set_size is_misplaced any every
    has_length utf16_length includes
foreign = refl

assert_initial_accounts-IsSeparated_example : IsSeparated "bank" accounts
assert_initial_accounts-IsSeparated_example =
    assert_initial_accounts-IsSeparated accounts "bank" accepted
