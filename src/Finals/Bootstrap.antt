-- ===== src/Finals/Bootstrap.antt =====
-- The permissions of services/api/src/finals-model.ts: `requirePermission`, and `assertInitialAccounts`,
-- which an institution's first accounts pass.
pub mod Separated
use Prim.Native.String.{◌++◌}
use call_sign.Prelude.{
  ℕ, ◌+◌, String, Option, none, some, Bool, true, false, not, ◌&&◌, ◌||◌, List, [], ◌∷◌, map, leb,
  ◌==◌, ◌!=◌, nat_eq, string_eq, starts_with, any, every, length, lookup, Result, Checked, ok,
  http_error, invalid_input, if◌then◌else◌, throw_if, ◌>>=◌, ◌>>◌,
}
use call_sign.Prelude.Text.{includes, utf16_length, has_length}
use call_sign.Finals.Record.{Actor, Member, InstitutionRecord}
use call_sign.Finals.Model.{membership}

abbrev has_permission : Option Member → String → Bool
has_permission none permission = false
has_permission (some m) permission = any (λ p. p == permission) m.permissions

unfoldable pub require_permission : InstitutionRecord → Actor → String → Checked
require_permission record_ actor permission = do
  membership record_ actor ("institution" ∷ "approver" ∷ [])
  throw_if (not (has_permission (lookup record_.members actor.user_id) permission))
      (http_error 403 "PERMISSION_REQUIRED")

pub record Account : Type 0 where
  pub id : String
  pub display_name : String
  pub role : String
  pub permissions : List String

abbrev manager_permissions : List String
manager_permissions =
    "contact.manage" ∷ "delegation.manage" ∷ "institution.suspend" ∷ "institution.recover"
    ∷ "key.activate" ∷ []

-- `permissions.includes(permission)`
abbrev pub holds : Account → String → Bool
holds a permission = any (λ p. p == permission) a.permissions

-- `provisioningAccountsSchema`, on the accounts with their default of no permissions
unfoldable pub account_conforms : Account → Bool
account_conforms a =
    has_length 3 200 a.id
    && has_length 1 100 a.display_name
    && any (λ r. r == a.role) ("institution" ∷ "gateway" ∷ "recipient" ∷ "approver" ∷ [])
    && every (λ p. p == "governance.approve" || any (λ q. q == p) manager_permissions) a.permissions

unfoldable pub accounts_conform : List Account → Bool
accounts_conform accounts =
    every account_conforms accounts && leb 3 (length accounts) && leb (length accounts) 100

-- `new Set(xs).size`
unfoldable pub set_size : List String → ℕ
set_size [] = 0
set_size (x ∷ xs) = (if any (λ y. y == x) xs then 0 else 1) + set_size xs

-- What is wrong with one account; `prefix` is `${issuer}|`.
unfoldable pub is_misplaced : String → Account → Bool
is_misplaced prefix a =
    not (starts_with a.id prefix)
    || leb (utf16_length a.id) (utf16_length prefix)
    || ((a.role == "gateway" || a.role == "recipient") && length a.permissions != 0)
    || (a.role != "approver" && holds a "governance.approve")

abbrev pub is_manager : Account → Bool
is_manager a = a.role == "institution" && every (holds a) manager_permissions

abbrev pub is_approver : Account → Bool
is_approver a = a.role == "approver" && holds a "governance.approve"

unfoldable pub assert_initial_accounts : List Account → String → Checked
assert_initial_accounts accounts issuer = do
  throw_if (not (accounts_conform accounts)) invalid_input
  throw_if
      (issuer == ""
        || includes issuer "|"
        || set_size (map (λ a. a.id) accounts) != length accounts
        || any (is_misplaced (issuer ++ "|")) accounts)
      (http_error 400 "BOOTSTRAP_IDENTITY_OR_ROLE_INVALID")
  throw_if
      (not (any (λ a. a.role == "gateway") accounts && any (λ a. a.role == "recipient") accounts)
        || not (any is_manager accounts)
        || not (any is_approver accounts))
      (http_error 400 "BOOTSTRAP_MANAGER_AND_APPROVER_REQUIRED")
