-- ===== src/Finals/Bootstrap/Separated.antt =====
-- `assertInitialAccounts` of services/api/src/finals-model.ts: the roles of the first accounts.
use Prim.Native.String.{◌++◌}
use mathlib.Core.List.{Nodup-cons, Nodup-nil}
use call_sign.Prelude.{
  ◌≤◌, ◌≡◌, ◌≢◌, refl, String, Bool, starts_with, ap, sym, ◌∙◌, true, false, List, [], ◌∷◌, map,
  arith, eq_iff, Nodup, ◌==◌, ◌!=◌, string_eq, nat_eq, any, length, length-map, All, ok,
  not-mem_of_any-false,
}
use call_sign.Finals.Bootstrap.{
  Account, holds, set_size, is_misplaced, is_manager, is_approver, assert_initial_accounts,
}

set_size-length : (xs : List String) → set_size xs ≤ length xs
unfolding set_size
set_size-length [] = omega arith
set_size-length (x ∷ xs) = ground (arith, set_size-length xs)

-- A list that is as long as the set of its elements repeats none.
set_size-Nodup : (xs : List String) → set_size xs ≡ length xs → Nodup xs
unfolding set_size
set_size-Nodup [] h = Nodup-nil
set_size-Nodup (x ∷ xs) h = Nodup-cons.1 (
  not-mem_of_any-false x xs (ground (arith, set_size-length xs)),
  set_size-Nodup xs (ground (arith, set_size-length xs)),
)

any-All :
    (P : Account → Type 0) (p : Account → Bool) (xs : List Account)
    → ((a : Account) → p a ≡ false → P a)
    → any p xs ≡ false
    → All P xs
unfolding any
any-All P p [] f h = tt
any-All P p (x ∷ xs) f h = (f x (ground arith), any-All P p xs f (ground arith))

-- An account that holds no permission it may not hold, under an identifier of the issuer.
pub record IsPlaced (issuer : String) (a : Account) : Type 0 where
  pub issued : starts_with a.id (issuer ++ "|") ≡ true
  pub gateway : a.role ≡ "gateway" → a.permissions ≡ []
  pub recipient : a.role ≡ "recipient" → a.permissions ≡ []
  pub approves : holds a "governance.approve" ≡ true → a.role ≡ "approver"

length-zero : (xs : List String) → (length xs != 0) ≡ false → xs ≡ []
length-zero [] h = refl
length-zero (x ∷ xs) h = ground arith

placed :
    (issuer : String) (a : Account) → is_misplaced (issuer ++ "|") a ≡ false → IsPlaced issuer a
unfolding is_misplaced
placed issuer a h = record {
  issued = ground arith;
  gateway = λ e.
      let is_gateway : (a.role == "gateway") ≡ true = ap (λ s. s == "gateway") e in
      length-zero a.permissions (ground arith);
  recipient = λ e.
      let is_recipient : (a.role == "recipient") ≡ true = ap (λ s. s == "recipient") e in
      length-zero a.permissions (ground arith);
  approves = λ e. ground (arith, eq_iff a.role "approver");
}

-- The accounts have different identifiers, agents and recipients hold no permission, only approvers
-- approve, and there are a manager with every managing permission and an approver.
pub record IsSeparated (issuer : String) (accounts : List Account) : Type 0 where
  pub distinct : Nodup (map (λ a. a.id) accounts)
  pub placed : All (IsPlaced issuer) accounts
  pub managed : any is_manager accounts ≡ true
  pub approved : any is_approver accounts ≡ true
  pub named : issuer ≢ ""

accounts-parts :
    (accounts : List Account) (issuer : String)
    → assert_initial_accounts accounts issuer ≡ ok tt
    → ((issuer == "") ≡ false)
      × (set_size (map (λ a. a.id) accounts) ≡ length accounts)
      × (any (is_misplaced (issuer ++ "|")) accounts ≡ false)
      × (any is_manager accounts ≡ true)
      × (any is_approver accounts ≡ true)
unfolding assert_initial_accounts
accounts-parts accounts issuer h = ground arith

-- Accounts that pass have different identifiers of the issuer, agents and recipients among them hold no
-- permission, only approvers may approve, and a manager with every managing permission and an
-- approver are there.
pub assert_initial_accounts-IsSeparated :
    (accounts : List Account) (issuer : String)
    → assert_initial_accounts accounts issuer ≡ ok tt
    → IsSeparated issuer accounts
assert_initial_accounts-IsSeparated accounts issuer h =
    let (named, size, misplaced, managed, approved) = accounts-parts accounts issuer h in
    record {
      distinct =
          set_size-Nodup (map (λ a. a.id) accounts) (size ∙ sym (length-map accounts (λ a. a.id)));
      placed =
          any-All (IsPlaced issuer) (is_misplaced (issuer ++ "|")) accounts (placed issuer)
            misplaced;
      managed = managed;
      approved = approved;
      named = λ e. ground (arith, eq_iff issuer "");
    }
