-- ===== src/Server/Consumption/Once.antt =====
-- `consumeAuthorizationAtomic` of services/api/src/consumption.ts, one call after another.
use mathlib.Core.List.{map-append}
use call_sign.Prelude.{
  ◌≡◌, refl, ap, ◌∙◌, String, Option, none, some, true, false, List, [], ◌∷◌, ◌++◌, map, Nodup,
  arith, eq_refl, any, find, ◌||◌, leb, ◌==◌, string_eq, not-mem_of_any-false, Nodup-snoc, ok, err,
  Result-cases, inl, inr,
}
use call_sign.Server.Tables.{Authorization, AuthorizationConsumption, Database}
use call_sign.Server.Consumption.{
  Replayed, is_set, consumption_of, authorization_of, insert_or_read, other_consumption,
  consume_authorization_atomic,
}

-- A call, after which the database is as it was where it throws.
unfoldable pub attempt : Database → AuthorizationConsumption → Database
attempt db input = elim (consume_authorization_atomic db input) [ ok r ↦ r.1 | err e ↦ db ]

unfoldable pub attempt_all : Database → List AuthorizationConsumption → Database
unfolding attempt
attempt_all db [] = db
attempt_all db (input ∷ inputs) = attempt_all (attempt db input) inputs

consume-parts :
    (db : Database) (input : AuthorizationConsumption) (r : Replayed) (db' : Database)
    → consume_authorization_atomic db input ≡ ok (r, db')
    → (locked : Authorization) × (authorization_of db.authorizations input.authorization_id
        ≡ some locked)
      × ((is_set locked.cancelled_at || leb locked.expires_at input.consumed_at) ≡ false)
      × (other_consumption r.record_ input ≡ false)
      × (r
          ≡ (insert_or_read db.consumptions input
              (consumption_of db.consumptions input.authorization_id)).0)
      × (db' ≡ record db {
        consumptions =
            (insert_or_read db.consumptions input
              (consumption_of db.consumptions input.authorization_id)).1;
      })
unfolding consume_authorization_atomic
consume-parts db input r db' h = ground arith

-- A row stays under its key when another one is added behind it.
find-append :
    (xs : List AuthorizationConsumption) (id : String) (y r : AuthorizationConsumption)
    → consumption_of xs id ≡ some r
    → consumption_of (xs ++ y ∷ []) id ≡ some r
unfolding consumption_of find
find-append [] id y r h = cc
find-append (x ∷ xs) id y r h = ground (arith, find-append xs id y r)

find-last :
    (xs : List AuthorizationConsumption) (y : AuthorizationConsumption)
    → consumption_of xs y.authorization_id ≡ none
    → consumption_of (xs ++ y ∷ []) y.authorization_id ≡ some y
unfolding consumption_of find
find-last [] y h = ground (arith, eq_refl y.authorization_id)
find-last (x ∷ xs) y h = ground (arith, find-last xs y)

any-find :
    (xs : List AuthorizationConsumption) (id : String)
    → consumption_of xs id ≡ none
    → any (λ x. x == id) (map (λ r. r.authorization_id) xs) ≡ false
unfolding consumption_of find any
any-find [] id h = refl
any-find (x ∷ xs) id h = ground (arith, any-find xs id)

-- How a successful call leaves the table: as it is, or with its own row behind.
outcome :
    (rows : List AuthorizationConsumption) (input : AuthorizationConsumption)
    (o : Option AuthorizationConsumption)
    → consumption_of rows input.authorization_id ≡ o
    → consumption_of (insert_or_read rows input o).1 input.authorization_id
      ≡ some (insert_or_read rows input o).0.record_
outcome rows input none e = find-last rows input e
outcome rows input (some prior) e = e

grows :
    (rows : List AuthorizationConsumption) (input r : AuthorizationConsumption) (id : String)
    (o : Option AuthorizationConsumption)
    → consumption_of rows id ≡ some r
    → consumption_of (insert_or_read rows input o).1 id ≡ some r
grows rows input r id none h = find-append rows id input r h
grows rows input r id (some prior) h = h

attempt-kept :
    (db : Database) (input r : AuthorizationConsumption) (id : String)
    → consumption_of db.consumptions id ≡ some r
    → consumption_of (attempt db input).consumptions id ≡ some r
unfolding attempt
attempt-kept db input r id h = elim (Result-cases (consume_authorization_atomic db input)) [
  | inl ((d, db'), e) ↦
      let (_, _, _, _, _, q) = consume-parts db input d db' e in
      rw (e, attempt, q)
        (grows db.consumptions input r id (consumption_of db.consumptions input.authorization_id) h)
  | inr (f, e) ↦ rw (e, attempt) h
]

attempt_all-kept :
    (db : Database) (inputs : List AuthorizationConsumption) (r : AuthorizationConsumption)
    (id : String)
    → consumption_of db.consumptions id ≡ some r
    → consumption_of (attempt_all db inputs).consumptions id ≡ some r
unfolding attempt_all
attempt_all-kept db [] r id h = h
attempt_all-kept db (input ∷ inputs) r id h =
    attempt_all-kept (attempt db input) inputs r id (attempt-kept db input r id h)

replayed :
    (rows : List AuthorizationConsumption) (input r : AuthorizationConsumption)
    (o : Option AuthorizationConsumption)
    → o ≡ some r
    → ((insert_or_read rows input o).0.record_ ≡ r)
      × ((insert_or_read rows input o).0.replay ≡ true)
      × ((insert_or_read rows input o).1 ≡ rows)
replayed rows input r none e = cc
replayed rows input r (some prior) e = (ground arith, refl, refl)

-- When a call has consumed an authorization, then whatever calls come in between, every later call
-- for the same authorization that succeeds returns the same row as a replay and changes nothing.
pub consume_authorization_atomic-once :
    (db db₁ db₂ : Database) (input input' : AuthorizationConsumption)
    (between : List AuthorizationConsumption) (r r' : Replayed)
    → consume_authorization_atomic db input ≡ ok (r, db₁)
    → consume_authorization_atomic (attempt_all db₁ between) input' ≡ ok (r', db₂)
    → input'.authorization_id ≡ input.authorization_id
    → (r'.record_ ≡ r.record_) × (r'.replay ≡ true) × (db₂ ≡ attempt_all db₁ between)
consume_authorization_atomic-once db db₁ db₂ input input' between r r' h h' same =
    let (_, _, _, _, e, q) = consume-parts db input r db₁ h in
    let (_, _, _, _, e', q') = consume-parts (attempt_all db₁ between) input' r' db₂ h' in
    let there : consumption_of db₁.consumptions input.authorization_id ≡ some r.record_ =
      rw (q, e)
        (outcome db.consumptions input (consumption_of db.consumptions input.authorization_id)
          refl) in
    let still = attempt_all-kept db₁ between r.record_ input.authorization_id there in
    let (a, b, c) =
      replayed (attempt_all db₁ between).consumptions input' r.record_
        (consumption_of (attempt_all db₁ between).consumptions input'.authorization_id)
        (rw (same) still) in
    (
      ap (λ x. x.record_) e' ∙ a,
      ap (λ x. x.replay) e' ∙ b,
      q' ∙ ap (λ l. record (attempt_all db₁ between) { consumptions = l }) c,
    )

-- The table has at most one row for an authorization.
abbrev pub IsKeyed : Database → Type 0
IsKeyed db = Nodup (map (λ r. r.authorization_id) db.consumptions)

keyed :
    (rows : List AuthorizationConsumption) (input : AuthorizationConsumption)
    (o : Option AuthorizationConsumption)
    → consumption_of rows input.authorization_id ≡ o
    → Nodup (map (λ r. r.authorization_id) rows)
    → Nodup (map (λ r. r.authorization_id) (insert_or_read rows input o).1)
keyed rows input (some prior) e n = n
keyed rows input none e n = rw (map-append (λ r. r.authorization_id) rows (input ∷ [])) (
    Nodup-snoc (map (λ r. r.authorization_id) rows) input.authorization_id n (
      not-mem_of_any-false input.authorization_id (map (λ r. r.authorization_id) rows)
        (any-find rows input.authorization_id e)))

attempt-IsKeyed :
    (db : Database) (input : AuthorizationConsumption) → IsKeyed db → IsKeyed (attempt db input)
unfolding attempt
attempt-IsKeyed db input n = elim (Result-cases (consume_authorization_atomic db input)) [
  | inl ((d, db'), e) ↦
      let (_, _, _, _, _, q) = consume-parts db input d db' e in
      rw (e, attempt, q)
        (keyed db.consumptions input (consumption_of db.consumptions input.authorization_id) refl n)
  | inr (f, e) ↦ rw (e, attempt) n
]

-- No sequence of calls leaves two rows for one authorization, if there were none before.
pub attempt_all-IsKeyed :
    (db : Database) (inputs : List AuthorizationConsumption)
    → IsKeyed db
    → IsKeyed (attempt_all db inputs)
unfolding attempt_all
attempt_all-IsKeyed db [] n = n
attempt_all-IsKeyed db (input ∷ inputs) n =
    attempt_all-IsKeyed (attempt db input) inputs (attempt-IsKeyed db input n)
