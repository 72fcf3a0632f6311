-- ===== src/Server/Consumption.antt =====
-- `consumeAuthorizationAtomic` of services/api/src/consumption.ts. The transaction holds the lock on
-- the row of the authorization, so that two of them run one after the other, and it rolls back where it
-- throws.
pub mod Once
use call_sign.Prelude.{
  ℕ, String, Option, none, some, Bool, true, false, not, ◌||◌, List, [], ◌∷◌, ◌++◌, leb, ◌==◌, ◌!=◌,
  string_eq, find, Result, ok, error, http_error, throw_if, or_throw, ◌>>=◌, ◌>>◌,
}
use call_sign.Server.Tables.{Authorization, AuthorizationConsumption, Database}

-- The record with `replay`.
pub record Replayed : Type 0 where
  pub record_ : AuthorizationConsumption
  pub replay : Bool

abbrev is_set : Option ℕ → Bool
is_set none = false
is_set (some _) = true

-- A row of the primary key `authorizationId`.
unfoldable pub consumption_of :
    List AuthorizationConsumption → String → Option AuthorizationConsumption
consumption_of rows id = find (λ r. r.authorization_id == id) rows

unfoldable pub authorization_of : List Authorization → String → Option Authorization
authorization_of rows id = find (λ r. r.id == id) rows

-- What the source reads after the insertion: the row that is there, or the inserted one.
abbrev insert_or_read :
    List AuthorizationConsumption
    → AuthorizationConsumption
    → Option AuthorizationConsumption
    → Replayed × List AuthorizationConsumption
insert_or_read rows input none = (record { record_ = input; replay = false }, rows ++ input ∷ [])
insert_or_read rows input (some prior) = (record { record_ = prior; replay = true }, rows)

abbrev other_consumption : AuthorizationConsumption → AuthorizationConsumption → Bool
other_consumption r input =
    r.binding_hash != input.binding_hash
    || r.authorization_hash != input.authorization_hash
    || r.recipient_id != input.recipient_id
    || r.session_id != input.session_id

unfoldable pub consume_authorization_atomic :
    Database → AuthorizationConsumption → Result (Replayed × Database)
consume_authorization_atomic db input = do
  locked ←
      or_throw (authorization_of db.authorizations input.authorization_id)
        (http_error 409 "AUTHORIZATION_INVALID")
  throw_if (is_set locked.cancelled_at || leb locked.expires_at input.consumed_at)
      (http_error 409 "AUTHORIZATION_INVALID")
  let done =
      insert_or_read db.consumptions input (consumption_of db.consumptions input.authorization_id)
  throw_if (other_consumption done.0.record_ input)
      (http_error 409 "AUTHORIZATION_ALREADY_CONSUMED")
  ok (done.0, record db { consumptions = done.1 })
