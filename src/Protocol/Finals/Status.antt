-- ===== src/Protocol/Finals/Status.antt =====
-- The status of an authorization of packages/protocol/src/finals.ts.
use call_sign.Prelude.{none, ℕ, String, Bool, true, false, ◌&&◌, leb}
use call_sign.Prelude.Text.{has_length}
use call_sign.Protocol.Temporal.{Clock, max_safe_integer}
use call_sign.Protocol.Schemas.{is_address, is_digest}

pub data AuthorizationState : Type 0 where
  consumed cancelled ended : AuthorizationState

abbrev pub is_consumed : AuthorizationState → Bool
is_consumed consumed = true
is_consumed cancelled = false
is_consumed ended = false

-- `authorizationStatusSchema`
pub record AuthorizationStatus : Type 0 where
  pub network_id : String
  pub registry_address : String
  pub issued_at : ℕ
  pub expires_at : ℕ
  pub authorization_id : String
  pub binding_hash : String
  pub nonce : String
  pub status : AuthorizationState
  pub approval_key_version : ℕ

unfoldable pub authorization_status_conforms : AuthorizationStatus → Bool
authorization_status_conforms v =
    has_length 3 200 v.network_id
    && is_address v.registry_address
    && leb v.issued_at max_safe_integer
    && leb v.expires_at max_safe_integer
    && has_length 3 200 v.authorization_id
    && is_digest v.binding_hash
    && has_length 3 200 v.nonce
    && leb 1 v.approval_key_version
    && leb v.approval_key_version max_safe_integer

abbrev pub authorization_status_clock : AuthorizationStatus → Clock
authorization_status_clock v = record {
  issued_at = v.issued_at;
  expires_at = v.expires_at;
  not_before = none;
}
