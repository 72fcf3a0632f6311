-- ===== src/Server/Delegation.antt =====
-- The handlers of services/api/src/server.ts that read the ledger or revoke a delegation on it.
use Prim.Native.String.{◌++◌}
use call_sign.Prelude.{
  ℕ, String, none, [], ◌∷◌, not, ◌==◌, string_eq, find, Result, ok, err, error, http_error,
  invalid_input, throw_if, or_throw, ◌>>=◌, ◌>>◌,
}
use call_sign.Prelude.Errors.{Failure}
use call_sign.Prelude.Text.{has_length}
use call_sign.Server.Tables.{Authorization, Database}
use call_sign.Server.Auth.{Request, session_for_request, require_role, protected_write}
use call_sign.Server.Governance.{from_ledger}
use call_sign.Server.Handlers.{ServerOptions}
use call_sign.Server.Registry.{Registry, InstitutionLedgerState}
use call_sign.Server.Ledger.{revoke_ledger_delegation, read_institution_state}

-- `error.message`; that of an invalid input is the text of zod.
abbrev message_of : Failure → String
message_of (error code) = code
message_of (http_error status code) = code
message_of invalid_input = "INVALID_INPUT"

pub record RevocationReply : Type 0 where
  pub id : String
  pub delegation_id : String
  pub transaction_hash : String

module _ (r : Registry) (o : ServerOptions) where
  open r use {State}

  -- POST /authorizations/:id/revoke-delegation, up to the transaction
  unfoldable pub check_revoke : Database → Request → String → ℕ → Result Authorization
  check_revoke db request id now_ms = do
    session ← protected_write o.token_hash db request o.web_origin now_ms
    require_role session ("institution" ∷ [])
    or_throw (find (λ a. a.id == id) db.authorizations) (http_error 404 "AUTHORIZATION_NOT_FOUND")

  abbrev revoked : String → Result String → Result String
  revoked id (ok hash) = ok hash
  revoked id (err e) = err (http_error 409 ("LEDGER_REVOCATION_FAILED:" ++ message_of e))

  abbrev revoke_checked : State → Result Authorization → Result RevocationReply × State
  revoke_checked s (err e) = (err e, s)
  revoke_checked s (ok a) =
      let (sent, after) = revoke_ledger_delegation r s a.delegation_id in
      (
        (do
          hash ← revoked a.id sent
          ok (record { id = a.id; delegation_id = a.delegation_id; transaction_hash = hash })),
        after,
      )

  -- POST /authorizations/:id/revoke-delegation
  unfoldable pub revoke_delegation :
      State → Database → Request → String → ℕ → Result RevocationReply × State
  revoke_delegation s db request id now_ms = revoke_checked s (check_revoke db request id now_ms)

  -- GET /governance/institutions/:institutionId
  unfoldable pub institution_state :
      State → Database → Request → String → ℕ → Result InstitutionLedgerState
  institution_state s db request institution_id now_ms = do
    session ← session_for_request o.token_hash db request none now_ms
    require_role session ("approver" ∷ "demo_operator" ∷ [])
    throw_if (not (has_length 16 128 institution_id)) invalid_input
    from_ledger (read_institution_state r s institution_id)
