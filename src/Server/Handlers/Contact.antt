-- ===== src/Server/Handlers/Contact.antt =====
-- The tasks and the authorizations: listings, creation and cancellation.
use call_sign.Prelude.{
  ℕ, ◌+◌, ◌*◌, String, Option, none, some, Bool, true, false, not, ◌&&◌, List, [], ◌∷◌, ◌++◌, map,
  ◌==◌, string_eq, any, find, select, if◌then◌else◌, Result, ok, err, http_error, throw_if,
  or_throw, ◌>>=◌, ◌>>◌,
}
use call_sign.Protocol.Contact.{
  PurposeCode, civil_reply, document_supplement, ContactAuthorization, contact_authorization_json,
}
use call_sign.Protocol.Signing.{sign_payload, hash_canonical}
use call_sign.Server.Tables.{Task, GatewayRegistration, Authorization, Database}
use call_sign.Server.Auth.{Request, session_for_request, require_role, protected_write}
use call_sign.Server.Handlers.{ServerOptions}

-- GET /tasks
unfoldable pub list_tasks : ServerOptions → Database → Request → ℕ → Result (List Task)
list_tasks o db request now_ms = do
  session ← session_for_request o.token_hash db request none now_ms
  require_role session ("recipient" ∷ [])
  ok (select (λ t. t.owner_id == session.user_id) db.tasks)

-- GET /tasks/:id
unfoldable pub read_task : ServerOptions → Database → Request → String → ℕ → Result Task
read_task o db request id now_ms = do
  session ← session_for_request o.token_hash db request none now_ms
  require_role session ("recipient" ∷ [])
  or_throw (find (λ t. t.id == id && t.owner_id == session.user_id) db.tasks)
      (http_error 404 "TASK_NOT_FOUND")

-- GET /gateway/registrations
unfoldable pub list_registrations :
    ServerOptions → Database → Request → ℕ → Result (List GatewayRegistration)
list_registrations o db request now_ms = do
  session ← session_for_request o.token_hash db request none now_ms
  require_role session ("gateway" ∷ "institution" ∷ [])
  ok (
      if session.role == "gateway"
      then select (λ g. g.user_id == session.user_id) db.gateways
      else select (λ g. g.active) db.gateways)

-- The gateways of the join in GET /authorizations.
unfoldable pub is_gateway_of : List GatewayRegistration → String → Authorization → Bool
is_gateway_of gateways user_id a =
    any (λ g. g.id == a.gateway_registration_id && g.user_id == user_id) gateways

-- GET /authorizations, whose order is left out
unfoldable pub list_authorizations :
    ServerOptions → Database → Request → ℕ → Result (List Authorization)
list_authorizations o db request now_ms = do
  session ← session_for_request o.token_hash db request none now_ms
  require_role session ("gateway" ∷ "institution" ∷ "recipient" ∷ [])
  ok (
      if session.role == "institution"
      then db.authorizations
      else if session.role == "recipient"
      then select (λ a. a.recipient_id == session.user_id) db.authorizations
      else select (is_gateway_of db.gateways session.user_id) db.authorizations)

-- `purposeCode === "CIVIL_REPLY" ? 1n : 2n`
abbrev purpose_mask : PurposeCode → ℕ
purpose_mask civil_reply = 1
purpose_mask document_supplement = 2

abbrev delegation_of : Result String → Result String
delegation_of (ok epoch) = ok epoch
delegation_of (err failure) = err (http_error 503 "LEDGER_DELEGATION_FAILED")

-- POST /authorizations; the message of the ledger is left out of the error's code.
unfoldable pub create_authorization :
    ServerOptions
    → Database
    → Request
    → String
    → String
    → PurposeCode
    → ℕ
    → ℕ
    → String
    → Result (Authorization × Database)
create_authorization o db request task_id gateway_registration_id purpose_code now now_ms id = do
  session ← protected_write o.token_hash db request o.web_origin now_ms
  require_role session ("institution" ∷ [])
  task ←
      or_throw (find (λ t. t.id == task_id) db.tasks)
        (http_error 404 "AUTHORIZATION_INPUT_NOT_FOUND")
  gateway ←
      or_throw (find (λ g. g.id == gateway_registration_id && g.active) db.gateways)
        (http_error 404 "AUTHORIZATION_INPUT_NOT_FOUND")
  epoch ← delegation_of (
      o.ensure_delegation (record {
        delegation_id = gateway.delegation_id;
        institution_id = task.institution_id;
        gateway_public_jwk = gateway.public_jwk;
        purpose_mask = purpose_mask purpose_code;
        now = now;
      }))
  let payload : ContactAuthorization = record {
    network_id = o.network_id;
    registry_address = o.registry_address;
    authorization_id = id;
    institution_id = task.institution_id;
    epoch = epoch;
    delegation_id = gateway.delegation_id;
    recipient_id = task.owner_id;
    purpose_code = purpose_code;
    official_task_opaque_id = task.opaque_id;
    issued_at = now;
    not_before = now;
    expires_at = now + 600;
  }
  let row : Authorization = record {
    id = id;
    institution_id = task.institution_id;
    delegation_id = gateway.delegation_id;
    gateway_registration_id = gateway.id;
    recipient_id = task.owner_id;
    task_id = task.id;
    payload = payload;
    signed_jws =
        sign_payload o.lib (contact_authorization_json payload) "ContactAuthorization"
          o.issuer_key.public_jwk o.issuer_key.kid;
    authorization_hash = hash_canonical o.lib (contact_authorization_json payload);
    cancelled_at = none;
    expires_at = (now + 600) * 1000;
  }
  ok (row, record db { authorizations = db.authorizations ++ row ∷ [] })

abbrev pub is_uncancelled : Option ℕ → Bool
is_uncancelled none = true
is_uncancelled (some _) = false

-- `eq(id, …) && isNull(cancelledAt)`
abbrev pub is_cancellable : String → Authorization → Bool
is_cancellable id a = a.id == id && is_uncancelled a.cancelled_at

abbrev pub cancel_row : String → ℕ → Authorization → Authorization
cancel_row id at a = if is_cancellable id a then record a { cancelled_at = some at } else a

-- POST /authorizations/:id/cancel
unfoldable pub cancel_authorization_row :
    ServerOptions → Database → Request → String → ℕ → ℕ → Result Database
cancel_authorization_row o db request id now now_ms = do
  session ← protected_write o.token_hash db request o.web_origin now_ms
  require_role session ("institution" ∷ [])
  throw_if (not (any (is_cancellable id) db.authorizations))
      (http_error 404 "AUTHORIZATION_NOT_FOUND_OR_CANCELLED")
  ok (record db { authorizations = map (cancel_row id (now * 1000)) db.authorizations })
