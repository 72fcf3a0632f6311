-- ===== src/Server/Handlers/Login.antt =====
-- Login, logout, and the registration of keys.
use call_sign.Prelude.{
  ℕ, ◌+◌, ◌*◌, String, none, true, false, not, ◌&&◌, [], ◌∷◌, ◌++◌, map, ◌==◌, ◌!=◌, string_eq, any,
  find, select, if◌then◌else◌, Result, ok, err, error, http_error, invalid_input, throw_if,
  or_throw, ◌>>=◌, ◌>>◌,
}
use call_sign.Prelude.Text.{has_length}
use call_sign.Protocol.Json.{Jwk, is_text}
use call_sign.Protocol.Contact.{EnrollmentProof, enrollment_proof_json}
use call_sign.Protocol.Signing.{sign_payload}
use call_sign.Server.Tables.{User, SessionRow, GatewayRegistration, RecipientEnrollment, Database}
use call_sign.Server.Auth.{Request, AuthSession, require_role, protected_write}
use call_sign.Server.Handlers.{ServerOptions, key_body_conforms, assert_kid}

-- POST /auth/login. The reply is the user, with the tokens that were drawn.
unfoldable pub login :
    ServerOptions
    → Database
    → Request
    → String
    → ℕ
    → String
    → String
    → String
    → Result (User × Database)
login o db request demo_code now id token csrf_token = do
  throw_if (not o.demo_mode) (http_error 404 "DEMO_LOGIN_DISABLED")
  throw_if (not (is_text request.origin o.web_origin)) (http_error 403 "ORIGIN_FORBIDDEN")
  throw_if (not (has_length 4 64 demo_code)) invalid_input
  user ← or_throw (find (λ u. u.demo_code == demo_code) db.users) (http_error 401 "LOGIN_FAILED")
  let row : SessionRow = record {
    id = id;
    token_hash = o.token_hash token;
    csrf_token = csrf_token;
    user_id = user.id;
    expires_at = (now + 4 * 60 * 60) * 1000;
    purpose = "legacy";
    oidc_issuer = none;
    oidc_client_id = none;
    oidc_audience = none;
    membership_generation = 0;
    authenticated_at = none;
  }
  ok (user, record db { sessions = db.sessions ++ row ∷ [] })

-- POST /auth/logout
unfoldable pub logout : ServerOptions → Database → Request → ℕ → Result Database
logout o db request now_ms = do
  session ← protected_write o.token_hash db request o.web_origin now_ms
  ok (record db { sessions = select (λ s. s.id != session.session_id) db.sessions })

-- POST /recipient/enroll-session. The column `kid` is unique.
unfoldable pub enroll_session :
    ServerOptions
    → Database
    → Request
    → Jwk
    → String
    → ℕ
    → ℕ
    → String
    → Result (RecipientEnrollment × Database)
enroll_session o db request jwk kid now now_ms id = do
  session ← protected_write o.token_hash db request o.web_origin now_ms
  require_role session ("recipient" ∷ [])
  throw_if (not (key_body_conforms jwk kid)) invalid_input
  assert_kid o jwk kid
  let payload : EnrollmentProof = record {
    network_id = o.network_id;
    registry_address = o.registry_address;
    recipient_id = session.user_id;
    recipient_session_public_key = jwk.x;
    issued_at = now;
    expires_at = now + 300;
  }
  let proof =
      sign_payload o.lib (enrollment_proof_json payload) "EnrollmentProof"
        o.enrollment_key.public_jwk o.enrollment_key.kid
  let row : RecipientEnrollment = record {
    id = id;
    user_id = session.user_id;
    kid = kid;
    public_jwk = jwk;
    proof_jws = proof;
    expires_at = (now + 300) * 1000;
  }
  throw_if (any (λ e. e.kid == kid) db.enrollments) (error "unique_violation")
  ok (row, record db { enrollments = db.enrollments ++ row ∷ [] })

-- `set({ active: false }).where(eq(userId, …))`
abbrev pub deactivate : String → GatewayRegistration → GatewayRegistration
deactivate user_id g = if g.user_id == user_id then record g { active = false } else g

-- The two statements of POST /gateway/register: each is committed on its own, and the second one
-- fails on a `kid` that is taken.
abbrev pub insert_gateway : Database → GatewayRegistration → Result GatewayRegistration × Database
insert_gateway db row =
    if any (λ g. g.kid == row.kid) db.gateways
    then (err (error "unique_violation"), db)
    else (ok row, record db { gateways = db.gateways ++ row ∷ [] })

unfoldable pub check_gateway_body :
    ServerOptions → Database → Request → Jwk → String → String → ℕ → Result AuthSession
check_gateway_body o db request jwk kid delegation_id now_ms = do
  session ← protected_write o.token_hash db request o.web_origin now_ms
  require_role session ("gateway" ∷ [])
  throw_if (not (key_body_conforms jwk kid && has_length 16 128 delegation_id)) invalid_input
  assert_kid o jwk kid
  ok session

abbrev pub replace_gateway :
    Database
    → Jwk
    → String
    → String
    → String
    → Result AuthSession
    → Result GatewayRegistration × Database
replace_gateway db jwk kid delegation_id id (err failure) = (err failure, db)
replace_gateway db jwk kid delegation_id id (ok session) =
    insert_gateway (record db { gateways = map (deactivate session.user_id) db.gateways })
      (record {
        id = id;
        user_id = session.user_id;
        kid = kid;
        public_jwk = jwk;
        delegation_id = delegation_id;
        active = true;
      })

unfoldable pub register_gateway :
    ServerOptions
    → Database
    → Request
    → Jwk
    → String
    → String
    → ℕ
    → String
    → Result GatewayRegistration × Database
unfolding check_gateway_body
register_gateway o db request jwk kid delegation_id now_ms id =
    replace_gateway db jwk kid delegation_id id
      (check_gateway_body o db request jwk kid delegation_id now_ms)
