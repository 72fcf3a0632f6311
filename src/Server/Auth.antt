-- ===== src/Server/Auth.antt =====
-- services/api/src/auth.ts: the session of a request, roles, the check against forged requests and the
-- check of a recent login. The database query compares hashes of tokens, and SHA-256 is a parameter.
pub mod Sound
use call_sign.Prelude.{
  ℕ, ◌+◌, String, Option, none, some, Bool, true, false, not, ◌&&◌, ◌||◌, List, ltb, ◌==◌, ◌!=◌,
  string_eq, any, find, Dict, lookup, Result, Checked, ok, err, http_error, if◌then◌else◌, throw_if,
  or_throw, ◌>>=◌, ◌>>◌,
}
use call_sign.Protocol.Json.{is_text}
use call_sign.Server.Tables.{User, SessionRow, Database}

pub record AuthSession : Type 0 where
  pub session_id : String
  pub user_id : String
  pub display_name : String
  pub role : String
  pub csrf_token : String
  pub purpose : String
  pub expires_at : ℕ
  pub authenticated_at : Option ℕ
  pub membership_generation : ℕ

pub record SessionPolicy : Type 0 where
  pub purpose : String
  pub issuer : String
  pub client_id : String
  pub audience : String

-- The parts of a FastifyRequest that the source reads; a header that is not one text is absent.
pub record Request : Type 0 where
  pub cookies : Dict String
  pub origin : Option String
  pub csrf_token : Option String

abbrev pub session_cookie : String → String
session_cookie purpose = if purpose == "official" then "official_session" else "ip_session"

abbrev pub purpose_of : Option SessionPolicy → String
purpose_of none = "legacy"
purpose_of (some policy) = policy.purpose

-- `if (!token)` also refuses the empty text.
abbrev pub given : Option String → Option String
given none = none
given (some token) = if token == "" then none else some token

abbrev pub is_absent : Option ℕ → Bool
is_absent none = true
is_absent (some _) = false

abbrev pub other_policy : Option SessionPolicy → SessionRow → Bool
other_policy none row = false
other_policy (some policy) row =
    not (is_text row.oidc_issuer policy.issuer)
    || not (is_text row.oidc_client_id policy.client_id)
    || not (is_text row.oidc_audience policy.audience)
    || is_absent row.authenticated_at

abbrev scope_failure : String → String
scope_failure purpose =
    if purpose == "official" then "OFFICIAL_SCOPE_REQUIRED" else "SESSION_SCOPE_INVALID"

-- The rows of the inner join, in which the foreign key gives each session its one user.
unfoldable pub session_row : Database → String → ℕ → Option SessionRow
session_row db hash now = find (λ s. s.token_hash == hash && ltb now s.expires_at) db.sessions

unfoldable pub user_row : Database → String → Option User
user_row db id = find (λ u. u.id == id) db.users

module _ (token_hash : String → String) where
  unfoldable pub session_for_request :
      Database → Request → Option SessionPolicy → ℕ → Result AuthSession
  session_for_request db request policy now_ms = do
    let purpose = purpose_of policy
    token ←
        or_throw (given (lookup request.cookies (session_cookie purpose)))
          (http_error 401 "AUTH_REQUIRED")
    row ← or_throw (session_row db (token_hash token) now_ms) (http_error 401 "SESSION_EXPIRED")
    user ← or_throw (user_row db row.user_id) (http_error 401 "SESSION_EXPIRED")
    throw_if (row.purpose != purpose || other_policy policy row)
        (http_error 403 (scope_failure purpose))
    ok (record {
      session_id = row.id;
      user_id = user.id;
      display_name = user.display_name;
      role = user.role;
      csrf_token = row.csrf_token;
      purpose = row.purpose;
      expires_at = row.expires_at;
      authenticated_at = row.authenticated_at;
      membership_generation = row.membership_generation;
    })

unfoldable pub require_role : AuthSession → List String → Checked
unfolding any
require_role session roles =
    throw_if (not (any (λ role. role == session.role) roles)) (http_error 403 "ROLE_FORBIDDEN")

-- The comparison of the two buffers is that of the two texts.
unfoldable pub assert_csrf : Request → AuthSession → String → Checked
assert_csrf request session allowed_origin = do
  throw_if (not (is_text request.origin allowed_origin)) (http_error 403 "ORIGIN_FORBIDDEN")
  supplied ← or_throw request.csrf_token (http_error 403 "CSRF_REQUIRED")
  throw_if (session.csrf_token != supplied) (http_error 403 "CSRF_INVALID")

-- `now - at > 300000 || at > now + 1000`
abbrev is_recent : Option ℕ → ℕ → Bool
is_recent none now = false
is_recent (some at) now = not (ltb (at + 300000) now) && not (ltb (now + 1000) at)

unfoldable pub assert_recent_authentication : AuthSession → ℕ → Checked
assert_recent_authentication session now =
    throw_if (not (is_recent session.authenticated_at now))
      (http_error 403 "RECENT_AUTHENTICATION_REQUIRED")

module _ (token_hash : String → String) where
  -- `protectedWrite` of services/api/src/server.ts
  unfoldable pub protected_write : Database → Request → String → ℕ → Result AuthSession
  protected_write db request allowed_origin now_ms = do
    session ← session_for_request token_hash db request none now_ms
    assert_csrf request session allowed_origin
    ok session
