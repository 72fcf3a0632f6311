-- ===== src/Server/Auth/Sound.antt =====
-- `sessionForRequest` of services/api/src/auth.ts: the row that a session comes from.
use call_sign.Prelude.{
  ℕ, ◌<◌, ◌≡◌, ◌≢◌, refl, String, Option, none, some, true, false, ◌&&◌, arith, eq_iff, find-test,
  ltb, ◌==◌, ◌!=◌, ◌||◌, string_eq, lookup, ok,
}
use call_sign.Protocol.Json.{is_text}
use call_sign.Server.Tables.{User, SessionRow, Database}
use call_sign.Server.Auth.{
  AuthSession, SessionPolicy, Request, session_cookie, purpose_of, session_row, user_row, given,
  is_absent, other_policy, session_for_request, assert_csrf, protected_write,
}

abbrev Bound : Option SessionPolicy → SessionRow → Type 0
Bound none row = Unit
Bound (some policy) row =
    (row.oidc_issuer ≡ some policy.issuer)
    × (row.oidc_client_id ≡ some policy.client_id)
    × (row.oidc_audience ≡ some policy.audience)
    × ((at : ℕ) × (row.authenticated_at ≡ some at))

-- The session is that of an unexpired row whose token the request carries, of the purpose and the
-- identity provider that the policy asks for, and speaks for the user of the row.
pub record IsSessionFor (token_hash : String → String) (db : Database) (request : Request)
    (policy : Option SessionPolicy) (now_ms : ℕ) (session : AuthSession) : Type 0 where
  pub token : String
  pub carried : lookup request.cookies (session_cookie (purpose_of policy)) ≡ some token
  pub not_empty : token ≢ ""
  pub row : SessionRow
  pub on_record : session_row db (token_hash token) now_ms ≡ some row
  pub of_token : row.token_hash ≡ token_hash token
  pub unexpired : now_ms < row.expires_at
  pub purpose : row.purpose ≡ purpose_of policy
  pub bound : Bound policy row
  pub user : User
  pub known : user_row db row.user_id ≡ some user
  pub speaks_for : session.user_id ≡ user.id
  pub role : session.role ≡ user.role
  pub csrf : session.csrf_token ≡ row.csrf_token

is_text-some : (o : Option String) (s : String) → is_text o s ≡ true → o ≡ some s
is_text-some none s h = cc
is_text-some (some t) s h = ground (arith, eq_iff t s)

session-parts :
    (token_hash : String → String) (db : Database) (request : Request)
    (policy : Option SessionPolicy) (now_ms : ℕ) (session : AuthSession)
    → session_for_request token_hash db request policy now_ms ≡ ok session
    → (token : String) × (given (lookup request.cookies (session_cookie (purpose_of policy)))
        ≡ some token)
      × (row : SessionRow) × (session_row db (token_hash token) now_ms ≡ some row)
      × (user : User) × (user_row db row.user_id ≡ some user)
      × ((row.purpose != purpose_of policy || other_policy policy row) ≡ false)
      × (session.user_id ≡ user.id)
      × (session.role ≡ user.role)
      × (session.csrf_token ≡ row.csrf_token)
unfolding session_for_request
session-parts token_hash db request policy now_ms session h = ground arith

given-some : (o : Option String) (t : String) → given o ≡ some t → (o ≡ some t) × (t ≢ "")
given-some none t h = cc
given-some (some s) t h = (ground (arith, eq_iff s ""), λ e. ground (arith, eq_iff s ""))

set-some : (o : Option ℕ) → is_absent o ≡ false → (at : ℕ) × (o ≡ some at)
set-some none h = cc
set-some (some at) h = (at, refl)

bound :
    (policy : Option SessionPolicy) (row : SessionRow)
    → other_policy policy row ≡ false
    → Bound policy row
bound none row h = tt
bound (some policy) row h = (
  is_text-some row.oidc_issuer policy.issuer (ground arith),
  is_text-some row.oidc_client_id policy.client_id (ground arith),
  is_text-some row.oidc_audience policy.audience (ground arith),
  set-some row.authenticated_at (ground arith),
)

-- A request that is given a session carries, in the cookie of the policy's purpose, a token that is
-- not empty and whose hash is that of an unexpired session row; the row has that purpose and, where a
-- policy is given, its issuer, client and audience and the time of a login; and the session has the
-- identifier and the role of the row's user and the row's CSRF token.
pub session_for_request-IsSessionFor :
    (token_hash : String → String) (db : Database) (request : Request)
    (policy : Option SessionPolicy) (now_ms : ℕ) (session : AuthSession)
    → session_for_request token_hash db request policy now_ms ≡ ok session
    → IsSessionFor token_hash db request policy now_ms session
unfolding session_row
session_for_request-IsSessionFor token_hash db request policy now_ms session h =
    let (token, g, row, r, user, u, t, i, j, k) =
      session-parts token_hash db request policy now_ms session h in
    let (carried, not_empty) =
      given-some (lookup request.cookies (session_cookie (purpose_of policy))) token g in
    let test =
      find-test (λ s. s.token_hash == token_hash token && ltb now_ms s.expires_at) db.sessions r in
    record {
      token = token;
      carried = carried;
      not_empty = not_empty;
      row = row;
      on_record = r;
      of_token = ground (arith, eq_iff row.token_hash (token_hash token));
      unexpired = ground arith;
      purpose = ground (arith, eq_iff row.purpose (purpose_of policy));
      bound = bound policy row (ground arith);
      user = user;
      known = u;
      speaks_for = i;
      role = j;
      csrf = k;
    }

write-parts :
    (token_hash : String → String) (db : Database) (request : Request) (origin : String)
    (now_ms : ℕ) (session : AuthSession)
    → protected_write token_hash db request origin now_ms ≡ ok session
    → (session_for_request token_hash db request none now_ms ≡ ok session)
      × (is_text request.origin origin ≡ true)
      × (supplied : String) × (request.csrf_token ≡ some supplied)
      × ((session.csrf_token != supplied) ≡ false)
unfolding protected_write assert_csrf
write-parts token_hash db request origin now_ms session h = ground arith

-- A protected write goes ahead only with a session of the request, from the allowed origin, and with
-- the CSRF token of that session in the header.
pub protected_write-IsSessionFor :
    (token_hash : String → String) (db : Database) (request : Request) (origin : String)
    (now_ms : ℕ) (session : AuthSession)
    → protected_write token_hash db request origin now_ms ≡ ok session
    → IsSessionFor token_hash db request none now_ms session
      × (request.origin ≡ some origin)
      × (request.csrf_token ≡ some session.csrf_token)
protected_write-IsSessionFor token_hash db request origin now_ms session h =
    let (s, o, supplied, c, e) = write-parts token_hash db request origin now_ms session h in
    (
      session_for_request-IsSessionFor token_hash db request none now_ms session s,
      is_text-some request.origin origin o,
      ground (arith, eq_iff session.csrf_token supplied),
    )
