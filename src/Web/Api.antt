-- ===== src/Web/Api.antt =====
-- apps/web/src/lib/api.ts: calls of the server with one retry of a read, and the session's CSRF token.
-- What `fetch` comes to at each attempt is a parameter, and so is whether the signal is aborted by then.
pub mod Retry
use call_sign.Prelude.{
  ℕ, zero, suc, ◌+◌, ◌*◌, String, Option, none, some, Bool, true, false, not, ◌&&◌, ◌||◌, List, [],
  ◌∷◌, ◌==◌, ◌!=◌, string_eq, nat_eq, Dict, lookup, insert, starts_with, if◌then◌else◌,
}
use call_sign.Prelude.Text.{same_lower}

pub data ApiFailure : Type 0 where
  -- `TypeError`, by which `fetch` reports the network
  type_error : ApiFailure
  -- any other error, such as that of a body that is no JSON
  other_error : ApiFailure
  aborted : ApiFailure
  -- `ApiError`
  api_error : ℕ → String → String → ApiFailure

pub data ApiReply {ℓ} (A : Type ℓ) : Type ℓ where
  replied : A → ApiReply A
  failed : ApiFailure → ApiReply A

-- What one `fetch` comes to: it throws, or it answers with a body, or with a status that is not ok and
-- with the code and the message of its body, where it has them.
pub data Fetched {ℓ} (A : Type ℓ) : Type ℓ where
  throws : ApiFailure → Fetched A
  answers : A → Fetched A
  refuses : ℕ → Option String → Option String → Fetched A

-- The parts of RequestInit that the source reads; names of headers are in lower case.
pub record Init : Type 0 where
  pub method : Option String
  pub headers : Dict String
  pub body : Option String

abbrev or_else : Option String → String → String
or_else none s = s
or_else (some t) s = t

abbrev is_given : Option String → Bool
is_given none = false
is_given (some t) = t != ""

-- `location.pathname.match(/^\/filming\/(gateway|recipient)$/)?.[1]`
abbrev filming_role : String → Option String
filming_role pathname =
    if pathname == "/filming/gateway"
    then some "gateway"
    else if pathname == "/filming/recipient"
    then some "recipient"
    else none

abbrev pub is_read_only : Option String → Bool
is_read_only none = true
is_read_only (some m) =
    m == "" || same_lower m "GET" || same_lower m "HEAD" || same_lower m "OPTIONS"

abbrev with_header : Bool → String → String → Dict String → Dict String
with_header test name value headers = if test then insert headers name value else headers

abbrev with_filming_role : Option String → String → Dict String → Dict String
with_filming_role none path headers = headers
with_filming_role (some role) path headers =
    with_header (starts_with path "/v3/" && not (starts_with path "/v3/auth/"))
      "x-callsign-filming-role" role headers

abbrev has_header : Dict String → String → Bool
has_header headers name = elim (lookup headers name) [ none ↦ false | some v ↦ true ]

-- The headers of a request, from the page's path, the path that is called and the token.
unfoldable pub request_headers : String → String → String → Init → Dict String
request_headers pathname path csrf_token init =
    let filmed = with_filming_role (filming_role pathname) path init.headers in
    let typed =
      with_header (is_given init.body && not (has_header filmed "content-type")) "content-type"
        "application/json" filmed in
    with_header
      (not (is_read_only init.method) && csrf_token != "" && not (has_header typed "x-csrf-token"))
      "x-csrf-token" csrf_token typed

abbrev pub is_get : Option String → Bool
is_get none = true
is_get (some m) = same_lower m "GET"

abbrev pub is_type_error : ApiFailure → Bool
is_type_error type_error = true
is_type_error _ = false

-- The ApiError of an answer that is not ok.
abbrev pub refusal : ℕ → Option String → Option String → ApiFailure
refusal status code message =
    api_error status (or_else code "REQUEST_FAILED") (or_else message "요청을 처리하지 못했습니다.")

module _ {ℓ} {A : Type ℓ} (fetch : ℕ → Fetched A) (is_aborted : ℕ → Bool) (init : Init) where
  -- The `catch` of one attempt: the failure is thrown on, or `retry` runs after the pause, unless the
  -- signal was aborted meanwhile.
  abbrev pub caught : ℕ → ApiFailure → Option (ApiReply A × ℕ) → Option (ApiReply A × ℕ)
  caught attempt e retry =
      if attempt != 0
        || not (is_get init.method)
        || not (is_type_error e)
        || is_aborted (2 * attempt)
      then some (failed e, attempt + 1)
      else if is_aborted (2 * attempt + 1)
      then some (failed aborted, attempt + 1)
      else retry

  abbrev pub attempted : ℕ → Fetched A → Option (ApiReply A × ℕ) → Option (ApiReply A × ℕ)
  attempted attempt (throws e) retry = caught attempt e retry
  attempted attempt (answers a) retry = some (replied a, attempt + 1)
  attempted attempt (refuses status code message) retry =
      caught attempt (refusal status code message) retry

  -- The loop of `api`, with the number of requests that were sent; `none` where the fuel runs out.
  unfoldable pub api_from : ℕ → ℕ → Option (ApiReply A × ℕ)
  api_from zero attempt = none
  api_from (suc fuel) attempt =
      let retry = api_from fuel (attempt + 1) in attempted attempt (fetch attempt) retry

-- `SessionUser` and the CSRF token that comes with it.
pub record SessionUser : Type 0 where
  pub id : String
  pub display_name : String
  pub role : String

pub record Login : Type 0 where
  pub user : SessionUser
  pub csrf_token : String

-- `demoLogin`, on what `api` comes to: the user, and the token that is kept.
unfoldable pub demo_login : String → ApiReply Login → ApiReply SessionUser × String
demo_login csrf_token (failed e) = (failed e, csrf_token)
demo_login csrf_token (replied login) = (replied login.user, login.csrf_token)

abbrev signed_out : ApiFailure → Bool
signed_out (api_error status code message) = status == 401
signed_out _ = false

-- `me`: nobody, where the server answers 401.
unfoldable pub me : String → ApiReply Login → ApiReply (Option SessionUser) × String
me csrf_token (failed e) = (if signed_out e then replied none else failed e, csrf_token)
me csrf_token (replied login) = (replied (some login.user), login.csrf_token)

-- `logoutSession`, on what its two calls come to; the second carries the token of the first.
unfoldable pub logout_session :
    String
    → String
    → ApiReply String
    → (String → ApiReply (Unit {0}))
    → ApiReply (Unit {0}) × String
logout_session purpose csrf_token (failed e) logout = (failed e, csrf_token)
logout_session purpose csrf_token (replied token) logout = elim (logout token) [
  | failed e ↦ (failed e, csrf_token)
  | replied u ↦ (replied tt, if purpose == "work" then "" else csrf_token)
]
