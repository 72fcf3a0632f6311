-- ===== src/Server/Handlers/Safe.antt =====
-- The handlers of services/api/src/server.ts on the database: listings, cancellation and registration.
use call_sign.Prelude.{
  ℕ, ◌*◌, ◌≡◌, ◌≢◌, refl, String, Option, none, some, Bool, true, false, ◌&&◌, ◌||◌, List, [], ◌∷◌,
  map, arith, eq_iff, any, find, select, ltb, ◌==◌, string_eq, All, Result, ok, err, error,
  if◌then◌else◌,
}
use call_sign.Protocol.Json.{Jwk}
use call_sign.Server.Tables.{GatewayRegistration, Authorization, AuthorizationConsumption, Database}
use call_sign.Server.Auth.{Request, AuthSession, session_for_request, require_role}
use call_sign.Server.Handlers.{ServerOptions}
use call_sign.Server.Handlers.Login.{deactivate, check_gateway_body, register_gateway}
use call_sign.Server.Handlers.Contact.{
  is_gateway_of, list_authorizations, is_uncancelled, cancel_row, cancel_authorization_row,
}
use call_sign.Server.Handlers.Consume.{
  ConsumeBody, ConsumeReply, live_authorization, prepare_consumption, complete,
  consume_authorization,
}

abbrev is_live : String → ℕ → Authorization → Bool
is_live id now a = a.id == id && is_uncancelled a.cancelled_at && ltb now a.expires_at

dead-row :
    (id : String) (at now : ℕ) (b : Authorization) (rest : List Authorization) (c : Option ℕ)
    → b.cancelled_at ≡ c
    → find (is_live id now) rest ≡ none
    → find (is_live id now) (cancel_row id at b ∷ rest) ≡ none
unfolding find
dead-row id at now b rest none e h = ground arith
dead-row id at now b rest (some x) e h = ground arith

dead-rows :
    (rows : List Authorization) (id : String) (at now : ℕ)
    → find (is_live id now) (map (cancel_row id at) rows) ≡ none
unfolding find
dead-rows [] id at now = refl
dead-rows (a ∷ rows) id at now =
    dead-row id at now a (map (cancel_row id at) rows) a.cancelled_at refl
      (dead-rows rows id at now)

cancel-parts :
    (o : ServerOptions) (db : Database) (request : Request) (id : String) (now now_ms : ℕ)
    (db' : Database)
    → cancel_authorization_row o db request id now now_ms ≡ ok db'
    → db' ≡ record db { authorizations = map (cancel_row id (now * 1000)) db.authorizations }
unfolding cancel_authorization_row
cancel-parts o db request id now now_ms db' h = ground arith

prepare-live :
    (o : ServerOptions) (db : Database) (request : Request) (id : String) (body : ConsumeBody)
    (now now_ms : ℕ) (input : AuthorizationConsumption)
    → prepare_consumption o db request id body now now_ms ≡ ok input
    → (a : Authorization) × (live_authorization db id now ≡ some a)
unfolding prepare_consumption
prepare-live o db request id body now now_ms input h = ground arith

refused :
    (o : ServerOptions) (db : Database) (fail : Bool) (m : Result AuthorizationConsumption)
    → ((input : AuthorizationConsumption) → m ≢ ok input)
    → ((complete o db fail m).1 ≡ db)
      × ((reply : ConsumeReply) → (complete o db fail m).0 ≢ ok reply)
refused o db fail (err f) h = (refl, λ reply e. ground (arith, e))
refused o db fail (ok input) h = absurd (h input refl)

-- When an authorization has been cancelled, `consume` of it is refused and leaves the database as it
-- is, whoever asks and at any time.
pub cancel_authorization_row-consume :
    (o : ServerOptions) (db db' : Database) (request request' : Request) (id : String)
    (body : ConsumeBody) (fail : Bool) (now now_ms now' now_ms' : ℕ)
    → cancel_authorization_row o db request id now now_ms ≡ ok db'
    → ((consume_authorization o db' request' id body fail now' now_ms').1 ≡ db')
      × ((reply : ConsumeReply)
          → (consume_authorization o db' request' id body fail now' now_ms').0 ≢ ok reply)
unfolding consume_authorization live_authorization
cancel_authorization_row-consume o db db' request request' id body fail now now_ms now' now_ms' h =
    refused o db' fail (prepare_consumption o db' request' id body now' now_ms') (λ input p.
      let (a, live) = prepare-live o db' request' id body now' now_ms' input p in
      let dead = dead-rows db.authorizations id (now * 1000) (now' * 1000) in
      let same = cancel-parts o db request id now now_ms db' h in cc)

-- Every selected row passes the test.
select-All {ℓ} : {A : Type ℓ} (p : A → Bool) (xs : List A) → All (λ x. p x ≡ true) (select p xs)
unfolding select
select-All p [] = tt
select-All p (x ∷ xs) = keep (p x) refl (select-All p xs)
  where
    keep :
        (b : Bool)
        → p x ≡ b
        → All (λ y. p y ≡ true) (select p xs)
        → All (λ y. p y ≡ true) (if b then x ∷ select p xs else select p xs)
    keep true e a = (e, a)
    keep false e a = a

All-weaken {ℓ} :
    {A : Type ℓ} (p q : A → Bool) (xs : List A)
    → ((x : A) → p x ≡ true → q x ≡ true)
    → All (λ x. p x ≡ true) xs
    → All (λ x. q x ≡ true) xs
All-weaken p q [] f a = tt
All-weaken p q (x ∷ xs) f (h, a) = (f x h, All-weaken p q xs f a)

All-every {ℓ} :
    {A : Type ℓ} (q : A → Bool) (xs : List A) → ((x : A) → q x ≡ true) → All (λ x. q x ≡ true) xs
All-every q [] f = tt
All-every q (x ∷ xs) f = (f x, All-every q xs f)

-- Who may read an authorization.
abbrev pub may_read : Database → AuthSession → Authorization → Bool
may_read db session a =
    session.role == "institution"
    || session.role == "recipient" && a.recipient_id == session.user_id
    || session.role == "gateway" && is_gateway_of db.gateways session.user_id a

list-parts :
    (o : ServerOptions) (db : Database) (request : Request) (now_ms : ℕ) (rows : List Authorization)
    → list_authorizations o db request now_ms ≡ ok rows
    → (session : AuthSession) × (session_for_request o.token_hash db request none now_ms
        ≡ ok session)
      × (require_role session ("gateway" ∷ "institution" ∷ "recipient" ∷ []) ≡ ok tt)
      × (rows ≡ (
          if session.role == "institution"
          then db.authorizations
          else if session.role == "recipient"
          then select (λ a. a.recipient_id == session.user_id) db.authorizations
          else select (is_gateway_of db.gateways session.user_id) db.authorizations))
unfolding list_authorizations
list-parts o db request now_ms rows h = ground arith

other-gateway :
    (s : AuthSession)
    → require_role s ("gateway" ∷ "institution" ∷ "recipient" ∷ []) ≡ ok tt
    → (s.role == "institution") ≡ false
    → (s.role == "recipient") ≡ false
    → (s.role == "gateway") ≡ true
unfolding require_role any
other-gateway s h i r = ground (
  arith,
  eq_iff "gateway" s.role,
  eq_iff "institution" s.role,
  eq_iff "recipient" s.role,
  eq_iff s.role "gateway",
  eq_iff s.role "institution",
  eq_iff s.role "recipient",
)

visible :
    (db : Database) (s : AuthSession) (i r : Bool)
    → (s.role == "institution") ≡ i
    → (s.role == "recipient") ≡ r
    → require_role s ("gateway" ∷ "institution" ∷ "recipient" ∷ []) ≡ ok tt
    → All
        (λ a. may_read db s a ≡ true)
        (if i
          then db.authorizations
          else if r
          then select (λ a. a.recipient_id == s.user_id) db.authorizations
          else select (is_gateway_of db.gateways s.user_id) db.authorizations)
visible db s true r e f h = All-every (may_read db s) db.authorizations (λ a. ground arith)
visible db s false true e f h =
    All-weaken (λ a. a.recipient_id == s.user_id) (may_read db s) _ (λ a k. ground arith)
      (select-All (λ a. a.recipient_id == s.user_id) db.authorizations)
visible db s false false e f h =
    let g = other-gateway s h e f in
    All-weaken (is_gateway_of db.gateways s.user_id) (may_read db s) _ (λ a k. ground arith)
      (select-All (is_gateway_of db.gateways s.user_id) db.authorizations)

All-same {ℓ κ} : {A : Type ℓ} (P : A → Type κ) (xs ys : List A) → xs ≡ ys → All P ys → All P xs
All-same P xs ys e a = rw (e) a

-- A listing of authorizations is given to a session of the request, and shows a recipient only their
-- own authorizations and a gateway only those of its registrations.
pub list_authorizations-IsVisible :
    (o : ServerOptions) (db : Database) (request : Request) (now_ms : ℕ) (rows : List Authorization)
    → list_authorizations o db request now_ms ≡ ok rows
    → (session : AuthSession) × (session_for_request o.token_hash db request none now_ms
        ≡ ok session)
      × All (λ a. may_read db session a ≡ true) rows
list_authorizations-IsVisible o db request now_ms rows h =
    let (s, found, role, e) = list-parts o db request now_ms rows h in
    (
      s,
      found,
      All-same (λ a. may_read db s a ≡ true) rows _ e
          (visible db s (s.role == "institution") (s.role == "recipient") refl refl role),
    )

-- An active registration of the user.
abbrev pub is_active_of : String → GatewayRegistration → Bool
is_active_of user_id g = g.user_id == user_id && g.active

deactivated :
    (user_id : String) (gs : List GatewayRegistration)
    → any (is_active_of user_id) (map (deactivate user_id) gs) ≡ false
unfolding any
deactivated user_id [] = refl
deactivated user_id (g ∷ gs) = ground (arith, deactivated user_id gs)

taken-map :
    (kid user_id : String) (gs : List GatewayRegistration)
    → any (λ g. g.kid == kid) gs ≡ true
    → any (λ g. g.kid == kid) (map (deactivate user_id) gs) ≡ true
unfolding any
taken-map kid user_id [] h = cc
taken-map kid user_id (g ∷ gs) h = ground (arith, taken-map kid user_id gs)

-- When a gateway's request passes every check but its `kid` is already registered, the registration
-- fails, and all the same no registration of that user is active any more.
pub register_gateway-taken :
    (o : ServerOptions) (db : Database) (request : Request) (jwk : Jwk) (kid delegation_id : String)
    (now_ms : ℕ) (id : String) (session : AuthSession)
    → check_gateway_body o db request jwk kid delegation_id now_ms ≡ ok session
    → any (λ g. g.kid == kid) db.gateways ≡ true
    → ((register_gateway o db request jwk kid delegation_id now_ms id).0
        ≡ err (error "unique_violation"))
      × (any
            (is_active_of session.user_id)
            (register_gateway o db request jwk kid delegation_id now_ms id).1.gateways
          ≡ false)
unfolding register_gateway
register_gateway-taken o db request jwk kid delegation_id now_ms id session h taken =
    rw (h, taken-map kid session.user_id db.gateways taken)
      (refl, deactivated session.user_id db.gateways)
