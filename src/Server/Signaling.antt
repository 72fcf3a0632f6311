-- ===== src/Server/Signaling.antt =====
-- GET /signaling of services/api/src/server.ts: the messages between the sockets of the callers and the
-- called. A socket goes by a number, and what is sent is a list.
use call_sign.Prelude.{
  ℕ, String, Option, none, some, Bool, not, ◌&&◌, ◌||◌, List, [], ◌∷◌, ◌++◌, map, ◌==◌, ◌!=◌,
  string_eq, nat_eq, find, select, Dict, lookup, insert, Result, ok, err, error, http_error,
  invalid_input, throw_if, or_throw, ◌>>=◌, ◌>>◌,
}
use call_sign.Prelude.Text.{utf16_length}
use call_sign.Prelude.Tests.{leb}
use call_sign.Protocol.Json.{Json, is_text}
use call_sign.Server.Tables.{Database}
use call_sign.Server.Auth.{Request, AuthSession, session_for_request, require_role}
use call_sign.Server.Handlers.{ServerOptions}

pub data SignalType : Type 0 where
  invite challenge offer answer ice proof hangup : SignalType

-- `signalingMessage`
pub record SignalingMessage : Type 0 where
  pub type : SignalType
  pub to_user_id : String
  pub session_id : String
  pub payload : Json

unfoldable pub signaling_conforms : SignalingMessage → Bool
unfolding utf16_length
signaling_conforms m = leb 16 (utf16_length m.to_user_id) && leb 16 (utf16_length m.session_id)

-- What a socket is sent: a message with its sender, or the refusal of a message.
pub data Sent : Type 0 where
  relayed : SignalingMessage → String → Sent
  rejected : Sent

abbrev Sockets : Type 0
Sockets = Dict (List ℕ)

abbrev pub sockets_of : Option (List ℕ) → List ℕ
sockets_of none = []
sockets_of (some own) = own

-- The connection of a socket: it is kept under its user, or closed with the code 1008.
unfoldable pub connect :
    ServerOptions → Database → Sockets → Request → ℕ → ℕ → Result (AuthSession × Sockets)
connect o db sockets request socket now_ms = do
  throw_if (not (is_text request.origin o.web_origin)) (http_error 403 "ORIGIN_FORBIDDEN")
  session ← session_for_request o.token_hash db request none now_ms
  require_role session ("recipient" ∷ "gateway" ∷ [])
  ok (
    session,
    insert sockets session.user_id (sockets_of (lookup sockets session.user_id) ++ socket ∷ []),
  )

-- `permitted`
abbrev pub is_permitted : String → String → Bool
is_permitted role target =
    role == "gateway" && target == "recipient" || role == "recipient" && target == "gateway"

-- The peers that a message goes to; `read` is the text as JSON, in the shape of a message.
unfoldable pub peers_of :
    Database → Sockets → AuthSession → Option SignalingMessage → Result (SignalingMessage × List ℕ)
peers_of db sockets session read = do
  message ← or_throw read invalid_input
  throw_if (not (signaling_conforms message)) invalid_input
  target ← or_throw (find (λ u. u.id == message.to_user_id) db.users) (error "target")
  throw_if (not (is_permitted session.role target.role)) (error "room")
  ok (message, sockets_of (lookup sockets target.id))

abbrev pub sends : AuthSession → ℕ → Result (SignalingMessage × List ℕ) → List (ℕ × Sent)
sends session socket (err e) = (socket, rejected) ∷ []
sends session socket (ok (message, peers)) =
    map (λ peer. (peer, relayed message session.user_id)) peers

-- socket.on("message"): the sockets that are written to
unfoldable pub on_message :
    Database → Sockets → AuthSession → ℕ → Option SignalingMessage → List (ℕ × Sent)
on_message db sockets session socket read = sends session socket (peers_of db sockets session read)

-- socket.on("close")
abbrev pub disconnected : Sockets → String → List ℕ → Sockets
disconnected sockets user_id [] = select (λ e. e.0 != user_id) sockets
disconnected sockets user_id (s ∷ own) = insert sockets user_id (s ∷ own)

unfoldable pub disconnect : Sockets → AuthSession → ℕ → Sockets
disconnect sockets session socket =
    disconnected sockets session.user_id
      (select (λ s. s != socket) (sockets_of (lookup sockets session.user_id)))
