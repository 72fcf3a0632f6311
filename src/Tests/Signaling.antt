-- ===== src/Tests/Signaling.antt =====
-- A caller's message to the called person, and one to another caller.
use call_sign.Prelude.{◌≡◌, refl, String, some, none, [], ◌∷◌, find, lookup, string_eq}
use call_sign.Prelude.Text.{utf16_length}
use call_sign.Protocol.Json.{null}
use call_sign.Server.Tables.{User, Database}
use call_sign.Server.Auth.{AuthSession}
use call_sign.Server.Signaling.{
  SignalType, SignalingMessage, relayed, rejected, peers_of, on_message, signaling_conforms,
}
use call_sign.Tests.Server.{database}

abbrev user : String → String → User
user id role = record { id = id; display_name = "name"; role = role; demo_code = "code" }

abbrev two_users : Database
two_users = record database {
  users = user "recipient_00000001" "recipient" ∷ user "gateway_0000000001" "gateway" ∷ [];
}

abbrev session : AuthSession
session = record {
  session_id = "session";
  user_id = "gateway_0000000001";
  display_name = "name";
  role = "gateway";
  csrf_token = "token";
  purpose = "work";
  expires_at = 5000;
  authenticated_at = none;
  membership_generation = 0;
}

abbrev to : String → SignalingMessage
to id = record {
  type = SignalType.offer;
  to_user_id = id;
  session_id = "session_000000001";
  payload = null;
}

relays :
    on_message two_users
      (("recipient_00000001", 4 ∷ 5 ∷ []) ∷ [])
      session
      9
      (some (to "recipient_00000001"))
    ≡ (4, relayed (to "recipient_00000001") "gateway_0000000001")
      ∷ (5, relayed (to "recipient_00000001") "gateway_0000000001")
      ∷ []
unfolding on_message peers_of signaling_conforms utf16_length find lookup
relays = refl

refuses : on_message two_users [] session 9 (some (to "gateway_0000000001")) ≡ (9, rejected) ∷ []
unfolding on_message peers_of signaling_conforms utf16_length find lookup
refuses = refl
