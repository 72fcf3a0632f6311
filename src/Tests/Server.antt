-- ===== src/Tests/Server.antt =====
-- A server with one user of each role, one authorization and one enrolled key.
use call_sign.Prelude.{
  ◌≡◌, ◌≢◌, refl, String, some, none, true, false, List, [], ◌∷◌, ok, err, error, is_ok, Result,
  any, every, find, lookup, if◌then◌else◌, ◌==◌, string_eq,
}
use call_sign.Prelude.Text.{
  codes, has_length, matches_0x, matches_class, matches_decimal, utf16_length,
}
use call_sign.Protocol.Json.{text, Libraries}
use call_sign.Protocol.Schemas.{
  is_address, is_digest, is_fingerprint, hex_groups, matches_fingerprint,
}
use call_sign.Protocol.Temporal.{assert_temporal_validity}
use call_sign.Protocol.Contact.{
  civil_reply, ContactAuthorization, EnrollmentProof, RecipientChallenge, enrollment_proof_conforms,
  recipient_challenge_conforms,
}
use call_sign.Protocol.Session.{
  SessionBinding, session_binding_conforms, GatewayConsumeRequest, gateway_consume_request_conforms,
}
use call_sign.Protocol.Signing.{hash_canonical, verify_payload, parse_json_no_duplicate_keys}
use call_sign.Server.Tables.{User, SessionRow, Authorization, AuthorizationConsumption, Database}
use call_sign.Server.Auth.{
  Request, AuthSession, session_for_request, session_row, user_row, require_role, assert_csrf,
  protected_write,
}
use call_sign.Server.Auth.Sound.{IsSessionFor, session_for_request-IsSessionFor}
use call_sign.Server.Consumption.{
  Replayed, consumption_of, authorization_of, consume_authorization_atomic,
}
use call_sign.Server.Consumption.Once.{attempt_all, attempt, consume_authorization_atomic-once}
use call_sign.Server.Handlers.{ServerOptions, key_body_conforms, assert_kid}
use call_sign.Server.Handlers.Login.{check_gateway_body, register_gateway}
use call_sign.Server.Handlers.Contact.{list_authorizations, cancel_authorization_row}
use call_sign.Server.Handlers.Consume.{
  ConsumeBody, ConsumeReply, live_authorization, live_gateway, live_enrollment, prepare_consumption,
  consume_authorization,
}
use call_sign.Server.Handlers.Safe.{
  is_active_of, cancel_authorization_row-consume, register_gateway-taken,
}
use call_sign.Server.Handlers.Possession.{IsPossessed, prepare_consumption-IsPossessed}
use call_sign.Tests.World.{value_of, jwk, address, digest, fingerprint}

abbrev typ_of : String → String
typ_of jws =
    if jws == "enrollment-proof-that-is-long-enough"
    then "callsign/EnrollmentProof+jws"
    else if jws == "challenge"
    then "callsign/RecipientChallenge+jws"
    else "callsign/GatewayConsumeRequest+jws"

abbrev lib : Libraries
lib = record {
  canonicalize = λ v. [];
  sha256_hex = λ b. digest;
  compact_verify = λ jws key. some (record {
    protected_header = record {
      alg = some "EdDSA";
      typ = some (typ_of jws);
      cty = none;
      kid = some "key-00001";
    };
    payload = [];
  });
  compact_sign = λ b h k. "signed";
  decode_utf8 = λ b. some "";
  json_validate = λ t. none;
  json_parse = text;
}

abbrev enrollment_proof : EnrollmentProof
enrollment_proof = record {
  network_id = "1";
  registry_address = address;
  recipient_id = "user_recipient_01";
  recipient_session_public_key = digest;
  issued_at = 900;
  expires_at = 1200;
}

abbrev challenge : RecipientChallenge
challenge = record {
  network_id = "1";
  registry_address = address;
  recipient_id = "user_recipient_01";
  recipient_session_public_key = digest;
  enrollment_proof = "enrollment-proof-that-is-long-enough";
  session_id = "session_000000001";
  recipient_nonce = "nonce_00000000001";
  issued_at = 990;
  expires_at = 1030;
}

abbrev consume_request : GatewayConsumeRequest
consume_request = record {
  network_id = "1";
  registry_address = address;
  authorization_id = "auth_000000000001";
  authorization_hash = digest;
  binding_hash = digest;
  recipient_challenge_hash = digest;
  session_id = "session_000000001";
  issued_at = 990;
  expires_at = 1030;
}

abbrev pub server : ServerOptions
server = record {
  lib = lib;
  token_hash = λ t. t;
  thumbprint = λ x. "key-00001";
  web_origin = "https://callsign";
  demo_mode = true;
  network_id = "1";
  registry_address = address;
  issuer_key = record { public_jwk = jwk; kid = "issuer" };
  enrollment_key = record { public_jwk = jwk; kid = "key-00001" };
  ensure_delegation = λ q. ok "1";
  read_enrollment = λ v. some enrollment_proof;
  read_challenge = λ v. some challenge;
  read_consume_request = λ v. some consume_request;
}

abbrev pub row_for : String → SessionRow
row_for user_id = record {
  id = user_id;
  token_hash = user_id;
  csrf_token = "csrf";
  user_id = user_id;
  expires_at = 2000000;
  purpose = "legacy";
  oidc_issuer = none;
  oidc_client_id = none;
  oidc_audience = none;
  membership_generation = 0;
  authenticated_at = none;
}

abbrev pub user_of : String → String → User
user_of id role = record { id = id; display_name = id; role = role; demo_code = id }

abbrev payload : ContactAuthorization
payload = record {
  network_id = "1";
  registry_address = address;
  authorization_id = "auth_000000000001";
  institution_id = "institution-00001";
  epoch = "1";
  delegation_id = "delegation-000001";
  recipient_id = "user_recipient_01";
  purpose_code = civil_reply;
  official_task_opaque_id = "task-00000000001";
  issued_at = 900;
  not_before = 900;
  expires_at = 1500;
}

abbrev authorization : Authorization
authorization = record {
  id = "auth_000000000001";
  institution_id = "institution-00001";
  delegation_id = "delegation-000001";
  gateway_registration_id = "gateway_1";
  recipient_id = "user_recipient_01";
  task_id = "task";
  payload = payload;
  signed_jws = "signed";
  authorization_hash = digest;
  cancelled_at = none;
  expires_at = 1500000;
}

abbrev pub database : Database
database = record {
  users =
      user_of "user_recipient_01" "recipient"
      ∷ user_of "user_gateway" "gateway"
      ∷ user_of "user_bank" "institution"
      ∷ [];
  sessions = row_for "user_recipient_01" ∷ row_for "user_gateway" ∷ row_for "user_bank" ∷ [];
  tasks = [];
  gateways =
      record {
        id = "gateway_1";
        user_id = "user_gateway";
        kid = "key-00001";
        public_jwk = jwk;
        delegation_id = "delegation-000001";
        active = true;
      }
      ∷ [];
  enrollments =
      record {
        id = "enrollment_1";
        user_id = "user_recipient_01";
        kid = "key-00001";
        public_jwk = jwk;
        proof_jws = "enrollment-proof-that-is-long-enough";
        expires_at = 1200000;
      }
      ∷ [];
  authorizations = authorization ∷ [];
  consumptions = [];
  proposals = [];
  signatures = [];
}

abbrev pub request_of : String → Request
request_of token = record {
  cookies = ("ip_session", token) ∷ [];
  origin = some "https://callsign";
  csrf_token = some "csrf";
}

-- A consumption, and its repetition after another one.
abbrev row : AuthorizationConsumption
row = record {
  authorization_id = "auth_000000000001";
  authorization_hash = digest;
  binding_hash = digest;
  recipient_id = "user_recipient_01";
  session_id = "session_000000001";
  consumed_at = 1000000;
  expires_at = 1060000;
}

abbrev atomic_run : Result (Replayed × Database)
atomic_run = consume_authorization_atomic database row

atomic-is_ok : is_ok atomic_run ≡ true
unfolding consume_authorization_atomic authorization_of consumption_of find
atomic-is_ok = refl

abbrev consumed : (x : Replayed × Database) × (atomic_run ≡ ok x)
consumed = value_of atomic_run atomic-is_ok

abbrev other_binding : AuthorizationConsumption
other_binding = record row { binding_hash = "other" }

abbrev again_run : Result (Replayed × Database)
again_run = consume_authorization_atomic (attempt_all consumed.0.1 (other_binding ∷ [])) row

again-is_ok : is_ok again_run ≡ true
unfolding consume_authorization_atomic authorization_of consumption_of find attempt_all attempt
again-is_ok = refl

abbrev again : (x : Replayed × Database) × (again_run ≡ ok x)
again = value_of again_run again-is_ok

consume_authorization_atomic-once_example :
    (again.0.0.record_ ≡ consumed.0.0.record_)
    × (again.0.0.replay ≡ true)
    × (again.0.1 ≡ attempt_all consumed.0.1 (other_binding ∷ []))
consume_authorization_atomic-once_example =
    consume_authorization_atomic-once database consumed.0.1 again.0.1 row row (other_binding ∷ [])
      consumed.0.0 again.0.0 consumed.1 again.1 refl

abbrev session_run : Result AuthSession
session_run = session_for_request (λ t. t) database (request_of "user_gateway") none 1000000

session-is_ok : is_ok session_run ≡ true
unfolding session_for_request session_row user_row find lookup
session-is_ok = refl

abbrev signed_in : (s : AuthSession) × (session_run ≡ ok s)
signed_in = value_of session_run session-is_ok

session_for_request-IsSessionFor_example :
    IsSessionFor (λ t. t) database (request_of "user_gateway") none 1000000 signed_in.0
session_for_request-IsSessionFor_example =
    session_for_request-IsSessionFor (λ t. t) database (request_of "user_gateway") none 1000000
      signed_in.0 signed_in.1

abbrev write_run : Result AuthSession
write_run = protected_write (λ t. t) database (request_of "user_gateway") "https://callsign" 1000000

write-is_ok : is_ok write_run ≡ true
unfolding protected_write assert_csrf session_for_request session_row user_row find lookup
write-is_ok = refl

abbrev written : (s : AuthSession) × (write_run ≡ ok s)
written = value_of write_run write-is_ok

abbrev cancel_run : Result Database
cancel_run =
    cancel_authorization_row server database (request_of "user_bank") "auth_000000000001" 1000
      1000000

cancel-is_ok : is_ok cancel_run ≡ true
unfolding cancel_authorization_row protected_write assert_csrf session_for_request session_row
    user_row find lookup any require_role
cancel-is_ok = refl

abbrev cancelled : (d : Database) × (cancel_run ≡ ok d)
cancelled = value_of cancel_run cancel-is_ok

abbrev binding : SessionBinding
binding = record {
  network_id = "1";
  registry_address = address;
  authorization_hash = digest;
  session_id = "session_000000001";
  institution_id = "institution-00001";
  epoch = "1";
  delegation_id = "delegation-000001";
  recipient_id = "user_recipient_01";
  recipient_nonce = "nonce_00000000001";
  recipient_session_key_hash = digest;
  gateway_fingerprint = fingerprint;
  receiver_fingerprint = fingerprint;
  offer_sdp_hash = digest;
  answer_sdp_hash = digest;
  issued_at = 990;
  expires_at = 1040;
}

abbrev body : ConsumeBody
body = record {
  binding = binding;
  recipient_enrollment_id = "enrollment_1";
  recipient_challenge_jws = "challenge";
  gateway_consume_request_jws = "request";
}

cancel_authorization_row-consume_example :
    ((consume_authorization server cancelled.0
        (request_of "user_gateway")
        "auth_000000000001"
        body
        false
        1010
        1010000).1
      ≡ cancelled.0)
    × ((reply : ConsumeReply)
        → (consume_authorization server cancelled.0
            (request_of "user_gateway")
            "auth_000000000001"
            body
            false
            1010
            1010000).0
          ≢ ok reply)
cancel_authorization_row-consume_example =
    cancel_authorization_row-consume server database cancelled.0 (request_of "user_bank")
      (request_of "user_gateway") "auth_000000000001" body false 1000 1000000 1010 1010000
      cancelled.1

abbrev prepare_run : Result AuthorizationConsumption
prepare_run =
    prepare_consumption server database (request_of "user_gateway") "auth_000000000001" body 1000
      1000000

prepare-is_ok : is_ok prepare_run ≡ true
unfolding prepare_consumption protected_write assert_csrf session_for_request session_row user_row
    find lookup any require_role session_binding_conforms live_authorization live_gateway
    live_enrollment verify_payload parse_json_no_duplicate_keys enrollment_proof_conforms
    recipient_challenge_conforms gateway_consume_request_conforms assert_temporal_validity
    hash_canonical codes has_length matches_0x matches_class matches_decimal utf16_length is_address
    is_digest is_fingerprint hex_groups matches_fingerprint every
prepare-is_ok = refl

abbrev prepared : (x : AuthorizationConsumption) × (prepare_run ≡ ok x)
prepared = value_of prepare_run prepare-is_ok

prepare_consumption-IsPossessed_example :
    IsPossessed server database
      (request_of "user_gateway")
      "auth_000000000001"
      body
      1000
      1000000
      prepared.0
prepare_consumption-IsPossessed_example =
    prepare_consumption-IsPossessed server database (request_of "user_gateway") "auth_000000000001"
      body 1000 1000000 prepared.0 prepared.1

abbrev list_run : Result (List Authorization)
list_run = list_authorizations server database (request_of "user_gateway") 1000000

list-is_ok : is_ok list_run ≡ true
unfolding list_authorizations session_for_request session_row user_row find lookup any require_role
list-is_ok = refl

abbrev listed : (l : List Authorization) × (list_run ≡ ok l)
listed = value_of list_run list-is_ok

abbrev gateway_run : Result AuthSession
gateway_run =
    check_gateway_body server database (request_of "user_gateway") jwk "key-00001"
      "delegation-000001" 1000000

gateway-is_ok : is_ok gateway_run ≡ true
unfolding check_gateway_body protected_write assert_csrf session_for_request session_row user_row
    find lookup any require_role key_body_conforms assert_kid has_length utf16_length
gateway-is_ok = refl

abbrev gateway_session : (s : AuthSession) × (gateway_run ≡ ok s)
gateway_session = value_of gateway_run gateway-is_ok

kid-taken : any (λ g. g.kid == "key-00001") database.gateways ≡ true
unfolding any
kid-taken = refl

register_gateway-taken_example :
    ((register_gateway server database
        (request_of "user_gateway")
        jwk
        "key-00001"
        "delegation-000001"
        1000000
        "id").0
      ≡ err (error "unique_violation"))
    × (any
          (is_active_of gateway_session.0.user_id)
          (register_gateway server database
            (request_of "user_gateway")
            jwk
            "key-00001"
            "delegation-000001"
            1000000
            "id").1.gateways
        ≡ false)
register_gateway-taken_example =
    register_gateway-taken server database (request_of "user_gateway") jwk "key-00001"
      "delegation-000001" 1000000 "id" gateway_session.0 gateway_session.1 kid-taken
