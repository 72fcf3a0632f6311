-- ===== src/Tests/World.antt =====
-- An institution with one open intent, whose libraries are constant functions: every hash is one
-- digest, and a signed message carries its own kind.
use call_sign.Prelude.{
  ℕ, ◌≡◌, refl, String, Option, none, some, true, false, List, [], ◌∷◌, ◌==◌, string_eq, nat_eq,
  if◌then◌else◌, Result, ok, err, is_ok,
}
use mathlib.Core.Bool.{false≢true}
use call_sign.Protocol.Json.{Json, text, Jwk, Jws, Libraries}
use call_sign.Protocol.Finals.Credential.{
  otp, PurposePolicy, CredentialSubject, CredentialStatus, DelegationCredential,
}
use call_sign.Protocol.Finals.Messages.{SessionPermit, ContactAuthorizationV2}
use call_sign.Protocol.Finals.Binding.{
  webrtc_bundle_v2, BindingV2, sender, recipient, PossessionProof,
}
use call_sign.Finals.Record.{
  Actor, IntentStatus, ContactIntent, AttemptStatus, CallAttempt, Service, Member,
  IssuedAuthorization, InstitutionStatus, InstitutionRecord,
}
use call_sign.Finals.Authority.Options.{
  SigningKey, VerificationMethod, DidDocument, AuthorityOptions,
}
use call_sign.Finals.Authority.Consume.{ConsumeInput}

-- The value of a step that succeeds.
abbrev pub value_of {ℓ} : {A : Type ℓ} (m : Result A) → is_ok m ≡ true → (a : A) × (m ≡ ok a)
value_of (ok a) h = (a, refl)
value_of (err e) h = absurd (false≢true h)

abbrev pub digest : String
digest = "aaaaaaaaaaaaaaaaaaaaaaaaaaaaaaaaaaaaaaaaaaaaaaaaaaaaaaaaaaaaaaaa"

abbrev pub address : String
address = "0x0000000000000000000000000000000000000000"

abbrev pub jwk : Jwk
jwk = record {
  kty = "OKP";
  crv = "Ed25519";
  x = "AAAAAAAAAAAAAAAAAAAAAAAAAAAAAAAAAAAAAAAAAAA";
  d = none;
}

abbrev other_jwk : Jwk
other_jwk = record {
  kty = "OKP";
  crv = "Ed25519";
  x = "BBBBBBBBBBBBBBBBBBBBBBBBBBBBBBBBBBBBBBBBBBB";
  d = none;
}

abbrev typ_of : String → String
typ_of jws =
    if jws == "permit"
    then "callsign/SenderSessionPermit+jws"
    else if jws == "vc"
    then "vc+jwt"
    else "callsign/PossessionProof+jws"

abbrev message : String → Jws
message jws = record {
  protected_header = record {
    alg = some "EdDSA";
    typ = some (typ_of jws);
    cty = some "vc";
    kid = some digest;
  };
  payload = if jws == "sender" then 1 ∷ [] else [];
}

abbrev decoded : List ℕ → String
decoded [] = "recipient"
decoded (_ ∷ _) = "sender"

abbrev pub lib : Libraries
lib = record {
  canonicalize = λ v. [];
  sha256_hex = λ b. digest;
  compact_verify = λ jws key. some (message jws);
  compact_sign = λ b h k. "signed";
  decode_utf8 = λ b. some (decoded b);
  json_validate = λ t. none;
  json_parse = text;
}

abbrev pub policy : PurposePolicy
policy = record {
  id = "policy";
  version = 1;
  allowed_questions = "Did you pay?" ∷ [];
  forbidden_requests = otp ∷ [];
}

abbrev pub subject : CredentialSubject
subject = record {
  id = "did:service";
  institution_id = "bank";
  controller = "did:service";
  service_key_version = 1;
  public_key = jwk;
  policy_hash = digest;
}

abbrev pub credential_status : CredentialStatus
credential_status = record {
  id = "urn:uuid:1";
  registry_address = address;
  network_id = "net";
  epoch = "1";
  approval_key_version = 1;
}

abbrev pub vc : DelegationCredential
vc = record {
  id = "urn:uuid:1";
  issuer = "did:bank";
  valid_from = 0;
  valid_until = 5000000;
  subject = subject;
  status = credential_status;
}

abbrev pub permit : SessionPermit
permit = record {
  network_id = "net";
  registry_address = address;
  issued_at = 990;
  expires_at = 1040;
  institution_id = "bank";
  intent_id = "intent";
  attempt_id = "attempt";
  agent_id = "agent";
  service_did = "did:service";
  service_key_version = 1;
  browser_public_key = jwk;
  session_id = "session";
  policy_hash = digest;
  vc_digest = digest;
}

abbrev content : Json → String
content (text t) = t
content _ = ""

abbrev possession : Json → PossessionProof
possession v = record {
  network_id = "net";
  registry_address = address;
  issued_at = 990;
  expires_at = 1030;
  role = if content v == "sender" then sender else recipient;
  authorization_id = "authorization";
  binding_hash = digest;
  session_id = "session";
}

abbrev method : String → VerificationMethod
method did = record { id = digest; controller = did; public_key_jwk = jwk }

abbrev document : String → DidDocument
document did = record {
  id = did;
  verification_method = method did ∷ [];
  assertion_method = digest ∷ [];
  authentication = digest ∷ [];
}

abbrev signing_key : ℕ → SigningKey
signing_key v =
    if v == 1
    then record { private_key = jwk; kid = digest; public_jwk = some jwk }
    else record { private_key = other_jwk; kid = "second"; public_jwk = some other_jwk }

abbrev pub options : AuthorityOptions
options = record {
  lib = lib;
  network_id = "net";
  registry_address = address;
  signing_key = λ v. ok (signing_key v);
  assert_rotation = some (λ r k e. ok tt);
  resolve_did = λ did. ok (document did);
  assert_current = λ r d. ok tt;
  read_permit = λ v. some permit;
  read_possession = λ v. some (possession v);
  read_credential = λ v. some vc;
}

abbrev actor_of : String → String → Actor
actor_of id role = record {
  user_id = id;
  role = role;
  institution_id = "bank";
  membership_generation = none;
}

abbrev pub manager : Actor
manager = actor_of "manager" "institution"

abbrev pub agent : Actor
agent = actor_of "agent" "gateway"

abbrev pub customer : Actor
customer = actor_of "customer" "recipient"

abbrev member : String → Option String → Member
member role service_did = record {
  role = role;
  service_did = service_did;
  permissions = [];
  active = true;
  session_generation = 0;
}

abbrev pub intent : ContactIntent
intent = record {
  id = "intent";
  institution_id = "bank";
  recipient_id = "customer";
  agent_id = "agent";
  service_did = "did:service";
  policy_hash = digest;
  expires_at = 2000;
  status = IntentStatus.opened;
}

abbrev attempt : CallAttempt
attempt = record {
  id = "attempt";
  intent_id = "intent";
  session_id = "session";
  agent_id = "agent";
  status = AttemptStatus.authorized;
  expires_at = 1200;
}

abbrev pub authorization : ContactAuthorizationV2
authorization = record {
  network_id = "net";
  registry_address = address;
  issued_at = 995;
  expires_at = 1040;
  authorization_id = "authorization";
  institution_id = "bank";
  issuer_did = "did:bank";
  approval_key_version = 1;
  epoch = "1";
  intent_id = "intent";
  attempt_id = "attempt";
  recipient_id = "customer";
  policy_hash = digest;
  vc_digest = digest;
  permit_hash = digest;
  session_id = "session";
  browser_key_hash = digest;
}

abbrev pub issued : IssuedAuthorization
issued = record { payload = authorization; jws = "signed"; cancelled = false }

abbrev service : Service
service = record {
  did = "did:service";
  kid = digest;
  public_key = jwk;
  key_version = 1;
  active = true;
}

-- The agent has called, and the customer has enrolled a key.
abbrev pub bank : InstitutionRecord
bank = record {
  id = "bank";
  did = "did:bank";
  epoch = "1";
  approval_key_version = 1;
  approval_kid = digest;
  approval_public_key = jwk;
  status = InstitutionStatus.active;
  policy = policy;
  services = ("did:service", service) ∷ [];
  members =
      ("manager", member "institution" none)
      ∷ ("agent", member "gateway" (some "did:service"))
      ∷ ("customer", member "recipient" none)
      ∷ [];
  intents = ("intent", intent) ∷ [];
  attempts = ("attempt", attempt) ∷ [];
  credentials = (digest, record { vc = vc; jws = "vc"; revoked = false }) ∷ [];
  authorizations = ("authorization", issued) ∷ [];
  consumptions = [];
  recipient_keys =
      ("session", record { user_id = "customer"; public_key = jwk; expires_at = 1200 }) ∷ [];
  audit = [];
}

abbrev pub fingerprint : String
fingerprint =
    "AA:AA:AA:AA:AA:AA:AA:AA:AA:AA:AA:AA:AA:AA:AA:AA:AA:AA:AA:AA:AA:AA:AA:AA:AA:AA:AA:AA:AA:AA:AA:AA"

abbrev pub binding : BindingV2
binding = record {
  network_id = "net";
  registry_address = address;
  issued_at = 990;
  expires_at = 1040;
  authorization_hash = digest;
  session_id = "session";
  recipient_id = "customer";
  recipient_nonce = "nonce";
  recipient_key_hash = digest;
  gateway_fingerprint = fingerprint;
  receiver_fingerprint = fingerprint;
  offer_sdp_hash = digest;
  answer_sdp_hash = digest;
  transport_profile = webrtc_bundle_v2;
}

abbrev pub request : ConsumeInput
request = record {
  authorization_id = "authorization";
  binding = binding;
  sender_proof = "sender";
  recipient_proof = "recipient";
  permit_jws = "permit";
}
