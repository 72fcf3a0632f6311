-- ===== src/Server/Tables.antt =====
-- The tables of services/api/src/schema.ts, as lists of rows in the order of insertion. Instants are
-- milliseconds. The columns `created_at`, by which only listings are ordered, are left out.
use call_sign.Prelude.{ℕ, String, Option, Bool, List}
use call_sign.Protocol.Json.{Jwk}
use call_sign.Protocol.Contact.{ContactAuthorization}

pub record User : Type 0 where
  pub id : String
  pub display_name : String
  pub role : String
  pub demo_code : String

pub record SessionRow : Type 0 where
  pub id : String
  pub token_hash : String
  pub csrf_token : String
  pub user_id : String
  pub expires_at : ℕ
  pub purpose : String
  pub oidc_issuer : Option String
  pub oidc_client_id : Option String
  pub oidc_audience : Option String
  pub membership_generation : ℕ
  pub authenticated_at : Option ℕ

pub record Task : Type 0 where
  pub id : String
  pub owner_id : String
  pub institution_id : String
  pub opaque_id : String
  pub title : String
  pub status : String
  pub detail : String

pub record GatewayRegistration : Type 0 where
  pub id : String
  pub user_id : String
  pub kid : String
  pub public_jwk : Jwk
  pub delegation_id : String
  pub active : Bool

pub record RecipientEnrollment : Type 0 where
  pub id : String
  pub user_id : String
  pub kid : String
  pub public_jwk : Jwk
  pub proof_jws : String
  pub expires_at : ℕ

pub record Authorization : Type 0 where
  pub id : String
  pub institution_id : String
  pub delegation_id : String
  pub gateway_registration_id : String
  pub recipient_id : String
  pub task_id : String
  pub payload : ContactAuthorization
  pub signed_jws : String
  pub authorization_hash : String
  pub cancelled_at : Option ℕ
  pub expires_at : ℕ

pub record AuthorizationConsumption : Type 0 where
  pub authorization_id : String
  pub authorization_hash : String
  pub binding_hash : String
  pub recipient_id : String
  pub session_id : String
  pub consumed_at : ℕ
  pub expires_at : ℕ

-- The `payload` of a proposal: `recoveryRequestSchema` of services/api/src/server.ts.
pub record RecoveryRequest : Type 0 where
  pub institution_id : String
  pub expected_epoch : String
  pub new_administrator : String
  pub new_approval_public_key : String
  pub new_emergency_stopper : String
  pub nonce : String
  pub deadline : String

-- `execution` is what the handler adds to the payload.
pub record GovernanceProposal : Type 0 where
  pub id : String
  pub action : String
  pub institution_id : String
  pub payload : RecoveryRequest
  pub execution : Option String
  pub status : String

pub record ProposalSignature : Type 0 where
  pub proposal_id : String
  pub signer_user_id : String
  pub signature : String

pub record Database : Type 0 where
  pub users : List User
  pub sessions : List SessionRow
  pub tasks : List Task
  pub gateways : List GatewayRegistration
  pub enrollments : List RecipientEnrollment
  pub authorizations : List Authorization
  pub consumptions : List AuthorizationConsumption
  pub proposals : List GovernanceProposal
  pub signatures : List ProposalSignature
