-- ===== src/Shared/Models.antt =====
-- shared/src/models.rs: the wire types, and the remaining lifetime of a certificate.
pub mod RenewAt
use secure_net.Base.{ℕ, ◌-◌, ◌/◌, String, List, Option, Bool}

-- A `DateTime<Utc>` is the number of nanoseconds since the epoch.
abbrev pub DateTime : Type 0
DateTime = ℕ

abbrev pub nanos_per_sec : ℕ
nanos_per_sec = 1000000000

-- A `Uuid` is its 128-bit value.
abbrev pub Uuid : Type 0
Uuid = ℕ

pub record User : Type 0 where
  pub id : Uuid
  pub name : String
  pub email : String

pub record Order : Type 0 where
  pub id : Uuid
  pub user_id : Uuid
  pub item : String
  pub qty : ℕ

pub record OrderWithUser : Type 0 where
  pub order : Order
  pub user : User

pub record CertBundle : Type 0 where
  pub cert_pem : String
  pub key_pem : String
  pub ca_pem : String
  pub expires_at : DateTime
  pub serial : String

-- `diff.num_seconds().max(0)`: a negative difference, cut towards zero, gives 0, and so does the
-- subtraction on ℕ.
unfoldable pub ttl_secs : CertBundle → DateTime → ℕ
ttl_secs b now = (b.expires_at - now) / nanos_per_sec

pub record Claims : Type 0 where
  pub sub : String
  pub iat : ℕ
  pub exp : ℕ
  pub iss : String
  pub roles : List String

pub record LoginRequest : Type 0 where
  pub username : String
  pub password : String

pub record TokenResponse : Type 0 where
  pub access_token : String
  pub token_type : String
  pub expires_in : ℕ

pub record UnsealRequest : Type 0 where
  pub service_name : String
  pub machine_id : String
  pub tpm_quote : String
  pub nonce : String
  pub ak_pub : String

pub record UnsealResponse : Type 0 where
  pub bundle : CertBundle

pub record IssuanceLogEntry : Type 0 where
  pub timestamp : DateTime
  pub service_name : String
  pub machine_id : String
  pub cert_serial : String
  pub expires_at : DateTime
  pub granted : Bool
  pub reason : Option String

pub record HealthResponse : Type 0 where
  pub status : String
  pub service : String
  pub version : String
  pub sealed : Bool
  pub cert_serial : Option String
