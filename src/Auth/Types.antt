-- ===== src/Auth/Types.antt =====
-- The records of crates/auth/src/jwt.rs and crates/auth/src/oauth.rs, and what the program sets of
-- the OAuth client and reads of an HTTP answer.
use rust_generic_user_backen.Base.{ℕ, String, Bool, Option}
use rust_generic_user_backen.Base.Int.{ℤ}
use rust_generic_user_backen.Core.User.{Uuid}

pub record JwtConfig : Type 0 where
  pub secret : String
  pub access_ttl_min : ℤ
  pub refresh_ttl_days : ℤ
  pub issuer : String

-- The times are Unix seconds.
pub record Claims : Type 0 where
  pub sub : Uuid
  pub role : String
  pub iss : String
  pub iat : ℤ
  pub exp : ℤ
  pub jti : Uuid

pub record GoogleConfig : Type 0 where
  pub client_id : String
  pub client_secret : String
  pub redirect_url : String

pub record GoogleProfile : Type 0 where
  pub sub : String
  pub email : Option String
  pub email_verified : Option Bool
  pub name : Option String
  pub picture : Option String

pub record BasicClient : Type 0 where
  pub client_id : String
  pub client_secret : Option String
  pub auth_url : String
  pub token_url : Option String
  pub redirect_url : String

pub record HttpAnswer : Type 0 where
  pub status : ℕ
  pub body : String
