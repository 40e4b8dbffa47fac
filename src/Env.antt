-- ===== src/Env.antt =====
-- What the program does not implement. `Env` holds the functions of the crates that it calls and,
-- for each effect by its number, what the clocks, the random sources, the network and the other
-- requests answer. The fields carry no laws: a theorem names the documented behaviour that it
-- needs as a hypothesis.
use rust_generic_user_backen.Base.{ℕ, String, Bool, Option, List}
use rust_generic_user_backen.Base.Int.{ℤ}
use rust_generic_user_backen.Base.Result.{Result}
use rust_generic_user_backen.Core.User.{Uuid, OffsetDateTime}
use rust_generic_user_backen.Db.Schema.{Db, SqlxError}
use rust_generic_user_backen.Auth.Types.{Claims, GoogleProfile, BasicClient, HttpAnswer}

-- How a statement's round trip to the database ends.
pub data Fault : Type 0 where
  clean : Fault
  lost_request lost_reply : SqlxError → Fault

pub record Env : Type 0 where
  -- the application's clock, and the database server's `now()`
  pub app_now : ℕ → OffsetDateTime
  pub db_now : ℕ → OffsetDateTime
  -- `Uuid::new_v4` and `gen_random_uuid()`
  pub uuid : ℕ → Uuid
  -- `rand::thread_rng().fill_bytes` for 32 bytes, and `SaltString::generate`
  pub random_bytes : ℕ → List ℕ
  pub salt : ℕ → String
  pub fault : ℕ → Fault
  -- what other requests did to the tables since the last effect
  pub others : ℕ → Db → Db
  -- sqlx: the printed error; citext: the form by which two e-mail addresses are compared
  pub sqlx_display : SqlxError → String
  pub citext_key : String → String
  -- sha2 over the bytes of a text, hex, and the simple form of a uuid
  pub sha256 : String → List ℕ
  pub hex_encode : List ℕ → String
  pub as_simple : Uuid → String
  -- argon2: the encoded hash, the error of an encoded hash that does not parse, and the check
  pub argon2_hash : (plain salt : String) → Result String String
  pub phc_error : String → Option String
  pub argon2_matches : (plain phc : String) → Bool
  -- jsonwebtoken, with the secret; `decode` has the issuer that is asked for, and the time in
  -- Unix seconds
  pub jwt_encode : String → Claims → Result String String
  pub jwt_decode : (secret issuer : String) (now : ℤ) (token : String) → Result String Claims
  -- validator: `#[validate(email)]` and `#[validate(length(min = ...))]`
  pub valid_email : String → Bool
  pub valid_min_length : ℕ → String → Bool
  -- oauth2, reqwest and serde_json
  pub parse_url : String → Result String String
  pub authorize_url : ℕ → BasicClient → List String → String × String
  pub exchange_code : ℕ → BasicClient → String → Result String String
  pub http_get : ℕ → (url bearer : String) → Result String HttpAnswer
  pub error_for_status : HttpAnswer → Result String HttpAnswer
  pub profile_of_json : String → Result String GoogleProfile
  pub json_of_profile : GoogleProfile → String
