-- ===== src/Core/User.antt =====
-- `User`, `OAuthProvider` and `OAuthIdentity` of crates/core/src/models/user.rs, with the identifiers and times of the program.
use rust_generic_user_backen.Base.{ℕ, String, Bool, Option}
use rust_generic_user_backen.Base.Int.{ℤ}
use rust_generic_user_backen.Core.Role.{Role}

-- A 128-bit identifier, which the program only compares and prints.
abbrev pub Uuid : Type 0
Uuid = ℕ

-- A point in time, in nanoseconds from the Unix epoch.
abbrev pub OffsetDateTime : Type 0
OffsetDateTime = ℤ

pub record User : Type 0 where
  pub id : Uuid
  pub email : Option String
  pub display_name : Option String
  pub role : Role
  pub is_active : Bool
  pub email_verified : Bool
  pub created_at : OffsetDateTime
  pub updated_at : OffsetDateTime

pub data OauthProvider : Type 0 where
  google : OauthProvider

abbrev pub as_str : OauthProvider → String
as_str google = "google"

pub record OauthIdentity : Type 0 where
  pub id : Uuid
  pub user_id : Uuid
  pub provider : OauthProvider
  pub subject : String
  pub email : Option String
