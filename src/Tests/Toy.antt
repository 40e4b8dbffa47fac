-- ===== src/Tests/Toy.antt =====
-- A small environment in which the program can be run: every query is answered, no other request
-- runs in between, and the functions of the crates are simple ones.
use Prim.Native.Char.{code}
use Prim.Native.String.{[], ◌∷◌, len}
use rust_generic_user_backen.Base.{
  ℕ, ◌+◌, String, true, none, some, List, [], ◌∷◌, leb, str_eq, if◌then◌else◌,
}
use rust_generic_user_backen.Base.Int.{pos}
use rust_generic_user_backen.Base.Result.{ok, err}
use rust_generic_user_backen.Base.Text.{◌<>◌, show}
use rust_generic_user_backen.Core.User.{Uuid}
use rust_generic_user_backen.Db.Schema.{Db, UserRow, RefreshTokenRow, OneTimeTokenRow, migrated}
use rust_generic_user_backen.Env.{Env, clean}
use rust_generic_user_backen.App.{World}
use rust_generic_user_backen.App.Keeps.{OthersKeep}
use rust_generic_user_backen.Api.State.{AppState}

unfoldable pub codes : String → List ℕ
codes [] = []
codes (c ∷ s) = code c ∷ codes s

unfoldable pub digits : List ℕ → String
unfolding show
digits [] = ""
digits (n ∷ ns) = show n <> digits ns

abbrev pub toy : Env
toy = record {
  app_now = λ n. pos n;
  db_now = λ n. pos n;
  uuid = λ n. n + 100;
  random_bytes = λ n. n ∷ [];
  salt = λ n. "salt";
  fault = λ n. clean;
  others = λ n d. d;
  sqlx_display = λ e. "sqlx";
  citext_key = λ s. s;
  sha256 = codes;
  hex_encode = digits;
  as_simple = λ n. show n;
  argon2_hash = λ plain salt. ok ("$" <> plain);
  phc_error = λ phc. none;
  argon2_matches = λ plain phc. str_eq phc ("$" <> plain);
  jwt_encode = λ secret claims. ok (secret <> "." <> show claims.sub);
  jwt_decode = λ secret issuer now token.
      if str_eq token (secret <> ".1")
      then ok (record { sub = 1; role = "admin"; iss = issuer; iat = now; exp = now; jti = 0 })
      else if str_eq token (secret <> ".2")
      then ok (record { sub = 2; role = "admin"; iss = issuer; iat = now; exp = now; jti = 0 })
      else err "invalid";
  valid_email = λ s. true;
  valid_min_length = λ n s. leb n (len s);
  parse_url = λ s. ok s;
  authorize_url = λ n client scopes. ("url", "csrf");
  exchange_code = λ n client c. ok "token";
  http_get = λ n url bearer. ok (record { status = 200; body = "{}" });
  error_for_status = λ answer. ok answer;
  profile_of_json = λ s. ok (record {
    sub = "g";
    email = some "g@x";
    email_verified = none;
    name = none;
    picture = none;
  });
  json_of_profile = λ p. "{}";
}

-- The other requests keep everything: there are none.
pub alone : (P : Db → Type 0) → OthersKeep toy P
alone P = record { at = λ n d h. h }

abbrev pub state : AppState
state = record {
  settings = record {
    app_env = "local";
    http = record { bind = "b"; public_url = "u"; request_timeout_secs = 30 };
    db = record {
      url = "postgres";
      max_connections = 20;
      min_connections = 2;
      acquire_timeout_secs = 10;
      run_migrations_on_start = true;
    };
    cors = record { allowed_origins = [] };
    auth = record {
      jwt_secret = "s";
      jwt_access_ttl_min = pos 15;
      jwt_refresh_ttl_days = pos 30;
      password_min_length = 8;
      google = record { client_id = ""; client_secret = ""; redirect_url = "" };
    };
    email = record {
      smtp_host = "h";
      smtp_port = 25;
      smtp_username = "";
      smtp_password = "";
      from_email = "f@x";
      from_name = "f";
    };
  };
  jwt = record {
    secret = "s";
    access_ttl_min = pos 15;
    refresh_ttl_days = pos 30;
    issuer = "generic-auth";
  };
}

abbrev pub user_row : Uuid → String → ℕ → UserRow
user_row id email role_id = record {
  id = id;
  email = some email;
  password_hash = some "$password";
  display_name = none;
  role_id = role_id;
  is_active = true;
  email_verified = true;
  created_at = pos 0;
  updated_at = pos 0;
}

abbrev pub one_time : String → OneTimeTokenRow
one_time hash = record {
  id = 9;
  user_id = 1;
  token_hash = hash;
  expires_at = pos 1000;
  used_at = none;
  created_at = pos 0;
}

abbrev pub session_row : RefreshTokenRow
session_row = record {
  id = 5;
  user_id = 1;
  token_hash = "65";
  issued_at = pos 0;
  expires_at = pos 1000;
  revoked_at = none;
  user_agent = none;
}

-- An administrator, a user, and tokens of the administrator: the hash of "A" is "65".
abbrev pub tables : Db
tables = record migrated {
  users = user_row 1 "a@x" 1 ∷ user_row 2 "b@x" 3 ∷ [];
  refresh_tokens = session_row ∷ [];
  email_verification_tokens = one_time "65" ∷ [];
  password_reset_tokens = one_time "65" ∷ [];
}

abbrev pub world : World
world = record { db = tables; effects = 0; spawned = [] }
