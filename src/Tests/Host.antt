-- ===== src/Tests/Host.antt =====
-- A small host for the environment of `Tests.Toy`: every step of the start succeeds, the migrations
-- have been made, and one request arrives.
use rust_generic_user_backen.Base.{if◌then◌else◌, true, none, some, refl}
use rust_generic_user_backen.Base.Result.{ok, err}
use rust_generic_user_backen.Base.Text.{show}
use rust_generic_user_backen.Db.Schema.{Db}
use rust_generic_user_backen.Db.Consistent.{
  user_keys, token_hashes, verification_hashes, reset_hashes, identity_subjects, user_overrides,
  role_ids, sessions, verifications, resets, identities, overrides, session_ids, verification_ids,
  reset_ids, identity_ids, role_keys, permission_keys, role_permission_keys,
  role_permission_references, override_permissions, Constraint, Holds, IsConsistent,
}
use rust_generic_user_backen.Db.Users.{same_email}
use rust_generic_user_backen.Api.Server.Keeps.{MigratorKeeps, ServerKeeps}
use rust_generic_user_backen.Api.Server.Cors.{WildcardPanics}
use rust_generic_user_backen.Db.Permissions.{contains}
use rust_generic_user_backen.Api.Host.{Host}
use rust_generic_user_backen.Api.Router.{Request}
use rust_generic_user_backen.Tests.Toy.{toy, state, tables}

abbrev pub toy_host : Host
toy_host = record {
  env_var = λ name. none;
  set_override = λ key value. ok tt;
  build_config = λ sources overrides. ok (record {
    http = state.settings.http;
    db = record {
      url = "postgres";
      max_connections = 20;
      min_connections = none;
      acquire_timeout_secs = none;
      run_migrations_on_start = some true;
    };
    auth = state.settings.auth;
    cors = state.settings.cors;
    email = state.settings.email;
  });
  connect = λ n cfg. ok tt;
  migrate = λ n d. (ok tt, d);
  http_client = λ user_agent. ok tt;
  parse_origin = λ s. some s;
  allow_origin_list = λ origins. if contains "*" origins then err "wildcard" else ok tt;
  bind = λ n address. ok tt;
  serve = λ routes w.
      (ok tt, (routes (Request.login (record { email = "a@x"; password = "password" })) w).1);
  uuid_display = λ id. show id;
}

pub migrate-Keeps : (P : Db → Type 0) → MigratorKeeps P toy_host.migrate
migrate-Keeps P = record { at = λ n d h. h }

pub serve-Keeps : (P : Db → Type 0) → ServerKeeps P toy_host.serve
serve-Keeps P = record { at = λ routes k. record { at = λ w h. (k _).at w h } }

pub toy_host-WildcardPanics : WildcardPanics toy_host
toy_host-WildcardPanics = record {
  on_wildcard = λ origins wild. ("wildcard", rw wild refl);
  elsewhere = λ origins tame. rw tame refl;
}

tables-Holds : (c : Constraint) → Holds toy c tables
unfolding same_email
tables-Holds user_keys = (refl, refl)
tables-Holds token_hashes = refl
tables-Holds verification_hashes = refl
tables-Holds reset_hashes = refl
tables-Holds identity_subjects = refl
tables-Holds user_overrides = refl
tables-Holds role_ids = refl
tables-Holds sessions = refl
tables-Holds verifications = refl
tables-Holds resets = refl
tables-Holds identities = refl
tables-Holds overrides = refl
tables-Holds session_ids = refl
tables-Holds verification_ids = refl
tables-Holds reset_ids = refl
tables-Holds identity_ids = refl
tables-Holds role_keys = (refl, refl)
tables-Holds permission_keys = (refl, refl)
tables-Holds role_permission_keys = refl
tables-Holds role_permission_references = refl
tables-Holds override_permissions = refl

pub tables-IsConsistent : IsConsistent toy tables
tables-IsConsistent = record { at = tables-Holds }
