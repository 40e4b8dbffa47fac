-- ===== src/Tests/Answers.antt =====
-- Answers to errors and to bodies that fail their checks, and the names of roles.
use rust_generic_user_backen.Base.{
  true, any, find, str_eq, ◌≡◌, ◌≤◌, ◌↔◌, refl, none, some, [], ◌∷◌, arith,
}
use rust_generic_user_backen.Base.Int.{pos}
use rust_generic_user_backen.Base.Result.{err}
use rust_generic_user_backen.Core.Role
use rust_generic_user_backen.Core.Error.{database, internal, validation_fields}
use rust_generic_user_backen.Api.Error.{into_response}
use rust_generic_user_backen.Api.Error.Opaque.{into_response-opaque}
use rust_generic_user_backen.Api.Auth.Register.{RegisterReq, app_port, register_user}
use rust_generic_user_backen.Api.Auth.Register.Validated.{register_user-invalid}
use rust_generic_user_backen.Base.Text.{◌<>◌}
use rust_generic_user_backen.Db.Schema.{RoleRow, UserRow, unique_violation}
use rust_generic_user_backen.Db.Users.{same_email}
use rust_generic_user_backen.App.Forward.{seen}
use rust_generic_user_backen.App.Inversion.{tick}
use rust_generic_user_backen.Api.Auth.Register.Taken.{register_user-taken}
use rust_generic_user_backen.Tests.Toy.{toy, state, tables, world}

is_server_error : 500 ≤ (into_response (database "users_email_key")).status
unfolding into_response
is_server_error = omega arith

is_internal_error : 500 ≤ (into_response (internal "panic")).status
unfolding into_response
is_internal_error = omega arith

into_response-opaque_example :
    into_response (database "users_email_key") ≡ into_response (internal "panic")
into_response-opaque_example =
    into_response-opaque (database "users_email_key") (internal "panic") is_server_error
      is_internal_error

abbrev short : RegisterReq
short = record { email = "a@x"; password = "short"; display_name = none }

register_user-invalid_example :
    register_user toy (app_port toy state) short (pos 15) (pos 30) world ≡ (
      err (
          validation_fields "Validation failed"
            (("password", "Must be at least 8 characters long" ∷ []) ∷ [])),
      world,
    )
register_user-invalid_example =
    register_user-invalid toy (app_port toy state) short (pos 15) (pos 30) world refl

parse-as_str_iff_example :
    (Role.parse "moderator" ≡ some Role.moderator) ↔ ("moderator" ≡ Role.as_str Role.moderator)
parse-as_str_iff_example = Role.parse-as_str_iff "moderator" Role.moderator

abbrev known : RegisterReq
known = record { email = "b@x"; password = "password"; display_name = none }

known_taken : any (λ (u : UserRow). same_email toy u.email (some "b@x")) tables.users ≡ true
unfolding same_email
known_taken = refl

user_role :
    find (λ (r : RoleRow). str_eq r.name (Role.as_str Role.user)) tables.roles
    ≡ some (record { id = 3; name = "user" })
unfolding Role.as_str
user_role = refl

register_user-taken_example :
    (register_user toy (app_port toy state) known (pos 15) (pos 30) world ≡ (
      err (database ("sqlx: " <> toy.sqlx_display unique_violation)),
      seen toy (seen toy (tick world)),
    ))
    × ((into_response (database ("sqlx: " <> toy.sqlx_display unique_violation))).status ≡ 500)
register_user-taken_example =
    register_user-taken toy state known (pos 15) (pos 30) world "$password"
      (record { id = 3; name = "user" }) refl refl refl refl refl user_role known_taken
