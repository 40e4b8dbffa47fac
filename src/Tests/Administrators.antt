-- ===== src/Tests/Administrators.antt =====
-- Requests of the administrator and of the user to the routes for administrators.
use rust_generic_user_backen.Base.{
  String, ◌≡◌, ◌||◌, str_eq, ◌≤◌, refl, length, none, some, true, false, List, [], ◌∷◌,
}
use rust_generic_user_backen.Base.Int.{pos}
use rust_generic_user_backen.Base.Text.{strip_prefix, trim}
use rust_generic_user_backen.Base.Result.{ok, err}
use rust_generic_user_backen.Core.Role
use rust_generic_user_backen.Core.User.{Uuid, User}
use rust_generic_user_backen.Core.Error.{forbidden, unauthorized}
use rust_generic_user_backen.Auth.Jwt.{verify, unix_timestamp}
use rust_generic_user_backen.Auth.Permissions
use rust_generic_user_backen.Auth.Permissions.{
  users_read, users_manage, users_assign_roles, require, load_permissions,
}
use rust_generic_user_backen.Db.Permissions.{
  contains, gather, permission_names, role_perms, granted, revoked, distinct, not_in,
  select_permissions, permissions_for,
}
use rust_generic_user_backen.Db.Permissions.Allowed.{allowed, select_permissions-allowed}
use rust_generic_user_backen.Db.Users
use rust_generic_user_backen.App.{
  World, pure, lift, ok_or, raise_if, map_err, db, query, settle, draw, now_utc, ◌>>=◌,
}
use rust_generic_user_backen.App.Forward.{seen}
use rust_generic_user_backen.App.Inversion.{with_state}
use rust_generic_user_backen.Api.Extract.{
  readable, VerifiedUser, auth_user, find_user_by_id, verified_user,
}
use rust_generic_user_backen.Api.Extract.Verified.{Verified, verified_user-Verified}
use rust_generic_user_backen.Api.Admin
use rust_generic_user_backen.Api.Admin.{Page, default_page}
use rust_generic_user_backen.Api.Admin.Paging.{list_users-bounded}
use rust_generic_user_backen.Api.Router.{Request, Authorization, status, serve}
use rust_generic_user_backen.Api.Router.Administration.{Permitted, serve-Permitted, serve-forbidden}
use rust_generic_user_backen.Api.Openapi.{Method, code}
use rust_generic_user_backen.Api.Openapi.Answered.{is_documented, serve-documented}
use rust_generic_user_backen.Api.Openapi.Secured.{serve-secured}
use rust_generic_user_backen.Tests.Toy.{toy, state, tables, world}

abbrev bearer_1 : Authorization
bearer_1 = some (readable "Bearer s.1")

abbrev bearer_2 : Authorization
bearer_2 = some (readable "Bearer s.2")

abbrev admin : VerifiedUser
admin = record { user_id = 1; role = Role.admin }

-- The token says "admin", the tables do not.
abbrev impostor : VerifiedUser
impostor = record { user_id = 2; role = Role.admin }

gate_run : (verified_user toy state bearer_1 world).0 ≡ ok admin
unfolding verified_user auth_user find_user_by_id strip_prefix trim verify unix_timestamp now_utc
    draw Users.find_by_id Users.select_by_id Users.select_user Users.user_of Role.parse pure lift
    ok_or raise_if map_err db query settle ◌>>=◌
gate_run = refl

verified_user-Verified_example :
    Verified toy state bearer_1 world admin (verified_user toy state bearer_1 world).1
verified_user-Verified_example =
    verified_user-Verified toy state bearer_1 world
      (with_state (verified_user toy state bearer_1) world gate_run)

abbrev promote : Request
promote = Request.set_role bearer_1 2 Role.moderator

promote_run : (serve toy state promote world).0 ≡ ok (status 204)
unfolding serve verified_user auth_user find_user_by_id strip_prefix trim verify unix_timestamp
    now_utc draw Users.find_by_id Users.select_by_id Users.select_user Users.user_of Role.parse
    Role.as_str pure lift ok_or raise_if map_err db query settle ◌>>=◌ Admin.set_role
    Admin.authorize load_permissions permissions_for select_permissions gather permission_names
    role_perms granted revoked distinct not_in require Permissions.as_str Users.set_role
    Users.select_role_id Users.update_role
promote_run = refl

serve-Permitted_example : Permitted toy state bearer_1 users_assign_roles world
serve-Permitted_example =
    serve-Permitted toy state promote bearer_1 users_assign_roles world _ (status 204) refl
      (with_state (serve toy state promote) world promote_run)

impostor_run : (verified_user toy state bearer_2 world).0 ≡ ok impostor
unfolding verified_user auth_user find_user_by_id strip_prefix trim verify unix_timestamp now_utc
    draw Users.find_by_id Users.select_by_id Users.select_user Users.user_of Role.parse pure lift
    ok_or raise_if map_err db query settle ◌>>=◌
impostor_run = refl

abbrev entered : World
entered = (verified_user toy state bearer_2 world).1

entered-db : entered.db ≡ tables
unfolding verified_user auth_user find_user_by_id strip_prefix trim verify unix_timestamp now_utc
    draw Users.find_by_id Users.select_by_id Users.select_user Users.user_of Role.parse pure lift
    ok_or raise_if map_err db query settle ◌>>=◌
entered-db = refl

impostor_denied : allowed 2 "users.manage" tables ≡ false
impostor_denied = refl

serve-forbidden_example :
    serve toy state (Request.set_active bearer_2 1 false) world ≡ (err forbidden, seen toy entered)
unfolding Permissions.as_str
serve-forbidden_example =
    serve-forbidden toy state (Request.set_active bearer_2 1 false) bearer_2 users_manage impostor
      world entered refl (with_state (verified_user toy state bearer_2) world impostor_run) refl
      (rw entered-db impostor_denied)

abbrev greedy : Page
greedy = record { limit = pos 1000; offset = pos 0 }

listed_user : Uuid → String → Role.Role → User
listed_user id email role = record {
  id = id;
  email = some email;
  display_name = none;
  role = role;
  is_active = true;
  email_verified = true;
  created_at = pos 0;
  updated_at = pos 0;
}

abbrev listed : List User
listed = listed_user 1 "a@x" Role.admin ∷ listed_user 2 "b@x" Role.user ∷ []

list_run : (Admin.list_users toy admin greedy world).0 ≡ ok listed
unfolding listed_user Admin.list_users Users.list_users Users.select_page Users.newest_first
    Users.join_roles Users.user_of Role.parse Role.as_str pure lift map_err db query settle ◌>>=◌
    Admin.authorize load_permissions permissions_for select_permissions gather permission_names
    role_perms granted revoked distinct not_in require Permissions.as_str
list_run = refl

list_users-bounded_example : length listed ≤ 200
list_users-bounded_example =
    list_users-bounded toy admin greedy world _ listed
      (with_state (Admin.list_users toy admin greedy) world list_run)

abbrev admin_permissions : List String
admin_permissions = "users.read" ∷ "users.manage" ∷ "users.assign_roles" ∷ []

permissions_run : select_permissions 1 (pos 0) 0 tables ≡ (ok admin_permissions, tables)
unfolding select_permissions gather permission_names role_perms granted revoked distinct not_in
permissions_run = refl

select_permissions-allowed_example :
    contains "users.manage" admin_permissions ≡ allowed 1 "users.manage" tables
select_permissions-allowed_example =
    select_permissions-allowed 1 (pos 0) 0 tables tables admin_permissions "users.manage"
      permissions_run

serve-documented_example :
    str_eq "/api/v1/admin/users/{id}/role" "/health"
      || is_documented Method.patch "/api/v1/admin/users/{id}/role" (code (status 204))
    ≡ true
serve-documented_example =
    serve-documented toy state promote Method.patch "/api/v1/admin/users/{id}/role" world _
      (status 204) refl (with_state (serve toy state promote) world promote_run)

abbrev anonymous : Request
anonymous = Request.list_users none greedy

serve-secured_example : serve toy state anonymous world ≡ (err unauthorized, world)
serve-secured_example =
    serve-secured toy state anonymous
      (record {
        method = Method.get;
        path = "/api/v1/admin/users";
        responses = 200 ∷ 401 ∷ 403 ∷ [];
        secured = true;
      })
      world refl refl refl
