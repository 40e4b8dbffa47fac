-- ===== src/Core/Role.antt =====
-- `Role` of crates/core/src/models/user.rs.
use rust_generic_user_backen.Base.{
  String, ◌≡◌, ◌≢◌, refl, Option, some, none, ◌↔◌, arith, eq_iff, str_eq, if◌then◌else◌,
}

pub data Role : Type 0 where
  admin moderator user : Role

unfoldable pub as_str : Role → String
as_str admin = "admin"
as_str moderator = "moderator"
as_str user = "user"

unfoldable pub parse : String → Option Role
parse s =
    if str_eq s "admin"
    then some admin
    else if str_eq s "moderator"
    then some moderator
    else if str_eq s "user"
    then some user
    else none

distinct_names :
    ◌≢◌ {A = String} "admin" "moderator"
    × ◌≢◌ {A = String} "admin" "user"
    × ◌≢◌ {A = String} "moderator" "user"
distinct_names =
    ground (arith, eq_iff "admin" "moderator", eq_iff "admin" "user", eq_iff "moderator" "user")

-- A text parses as a role exactly when it is that role's name: parsing undoes printing, and no
-- other text is accepted.
pub parse-as_str_iff : (s : String) (r : Role) → (parse s ≡ some r) ↔ (s ≡ as_str r)
unfolding parse as_str
parse-as_str_iff s admin =
    ground (arith, distinct_names, eq_iff s "admin", eq_iff s "moderator", eq_iff s "user")
parse-as_str_iff s r =
    ground (arith, distinct_names, eq_iff s "admin", eq_iff s "moderator", eq_iff s "user")

pub parse-as_str : (r : Role) → parse (as_str r) ≡ some r
parse-as_str r = (parse-as_str_iff (as_str r) r).1 refl
