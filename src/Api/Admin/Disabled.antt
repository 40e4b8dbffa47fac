-- ===== src/Api/Admin/Disabled.antt =====
-- `set_active` of crates/api/src/routes/admin.rs, and the logins that follow it.
use rust_generic_user_backen.Base.{
  ℕ, ◌≡◌, ◌⊎◌, refl, ap, subst, true, false, ◌==◌, arith, All, inl, inr,
}
use rust_generic_user_backen.Base.Result.{ok}
use rust_generic_user_backen.Core.User.{Uuid}
use rust_generic_user_backen.Db.Schema.{Db, UserRow}
use rust_generic_user_backen.Db.Users
use rust_generic_user_backen.Db.Users.{update_active}
use rust_generic_user_backen.Db.Users.Every.{All-of_update, select_user-All}
use rust_generic_user_backen.Env.{Env}
use rust_generic_user_backen.App.{World}
use rust_generic_user_backen.App.Keeps.{OthersKeep}
use rust_generic_user_backen.App.Inversion.{after_any, after_query, pure-eq-ok}
use rust_generic_user_backen.Api.Extract.{VerifiedUser}
use rust_generic_user_backen.Api.State.{AppState}
use rust_generic_user_backen.Api.Auth.Tokens.{TokenPair}
use rust_generic_user_backen.Api.Auth.Session.{LoginReq, login}
use rust_generic_user_backen.Api.Auth.Session.Credentials.{LoggedIn, login-LoggedIn}
use rust_generic_user_backen.Api.Admin.{set_active}

-- The user has another id, or it is not active.
pub IsDisabled : Uuid → UserRow → Type 0
IsDisabled id u = ((u.id == id) ≡ false) ⊎ (u.is_active ≡ false)

-- The user with this id is not active.
abbrev pub Disabled : Uuid → Db → Type 0
Disabled id d = All (IsDisabled id) d.users

pub active-other :
    (id : Uuid) (u : UserRow) → IsDisabled id u → u.is_active ≡ true → (u.id == id) ≡ false
unfolding IsDisabled
active-other id u (inl other) active = other
active-other id u (inr inactive) active = ground (arith, inactive, active)

pub set_active-Disabled :
    (env : Env) (user : VerifiedUser) (id : Uuid) (w w' : World) (status : ℕ)
    → set_active env user id false w ≡ (ok status, w')
    → Disabled id w'.db
unfolding set_active Users.set_active update_active IsDisabled
set_active-Disabled env user id w w' status e = after_any _ _ e λ _ v authorized r1.
    after_query env _ _ r1 λ _ v2 ran r2.
      subst (λ (x : World). Disabled id x.db) (pure-eq-ok r2).1
        (subst (Disabled id) (ap (λ p. p.1) ran.outcome) (
          All-of_update (IsDisabled id) _ _ (λ u t. inr refl) (λ u other. inl other)
            (env.others v.effects v.db).users))

-- Who was disabled cannot log in: after `set_active` was answered for a user and "false", a login
-- that returns a pair is into the account of another user, if the other requests do not make the
-- user active.
pub set_active-no_login :
    (env : Env) (state : AppState) (user : VerifiedUser) (id : Uuid) (body : LoginReq)
    (w w' w'' : World) (status : ℕ) (pair : TokenPair)
    → OthersKeep env (Disabled id)
    → set_active env user id false w ≡ (ok status, w')
    → login env state body w' ≡ (ok pair, w'')
    → (r : LoggedIn env state body w' pair w'') × ((r.row.id == id) ≡ false)
set_active-no_login env state user id body w w' w'' status pair others e logged =
    let r = login-LoggedIn env state body w' logged in
    let kept = others.at w'.effects w'.db (set_active-Disabled env user id w w' status e) in
    (
      r,
      active-other id r.row
          (select_user-All (IsDisabled id) _ (env.others w'.effects w'.db) kept r.found) r.active,
    )
