-- ===== src/Api/Auth/Reset/Login.antt =====
-- Login after a password reset.
use mathlib.Core.Option
use rust_generic_user_backen.Base.{
  ℕ, String, ◌≡◌, sym, ◌∙◌, none, some, true, subst, List, find, All,
}
use rust_generic_user_backen.Base.Result.{ok}
use rust_generic_user_backen.Db.Schema.{Db, UserRow, OneTimeTokenRow}
use rust_generic_user_backen.Db.Consistent.{has_user}
use rust_generic_user_backen.Db.OneTimeTokens.{is_live}
use rust_generic_user_backen.Db.Users.{user_of}
use rust_generic_user_backen.Db.Users.Every.{select_user-All}
use rust_generic_user_backen.Env.{Env, clean}
use rust_generic_user_backen.App.{World}
use rust_generic_user_backen.App.Keeps.{OthersKeep}
use rust_generic_user_backen.App.Forward.{seen}
use rust_generic_user_backen.Api.State.{AppState}
use rust_generic_user_backen.Api.Auth.Tokens.{TokenPair, sha256_hex}
use rust_generic_user_backen.Api.Auth.Tokens.Issuable.{Issuable}
use rust_generic_user_backen.Api.Auth.Session.{login}
use rust_generic_user_backen.Api.Auth.Session.Credentials.{account}
use rust_generic_user_backen.Api.Auth.Session.Returns.{login-returns}
use rust_generic_user_backen.Api.Auth.Reset.{ResetPasswordReq, reset_password}
use rust_generic_user_backen.Api.Auth.Reset.Recovery.{HasPassword, owned, reset_password-Recovered}

module _ (env : Env) (state : AppState) (body : ResetPasswordReq) where
  -- The user of this token has this password hash.
  abbrev Replaced : OneTimeTokenRow → String → Db → Type 0
  Replaced token phc d = All (HasPassword token.user_id phc) d.users

  -- Who has reset the password can log in with the new one: after a reset that succeeded, a login
  -- with the new password and the e-mail address of the user of the token returns a pair, if a hash
  -- that argon2 makes of a password parses and matches that password, the query of the login is
  -- answered, the user is active, a pair can be issued, and the other requests neither change the
  -- password of the user nor delete the user.
  pub reset_password-login :
      (w w' : World) (code : ℕ) (token : OneTimeTokenRow) (row : UserRow) (name email : String)
      → ((plain salt phc : String)
          → env.argon2_hash plain salt ≡ ok phc
          → (env.phc_error phc ≡ none) × (env.argon2_matches plain phc ≡ true))
      → ((phc : String) → OthersKeep env (Replaced token phc))
      → OthersKeep env (λ d. has_user d row.id ≡ true)
      → find
          (is_live (sha256_hex env body.token) (env.db_now w.effects))
          (env.others w.effects w.db).password_reset_tokens
        ≡ some token
      → reset_password env body w ≡ (ok code, w')
      → env.fault w'.effects ≡ clean
      → account env email (env.others w'.effects w'.db) ≡ some (row, name)
      → row.id ≡ token.user_id
      → row.is_active ≡ true
      → Issuable env state row.id (user_of (row, name)).role (seen env w')
      → (pair : TokenPair) × (w'' : World) × (login env state
            (record { email = email; password = body.new_password })
            w'
          ≡ (ok pair, w''))
  reset_password-login w w' code token row name email argon2 others users live e answered found same
        active i =
      let r = reset_password-Recovered env body w e in
      let owner : r.token ≡ token = Option.some-injective _ _ (sym r.live ∙ live) in
      let (parses, matches) = argon2 body.new_password _ r.phc r.hashed in
      let first =
        (others r.phc).at r.stored.effects r.stored.db
          (subst (λ t. Replaced t r.phc r.stored.db) owner r.replaced) in
      let last : Replaced token r.phc w'.db =
        subst (λ (us : List UserRow). All (HasPassword token.user_id r.phc) us) (sym r.same_users)
          first in
      let replaced = (others r.phc).at w'.effects w'.db last in
      let stored = owned token.user_id r.phc row same (
        select_user-All (HasPassword token.user_id r.phc) _ (env.others w'.effects w'.db) replaced
          found) in
      login-returns env state _ w' row name r.phc users answered found stored parses matches active
        i
