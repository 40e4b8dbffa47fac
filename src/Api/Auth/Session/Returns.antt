-- ===== src/Api/Auth/Session/Returns.antt =====
-- When a login and a refresh return a pair.
use rust_generic_user_backen.Base.{
  Bool, String, ◌≡◌, refl, ap, ◌∙◌, inl, inr, Option-cases, Bool-cases, none, some, true, false,
  not, List, [], ◌∷◌, ◌==◌, ◌&&◌, arith, any, find, is_some,
}
use rust_generic_user_backen.Base.Result.{ok}
use rust_generic_user_backen.Core.Error.{auth, forbidden}
use rust_generic_user_backen.Auth.Password.{verify_password}
use rust_generic_user_backen.Db.Schema.{UserRow, Db}
use rust_generic_user_backen.Db.Consistent.{has_user}
use rust_generic_user_backen.Db.Users.{
  find_by_email, select_by_email, select_user, secret_of, user_of, role_name,
}
use rust_generic_user_backen.Env.{Env, clean}
use rust_generic_user_backen.App.{World, lift, ◌>>=◌, ok_or, raise_if}
use rust_generic_user_backen.App.Keeps.{OthersKeep}
use rust_generic_user_backen.App.Forward.{seen, bind-ok, read-clean}
use rust_generic_user_backen.Api.State.{AppState}
use rust_generic_user_backen.Api.Auth.Tokens.{TokenPair, issue_tokens}
use rust_generic_user_backen.Api.Auth.Tokens.Issuable.{Issuable, issue_tokens-returns}
use rust_generic_user_backen.Api.Auth.Session.{LoginReq, login}
use rust_generic_user_backen.Api.Auth.Session.Credentials.{account}

any-of_id :
    (p : UserRow → Bool) (users : List UserRow) {u : UserRow}
    → find p users ≡ some u
    → any (λ (v : UserRow). v.id == u.id) users ≡ true
any-of_id p [] h = cc
any-of_id p (v ∷ users) {u} h = elim (Bool-cases (p v)) [
  | inl t ↦ ground (arith, t)
  | inr f ↦ ground (arith, f, any-of_id p users {u = u})
]

-- The user that a query finds is in the table.
pub select_user-has_user :
    (p : UserRow → Bool) (d : Db) {row : UserRow} {name : String}
    → select_user p d ≡ some (row, name)
    → has_user d row.id ≡ true
unfolding select_user
select_user-has_user p d {row} {name} h =
    elim (Option-cases (find (λ u. p u && is_some (role_name d u.role_id)) d.users)) [
      | inl missing ↦ ground (arith, missing)
      | inr (u, e) ↦ elim (Option-cases (role_name d u.role_id)) [
        | inl nameless ↦ ground (arith, e, nameless)
        | inr (n, named) ↦
            ground
              (arith, e, named, any-of_id (λ u. p u && is_some (role_name d u.role_id)) d.users e)
      ]
    ]

module _ (env : Env) (state : AppState) (body : LoginReq) where
  matched :
      (phc : String)
      → env.phc_error phc ≡ none
      → env.argon2_matches body.password phc ≡ true
      → verify_password env body.password phc ≡ ok true
  unfolding verify_password
  matched phc parses matches = ground (arith, parses, matches)

  -- The checks of a login let the account through.
  accepts :
      (row : UserRow) (name phc : String) (w : World) {pair : TokenPair} {w' : World}
      → row.password_hash ≡ some phc
      → verify_password env body.password phc ≡ ok true
      → row.is_active ≡ true
      → issue_tokens env state row.id (user_of (row, name)).role none w ≡ (ok pair, w')
      → (ok_or (some (secret_of (row, name))) (auth "Invalid email or password") >>= λ row.
            ok_or row.password_hash (auth "password login disabled") >>= λ phc.
            lift (verify_password env body.password phc) >>= λ verified.
            raise_if (not verified) (auth "Invalid email or password") >>= λ _.
            raise_if (not row.user.is_active) forbidden >>= λ _.
            issue_tokens env state row.user.id row.user.role none)
          w
        ≡ (ok pair, w')
  unfolding secret_of user_of ok_or lift raise_if
  accepts row name phc w stored verified active issued =
      bind-ok (ok_or (some (secret_of (row, name))) (auth "Invalid email or password")) _ w refl
      ∙ bind-ok (ok_or row.password_hash (auth "password login disabled")) _ w {a = phc}
          (rw stored refl)
      ∙ bind-ok (lift (verify_password env body.password phc)) _ w (ap (λ r. (r, w)) verified)
      ∙ bind-ok (raise_if false (auth "Invalid email or password")) _ w refl
      ∙ bind-ok (raise_if (not row.is_active) forbidden) _ w {a = tt} (rw active refl)
      ∙ issued

  -- A login returns a pair when the statements are answered, an account has the e-mail address, its
  -- password hash parses and matches the password, it is active, and a pair can be issued for it
  -- with the role that it has, if the other requests do not delete the user.
  pub login-returns :
      (w : World) (row : UserRow) (name phc : String)
      → OthersKeep env (λ d. has_user d row.id ≡ true)
      → env.fault w.effects ≡ clean
      → account env body.email (env.others w.effects w.db) ≡ some (row, name)
      → row.password_hash ≡ some phc
      → env.phc_error phc ≡ none
      → env.argon2_matches body.password phc ≡ true
      → row.is_active ≡ true
      → Issuable env state row.id (user_of (row, name)).role (seen env w)
      → (pair : TokenPair) × (w' : World) × (login env state body w ≡ (ok pair, w'))
  unfolding login find_by_email select_by_email
  login-returns w row name phc others answered found stored parses matches active i =
      let there = others.at _ _ (select_user-has_user _ (env.others w.effects w.db) found) in
      let (pair, w', issued) = issue_tokens-returns env state row.id _ none (seen env w) i there in
      (
        pair,
        w',
        bind-ok _ _ w (read-clean env _ _ (λ now fresh d. refl) w answered)
            ∙ rw found (
                accepts row name phc (seen env w) stored (matched phc parses matches) active
                  issued),
      )
