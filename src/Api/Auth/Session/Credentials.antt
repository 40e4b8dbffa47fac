-- ===== src/Api/Auth/Session/Credentials.antt =====
-- Who a login lets in, and what it tells those that it does not.
use mathlib.Core.Option
use rust_generic_user_backen.Base.{
  String, ◌≡◌, refl, ap, ◌∙◌, inl, inr, Option, Option-cases, none, some, true, false, not, arith,
}
use rust_generic_user_backen.Base.Result.{ok, err}
use rust_generic_user_backen.Core.Error.{auth, forbidden}
use rust_generic_user_backen.Auth.Password.{verify_password}
use rust_generic_user_backen.Db.Schema.{UserRow, Db}
use rust_generic_user_backen.Db.Users.{
  find_by_email, select_by_email, select_user, secret_of, user_of, same_email,
}
use rust_generic_user_backen.Env.{Env, clean}
use rust_generic_user_backen.App.{World, lift, ◌>>=◌, ok_or, raise_if}
use rust_generic_user_backen.App.Forward.{seen, bind-ok, bind-err, read-clean}
use rust_generic_user_backen.App.Inversion.{
  after_seen, after_ok_or, after_ok_or_map, after_lift, after_raise_if,
}
use rust_generic_user_backen.Api.State.{AppState}
use rust_generic_user_backen.Api.Auth.Tokens.{TokenPair, issue_tokens}
use rust_generic_user_backen.Api.Auth.Tokens.Issued.{Issued, issue_tokens-Issued}
use rust_generic_user_backen.Api.Auth.Session.{LoginReq, login}

module _ (env : Env) where
  -- The account with this e-mail address, with the name of its role.
  abbrev pub account : String → Db → Option (UserRow × String)
  account email d = select_user (λ u. same_email env u.email (some email)) d

  verified-matches :
      (plain phc : String)
      → verify_password env plain phc ≡ ok true
      → (env.phc_error phc ≡ none) × (env.argon2_matches plain phc ≡ true)
  unfolding verify_password
  verified-matches plain phc h = elim (Option-cases (env.phc_error phc)) [
    | inl e ↦ (e, ground (arith, e, h))
    | inr (x, e) ↦ ground (arith, e, h)
  ]

  mismatched :
      (plain phc : String)
      → env.phc_error phc ≡ none
      → env.argon2_matches plain phc ≡ false
      → verify_password env plain phc ≡ ok false
  unfolding verify_password
  mismatched plain phc parses wrong = ground (arith, parses, wrong)

module _ (env : Env) (state : AppState) (body : LoginReq) where
  -- What a login that returned has seen and done.
  pub record LoggedIn (w : World) (pair : TokenPair) (w' : World) : Type 0 where
    pub row : UserRow
    pub name : String
    pub found : account env body.email (env.others w.effects w.db) ≡ some (row, name)
    pub phc : String
    pub stored : row.password_hash ≡ some phc
    pub matches : (env.phc_error phc ≡ none) × (env.argon2_matches body.password phc ≡ true)
    pub active : row.is_active ≡ true
    pub issued : Issued env state row.id (user_of (row, name)).role (seen env w) pair w'

  -- A login that returns a pair found an account with the e-mail address whose password hash
  -- parses and matches the password, and which is active. The pair is for that user, with the role
  -- that it has in the tables.
  pub login-LoggedIn :
      (w : World) {w' : World} {pair : TokenPair}
      → login env state body w ≡ (ok pair, w')
      → LoggedIn w pair w'
  unfolding login find_by_email select_by_email secret_of user_of
  login-LoggedIn w e =
      after_seen env w _ _ (λ now fresh d. refl) _ e
        λ r1. after_ok_or_map (secret_of) _ _ _ r1 λ found same r2.
          after_ok_or _ _ _ r2 λ phc stored r3. after_lift _ _ r3 λ verified matched r4.
            let (accepted, r5) = after_raise_if _ _ _ r4 in
            let (active, r6) = after_raise_if _ _ _ r5 in
            let yes : verified ≡ true = ground (arith, accepted) in
            record {
              row = found.0;
              name = found.1;
              found = same;
              phc = phc;
              stored = stored;
              matches = verified-matches env body.password phc (rw (← yes) matched);
              active = ground (arith, active);
              issued = issue_tokens-Issued env state _ _ none r6;
            }

  -- What there is to refuse about an account: there is none with the address, or the password
  -- does not match its password hash.
  unfoldable pub Mismatch : Option (UserRow × String) → Type 0
  Mismatch none = Unit
  Mismatch (some (row, name)) =
      (phc : String) × (row.password_hash ≡ some phc)
      × (env.phc_error phc ≡ none)
      × (env.argon2_matches body.password phc ≡ false)

  Mismatch-refused :
      (found : Option (UserRow × String)) (w : World)
      → Mismatch found
      → (ok_or (Option.map secret_of found) (auth "Invalid email or password") >>= λ row.
            ok_or row.password_hash (auth "password login disabled") >>= λ phc.
            lift (verify_password env body.password phc) >>= λ verified.
            raise_if (not verified) (auth "Invalid email or password") >>= λ _.
            raise_if (not row.user.is_active) forbidden >>= λ _.
            issue_tokens env state row.user.id row.user.role none)
          w
        ≡ (err (auth "Invalid email or password"), w)
  unfolding Mismatch secret_of ok_or lift raise_if
  Mismatch-refused none w h = bind-err _ _ w refl
  Mismatch-refused (some (row, name)) w (phc, stored, parses, wrong) =
      bind-ok (ok_or (some (secret_of (row, name))) (auth "Invalid email or password")) _ w refl
      ∙ bind-ok (ok_or row.password_hash (auth "password login disabled")) _ w {a = phc}
          (rw stored refl)
      ∙ bind-ok (lift (verify_password env body.password phc)) _ w
          (ap (λ r. (r, w)) (mismatched env body.password phc parses wrong))
      ∙ bind-err (raise_if true (auth "Invalid email or password")) _ w refl

  -- A login does not tell whether the e-mail address or the password is wrong: with no account
  -- for the address, and with an account whose password hash does not match the password, the
  -- answer is the same error, and no table is changed, if the query on `users` is answered.
  pub login-uniform :
      (w : World)
      → env.fault w.effects ≡ clean
      → Mismatch (account env body.email (env.others w.effects w.db))
      → login env state body w ≡ (err (auth "Invalid email or password"), seen env w)
  unfolding login find_by_email select_by_email
  login-uniform w answered h =
      bind-ok _ _ w (read-clean env _ _ (λ now fresh d. refl) w answered) ∙ Mismatch-refused _ _ h
