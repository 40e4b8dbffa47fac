-- ===== src/Api/Auth/Reset/Mailed.antt =====
-- Whom `forgot_password` mails.
use mathlib.Core.Option
use rust_generic_user_backen.Base.{
  ℕ, String, ◌≡◌, ◌⊎◌, refl, ap, ◌∙◌, Bool, Option, none, some, true, false, is_some, any, str_eq,
  eq_iff, [], ◌∷◌, ◌++◌, arith, inl, inr,
}
use rust_generic_user_backen.Base.Int.{ℤ, pos}
use rust_generic_user_backen.Base.Text.{◌<>◌}
use rust_generic_user_backen.Base.Result.{Result, ok, err}
use rust_generic_user_backen.Core.Error.{AppError}
use rust_generic_user_backen.Core.User.{Uuid, OffsetDateTime}
use rust_generic_user_backen.Db.Schema.{UserRow, OneTimeTokenRow, Db}
use rust_generic_user_backen.Db.Users.{UserWithSecret, find_by_email, select_by_email, secret_of}
use rust_generic_user_backen.Db.OneTimeTokens.{
  insert_token, insert_reset, store_password_reset_token,
}
use rust_generic_user_backen.Env.{Env}
use rust_generic_user_backen.App.{World, Mail, attempt, pure, spawn, now_utc, ◌>>=◌, ◌>>◌}
use rust_generic_user_backen.App.Quiet.{Quiet, quiet_rules}
use rust_generic_user_backen.App.Inversion.{
  after_any, after_query, after_read, pure-eq-ok, with_state,
}
use rust_generic_user_backen.Api.State.{AppState}
use rust_generic_user_backen.Api.Email.{password_reset_mail}
use rust_generic_user_backen.Api.Auth.Tokens.{generate_verification_token, sha256_hex}
use rust_generic_user_backen.Api.Auth.Session.Credentials.{account}
use rust_generic_user_backen.Api.Auth.Reset.{
  app_port, forgot_password, request_for, request_password_reset, mail_reset,
}

insert_reset-stored :
    (env : Env) (user_id : Uuid) (hash : String) (expires_at now : OffsetDateTime) (fresh : Uuid)
    (d d' : Db)
    → insert_reset user_id hash expires_at now fresh d ≡ (ok tt, d')
    → any (λ (t : OneTimeTokenRow). str_eq t.token_hash hash) d'.password_reset_tokens ≡ true
unfolding insert_reset insert_token
insert_reset-stored env user_id hash expires_at now fresh d d' h =
    ground (arith, h, eq_iff hash hash)

module _ (env : Env) where
  generate-Quiet : {E : Type 0} → Quiet (generate_verification_token env {E = E})
  unfolding generate_verification_token
  generate-Quiet = search quiet_rules

  find-Quiet : (email : String) → Quiet (find_by_email env email)
  unfolding find_by_email
  find-Quiet email = search quiet_rules

  store-Quiet :
      (user_id : Uuid) (hash : String) (expires_at : OffsetDateTime)
      → Quiet (store_password_reset_token env user_id hash expires_at)
  unfolding store_password_reset_token
  store-Quiet user_id hash expires_at = search quiet_rules

  request_for-Quiet :
      (ttl : ℤ) (found : Option (Uuid × Bool)) → Quiet (request_for env (app_port env) ttl found)
  unfolding request_for app_port
  request_for-Quiet ttl none = search quiet_rules
  request_for-Quiet ttl (some (id, has)) =
      search (quiet_rules, generate-Quiet, store-Quiet) depth 20

  requested-stored :
      (ttl : ℤ) (id : Uuid) (w : World) {w' : World} {token : String}
      → request_for env (app_port env) ttl (some (id, true)) w ≡ (ok (some token), w')
      → any
          (λ (t : OneTimeTokenRow). str_eq t.token_hash (sha256_hex env token))
          w'.db.password_reset_tokens
        ≡ true
  unfolding request_for app_port store_password_reset_token
  requested-stored ttl id w h = after_any (generate_verification_token env) _ h λ t v e1 r1.
      after_any (now_utc env) _ r1 λ now v2 e2 r2. after_query env _ _ r2 λ _ v3 ran r3.
        let (same, last) = pure-eq-ok r3 in
        let same_token = Option.some-injective t _ same in
        rw (← last, ← same_token) (insert_reset-stored env id _ _ _ _ _ _ ran.outcome)

  -- A token comes only for an account with a password, and its hash is stored.
  request_for-some :
      (ttl : ℤ) (found : Option (Uuid × Bool)) (w : World) {w' : World} {token : String}
      → request_for env (app_port env) ttl found w ≡ (ok (some token), w')
      → (id : Uuid) × (found ≡ some (id, true))
        × (any
              (λ (t : OneTimeTokenRow). str_eq t.token_hash (sha256_hex env token))
              w'.db.password_reset_tokens
            ≡ true)
  unfolding request_for pure
  request_for-some ttl none w h = cc
  request_for-some ttl (some (id, false)) w h = cc
  request_for-some ttl (some (id, true)) w h = (id, refl, requested-stored ttl id w h)

module _ (env : Env) (state : AppState) (email : String) where
  request-Quiet : (ttl : ℤ) → Quiet (request_password_reset env (app_port env) email ttl)
  unfolding request_password_reset app_port
  request-Quiet ttl = search (quiet_rules, find-Quiet, request_for-Quiet) depth 12

  -- The account that a token was made for.
  pub record Requested (w : World) (token : String) (after : Db) : Type 0 where
    pub row : UserRow
    pub name : String
    pub found : account env email (env.others w.effects w.db) ≡ some (row, name)
    pub has_password : is_some row.password_hash ≡ true
    pub stored :
        any
          (λ (t : OneTimeTokenRow). str_eq t.token_hash (sha256_hex env token))
          after.password_reset_tokens
        ≡ true

  of_account :
      (w : World) (token : String) (after : Db) (found : Option (UserRow × String)) (id : Uuid)
      → account env email (env.others w.effects w.db) ≡ found
      → Option.map {B = Uuid × Bool}
          (λ (row : UserWithSecret). (row.user.id, is_some row.password_hash))
          (Option.map secret_of found)
        ≡ some (id, true)
      → any
          (λ (t : OneTimeTokenRow). str_eq t.token_hash (sha256_hex env token))
          after.password_reset_tokens
        ≡ true
      → Requested w token after
  unfolding secret_of
  of_account w token after none id a h stored = cc
  of_account w token after (some (row, name)) id a h stored = record {
    row = row;
    name = name;
    found = a;
    has_password = cc;
    stored = stored;
  }

  request-Requested :
      (ttl : ℤ) (w : World) {w' : World} {token : String}
      → request_password_reset env (app_port env) email ttl w ≡ (ok (some token), w')
      → Requested w token w'.db
  unfolding request_password_reset app_port request_for find_by_email select_by_email
  request-Requested ttl w e = after_any _ _ e λ found v e1 r1.
      let (id, same, stored) = request_for-some env ttl found v r1 in
      after_read env w _ _ (λ now fresh d. refl) _ e1
        λ u seen counted r2. of_account w _ _ _ id refl ((pure-eq-ok r2).0 ∙ same) stored

  -- The mail with the link of a token.
  abbrev pub link : String → Mail
  link token =
      password_reset_mail email
        (state.settings.http.public_url <> "/reset-password?token=" <> token)

  finish :
      (r : Result AppError (Option String)) (v w' : World) (status : ℕ)
      → (mail_reset env state email r >> pure 204) v ≡ (ok status, w')
      → (w'.spawned ≡ v.spawned)
        ⊎ ((token : String) × (r ≡ ok (some token))
            × (w'.db ≡ v.db)
            × (w'.spawned ≡ v.spawned ++ link token ∷ []))
  unfolding mail_reset spawn pure ◌>>=◌ password_reset_mail
  finish (ok (some token)) v w' status e = inr (token, refl, cc, cc)
  finish (ok none) v w' status e = inl cc
  finish (err x) v w' status e = inl cc

  -- A request for a password reset spawns no mail at all, or one: to the address of the request,
  -- with the link of a token whose hash is stored, and only when the account with that address has a
  -- password.
  pub forgot_password-mails :
      (w w' : World) (status : ℕ)
      → forgot_password env state email w ≡ (ok status, w')
      → (w'.spawned ≡ w.spawned)
        ⊎ ((token : String) × Requested w token w'.db × (w'.spawned ≡ w.spawned ++ link token ∷ []))
  unfolding forgot_password attempt ◌>>=◌
  forgot_password-mails w w' status e =
      let m = request_password_reset env (app_port env) email (pos 1) in
      let quiet = (request-Quiet (pos 1)).at w in
      elim (finish (m w).0 (m w).1 w' status e) [
        | inl same ↦ inl (same ∙ quiet)
        | inr (token, answered, tables, mailed) ↦ inr (
          token,
          rw tables (request-Requested (pos 1) w (with_state m w answered)),
          mailed ∙ ap (λ mails. mails ++ link token ∷ []) quiet,
        )
      ]
