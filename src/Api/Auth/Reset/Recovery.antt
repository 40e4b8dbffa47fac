-- ===== src/Api/Auth/Reset/Recovery.antt =====
-- What a password reset that returned has seen and done.
use mathlib.Core.Option
use rust_generic_user_backen.Base.{
  ℕ, ◌+◌, String, ◌≡◌, ◌⊎◌, refl, sym, ap, ◌∙◌, some, Bool, true, false, not, ◌&&◌, List, [], ◌∷◌,
  arith, is_some, any, find, update, All, Bool-cases, inl, inr, ◌==◌,
}
use rust_generic_user_backen.Base.Result
use rust_generic_user_backen.Base.Result.{Result, ok, err}
use rust_generic_user_backen.Core.Error.{from_validation_errors}
use rust_generic_user_backen.Core.User.{Uuid, OffsetDateTime}
use rust_generic_user_backen.Auth.Effects.{after_hash_password}
use rust_generic_user_backen.Db.Schema.{OneTimeTokenRow, RefreshTokenRow, UserRow, Db}
use rust_generic_user_backen.Db.OneTimeTokens.{
  is_live, use_token, use_reset, consume_password_reset_token,
}
use rust_generic_user_backen.Db.RefreshTokens.{revoke_all_refresh_tokens, update_all_revoked}
use rust_generic_user_backen.Db.Users.{update_password_hash, update_password}
use rust_generic_user_backen.Db.Users.Every.{All-of_update}
use rust_generic_user_backen.Env.{Env}
use rust_generic_user_backen.App.{World}
use rust_generic_user_backen.App.Inversion.{
  after_any, after_query, after_ok_or, after_lift, ok-injective, pure-eq-ok, Ran, tick,
}
use rust_generic_user_backen.Api.Validate.{check_reset}
use rust_generic_user_backen.Api.Auth.Tokens.{sha256_hex}
use rust_generic_user_backen.Api.Auth.Reset.{
  ResetPasswordReq, app_port, perform_password_reset, reset_password,
}

-- The user has another id, or it has this password hash.
pub HasPassword : Uuid → String → UserRow → Type 0
HasPassword id phc u = ((u.id == id) ≡ false) ⊎ (u.password_hash ≡ some phc)

pub owned :
    (id : Uuid) (phc : String) (row : UserRow)
    → row.id ≡ id
    → HasPassword id phc row
    → row.password_hash ≡ some phc
unfolding HasPassword
owned id phc row same (inl other) = ground (arith, same, other)
owned id phc row same (inr stored) = stored

abbrev pub is_session : Uuid → RefreshTokenRow → Bool
is_session id t = t.user_id == id && not (is_some t.revoked_at)

All-HasPassword :
    (id : Uuid) (phc : String) (now : OffsetDateTime) (users : List UserRow)
    → All (HasPassword id phc) (
        update
          (λ u. u.id == id)
          (λ u. record u { password_hash = some phc; updated_at = now })
          users)
unfolding HasPassword
All-HasPassword id phc now users =
    All-of_update (HasPassword id phc) (λ u. u.id == id)
      (λ u. record u { password_hash = some phc; updated_at = now }) (λ u t. inr refl)
      (λ u other. inl other) users

no_session :
    (id : Uuid) (now : OffsetDateTime) (rows : List RefreshTokenRow)
    → any (is_session id) (update (is_session id) (λ t. record t { revoked_at = some now }) rows)
      ≡ false
no_session id now [] = refl
no_session id now (t ∷ rows) = ground (arith, no_session id now rows)

accepted :
    (env : Env) (password : String) {checked : Unit}
    → Result.map_err from_validation_errors (check_reset env password) ≡ ok checked
    → env.valid_min_length 8 password ≡ true
unfolding check_reset
accepted env password h = elim (Bool-cases (env.valid_min_length 8 password)) [
  | inl t ↦ t
  | inr f ↦ ground (arith, f, h)
]

module _ (env : Env) (body : ResetPasswordReq) where
  -- The effects of a password reset that returned, one after the other.
  pub record Trace (w w' : World) : Type 0 where
    pub long_enough : env.valid_min_length 8 body.new_password ≡ true
    pub user_id : Uuid
    pub v1 : World
    pub consuming : Ran env (use_reset (sha256_hex env body.token)) w (some user_id) v1
    pub phc : String
    pub hashed : env.argon2_hash body.new_password (env.salt (w.effects + 1)) ≡ ok phc
    pub v2 : World
    pub updating : Ran env (update_password user_id phc) (tick v1) tt v2
    pub revoking : Ran env (update_all_revoked user_id) v2 tt w'

  pub reset_password-Trace :
      (w : World) {w' : World} {code : ℕ} → reset_password env body w ≡ (ok code, w') → Trace w w'
  unfolding reset_password perform_password_reset app_port consume_password_reset_token
      update_password_hash revoke_all_refresh_tokens
  reset_password-Trace w e =
      after_any (perform_password_reset env (app_port env) body) _ e λ done v0 e0 r0.
        after_lift _ _ e0 λ checked c r1. after_query env _ _ r1 λ consumed v1 ran1 r2.
          after_ok_or _ _ _ r2 λ user_id same r3.
            after_hash_password env body.new_password _ r3 λ phc hashed r4.
              after_query env _ _ r4 λ _ v2 ran2 r5. after_query env _ _ r5 λ _ v3 ran3 r6.
                let last = (pure-eq-ok r6).1 ∙ (pure-eq-ok r0).1 in
                record {
                  long_enough = accepted env body.new_password c;
                  user_id = user_id;
                  v1 = v1;
                  consuming = rw (← same) ran1;
                  phc = phc;
                  hashed = rw (← ran1.counted) hashed;
                  v2 = v2;
                  updating = ran2;
                  revoking = rw (← last) ran3;
                }

  -- What the tables say of a password reset that returned, of the row of its token, the hash of
  -- the new password and the world in which that hash was stored.
  pub record Recovered (w w' : World) : Type 0 where
    pub long_enough : env.valid_min_length 8 body.new_password ≡ true
    pub token : OneTimeTokenRow
    pub live :
        find
          (is_live (sha256_hex env body.token) (env.db_now w.effects))
          (env.others w.effects w.db).password_reset_tokens
        ≡ some token
    pub phc : String
    pub hashed : env.argon2_hash body.new_password (env.salt (w.effects + 1)) ≡ ok phc
    pub stored : World
    pub counted : stored.effects ≡ w.effects + 3
    pub replaced : All (HasPassword token.user_id phc) stored.db.users
    pub same_users : w'.db.users ≡ (env.others stored.effects stored.db).users
    pub signed_out : any (is_session token.user_id) w'.db.refresh_tokens ≡ false

  -- A password reset that succeeds was given a new password of the length asked for and a token
  -- whose hash is stored, unused and not expired. It stores the hash of the new password for the
  -- user of that token, and at its end that user has no refresh token that is not revoked, also
  -- when other requests run in between.
  pub reset_password-Recovered :
      (w : World) {w' : World} {code : ℕ}
      → reset_password env body w ≡ (ok code, w')
      → Recovered w w'
  unfolding use_reset use_token update_password update_all_revoked
  reset_password-Recovered w e =
      let t = reset_password-Trace w e in
      let consumed = ok-injective (ap (λ p. p.0) t.consuming.outcome) in
      let (token, live, owner) = (Option.map-eq-some_iff _ _).0 consumed in
      let revoked = ap (λ p. p.1) t.revoking.outcome in
      record {
        long_enough = t.long_enough;
        token = token;
        live = live;
        phc = t.phc;
        hashed = t.hashed;
        stored = t.v2;
        counted = omega (arith, t.consuming.counted, t.updating.counted);
        replaced =
            rw (owner, ← ap (λ p. p.1.users) t.updating.outcome)
              (All-HasPassword t.user_id t.phc _
                (env.others (tick t.v1).effects (tick t.v1).db).users);
        same_users = sym (ap (λ d. d.users) revoked);
        signed_out =
            rw (owner, ← ap (λ (d : Db). d.refresh_tokens) revoked)
              (no_session t.user_id _ (env.others t.v2.effects t.v2.db).refresh_tokens);
      }
