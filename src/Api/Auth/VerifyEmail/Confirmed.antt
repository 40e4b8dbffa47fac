-- ===== src/Api/Auth/VerifyEmail/Confirmed.antt =====
-- What an e-mail verification that returned has seen and done.
use mathlib.Core.Option
use rust_generic_user_backen.Base.{
  ℕ, String, ◌≡◌, ◌⊎◌, Bool-cases, inl, inr, false, ap, some, true, List, [], ◌∷◌, arith, find,
  update, All, ◌==◌,
}
use rust_generic_user_backen.Base.Result.{ok}
use rust_generic_user_backen.Core.User.{Uuid, OffsetDateTime}
use rust_generic_user_backen.Db.Schema.{OneTimeTokenRow, UserRow}
use rust_generic_user_backen.Db.OneTimeTokens.{
  is_live, use_token, use_verification, consume_email_verification_token,
}
use rust_generic_user_backen.Db.Users.{mark_email_verified, update_email_verified}
use rust_generic_user_backen.Env.{Env}
use rust_generic_user_backen.App.{World}
use rust_generic_user_backen.App.Inversion.{after_query, after_ok_or, ok-injective, pure-eq-ok, Ran}
use rust_generic_user_backen.Api.Auth.Tokens.{sha256_hex}
use rust_generic_user_backen.Api.Auth.VerifyEmail.{verify_email}

-- The user has another id, or its e-mail address is verified.
pub IsVerified : Uuid → UserRow → Type 0
IsVerified id u = ((u.id == id) ≡ false) ⊎ (u.email_verified ≡ true)

All-IsVerified :
    (id : Uuid) (now : OffsetDateTime) (users : List UserRow)
    → All
        (IsVerified id)
        (update (λ u. u.id == id) (λ u. record u { email_verified = true; updated_at = now }) users)
unfolding IsVerified
All-IsVerified id now [] = tt
All-IsVerified id now (u ∷ users) = (
  elim (Bool-cases (u.id == id)) [
    | inl t ↦ inr (ground (arith, t))
    | inr f ↦ inl (ground (arith, f))
  ],
  All-IsVerified id now users,
)

module _ (env : Env) (token : String) where
  -- The effects of a verification that returned, one after the other.
  pub record Trace (w w' : World) : Type 0 where
    pub user_id : Uuid
    pub v1 : World
    pub consuming : Ran env (use_verification (sha256_hex env token)) w (some user_id) v1
    pub marking : Ran env (update_email_verified user_id) v1 tt w'

  pub verify_email-Trace :
      (w : World) {w' : World} {code : ℕ} → verify_email env token w ≡ (ok code, w') → Trace w w'
  unfolding verify_email consume_email_verification_token mark_email_verified
  verify_email-Trace w e = after_query env _ _ e λ consumed v1 ran1 r1.
      after_ok_or _ _ _ r1 λ user_id same r2. after_query env _ _ r2 λ _ v2 ran2 r3. record {
        user_id = user_id;
        v1 = v1;
        consuming = rw (← same) ran1;
        marking = rw (← (pure-eq-ok r3).1) ran2;
      }

  -- What the tables say of a verification that returned.
  pub record Confirmed (w w' : World) : Type 0 where
    pub row : OneTimeTokenRow
    pub live :
        find
          (is_live (sha256_hex env token) (env.db_now w.effects))
          (env.others w.effects w.db).email_verification_tokens
        ≡ some row
    pub verified : All (IsVerified row.user_id) w'.db.users

  -- A verification that succeeds was given a token whose hash is stored, unused and not expired,
  -- and in the end the e-mail address of the user of that token is marked as verified.
  pub verify_email-Confirmed :
      (w : World) {w' : World} {code : ℕ}
      → verify_email env token w ≡ (ok code, w')
      → Confirmed w w'
  unfolding use_verification use_token update_email_verified
  verify_email-Confirmed w e =
      let t = verify_email-Trace w e in
      let (row, live, owner) =
        (Option.map-eq-some_iff _ _).0 (ok-injective (ap (λ p. p.0) t.consuming.outcome)) in
      record {
        row = row;
        live = live;
        verified =
            rw (owner, ← ap (λ p. p.1.users) t.marking.outcome)
              (All-IsVerified t.user_id _ (env.others t.v1.effects t.v1.db).users);
      }
