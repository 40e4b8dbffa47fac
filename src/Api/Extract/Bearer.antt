-- ===== src/Api/Extract/Bearer.antt =====
-- The access token from the response that carries it to the request that shows it.
use rust_generic_user_backen.Base.{ℕ, ◌+◌, String, ◌≡◌, refl, ◌∙◌, some, true}
use rust_generic_user_backen.Base.Int.{pos, leb_ℤ}
use rust_generic_user_backen.Base.Result.{ok}
use rust_generic_user_backen.Base.Text.{◌<>◌, strip_prefix, strip_prefix-append, trim}
use rust_generic_user_backen.Core.Error.{unauthorized}
use rust_generic_user_backen.Core.Role.{Role, parse-as_str}
use rust_generic_user_backen.Core.User.{Uuid}
use rust_generic_user_backen.Auth.Types.{Claims}
use rust_generic_user_backen.Auth.Jwt.{issue, claims_at, verify, unix_timestamp}
use rust_generic_user_backen.Auth.Effects.{issue-eq-ok}
use rust_generic_user_backen.Env.{Env}
use rust_generic_user_backen.App.{World, now_utc, draw, lift, ok_or, pure, ◌>>=◌}
use rust_generic_user_backen.App.Inversion.{tick}
use rust_generic_user_backen.App.Forward.{bind-ok}
use rust_generic_user_backen.Api.State.{AppState}
use rust_generic_user_backen.Api.Extract.{readable, to_str, auth_user}

module _ (env : Env) (state : AppState) where
  -- The claims that `issue` encodes in this world.
  abbrev pub issued_claims : Uuid → Role → World → Claims
  issued_claims user_id role w =
      claims_at state.jwt user_id role (unix_timestamp (env.app_now w.effects))
        (env.uuid (w.effects + 1))

  verify-ok :
      (token : String) (v : World) {claims : Claims}
      → env.jwt_decode state.jwt.secret state.jwt.issuer
          (unix_timestamp (env.app_now v.effects))
          token
        ≡ ok claims
      → verify env state.jwt token v ≡ (ok claims, tick v)
  unfolding verify now_utc draw lift ◌>>=◌
  verify-ok token v e = rw e refl

  -- An access token that was issued authenticates its bearer as the user and the role that it was
  -- issued for, until it expires: if what the library encodes decodes to the same claims, for their
  -- issuer and until their expiry, and if the token has no blanks around it.
  pub issue-auth_user :
      (user_id : Uuid) (role : Role) (w w' v : World) (token : String) (now : ℕ)
      → ((secret token : String) (claims : Claims) (now : ℕ)
          → env.jwt_encode secret claims ≡ ok token
          → leb_ℤ (pos now) claims.exp ≡ true
          → env.jwt_decode secret claims.iss (pos now) token ≡ ok claims)
      → trim token ≡ token
      → issue env state.jwt user_id role w ≡ (ok token, w')
      → unix_timestamp (env.app_now v.effects) ≡ pos now
      → leb_ℤ (pos now) (issued_claims user_id role w).exp ≡ true
      → auth_user env state (some (readable ("Bearer " <> token))) v
        ≡ (ok (record { user_id = user_id; role = role }), tick v)
  unfolding auth_user claims_at pure ok_or
  issue-auth_user user_id role w w' v token now jwt clean issued clock early =
      let (encoded, _) = issue-eq-ok env state.jwt user_id role w issued in
      let decoded = jwt state.jwt.secret token (issued_claims user_id role w) now encoded early in
      bind-ok (ok_or (to_str (some (readable ("Bearer " <> token)))) unauthorized) _ v refl
      ∙ bind-ok (ok_or (strip_prefix "Bearer " ("Bearer " <> token)) unauthorized) _ v {a = token}
          {v = v} (rw (strip_prefix-append "Bearer " token) refl)
      ∙ bind-ok (verify env state.jwt (trim token)) _ v {a = issued_claims user_id role w}
          {v = tick v} (verify-ok (trim token) v (rw (clean, clock) decoded))
      ∙ rw (parse-as_str role) refl
