-- ===== src/Api/Router/Logout.antt =====
-- A logout and the requests that follow it.
use rust_generic_user_backen.Base.{ℕ, String, ◌≡◌, ap, subst, List}
use rust_generic_user_backen.Base.Result.{ok}
use rust_generic_user_backen.Auth.Tokens.{hash_refresh_token}
use rust_generic_user_backen.Db.RefreshTokens.{update_revoked, revoke_refresh_token}
use rust_generic_user_backen.Db.RefreshTokens.Spent.{
  IsSpent, update_revoked-IsSpent, IsSpent-KeptByProgram,
}
use rust_generic_user_backen.Env.{Env}
use rust_generic_user_backen.App.{World}
use rust_generic_user_backen.App.Inversion.{after_query, pure-eq-ok, Ran}
use rust_generic_user_backen.App.Keeps.{OthersKeep}
use rust_generic_user_backen.Api.State.{AppState}
use rust_generic_user_backen.Api.Auth.Tokens.{TokenPair}
use rust_generic_user_backen.Api.Auth.Session.{refresh, logout}
use rust_generic_user_backen.Api.Router.{Request, serve_all}
use rust_generic_user_backen.Api.Router.Keeps.{serve_all-keeps}
use rust_generic_user_backen.Api.Router.SingleUse.{IsStored, refresh-refused}

module _ (env : Env) (state : AppState) where
  logout-Ran :
      (token : String) (w w' : World) {code : ℕ}
      → logout env state token w ≡ (ok code, w')
      → Ran env (update_revoked (hash_refresh_token env token)) w tt w'
  unfolding logout revoke_refresh_token
  logout-Ran token w w' e = after_query env _ _ e λ _ v ran r. rw (← (pure-eq-ok r).1) ran

  -- After a logout that succeeded with a stored refresh token, and after any further requests to
  -- any routes, a refresh with that token returns no pair, if the other requests keep a stored hash
  -- stored and a spent hash spent.
  pub logout-ends_session :
      (token : String) (w w' : World) (code : ℕ) (pair : TokenPair) (rs : List Request)
      → OthersKeep env (IsStored (hash_refresh_token env token))
      → OthersKeep env (IsSpent (hash_refresh_token env token))
      → IsStored (hash_refresh_token env token) w.db
      → logout env state token w ≡ (ok code, w')
      → ¬ ((refresh env state token (serve_all env state rs w')).0 ≡ ok pair)
  logout-ends_session token w w' code pair rs stored others there e =
      let hash = hash_refresh_token env token in
      let ran = logout-Ran token w w' e in
      let revoked = update_revoked-IsSpent hash _ _ _ (stored.at w.effects w.db there) in
      refresh-refused env state token _ pair others (
        serve_all-keeps env others (IsSpent-KeptByProgram env hash) state rs w'
          (subst (IsSpent hash) (ap (λ p. p.1) ran.outcome) revoked))
