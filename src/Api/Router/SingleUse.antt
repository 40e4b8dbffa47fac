-- ===== src/Api/Router/SingleUse.antt =====
-- A refresh token across several requests.
use rust_generic_user_backen.App.Keeps.{Ran-keeps, run-keeps}
use rust_generic_user_backen.Db.Program.{select_by_id_keeps}
use rust_generic_user_backen.Base.{
  String, ◌≡◌, sym, ap, subst, true, false, some, List, [], ◌∷◌, arith, any, find, any-of_find,
  Bool-cases, inl, inr, is_some,
}
use rust_generic_user_backen.Base.Result.{ok}
use rust_generic_user_backen.Auth.Tokens.{hash_refresh_token}
use rust_generic_user_backen.Db.Schema.{Db, RefreshTokenRow}
use rust_generic_user_backen.Db.RefreshTokens.{has_hash}
use rust_generic_user_backen.Db.RefreshTokens.Spent.{
  is_open, IsSpent, update_revoked-IsSpent, IsSpent-KeptByProgram,
}
use rust_generic_user_backen.Env.{Env}
use rust_generic_user_backen.App.{World}
use rust_generic_user_backen.App.Inversion.{with_state}
use rust_generic_user_backen.App.Keeps.{OthersKeep}
use rust_generic_user_backen.Api.State.{AppState}
use rust_generic_user_backen.Api.Auth.Tokens.{TokenPair}
use rust_generic_user_backen.Api.Auth.Session.{refresh}
use rust_generic_user_backen.Api.Auth.Session.Rotation.{refresh-Trace}
use rust_generic_user_backen.Api.Router.{Request, serve_all}
use rust_generic_user_backen.Api.Router.Keeps.{issue_tokens-Keeps, serve_all-keeps}

-- Some token with this hash is stored.
abbrev pub IsStored : String → Db → Type 0
IsStored hash d = any (has_hash hash) d.refresh_tokens ≡ true

not_open :
    (hash : String) (rows : List RefreshTokenRow) {row : RefreshTokenRow}
    → any (is_open hash) rows ≡ false
    → find (has_hash hash) rows ≡ some row
    → is_some row.revoked_at ≡ true
not_open hash [] h k = cc
not_open hash (t ∷ rows) {row} h k = elim (Bool-cases (has_hash hash t)) [
  | inl same ↦ ground (arith, same)
  | inr other ↦ not_open hash rows {row = row} (ground (arith, other)) (ground (arith, other))
]

module _ (env : Env) (state : AppState) where
  -- A refresh with a token whose hash is stored and not open in any row returns no pair, if the
  -- other requests keep the hash so.
  pub refresh-refused :
      (token : String) (w : World) (pair : TokenPair)
      → OthersKeep env (IsSpent (hash_refresh_token env token))
      → IsSpent (hash_refresh_token env token) w.db
      → ¬ ((refresh env state token w).0 ≡ ok pair)
  refresh-refused token w pair others spent e =
      let t = refresh-Trace env state token w (with_state (refresh env state token) w e) in
      let open_token = t.open_token in
      let used =
        not_open (hash_refresh_token env token) _ (others.at w.effects w.db spent).1 t.stored in
      ground (arith, used, open_token)

  -- A refresh that returns a pair leaves its token spent, if the other requests keep a stored hash
  -- stored and a spent hash spent.
  pub refresh-IsSpent :
      (token : String) (w w' : World) (pair : TokenPair)
      → OthersKeep env (IsStored (hash_refresh_token env token))
      → OthersKeep env (IsSpent (hash_refresh_token env token))
      → refresh env state token w ≡ (ok pair, w')
      → IsSpent (hash_refresh_token env token) w'.db
  refresh-IsSpent token w w' pair stored others e =
      let hash = hash_refresh_token env token in
      let t = refresh-Trace env state token w e in
      let there = any-of_find (has_hash hash) _ t.stored in
      let kept = IsSpent-KeptByProgram env hash in
      let revoked =
        update_revoked-IsSpent hash _ _ _
          (stored.at _ _ (subst (IsStored hash) (sym t.seen) there)) in
      let spent = subst (IsSpent hash) (ap (λ p. p.1) t.revoking.outcome) revoked in
      let owned =
        Ran-keeps (IsSpent hash) env others _ (select_by_id_keeps (IsSpent hash) _) t.owner spent in
      run-keeps (IsSpent hash) _ (issue_tokens-Keeps env others kept state _ _ _) t.issuing owned

  -- After a refresh that returned a pair, and after any further requests to any routes, a refresh
  -- that begins then with the same token returns no pair, if the other requests keep a stored hash
  -- stored and a spent hash spent.
  pub refresh-single_use :
      (token : String) (w w' : World) (pair again : TokenPair) (rs : List Request)
      → OthersKeep env (IsStored (hash_refresh_token env token))
      → OthersKeep env (IsSpent (hash_refresh_token env token))
      → refresh env state token w ≡ (ok pair, w')
      → ¬ ((refresh env state token (serve_all env state rs w')).0 ≡ ok again)
  refresh-single_use token w w' pair again rs stored others e =
      let hash = hash_refresh_token env token in
      refresh-refused token _ again others (
        serve_all-keeps env others (IsSpent-KeptByProgram env hash) state rs w'
          (refresh-IsSpent token w w' pair stored others e))
