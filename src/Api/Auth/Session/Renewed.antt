-- ===== src/Api/Auth/Session/Renewed.antt =====
-- When a refresh returns a pair.
use rust_generic_user_backen.Base.{
  ◌+◌, String, ◌≡◌, refl, ◌∙◌, none, some, false, ◌||◌, ◌==◌, find, is_some,
}
use rust_generic_user_backen.Base.Int.{leb_ℤ}
use rust_generic_user_backen.Base.Result.{ok}
use rust_generic_user_backen.Core.Error.{unauthorized}
use rust_generic_user_backen.Core.User.{Uuid, OffsetDateTime}
use rust_generic_user_backen.Auth.Tokens.{hash_refresh_token}
use rust_generic_user_backen.Db.Schema.{UserRow, RefreshTokenRow, Db}
use rust_generic_user_backen.Db.Users.{find_by_id, select_by_id, select_user, user_of}
use rust_generic_user_backen.Db.RefreshTokens.{
  has_hash, lookup_refresh_token, select_refresh_token, revoke_refresh_token, update_revoked,
}
use rust_generic_user_backen.Env.{Env, clean}
use rust_generic_user_backen.App.{World, now_utc, draw, ok_or, raise_if}
use rust_generic_user_backen.App.Keeps.{OthersKeep}
use rust_generic_user_backen.App.Forward.{seen, bind-ok, read-clean, query-clean}
use rust_generic_user_backen.App.Inversion.{tick}
use rust_generic_user_backen.Api.State.{AppState}
use rust_generic_user_backen.Api.Auth.Tokens.{TokenPair}
use rust_generic_user_backen.Api.Auth.Tokens.Issuable.{Issuable, issue_tokens-returns}
use rust_generic_user_backen.Api.Auth.Session.{refresh}
use rust_generic_user_backen.Api.Auth.Session.Rotation.{revoked_world, revoking, reading}
use rust_generic_user_backen.Api.Auth.Session.Returns.{select_user-has_user}

-- The user with this id, and the name of its role.
abbrev IsUser : Uuid → UserRow → String → Db → Type 0
IsUser id u name d = select_user (λ v. v.id == id) d ≡ some (u, name)

update_revoked-IsUser :
    (id : Uuid) (u : UserRow) (name hash : String) (now : OffsetDateTime) (fresh : Uuid) (d : Db)
    → IsUser id u name d
    → IsUser id u name (update_revoked hash now fresh d).1
unfolding select_user update_revoked
update_revoked-IsUser id u name hash now fresh d h = h

module _ (env : Env) (state : AppState) (token : String) where
  -- A refresh returns a pair when its statements are answered, the hash of the token is stored in a
  -- row that is not revoked and not expired at the time of the check, the user of that row is there,
  -- and a pair can be issued for it with the role that it has, if the other requests keep that user.
  pub refresh-returns :
      (w : World) (row : RefreshTokenRow) (u : UserRow) (name : String)
      → OthersKeep env (IsUser row.user_id u name)
      → env.fault w.effects ≡ clean
      → env.fault (w.effects + 1 + 1) ≡ clean
      → env.fault (w.effects + 1 + 1 + 1) ≡ clean
      → find (has_hash (hash_refresh_token env token)) (env.others w.effects w.db).refresh_tokens
        ≡ some row
      → row.revoked_at ≡ none
      → leb_ℤ row.expires_at (env.app_now (w.effects + 1)) ≡ false
      → IsUser row.user_id u name w.db
      → Issuable env state u.id
          (user_of (u, name)).role
          (seen env (revoked_world env (hash_refresh_token env token) w))
      → (pair : TokenPair) × (w' : World) × (refresh env state token w ≡ (ok pair, w'))
  unfolding refresh lookup_refresh_token revoke_refresh_token find_by_id now_utc draw ok_or raise_if
      select_refresh_token user_of
  refresh-returns w row u name others a1 a2 a3 stored open_row early user i =
      let hash = hash_refresh_token env token in
      let v = tick (seen env w) in
      let x = revoked_world env hash w in
      let user1 = others.at v.effects v.db (others.at w.effects w.db user) in
      let user2 = others.at x.effects x.db (update_revoked-IsUser _ _ _ hash _ _ _ user1) in
      let there =
        select_user-has_user (λ z. z.id == row.user_id) _ (others.at _ (seen env x).db user2) in
      let (pair, w', issued) =
        issue_tokens-returns env state u.id (user_of (u, name)).role none (seen env x) i there in
      (
        pair,
        w',
        bind-ok _ _ w (read-clean env (select_refresh_token hash) _ (λ now fresh d. refl) w a1)
            ∙ rw stored (
                bind-ok (ok_or (some (row.user_id, row.expires_at, row.revoked_at)) unauthorized) _
                  (seen env w) refl
                ∙ bind-ok (draw env env.app_now) _ (seen env w) refl
                ∙ bind-ok
                    (raise_if
                      (is_some row.revoked_at || leb_ℤ row.expires_at (env.app_now (w.effects + 1)))
                      unauthorized)
                    _ v {a = tt} (rw (open_row, early) refl)
                ∙ bind-ok _ _ v {a = tt} {v = x}
                    (query-clean env (update_revoked hash) v a2 (revoking hash _ _ _))
                ∙ bind-ok _ _ x (
                    read-clean env (select_by_id row.user_id) _
                      (λ now fresh d. reading row.user_id now fresh d) x a3)
                ∙ rw user2 (
                    bind-ok (ok_or (some (user_of (u, name))) unauthorized) _ (seen env x) refl
                    ∙ issued)),
      )
