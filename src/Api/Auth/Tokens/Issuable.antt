-- ===== src/Api/Auth/Tokens/Issuable.antt =====
-- When `issue_tokens` returns a pair.
use rust_generic_user_backen.Base.{
  ◌+◌, String, ◌≡◌, refl, ◌∙◌, Option, true, false, ◌||◌, ◌==◌, any,
}
use rust_generic_user_backen.Base.Result.{ok}
use rust_generic_user_backen.Core.Role.{Role}
use rust_generic_user_backen.Core.User.{Uuid, OffsetDateTime}
use rust_generic_user_backen.Auth.Jwt.{claims_at, unix_timestamp, issue}
use rust_generic_user_backen.Auth.Tokens.{generate_refresh_token, hash_refresh_token}
use rust_generic_user_backen.Db.Schema.{RefreshTokenRow, UserRow, Db}
use rust_generic_user_backen.Db.RefreshTokens.{has_hash, insert_refresh_token, store_refresh_token}
use rust_generic_user_backen.Env.{Env, clean}
use rust_generic_user_backen.App.{
  World, pure, lift, draw, db, query, now_utc, new_v4, fill_bytes, ◌>>=◌,
}
use rust_generic_user_backen.App.Forward.{bind-ok, query-clean}
use rust_generic_user_backen.App.Inversion.{tick}
use rust_generic_user_backen.Api.State.{AppState}
use rust_generic_user_backen.Api.Auth.Tokens.{TokenPair, issue_tokens}

insert_refresh_token-inserts :
    (user_id : Uuid) (hash : String) (expires_at : OffsetDateTime) (agent : Option String)
    (now : OffsetDateTime) (fresh : Uuid) (d : Db)
    → any (λ (t : RefreshTokenRow). t.id == fresh || has_hash hash t) d.refresh_tokens ≡ false
    → any (λ (u : UserRow). u.id == user_id) d.users ≡ true
    → insert_refresh_token user_id hash expires_at agent now fresh d
      ≡ (ok fresh, (insert_refresh_token user_id hash expires_at agent now fresh d).1)
unfolding insert_refresh_token
insert_refresh_token-inserts user_id hash expires_at agent now fresh d h u = rw (h, u) refl

module _ (env : Env) (state : AppState) (user_id : Uuid) (role : Role) where
  -- The refresh token that is drawn, and the tables that its insertion meets.
  abbrev drawn : World → String
  drawn w = env.hex_encode (env.random_bytes (w.effects + 1 + 1))

  abbrev met : World → Db
  met w = env.others (w.effects + 1 + 1 + 1 + 1) w.db

  -- The token can be encoded, and the insertion is answered, for a user that is stored, under an id
  -- and a hash that are not.
  pub record Issuable (w : World) : Type 0 where
    pub access : String
    pub encoded :
        env.jwt_encode state.jwt.secret (
          claims_at state.jwt user_id role
            (unix_timestamp (env.app_now w.effects))
            (env.uuid (w.effects + 1)))
        ≡ ok access
    pub answered : env.fault (w.effects + 1 + 1 + 1 + 1) ≡ clean
    pub unused :
        any
          (λ (t : RefreshTokenRow).
            t.id == env.uuid (w.effects + 1 + 1 + 1 + 1)
            || has_hash (hash_refresh_token env (drawn w)) t)
          (met w).refresh_tokens
        ≡ false

  issue-returns :
      (w : World) (i : Issuable w)
      → issue env state.jwt user_id role w ≡ (ok i.access, tick (tick w))
  unfolding issue now_utc new_v4 draw lift ◌>>=◌
  issue-returns w i = rw i.encoded refl

  pub issue_tokens-returns :
      (agent : Option String) (w : World)
      → Issuable w
      → any (λ (u : UserRow). u.id == user_id) (met w).users ≡ true
      → (pair : TokenPair) × (w' : World) × (issue_tokens env state user_id role agent w
          ≡ (ok pair, w'))
  unfolding issue_tokens generate_refresh_token fill_bytes now_utc draw store_refresh_token pure
      ◌>>=◌
  issue_tokens-returns agent w i user = (
    _,
    _,
    bind-ok (issue env state.jwt user_id role) _ w (issue-returns w i)
        ∙ bind-ok
            (db env
              (query env (insert_refresh_token user_id (hash_refresh_token env (drawn w)) _ agent)))
            _ (tick (tick (tick (tick w))))
            (query-clean env _ _ i.answered
              (insert_refresh_token-inserts user_id _ _ agent _ _ (met w) i.unused user)),
  )
