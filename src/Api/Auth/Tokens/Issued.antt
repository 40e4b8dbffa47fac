-- ===== src/Api/Auth/Tokens/Issued.antt =====
-- What `issue_tokens` has done when it returns a pair.
use rust_generic_user_backen.Base.{
  ◌+◌, String, ◌≡◌, refl, Option, none, true, false, List, [], ◌∷◌, ◌||◌, ◌==◌, arith, any,
}
use rust_generic_user_backen.Base.Int.{pos, ◌+ℤ◌, mul_i64}
use rust_generic_user_backen.Base.Result.{ok}
use rust_generic_user_backen.Core.Role.{Role}
use rust_generic_user_backen.Core.User.{Uuid, OffsetDateTime}
use rust_generic_user_backen.Auth.Jwt.{claims_at, unix_timestamp, issue}
use rust_generic_user_backen.Auth.Tokens.{generate_refresh_token, hash_refresh_token}
use rust_generic_user_backen.Auth.Effects.{after_refresh_token, issue-eq-ok}
use rust_generic_user_backen.Db.Schema.{RefreshTokenRow, UserRow, Db}
use rust_generic_user_backen.Db.RefreshTokens.{has_hash, insert_refresh_token, store_refresh_token}
use rust_generic_user_backen.Env.{Env}
use rust_generic_user_backen.App.{World, now_utc, fill_bytes}
use rust_generic_user_backen.App.Inversion.{after_any, after_query, after_draw, pure-eq-ok}
use rust_generic_user_backen.Api.State.{AppState}
use rust_generic_user_backen.Api.Auth.Tokens.{TokenPair, issue_tokens, days}

-- A row that an insertion of a refresh token has put in front of the table.
pub record Inserted (user_id : Uuid) (hash : String) (expires_at : OffsetDateTime)
    (before after : Db) : Type 0 where
  pub row : RefreshTokenRow
  pub rest : after ≡ record before { refresh_tokens = row ∷ before.refresh_tokens }
  pub owner : row.user_id ≡ user_id
  pub hashed : row.token_hash ≡ hash
  pub expiry : row.expires_at ≡ expires_at
  pub valid : row.revoked_at ≡ none
  -- the hash was not in the table
  pub new : any (has_hash hash) before.refresh_tokens ≡ false
  pub user_exists : any (λ (u : UserRow). u.id == user_id) before.users ≡ true

any-new :
    (hash : String) (fresh : Uuid) (rows : List RefreshTokenRow)
    → any (λ (t : RefreshTokenRow). t.id == fresh || has_hash hash t) rows ≡ false
    → any (has_hash hash) rows ≡ false
any-new hash fresh [] h = h
any-new hash fresh (t ∷ rows) h = ground (arith, any-new hash fresh rows)

pub insert_refresh_token-Inserted :
    (user_id : Uuid) (hash : String) (expires_at : OffsetDateTime) (agent : Option String)
    (now : OffsetDateTime) (fresh : Uuid) (d : Db) {id : Uuid} {d' : Db}
    → insert_refresh_token user_id hash expires_at agent now fresh d ≡ (ok id, d')
    → Inserted user_id hash expires_at d d'
unfolding insert_refresh_token
insert_refresh_token-Inserted user_id hash expires_at agent now fresh d h = record {
  row = record {
    id = fresh;
    user_id = user_id;
    token_hash = hash;
    issued_at = now;
    expires_at = expires_at;
    revoked_at = none;
    user_agent = agent;
  };
  rest = ground arith;
  owner = refl;
  hashed = refl;
  expiry = refl;
  valid = refl;
  new = ground (arith, any-new hash fresh d.refresh_tokens);
  user_exists = ground arith;
}

module _ (env : Env) (state : AppState) (user_id : Uuid) (role : Role) where
  pub record Issued (w : World) (pair : TokenPair) (w' : World) : Type 0 where
    pub encoded :
        env.jwt_encode state.jwt.secret (
          claims_at state.jwt user_id role
            (unix_timestamp (env.app_now w.effects))
            (env.uuid (w.effects + 1)))
        ≡ ok pair.access_token
    pub lifetime : pair.access_expires_in ≡ mul_i64 state.settings.auth.jwt_access_ttl_min (pos 60)
    -- into the tables as the other requests have left them, and nothing else
    pub inserted :
        Inserted user_id
          (hash_refresh_token env pair.refresh_token)
          (env.app_now (w.effects + 1 + 1 + 1) +ℤ days state.settings.auth.jwt_refresh_ttl_days)
          (env.others (w.effects + 1 + 1 + 1 + 1) w.db)
          w'.db
    pub spawned : w'.spawned ≡ w.spawned

  pub issue_tokens-Issued :
      (agent : Option String) {w w' : World} {pair : TokenPair}
      → issue_tokens env state user_id role agent w ≡ (ok pair, w')
      → Issued w pair w'
  unfolding issue_tokens generate_refresh_token fill_bytes now_utc store_refresh_token
  issue_tokens-Issued agent {w} h =
      after_any (issue env state.jwt user_id role) _ h λ access v e1 r1.
        let (encoded, same) = issue-eq-ok env state.jwt user_id role w e1 in
        after_query env _ _
          (after_draw env env.app_now _ (after_refresh_token env _ (rw same at r1)))
          λ id u ran r2.
            let (p, q) = pure-eq-ok r2 in
            rw (← p, ← q)
              (record {
                encoded = encoded;
                lifetime = refl;
                inserted = insert_refresh_token-Inserted user_id _ _ agent _ _ _ ran.outcome;
                spawned = ran.spawned;
              })
