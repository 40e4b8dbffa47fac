-- ===== src/Api/Auth/Session/Rotation.antt =====
-- Refresh-token rotation.
use mathlib.Core.Option
use rust_generic_user_backen.Base.{
  ◌==◌, ◌+◌, String, ◌≡◌, refl, Option-cases, none, some, Bool, false, ◌||◌, arith, is_some, find,
  inl, inr,
}
use rust_generic_user_backen.Base.Int.{◌<ℤ◌, leb_ℤ}
use rust_generic_user_backen.Base.Result.{ok}
use rust_generic_user_backen.Core.User.{Uuid, User, OffsetDateTime}
use rust_generic_user_backen.Auth.Tokens.{hash_refresh_token}
use rust_generic_user_backen.Db.Schema.{RefreshTokenRow, UserRow, Db}
use rust_generic_user_backen.Db.RefreshTokens.{
  has_hash, lookup_refresh_token, revoke_refresh_token, select_refresh_token, update_revoked,
}
use rust_generic_user_backen.Db.Users.{find_by_id, user_of, select_by_id, select_user}
use rust_generic_user_backen.Env.{Env}
use rust_generic_user_backen.App.{World, now_utc}
use rust_generic_user_backen.App.Forward.{seen}
use rust_generic_user_backen.App.Inversion.{
  after_query, after_read, after_seen, Ran-world, after_ok_or, after_ok_or_map, after_draw,
  after_raise_if, Ran, tick,
}
use rust_generic_user_backen.Api.State.{AppState}
use rust_generic_user_backen.Api.Auth.Tokens.{TokenPair, issue_tokens}
use rust_generic_user_backen.Api.Auth.Tokens.Issued.{Issued, issue_tokens-Issued}
use rust_generic_user_backen.Api.Auth.Session.{refresh}

-- The effects of a `refresh` that returned, one after the other.
pub record Trace (env : Env) (state : AppState) (hash : String) (w : World) (pair : TokenPair)
    (w' : World) : Type 0 where
  pub row : RefreshTokenRow
  pub v1 : World
  pub seen : v1.db ≡ env.others w.effects w.db
  pub stored : find (has_hash hash) (env.others w.effects w.db).refresh_tokens ≡ some row
  pub open_token :
      is_some row.revoked_at || leb_ℤ row.expires_at (env.app_now (w.effects + 1)) ≡ false
  pub counted : v1.effects ≡ w.effects + 1
  pub v2 : World
  pub revoking : Ran env (update_revoked hash) (tick v1) tt v2
  pub user : User
  pub v3 : World
  pub owner : Ran env (select_by_id row.user_id) v2 (some user) v3
  pub issuing : issue_tokens env state user.id user.role none v3 ≡ (ok pair, w')

none-of_open :
    (row : RefreshTokenRow) (late : Bool)
    → is_some row.revoked_at || late ≡ false
    → row.revoked_at ≡ none
none-of_open row late h = elim (Option-cases row.revoked_at) [
  | inl e ↦ e
  | inr (t, e) ↦ ground (arith, e, h)
]

-- The world once the token was looked up, the clock read and the token revoked.
abbrev pub revoked_world : Env → String → World → World
revoked_world env hash w =
    let v = tick (seen env w) in
    record v {
      db =
          (update_revoked hash (env.db_now v.effects) (env.uuid v.effects)
            (env.others v.effects v.db)).1;
      effects = v.effects + 1;
    }

pub revoking :
    (hash : String) (now : OffsetDateTime) (fresh : Uuid) (d : Db)
    → update_revoked hash now fresh d ≡ (ok tt, (update_revoked hash now fresh d).1)
unfolding update_revoked
revoking hash now fresh d = refl

pub reading :
    (id : Uuid) (now : OffsetDateTime) (fresh : Uuid) (d : Db)
    → select_by_id id now fresh d ≡ (ok (Option.map user_of (select_user (λ v. v.id == id) d)), d)
unfolding select_by_id
reading id now fresh d = refl

module _ (env : Env) (state : AppState) (token : String) where
  pub refresh-Trace :
      (w : World) {w' : World} {pair : TokenPair}
      → refresh env state token w ≡ (ok pair, w')
      → Trace env state (hash_refresh_token env token) w pair w'
  unfolding refresh select_refresh_token lookup_refresh_token now_utc revoke_refresh_token
      find_by_id
  refresh-Trace w e =
      after_read env w _ _ (λ now fresh d. refl) _ e
        λ v1 seen counted r1. after_ok_or_map _ _ _ _ r1 λ row stored r2.
          let r3 = after_draw env env.app_now _ r2 in
          let (open_token, r4) = after_raise_if _ _ _ r3 in
          after_query env _ _ r4 λ _ v2 ran2 r5. after_query env _ _ r5 λ owner v3 ran3 r6.
            after_ok_or _ _ _ r6 λ user same2 r7. record {
              row = row;
              v1 = v1;
              seen = seen;
              stored = stored;
              open_token = rw (← counted) open_token;
              counted = counted;
              v2 = v2;
              revoking = ran2;
              user = user;
              v3 = v3;
              owner = rw (← same2) ran3;
              issuing = r7;
            }

  -- What a `refresh` that returned has seen and done.
  pub record Rotated (w : World) (pair : TokenPair) (w' : World) : Type 0 where
    pub row : RefreshTokenRow
    pub stored :
        find (has_hash (hash_refresh_token env token)) (env.others w.effects w.db).refresh_tokens
        ≡ some row
    pub unrevoked : row.revoked_at ≡ none
    pub unexpired : env.app_now (w.effects + 1) <ℤ row.expires_at
    -- the user of that row, with the name of its role, once the token is revoked
    pub user : UserRow
    pub name : String
    pub found :
        select_user
          (λ (u : UserRow). u.id == row.user_id)
          (seen env (revoked_world env (hash_refresh_token env token) w)).db
        ≡ some (user, name)
    pub issued :
        Issued env state user.id
          (user_of (user, name)).role
          (seen env (revoked_world env (hash_refresh_token env token) w))
          pair
          w'

  -- A refresh that returns a pair was given a token whose hash is stored, in a row that is not
  -- revoked and that expires after the time of the check. The pair is for the user of that row: the
  -- access token is the encoding of its claims with the role that the user has now, and the new
  -- refresh token is inserted for it, unrevoked, under a hash that was not in the table.
  pub refresh-Rotated :
      (w : World) {w' : World} {pair : TokenPair}
      → refresh env state token w ≡ (ok pair, w')
      → Rotated w pair w'
  unfolding refresh select_refresh_token lookup_refresh_token now_utc revoke_refresh_token
      find_by_id user_of
  refresh-Rotated w {w' = w'} {pair = pair} e =
      let hash = hash_refresh_token env token in
      after_seen env w _ _ (λ now fresh d. refl) _ e
        λ r1. after_ok_or_map _ _ _ _ r1 λ row stored r2.
          let (open_token, r4) = after_raise_if _ _ _ (after_draw env env.app_now _ r2) in
          after_query env _ _ r4 λ _ v ran r5.
            let same : v ≡ revoked_world env hash w = Ran-world env _ (revoking hash _ _ _) ran in
            after_seen env (revoked_world env hash w) _ _ (reading row.user_id) _ (rw same at r5)
              λ r6. after_ok_or_map _ _ _ _ r6 λ owner found r7. record {
                row = row;
                stored = stored;
                unrevoked = none-of_open row _ open_token;
                unexpired = ground (arith, open_token);
                user = owner.0;
                name = owner.1;
                found = found;
                issued = issue_tokens-Issued env state _ _ none r7;
              }
