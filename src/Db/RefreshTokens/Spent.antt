-- ===== src/Db/RefreshTokens/Spent.antt =====
-- Revoked refresh tokens, of crates/db/src/users.rs, under the statements of the program.
use rust_generic_user_backen.Base.{
  String, ◌≡◌, refl, Bool, true, false, not, ◌&&◌, ◌||◌, Option, some, List, [], ◌∷◌, ◌==◌, ◌∙◌,
  arith, eq_iff, is_some, any, update,
}
use rust_generic_user_backen.Core.User.{Uuid, OffsetDateTime}
use rust_generic_user_backen.Db.Schema.{RefreshTokenRow, Db}
use rust_generic_user_backen.Db.RefreshTokens.{
  has_hash, insert_refresh_token, update_revoked, update_all_revoked,
}
use rust_generic_user_backen.Db.Program.{
  KeptByProgram, users_ignored, identities_ignored, verifications_ignored, resets_ignored,
  overrides_ignored,
}
use rust_generic_user_backen.Env.{Env}
use rust_generic_user_backen.App.Keeps.{KeepsStatement}

-- The row has this hash and is not revoked.
abbrev pub is_open : String → RefreshTokenRow → Bool
is_open hash t = has_hash hash t && not (is_some t.revoked_at)

-- Some token with this hash is stored, and none with this hash is open.
abbrev pub IsSpent : String → Db → Type 0
IsSpent hash d =
    (any (has_hash hash) d.refresh_tokens ≡ true) × (any (is_open hash) d.refresh_tokens ≡ false)

revoke : OffsetDateTime → RefreshTokenRow → RefreshTokenRow
revoke now t = record t { revoked_at = some now }

module _ (hash : String) (now : OffsetDateTime) (p : RefreshTokenRow → Bool) where
  any-has_hash-update :
      (rows : List RefreshTokenRow)
      → any (has_hash hash) (update p (revoke now) rows) ≡ any (has_hash hash) rows
  unfolding revoke
  any-has_hash-update [] = refl
  any-has_hash-update (t ∷ rows) = ground (arith, any-has_hash-update rows)

  any-is_open-update :
      (rows : List RefreshTokenRow)
      → any (is_open hash) rows ≡ false
      → any (is_open hash) (update p (revoke now) rows) ≡ false
  unfolding revoke
  any-is_open-update [] h = refl
  any-is_open-update (t ∷ rows) h = ground (arith, any-is_open-update rows)

any-is_open-revoke :
    (hash : String) (now : OffsetDateTime) (rows : List RefreshTokenRow)
    → any (is_open hash) (update (has_hash hash) (revoke now) rows) ≡ false
unfolding revoke
any-is_open-revoke hash now [] = refl
any-is_open-revoke hash now (t ∷ rows) = ground (arith, any-is_open-revoke hash now rows)

-- Once a stored token is revoked, its hash is spent.
pub update_revoked-IsSpent :
    (hash : String) (now : OffsetDateTime) (fresh : Uuid) (d : Db)
    → any (has_hash hash) d.refresh_tokens ≡ true
    → IsSpent hash (update_revoked hash now fresh d).1
unfolding update_revoked revoke
update_revoked-IsSpent hash now fresh d h = (
  any-has_hash-update hash now (has_hash hash) d.refresh_tokens ∙ h,
  any-is_open-revoke hash now d.refresh_tokens,
)

pub update_revoked-keeps-IsSpent :
    (hash other : String) → KeepsStatement (IsSpent hash) (update_revoked other)
unfolding update_revoked revoke
update_revoked-keeps-IsSpent hash other = record {
  at = λ now fresh d h. (
    any-has_hash-update hash now (has_hash other) d.refresh_tokens ∙ h.0,
    any-is_open-update hash now (has_hash other) d.refresh_tokens h.1,
  );
}

pub update_all_revoked-keeps-IsSpent :
    (hash : String) (user_id : Uuid) → KeepsStatement (IsSpent hash) (update_all_revoked user_id)
unfolding update_all_revoked revoke
update_all_revoked-keeps-IsSpent hash user_id = record {
  at = λ now fresh d h. (
    any-has_hash-update hash now _ d.refresh_tokens ∙ h.0,
    any-is_open-update hash now _ d.refresh_tokens h.1,
  );
}

any-fresh-or-hash :
    (hash : String) (fresh : Uuid) (rows : List RefreshTokenRow)
    → any (has_hash hash) rows ≡ true
    → any (λ (t : RefreshTokenRow). t.id == fresh || has_hash hash t) rows ≡ true
any-fresh-or-hash hash fresh [] h = h
any-fresh-or-hash hash fresh (t ∷ rows) h = ground (arith, any-fresh-or-hash hash fresh rows)

-- The unique column refuses a second row with a hash that is stored.
pub insert_refresh_token-keeps-IsSpent :
    (hash : String) (user_id : Uuid) (other : String) (expires_at : OffsetDateTime)
    (agent : Option String)
    → KeepsStatement (IsSpent hash) (insert_refresh_token user_id other expires_at agent)
unfolding insert_refresh_token
insert_refresh_token-keeps-IsSpent hash user_id other expires_at agent = record {
  at = λ now fresh d h.
      ground (arith, any-fresh-or-hash other fresh d.refresh_tokens, eq_iff other hash, h);
}

-- So every statement of the program leaves a spent hash spent.
pub IsSpent-KeptByProgram : (env : Env) (hash : String) → KeptByProgram env (IsSpent hash)
IsSpent-KeptByProgram env hash = record {
  users_keep = users_ignored (IsSpent hash) env (λ r d h. h);
  identities_keep = identities_ignored (IsSpent hash) (λ r d h. h);
  refresh_tokens_keep = record {
    insert_refresh_token_keeps = insert_refresh_token-keeps-IsSpent hash;
    update_revoked_keeps = update_revoked-keeps-IsSpent hash;
    update_all_revoked_keeps = update_all_revoked-keeps-IsSpent hash;
  };
  verifications_keep = verifications_ignored (IsSpent hash) (λ r d h. h);
  resets_keep = resets_ignored (IsSpent hash) (λ r d h. h);
  overrides_keep = overrides_ignored (IsSpent hash) (λ r d h. h);
}
