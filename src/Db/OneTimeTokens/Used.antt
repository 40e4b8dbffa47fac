-- ===== src/Db/OneTimeTokens/Used.antt =====
-- Used one-time tokens, of crates/db/src/users.rs, under the statements of the program.
use rust_generic_user_backen.Base.{
  String, ◌≡◌, refl, Bool, true, false, not, ◌&&◌, none, some, List, [], ◌∷◌, ◌∙◌, arith, eq_iff,
  str_eq, is_some, any, find, update, if◌then◌else◌,
}
use rust_generic_user_backen.Core.User.{Uuid, OffsetDateTime}
use rust_generic_user_backen.Db.Schema.{OneTimeTokenRow, UserRow, Db}
use rust_generic_user_backen.Db.OneTimeTokens.{
  is_live, insert_token, use_token, insert_verification, use_verification, insert_reset, use_reset,
}
use rust_generic_user_backen.Db.Program.{
  KeptByProgram, users_ignored, identities_ignored, refresh_tokens_ignored, verifications_ignored,
  resets_ignored, overrides_ignored,
}
use rust_generic_user_backen.Env.{Env}

abbrev pub has_token : String → OneTimeTokenRow → Bool
has_token hash t = str_eq t.token_hash hash

abbrev pub is_unused : String → OneTimeTokenRow → Bool
is_unused hash t = has_token hash t && not (is_some t.used_at)

-- Some row has this hash, and all that have it are used.
abbrev pub IsUsed : String → List OneTimeTokenRow → Type 0
IsUsed hash rows = (any (has_token hash) rows ≡ true) × (any (is_unused hash) rows ≡ false)

module _ (hash : String) (now : OffsetDateTime) (p : OneTimeTokenRow → Bool) where
  any-has_token-update :
      (rows : List OneTimeTokenRow)
      → any (has_token hash) (update p (λ t. record t { used_at = some now }) rows)
        ≡ any (has_token hash) rows
  any-has_token-update [] = refl
  any-has_token-update (t ∷ rows) = ground (arith, any-has_token-update rows)

  any-is_unused-update :
      (rows : List OneTimeTokenRow)
      → any (is_unused hash) rows ≡ false
      → any (is_unused hash) (update p (λ t. record t { used_at = some now }) rows) ≡ false
  any-is_unused-update [] h = refl
  any-is_unused-update (t ∷ rows) h = ground (arith, any-is_unused-update rows)

module _ (hash : String) where
  pub use_token-keeps-IsUsed :
      (other : String) (now : OffsetDateTime) (rows : List OneTimeTokenRow)
      → IsUsed hash rows
      → IsUsed hash (use_token other now rows).1
  unfolding use_token
  use_token-keeps-IsUsed other now rows h = (
    any-has_token-update hash now (is_live other now) rows ∙ h.0,
    any-is_unused-update hash now (is_live other now) rows h.1,
  )

  pub insert_token-keeps-IsUsed :
      (user_id : Uuid) (other : String) (expires_at now : OffsetDateTime) (fresh : Uuid)
      (users : List UserRow) (rows : List OneTimeTokenRow)
      → IsUsed hash rows
      → IsUsed hash (insert_token user_id other expires_at now fresh users rows).1
  unfolding insert_token
  insert_token-keeps-IsUsed user_id other expires_at now fresh users rows h =
      ground (arith, eq_iff other hash, h)

-- A token that is used is not live, so it is not found again.
pub not_live :
    (hash : String) (now : OffsetDateTime) (rows : List OneTimeTokenRow)
    → any (is_unused hash) rows ≡ false
    → find (is_live hash now) rows ≡ none
not_live hash now [] h = refl
not_live hash now (t ∷ rows) h = ground (arith, not_live hash now rows)

-- At most one row has this hash.
abbrev pub unique : String → List OneTimeTokenRow → Bool
unique hash [] = true
unique hash (t ∷ rows) =
    if has_token hash t then not (any (has_token hash) rows) else unique hash rows

module _ (hash : String) (now : OffsetDateTime) where
  absent-update :
      (rows : List OneTimeTokenRow)
      → any (has_token hash) rows ≡ false
      → any (is_unused hash) (update (is_live hash now) (λ t. record t { used_at = some now }) rows)
        ≡ false
  absent-update [] h = refl
  absent-update (t ∷ rows) h = ground (arith, absent-update rows)

  absent-find :
      (rows : List OneTimeTokenRow)
      → any (has_token hash) rows ≡ false
      → find (is_live hash now) rows ≡ none
  absent-find [] h = refl
  absent-find (t ∷ rows) h = ground (arith, absent-find rows)

  used-update :
      (rows : List OneTimeTokenRow) (t : OneTimeTokenRow)
      → unique hash rows ≡ true
      → find (is_live hash now) rows ≡ some t
      → any (is_unused hash) (update (is_live hash now) (λ t. record t { used_at = some now }) rows)
        ≡ false
  used-update [] t u h = cc
  used-update (r ∷ rows) t u h =
      ground (arith, absent-update rows, absent-find rows, used-update rows t)

  live-stored :
      (rows : List OneTimeTokenRow) (t : OneTimeTokenRow)
      → find (is_live hash now) rows ≡ some t
      → any (has_token hash) rows ≡ true
  live-stored [] t h = cc
  live-stored (r ∷ rows) t h = ground (arith, live-stored rows t)

  -- The token that is found is used from then on.
  pub use_token-IsUsed :
      (rows : List OneTimeTokenRow) (t : OneTimeTokenRow)
      → unique hash rows ≡ true
      → find (is_live hash now) rows ≡ some t
      → IsUsed hash (use_token hash now rows).1
  unfolding use_token
  use_token-IsUsed rows t u h = (
    any-has_token-update hash now (is_live hash now) rows ∙ live-stored rows t h,
    used-update rows t u h,
  )

module _ (hash : String) where
  unique-update :
      (now : OffsetDateTime) (p : OneTimeTokenRow → Bool) (rows : List OneTimeTokenRow)
      → unique hash (update p (λ t. record t { used_at = some now }) rows) ≡ unique hash rows
  unique-update now p [] = refl
  unique-update now p (t ∷ rows) =
      ground (arith, unique-update now p rows, any-has_token-update hash now p rows)

  pub use_token-keeps-unique :
      (other : String) (now : OffsetDateTime) (rows : List OneTimeTokenRow)
      → unique hash rows ≡ true
      → unique hash (use_token other now rows).1 ≡ true
  unfolding use_token
  use_token-keeps-unique other now rows h = unique-update now (is_live other now) rows ∙ h

  pub insert_token-keeps-unique :
      (user_id : Uuid) (other : String) (expires_at now : OffsetDateTime) (fresh : Uuid)
      (users : List UserRow) (rows : List OneTimeTokenRow)
      → unique hash rows ≡ true
      → unique hash (insert_token user_id other expires_at now fresh users rows).1 ≡ true
  unfolding insert_token
  insert_token-keeps-unique user_id other expires_at now fresh users rows h =
      ground (arith, eq_iff other hash, h)

-- The two predicates, for each of the two tables, and what keeps them.
module _ (env : Env) (P : List OneTimeTokenRow → Type 0)
    (use_keeps : (hash : String) (now : OffsetDateTime) (rows : List OneTimeTokenRow)
      → P rows
      → P (use_token hash now rows).1)
    (insert_keeps : (user_id : Uuid) (hash : String) (expires_at now : OffsetDateTime)
        (fresh : Uuid) (users : List UserRow) (rows : List OneTimeTokenRow)
      → P rows
      → P (insert_token user_id hash expires_at now fresh users rows).1) where
  resets-KeptByProgram : KeptByProgram env (λ d. P d.password_reset_tokens)
  unfolding insert_reset use_reset
  resets-KeptByProgram = record {
    users_keep = users_ignored _ env (λ r d h. h);
    identities_keep = identities_ignored _ (λ r d h. h);
    refresh_tokens_keep = refresh_tokens_ignored _ (λ r d h. h);
    verifications_keep = verifications_ignored _ (λ r d h. h);
    resets_keep = record {
      insert_reset_keeps = λ id hash expires_at. record {
        at = λ now fresh d h. insert_keeps id hash expires_at now fresh d.users _ h;
      };
      use_reset_keeps = λ hash. record { at = λ now fresh d h. use_keeps hash now _ h };
    };
    overrides_keep = overrides_ignored _ (λ r d h. h);
  }

  verifications-KeptByProgram : KeptByProgram env (λ d. P d.email_verification_tokens)
  unfolding insert_verification use_verification
  verifications-KeptByProgram = record {
    users_keep = users_ignored _ env (λ r d h. h);
    identities_keep = identities_ignored _ (λ r d h. h);
    refresh_tokens_keep = refresh_tokens_ignored _ (λ r d h. h);
    verifications_keep = record {
      insert_verification_keeps = λ id hash expires_at. record {
        at = λ now fresh d h. insert_keeps id hash expires_at now fresh d.users _ h;
      };
      use_verification_keeps = λ hash. record { at = λ now fresh d h. use_keeps hash now _ h };
    };
    resets_keep = resets_ignored _ (λ r d h. h);
    overrides_keep = overrides_ignored _ (λ r d h. h);
  }

abbrev pub ResetIsUsed : String → Db → Type 0
ResetIsUsed hash d = IsUsed hash d.password_reset_tokens

abbrev pub VerificationIsUsed : String → Db → Type 0
VerificationIsUsed hash d = IsUsed hash d.email_verification_tokens

abbrev pub ResetIsUnique : String → Db → Type 0
ResetIsUnique hash d = unique hash d.password_reset_tokens ≡ true

abbrev pub VerificationIsUnique : String → Db → Type 0
VerificationIsUnique hash d = unique hash d.email_verification_tokens ≡ true

module _ (env : Env) (hash : String) where
  pub ResetIsUsed-KeptByProgram : KeptByProgram env (ResetIsUsed hash)
  ResetIsUsed-KeptByProgram =
      resets-KeptByProgram env (IsUsed hash) (use_token-keeps-IsUsed hash)
        (insert_token-keeps-IsUsed hash)

  pub VerificationIsUsed-KeptByProgram : KeptByProgram env (VerificationIsUsed hash)
  VerificationIsUsed-KeptByProgram =
      verifications-KeptByProgram env (IsUsed hash) (use_token-keeps-IsUsed hash)
        (insert_token-keeps-IsUsed hash)

  pub ResetIsUnique-KeptByProgram : KeptByProgram env (ResetIsUnique hash)
  ResetIsUnique-KeptByProgram =
      resets-KeptByProgram env (λ rows. unique hash rows ≡ true) (use_token-keeps-unique hash)
        (insert_token-keeps-unique hash)

  pub VerificationIsUnique-KeptByProgram : KeptByProgram env (VerificationIsUnique hash)
  VerificationIsUnique-KeptByProgram =
      verifications-KeptByProgram env (λ rows. unique hash rows ≡ true)
        (use_token-keeps-unique hash) (insert_token-keeps-unique hash)
