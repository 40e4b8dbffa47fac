-- ===== src/Db/RefreshTokens/Store.antt =====
-- What the table `refresh_tokens` promises to its callers: a store of sessions by the hash of their
-- token. Rows, their order, the user agent and the time of issue are forgotten.
use mathlib.Core.Option
use rust_generic_user_backen.Base.{
  String, Bool, Option, none, some, List, [], ◌∷◌, ◌==◌, ◌&&◌, ◌||◌, not, is_some, str_eq,
  if◌then◌else◌,
}
use rust_generic_user_backen.Base.Result.{Result, ok, err}
use rust_generic_user_backen.Core.User.{Uuid, OffsetDateTime}
use rust_generic_user_backen.Db.Schema.{unique_violation, foreign_key_violation, DbError, sqlx}

-- Whose session it is, when it expires, and when it was revoked.
abbrev pub Session : Type 0
Session = Uuid × OffsetDateTime × Option OffsetDateTime

-- The sessions, the ids that are taken, and the users.
pub record Sessions : Type 0 where
  pub at : String → Option Session
  pub is_taken : Uuid → Bool
  pub is_user : Uuid → Bool

pub data SessionOp : Type 0 where
  open_session : (user_id : Uuid) (hash : String) (expires_at : OffsetDateTime) → SessionOp
  look_up revoke_one : (hash : String) → SessionOp
  revoke_all : (user_id : Uuid) → SessionOp

pub data Answer : Type 0 where
  opened : Uuid → Answer
  done : Answer
  found : Option Session → Answer

unfoldable pub revoke_of : OffsetDateTime → Uuid → Session → Session
revoke_of now user_id (owner, expires_at, revoked_at) =
    if owner == user_id && not (is_some revoked_at)
    then (owner, expires_at, some now)
    else (owner, expires_at, revoked_at)

-- A hash is opened once at most, for a user, under an id of its own. Revoking keeps the session,
-- and revoking all of a user's leaves alone what was revoked before.
unfoldable pub respond :
    SessionOp → OffsetDateTime → Uuid → Sessions → Result DbError Answer × Sessions
unfolding revoke_of
respond (open_session user_id hash expires_at) now fresh s =
    if s.is_taken fresh || is_some (s.at hash)
    then (err (sqlx unique_violation), s)
    else if s.is_user user_id
    then (
      ok (opened fresh),
      record s {
        at = λ k. if str_eq hash k then some (user_id, expires_at, none) else s.at k;
        is_taken = λ id. fresh == id || s.is_taken id;
      },
    )
    else (err (sqlx foreign_key_violation), s)
respond (look_up hash) now fresh s = (ok (found (s.at hash)), s)
respond (revoke_one hash) now fresh s = (
  ok done,
  record s {
    at = λ k.
        if str_eq hash k
        then Option.map (λ (owner, expires_at, _). (owner, expires_at, some now)) (s.at k)
        else s.at k;
  },
)
respond (revoke_all user_id) now fresh s =
    (ok done, record s { at = λ k. Option.map (revoke_of now user_id) (s.at k) })

-- A history of calls, each with the time and the id that it draws.
abbrev pub Call : Type 0
Call = OffsetDateTime × Uuid × SessionOp

unfoldable pub respond_all : List Call → Sessions → List (Result DbError Answer) × Sessions
unfolding respond
respond_all [] s = ([], s)
respond_all ((now, fresh, op) ∷ calls) s =
    let (answer, t) = respond op now fresh s in
    let (answers, u) = respond_all calls t in (answer ∷ answers, u)
