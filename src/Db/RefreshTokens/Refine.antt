-- ===== src/Db/RefreshTokens/Refine.antt =====
-- The statements on `refresh_tokens`, of crates/db/src/users.rs, refine the store of sessions.
use mathlib.Core.Option
use rust_generic_user_backen.Base.{
  String, Bool, ◌≡◌, refl, ap, none, some, List, [], ◌∷◌, ◌==◌, ◌&&◌, ◌||◌, not, is_some, str_eq,
  eq_iff, if◌then◌else◌, any, find, update, arith, Bool-cases, inl, inr,
}
use rust_generic_user_backen.Base.Result.{Result, ok, err}
use rust_generic_user_backen.Core.User.{Uuid, OffsetDateTime}
use rust_generic_user_backen.Db.Schema.{UserRow, RefreshTokenRow, Db, DbError, Statement}
use rust_generic_user_backen.Db.RefreshTokens.{
  has_hash, insert_refresh_token, update_revoked, select_refresh_token, update_all_revoked,
}
use rust_generic_user_backen.Db.RefreshTokens.Store.{
  Session, Sessions, SessionOp, open_session, look_up, revoke_one, revoke_all, Answer, opened, done,
  found, revoke_of, respond, Call, respond_all,
}

abbrev session_of : RefreshTokenRow → Session
session_of t = (t.user_id, t.expires_at, t.revoked_at)

-- What the tables hold of the sessions.
abbrev pub view : Db → Sessions
view d = record {
  at = λ hash. Option.map session_of (find (has_hash hash) d.refresh_tokens);
  is_taken = λ id. any (λ (t : RefreshTokenRow). t.id == id) d.refresh_tokens;
  is_user = λ id. any (λ (u : UserRow). u.id == id) d.users;
}

abbrev answer_with :
    {A : Type 0} → (A → Answer) → Result DbError A × Db → Result DbError Answer × Db
answer_with f (ok a, d) = (ok (f a), d)
answer_with f (err e, d) = (err e, d)

-- The statement of each call.
unfoldable pub perform : SessionOp → Statement Answer
perform (open_session user_id hash expires_at) now fresh d =
    answer_with opened (insert_refresh_token user_id hash expires_at none now fresh d)
perform (look_up hash) now fresh d = answer_with found (select_refresh_token hash now fresh d)
perform (revoke_one hash) now fresh d = answer_with (λ _. done) (update_revoked hash now fresh d)
perform (revoke_all user_id) now fresh d =
    answer_with (λ _. done) (update_all_revoked user_id now fresh d)

unfoldable pub perform_all : List Call → Db → List (Result DbError Answer) × Db
unfolding perform
perform_all [] d = ([], d)
perform_all ((now, fresh, op) ∷ calls) d =
    let (answer, e) = perform op now fresh d in
    let (answers, f) = perform_all calls e in (answer ∷ answers, f)

any-of_hash :
    (hash : String) (fresh : Uuid) (rows : List RefreshTokenRow)
    → any (λ (t : RefreshTokenRow). t.id == fresh || has_hash hash t) rows ≡ (
        any (λ (t : RefreshTokenRow). t.id == fresh) rows
        || is_some (Option.map session_of (find (has_hash hash) rows)))
any-of_hash hash fresh [] = refl
any-of_hash hash fresh (t ∷ rows) = ground (arith, any-of_hash hash fresh rows)

abbrev revoke : OffsetDateTime → RefreshTokenRow → RefreshTokenRow
revoke now t = record t { revoked_at = some now }

taken-update :
    (p : RefreshTokenRow → Bool) (now : OffsetDateTime) (id : Uuid) (rows : List RefreshTokenRow)
    → any (λ (t : RefreshTokenRow). t.id == id) (update p (revoke now) rows)
      ≡ any (λ (t : RefreshTokenRow). t.id == id) rows
taken-update p now id [] = refl
taken-update p now id (t ∷ rows) = ground (arith, taken-update p now id rows)

find-revoke_one :
    (now : OffsetDateTime) (hash k : String) (rows : List RefreshTokenRow)
    → Option.map session_of (find (has_hash k) (update (has_hash hash) (revoke now) rows)) ≡ (
        if str_eq hash k
        then Option.map
            (λ (owner, expires_at, _). (owner, expires_at, some now))
            (Option.map session_of (find (has_hash k) rows))
        else Option.map session_of (find (has_hash k) rows))
find-revoke_one now hash k [] = ground arith
find-revoke_one now hash k (t ∷ rows) = ground (
  arith,
  eq_iff t.token_hash hash,
  eq_iff t.token_hash k,
  eq_iff hash k,
  find-revoke_one now hash k rows,
)

find-revoke_all :
    (now : OffsetDateTime) (user_id : Uuid) (k : String) (rows : List RefreshTokenRow)
    → Option.map session_of (
        find (has_hash k) (
          update
            (λ (t : RefreshTokenRow). t.user_id == user_id && not (is_some t.revoked_at))
            (revoke now)
            rows))
      ≡ Option.map (revoke_of now user_id) (Option.map session_of (find (has_hash k) rows))
unfolding revoke_of
find-revoke_all now user_id k [] = refl
find-revoke_all now user_id k (t ∷ rows) = ground (arith, find-revoke_all now user_id k rows)

find-open :
    (row : RefreshTokenRow) (k : String) (rows : List RefreshTokenRow)
    → Option.map session_of (find (has_hash k) (row ∷ rows)) ≡ (
        if str_eq row.token_hash k
        then some (session_of row)
        else Option.map session_of (find (has_hash k) rows))
find-open row k rows = ground arith

abbrev seen_by : Result DbError Answer × Db → Result DbError Answer × Sessions
seen_by (answer, d) = (answer, view d)

-- A statement answers as the store does, and leaves tables that hold what the store holds then.
perform-respond :
    (op : SessionOp) (now : OffsetDateTime) (fresh : Uuid) (d : Db)
    → seen_by (perform op now fresh d) ≡ respond op now fresh (view d)
unfolding perform respond insert_refresh_token select_refresh_token update_revoked
    update_all_revoked
perform-respond (open_session user_id hash expires_at) now fresh d =
    rw (any-of_hash hash fresh d.refresh_tokens)
      (elim (Bool-cases (
        any (λ (t : RefreshTokenRow). t.id == fresh) d.refresh_tokens
        || is_some (Option.map session_of (find (has_hash hash) d.refresh_tokens)))) [
          | inl taken ↦ rw taken refl
          | inr free ↦ rw free (elim (Bool-cases (any (λ (u : UserRow). u.id == user_id) d.users)) [
            | inl user ↦ rw user (λ i. (
              ok (opened fresh),
              record {
                at = λ k.
                    find-open
                      (record {
                        id = fresh;
                        user_id = user_id;
                        token_hash = hash;
                        issued_at = now;
                        expires_at = expires_at;
                        revoked_at = none;
                        user_agent = none;
                      })
                      k d.refresh_tokens i;
                is_taken =
                    λ id. fresh == id || any (λ (t : RefreshTokenRow). t.id == id) d.refresh_tokens;
                is_user = λ id. any (λ (u : UserRow). u.id == id) d.users;
              },
            ))
            | inr missing ↦ rw missing refl
          ])
        ])
perform-respond (look_up hash) now fresh d = refl
perform-respond (revoke_one hash) now fresh d = λ i. (
  ok done,
  record {
    at = λ k. find-revoke_one now hash k d.refresh_tokens i;
    is_taken = λ id. taken-update (has_hash hash) now id d.refresh_tokens i;
    is_user = λ id. any (λ (u : UserRow). u.id == id) d.users;
  },
)
perform-respond (revoke_all user_id) now fresh d = λ i. (
  ok done,
  record {
    at = λ k. find-revoke_all now user_id k d.refresh_tokens i;
    is_taken = λ id.
        taken-update (λ (t : RefreshTokenRow). t.user_id == user_id && not (is_some t.revoked_at))
          now id d.refresh_tokens i;
    is_user = λ id. any (λ (u : UserRow). u.id == id) d.users;
  },
)

-- The statements on refresh tokens refine the store of sessions: whatever calls are made, at
-- whatever times and with whatever ids drawn, each is answered as the store answers it, and in the
-- end the tables hold what the store holds.
pub perform_all-respond_all :
    (calls : List Call) (d : Db)
    → ((perform_all calls d).0 ≡ (respond_all calls (view d)).0)
      × (view (perform_all calls d).1 ≡ (respond_all calls (view d)).1)
unfolding perform_all respond_all
perform_all-respond_all [] d = (refl, refl)
perform_all-respond_all ((now, fresh, op) ∷ calls) d =
    let rest = perform_all-respond_all calls (perform op now fresh d).1 in
    rw⁻¹ (perform-respond op now fresh d)
      (ap (λ answers. (perform op now fresh d).0 ∷ answers) rest.0, rest.1)
