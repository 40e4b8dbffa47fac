-- ===== src/Auth/Jwt/Expiry.antt =====
-- How long an access token is good for.
use rust_generic_user_backen.Base.{ℕ, ◌+◌, ◌*◌, ◌^◌, ◌<◌, ◌≡◌, ap, ◌∙◌, arith}
use rust_generic_user_backen.Base.Int.{pos, ◌+ℤ◌, ◌*ℤ◌, add_i64, mul_i64, wrap_i64, wrap_i64_pos}
use rust_generic_user_backen.Core.Role.{Role}
use rust_generic_user_backen.Core.User.{Uuid}
use rust_generic_user_backen.Auth.Types.{JwtConfig}
use rust_generic_user_backen.Auth.Jwt.{claims_at}

minutes : (m : ℕ) → pos m *ℤ pos 60 ≡ pos (60 * m)
unfolding ◌*ℤ◌
minutes m = ground arith

sum : (n m : ℕ) → pos n +ℤ pos m ≡ pos (n + m)
unfolding ◌+ℤ◌
sum n m = ground arith

pub mul_i64-pos : (m : ℕ) → 60 * m < 2 ^ 63 → mul_i64 (pos m) (pos 60) ≡ pos (60 * m)
unfolding mul_i64
mul_i64-pos m h = ap wrap_i64 (minutes m) ∙ wrap_i64_pos (60 * m) h

add_i64-pos : (n m : ℕ) → n + m < 2 ^ 63 → add_i64 (pos n) (pos m) ≡ pos (n + m)
unfolding add_i64
add_i64-pos n m h = ap wrap_i64 (sum n m) ∙ wrap_i64_pos (n + m) h

-- With a lifetime of `m` minutes, the claims that are made at second `n` expire at `n + 60 * m`.
pub claims_at-expiry :
    (cfg : JwtConfig) (user_id jti : Uuid) (role : Role) (n m : ℕ)
    → cfg.access_ttl_min ≡ pos m
    → n + 60 * m < 2 ^ 63
    → (claims_at cfg user_id role (pos n) jti).exp ≡ pos (n + 60 * m)
unfolding claims_at
claims_at-expiry cfg user_id jti role n m same range =
    let ttl : mul_i64 cfg.access_ttl_min (pos 60) ≡ pos (60 * m) =
      rw same (mul_i64-pos m (omega (arith, range))) in
    rw ttl (add_i64-pos n (60 * m) range)
