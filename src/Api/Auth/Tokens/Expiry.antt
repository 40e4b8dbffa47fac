-- ===== src/Api/Auth/Tokens/Expiry.antt =====
-- How long the access token of a pair is good for, and what the pair says of it.
use rust_generic_user_backen.Base.{ℕ, ◌+◌, ◌*◌, ◌^◌, ◌<◌, String, ◌≡◌, ap, ◌∙◌, Option, arith}
use rust_generic_user_backen.Base.Int.{pos, mul_i64}
use rust_generic_user_backen.Base.Result.{ok}
use rust_generic_user_backen.Core.Role.{Role}
use rust_generic_user_backen.Core.User.{Uuid}
use rust_generic_user_backen.Auth.Types.{Claims, JwtConfig}
use rust_generic_user_backen.Auth.Jwt.{claims_at, unix_timestamp}
use rust_generic_user_backen.Auth.Jwt.Expiry.{mul_i64-pos, claims_at-expiry}
use rust_generic_user_backen.Env.{Env}
use rust_generic_user_backen.App.{World}
use rust_generic_user_backen.Api.State.{AppState}
use rust_generic_user_backen.Api.Server.{jwt_config}
use rust_generic_user_backen.Api.Auth.Tokens.{TokenPair, issue_tokens}
use rust_generic_user_backen.Api.Auth.Tokens.Issued.{issue_tokens-Issued}

-- The claims of an access token that is issued at second `n`.
abbrev pub issued_claims : Env → AppState → Uuid → Role → ℕ → World → Claims
issued_claims env state user_id role n w =
    claims_at state.jwt user_id role (pos n) (env.uuid (w.effects + 1))

-- A pair announces the lifetime that its access token has: with a lifetime of `m` minutes in the
-- settings, the access token of a pair that is issued at second `n` is the encoding of claims that
-- expire at second `n + 60 * m`, and the pair says that it expires in `60 * m` seconds, if the codec
-- is the one that is built from the settings and the sum is an `i64`.
pub issue_tokens-expiry :
    (env : Env) (state : AppState) (user_id : Uuid) (role : Role) (agent : Option String)
    (w w' : World) (pair : TokenPair) (n m : ℕ)
    → state.jwt ≡ jwt_config state.settings
    → state.settings.auth.jwt_access_ttl_min ≡ pos m
    → unix_timestamp (env.app_now w.effects) ≡ pos n
    → n + 60 * m < 2 ^ 63
    → issue_tokens env state user_id role agent w ≡ (ok pair, w')
    → (env.jwt_encode state.jwt.secret (issued_claims env state user_id role n w)
        ≡ ok pair.access_token)
      × ((issued_claims env state user_id role n w).exp ≡ pos (n + 60 * m))
      × (pair.access_expires_in ≡ pos (60 * m))
unfolding jwt_config
issue_tokens-expiry env state user_id role agent w w' pair n m built minutes second range e =
    let issued = issue_tokens-Issued env state user_id role agent e in
    let ttl : state.jwt.access_ttl_min ≡ pos m =
      ap (λ (c : JwtConfig). c.access_ttl_min) built ∙ minutes in
    (
      rw second at issued.encoded,
      claims_at-expiry state.jwt user_id _ role n m ttl range,
      issued.lifetime ∙ ap (λ t. mul_i64 t (pos 60)) minutes ∙ mul_i64-pos m (omega (arith, range)),
    )
