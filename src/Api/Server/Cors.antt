-- ===== src/Api/Server/Cors.antt =====
-- Which origins the server answers to, of `build_cors_layer` and `Settings::load`.
use rust_generic_user_backen.Base.{
  String, ◌≡◌, Bool, true, false, not, none, some, List, any, ◌||◌, ◌&&◌, str_eq,
}
use rust_generic_user_backen.Base.Result.{Result, ok, err}
use rust_generic_user_backen.Db.Permissions.{contains}
use rust_generic_user_backen.Api.Config.{Settings}
use rust_generic_user_backen.Api.Host.{Host}
use rust_generic_user_backen.Api.Server.{CorsLayer, permissive, restricted}

module _ (host : Host) where
  -- An origin parses from a configured text.
  abbrev pub configured : Settings → String → Bool
  configured settings origin =
      any (λ s. elim (host.parse_origin s) [ none ↦ false | some o ↦ str_eq o origin ])
        settings.cors.allowed_origins

  -- `AllowOrigin::list` panics on the wildcard, and on nothing else.
  pub record WildcardPanics : Type 0 where
    pub on_wildcard :
        (origins : List String)
        → contains "*" origins ≡ true
        → (e : String) × (host.allow_origin_list origins ≡ err e)
    pub elsewhere :
        (origins : List String)
        → contains "*" origins ≡ false
        → host.allow_origin_list origins ≡ ok tt

  -- What a layer lets in: an origin, and whether with credentials.
  abbrev pub lets_in : CorsLayer → String → Bool → Bool
  lets_in permissive origin credentials = not credentials
  lets_in (restricted origins methods allowed) origin credentials =
      contains origin origins && (allowed || not credentials)

  -- A server that does not start lets nothing in.
  abbrev pub answers : Result String CorsLayer → String → Bool → Bool
  answers (ok layer) origin credentials = lets_in layer origin credentials
  answers (err panic) origin credentials = false
