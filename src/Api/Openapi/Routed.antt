-- ===== src/Api/Openapi/Routed.antt =====
-- The routers and the OpenAPI document, by the methods and path templates of both.
use rust_generic_user_backen.Base.{
  ◌≡◌, refl, String, true, ◌&&◌, Bool-cases, inl, inr, some, none, List, [], ◌∷◌, ◌++◌, Option, All,
  arith, eq_iff, str_eq,
}
use rust_generic_user_backen.Api.Openapi.{
  Handler, Method, get, post, patch, operation, Routes, routes, nest, auth_routes, user_routes,
  admin_routes, same_method, route_in, Operation,
}

-- The method and the path of a handler: those of its attribute, and `GET /health` for the one
-- without.
abbrev pub described : Handler → Method × String
described h = elim (operation h) [ none ↦ (get, "/health") | some op ↦ (op.method, op.path) ]

same_method_sound : (m n : Method) → same_method m n ≡ true → m ≡ n
same_method_sound get get h = refl
same_method_sound post post h = refl
same_method_sound patch patch h = refl
same_method_sound get post h = cc
same_method_sound get patch h = cc
same_method_sound post get h = cc
same_method_sound post patch h = cc
same_method_sound patch get h = cc
same_method_sound patch post h = cc

-- A row has what its handler is described with.
abbrev pub IsDescribed : Method × String × Handler → Type 0
IsDescribed (m, p, h) = described h ≡ (m, p)

pub route_in-described :
    (rows : Routes) (method : Method) (path : String) (h : Handler)
    → All IsDescribed rows
    → route_in rows method path ≡ some h
    → described h ≡ (method, path)
route_in-described [] method path h all e = cc
route_in-described ((m, p, k) ∷ rows) method path h all e =
    elim (Bool-cases (same_method m method && str_eq p path)) [
      | inl t ↦
          let same : k ≡ h = ground (arith, t, e) in
          let a : m ≡ method = same_method_sound m method (ground (arith, t)) in
          let b : p ≡ path = ground (arith, t, eq_iff p path) in rw (← same, ← a, ← b) all.0
      | inr f ↦ route_in-described rows method path h all.1 (ground (arith, f, e))
    ]

pub routes-IsDescribed : All IsDescribed routes
routes-IsDescribed = (
  refl,
  (
    refl,
    (
      refl,
      (
        refl,
        (
          refl,
          (
            refl,
            (
              refl,
              (refl, (refl, (refl, (refl, (refl, (refl, (refl, (refl, (refl, (refl, tt)))))))))),
            ),
          ),
        ),
      ),
    ),
  ),
)

-- A row has the attribute of its handler.
abbrev IsAttributed : Method × String × Handler → Type 0
IsAttributed (m, p, h) =
    (op : Operation) × (operation h ≡ some op) × (op.method ≡ m) × (op.path ≡ p)

abbrev handlers : Routes → List Handler
handlers [] = []
handlers ((m, p, h) ∷ rows) = h ∷ handlers rows

-- The attribute of the handler that the router reaches.
abbrev attribute_of : Option Handler → Option Operation
attribute_of none = none
attribute_of (some h) = operation h

abbrev pub attribute_in : Routes → Method → String → Option Operation
attribute_in rows method path = attribute_of (route_in rows method path)

abbrev prepend : List Operation → Option Operation → List Operation
prepend rest none = rest
prepend rest (some op) = op ∷ rest

-- The routes below `/api/v1`.
abbrev api_routes : Routes
api_routes =
    nest "/api/v1"
      (nest "/auth" auth_routes ++ nest "/users" user_routes ++ nest "/admin" admin_routes)
