-- ===== src/Core/Error.antt =====
-- crates/core/src/error.rs: the workspace's error, its printing, and the conversion of the
-- errors of the `validator` crate into a map from fields to readable messages.
use rust_generic_user_backen.Base.{
  ℕ, String, ◌≡◌, refl, Option, none, some, List, [], ◌∷◌, map, arith, eq_iff, str_eq,
  if◌then◌else◌,
}
use rust_generic_user_backen.Base.Text.{◌<>◌, show}

-- A `HashMap<String, Vec<String>>`, as the list of its entries.
abbrev pub Fields : Type 0
Fields = List (String × List String)

pub data AppError : Type 0 where
  not_found forbidden unauthorized email_not_verified : AppError
  validation conflict bad_request storage file_processing database auth internal : String → AppError
  validation_fields : (message : String) → Fields → AppError

-- `to_string`, from the `#[error]` attributes.
unfoldable pub to_string : AppError → String
to_string not_found = "not found"
to_string forbidden = "forbidden"
to_string unauthorized = "unauthorized"
to_string (validation m) = "validation: " <> m
to_string (validation_fields message _) = message
to_string (conflict m) = "conflict: " <> m
to_string (bad_request m) = "bad request: " <> m
to_string (storage m) = "storage: " <> m
to_string (file_processing m) = "file processing: " <> m
to_string (database m) = "database: " <> m
to_string (auth m) = "auth: " <> m
to_string email_not_verified = "email not confirmed — check your inbox"
to_string (internal m) = "internal: " <> m

-- A JSON parameter of a validation error: an unsigned integer, or any other value, as printed.
pub data Value : Type 0 where
  number : ℕ → Value
  other : String → Value

as_u64 : Option Value → Option ℕ
as_u64 (some (number n)) = some n
as_u64 _ = none

print : Value → String
print (number n) = show n
print (other s) = s

-- `validator::ValidationError`.
pub record ValidationError : Type 0 where
  pub code : String
  pub message : Option String
  pub params : List (String × Value)

-- `HashMap::get`.
unfoldable pub get {ℓ} : {V : Type ℓ} → String → List (String × V) → Option V
get k [] = none
get k ((j, v) ∷ m) = if str_eq j k then some v else get k m

-- `HashMap::insert`.
unfoldable pub insert {ℓ} : {V : Type ℓ} → String → V → List (String × V) → List (String × V)
insert k v [] = (k, v) ∷ []
insert k v ((j, w) ∷ m) = if str_eq j k then (k, v) ∷ m else (j, w) ∷ insert k v m

length_message : Option ℕ → Option ℕ → String
length_message (some a) (some b) =
    "Must be between " <> show a <> " and " <> show b <> " characters long"
length_message (some a) none = "Must be at least " <> show a <> " characters long"
length_message none (some b) = "Must be at most " <> show b <> " characters long"
length_message none none = "Invalid length"

range_message : Option Value → Option Value → String
range_message (some a) (some b) = "Must be between " <> print a <> " and " <> print b
range_message (some a) none = "Must be at least " <> print a
range_message none (some b) = "Must be at most " <> print b
range_message none none = "Out of range"

code_message : ValidationError → String
code_message e =
    if str_eq e.code "email"
    then "Must be a valid email address"
    else if str_eq e.code "url"
    then "Must be a valid URL"
    else if str_eq e.code "length"
    then length_message (as_u64 (get "min" e.params)) (as_u64 (get "max" e.params))
    else if str_eq e.code "range"
    then range_message (get "min" e.params) (get "max" e.params)
    else if str_eq e.code "required"
    then "This field is required"
    else "Invalid value (" <> e.code <> ")"

unfoldable pub friendly_message : ValidationError → String
unfolding code_message length_message range_message as_u64 print get
friendly_message e = elim e.message [ some m ↦ m | none ↦ code_message e ]

-- `field_errors()` of a `ValidationErrors`: the errors of each field that has some.
abbrev pub ValidationErrors : Type 0
ValidationErrors = List (String × List ValidationError)

collect : ValidationErrors → Fields → Fields
collect [] fields = fields
collect ((field, kinds) ∷ errs) fields =
    collect errs (insert field (map friendly_message kinds) fields)

unfoldable pub from_validation_errors : ValidationErrors → AppError
unfolding collect
from_validation_errors errs = validation_fields "Validation failed" (collect errs [])

pub get-insert {ℓ} :
    {V : Type ℓ} (k j : String) (v : V) (m : List (String × V))
    → get j (insert k v m) ≡ (if str_eq k j then some v else get j m)
unfolding get insert
get-insert k j v [] = refl
get-insert k j v ((i, w) ∷ m) =
    ground (arith, eq_iff k j, eq_iff i k, eq_iff i j, get-insert k j v m)
