-- ===== src/Base/Text.antt =====
-- Texts: the decimal printing of `format!`, `strip_prefix`, and `trim`.
use Prim.Native.Char.{Char, code}
use Prim.Native.String
use Prim.Native.String.{String, [], ◌∷◌, slice, len}
use Prim.Native.Nat.{ℕ, zero, suc, ◌+◌, ◌/◌, ◌%◌}
use mathlib.Core.Path.{◌≡◌, refl, ap}
use mathlib.Core.Bool.{Bool, true, false, ◌&&◌, ◌||◌}
use mathlib.Core.Option.{Option, none, some}
use text.Mathlib.Text.{starts_with}
use text.Mathlib.TextPositions.{starts_with-append, len-append, slice-append_right}
use rust_generic_user_backen.Base.Tests.{ltb, ◌==◌, if◌then◌else◌}

infixr 65 ◌<>◌
abbrev pub ◌<>◌ : String → String → String
◌<>◌ = String.◌++◌

digit : ℕ → String
digit n = slice "0123456789" n (n + 1)

show_from : ℕ → ℕ → String → String
show_from zero n rest = rest
show_from (suc fuel) n rest =
    let longer = show_from fuel (n / 10) (digit (n % 10) <> rest) in
    if ltb n 10 then digit n <> rest else longer

-- The decimal digits of a number, as `{}` prints them: a number has at most n + 1 digits.
unfoldable pub show : ℕ → String
unfolding show_from digit
show n = show_from (suc n) n ""

show_tests : show 8 <> show 120 ≡ "8120"
unfolding show
show_tests = refl

-- `str::strip_prefix`.
unfoldable pub strip_prefix : String → String → Option String
strip_prefix prefix s = if starts_with s prefix then some (slice s (len prefix) (len s)) else none

-- White space, among the characters that a header value read by `to_str` can hold.
abbrev is_blank : Char → Bool
is_blank c = code c == b' ' || code c == 9

abbrev is_empty : String → Bool
is_empty [] = true
is_empty (_ ∷ _) = false

trim_start : String → String
trim_start [] = []
trim_start (c ∷ s) = let rest = trim_start s in if is_blank c then rest else c ∷ s

trim_end : String → String
trim_end [] = []
trim_end (c ∷ s) = let rest = trim_end s in if is_blank c && is_empty rest then [] else c ∷ rest

-- `str::trim`.
unfoldable pub trim : String → String
unfolding trim_start trim_end
trim s = trim_end (trim_start s)

bearer_tests : strip_prefix "Bearer " "Bearer  a b " ≡ some " a b "
unfolding strip_prefix
bearer_tests = refl

trim_tests : trim "  a b " ≡ "a b"
unfolding trim
trim_tests = refl

-- What is put in front is stripped.
pub strip_prefix-append : (prefix s : String) → strip_prefix prefix (prefix <> s) ≡ some s
unfolding strip_prefix
strip_prefix-append prefix s =
    rw (starts_with-append prefix s, len-append prefix s) (ap some (slice-append_right prefix s))
