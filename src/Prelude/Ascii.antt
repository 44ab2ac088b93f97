-- ===== src/Prelude/Ascii.antt =====
-- Methods of JavaScript's String that the services use, on texts of ASCII characters: toLowerCase,
-- trim, the two `replace` calls that make a slug, and the decimal form of a number.
use Prim.Native.Char.{Char, code}
use Prim.Native.Nat.{ℕ, zero, suc, ◌-◌, ◌/◌, ◌%◌}
use Prim.Native.String.{String, [], ◌∷◌, char_at}
use mathlib.Core.Bool.{Bool, true, false, ◌&&◌, ◌||◌}
use vertxing.Prelude.{leb, if◌then◌else◌}

abbrev pub is_between : ℕ → ℕ → Char → Bool
is_between a b c = leb a (code c) && leb (code c) b

abbrev lower : Char → Char
lower c = if is_between 65 90 c then char_at "abcdefghijklmnopqrstuvwxyz" (code c - 65) else c

unfoldable pub to_lower_case : String → String
to_lower_case [] = []
to_lower_case (c ∷ s) = lower c ∷ to_lower_case s

-- Tab, line feed, vertical tab, form feed, carriage return and space.
abbrev is_space : Char → Bool
is_space c = is_between 9 13 c || is_between 32 32 c

abbrev pub is_empty : String → Bool
is_empty [] = true
is_empty (c ∷ s) = false

unfoldable pub trim_start : String → String
trim_start [] = []
trim_start (c ∷ s) = let rest = trim_start s in if is_space c then rest else c ∷ s

unfoldable pub trim_end : String → String
trim_end [] = []
trim_end (c ∷ s) = let rest = trim_end s in if is_space c && is_empty rest then [] else c ∷ rest

unfoldable pub trim : String → String
unfolding trim_start trim_end
trim s = trim_end (trim_start s)

-- `[a-z0-9]`
abbrev is_slug_char : Char → Bool
is_slug_char c = is_between 97 122 c || is_between 48 57 c

abbrev dash : Char
dash = char_at "-" 0

-- `replace(/[^a-z0-9]+/g, '-')`, after a character that was replaced or at another place.
unfoldable pub dashed : Bool → String → String
dashed b [] = []
dashed b (c ∷ s) =
    let kept = dashed false s in
    let replaced = dashed true s in
    if is_slug_char c then c ∷ kept else if b then replaced else dash ∷ replaced

abbrev is_dash : Char → Bool
is_dash c = is_between 45 45 c

unfoldable pub undash_start : String → String
undash_start [] = []
undash_start (c ∷ s) = let rest = undash_start s in if is_dash c then rest else c ∷ s

unfoldable pub undash_end : String → String
undash_end [] = []
undash_end (c ∷ s) = let rest = undash_end s in if is_dash c && is_empty rest then [] else c ∷ rest

-- `replace(/[^a-z0-9]+/g, '-').replace(/^-+|-+$/g, '')`
unfoldable pub slug : String → String
unfolding dashed undash_start undash_end
slug s = undash_end (undash_start (dashed false s))

-- The digits of a number before a text; with more fuel than the number, all of them.
unfoldable pub digits : ℕ → ℕ → String → String
digits zero n out = out
digits (suc fuel) zero out = out
digits (suc fuel) (suc n) out = digits fuel (suc n / 10) (char_at "0123456789" (suc n % 10) ∷ out)

unfoldable pub decimal : ℕ → String
unfolding digits
decimal zero = "0"
decimal (suc n) = digits (suc (suc n)) (suc n) []
