-- ===== src/Prelude/Text.antt =====
-- What the program uses of Go's `strings`, `regexp` and `fmt` on texts, over the native `String`.
use Prim.Native.Nat.{ℕ, zero, suc, ◌/◌, ◌%◌}
use Prim.Native.Char.{Char, code}
use Prim.Native.String.{String, ◌++◌ as ◌<>◌, count}
use mathlib.Core.Path.{◌≡◌}
use mathlib.Core.Bool.{Bool, ◌&&◌, ◌||◌}
use mathlib.Core.Option.{Option, none, some}
use mathlib.Core.Option
use mathlib.Core.List.{List, [], ◌∷◌}
use native.Mathlib.Omega.{arith}
use text.Mathlib.Text.{◌==◌, starts_with}
use monitoring_wo_webhooks.Prelude.Tests.{leb, eqb, is_some, if◌then◌else◌}
use monitoring_wo_webhooks.Prelude.Lists.{get_or}

-- The text after its first characters.
unfoldable pub drop : ℕ → String → String
drop zero s = s
drop (suc n) String.[] = ""
drop (suc n) (String.◌∷◌ c s) = drop n s

unfoldable pub take : ℕ → String → String
take zero s = ""
take (suc n) String.[] = ""
take (suc n) (String.◌∷◌ c s) = String.◌∷◌ c (take n s)

-- `strings.Contains`
unfoldable pub contains : String → String → Bool
contains String.[] sub = starts_with "" sub
contains (String.◌∷◌ c s) sub = starts_with (String.◌∷◌ c s) sub || contains s sub

-- The texts before and behind the first place where a separator stands.
unfoldable pub cut : String → String → Option (String × String)
unfolding drop
cut String.[] sep = if starts_with "" sep then some ("", "") else none
cut (String.◌∷◌ c s) sep =
    if starts_with (String.◌∷◌ c s) sep
    then some ("", drop (count sep) (String.◌∷◌ c s))
    else Option.map (λ p. (String.◌∷◌ c p.0, p.1)) (cut s sep)

-- `strings.SplitN(s, sep, 2)`, for a separator that is not empty.
unfoldable pub split_n : String → String → List String
unfolding cut
split_n s sep = elim (cut s sep) [ none ↦ s ∷ [] | some (a, b) ↦ a ∷ b ∷ [] ]

-- `strings.SplitAfter(s, sep)[0]`
unfoldable pub split_after_first : String → String → String
unfolding cut
split_after_first s sep = elim (cut s sep) [ none ↦ s | some (a, b) ↦ a <> sep ]

-- `strings.Split` by one ASCII character, given by its code.
abbrev push_char : Char → List String → List String
push_char c [] = String.◌∷◌ c "" ∷ []
push_char c (part ∷ parts) = String.◌∷◌ c part ∷ parts

unfoldable pub split : ℕ → String → List String
split sep String.[] = "" ∷ []
split sep (String.◌∷◌ c s) =
    let rest = split sep s in if eqb (code c) sep then "" ∷ rest else push_char c rest

-- `strings.TrimPrefix`
unfoldable pub trim_prefix : String → String → String
unfolding drop
trim_prefix s p = if starts_with s p then drop (count p) s else s

-- `strings.TrimSuffix`, for a suffix that is not empty.
unfoldable pub trim_suffix : String → String → String
trim_suffix String.[] t = ""
trim_suffix (String.◌∷◌ c s) t = if String.◌∷◌ c s == t then "" else String.◌∷◌ c (trim_suffix s t)

-- The two digits of a byte under `fmt.Sprintf("%x", b)`, and those of a slice of bytes.
abbrev hex_digits : List String
hex_digits =
    "0" ∷ "1" ∷ "2" ∷ "3" ∷ "4" ∷ "5" ∷ "6" ∷ "7" ∷ "8" ∷ "9" ∷ "a" ∷ "b" ∷ "c" ∷ "d" ∷ "e" ∷ "f"
    ∷ []

unfoldable pub hex : List ℕ → String
hex [] = ""
hex (b ∷ bs) = get_or hex_digits (b / 16 % 16) "0" <> (get_or hex_digits (b % 16) "0" <> hex bs)

-- The characters that `[^a-zA-Z0-9 ]+` does not match.
unfoldable pub is_plain : ℕ → Bool
is_plain c =
    leb b'a' c && leb c b'z'
    || leb b'A' c && leb c b'Z'
    || leb b'0' c && leb c b'9'
    || leb 32 c && leb c 32

-- `ReplaceAllString(s, "")` for that expression.
unfoldable pub keep_plain : String → String
unfolding is_plain
keep_plain String.[] = ""
keep_plain (String.◌∷◌ c s) =
    let rest = keep_plain s in if is_plain (code c) then String.◌∷◌ c rest else rest

-- A text is cut exactly where it contains the separator.
pub is_some-cut : (s sep : String) → is_some (cut s sep) ≡ contains s sep
unfolding cut contains
is_some-cut String.[] sep = ground arith
is_some-cut (String.◌∷◌ c s) sep = ground (arith, is_some-cut s sep)
