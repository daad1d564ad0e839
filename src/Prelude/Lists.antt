-- ===== src/Prelude/Lists.antt =====
-- Lists measured and indexed by native numbers, under the library's names, and lists of texts.
use Prim.Native.Nat.{ℕ, zero, suc}
use Prim.Native.String.{String}
use mathlib.Core.Path.{◌≡◌, refl}
use mathlib.Core.Bool.{Bool, false, ◌||◌}
use mathlib.Core.Option.{Option, none, some}
use mathlib.Core.Option
use mathlib.Core.List.{List, [], ◌∷◌, ◌++◌}
use native.Mathlib.Omega.{arith}
use text.Mathlib.Text.{◌==◌}
use text.Mathlib.TextEquality.{eq_iff}
use monitoring_wo_webhooks.Prelude.Tests.{if◌then◌else◌}

module _ {ℓ} {A : Type ℓ} where
  abbrev pub length : List A → ℕ
  length [] = 0
  length (x ∷ xs) = suc (length xs)

  abbrev pub get_elem? : List A → ℕ → Option A
  get_elem? [] i = none
  get_elem? (x ∷ xs) zero = some x
  get_elem? (x ∷ xs) (suc i) = get_elem? xs i

  abbrev pub get_or : List A → ℕ → A → A
  get_or [] i d = d
  get_or (x ∷ xs) zero d = x
  get_or (x ∷ xs) (suc i) d = get_or xs i d

-- Whether a text stands in a list.
abbrev pub mem : String → List String → Bool
mem v [] = false
mem v (x ∷ xs) = x == v || mem v xs

-- No text stands in the list twice.
abbrev pub Distinct : List String → Type 0
Distinct [] = Unit
Distinct (x ∷ xs) = (mem x xs ≡ false) × Distinct xs

-- The position at which a text first stands in a list.
abbrev pub first_index : List String → String → Option ℕ
first_index [] v = none
first_index (x ∷ xs) v = if x == v then some 0 else Option.map suc (first_index xs v)

pub mem-append_one : (v w : String) (xs : List String) → mem v (xs ++ w ∷ []) ≡ (mem v xs || w == v)
mem-append_one v w [] = ground arith
mem-append_one v w (x ∷ xs) = ground (arith, mem-append_one v w xs)

pub append_one-Distinct :
    (v : String) (xs : List String) → Distinct xs → mem v xs ≡ false → Distinct (xs ++ v ∷ [])
append_one-Distinct v [] d h = (refl, tt)
append_one-Distinct v (x ∷ xs) d h =
    ground (arith, append_one-Distinct v xs d.1, mem-append_one x v xs, eq_iff x v, eq_iff v x)
