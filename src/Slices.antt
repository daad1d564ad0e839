-- ===== src/Slices.antt =====
-- The slices of texts in the statuses: `deleteElementSlice` of
-- internal/controller/containerscan_controller.go, and how the controllers guard it and `append`.
pub mod Laws
use monitoring_wo_webhooks.Prelude.{
  ℕ, zero, suc, String, Bool, true, false, not, Option, none, some, List, [], ◌∷◌, ◌++◌,
  if◌then◌else◌,
}
use mathlib.Core.Option
use monitoring_wo_webhooks.Prelude.Int.{ℤ, pos, negsuc}
use monitoring_wo_webhooks.Runtime.{Outside, M, Outcome, returned, panicked, pure}

-- `append(slice[:index], slice[index+1:]...)`; `none` is the panic of an index out of range.
unfoldable pub delete_at : List String → ℕ → Option (List String)
delete_at [] i = none
delete_at (x ∷ xs) zero = some xs
delete_at (x ∷ xs) (suc i) = Option.map (λ ys. x ∷ ys) (delete_at xs i)

unfoldable pub delete_element_slice : List String → ℤ → Option (List String)
unfolding delete_at
delete_element_slice xs (pos i) = delete_at xs i
delete_element_slice xs (negsuc i) = none

module _ (o : Outside) {St : Type 0} where
  -- `if slices.Contains(xs, v) { idx := slices.Index(xs, v); xs = deleteElementSlice(xs, idx) }`
  unfoldable pub delete_listed : List String → String → M St (List String)
  unfolding delete_element_slice
  delete_listed xs v s =
      if o.contains xs v
      then elim (delete_element_slice xs (o.index xs v)) [
        | none ↦ panicked s
        | some ys ↦ returned ys s
      ]
      else returned xs s

-- `if !slices.Contains(xs, v) { xs = append(xs, v) }`
unfoldable pub append_absent : Outside → List String → String → List String
append_absent o xs v = if o.contains xs v then xs else xs ++ v ∷ []
