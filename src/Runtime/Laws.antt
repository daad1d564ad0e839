-- ===== src/Runtime/Laws.antt =====
-- A logic of total runs: `Ensures P r` says that a run returned, with a result and a session in `P`.
use monitoring_wo_webhooks.Prelude.{
  ℕ, ◌≡◌, refl, String, true, Option, none, some, List, [], ◌∷◌, mem, first_index, is_some,
}
use monitoring_wo_webhooks.Prelude.Int.{ℤ, pos, negsuc}
use monitoring_wo_webhooks.Runtime.Defs.{Outside}
use monitoring_wo_webhooks.Runtime.Monad.{Session, Outcome, returned, panicked}

unfoldable pub Ensures : {St A : Type 0} → (A → Session St → Type 0) → Outcome St A → Type 0
Ensures P (returned a s) = P a s
Ensures P (panicked s) = ⊥

-- What such a run returned, to rewrite by.
pub returns :
    {St A : Type 0} {P : A → Session St → Type 0} {r : Outcome St A}
    → Ensures P r
    → (a : A) × (s : Session St) × (r ≡ returned a s) × P a s
unfolding Ensures
returns {r = returned a s} h = (a, s, refl, h)
returns {r = panicked s} h = absurd h

pub Ensures-returned :
    {St A : Type 0} (P : A → Session St → Type 0) {r : Outcome St A} {a : A} {s : Session St}
    → r ≡ returned a s
    → P a s
    → Ensures P r
unfolding Ensures
Ensures-returned P e h = rw e h

abbrev pub position : Option ℕ → ℤ
position none = negsuc 0
position (some i) = pos i

-- What the documentation of k8s.io/utils/strings/slices and of `utilerrors.NewAggregate` says.
pub record IsDocumented (o : Outside) : Type 0 where
  pub contains_lem : (xs : List String) (v : String) → o.contains xs v ≡ mem v xs
  pub index_lem : (xs : List String) (v : String) → o.index xs v ≡ position (first_index xs v)
  pub aggregate_nil : o.aggregate [] ≡ none
  pub aggregate_none : (es : List (Option String)) → o.aggregate (none ∷ es) ≡ o.aggregate es
  pub aggregate_some :
      (e : String) (es : List (Option String)) → is_some (o.aggregate (some e ∷ es)) ≡ true
