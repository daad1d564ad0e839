-- ===== src/Slices/Laws.antt =====
-- What the guarded operations on slices do, against plain recursions on lists.
use monitoring_wo_webhooks.Prelude.{
  ℕ, suc, ◌≡◌, refl, String, true, false, not, ◌&&◌, ◌||◌, some, List, [], ◌∷◌, ◌++◌, ◌==◌, arith,
  eq_iff, if◌then◌else◌, mem, Distinct, first_index, inl, inr, Bool-cases, mem-append_one,
  append_one-Distinct,
}
use monitoring_wo_webhooks.Runtime.{Outside, Session, returned}
use monitoring_wo_webhooks.Runtime.Laws.{IsDocumented}
use monitoring_wo_webhooks.Slices.{delete_at, delete_listed, append_absent}

-- The list without the first place where a text stands.
unfoldable pub remove : String → List String → List String
remove v [] = []
remove v (x ∷ xs) = if x == v then xs else x ∷ remove v xs

delete_at-first_index :
    (v : String) (xs : List String)
    → mem v xs ≡ true
    → (i : ℕ) × (first_index xs v ≡ some i) × (delete_at xs i ≡ some (remove v xs))
unfolding remove delete_at
delete_at-first_index v [] h = absurd (ground arith)
delete_at-first_index v (x ∷ xs) h = elim (Bool-cases (x == v)) [
  | inl here ↦ (0, ground arith, ground arith)
  | inr there ↦
      let (i, found, gone) = delete_at-first_index v xs (ground arith) in
      (suc i, ground arith, ground arith)
]

pub remove_absent : (v : String) (xs : List String) → mem v xs ≡ false → remove v xs ≡ xs
unfolding remove
remove_absent v [] h = refl
remove_absent v (x ∷ xs) h = ground (arith, remove_absent v xs)

-- Where the two functions on slices do what their documentation says, the guarded deletion never
-- panics, and removes the first occurrence.
pub delete_listed_lem :
    {St : Type 0} (o : Outside) (doc : IsDocumented o) (xs : List String) (v : String)
    (s : Session St)
    → delete_listed o xs v s ≡ returned (remove v xs) s
unfolding delete_listed
delete_listed_lem o doc xs v s = elim (Bool-cases (mem v xs)) [
  | inl listed ↦
      let (i, found, gone) = delete_at-first_index v xs listed in
      ground (arith, doc.contains_lem xs v, doc.index_lem xs v)
  | inr absent ↦ ground (arith, doc.contains_lem xs v, remove_absent v xs)
]

pub mem-remove :
    (v w : String) (xs : List String)
    → Distinct xs
    → mem w (remove v xs) ≡ (mem w xs && not (w == v))
unfolding remove
mem-remove v w [] d = refl
mem-remove v w (x ∷ xs) d =
    ground (arith, mem-remove v w xs d.1, eq_iff x v, eq_iff x w, eq_iff w v)

pub remove-Distinct : (v : String) (xs : List String) → Distinct xs → Distinct (remove v xs)
unfolding remove
remove-Distinct v [] d = tt
remove-Distinct v (x ∷ xs) d = ground (arith, remove-Distinct v xs d.1, mem-remove v x xs d.1)

pub append_absent_lem :
    (o : Outside) (doc : IsDocumented o) (xs : List String) (v : String)
    → append_absent o xs v ≡ (if mem v xs then xs else xs ++ v ∷ [])
unfolding append_absent
append_absent_lem o doc xs v = ground (arith, doc.contains_lem xs v)

pub mem-append_absent :
    (o : Outside) (doc : IsDocumented o) (xs : List String) (v w : String)
    → mem w (append_absent o xs v) ≡ (mem w xs || w == v)
mem-append_absent o doc xs v w =
    rw (append_absent_lem o doc) (ground (arith, mem-append_one w v xs, eq_iff v w, eq_iff w v))

pub append_absent-Distinct :
    (o : Outside) (doc : IsDocumented o) (xs : List String) (v : String)
    → Distinct xs
    → Distinct (append_absent o xs v)
append_absent-Distinct o doc xs v d =
    rw (append_absent_lem o doc) (ground (arith, append_one-Distinct v xs d))
