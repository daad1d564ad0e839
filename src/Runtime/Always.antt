-- ===== src/Runtime/Always.antt =====
-- A logic of runs that may panic: `Always P r` says that the session that a run left, by a return or
-- by a panic, is in `P`.
use monitoring_wo_webhooks.Prelude.{
  ◌≡◌, String, List, Option, none, some, ℕ, get_elem?, if◌then◌else◌,
}
use monitoring_wo_webhooks.Runtime.Defs.{Fallible, ok, err}
use monitoring_wo_webhooks.Runtime.Monad.{
  Session, Outcome, returned, panicked, M, bind, pure, at, when,
}
use monitoring_wo_webhooks.Prelude.{Bool, true, false}

unfoldable pub Always : {St A : Type 0} → (Session St → Type 0) → Outcome St A → Type 0
Always P (returned a s) = P s
Always P (panicked s) = P s

module _ {St : Type 0} (P : Session St → Type 0) where
  pub Always-returned :
      {A : Type 0} {r : Outcome St A} {a : A} {s : Session St} → r ≡ returned a s → P s → Always P r
  unfolding Always
  Always-returned e h = rw e h

  -- A part of a run keeps what the rest of it needs.
  pub bind-Always :
      {A B : Type 0} (r : Outcome St A) (f : A → M St B)
      → Always P r
      → ((a : A) (s : Session St) → P s → Always P (f a s))
      → Always P (bind r f)
  unfolding Always
  bind-Always (returned a s) f h k = k a s h
  bind-Always (panicked s) f h k = h

  pub pure-Always : {A : Type 0} (a : A) (s : Session St) → P s → Always P (pure a s)
  unfolding Always
  pure-Always a s h = h

  pub panic-Always : (A : Type 0) (s : Session St) → P s → Always {A = A} P (panicked s)
  unfolding Always
  panic-Always A s h = h

  pub at-Always : (xs : List String) (i : ℕ) (s : Session St) → P s → Always P (at xs i s)
  unfolding Always
  at-Always xs i s h = by (get_elem? xs i)
    where
      by :
          (x : Option String)
          → Always P
              (elim x as (λ _. Outcome St String) [ none ↦ panicked s | some x ↦ returned x s ])
      by none = h
      by (some x) = h

  pub when-Always :
      (b : Bool) (m : M St (Unit {0})) (s : Session St)
      → P s
      → Always P (m s)
      → Always P (when b m s)
  unfolding Always
  when-Always true m s h k = k
  when-Always false m s h k = h

  pub if-Always :
      {A : Type 0} (b : Bool) (m n : M St A) (s : Session St)
      → Always P (m s)
      → Always P (n s)
      → Always P ((if b then m else n) s)
  if-Always true m n s h k = h
  if-Always false m n s h k = k

  pub fallible-Always :
      {A B : Type 0} (r : Fallible A) (f : String → M St B) (g : A → M St B) (s : Session St)
      → ((e : String) → Always P (f e s))
      → ((a : A) → Always P (g a s))
      → Always P ((elim r as (λ _. M St B) [ err e ↦ f e | ok a ↦ g a ]) s)
  fallible-Always (err e) f g s h k = h e
  fallible-Always (ok a) f g s h k = k a

  pub option-Always :
      {A B : Type 0} (r : Option A) (m : M St B) (g : A → M St B) (s : Session St)
      → Always P (m s)
      → ((a : A) → Always P (g a s))
      → Always P ((elim r as (λ _. M St B) [ none ↦ m | some a ↦ g a ]) s)
  option-Always none m g s h k = h
  option-Always (some a) m g s h k = k a
