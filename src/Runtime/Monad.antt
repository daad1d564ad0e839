-- ===== src/Runtime/Monad.antt =====
-- Computations over the world, a status and the notification data, which return or panic.
use monitoring_wo_webhooks.Prelude.{
  ℕ, String, Bool, true, false, Option, none, some, List, ◌∷◌, get_elem?,
}
use monitoring_wo_webhooks.Runtime.Defs.{World, Dict}

-- `payload` is the map of the config map that every notification writes its fields to. It may be
-- a nil map.
pub record Session (St : Type 0) : Type 0 where
  pub world : World
  pub status : St
  pub payload : Option Dict

pub data Outcome (St A : Type 0) : Type 0 where
  returned : A → Session St → Outcome St A
  panicked : Session St → Outcome St A

abbrev pub M : Type 0 → Type 0 → Type 0
M St A = Session St → Outcome St A

abbrev pub bind : {St A B : Type 0} → Outcome St A → (A → Session St → Outcome St B) → Outcome St B
bind (returned a s) f = f a s
bind (panicked s) f = panicked s

infixl 5 ◌>>=◌ ◌>>◌
abbrev pub ◌>>=◌ : {St A B : Type 0} → M St A → (A → M St B) → M St B
◌>>=◌ m f s = bind (m s) f

abbrev pub ◌>>◌ : {St B : Type 0} → M St (Unit {0}) → M St B → M St B
◌>>◌ m k s = bind (m s) (λ _. k)

module _ {St : Type 0} where
  abbrev pub pure : {A : Type 0} → A → M St A
  pure a s = returned a s

  abbrev pub panic : {A : Type 0} → M St A
  panic s = panicked s

  abbrev pub when : Bool → M St (Unit {0}) → M St (Unit {0})
  when true m = m
  when false m = pure tt

  -- A call that changes the world alone.
  abbrev pub on_world : {A : Type 0} → (World → A × World) → M St A
  on_world f s = let r = f s.world in returned r.0 (record s { world = r.1 })

  abbrev pub act : (World → World) → M St (Unit {0})
  act f s = returned tt (record s { world = f s.world })

  -- A call that reads the world.
  abbrev pub look : {A : Type 0} → (World → A) → M St A
  look f s = returned (f s.world) s

  abbrev pub get_status : M St St
  get_status s = returned s.status s

  abbrev pub modify : (St → St) → M St (Unit {0})
  modify f s = returned tt (record s { status = f s.status })

  -- `xs[i]`, which panics out of range.
  abbrev pub at : List String → ℕ → M St String
  at xs i s = elim (get_elem? xs i) [ none ↦ panicked s | some x ↦ returned x s ]

  -- `data[key] = value`, which panics on a nil map.
  abbrev pub set_data : String → String → M St (Unit {0})
  set_data key value s = elim s.payload [
    | none ↦ panicked s
    | some d ↦ returned tt (record s { payload = some ((key, value) ∷ d) })
  ]
