-- ===== src/Conditions.antt =====
-- The list of status conditions, as `GetReadyCondition` and `SetReadyCondition` of the four
-- internal/*/util.go keep it. They differ only in the type of the condition that they look for.
pub mod Laws
use monitoring_wo_webhooks.Prelude.{
  ℕ, String, Option, none, some, List, [], ◌∷◌, ◌++◌, ◌==◌, if◌then◌else◌,
}
use monitoring_wo_webhooks.Prelude.Int.{ℤ}
use monitoring_wo_webhooks.Runtime.{Outside, World, now}

pub record Condition : Type 0 where
  pub ctype : String
  pub status : String
  pub last_transition_time : Option ℤ
  pub reason : String
  pub message : String

-- The first condition of a type.
unfoldable pub get_condition : String → List Condition → Option Condition
get_condition kind [] = none
get_condition kind (c ∷ cs) = if c.ctype == kind then some c else get_condition kind cs

-- The loop that writes the condition back, in the place of the first one of its type.
unfoldable pub replace_condition : String → Condition → List Condition → List Condition
replace_condition kind ready [] = []
replace_condition kind ready (c ∷ cs) =
    if c.ctype == kind then ready ∷ cs else c ∷ replace_condition kind ready cs

-- A condition that was never set, as a Go literal leaves it.
abbrev pub blank : String → Condition
blank kind = record {
  ctype = kind;
  status = "";
  last_transition_time = none;
  reason = "";
  message = "";
}

module _ (o : Outside) where
  -- The clock is read only if the status changes.
  unfoldable pub stamp : String → String → String → Condition → World → Condition × World
  stamp status reason message c w =
      if c.status == status
      then (record c { reason = reason; message = message }, w)
      else let t = now o w in
        (
          record {
            ctype = c.ctype;
            status = status;
            last_transition_time = some t.0;
            reason = reason;
            message = message;
          },
          t.1,
        )

  unfoldable pub set_condition :
      String → String → String → String → List Condition → World → List Condition × World
  set_condition kind status reason message cs w = elim (get_condition kind cs) [
    | none ↦
        let r = stamp status reason message (blank kind) w in
        (replace_condition kind r.0 (cs ++ blank kind ∷ []), r.1)
    | some c ↦ let r = stamp status reason message c w in (replace_condition kind r.0 cs, r.1)
  ]
