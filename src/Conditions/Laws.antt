-- ===== src/Conditions/Laws.antt =====
-- What a status condition holds after it was set, and what setting it leaves alone.
use monitoring_wo_webhooks.Prelude.{
  ◌+◌, ◌≡◌, refl, ◌∙◌, ◌≢◌, inl, inr, String, none, some, List, [], ◌∷◌, ◌++◌, arith, eq_iff,
  if◌then◌else◌, length, is_some, Option-cases, Bool-cases, ◌==◌,
}
use monitoring_wo_webhooks.Runtime.{Outside, World, now}
use monitoring_wo_webhooks.Conditions.{
  now, Condition, get_condition, replace_condition, blank, stamp, set_condition,
}

get_condition-ctype :
    (kind : String) (cs : List Condition) (c : Condition)
    → get_condition kind cs ≡ some c
    → c.ctype ≡ kind
unfolding get_condition
get_condition-ctype kind [] c h = ground arith
get_condition-ctype kind (d ∷ cs) c h =
    ground (arith, eq_iff d.ctype kind, get_condition-ctype kind cs c)

get-replace :
    (kind : String) (r : Condition) (cs : List Condition) (c : Condition)
    → r.ctype ≡ kind
    → get_condition kind cs ≡ some c
    → get_condition kind (replace_condition kind r cs) ≡ some r
unfolding get_condition replace_condition
get-replace kind r [] c e h = ground arith
get-replace kind r (d ∷ cs) c e h =
    ground (arith, eq_iff d.ctype kind, eq_iff r.ctype kind, get-replace kind r cs c e)

get-replace_other :
    (kind other : String) (r : Condition) (cs : List Condition)
    → r.ctype ≡ kind
    → other ≢ kind
    → get_condition other (replace_condition kind r cs) ≡ get_condition other cs
unfolding get_condition replace_condition
get-replace_other kind other r [] e h = refl
get-replace_other kind other r (d ∷ cs) e h = ground (
  arith,
  eq_iff r.ctype other,
  eq_iff d.ctype kind,
  eq_iff d.ctype other,
  get-replace_other kind other r cs e h,
)

length-replace :
    (kind : String) (r : Condition) (cs : List Condition)
    → length (replace_condition kind r cs) ≡ length cs
unfolding replace_condition
length-replace kind r [] = refl
length-replace kind r (c ∷ cs) = ground (arith, length-replace kind r cs)

get-append_blank :
    (kind : String) (cs : List Condition)
    → get_condition kind cs ≡ none
    → get_condition kind (cs ++ blank kind ∷ []) ≡ some (blank kind)
unfolding get_condition
get-append_blank kind [] h = ground (arith, eq_iff kind kind)
get-append_blank kind (c ∷ cs) h = ground (arith, get-append_blank kind cs)

get-append_other :
    (kind other : String) (cs : List Condition)
    → other ≢ kind
    → get_condition other (cs ++ blank kind ∷ []) ≡ get_condition other cs
unfolding get_condition
get-append_other kind other [] h = ground (arith, eq_iff kind other)
get-append_other kind other (c ∷ cs) h = ground (arith, get-append_other kind other cs h)

length-append_one : (c : Condition) (cs : List Condition) → length (cs ++ c ∷ []) ≡ length cs + 1
length-append_one c [] = omega arith
length-append_one c (d ∷ cs) = omega (arith, length-append_one c cs)

module _ (o : Outside) (kind status reason message : String) where
  stamp-ctype : (c : Condition) (w : World) → (stamp o status reason message c w).0.ctype ≡ c.ctype
  unfolding stamp
  stamp-ctype c w = ground arith

  abbrev stamped : Condition → World → Condition
  stamped c w = (stamp o status reason message c w).0

  -- What `GetReadyCondition` finds after `SetReadyCondition` is the old condition, or a blank one,
  -- after `stamp`.
  pub get-set :
      (cs : List Condition) (w : World)
      → get_condition kind (set_condition o kind status reason message cs w).0
        ≡ some
            (stamp o status reason message
              (elim (get_condition kind cs) [ none ↦ blank kind | some c ↦ c ])
              w).0
  unfolding set_condition
  get-set cs w = elim (Option-cases (get_condition kind cs)) [
    | inl absent ↦
        rw (absent, set_condition)
          (get-replace kind (stamped (blank kind) w) (cs ++ blank kind ∷ []) (blank kind)
            (stamp-ctype (blank kind) w) (get-append_blank kind cs absent))
    | inr (c, found) ↦
        rw (found, set_condition)
          (get-replace kind (stamped c w) cs c
            (stamp-ctype c w ∙ get_condition-ctype kind cs c found) found)
  ]

  -- Setting a condition leaves what is found of another type as it was.
  pub get-set_other :
      (other : String) (cs : List Condition) (w : World)
      → other ≢ kind
      → get_condition other (set_condition o kind status reason message cs w).0
        ≡ get_condition other cs
  unfolding set_condition
  get-set_other other cs w h = elim (Option-cases (get_condition kind cs)) [
    | inl absent ↦
        rw (absent, set_condition)
          (get-replace_other kind other (stamped (blank kind) w) (cs ++ blank kind ∷ [])
              (stamp-ctype (blank kind) w) h
            ∙ get-append_other kind other cs h)
    | inr (c, found) ↦
        rw (found, set_condition)
          (get-replace_other kind other (stamped c w) cs
            (stamp-ctype c w ∙ get_condition-ctype kind cs c found) h)
  ]

  -- A condition is added only if there was none of its type.
  pub length-set :
      (cs : List Condition) (w : World)
      → length (set_condition o kind status reason message cs w).0
        ≡ (if is_some (get_condition kind cs) then length cs else length cs + 1)
  unfolding set_condition
  length-set cs w = elim (Option-cases (get_condition kind cs)) [
    | inl absent ↦
        rw (absent, set_condition)
          (length-replace kind (stamped (blank kind) w) (cs ++ blank kind ∷ [])
            ∙ length-append_one (blank kind) cs)
    | inr (c, found) ↦ rw (found, set_condition) (length-replace kind (stamped c w) cs)
  ]

  pub stamp-status :
      (c : Condition) (w : World) → (stamp o status reason message c w).0.status ≡ status
  unfolding stamp
  stamp-status c w = ground (arith, eq_iff c.status status)

  pub stamp-message :
      (c : Condition) (w : World) → (stamp o status reason message c w).0.message ≡ message
  unfolding stamp
  stamp-message c w = ground arith

  stamp-log : (c : Condition) (w : World) → (stamp o status reason message c w).1.log ≡ w.log
  unfolding stamp now
  stamp-log c w = ground arith

  stamp-files : (c : Condition) (w : World) → (stamp o status reason message c w).1.files ≡ w.files
  unfolding stamp now
  stamp-files c w = elim (Bool-cases (c.status == status)) [
    | inl same ↦ rw (same, stamp) refl
    | inr other ↦ rw (other, stamp) refl
  ]

  pub set_condition-files :
      (cs : List Condition) (w : World)
      → (set_condition o kind status reason message cs w).1.files ≡ w.files
  unfolding set_condition
  set_condition-files cs w = elim (Option-cases (get_condition kind cs)) [
    | inl absent ↦ rw (absent, set_condition) (stamp-files (blank kind) w)
    | inr (c, found) ↦ rw (found, set_condition) (stamp-files c w)
  ]

  -- Setting a condition only reads the clock.
  pub set_condition-log :
      (cs : List Condition) (w : World)
      → (set_condition o kind status reason message cs w).1.log ≡ w.log
  unfolding set_condition
  set_condition-log cs w = elim (Option-cases (get_condition kind cs)) [
    | inl absent ↦ rw (absent, set_condition) (stamp-log (blank kind) w)
    | inr (c, found) ↦ rw (found, set_condition) (stamp-log c w)
  ]
