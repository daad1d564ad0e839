-- ===== src/MetallbScan/Upgrades/Laws.antt =====
-- When an upgrade of the nodes counts as being in progress.
use monitoring_wo_webhooks.Prelude.{
  ◌⊎◌, Option-cases, inl, inr, ◌≡◌, refl, String, Bool, true, false, not, ◌&&◌, ◌||◌, ◌==◌,
  if◌then◌else◌, Option, none, some, List, [], ◌∷◌, arith,
}
use monitoring_wo_webhooks.Runtime.{Fallible, ok, err, Dict, Session, returned, panicked, M}
use monitoring_wo_webhooks.MetallbScan.Upgrades.{
  State, ConfigPool, Node, has_pending, find_pending, check_node_mcp_annotations, check_conditions,
  check_pools, check_mcp_in_progress,
}

-- Whether a pool reports that it is updating.
abbrev pub updates : List State → Bool
updates [] = false
updates ((kind, status) ∷ cs) = kind == "Updating" && status == "True" || updates cs

-- Whether an annotation of a node gives a state other than "Done".
abbrev pub is_undone : Dict → Bool
is_undone [] = false
is_undone ((key, value) ∷ more) =
    key == "machineconfiguration.openshift.io/state" && not (value == "Done") || is_undone more

abbrev pub any_undone : List Node → Bool
any_undone [] = false
any_undone (n ∷ ns) = is_undone n.annotations || any_undone ns

-- How the test ends: only pools that are updating count. One without a selector makes it panic
-- (`none`), one whose nodes cannot be listed ends it by that error, and one with a node that is not
-- done is an upgrade in progress.
abbrev pub expected : (Dict → Fallible (List Node)) → List ConfigPool → Option (Fallible Bool)
expected nodes [] = some (ok false)
expected nodes (p ∷ ps) =
    if updates p.conditions
    then elim p.selector [
      | none ↦ none
      | some match_labels ↦ elim (nodes match_labels) [
        | err e ↦ some (err e)
        | ok ns ↦ if any_undone ns then some (ok true) else expected nodes ps
      ]
    ]
    else expected nodes ps

has_pending_lem : (d : Dict) → has_pending d ≡ is_undone d
unfolding has_pending
has_pending_lem [] = refl
has_pending_lem ((key, value) ∷ more) = ground (arith, has_pending_lem more)

find_pending_lem : (ns : List Node) → (find_pending ns).0 ≡ any_undone ns
unfolding find_pending
find_pending_lem [] = refl
find_pending_lem (n ∷ ns) = ground (arith, has_pending_lem n.annotations, find_pending_lem ns)

listed :
    (r : Fallible (List Node)) → ((e : String) × (r ≡ err e)) ⊎ ((ns : List Node) × (r ≡ ok ns))
listed (err e) = inl (e, refl)
listed (ok ns) = inr (ns, refl)

-- What the loop over the conditions gives for a pool that is updating.
abbrev pub answer_of : (Dict → Fallible (List Node)) → Option Dict → Option (Fallible Bool)
answer_of nodes none = none
answer_of nodes (some match_labels) = elim (nodes match_labels) [
  | err e ↦ some (err e)
  | ok ns ↦ some (ok (any_undone ns))
]

module _ {St : Type 0} (nodes : Dict → Fallible (List Node)) where
  abbrev pub ends : Option (Fallible Bool) → M St (Fallible Bool)
  ends none s = panicked s
  ends (some r) s = returned r s

  check_conditions_lem :
      (selector : Option Dict) (cs : List State) (s : Session St)
      → check_conditions nodes selector cs s
        ≡ ends (if updates cs then answer_of nodes selector else some (ok false)) s
  unfolding check_conditions check_node_mcp_annotations
  check_conditions_lem selector [] s = refl
  check_conditions_lem none ((kind, status) ∷ cs) s = ground (arith, check_conditions_lem none cs s)
  check_conditions_lem (some l) ((kind, status) ∷ cs) s =
      let rest = check_conditions_lem (some l) cs s in
      elim (listed (nodes l)) [
        | inl (e, h) ↦ ground arith
        | inr (ns, h) ↦ ground (arith, find_pending_lem ns)
      ]

  check_pools_lem :
      (ps : List ConfigPool) (s : Session St) → check_pools nodes ps s ≡ ends (expected nodes ps) s
  unfolding check_pools
  check_pools_lem [] s = refl
  check_pools_lem (p ∷ ps) s =
      let rest = check_pools_lem ps s in
      let first = check_conditions_lem p.selector p.conditions s in
      elim (Option-cases p.selector) [
        | inl h ↦ ground arith
        | inr (l, h) ↦ elim (listed (nodes l)) [
          | inl (e, g) ↦ ground arith
          | inr (ns, g) ↦ ground arith
        ]
      ]

-- `CheckMCPINProgress` goes over the pools in their order and looks only at those that report
-- "Updating" as "True". The first of them that has no node selector makes it panic, the first whose
-- nodes cannot be listed ends it with that error, and the first that has a node with an annotation
-- `machineconfiguration.openshift.io/state` other than "Done" ends it with true; where there is
-- none, the result is false.
pub check_mcp_in_progress_lem :
    {St : Type 0} (nodes : Dict → Fallible (List Node)) (ps : List ConfigPool) (s : Session St)
    → check_mcp_in_progress nodes (ok ps) s ≡ ends nodes (expected nodes ps) s
unfolding check_mcp_in_progress
check_mcp_in_progress_lem nodes ps s = check_pools_lem nodes ps s
