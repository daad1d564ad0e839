-- ===== src/MetallbScan/Upgrades.antt =====
-- The state of the machine config pools and of the tuned profiles: `CheckMCPINProgress` and
-- `CheckNodeMcpAnnotations` of internal/metallbscan/util/util.go, `isMcpUpdating` and
-- `retrieveTunedProfiles` of internal/controller/metallbscan_controller.go.
pub mod Laws
use monitoring_wo_webhooks.Prelude.{
  String, ◌<>◌, Bool, true, false, not, ◌&&◌, ◌||◌, Option, none, some, List, [], ◌∷◌, ◌++◌, ◌==◌,
  if◌then◌else◌,
}
use monitoring_wo_webhooks.Runtime.{
  Fallible, ok, err, Dict, M, Outcome, Session, pure, panic, returned, panicked, ◌>>=◌,
}

-- The type and the status of a condition.
abbrev pub State : Type 0
State = String × String

-- `selector` are the labels of the nodes of a pool, where its `NodeSelector` is not nil.
pub record ConfigPool : Type 0 where
  pub name : String
  pub conditions : List State
  pub selector : Option Dict

pub record Node : Type 0 where
  pub name : String
  pub annotations : Dict

abbrev pub is_updating : State → Bool
is_updating c = c.0 == "Updating" && c.1 == "True"

-- Whether an annotation says that the node is not done.
abbrev pub is_pending : String × String → Bool
is_pending a = a.0 == "machineconfiguration.openshift.io/state" && not (a.1 == "Done")

unfoldable pub has_pending : Dict → Bool
has_pending [] = false
has_pending (a ∷ more) = is_pending a || has_pending more

unfoldable pub find_pending : List Node → Bool × String
unfolding has_pending
find_pending [] = (false, "")
find_pending (n ∷ ns) = if has_pending n.annotations then (true, n.name) else find_pending ns

unfoldable pub check_node_mcp_annotations : Fallible (List Node) → Fallible (Bool × String)
unfolding find_pending
check_node_mcp_annotations (err e) = err e
check_node_mcp_annotations (ok nodes) = ok (find_pending nodes)

module _ {St : Type 0} (nodes : Dict → Fallible (List Node)) where
  -- The loop over the conditions of a pool, on the answers of the API server for its nodes. It reads
  -- the labels through the pointer to the selector.
  unfoldable pub check_conditions : Option Dict → List State → M St (Fallible Bool)
  unfolding check_node_mcp_annotations
  check_conditions selector [] = pure (ok false)
  check_conditions selector (c ∷ cs) =
      let rest = check_conditions selector cs in
      if is_updating c
      then elim selector [
        | none ↦ panic
        | some match_labels ↦ elim (check_node_mcp_annotations (nodes match_labels)) [
          | err e ↦ pure (err e)
          | ok (true, name) ↦ pure (ok true)
          | ok (false, name) ↦ rest
        ]
      ]
      else rest

  unfoldable pub check_pools : List ConfigPool → M St (Fallible Bool)
  unfolding check_conditions
  check_pools [] = pure (ok false)
  check_pools (p ∷ ps) =
      let rest = check_pools ps in
      do
        found ← check_conditions p.selector p.conditions
        elim found [ err e ↦ pure (err e) | ok true ↦ pure (ok true) | ok false ↦ rest ]

  unfoldable pub check_mcp_in_progress : Fallible (List ConfigPool) → M St (Fallible Bool)
  unfolding check_pools
  check_mcp_in_progress (err e) = pure (err e)
  check_mcp_in_progress (ok pools) = check_pools pools

unfoldable pub has_updating : List State → Bool
has_updating [] = false
has_updating (c ∷ cs) = is_updating c || has_updating cs

unfoldable pub find_updating : List ConfigPool → Bool × String
unfolding has_updating
find_updating [] = (false, "")
find_updating (p ∷ ps) = if has_updating p.conditions then (true, p.name) else find_updating ps

unfoldable pub is_mcp_updating : Fallible (List ConfigPool) → Fallible (Bool × String)
unfolding find_updating
is_mcp_updating (err e) = err e
is_mcp_updating (ok pools) = ok (find_updating pools)

pub record Profile : Type 0 where
  pub name : String
  pub tuned : String
  pub conditions : List State

abbrev pub profile_key : Profile → String
profile_key p = p.tuned <> (":" <> p.name)

-- Both conditions of a profile may add it.
abbrev pub is_trouble : State → Bool
is_trouble c = c.0 == "Applied" && c.1 == "False" || c.0 == "Degraded" && c.1 == "True"

unfoldable pub add_troubles : String → List State → List String → List String
add_troubles key [] affected = affected
add_troubles key (c ∷ cs) affected =
    add_troubles key cs (if is_trouble c then affected ++ key ∷ [] else affected)

unfoldable pub add_profiles : List Profile → List String × List String → List String × List String
unfolding add_troubles
add_profiles [] lists = lists
add_profiles (p ∷ ps) (all, affected) =
    add_profiles ps (all ++ profile_key p ∷ [], add_troubles (profile_key p) p.conditions affected)

unfoldable pub retrieve_tuned_profiles :
    Fallible (List Profile) → Fallible (List String × List String)
unfolding add_profiles
retrieve_tuned_profiles (err e) = err e
retrieve_tuned_profiles (ok profiles) = ok (add_profiles profiles ([], []))
