-- ===== src/VmScan/Placement/Laws.antt =====
-- The verdict of the placement check, and the list of affected targets that goes with it.
use monitoring_wo_webhooks.Prelude.{
  ◌≡◌, refl, ◌∙◌, String, Bool, true, false, not, List, [], ◌∷◌, ◌++◌, arith, if◌then◌else◌,
  is_some, length, mem, ltb, ap, sym,
}
use monitoring_wo_webhooks.Runtime.{Outside, Session, ok}
use monitoring_wo_webhooks.Runtime.Laws.{Ensures, Ensures-returned, returns, IsDocumented}
use monitoring_wo_webhooks.VmScan.Types.{VmScanSpec, VmScanStatus, Vmi, VmApi}
use monitoring_wo_webhooks.VmScan.Migrations.{listed}
use monitoring_wo_webhooks.VmScan.Placement.{
  Poll, Placed, on_node, place, affected_entry, is_crowded, check_node, check_nodes,
  check_namespaces,
}
use monitoring_wo_webhooks.VmScan.Placement.Frame.{IsFilled, add_all, check_node-Moves}

abbrev pub is_empty : List String → Bool
is_empty [] = true
is_empty (x ∷ xs) = false

-- What the check leaves, beside the list of affected targets.
pub record Kept (s t : Session VmScanStatus) : Type 0 where
  pub polled : t.status.last_poll_time ≡ s.status.last_poll_time
  pub conditions : t.status.conditions ≡ s.status.conditions
  pub migrations : t.status.migrations ≡ s.status.migrations
  pub payload : is_some t.payload ≡ is_some s.payload

Kept-trans : {s t u : Session VmScanStatus} → Kept s t → Kept t u → Kept s u
Kept-trans p q = record {
  polled = q.polled ∙ p.polled;
  conditions = q.conditions ∙ p.conditions;
  migrations = q.migrations ∙ p.migrations;
  payload = q.payload ∙ p.payload;
}

-- The verdict on the last node of the list, whatever the nodes before it are.
abbrev pub last_verdict : Placed → List String → Bool → Bool
last_verdict placed [] before = before
last_verdict placed (node ∷ nodes) before = last_verdict placed nodes (is_crowded node placed)

-- All instances of the namespaces, with those that were placed before.
abbrev pub placed_in : VmApi → List String → Placed → Placed
placed_in api [] placed = placed
placed_in api (ns ∷ namespaces) placed =
    placed_in api namespaces (place (listed (api.placed ns)) placed)

-- The instances of every namespace can be listed.
abbrev pub AllListed : VmApi → List String → Type 0
AllListed api [] = Unit {0}
AllListed api (ns ∷ namespaces) =
    ((vms : List Vmi) × (api.placed ns ≡ ok vms)) × AllListed api namespaces

add_one_nonempty :
    (v : String) (xs : List String) → is_empty (if mem v xs then xs else xs ++ v ∷ []) ≡ false
add_one_nonempty v [] = refl
add_one_nonempty v (x ∷ xs) = ground arith

add_all_nonempty :
    (node : String) (vmis xs : List String)
    → is_empty xs ≡ false
    → is_empty (add_all node vmis xs) ≡ false
unfolding add_all
add_all_nonempty node [] xs h = h
add_all_nonempty node (vmi ∷ vmis) xs h =
    add_all_nonempty node vmis _ (add_one_nonempty (affected_entry node vmi) xs)

crowded_nonempty :
    (node : String) (placed : Placed) (vmis xs : List String)
    → ltb 1 (length vmis) ≡ true
    → is_empty (add_all node vmis xs) ≡ false
unfolding add_all
crowded_nonempty node placed [] xs h = absurd (ground arith)
crowded_nonempty node placed (vmi ∷ vmis) xs h =
    add_all_nonempty node vmis _ (add_one_nonempty (affected_entry node vmi) xs)

-- The list is empty exactly if the verdict is that no node is crowded.
abbrev pub Agrees : Bool → Session VmScanStatus → Type 0
Agrees affected t = is_empty t.status.affected_targets ≡ not affected

next-Agrees :
    (node : String) (placed : Placed) (xs : List String) (b : Bool) (t : Session VmScanStatus)
    → b ≡ is_crowded node placed
    → t.status.affected_targets
      ≡ (if is_crowded node placed then add_all node (on_node node placed) xs else [])
    → Agrees b t
unfolding is_crowded
next-Agrees node placed xs b t e m =
    ground (arith, crowded_nonempty node placed (on_node node placed) xs)

-- The list and the verdict need not agree before the first round of a loop, only after it.
abbrev pub Starts : List String → Bool → Session VmScanStatus → Type 0
Starts [] before s = Agrees before s
Starts (x ∷ xs) before s = Unit {0}

Agrees-Starts :
    (xs : List String) (b : Bool) (s : Session VmScanStatus) → Agrees b s → Starts xs b s
Agrees-Starts [] b s h = h
Agrees-Starts (x ∷ xs) b s h = tt

module _ (o : Outside) (doc : IsDocumented o) (spec : VmScanSpec) (username password : String)
    (poll : Poll) where
  check_node-Agrees :
      (ns node : String) (placed : Placed) (s : Session VmScanStatus)
      → IsFilled spec s
      → Ensures
          (λ b t. (b ≡ is_crowded node placed) × Agrees b t × Kept s t)
          (check_node o spec username password poll ns placed node s)
  check_node-Agrees ns node placed s filled =
      let (b, t, end, p) =
        returns (check_node-Moves o doc spec username password ns node poll placed s filled) in
      let m = p.1 in
      Ensures-returned _ end (
        p.0,
        next-Agrees node placed s.status.affected_targets b t p.0 m.affected,
        record {
          polled = m.polled;
          conditions = m.conditions;
          migrations = m.migrations;
          payload = m.payload;
        },
      )

  -- The loop over the nodes returns. Its verdict is that on the last node, whatever was found on
  -- the nodes before, and the list of affected targets is empty exactly if that node is fine.
  pub check_nodes-Agrees :
      (ns : String) (placed : Placed) (nodes : List String) (before : Bool)
      (s : Session VmScanStatus)
      → IsFilled spec s
      → Starts nodes before s
      → Ensures
          (λ b t. (b ≡ last_verdict placed nodes before) × Agrees b t × Kept s t)
          (check_nodes o spec username password poll ns placed nodes before s)
  unfolding check_nodes
  check_nodes-Agrees ns placed [] before s filled starts = unfold Ensures in ground arith
  check_nodes-Agrees ns placed (node ∷ nodes) before s filled starts =
      let (b, t, checked, p) = returns (check_node-Agrees ns node placed s filled) in
      let (c, u, end, q) = returns (
        check_nodes-Agrees ns placed nodes b t (λ h. p.2.payload ∙ filled h)
          (Agrees-Starts nodes b t p.1)) in
      Ensures-returned _ {a = c} {s = u} (ground arith)
        (q.0 ∙ ap (last_verdict placed nodes) p.0, q.1, Kept-trans p.2 q.2)

  -- The loop over the namespaces, on at least one node.
  pub check_namespaces-Agrees :
      (api : VmApi) (node : String) (nodes namespaces : List String) (placed : Placed)
      (before : Bool) (s : Session VmScanStatus)
      → AllListed api namespaces
      → IsFilled spec s
      → before ≡ last_verdict placed (node ∷ nodes) false
      → Starts namespaces before s
      → Ensures
          (λ r t.
            (r ≡ ok (last_verdict (placed_in api namespaces placed) (node ∷ nodes) false))
            × (is_empty t.status.affected_targets
                ≡ not (last_verdict (placed_in api namespaces placed) (node ∷ nodes) false))
            × Kept s t)
          (check_namespaces o spec username password poll api
            (node ∷ nodes)
            namespaces
            placed
            before
            s)
  unfolding check_namespaces
  check_namespaces-Agrees api node nodes [] placed before s all filled e starts =
      unfold Ensures in ground arith
  check_namespaces-Agrees api node nodes (ns ∷ namespaces) placed before s all filled e starts =
      let (vms, answered) = all.0 in
      let (b, t, checked, p) =
        returns (check_nodes-Agrees ns (place vms placed) (node ∷ nodes) before s filled tt) in
      let (r, u, end, q) = returns (
        check_namespaces-Agrees api node nodes namespaces (place (listed (api.placed ns)) placed) b
          t all.1 (λ h. p.2.payload ∙ filled h)
          (p.0
            ∙ ap (λ l. last_verdict (place (listed l) placed) (node ∷ nodes) false) (sym answered))
          (Agrees-Starts namespaces b t p.1)) in
      Ensures-returned _ {a = r} {s = u} (ground arith) (q.0, q.1, Kept-trans p.2 q.2)

pub last_verdict_unplaced : (nodes : List String) → false ≡ last_verdict [] nodes false
unfolding is_crowded on_node
last_verdict_unplaced [] = refl
last_verdict_unplaced (node ∷ nodes) = last_verdict_unplaced nodes
