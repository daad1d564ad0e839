-- ===== src/VmScan/Controller/Runs.antt =====
-- Whole reconciliations of a VM scan: the reply, the condition, the poll time and the lists all
-- follow from where the instances run.
use monitoring_wo_webhooks.Prelude.{
  ℕ, ◌+◌, ◌≡◌, refl, sym, ap, ◌∙◌, String, ◌<>◌, Bool, true, false, not, Option, none, some, List,
  [], ◌∷◌, arith, is_some, is_set, mem, Distinct,
}
use mathlib.Core.Path.{subst}
use monitoring_wo_webhooks.Prelude.Int.{ℤ, ltb_ℤ}
use monitoring_wo_webhooks.Runtime.{Outside, Event, Session, returned, M, now, ok}
use monitoring_wo_webhooks.Runtime.Laws.{Ensures, Ensures-returned, returns, IsDocumented}
use monitoring_wo_webhooks.Cluster.{Reply, Api, past_time}
use monitoring_wo_webhooks.VmScan.Types.{VmScanSpec, VmScanStatus, VmApi}
use monitoring_wo_webhooks.VmScan.Migrations.Laws.{running, check_migrations-Migrated}
use monitoring_wo_webhooks.VmScan.Placement.{Poll, first_poll, later_poll}
use monitoring_wo_webhooks.VmScan.Placement.Frame.{IsFilled}
use monitoring_wo_webhooks.VmScan.Placement.Laws.{
  is_empty, AllListed, last_verdict, placed_in, Starts, check_namespaces-Agrees,
  last_verdict_unplaced,
}
use monitoring_wo_webhooks.VmScan.Controller.{
  finally, trouble, delay, conclude, sweep, poll_if_due, check, load, reconcile_object,
  affected_error, success,
}
use monitoring_wo_webhooks.VmScan.Controller.Laws.{
  placement, report-Reported, finish_error, finish_fine,
}

-- How a poll ends, by whether it found a crowded node.
abbrev pub Concluded :
    Outside → VmScanSpec → Bool → Session VmScanStatus → Reply → Session VmScanStatus → Type 0
Concluded o spec false s r t =
    (r ≡ record { requeue_after = delay spec; error = none })
    × (placement t.status ≡ some ("NonViolated", success))
    × (t.status.external_notified ≡ false)
    × ((k : ℕ) × (t.status.last_poll_time ≡ some (o.now k)))
Concluded o spec true s r t =
    (r ≡ record { requeue_after = delay spec; error = some affected_error })
    × (placement t.status ≡ some ("Violated", trouble <> (": " <> affected_error)))
    × (t.status.last_poll_time ≡ s.status.last_poll_time)

-- The two lists.
pub record Lists (api : VmApi) (namespaces : List String) (found : Bool)
    (s t : Session VmScanStatus) : Type 0 where
  pub affected : is_empty t.status.affected_targets ≡ not found
  pub entries :
      (v : String)
      → mem v t.status.migrations ≡ running api namespaces v (mem v s.status.migrations)
  pub distinct : Distinct t.status.migrations

-- What has to hold for a reconciliation to come to the poll.
pub record Checks (api : Api) (vms : VmApi) (nodes : List String) (spec : VmScanSpec) : Type 0 where
  pub configured : api.config_error ≡ none
  pub connected : api.client_error ≡ none
  pub nodes_listed : vms.nodes ≡ ok nodes
  pub is_on : is_set spec.suspend ≡ false

-- There was no poll yet, or the interval has passed since the last one without a violation.
abbrev pub IsDue : Outside → VmScanSpec → Option ℤ → Session VmScanStatus → Type 0
IsDue o spec none s = Unit {0}
IsDue o spec (some last) s = ltb_ℤ last (past_time (o.now s.world.ticks) (delay spec)) ≡ true

module _ (o : Outside) (api : Api) (vms : VmApi) (namespace : String) (spec : VmScanSpec)
    (username password : String) (nodes : List String) where
  due-sweeps :
      (last : Option ℤ) (s : Session VmScanStatus)
      → s.status.last_poll_time ≡ last
      → IsDue o spec last s
      → (poll : Poll) × (u : Session VmScanStatus) × (poll_if_due o api vms namespace spec username
            password nodes s
          ≡ sweep o api vms namespace spec username password poll nodes u)
        × (u.status ≡ s.status)
        × (u.payload ≡ s.payload)
  unfolding poll_if_due now
  due-sweeps none s e due = (first_poll, s, ground arith, refl, refl)
  due-sweeps (some last) s e due =
      let later = record s { world = record (s.world) { ticks = s.world.ticks + 1 } } in
      (later_poll, later, ground arith, refl, refl)

  reconcile-finally :
      (start s : Session VmScanStatus)
      → load o api vms namespace spec start ≡ returned (ok (username, password)) s
      → Checks api vms nodes spec
      → reconcile_object o api vms namespace spec start
        ≡ finally o api vms namespace spec
            (poll_if_due o api vms namespace spec username password nodes)
            s
  unfolding reconcile_object check
  reconcile-finally start s loaded p = ground arith

module _ (o : Outside) (api : Api) (vms : VmApi) (namespace : String) (spec : VmScanSpec)
    (updates : (log : List Event) → o.update_error log ≡ none) where
  conclude-Concluded :
      (b : Bool) (m : M VmScanStatus Reply) (s u : Session VmScanStatus)
      → m s ≡ conclude o api vms namespace spec (ok b) u
      → u.status.last_poll_time ≡ s.status.last_poll_time
      → Ensures
          (λ r t.
            Concluded o spec b s r t
            × (t.status.affected_targets ≡ u.status.affected_targets)
            × (t.status.migrations ≡ u.status.migrations))
          (finally o api vms namespace spec m s)
  unfolding finally conclude now
  conclude-Concluded false m s u e same =
      let k = u.world.ticks in
      let polled = record u {
        world = record (u.world) { ticks = k + 1 };
        status = record (u.status) { last_poll_time = some (o.now k); external_notified = false };
      } in
      let (_, t, done, p) =
        returns (report-Reported o api vms namespace spec "NonViolated" success none polled) in
      let (r, v, end, q) = returns (finish_fine o api vms namespace spec (delay spec) t updates) in
      Ensures-returned _ {s = v} (ground arith) (
        (
          q.0,
          ap placement q.1 ∙ p.reports,
          ap (λ st. st.external_notified) q.1 ∙ p.notified,
          (k, ap (λ st. st.last_poll_time) q.1 ∙ p.polled),
        ),
        ap (λ st. st.affected_targets) q.1 ∙ p.affected,
        ap (λ st. st.migrations) q.1 ∙ p.migrations,
      )
  conclude-Concluded true m s u e same =
      let (r, t, done, p) =
        returns (finish_error o api vms namespace spec (delay spec) affected_error u updates) in
      unfold Ensures in ground arith

  module _ (doc : IsDocumented o) (username password node : String) (nodes : List String)
      (ns : String) (namespaces : List String) (targets : spec.target_namespace ≡ ns ∷ namespaces)
      (all : AllListed vms spec.target_namespace) where
    -- The verdict: whether more than one controller instance runs on the last node.
    abbrev pub verdict : Bool
    verdict = last_verdict (placed_in vms spec.target_namespace []) (node ∷ nodes) false

    sweep-Concluded :
        (poll : Poll) (m : M VmScanStatus Reply) (s u : Session VmScanStatus)
        → m s ≡ sweep o api vms namespace spec username password poll (node ∷ nodes) u
        → u.status ≡ s.status
        → IsFilled spec u
        → Distinct s.status.migrations
        → Ensures
            (λ r t. Concluded o spec verdict s r t × Lists vms spec.target_namespace verdict s t)
            (finally o api vms namespace spec m s)
    unfolding sweep
    sweep-Concluded poll m s u e same filled distinct =
        let spaces = spec.target_namespace in
        let (_, t, noted, p) = returns (
          check_migrations-Migrated o doc vms spaces u
            (subst (λ st. Distinct st.migrations) (sym same) distinct)) in
        let (r, v, checked, q) = returns (
          check_namespaces-Agrees o doc spec username password poll vms node nodes spaces [] false t
            all (λ h. ap is_some p.payload ∙ filled h) (last_verdict_unplaced (node ∷ nodes))
            (subst (λ l. Starts l false t) (sym targets) tt)) in
        let k = q.2 in
        let (a, w, end, c) = returns (
          conclude-Concluded verdict m s v (ground arith)
            (k.polled ∙ (p.polled ∙ ap (λ st. st.last_poll_time) same))) in
        let lists : Lists vms spaces verdict s w = record {
          affected = ap is_empty c.1 ∙ q.1;
          entries = λ x.
              ap (mem x) (c.2 ∙ k.migrations)
              ∙ (p.entries x ∙ ap (λ st. running vms spaces x (mem x st.migrations)) same);
          distinct = subst Distinct (sym (c.2 ∙ k.migrations)) p.distinct;
        } in
        Ensures-returned _ end (c.0, lists)

    module _ (start s : Session VmScanStatus)
        (loaded : load o api vms namespace spec start ≡ returned (ok (username, password)) s)
        (up : Checks api vms (node ∷ nodes) spec) (filled : IsFilled spec s)
        (distinct : Distinct s.status.migrations)
        (due : IsDue o spec s.status.last_poll_time s) where
      -- A VM scan that is due and not suspended, of at least one namespace and one node. Secret and
      -- config map were read, the cluster configuration is there, the nodes and the instances of
      -- every namespace can be listed, the map to fill is there if alerts are sent, the list of
      -- migrations has no doubles, and the update of the status succeeds. The reconciliation
      -- returns, and the last node decides. If more than one controller instance runs on it, the
      -- reply has the error, the condition is "Violated", the poll time stays and the list of
      -- affected targets is not empty. If not, the reply has no error, the condition is
      -- "NonViolated", the flag for notifications is off, the poll time is a reading of the clock
      -- and the list of affected targets is empty, whatever runs on the other nodes. Either way the
      -- next run comes after the check interval, and the list of migrations, which has no doubles,
      -- has an entry exactly if the last controller instance of that name with a migration is still
      -- migrating, or there is no such instance and it had the entry.
      pub reconcile-Concluded :
          Ensures
            (λ r t. Concluded o spec verdict s r t × Lists vms spec.target_namespace verdict s t)
            (reconcile_object o api vms namespace spec start)
      reconcile-Concluded =
          let (poll, u, e, same, kept) =
            due-sweeps o api vms namespace spec username password (node ∷ nodes)
              s.status.last_poll_time s refl due in
          let (r, t, end, p) = returns (
            sweep-Concluded poll
              (poll_if_due o api vms namespace spec username password (node ∷ nodes)) s u e same
              (λ h. ap is_some kept ∙ filled h) distinct) in
          Ensures-returned _
            (reconcile-finally o api vms namespace spec username password (node ∷ nodes) start s
                loaded up
              ∙ end)
            p
