-- ===== src/PortScan/Controller/Polls.antt =====
-- A reconciliation that polls: its reply, the Ready condition, the poll time and the list of
-- affected targets all follow from which targets can be reached.
use monitoring_wo_webhooks.Prelude.{
  ℕ, ◌+◌, ◌≡◌, sym, ap, ◌∙◌, String, ◌<>◌, Bool, true, false, Option, none, some, List, [], ◌∷◌,
  arith, if◌then◌else◌, is_some, is_set, mem, Distinct,
}
use mathlib.Core.Path.{subst}
use monitoring_wo_webhooks.Prelude.Int.{ℤ, ltb_ℤ}
use monitoring_wo_webhooks.Runtime.{Outside, Event, Session, returned, M, now, ok}
use monitoring_wo_webhooks.Runtime.Laws.{Ensures, Ensures-returned, returns, IsDocumented}
use monitoring_wo_webhooks.Cluster.{Reply, Api, past_time}
use monitoring_wo_webhooks.PortScan.Types.{PortScanSpec, PortScanStatus}
use monitoring_wo_webhooks.PortScan.Util.{get_ready_condition}
use monitoring_wo_webhooks.PortScan.Targets.Frame.{IsFilled}
use monitoring_wo_webhooks.PortScan.Targets.Round.{Probes}
use monitoring_wo_webhooks.PortScan.Targets.Laws.{
  AllPorts, unreachable, Grown, later_poll_lem, first_poll_lem,
}
use monitoring_wo_webhooks.PortScan.Controller.{
  finally, trouble, delay, conclude, poll_if_due, connect, check, load, reconcile_object,
  unreachable_error, first_success, later_success, running_host, get_api_name,
}
use monitoring_wo_webhooks.PortScan.Controller.Laws.{
  readiness, report-Reported, finish_error, finish_fine,
}

-- How a poll ends that could not reach these hosts.
abbrev pub Concluded :
    Outside
    → PortScanSpec
    → String
    → List String
    → Session PortScanStatus
    → Reply
    → Session PortScanStatus
    → Type 0
Concluded o spec message [] s r t =
    (r ≡ record { requeue_after = delay spec; error = none })
    × (readiness t.status ≡ some ("True", message))
    × ((k : ℕ) × (t.status.last_poll_time ≡ some (o.now k)))
Concluded o spec message (host ∷ hosts) s r t =
    (r ≡ record { requeue_after = delay spec; error = some unreachable_error })
    × (readiness t.status ≡ some ("False", trouble <> (": " <> unreachable_error)))
    × (t.status.last_poll_time ≡ s.status.last_poll_time)

-- What a later poll leaves in the list of affected targets.
abbrev pub Exact : (String → Bool) → List String → List String → List String → Type 0
Exact down ts xs ys =
    ((v : String) → mem v ys ≡ (if mem v ts then down v else mem v xs)) × Distinct ys

module _ (o : Outside) (api : Api) (namespace : String) (spec : PortScanSpec)
    (updates : (log : List Event) → o.update_error log ≡ none) where
  conclude-Concluded :
      (pending : Option String) (message : String) (errors : List String)
      (m : M PortScanStatus Reply) (s u : Session PortScanStatus)
      → m s ≡ conclude o api namespace spec message errors u
      → u.status.last_poll_time ≡ s.status.last_poll_time
      → Ensures
          (λ r t.
            Concluded o spec message errors s r t
            × (t.status.affected_targets ≡ u.status.affected_targets))
          (finally o api namespace spec pending m s)
  unfolding finally conclude now
  conclude-Concluded pending message [] m s u e same =
      let k = u.world.ticks in
      let polled = record u {
        world = record (u.world) { ticks = k + 1 };
        status = record (u.status) { last_poll_time = some (o.now k) };
      } in
      let (_, t, done, p) =
        returns (report-Reported o api namespace spec "True" message none polled) in
      let (r, v, end, q) = returns (finish_fine o api namespace spec (delay spec) t updates) in
      Ensures-returned _ {s = v} (ground arith) (
        (q.0, ap readiness q.1 ∙ p.ready, (k, ap (λ st. st.last_poll_time) q.1 ∙ p.polled)),
        ap (λ st. st.affected_targets) q.1 ∙ p.affected,
      )
  conclude-Concluded pending message (host ∷ hosts) m s u e same =
      let (r, t, done, p) =
        returns (finish_error o api namespace spec (delay spec) unreachable_error u updates) in
      unfold Ensures in ground arith

  module _ (doc : IsDocumented o) (down : String → Bool) (probes : Probes o down)
      (username password : String) (s : Session PortScanStatus) (ports : AllPorts spec.target)
      (filled : IsFilled spec s) (distinct : Distinct s.status.affected_targets) where
    abbrev pub lost : List String
    lost = unreachable down spec.target

    pub first_sweep :
        (pending : Option String)
        → s.status.last_poll_time ≡ none
        → Ensures
            (λ r t.
              Concluded o spec first_success lost s r t
              × Grown down spec.target s.status.affected_targets t.status.affected_targets)
            (finally o api namespace spec pending
              (poll_if_due o api namespace spec username password)
              s)
    unfolding poll_if_due
    first_sweep pending never =
        let (errors, u, done, p) = returns (
          first_poll_lem o doc down probes spec username password (running_host api) spec.target s
            ports filled distinct) in
        let (r, t, end, q) = returns (
          conclude-Concluded pending first_success errors
            (poll_if_due o api namespace spec username password) s u (ground arith) p.2) in
        Ensures-returned _ end (
          subst (λ es. Concluded o spec first_success es s r t) p.0 q.0,
          subst (Grown down spec.target s.status.affected_targets) (sym q.1) p.1,
        )

    abbrev pub IsDue : ℤ → Type 0
    IsDue last =
        (s.status.last_poll_time ≡ some last)
        × (ltb_ℤ last (past_time (o.now s.world.ticks) (delay spec)) ≡ true)

    pub later_sweep :
        (pending : Option String) (last : ℤ)
        → IsDue last
        → Ensures
            (λ r t.
              Concluded o spec later_success lost s r t
              × Exact down spec.target s.status.affected_targets t.status.affected_targets)
            (finally o api namespace spec pending
              (poll_if_due o api namespace spec username password)
              s)
    unfolding poll_if_due now
    later_sweep pending last due =
        let later = record s { world = record (s.world) { ticks = s.world.ticks + 1 } } in
        let (errors, u, done, p) = returns (
          later_poll_lem o doc down probes spec username password (running_host api) spec.target
            later ports filled distinct) in
        let (r, t, end, q) = returns (
          conclude-Concluded pending later_success errors
            (poll_if_due o api namespace spec username password) s u (ground arith) p.3) in
        Ensures-returned _ end (
          subst (λ es. Concluded o spec later_success es s r t) p.0 q.0,
          subst (Exact down spec.target s.status.affected_targets) (sym q.1) (p.1, p.2),
        )

-- What has to hold for a reconciliation to come to the poll: the Ready condition was seen before,
-- the scan is not suspended, and the cluster can be reached.
pub record Polls (api : Api) (spec : PortScanSpec) (s : Session PortScanStatus) : Type 0 where
  pub seen : is_some (get_ready_condition s.status) ≡ true
  pub running : is_set spec.suspend ≡ false
  pub configured : api.config_error ≡ none
  pub connected : api.client_error ≡ none

module _ (o : Outside) (api : Api) (namespace : String) (spec : PortScanSpec) where
  pub reconcile-finally :
      (username password : String) (start s : Session PortScanStatus)
      → load o api namespace spec start ≡ returned (ok (username, password)) s
      → Polls api spec s
      → reconcile_object o api namespace spec start
        ≡ finally o api namespace spec
            (get_api_name api).1
            (poll_if_due o api namespace spec username password)
            s
  unfolding reconcile_object check connect
  reconcile-finally username password start s loaded p = ground arith
