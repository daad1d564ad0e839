-- ===== src/PortScan/Controller/Runs.antt =====
-- Whole reconciliations of a port scan.
use monitoring_wo_webhooks.Prelude.{
  ◌≡◌, refl, ap, ◌∙◌, String, Bool, true, none, some, List, ◌∷◌, arith, is_some, is_set, Distinct,
}
use monitoring_wo_webhooks.Prelude.Int.{ℤ, pos, ltb_ℤ}
use monitoring_wo_webhooks.Runtime.{Outside, Event, updated, recorded, Session, World, returned, ok}
use monitoring_wo_webhooks.Runtime.Laws.{Ensures, Ensures-returned, returns, IsDocumented}
use monitoring_wo_webhooks.Cluster.{Api, Reply, past_time, update_status, record_event}
use monitoring_wo_webhooks.Conditions.{set_condition}
use monitoring_wo_webhooks.Conditions.Laws.{set_condition-log, set_condition-files}
use monitoring_wo_webhooks.PortScan.Types.{PortScanSpec, PortScanStatus}
use monitoring_wo_webhooks.PortScan.Util.{get_ready_condition, set_ready_condition, ready_type}
use monitoring_wo_webhooks.PortScan.Targets.Frame.{IsFilled}
use monitoring_wo_webhooks.PortScan.Targets.Round.{Probes}
use monitoring_wo_webhooks.PortScan.Targets.Laws.{AllPorts, unreachable, Grown}
use monitoring_wo_webhooks.PortScan.Controller.{
  delay, load, check, finish, report, report_error, reason, reconcile_object, first_success,
  later_success, get_api_name,
}
use monitoring_wo_webhooks.PortScan.Controller.Laws.{readiness, readiness-set}
use monitoring_wo_webhooks.PortScan.Controller.Polls.{
  Concluded, Exact, Polls, reconcile-finally, first_sweep, later_sweep,
}

module _ (o : Outside) (api : Api) (namespace : String) (spec : PortScanSpec)
    (updates : (log : List Event) → o.update_error log ≡ none) where
  module _ (doc : IsDocumented o) (down : String → Bool) (probes : Probes o down)
      (username password : String) (start s : Session PortScanStatus)
      (loaded : load o api namespace spec start ≡ returned (ok (username, password)) s)
      (polls : Polls api spec s) (ports : AllPorts spec.target) (filled : IsFilled spec s)
      (distinct : Distinct s.status.affected_targets) where
    -- The first poll. Secret and config map were read, the condition was seen before, the scan is
    -- not suspended, the cluster configuration is there, every target names a port and is always or
    -- never reachable during the poll, the map to fill is there if alerts are sent, the list of
    -- affected targets has no doubles, and the update of the status succeeds. The reconciliation
    -- returns. If every target answers, the reply has no error, the scan is ready and its poll time
    -- is a reading of the clock; if not, the reply has the error, the scan is not ready and the
    -- poll time stays. Either way the next run comes after the check interval, every unreachable
    -- target is listed, nothing else is added, what is not a target stays as it was and no entry is
    -- doubled.
    pub reconcile-first_poll :
        s.status.last_poll_time ≡ none
        → Ensures
            (λ r t.
              Concluded o spec first_success (unreachable down spec.target) s r t
              × Grown down spec.target s.status.affected_targets t.status.affected_targets)
            (reconcile_object o api namespace spec start)
    reconcile-first_poll never =
        let (r, t, end, p) = returns (
          first_sweep o api namespace spec updates doc down probes username password s ports filled
            distinct (get_api_name api).1 never) in
        Ensures-returned _
          (reconcile-finally o api namespace spec username password start s loaded polls ∙ end) p

    -- A later poll, once the interval has passed since the last poll without an error. Secret and
    -- config map were read, the condition was seen before, the scan is not suspended, the cluster
    -- configuration is there, every target names a port and is always or never reachable during the
    -- poll, the map to fill is there if alerts are sent, the list of affected targets has no
    -- doubles, and the update of the status succeeds. The reconciliation returns. If every target
    -- answers, the reply has no error, the scan is ready and its poll time is a reading of the
    -- clock; if not, the reply has the error, the scan is not ready and the poll time stays. Either
    -- way the next run comes after the check interval, the targets of the scan that are listed as
    -- affected are exactly the unreachable ones, what is not a target stays as it was and no entry
    -- is doubled.
    pub reconcile-later_poll :
        (last : ℤ)
        → s.status.last_poll_time ≡ some last
        → ltb_ℤ last (past_time (o.now s.world.ticks) (delay spec)) ≡ true
        → Ensures
            (λ r t.
              Concluded o spec later_success (unreachable down spec.target) s r t
              × Exact down spec.target s.status.affected_targets t.status.affected_targets)
            (reconcile_object o api namespace spec start)
    reconcile-later_poll last polled due =
        let (r, t, end, p) = returns (
          later_sweep o api namespace spec updates doc down probes username password s ports filled
            distinct (get_api_name api).1 last (polled, due)) in
        Ensures-returned _
          (reconcile-finally o api namespace spec username password start s loaded polls ∙ end) p

  readiness-noted :
      (s : Session PortScanStatus) (v : World)
      → readiness (record (s.status) {
        conditions =
            (set_condition o ready_type "Unknown" reason "First Seen" s.status.conditions v).0;
      })
        ≡ some ("Unknown", "First Seen")
  unfolding set_ready_condition Ensures
  readiness-noted s v =
      (readiness-set o "Unknown" reason "First Seen" (record s { world = v })).ready

  -- A scan that was never seen, whose secret and config map were read, is only reported if the
  -- update of the status succeeds: the Ready condition becomes "Unknown", no error is replied and
  -- no delay is set. Of the status only the conditions change, no file and no field of the
  -- notifications changes, and the only effects are the event and the update of the status: no
  -- target is probed, and nothing is mailed or sent.
  pub reconcile-first_seen :
      (username password : String) (start s : Session PortScanStatus)
      → load o api namespace spec start ≡ returned (ok (username, password)) s
      → get_ready_condition s.status ≡ none
      → Ensures
          (λ r t.
            (r ≡ record { requeue_after = pos 0; error = none })
            × (readiness t.status ≡ some ("Unknown", "First Seen"))
            × (t.status ≡ record (s.status) { conditions = t.status.conditions })
            × (t.world.log ≡ updated ∷ recorded "Normal" "First Seen" ∷ s.world.log)
            × (t.world.files ≡ s.world.files)
            × (t.payload ≡ s.payload))
          (reconcile_object o api namespace spec start)
  unfolding reconcile_object check finish report_error report update_status record_event
      set_ready_condition
  reconcile-first_seen username password start s loaded unseen =
      let v = record_event "Normal" "First Seen" s.world in
      let cs = s.status.conditions in
      let r = set_condition o ready_type "Unknown" reason "First Seen" cs v in
      let up = updates r.1.log in
      let reply : Reply = record { requeue_after = pos 0; error = none } in
      Ensures-returned _ {a = reply}
        {s = record s {
          world = record (r.1) { log = updated ∷ r.1.log };
          status = record (s.status) { conditions = r.0 };
        }}
        (ground arith)
        (
          refl,
          readiness-noted s v,
          refl,
          ap (λ l. updated ∷ l) (set_condition-log o ready_type "Unknown" reason "First Seen" cs v),
          set_condition-files o ready_type "Unknown" reason "First Seen" cs v,
          refl,
        )

  -- A suspended scan that was seen before, whose secret and config map were read, does nothing but
  -- write its status back, and comes again after the interval, if that update succeeds.
  pub reconcile-suspended :
      (username password : String) (start s : Session PortScanStatus)
      → load o api namespace spec start ≡ returned (ok (username, password)) s
      → is_some (get_ready_condition s.status) ≡ true
      → is_set spec.suspend ≡ true
      → reconcile_object o api namespace spec start
        ≡ returned
            (record { requeue_after = delay spec; error = none })
            (record s { world = record (s.world) { log = updated ∷ s.world.log } })
  unfolding reconcile_object check finish update_status
  reconcile-suspended username password start s loaded seen h =
      let stay = updates s.world.log in ground arith
