-- ===== src/ContainerScan/Controller/Laws.antt =====
-- What a reconciliation of a container scan replies and reports.
use monitoring_wo_webhooks.Prelude.{◌≡◌, String, ◌<>◌, Option, none, some, List, arith}
use monitoring_wo_webhooks.Prelude.Int.{ℤ}
use monitoring_wo_webhooks.Runtime.{Outside, Event, Session}
use monitoring_wo_webhooks.Runtime.Laws.{Ensures, Ensures-returned, returns}
use monitoring_wo_webhooks.Conditions.{Condition, get_condition, blank}
use monitoring_wo_webhooks.Conditions.Laws.{get-set, stamp-status, stamp-message, set_condition-log}
use monitoring_wo_webhooks.Cluster.{Api, update_status, record_event}
use monitoring_wo_webhooks.Alerts.Mails.{commands}
use monitoring_wo_webhooks.ContainerScan.Types.{ContainerScanSpec, ContainerScanStatus, PodApi}
use monitoring_wo_webhooks.ContainerScan.Util.{get_ready_condition, set_ready_condition, ready_type}
use monitoring_wo_webhooks.ContainerScan.Controller.{report, finish, trouble, reason}

-- The status and the message of the condition on readiness.
abbrev pub readiness : ContainerScanStatus → Option (String × String)
readiness st = elim (get_ready_condition st) [ none ↦ none | some c ↦ some (c.status, c.message) ]

-- What a report leaves alone.
pub record Reported (status message : String) (s t : Session ContainerScanStatus) : Type 0 where
  pub reports : readiness t.status ≡ some (status, message)
  pub affected : t.status.affected_pods ≡ s.status.affected_pods
  pub incidents : t.status.incident_id ≡ s.status.incident_id
  pub polled : t.status.last_run_time ≡ s.status.last_run_time
  pub notified : t.status.external_notified ≡ s.status.external_notified
  pub payload : t.payload ≡ s.payload
  pub mails : commands t.world.log ≡ commands s.world.log

module _ (o : Outside) where
  readiness-set :
      (status why message : String) (s : Session ContainerScanStatus)
      → Ensures (λ _ t. Reported status message s t) (set_ready_condition o status why message s)
  unfolding set_ready_condition get_ready_condition Ensures
  readiness-set status why message s =
      let cs = s.status.conditions in
      let old : Condition = elim (get_condition ready_type cs) [
        | none ↦ blank ready_type
        | some c ↦ c
      ] in
      ground (
        arith,
        get-set o ready_type status why message cs s.world,
        stamp-status o ready_type status why message old s.world,
        stamp-message o ready_type status why message old s.world,
        set_condition-log o ready_type status why message cs s.world,
      )

-- The message that a report writes.
abbrev pub told : String → Option String → String
told message none = message
told message (some e) = message <> (": " <> e)

module _ (o : Outside) (api : Api) (pods : PodApi) (namespace : String)
    (spec : ContainerScanSpec) where
  pub report-Reported :
      (status message : String) (e : Option String) (s : Session ContainerScanStatus)
      → Ensures
          (λ _ t. Reported status (told message e) s t)
          (report o api pods namespace spec status message e s)
  unfolding report record_event
  report-Reported status message none s =
      let u = record s { world = record_event "Normal" message s.world } in
      let (_, t, done, r) = returns (readiness-set o status reason message u) in
      Ensures-returned _ done (ground arith)
  report-Reported status message (some e) s =
      let text = message <> (": " <> e) in
      let u = record s { world = record_event "Warning" text s.world } in
      let (_, t, done, r) = returns (readiness-set o status reason text u) in
      Ensures-returned _ done (ground arith)

  -- The deferred function, where the update of the status succeeds.
  pub finish_error :
      (d : ℤ) (e : String) (s : Session ContainerScanStatus)
      → ((log : List Event) → o.update_error log ≡ none)
      → Ensures
          (λ r t.
            (r ≡ record { requeue_after = d; error = some e })
            × Reported "False" (told (trouble spec) (some e)) s t)
          (finish o api pods namespace spec (record { requeue_after = d; error = some e }) s)
  unfolding finish update_status
  finish_error d e s up =
      let (_, t, done, r) = returns (report-Reported "False" (trouble spec) (some e) s) in
      let stay = up t.world.log in unfold Ensures in ground arith

  pub finish_fine :
      (d : ℤ) (s : Session ContainerScanStatus)
      → ((log : List Event) → o.update_error log ≡ none)
      → Ensures
          (λ r t.
            (r ≡ record { requeue_after = d; error = none })
            × (t.status ≡ s.status)
            × (t.payload ≡ s.payload)
            × (commands t.world.log ≡ commands s.world.log))
          (finish o api pods namespace spec (record { requeue_after = d; error = none }) s)
  unfolding finish update_status
  finish_fine d s up = let stay = up s.world.log in unfold Ensures in ground arith
