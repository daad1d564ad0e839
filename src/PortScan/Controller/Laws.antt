-- ===== src/PortScan/Controller/Laws.antt =====
-- What a reconciliation of a port scan replies and reports.
use monitoring_wo_webhooks.Prelude.{◌≡◌, String, ◌<>◌, Option, none, some, List, arith}
use monitoring_wo_webhooks.Prelude.Int.{ℤ}
use monitoring_wo_webhooks.Runtime.{Outside, Event, Session}
use monitoring_wo_webhooks.Runtime.Laws.{Ensures, Ensures-returned, returns}
use monitoring_wo_webhooks.Conditions.{get_condition, blank}
use monitoring_wo_webhooks.Conditions.Laws.{get-set, stamp-status, stamp-message}
use monitoring_wo_webhooks.Cluster.{Api, update_status, record_event}
use monitoring_wo_webhooks.PortScan.Types.{PortScanSpec, PortScanStatus}
use monitoring_wo_webhooks.PortScan.Util.{get_ready_condition, set_ready_condition, ready_type}
use monitoring_wo_webhooks.PortScan.Controller.{report, finish, trouble, reason}

-- The status and the message of the Ready condition.
abbrev pub readiness : PortScanStatus → Option (String × String)
readiness st = elim (get_ready_condition st) [ none ↦ none | some c ↦ some (c.status, c.message) ]

-- What a report leaves alone.
pub record Reported (status message : String) (s t : Session PortScanStatus) : Type 0 where
  pub ready : readiness t.status ≡ some (status, message)
  pub affected : t.status.affected_targets ≡ s.status.affected_targets
  pub polled : t.status.last_poll_time ≡ s.status.last_poll_time

module _ (o : Outside) where
  pub readiness-set :
      (status reason message : String) (s : Session PortScanStatus)
      → Ensures (λ _ t. Reported status message s t) (set_ready_condition o status reason message s)
  unfolding set_ready_condition get_ready_condition Ensures
  readiness-set status reason message s =
      let cs = s.status.conditions in
      ground (
        arith,
        get-set o ready_type status reason message cs s.world,
        stamp-status o ready_type status reason message
            (elim (get_condition ready_type cs) [ none ↦ blank ready_type | some c ↦ c ]) s.world,
        stamp-message o ready_type status reason message
            (elim (get_condition ready_type cs) [ none ↦ blank ready_type | some c ↦ c ]) s.world,
      )

module _ (o : Outside) (api : Api) (namespace : String) (spec : PortScanSpec) where
  -- The message that a report writes.
  abbrev told : String → Option String → String
  told message none = message
  told message (some e) = message <> (": " <> e)

  pub report-Reported :
      (status message : String) (e : Option String) (s : Session PortScanStatus)
      → Ensures
          (λ _ t. Reported status (told message e) s t)
          (report o api namespace spec status message e s)
  unfolding report
  report-Reported status message none s =
      let u = record s { world = record_event "Normal" message s.world } in
      let (_, t, done, r) = returns (readiness-set o status reason message u) in
      Ensures-returned _ done (record { ready = r.ready; affected = r.affected; polled = r.polled })
  report-Reported status message (some e) s =
      let text = message <> (": " <> e) in
      let u = record s { world = record_event "Warning" text s.world } in
      let (_, t, done, r) = returns (readiness-set o status reason text u) in
      Ensures-returned _ done (record { ready = r.ready; affected = r.affected; polled = r.polled })

  -- The deferred function makes the scan not ready exactly when it finds an error, and keeps the
  -- reply where the update of the status succeeds.
  pub finish_error :
      (d : ℤ) (e : String) (s : Session PortScanStatus)
      → ((log : List Event) → o.update_error log ≡ none)
      → Ensures
          (λ r t.
            (r ≡ record { requeue_after = d; error = some e })
            × Reported "False" (told trouble (some e)) s t)
          (finish o api namespace spec (record { requeue_after = d; error = some e }) s)
  unfolding finish update_status
  finish_error d e s up =
      let (_, t, done, r) = returns (report-Reported "False" trouble (some e) s) in
      let stay = up t.world.log in unfold Ensures in ground arith

  pub finish_fine :
      (d : ℤ) (s : Session PortScanStatus)
      → ((log : List Event) → o.update_error log ≡ none)
      → Ensures
          (λ r t. (r ≡ record { requeue_after = d; error = none }) × (t.status ≡ s.status))
          (finish o api namespace spec (record { requeue_after = d; error = none }) s)
  unfolding finish update_status
  finish_fine d s up = let stay = up s.world.log in unfold Ensures in ground arith
