-- ===== src/VmScan/Controller/Laws.antt =====
-- What a reconciliation of a VM scan replies and reports.
use monitoring_wo_webhooks.Prelude.{◌≡◌, String, ◌<>◌, Option, none, some, List, arith}
use monitoring_wo_webhooks.Prelude.Int.{ℤ}
use monitoring_wo_webhooks.Runtime.{Outside, Event, Session}
use monitoring_wo_webhooks.Runtime.Laws.{Ensures, Ensures-returned, returns}
use monitoring_wo_webhooks.Conditions.{Condition, get_condition, blank}
use monitoring_wo_webhooks.Conditions.Laws.{get-set, stamp-status, stamp-message}
use monitoring_wo_webhooks.Cluster.{Api, update_status, record_event}
use monitoring_wo_webhooks.VmScan.Types.{VmScanSpec, VmScanStatus, VmApi}
use monitoring_wo_webhooks.VmScan.Util.{
  get_non_violation_condition, set_non_violation_condition, placement_type,
}
use monitoring_wo_webhooks.VmScan.Controller.{report, finish, trouble, reason}

-- The status and the message of the condition on the placement.
abbrev pub placement : VmScanStatus → Option (String × String)
placement st = elim (get_non_violation_condition st) [
  | none ↦ none
  | some c ↦ some (c.status, c.message)
]

-- What a report leaves alone.
pub record Reported (status message : String) (s t : Session VmScanStatus) : Type 0 where
  pub reports : placement t.status ≡ some (status, message)
  pub affected : t.status.affected_targets ≡ s.status.affected_targets
  pub migrations : t.status.migrations ≡ s.status.migrations
  pub polled : t.status.last_poll_time ≡ s.status.last_poll_time
  pub notified : t.status.external_notified ≡ s.status.external_notified

module _ (o : Outside) where
  placement-set :
      (status reason message : String) (s : Session VmScanStatus)
      → Ensures
          (λ _ t. Reported status message s t)
          (set_non_violation_condition o status reason message s)
  unfolding set_non_violation_condition get_non_violation_condition Ensures
  placement-set status why message s =
      let cs = s.status.conditions in
      let old : Condition = elim (get_condition placement_type cs) [
        | none ↦ blank placement_type
        | some c ↦ c
      ] in
      ground (
        arith,
        get-set o placement_type status why message cs s.world,
        stamp-status o placement_type status why message old s.world,
        stamp-message o placement_type status why message old s.world,
      )

module _ (o : Outside) (api : Api) (vms : VmApi) (namespace : String) (spec : VmScanSpec) where
  -- The message that a report writes.
  abbrev told : String → Option String → String
  told message none = message
  told message (some e) = message <> (": " <> e)

  pub report-Reported :
      (status message : String) (e : Option String) (s : Session VmScanStatus)
      → Ensures
          (λ _ t. Reported status (told message e) s t)
          (report o api vms namespace spec status message e s)
  unfolding report
  report-Reported status message none s =
      let u = record s { world = record_event "Normal" message s.world } in
      let (_, t, done, r) = returns (placement-set o status reason message u) in
      Ensures-returned _ done (ground arith)
  report-Reported status message (some e) s =
      let text = message <> (": " <> e) in
      let u = record s { world = record_event "Warning" text s.world } in
      let (_, t, done, r) = returns (placement-set o status reason text u) in
      Ensures-returned _ done (ground arith)

  -- The deferred function, where the update of the status succeeds.
  pub finish_error :
      (d : ℤ) (e : String) (s : Session VmScanStatus)
      → ((log : List Event) → o.update_error log ≡ none)
      → Ensures
          (λ r t.
            (r ≡ record { requeue_after = d; error = some e })
            × Reported "Violated" (told trouble (some e)) s t)
          (finish o api vms namespace spec (record { requeue_after = d; error = some e }) s)
  unfolding finish update_status
  finish_error d e s up =
      let (_, t, done, r) = returns (report-Reported "Violated" trouble (some e) s) in
      let stay = up t.world.log in unfold Ensures in ground arith

  pub finish_fine :
      (d : ℤ) (s : Session VmScanStatus)
      → ((log : List Event) → o.update_error log ≡ none)
      → Ensures
          (λ r t. (r ≡ record { requeue_after = d; error = none }) × (t.status ≡ s.status))
          (finish o api vms namespace spec (record { requeue_after = d; error = none }) s)
  unfolding finish update_status
  finish_fine d s up = let stay = up s.world.log in unfold Ensures in ground arith
