-- ===== src/Tests/PortScan.antt =====
-- The port scan at concrete input.
use monitoring_wo_webhooks.Prelude.{
  is_unset, is_set, ◌≡◌, ◌≢◌, ◌↔◌, refl, String, true, false, none, some, List, [], ◌∷◌, arith,
  eq_iff, inl,
}
use monitoring_wo_webhooks.Prelude.Int.{pos, negsuc}
use monitoring_wo_webhooks.Prelude.Text.{contains, split_n}
use monitoring_wo_webhooks.Runtime.{
  recorded, World, Session, Outcome, returned, panicked, updated, ran, wrote, removed, is_missing,
  run_fails, write_file, remove_file,
}
use monitoring_wo_webhooks.Runtime.Laws.{Ensures}
use monitoring_wo_webhooks.Conditions.{Condition}
use monitoring_wo_webhooks.Cluster.{past_time, check_delay}
use monitoring_wo_webhooks.PortScan.Types.{PortScanSpec, PortScanStatus}
use monitoring_wo_webhooks.PortScan.Util.{
  get_ready_condition, send_email_alert, send_email_recovered_alert, sub_notify_external_system,
  alert_mail, recovered_mail, handle_cn_string, check_server_aliveness, nc_command,
}
use monitoring_wo_webhooks.PortScan.Util.Mails.{
  send_email_once, send_email_cycle, resolved_after_recovered,
}
use monitoring_wo_webhooks.Alerts.{missing_fingerprint}
use monitoring_wo_webhooks.Admission.{checked, crashed}
use monitoring_wo_webhooks.PortScan.Webhook.{default, validate_port_scan}
use monitoring_wo_webhooks.PortScan.Webhook.Laws.{
  default_delay, Admissible, Defaulted, default_lem, validate_port_scan-Admissible,
}
use monitoring_wo_webhooks.PortScan.Controller.Laws.{readiness}
use monitoring_wo_webhooks.PortScan.Controller.Invariant.{Listed, reconcile-Listed}
use monitoring_wo_webhooks.PortScan.Targets.{poll_targets, first_poll, mail_file}
use monitoring_wo_webhooks.PortScan.Targets.Laws.{unreachable, Grown}
use monitoring_wo_webhooks.PortScan.Controller.{
  load, reconcile_object, first_success, later_success, delay,
}
use monitoring_wo_webhooks.PortScan.Controller.Polls.{Polls, Concluded, Exact}
use monitoring_wo_webhooks.PortScan.Controller.Runs.{
  reconcile-first_poll, reconcile-later_poll, reconcile-first_seen, reconcile-suspended,
}
use monitoring_wo_webhooks.Tests.World.{
  outside, outside-IsDocumented, down, outside-Probes, world, api,
}

abbrev spec : PortScanSpec
spec = record {
  suspend = none;
  target = "a:1" ∷ "b:2" ∷ [];
  suspend_email_alert = some false;
  email = "e";
  relay_host = "r";
  notify_extenal = some false;
  external_url = "";
  external_data = "";
  external_secret = "";
  check_interval = none;
}

abbrev ready : Condition
ready = record {
  ctype = "Ready";
  status = "Unknown";
  last_transition_time = none;
  reason = "PortScanReconciler";
  message = "First Seen";
}

abbrev status : PortScanStatus
status = record {
  conditions = ready ∷ [];
  last_poll_time = none;
  external_notified = false;
  external_notified_time = none;
  incident_id = [];
  affected_targets = "x:9" ∷ [];
}

abbrev start : Session PortScanStatus
start = record { world = world; status = status; payload = none }

start-Polls : Polls api spec start
unfolding get_ready_condition
start-Polls = record { seen = refl; running = refl; configured = refl; connected = refl }

reconcile-first_poll_example :
    Ensures
      (λ r t.
        Concluded outside spec first_success (unreachable down spec.target) start r t
        × Grown down spec.target status.affected_targets t.status.affected_targets)
      (reconcile_object outside api "ns" spec start)
unfolding load contains
reconcile-first_poll_example =
    reconcile-first_poll outside api "ns" spec (λ log. refl) outside-IsDocumented down
      outside-Probes "" "" start start refl start-Polls (refl, (refl, tt))
      (λ h. absurd (ground arith)) (refl, tt) refl

abbrev polled : Session PortScanStatus
polled = record start {
  status = record status { last_poll_time = some (negsuc 3_000_000_000_000) };
}

polled-Polls : Polls api spec polled
unfolding get_ready_condition
polled-Polls = record { seen = refl; running = refl; configured = refl; connected = refl }

reconcile-later_poll_example :
    Ensures
      (λ r t.
        Concluded outside spec later_success (unreachable down spec.target) polled r t
        × Exact down spec.target status.affected_targets t.status.affected_targets)
      (reconcile_object outside api "ns" spec polled)
unfolding load contains past_time check_delay
reconcile-later_poll_example =
    reconcile-later_poll outside api "ns" spec (λ log. refl) outside-IsDocumented down
      outside-Probes "" "" polled polled refl polled-Polls (refl, (refl, tt))
      (λ h. absurd (ground arith)) (refl, tt) (negsuc 3_000_000_000_000) refl refl

abbrev unseen : Session PortScanStatus
unseen = record start { status = record status { conditions = [] } }

reconcile-first_seen_example :
    Ensures
      (λ r t.
        (r ≡ record { requeue_after = pos 0; error = none })
        × (readiness t.status ≡ some ("Unknown", "First Seen"))
        × (t.status ≡ record (unseen.status) { conditions = t.status.conditions })
        × (t.world.log ≡ updated ∷ recorded "Normal" "First Seen" ∷ [])
        × (t.world.files ≡ unseen.world.files)
        × (t.payload ≡ none))
      (reconcile_object outside api "ns" spec unseen)
unfolding load get_ready_condition
reconcile-first_seen_example =
    reconcile-first_seen outside api "ns" spec (λ log. refl) "" "" unseen unseen refl refl

abbrev suspended : PortScanSpec
suspended = record spec { suspend = some true }

reconcile-suspended_example :
    reconcile_object outside api "ns" suspended start
    ≡ returned
        (record { requeue_after = delay suspended; error = none })
        (record start { world = record world { log = updated ∷ [] } })
unfolding load get_ready_condition
reconcile-suspended_example =
    reconcile-suspended outside api "ns" suspended (λ log. refl) "" "" start start refl refl refl

abbrev silent : PortScanSpec
silent = record spec { notify_extenal = none }

abbrev admitted : PortScanSpec
admitted = record spec {
  check_interval = some (pos 2);
  notify_extenal = some true;
  external_secret = "s";
  external_data = "d";
  external_url = "https://rem";
}

admitted-Defaulted : Defaulted admitted
admitted-Defaulted = record { suspend_email = refl; notify = refl; interval = refl }

admitted-Admissible : Admissible 63 "scan" admitted
unfolding contains
admitted-Admissible = record {
  complete = record {
    short_name = omega arith;
    mail = λ h. ((ground (arith, eq_iff "e" "")), (ground (arith, eq_iff "r" "")));
    credentials = λ h. ((ground (arith, eq_iff "s" "")), (ground (arith, eq_iff "d" "")));
    address = λ h. inl refl;
  };
  ports = (refl, (refl, tt));
}

reconcile-Listed_example :
    Ensures (λ _ t. Listed t) (reconcile_object outside api "ns" admitted start)
reconcile-Listed_example =
    reconcile-Listed outside api "ns" admitted outside-IsDocumented down outside-Probes 63 "scan"
      start admitted-Defaulted admitted-Admissible (λ h. ground arith) (refl, tt)

validate_port_scan-Admissible_example :
    (validate_port_scan 63 "scan" admitted ≢ crashed)
    × ((validate_port_scan 63 "scan" admitted ≡ checked none) ↔ Admissible 63 "scan" admitted)
validate_port_scan-Admissible_example =
    validate_port_scan-Admissible 63 "scan" admitted admitted-Defaulted

default_lem_example :
    Defaulted (default silent)
    × (default (default silent) ≡ default silent)
    × ((default silent ≡ silent) ↔ Defaulted silent)
    × (is_set (default silent).notify_extenal ≡ false)
    × (is_unset (default silent).suspend_email_alert ≡ is_unset silent.suspend_email_alert)
    × (delay (default silent) ≡ default_delay silent.check_interval)
    × (default silent ≡ record silent {
      suspend_email_alert = (default silent).suspend_email_alert;
      notify_extenal = (default silent).notify_extenal;
      check_interval = (default silent).check_interval;
    })
default_lem_example = default_lem silent

send_email_once_example :
    let v = send_email_alert outside "n" "f" spec "down" world in
    (v.log ≡ ran (alert_mail spec "n" "down") ∷ wrote "f" "sent" ∷ [])
    × (v.files "f" ≡ some "sent")
    × (send_email_alert outside "n" "f" spec "again" v ≡ v)
unfolding is_missing
send_email_once_example = send_email_once outside "n" "f" spec "down" "again" world refl refl refl

abbrev marked : World
marked = record world { files = λ f. some "sent" }

send_email_cycle_example :
    let first = send_email_alert outside "n" "f" spec "down" world in
    let recovered = send_email_recovered_alert outside "n" "f" spec "up" first in
    let last = send_email_alert outside "n" "f" spec "again" recovered in
    (is_missing "f" recovered ≡ true)
    × (last.log
        ≡ ran (alert_mail spec "n" "again")
          ∷ wrote "f" "sent"
          ∷ removed "f"
          ∷ ran (recovered_mail spec "n" "up")
          ∷ ran (alert_mail spec "n" "down")
          ∷ wrote "f" "sent"
          ∷ [])
    × (last.files "f" ≡ some "sent")
unfolding recovered_mail is_missing
send_email_cycle_example =
    send_email_cycle outside "n" "f" spec "down" "up" "again" world refl refl refl refl refl refl

resolved_after_recovered_example :
    let v = record start { world = send_email_recovered_alert outside "n" "f" spec "up" marked } in
    sub_notify_external_system outside "resolved" "a:1" "u" "n" "p" "f" v
    ≡ returned (some (missing_fingerprint "resolved" "f")) v
unfolding recovered_mail
resolved_after_recovered_example =
    resolved_after_recovered outside "n" "f" spec "a:1" "u" "n" "p" "up"
      (record start { world = marked }) (refl, refl) refl refl

abbrev errors_of : Outcome PortScanStatus (List String) → List String
errors_of (returned errors t) = errors
errors_of (panicked t) = []

abbrev affected_of : Outcome PortScanStatus (List String) → List String
affected_of (returned errors t) = t.status.affected_targets
affected_of (panicked t) = []

abbrev first_run : Outcome PortScanStatus (List String)
first_run = poll_targets outside spec "" "" "node" first_poll spec.target start

-- A first poll with one target down: the error, and the list of affected targets.
first_poll_run : (errors_of first_run ≡ "b" ∷ []) × (affected_of first_run ≡ "x:9" ∷ "b:2" ∷ [])
unfolding poll_targets send_email_alert send_email_recovered_alert handle_cn_string mail_file
    run_fails write_file remove_file is_missing check_server_aliveness split_n nc_command
first_poll_run = (refl, refl)
