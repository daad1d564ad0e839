-- ===== src/Tests/ContainerScan.antt =====
-- The container scan at concrete input.
use monitoring_wo_webhooks.Prelude.Text.{split_n}
use monitoring_wo_webhooks.Cluster.{past_time, check_delay}
use monitoring_wo_webhooks.Prelude.{mem, not, ◌==◌, List, arith}
use monitoring_wo_webhooks.Prelude.Int.{pos, negsuc}
use monitoring_wo_webhooks.Conditions.{Condition}
use monitoring_wo_webhooks.ContainerScan.Types.{Pod, PodApi}
use monitoring_wo_webhooks.ContainerScan.Util.{ready_type, get_ready_condition}
use monitoring_wo_webhooks.ContainerScan.Cleanup.{cleanup, remote_files}
use monitoring_wo_webhooks.ContainerScan.Cleanup.Panics.{panics, remote_files-Panics}
use monitoring_wo_webhooks.ContainerScan.Cleanup.Laws.{Cleaned, cleanup-Cleaned}
use monitoring_wo_webhooks.ContainerScan.Pods.{check_pods, later_poll}
use monitoring_wo_webhooks.ContainerScan.Pods.Health.{is_empty, Moved, said_pods, Listed}
use monitoring_wo_webhooks.ContainerScan.Pods.Laws.{check_pods-Moved}
use monitoring_wo_webhooks.ContainerScan.Controller.{load, reconcile_object, failing_error}
use monitoring_wo_webhooks.ContainerScan.Controller.Runs.{Carried}
use monitoring_wo_webhooks.ContainerScan.Controller.Verdict.{Ended, reconcile-Ended}
use monitoring_wo_webhooks.ContainerScan.Controller.Safety.{reconcile_object-Listed}
use monitoring_wo_webhooks.Tests.World.{outside-IsDocumented, api}
use monitoring_wo_webhooks.Prelude.{
  String, List, ◌≡◌, ◌≢◌, ◌↔◌, refl, true, false, none, some, [], ◌∷◌,
}
use monitoring_wo_webhooks.Runtime.{read_file, World, Session, ok, ran, wrote, is_missing}
use monitoring_wo_webhooks.Runtime.Laws.{Ensures}
use monitoring_wo_webhooks.Admission.{checked, crashed}
use monitoring_wo_webhooks.Admission.Laws.{Complete}
use monitoring_wo_webhooks.ContainerScan.Types.{Pod, PodApi, ContainerScanSpec, ContainerScanStatus}
use monitoring_wo_webhooks.ContainerScan.Util.{
  alert_mail, mail_file, create_file, send_email_alert, notify_external_system,
}
use monitoring_wo_webhooks.ContainerScan.Util.Laws.{alert_once, Flagged, notify-Flagged}
use monitoring_wo_webhooks.ContainerScan.Webhook.{default, validate_container_scan}
use monitoring_wo_webhooks.ContainerScan.Webhook.Laws.{Defaulted, validate_container_scan-default}
use monitoring_wo_webhooks.Tests.World.{outside, world}

abbrev spec : ContainerScanSpec
spec = record {
  suspend = none;
  target_namespace = "ns" ∷ [];
  suspend_email_alert = some false;
  email = "e";
  relay_host = "r";
  aggregate_alerts = none;
  notify_extenal = none;
  external_url = "";
  external_data = "";
  external_secret = "";
  check_interval = none;
}

abbrev start : Session ContainerScanStatus
start = record {
  world = world;
  status = record {
    conditions = [];
    last_run_time = none;
    external_notified = false;
    external_notified_time = none;
    incident_id = [];
    affected_pods = [];
  };
  payload = some [];
}

abbrev mailed : World
mailed =
    send_email_alert outside "p" "c" spec (mail_file "c" "p" "ns") "hub"
      (create_file outside "c" "p" "ns" world).1

alert_once_example :
    (send_email_alert outside "p" "c" spec (mail_file "c" "p" "ns") "hub" world ≡ world)
    × (mailed.log
        ≡ ran (alert_mail spec "p" "c" "hub")
          ∷ wrote (mail_file "c" "p" "ns") "sent"
          ∷ wrote (mail_file "c" "p" "ns") ""
          ∷ [])
    × (mailed.files (mail_file "c" "p" "ns") ≡ some "sent")
    × (send_email_alert outside "p" "c" spec (mail_file "c" "p" "ns") "hub" mailed ≡ mailed)
unfolding is_missing
alert_once_example =
    alert_once outside "p" "c" "ns" "hub" spec world refl (λ log. refl) (λ log. refl)

notify-Flagged_example :
    Ensures
      (λ e t. Flagged start true e t)
      (notify_external_system outside "firing" "https://rem" "u" "w" "p" "c" "f" start)
unfolding read_file
notify-Flagged_example =
    notify-Flagged outside "firing" "https://rem" "u" "w" "p" "c" "f" 200 (ok "[]") (λ m u. refl)
      (λ log r. refl) start refl

validate_container_scan-default_example :
    Defaulted (default spec)
    × (validate_container_scan 63 "scan" (default spec) ≢ crashed)
    × ((validate_container_scan 63 "scan" (default spec) ≡ checked none)
        ↔ Complete 63 "scan" (some false) (some false) "e" "r" "" "" "")
unfolding default
validate_container_scan-default_example = validate_container_scan-default 63 "scan" spec

-- A crashing container after one that exited with one, and then one that exited with zero.
abbrev pods : List Pod
pods =
    record {
      name = "p";
      node_name = "n1";
      states =
          record { name = "a"; terminated = some (pos 1); waiting = none }
          ∷ record { name = "b"; terminated = none; waiting = some "CrashLoopBackOff" }
          ∷ record { name = "c"; terminated = some (pos 0); waiting = none }
          ∷ [];
      containers = "a" ∷ "b" ∷ "c" ∷ [];
    }
    ∷ []

abbrev pod_api : PodApi
pod_api = record {
  namespace = λ ns. ok ns;
  pod_fails = λ ns p. p == "gone";
  pods = λ ns. ok pods;
  pods_afterwards = λ ns. ok pods;
  directory = λ w. [];
}

abbrev seen : Condition
seen = record {
  ctype = ready_type;
  status = "True";
  last_transition_time = some (pos 5);
  reason = "";
  message = "";
}

abbrev aggregating : ContainerScanSpec
aggregating = record spec {
  aggregate_alerts = some false;
  notify_extenal = some true;
  external_url = "https://rem";
}

abbrev wide : ContainerScanSpec
wide = record aggregating { target_namespace = "ns" ∷ "other" ∷ [] }

-- A scan that ran before, and then lists pods.
abbrev listing : List String → Session ContainerScanStatus
listing entries = record start {
  status = record (start.status) {
    conditions = seen ∷ [];
    last_run_time = some (negsuc 5_000_000_000_000);
    affected_pods = entries;
  };
}

reconcile-Ended_example :
    Ensures
      (λ r t.
        Ended outside wide "other" (some (failing_error "ns")) r t
        × Carried true (listing ("gone:ns:ns" ∷ [])) t)
      (reconcile_object outside api pod_api "mine" wide
        (record (listing ("gone:ns:ns" ∷ [])) { payload = none }))
unfolding load get_ready_condition past_time check_delay
reconcile-Ended_example =
    reconcile-Ended outside api pod_api "mine" wide (λ log. refl) outside-IsDocumented refl "user"
      "word" "ns" ("other" ∷ []) refl seen (record (listing ("gone:ns:ns" ∷ [])) { payload = none })
      (listing ("gone:ns:ns" ∷ [])) refl
      (record { seen = refl; configured = refl; connected = refl; is_on = refl }) (λ h. refl)
      ((refl, tt), tt) refl

reconcile_object-Listed_example :
    Ensures
      (λ _ t. Listed t)
      (reconcile_object outside api pod_api "mine" aggregating (listing ("gone:ns:ns" ∷ [])))
reconcile_object-Listed_example =
    reconcile_object-Listed outside api pod_api "mine" aggregating outside-IsDocumented refl
      (λ d h. ground arith) (listing ("gone:ns:ns" ∷ [])) ((refl, tt), tt)

check_pods-Moved_example :
    Ensures
      (λ names t.
        (is_empty names ≡ false)
        × Moved true (said_pods later_poll "ns" pods) (listing ("gone:ns:ns" ∷ [])) t)
      (check_pods outside aggregating "u" "w" "ns" later_poll pods (listing ("gone:ns:ns" ∷ [])))
check_pods-Moved_example =
    check_pods-Moved outside outside-IsDocumented aggregating "u" "w" "ns" later_poll pods
      (listing ("gone:ns:ns" ∷ [])) (λ h. refl) ((refl, tt), tt)

cleanup-Cleaned_example :
    Ensures
      (λ _ t.
        Cleaned pod_api "ns" (listing ("p:ns:ns" ∷ "gone:ns:ns" ∷ [])) t
        × (not (mem "gone:ns:ns" t.status.affected_pods) ≡ true))
      (cleanup outside aggregating "ns" pod_api (listing ("p:ns:ns" ∷ "gone:ns:ns" ∷ [])))
unfolding split_n
cleanup-Cleaned_example =
    cleanup-Cleaned outside aggregating "ns" outside-IsDocumented pod_api
      (listing ("p:ns:ns" ∷ "gone:ns:ns" ∷ [])) (refl, (refl, tt))

remote_files-Panics_example : panics (remote_files outside spec "ns" pod_api start) ≡ true
remote_files-Panics_example = remote_files-Panics outside spec "ns" pod_api start
