-- ===== src/Tests/VmScan.antt =====
-- The VM scan at concrete input: two controllers on the first node, one on the last.
use monitoring_wo_webhooks.Prelude.{
  arith, ◌≡◌, ◌≢◌, ◌↔◌, refl, true, false, none, some, List, [], ◌∷◌,
}
use monitoring_wo_webhooks.Runtime.{is_missing, Session, ok}
use monitoring_wo_webhooks.Runtime.Laws.{Ensures}
use monitoring_wo_webhooks.Admission.{checked, crashed}
use monitoring_wo_webhooks.Admission.Laws.{Complete}
use monitoring_wo_webhooks.VmScan.Types.{VmScanSpec, VmScanStatus, Vmi, VmApi}
use monitoring_wo_webhooks.VmScan.Migrations.{is_controller, check_migrations}
use monitoring_wo_webhooks.VmScan.Migrations.Laws.{running, Migrated, check_migrations-Migrated}
use monitoring_wo_webhooks.VmScan.Placement.{is_crowded, on_node, place}
use monitoring_wo_webhooks.VmScan.Controller.{load, reconcile_object}
use monitoring_wo_webhooks.VmScan.Controller.Runs.{Concluded, Lists, reconcile-Concluded}
use monitoring_wo_webhooks.VmScan.Webhook.{default, validate_vm_scan}
use monitoring_wo_webhooks.VmScan.Webhook.Laws.{Defaulted, validate_vm_scan-default}
use monitoring_wo_webhooks.Alerts.Laws.{filled_map}
use monitoring_wo_webhooks.VmScan.Util.{sub_notify_external_system, running_alert}
use monitoring_wo_webhooks.VmScan.Util.Laws.{mailed, resolved_fingerprint}
use monitoring_wo_webhooks.Tests.World.{outside, outside-IsDocumented, world, api}

abbrev spec : VmScanSpec
spec = record {
  suspend = none;
  target_namespace = "ns" ∷ [];
  check_interval = none;
  suspend_email_alert = some false;
  email = "e";
  relay_host = "r";
  notify_extenal = some false;
  external_url = "";
  external_data = "";
  external_secret = "";
}

abbrev status : VmScanStatus
status = record {
  conditions = [];
  last_poll_time = none;
  external_notified = true;
  external_notified_time = none;
  incident_id = [];
  migrations = "controller-1:ns" ∷ [];
  affected_targets = "n1:ns:controller-1" ∷ [];
}

abbrev start : Session VmScanStatus
start = record { world = world; status = status; payload = none }

abbrev vmis : List Vmi
vmis =
    record { name = "controller-1"; node_name = "n1"; migration = some true }
    ∷ record { name = "controller-2"; node_name = "n1"; migration = some false }
    ∷ record { name = "controller-3"; node_name = "n2"; migration = none }
    ∷ []

abbrev vms : VmApi
vms = record { nodes = ok ("n1" ∷ "n2" ∷ []); migrating = λ ns. ok vmis; placed = λ ns. ok vmis }

reconcile-Concluded_example :
    Ensures
      (λ r t. Concluded outside spec false start r t × Lists vms ("ns" ∷ []) false start t)
      (reconcile_object outside api vms "ns" spec start)
unfolding load is_crowded on_node place is_controller
reconcile-Concluded_example =
    reconcile-Concluded outside api vms "ns" spec (λ log. refl) outside-IsDocumented "" "" "n1"
      ("n2" ∷ []) "ns" [] refl ((vmis, refl), tt) start start refl
      (record { configured = refl; connected = refl; nodes_listed = refl; is_on = refl })
      (λ h. absurd (ground arith)) (refl, tt) tt

check_migrations-Migrated_example :
    Ensures
      (λ _ t. Migrated (running vms ("ns" ∷ [])) start t)
      (check_migrations outside vms ("ns" ∷ []) start)
check_migrations-Migrated_example =
    check_migrations-Migrated outside outside-IsDocumented vms ("ns" ∷ []) start (refl, tt)

validate_vm_scan-default_example :
    Defaulted (default spec)
    × (validate_vm_scan 63 "scan" (default spec) ≢ crashed)
    × ((validate_vm_scan 63 "scan" (default spec) ≡ checked none)
        ↔ Complete 63 "scan" (some false) (some false) "e" "r" "" "" "")
unfolding default
validate_vm_scan-default_example = validate_vm_scan-default 63 "scan" spec

resolved_fingerprint_example :
    Ensures
      (λ _ t.
        t.payload
        ≡ some (
            filled_map "sent" "resolved" "now"
              (running_alert "n1" "ns")
              (running_alert "n1" "ns")
              []))
      (sub_notify_external_system outside "resolved" "ns" "n1" "https://rem" "u" "w" "f"
        (record start { world = mailed outside "ns" "n1" "f" "hub" spec world; payload = some [] }))
unfolding is_missing
resolved_fingerprint_example =
    resolved_fingerprint outside "ns" "n1" "f" "hub" spec (λ log. refl) (λ log. refl) "https://rem"
      "u" "w" (record start { payload = some [] }) [] refl refl
