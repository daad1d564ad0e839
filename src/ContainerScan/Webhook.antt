-- ===== src/ContainerScan/Webhook.antt =====
-- api/v1alpha1/containerscan_webhook.go. The logs and the registration are left out.
pub mod Laws
use monitoring_wo_webhooks.Prelude.{
  ℕ, Bool, true, false, Option, none, some, List, ◌++◌, String, if◌then◌else◌,
}
use monitoring_wo_webhooks.Prelude.Int.{ℤ, pos}
use monitoring_wo_webhooks.Admission.{
  FieldError, Checked, checked, crashed, Invalid, check_mail, check_external, first_checked,
  or_default, deref, check_name, to_list, invalid_of,
}
use monitoring_wo_webhooks.ContainerScan.Types.{ContainerScanSpec}

-- `Default`
unfoldable pub default : ContainerScanSpec → ContainerScanSpec
default s = record s {
  suspend_email_alert = or_default s.suspend_email_alert true;
  notify_extenal = or_default s.notify_extenal false;
  aggregate_alerts = or_default s.aggregate_alerts false;
  check_interval = or_default s.check_interval (pos 2);
}

unfoldable pub validate_container_scan_spec : ContainerScanSpec → Checked (Option FieldError)
unfolding check_mail check_external
validate_container_scan_spec s = deref s.suspend_email_alert λ suspended.
    first_checked (if suspended then none else check_mail s.email s.relay_host) (
      deref s.notify_extenal λ notify.
        checked (
          if notify then check_external s.external_secret s.external_data s.external_url else none))

module _ (label_max : ℕ) where
  -- `ValidateContainerScan`, which collects the error of the name and that of the spec.
  unfoldable pub validate_container_scan : String → ContainerScanSpec → Checked (Option Invalid)
  unfolding validate_container_scan_spec check_name
  validate_container_scan name s = elim (validate_container_scan_spec s) [
    | crashed ↦ crashed
    | checked e ↦
        checked (invalid_of "ContainerScan" name (to_list (check_name label_max name) ++ to_list e))
  ]

  unfoldable pub validate_create : String → ContainerScanSpec → Checked (Option Invalid)
  unfolding validate_container_scan
  validate_create name s = validate_container_scan name s

  unfoldable pub validate_update : String → ContainerScanSpec → Checked (Option Invalid)
  unfolding validate_container_scan
  validate_update name s = validate_container_scan name s

unfoldable pub validate_delete : String → ContainerScanSpec → Checked (Option Invalid)
validate_delete name s = checked none
