-- ===== src/PortScan/Webhook.antt =====
-- api/v1alpha1/portscan_webhook.go. The logs and the registration are left out.
pub mod Laws
use monitoring_wo_webhooks.Prelude.{
  ℕ, String, Bool, true, false, not, Option, none, some, List, [], ◌∷◌, ◌++◌, if◌then◌else◌, eqb,
  length,
}
use monitoring_wo_webhooks.Prelude.Int.{ℤ, pos}
use monitoring_wo_webhooks.Prelude.Text.{contains, split_n}
use monitoring_wo_webhooks.Admission.{
  FieldError, Checked, checked, crashed, Invalid, check_mail, check_external, first_error,
  first_checked, or_default, deref, check_name, to_list, invalid_of,
}
use monitoring_wo_webhooks.PortScan.Types.{PortScanSpec}

-- `Default`
unfoldable pub default : PortScanSpec → PortScanSpec
default s = record s {
  suspend_email_alert = or_default s.suspend_email_alert true;
  notify_extenal = or_default s.notify_extenal false;
  check_interval = or_default s.check_interval (pos 2);
}

abbrev pub target_error : List String → FieldError
target_error targets = record {
  path = "spec" ∷ "target" ∷ [];
  value = targets;
  detail = "please specify the IP/FQDN and port in the format, google.com:443";
}

-- The loop over the targets. The error names all of them.
unfoldable pub check_targets : List String → List String → Option FieldError
check_targets all [] = none
check_targets all (t ∷ ts) =
    if not (contains t ":")
    then some (target_error all)
    else if not (eqb (length (split_n t ":")) 2)
    then some (target_error all)
    else check_targets all ts

unfoldable pub validate_port_scan_spec : PortScanSpec → Checked (Option FieldError)
unfolding check_mail check_external check_targets
validate_port_scan_spec s = deref s.suspend_email_alert λ suspended.
    first_checked (if suspended then none else check_mail s.email s.relay_host) (
      deref s.notify_extenal λ notify. checked (
        first_error
          (if notify then check_external s.external_secret s.external_data s.external_url else none)
          (check_targets s.target s.target)))

module _ (label_max : ℕ) where
  -- `ValidatePortScan`, which collects the error of the name and that of the spec.
  unfoldable pub validate_port_scan : String → PortScanSpec → Checked (Option Invalid)
  unfolding validate_port_scan_spec check_name
  validate_port_scan name s = elim (validate_port_scan_spec s) [
    | crashed ↦ crashed
    | checked e ↦
        checked (invalid_of "PortScan" name (to_list (check_name label_max name) ++ to_list e))
  ]

  unfoldable pub validate_create : String → PortScanSpec → Checked (Option Invalid)
  unfolding validate_port_scan
  validate_create name s = validate_port_scan name s

  unfoldable pub validate_update : String → PortScanSpec → Checked (Option Invalid)
  unfolding validate_port_scan
  validate_update name s = validate_port_scan name s

unfoldable pub validate_delete : String → PortScanSpec → Checked (Option Invalid)
validate_delete name s = checked none
