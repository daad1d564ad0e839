-- ===== src/PortScan/Webhook/Laws.antt =====
-- What the webhook of a port scan admits, and what the controller may rely on afterwards.
use monitoring_wo_webhooks.Prelude.{
  ℕ, ◌≡◌, ◌≢◌, ◌↔◌, String, true, none, List, [], ◌∷◌, arith, is_some, is_set, is_unset, Option,
  some,
}
use monitoring_wo_webhooks.Prelude.Text.{split_n, is_some-cut}
use monitoring_wo_webhooks.Admission.{checked, crashed}
use monitoring_wo_webhooks.Admission.Laws.{
  Complete, check_mail_lem, check_external_lem, check_name_lem,
}
use monitoring_wo_webhooks.Prelude.Int.{ℤ, pos}
use monitoring_wo_webhooks.Cluster.{check_delay, minutes}
use monitoring_wo_webhooks.PortScan.Controller.{delay}
use monitoring_wo_webhooks.PortScan.Types.{PortScanSpec}
use monitoring_wo_webhooks.PortScan.Targets.Laws.{AllPorts}
use monitoring_wo_webhooks.PortScan.Webhook.{default, check_targets, validate_port_scan}

-- What the webhook asks of a scan, once the defaults are filled in.
pub record Admissible (label_max : ℕ) (name : String) (s : PortScanSpec) : Type 0 where
  pub complete :
      Complete label_max name s.suspend_email_alert s.notify_extenal s.email s.relay_host
        s.external_secret s.external_data s.external_url
  pub ports : AllPorts s.target

pub record Defaulted (s : PortScanSpec) : Type 0 where
  pub suspend_email : is_some s.suspend_email_alert ≡ true
  pub notify : is_some s.notify_extenal ≡ true
  pub interval : is_some s.check_interval ≡ true

-- The time between two polls: two minutes by default.
abbrev pub default_delay : Option ℤ → ℤ
default_delay none = pos 120_000_000_000
default_delay (some m) = minutes m

-- `Default` fills every pointer that validation reads, does nothing twice, and changes a scan
-- exactly if one of these pointers is nil. It changes neither whether alerts are sent to the
-- external system nor whether they are mailed, makes the scan poll every two minutes unless an
-- interval is set, which it keeps, and changes no other field.
pub default_lem :
    (s : PortScanSpec)
    → Defaulted (default s)
      × (default (default s) ≡ default s)
      × ((default s ≡ s) ↔ Defaulted s)
      × (is_set (default s).notify_extenal ≡ is_set s.notify_extenal)
      × (is_unset (default s).suspend_email_alert ≡ is_unset s.suspend_email_alert)
      × (delay (default s) ≡ default_delay s.check_interval)
      × (default s ≡ record s {
        suspend_email_alert = (default s).suspend_email_alert;
        notify_extenal = (default s).notify_extenal;
        check_interval = (default s).check_interval;
      })
unfolding default check_delay minutes
default_lem s = ground arith

check_targets-AllPorts : (all ts : List String) → (check_targets all ts ≡ none) ↔ AllPorts ts
unfolding check_targets split_n
check_targets-AllPorts all [] = ground arith
check_targets-AllPorts all (t ∷ ts) =
    ground (arith, check_targets-AllPorts all ts, is_some-cut t ":")

-- On a scan with its defaults filled in, validation does not read through a nil pointer, and finds
-- no error exactly if the scan is admissible.
pub validate_port_scan-Admissible :
    (label_max : ℕ) (name : String) (s : PortScanSpec)
    → Defaulted s
    → (validate_port_scan label_max name s ≢ crashed)
      × ((validate_port_scan label_max name s ≡ checked none) ↔ Admissible label_max name s)
unfolding validate_port_scan
validate_port_scan-Admissible label_max name s d = ground (
  arith,
  check_name_lem label_max name,
  check_mail_lem s.email s.relay_host,
  check_external_lem s.external_secret s.external_data s.external_url,
  check_targets-AllPorts s.target s.target,
)
