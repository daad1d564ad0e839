-- ===== src/ContainerScan/Webhook/Laws.antt =====
-- What the webhook of a container scan admits.
use monitoring_wo_webhooks.Prelude.{ℕ, ◌≡◌, ◌≢◌, ◌↔◌, String, true, none, arith, is_some}
use monitoring_wo_webhooks.Admission.{checked, crashed}
use monitoring_wo_webhooks.Admission.Laws.{
  Complete, check_mail_lem, check_external_lem, check_name_lem,
}
use monitoring_wo_webhooks.ContainerScan.Types.{ContainerScanSpec}
use monitoring_wo_webhooks.ContainerScan.Webhook.{default, validate_container_scan}

pub record Defaulted (s : ContainerScanSpec) : Type 0 where
  pub suspend_email : is_some s.suspend_email_alert ≡ true
  pub notify : is_some s.notify_extenal ≡ true
  pub interval : is_some s.check_interval ≡ true
  pub aggregate : is_some s.aggregate_alerts ≡ true

-- Every scan, with its defaults filled in, is validated without a panic, and admitted exactly if its
-- name is short enough and the fields are set that its mails and notifications need.
pub validate_container_scan-default :
    (label_max : ℕ) (name : String) (s : ContainerScanSpec)
    → let t = default s in
      Defaulted t
      × (validate_container_scan label_max name t ≢ crashed)
      × ((validate_container_scan label_max name t ≡ checked none)
          ↔ Complete label_max name t.suspend_email_alert t.notify_extenal t.email t.relay_host
              t.external_secret t.external_data t.external_url)
unfolding default validate_container_scan
validate_container_scan-default label_max name s = ground (
  arith,
  check_name_lem label_max name,
  check_mail_lem s.email s.relay_host,
  check_external_lem s.external_secret s.external_data s.external_url,
)
