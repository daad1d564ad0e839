-- ===== src/MetallbScan/Types.antt =====
-- `MetallbScanSpec` and `MetallbScanStatus` of api/v1alpha1/metallbscan_types.go.
use monitoring_wo_webhooks.Prelude.{String, Bool, Option, List}
use monitoring_wo_webhooks.Prelude.Int.{ℤ}
use monitoring_wo_webhooks.Runtime.{Dict}
use monitoring_wo_webhooks.Conditions.{Condition}

pub record MetallbScanSpec : Type 0 where
  pub suspend : Option Bool
  pub ignore_bfd : Option Bool
  pub ignore_no_bgp_hop : Option Bool
  pub worker_label : Option Dict
  pub speaker_pod_label : Option Dict
  pub suspend_email_alert : Option Bool
  pub email : String
  pub cluster : Option String
  pub metallb_namespace : Option String
  pub relay_host : String
  pub notify_external : Option Bool
  pub external_url : String
  pub external_data : String
  pub external_secret : String
  pub check_interval : Option ℤ

pub record MetallbScanStatus : Type 0 where
  pub conditions : List Condition
  pub last_run_time : Option ℤ
  pub incident_id : List String
  pub failed_checks : List String
  pub last_successful_run_time : Option ℤ
  pub healthy : Bool
