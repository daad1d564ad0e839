-- ===== src/PortScan/Types.antt =====
-- `PortScanSpec` and `PortScanStatus` of api/v1alpha1/portscan_types.go.
use monitoring_wo_webhooks.Prelude.{String, Bool, Option, List}
use monitoring_wo_webhooks.Prelude.Int.{ℤ}
use monitoring_wo_webhooks.Conditions.{Condition}

-- An optional flag or number is a pointer in the source.
pub record PortScanSpec : Type 0 where
  pub suspend : Option Bool
  pub target : List String
  pub suspend_email_alert : Option Bool
  pub email : String
  pub relay_host : String
  pub notify_extenal : Option Bool
  pub external_url : String
  pub external_data : String
  pub external_secret : String
  pub check_interval : Option ℤ

-- Times are nanoseconds.
pub record PortScanStatus : Type 0 where
  pub conditions : List Condition
  pub last_poll_time : Option ℤ
  pub external_notified : Bool
  pub external_notified_time : Option ℤ
  pub incident_id : List String
  pub affected_targets : List String
