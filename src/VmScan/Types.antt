-- ===== src/VmScan/Types.antt =====
-- `VmScanSpec` and `VmScanStatus` of api/v1alpha1/vmscan_types.go, and what the controller reads of
-- the virtual machine instances of KubeVirt.
use monitoring_wo_webhooks.Prelude.{String, Bool, Option, List}
use monitoring_wo_webhooks.Prelude.Int.{ℤ}
use monitoring_wo_webhooks.Runtime.{Fallible}
use monitoring_wo_webhooks.Conditions.{Condition}

pub record VmScanSpec : Type 0 where
  pub suspend : Option Bool
  pub target_namespace : List String
  pub check_interval : Option ℤ
  pub suspend_email_alert : Option Bool
  pub email : String
  pub relay_host : String
  pub notify_extenal : Option Bool
  pub external_url : String
  pub external_data : String
  pub external_secret : String

pub record VmScanStatus : Type 0 where
  pub conditions : List Condition
  pub last_poll_time : Option ℤ
  pub external_notified : Bool
  pub external_notified_time : Option ℤ
  pub incident_id : List String
  pub migrations : List String
  pub affected_targets : List String

-- Name, node, and whether the migration is completed, if there is one.
pub record Vmi : Type 0 where
  pub name : String
  pub node_name : String
  pub migration : Option Bool

-- The nodes, and the instances of a namespace at the two times at which they are listed.
pub record VmApi : Type 0 where
  pub nodes : Fallible (List String)
  pub migrating : String → Fallible (List Vmi)
  pub placed : String → Fallible (List Vmi)
