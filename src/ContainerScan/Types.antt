-- ===== src/ContainerScan/Types.antt =====
-- `ContainerScanSpec` and `ContainerScanStatus` of api/v1alpha1/containerscan_types.go, and what the
-- controller reads of the pods.
use monitoring_wo_webhooks.Prelude.{String, Bool, Option, List}
use monitoring_wo_webhooks.Prelude.Int.{ℤ}
use monitoring_wo_webhooks.Runtime.{World, Fallible}
use monitoring_wo_webhooks.Conditions.{Condition}

pub record ContainerScanSpec : Type 0 where
  pub suspend : Option Bool
  pub target_namespace : List String
  pub suspend_email_alert : Option Bool
  pub email : String
  pub relay_host : String
  pub aggregate_alerts : Option Bool
  pub notify_extenal : Option Bool
  pub external_url : String
  pub external_data : String
  pub external_secret : String
  pub check_interval : Option ℤ

pub record ContainerScanStatus : Type 0 where
  pub conditions : List Condition
  pub last_run_time : Option ℤ
  pub external_notified : Bool
  pub external_notified_time : Option ℤ
  pub incident_id : List String
  pub affected_pods : List String

-- A container's state: the exit code if it is terminated, and the reason if it is waiting.
pub record ContainerState : Type 0 where
  pub name : String
  pub terminated : Option ℤ
  pub waiting : Option String

-- `containers` are the names in the spec of the pod.
pub record Pod : Type 0 where
  pub name : String
  pub node_name : String
  pub states : List ContainerState
  pub containers : List String

-- The name of a namespace that was fetched, whether a pod of a namespace cannot be fetched, the pods
-- of a namespace at the two times at which they are listed, and the entries that `os.ReadDir` gives
-- of the directory of the files, with or without an error.
pub record PodApi : Type 0 where
  pub namespace : String → Fallible String
  pub pod_fails : String → String → Bool
  pub pods : String → Fallible (List Pod)
  pub pods_afterwards : String → Fallible (List Pod)
  pub directory : World → List String
