-- ===== src/Cluster.antt =====
-- The API server as one run of a controller sees it, and what the four `Reconcile` functions of
-- internal/controller share: the reply, the object that was fetched, and the intervals.
use monitoring_wo_webhooks.Prelude.{String, Option, none, some, ◌∷◌}
use monitoring_wo_webhooks.Prelude.Int.{ℤ, pos, ◌-ℤ◌, ◌+ℤ◌, scale, wrap64}
use monitoring_wo_webhooks.Runtime.{Outside, World, Fallible, Dict, Outcome, recorded, updated}

-- `ctrl.Result` and the error. The delay is in nanoseconds.
pub record Reply : Type 0 where
  pub requeue_after : ℤ
  pub error : Option String

abbrev pub reply : ℤ → Option String → Reply
reply d e = record { requeue_after = d; error = e }

-- The object that the scheme made for the kind, filled by `Get`.
pub data Object (A : Type 0) : Type 0 where
  of_kind : A → Object A
  foreign : Object A

pub data Fetched (A : Type 0) : Type 0 where
  found : A → Fetched A
  not_found : Fetched A
  not_fetched : String → Fetched A

-- A run that returned before it had a status, or the run on a status.
pub data Reconciled (St : Type 0) : Type 0 where
  early : Reply → Reconciled St
  run : Outcome St Reply → Reconciled St

pub record Api : Type 0 where
  -- errors of `rest.InClusterConfig` and `kubernetes.NewForConfig`
  pub config_error : Option String
  pub client_error : Option String
  -- "config.yaml" of the config map "config" in openshift-apiserver, and its decoding
  pub api_config : Fallible String
  pub subdomain : String → Fallible String
  -- user name and password of a secret, and the data of a config map, by namespace and name
  pub secret : String → String → Fallible (String × String)
  pub config_map : String → String → Fallible (Option Dict)

-- `time.Minute * time.Duration(minutes)`
unfoldable pub minutes : ℤ → ℤ
unfolding wrap64 scale
minutes m = wrap64 (scale 60_000_000_000 m)

-- The delay between two checks: 30 minutes if none is set.
unfoldable pub check_delay : Option ℤ → ℤ
unfolding minutes
check_delay none = minutes (pos 30)
check_delay (some m) = minutes m

-- `time.Now().Add(-1 * delay)`
unfoldable pub past_time : ℤ → ℤ → ℤ
unfolding wrap64 ◌+ℤ◌ ◌-ℤ◌
past_time now delay = now +ℤ wrap64 (pos 0 -ℤ delay)

-- `r.recorder.Event`
unfoldable pub record_event : String → String → World → World
record_event kind message w = record w { log = recorded kind message ∷ w.log }

-- `r.Status().Update`
unfoldable pub update_status : Outside → World → Option String × World
update_status o w = (o.update_error w.log, record w { log = updated ∷ w.log })
