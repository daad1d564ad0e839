-- ===== src/ContainerScan/Controller.antt =====
-- `Reconcile` of internal/controller/containerscan_controller.go around its loops over the pods.
pub mod Laws
pub mod Runs
pub mod Verdict
pub mod Safety
use monitoring_wo_webhooks.Prelude.{
  String, ◌<>◌, Bool, true, false, not, ◌||◌, Option, none, some, List, [], ◌∷◌, ◌==◌,
  if◌then◌else◌, is_set,
}
use monitoring_wo_webhooks.Prelude.Int.{ℤ, pos, ltb_ℤ}
use monitoring_wo_webhooks.Runtime.{
  Outside, World, Fallible, ok, err, Session, Outcome, M, returned, panicked, bind, pure, ◌>>=◌,
  ◌>>◌, on_world, act, modify, get_status, now,
}
use monitoring_wo_webhooks.Cluster.{
  Reply, reply, Object, of_kind, foreign, Fetched, found, not_found, not_fetched, Reconciled, early,
  run, Api, check_delay, past_time, record_event, update_status,
}
use monitoring_wo_webhooks.ContainerScan.Types.{ContainerScanSpec, ContainerScanStatus, PodApi}
use monitoring_wo_webhooks.ContainerScan.Util.{get_ready_condition, set_ready_condition}
use monitoring_wo_webhooks.ContainerScan.Cleanup.{cleanup, remote_files}
use monitoring_wo_webhooks.ContainerScan.Pods.{Poll, first_poll, later_poll, check_pods}

abbrev pub reason : String
reason = "ContainerScanReconciler"

-- How a list of texts prints under `%s`.
abbrev pub spaced : List String → String
spaced [] = ""
spaced (x ∷ []) = x
spaced (x ∷ y ∷ xs) = x <> (" " <> spaced (y ∷ xs))

abbrev pub trouble : ContainerScanSpec → String
trouble spec =
    "One or more containers have non-zero terminated in namespace ["
    <> (spaced spec.target_namespace <> "]")

abbrev pub failing_error : String → String
failing_error ns = "containers with non-zero exit code found in namespace " <> ns

abbrev pub list_error : String → String → String
list_error ns e = "unable to retrieve the pods in the namespace " <> (ns <> (" " <> e))

abbrev pub success : String → String
success ns =
    "Success. All containers in the target namespace "
    <> (ns <> " have running/zero terminated state")

abbrev pub config_text : String
config_text = "unable to retrieve in cluster configuration due to "

-- The error for a namespace that cannot be fetched, or comes under another name; a nil error
-- prints as "<nil>".
abbrev pub namespace_error : String → Fallible String → Option String
namespace_error ns (err e) = some (
    "failed to get the target namespace in the cluster, namespace: " <> (ns <> (", reason: " <> e)))
namespace_error ns (ok name) =
    if name == ns
    then none
    else some (
        "failed to get the target namespace in the cluster, namespace: "
        <> (ns <> ", reason: <nil>"))

abbrev pub delay : ContainerScanSpec → ℤ
delay spec = check_delay spec.check_interval

module _ (o : Outside) (api : Api) (pods : PodApi) (namespace : String)
    (spec : ContainerScanSpec) where
  -- The closure `report`.
  unfoldable pub report : String → String → Option String → M ContainerScanStatus (Unit {0})
  report status message none = do
    act (record_event "Normal" message)
    set_ready_condition o status reason message
  report status message (some e) = do
    act (record_event "Warning" (message <> (": " <> e)))
    set_ready_condition o status reason (message <> (": " <> e))

  unfoldable pub report_error : Option String → M ContainerScanStatus (Unit {0})
  unfolding report
  report_error none = pure tt
  report_error (some e) = report "False" (trouble spec) (some e)

  -- The deferred function, on the results that it finds.
  unfoldable pub finish : Reply → M ContainerScanStatus Reply
  unfolding report_error
  finish r = do
    report_error r.error
    u ← on_world (update_status o)
    elim u [ none ↦ pure r | some e ↦ pure (reply (pos 0) (o.aggregate (r.error ∷ some e ∷ []))) ]

  -- The deferred function runs after a panic too. No error is set by then.
  unfoldable pub finally : M ContainerScanStatus Reply → M ContainerScanStatus Reply
  unfolding finish
  finally m s = elim (m s) [
    | returned r t ↦ finish r t
    | panicked t ↦ bind (finish (reply (pos 0) none) t) (λ _ u. panicked u)
  ]

  -- A namespace without failing containers.
  unfoldable pub conclude : String → M ContainerScanStatus (Unit {0})
  unfolding report
  conclude ns = do
    t ← on_world (now o)
    modify (λ st. record st { last_run_time = some t; external_notified = false })
    remote_files o spec ns pods
    report "True" (success ns) none

  -- One namespace: the error that it ends the run with, if any.
  unfoldable pub check_namespace :
      String → String → Poll → String → M ContainerScanStatus (Option String)
  unfolding conclude
  check_namespace username password poll ns = elim (namespace_error ns (pods.namespace ns)) [
    | some e ↦ pure (some e)
    | none ↦ do
      cleanup o spec ns pods
      elim (pods.pods ns) [
        | err e ↦ pure (some (list_error ns e))
        | ok items ↦ do
          names ← check_pods o spec username password ns poll items
          elim names [
            | [] ↦ conclude ns >> pure none
            | name ∷ more ↦ pure (some (failing_error ns))
          ]
      ]
  ]

  -- The loop over the namespaces, which the first error ends.
  unfoldable pub check_namespaces :
      String → String → Poll → List String → M ContainerScanStatus (Option String)
  unfolding check_namespace
  check_namespaces username password poll [] = pure none
  check_namespaces username password poll (ns ∷ namespaces) =
      let rest = check_namespaces username password poll namespaces in
      do
        e ← check_namespace username password poll ns
        elim e [ some e ↦ pure (some e) | none ↦ rest ]

  -- An error ends the run without a delay.
  unfoldable pub sweep : String → String → Poll → M ContainerScanStatus Reply
  unfolding check_namespaces
  sweep username password poll = do
    e ← check_namespaces username password poll spec.target_namespace
    elim e [ some e ↦ pure (reply (pos 0) (some e)) | none ↦ pure (reply (delay spec) none) ]

  -- The branch on `LastRunTime`.
  unfoldable pub poll_if_due : String → String → M ContainerScanStatus Reply
  unfolding sweep
  poll_if_due username password = do
    st ← get_status
    elim st.last_run_time [
      | none ↦ sweep username password first_poll
      | some last ↦ do
        t ← on_world (now o)
        if ltb_ℤ last (past_time t (delay spec))
            then sweep username password later_poll
            else pure (reply (delay spec) none)
    ]

  abbrev pub secret_error : String → String
  secret_error e =
      "failed to get Secret containing External alert system credentials, secret name: "
      <> (o.namespaced_name namespace spec.external_secret <> (", reason: " <> e))

  abbrev pub config_map_error : String → String
  config_map_error e =
      "failed to get ConfigMap containing the data to be sent to the external alert system"
      <> (", configmap name: "
          <> (o.namespaced_name namespace spec.external_data <> (", reason: " <> e)))

  unfoldable pub load : M ContainerScanStatus (Fallible (String × String))
  load s =
      if is_set spec.notify_extenal
      then elim (api.secret namespace spec.external_secret) [
        | err e ↦ returned (err (secret_error e)) s
        | ok credentials ↦ elim (api.config_map namespace spec.external_data) [
          | err e ↦ returned (err (config_map_error e)) s
          | ok d ↦ returned (ok credentials) (record s { payload = d })
        ]
      ]
      else returned (ok ("", "")) s

  -- From the test of the condition on. A suspended scan asks for no further run.
  unfoldable pub check : String → String → M ContainerScanStatus Reply
  unfolding poll_if_due report
  check username password = do
    st ← get_status
    elim (get_ready_condition st) [
      | none ↦ report "Unknown" "First Seen" none >> pure (reply (pos 0) none)
      | some c ↦ elim api.config_error [
        | some e ↦ pure (reply (pos 0) (some (config_text <> e)))
        | none ↦ elim api.client_error [
          | some e ↦ pure (reply (pos 0) (some (config_text <> e)))
          | none ↦
              if is_set spec.suspend
              then pure (reply (pos 0) none)
              else poll_if_due username password
        ]
      ]
    ]

  unfoldable pub run_object : M ContainerScanStatus Reply
  unfolding load check
  run_object = do
    r ← load
    elim r [
      | err e ↦ pure (reply (pos 0) (some e))
      | ok (username, password) ↦ check username password
    ]

  -- The deferred function is set before secret and config map are read.
  unfoldable pub reconcile_object : M ContainerScanStatus Reply
  unfolding finally run_object
  reconcile_object = finally run_object

-- `Reconcile`, from the error of making the object and what `Get` answers.
unfoldable pub reconcile :
    Outside
    → Api
    → PodApi
    → String
    → Option String
    → Fetched (Object (ContainerScanSpec × ContainerScanStatus))
    → World
    → Reconciled ContainerScanStatus
reconcile o api pods namespace (some e) fetched w = early (reply (pos 0) (some e))
reconcile o api pods namespace none (not_fetched e) w =
    early (reply (pos 0) (some ("unexpected get error : " <> e)))
reconcile o api pods namespace none not_found w = early (reply (pos 0) none)
reconcile o api pods namespace none (found foreign) w = early (reply (pos 0) none)
reconcile o api pods namespace none (found (of_kind (spec, status))) w = run (
    reconcile_object o api pods namespace spec
      (record { world = w; status = status; payload = none }))
