-- ===== src/VmScan/Controller.antt =====
-- `Reconcile` of internal/controller/vmscan_controller.go around its loops.
pub mod Laws
pub mod Runs
use monitoring_wo_webhooks.Prelude.{
  String, ◌<>◌, Bool, true, false, Option, none, some, List, [], ◌∷◌, if◌then◌else◌, is_set,
}
use monitoring_wo_webhooks.Prelude.Int.{ℤ, pos, ltb_ℤ}
use monitoring_wo_webhooks.Runtime.{
  Outside, World, Fallible, ok, err, Session, Outcome, M, returned, panicked, bind, pure, ◌>>=◌,
  ◌>>◌, on_world, act, modify, get_status, now,
}
use monitoring_wo_webhooks.Cluster.{
  Reply, Object, of_kind, foreign, Fetched, found, not_found, not_fetched, Reconciled, early, run,
  Api, check_delay, past_time, record_event, update_status,
}
use monitoring_wo_webhooks.VmScan.Types.{VmScanSpec, VmScanStatus, VmApi}
use monitoring_wo_webhooks.VmScan.Util.{set_non_violation_condition}
use monitoring_wo_webhooks.VmScan.Migrations.{check_migrations}
use monitoring_wo_webhooks.VmScan.Placement.{Poll, first_poll, later_poll, check_namespaces}

abbrev pub reason : String
reason = "VmScanScanReconciler"

abbrev pub trouble : String
trouble = "Trouble reaching the one of the target or all targets"

abbrev pub affected_error : String
affected_error = "one or more VMIs are running on the same node in target namespace"

abbrev pub success : String
success = "Success. No VMI placement violation found."

abbrev pub config_text : String
config_text = "unable to retrieve in cluster configuration due to "

abbrev pub delay : VmScanSpec → ℤ
delay spec = check_delay spec.check_interval

module _ (o : Outside) (api : Api) (vms : VmApi) (namespace : String) (spec : VmScanSpec) where
  -- The closure `report`.
  unfoldable pub report : String → String → Option String → M VmScanStatus (Unit {0})
  report status message none = do
    act (record_event "Normal" message)
    set_non_violation_condition o status reason message
  report status message (some e) = do
    act (record_event "Warning" (message <> (": " <> e)))
    set_non_violation_condition o status reason (message <> (": " <> e))

  unfoldable pub report_error : Option String → M VmScanStatus (Unit {0})
  unfolding report
  report_error none = pure tt
  report_error (some e) = report "Violated" trouble (some e)

  -- The deferred function, on the results that it finds.
  unfoldable pub finish : Reply → M VmScanStatus Reply
  unfolding report_error
  finish r = do
    report_error r.error
    u ← on_world (update_status o)
    elim u [
      | none ↦ pure r
      | some e ↦
          pure (record { requeue_after = pos 0; error = o.aggregate (r.error ∷ some e ∷ []) })
    ]

  -- The deferred function runs after a panic too. No error is set by then.
  unfoldable pub finally : M VmScanStatus Reply → M VmScanStatus Reply
  unfolding finish
  finally m s = elim (m s) [
    | returned r t ↦ finish r t
    | panicked t ↦
        bind (finish (record { requeue_after = pos 0; error = none }) t) (λ _ u. panicked u)
  ]

  -- What follows the loop over the namespaces.
  unfoldable pub conclude : Fallible Bool → M VmScanStatus Reply
  unfolding report
  conclude (err e) = pure (record { requeue_after = pos 0; error = some e })
  conclude (ok true) = pure (record { requeue_after = delay spec; error = some affected_error })
  conclude (ok false) = do
    t ← on_world (now o)
    modify (λ st. record st { last_poll_time = some t; external_notified = false })
    report "NonViolated" success none
    pure (record { requeue_after = delay spec; error = none })

  unfoldable pub sweep : String → String → Poll → List String → M VmScanStatus Reply
  unfolding conclude check_migrations check_namespaces
  sweep username password poll nodes = do
    check_migrations o vms spec.target_namespace
    r ← check_namespaces o spec username password poll vms nodes spec.target_namespace [] false
    conclude r

  -- The branch on `LastPollTime`.
  unfoldable pub poll_if_due : String → String → List String → M VmScanStatus Reply
  unfolding sweep
  poll_if_due username password nodes = do
    st ← get_status
    elim st.last_poll_time [
      | none ↦ sweep username password first_poll nodes
      | some last ↦ do
        t ← on_world (now o)
        if ltb_ℤ last (past_time t (delay spec))
            then sweep username password later_poll nodes
            else pure (record { requeue_after = delay spec; error = none })
    ]

  -- From the deferred function on.
  unfoldable pub check : String → String → M VmScanStatus Reply
  unfolding finally poll_if_due
  check username password = elim api.config_error [
    | some e ↦ finish (record { requeue_after = pos 0; error = some (config_text <> e) })
    | none ↦ elim api.client_error [
      | some e ↦ finish (record { requeue_after = pos 0; error = some (config_text <> e) })
      | none ↦ elim vms.nodes [
        | err e ↦ finish (record { requeue_after = pos 0; error = some e })
        | ok nodes ↦
            if is_set spec.suspend
            then finish (record { requeue_after = delay spec; error = none })
            else finally (poll_if_due username password nodes)
      ]
    ]
  ]

  abbrev pub secret_error : String → String
  secret_error e =
      "failed to get Secret containing External alert system credentials, secret name: "
      <> (o.namespaced_name namespace spec.external_secret <> (", reason: " <> e))

  abbrev pub config_map_error : String → String
  config_map_error e =
      "failed to get ConfigMap containing the data to be sent to the external alert system"
      <> (", configmap name: "
          <> (o.namespaced_name namespace spec.external_data <> (", reason: " <> e)))

  unfoldable pub load : M VmScanStatus (Fallible (String × String))
  load s =
      if is_set spec.notify_extenal
      then elim (api.secret namespace spec.external_secret) [
        | err e ↦ returned (err (secret_error e)) s
        | ok credentials ↦ elim (api.config_map namespace spec.external_data) [
          | err e ↦ returned (err (config_map_error e)) s
          | ok d ↦ returned (ok credentials) (record s { payload = d })
        ]
      ]
      else returned (ok ("", "")) s

  unfoldable pub reconcile_object : M VmScanStatus Reply
  unfolding load check
  reconcile_object = do
    r ← load
    elim r [
      | err e ↦ pure (record { requeue_after = pos 0; error = some e })
      | ok (username, password) ↦ check username password
    ]

-- `Reconcile`, from the error of making the object and what `Get` answers.
unfoldable pub reconcile :
    Outside
    → Api
    → VmApi
    → String
    → Option String
    → Fetched (Object (VmScanSpec × VmScanStatus))
    → World
    → Reconciled VmScanStatus
reconcile o api vms namespace (some e) fetched w =
    early (record { requeue_after = pos 0; error = some e })
reconcile o api vms namespace none (not_fetched e) w =
    early (record { requeue_after = pos 0; error = some ("unexpected get error : " <> e) })
reconcile o api vms namespace none not_found w =
    early (record { requeue_after = pos 0; error = none })
reconcile o api vms namespace none (found foreign) w =
    early (record { requeue_after = pos 0; error = none })
reconcile o api vms namespace none (found (of_kind (spec, status))) w = run (
    reconcile_object o api vms namespace spec
      (record { world = w; status = status; payload = none }))
