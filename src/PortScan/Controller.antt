-- ===== src/PortScan/Controller.antt =====
-- `Reconcile` of internal/controller/portscan_controller.go around its loops.
pub mod Laws
pub mod Polls
pub mod Runs
pub mod Invariant
use monitoring_wo_webhooks.Prelude.{
  ℕ, String, ◌<>◌, Bool, true, false, ◌||◌, Option, none, some, List, [], ◌∷◌, ◌==◌, if◌then◌else◌,
  is_set, is_some,
}
use monitoring_wo_webhooks.Prelude.Int.{ℤ, pos, ltb_ℤ}
use monitoring_wo_webhooks.Runtime.{
  Outside, World, Fallible, ok, err, Session, Outcome, M, returned, panicked, bind, pure, panic,
  ◌>>=◌, ◌>>◌, on_world, act, look, modify, get_status, now, text_of,
}
use monitoring_wo_webhooks.Cluster.{
  Reply, Object, of_kind, foreign, Fetched, found, not_found, not_fetched, Reconciled, early, run,
  Api, check_delay, past_time, record_event, update_status,
}
use monitoring_wo_webhooks.PortScan.Types.{PortScanSpec, PortScanStatus}
use monitoring_wo_webhooks.PortScan.Util.{get_ready_condition, set_ready_condition}
use monitoring_wo_webhooks.PortScan.Targets.{Poll, first_poll, later_poll, poll_targets}

-- `GetAPIName`: the domain, and the error.
unfoldable pub get_api_name : Api → String × Option String
get_api_name api = elim api.api_config [
  | err e ↦ ("", some e)
  | ok text ↦ elim (api.subdomain text) [ err e ↦ ("", some e) | ok domain ↦ (domain, none) ]
]

-- `runningHost`
unfoldable pub running_host : Api → String
unfolding get_api_name
running_host api =
    let r = get_api_name api in if is_some r.1 || r.0 == "" then "hub-cluster" else r.0

abbrev pub reason : String
reason = "PortScanReconciler"

abbrev pub trouble : String
trouble = "Trouble reaching the one of the target or all targets"

abbrev pub unreachable_error : String
unreachable_error = "one of the target or all are unreachable"

abbrev pub first_success : String
first_success = "Success. All targets are reachable."

abbrev pub later_success : String
later_success = "Success. All configured targets are reachable."

abbrev pub config_text : String
config_text = "unable to get in cluster configuration due to error "

abbrev pub delay : PortScanSpec → ℤ
delay spec = check_delay spec.check_interval

module _ (o : Outside) (api : Api) (namespace : String) (spec : PortScanSpec) where
  -- The closure `report`.
  unfoldable pub report : String → String → Option String → M PortScanStatus (Unit {0})
  report status message none = do
    act (record_event "Normal" message)
    set_ready_condition o status reason message
  report status message (some e) = do
    act (record_event "Warning" (message <> (": " <> e)))
    set_ready_condition o status reason (message <> (": " <> e))

  unfoldable pub report_error : Option String → M PortScanStatus (Unit {0})
  unfolding report
  report_error none = pure tt
  report_error (some e) = report "False" trouble (some e)

  -- The deferred function, on the results that it finds.
  unfoldable pub finish : Reply → M PortScanStatus Reply
  unfolding report_error
  finish r = do
    report_error r.error
    u ← on_world (update_status o)
    elim u [
      | none ↦ pure r
      | some e ↦
          pure (record { requeue_after = pos 0; error = o.aggregate (r.error ∷ some e ∷ []) })
    ]

  -- The deferred function runs after a panic too, on the error that is set by then.
  unfoldable pub finally : Option String → M PortScanStatus Reply → M PortScanStatus Reply
  unfolding finish
  finally pending m s = elim (m s) [
    | returned r t ↦ finish r t
    | panicked t ↦
        bind (finish (record { requeue_after = pos 0; error = pending }) t) (λ _ u. panicked u)
  ]

  -- What follows the loop over the targets.
  unfoldable pub conclude : String → List String → M PortScanStatus Reply
  unfolding report
  conclude message (host ∷ hosts) =
      pure (record { requeue_after = delay spec; error = some unreachable_error })
  conclude message [] = do
    t ← on_world (now o)
    modify (λ st. record st { last_poll_time = some t })
    report "True" message none
    pure (record { requeue_after = delay spec; error = none })

  unfoldable pub sweep : String → String → Poll → String → M PortScanStatus Reply
  unfolding conclude
  sweep username password poll message = do
    errors ← poll_targets o spec username password (running_host api) poll spec.target
    conclude message errors

  -- The branch on `LastPollTime`.
  unfoldable pub poll_if_due : String → String → M PortScanStatus Reply
  unfolding sweep
  poll_if_due username password = do
    st ← get_status
    elim st.last_poll_time [
      | none ↦ sweep username password first_poll first_success
      | some last ↦ do
        t ← on_world (now o)
        if ltb_ℤ last (past_time t (delay spec))
            then sweep username password later_poll later_success
            else pure (record { requeue_after = delay spec; error = none })
    ]

  unfoldable pub connect : String → String → M PortScanStatus Reply
  unfolding finally poll_if_due get_api_name
  connect username password = elim api.config_error [
    | some e ↦ finish (record { requeue_after = pos 0; error = some (config_text <> e) })
    | none ↦ elim api.client_error [
      | some e ↦ finish (record { requeue_after = pos 0; error = some (config_text <> e) })
      | none ↦ finally (get_api_name api).1 (poll_if_due username password)
    ]
  ]

  -- From the deferred function on.
  unfoldable pub check : String → String → M PortScanStatus Reply
  unfolding connect
  check username password = do
    st ← get_status
    elim (get_ready_condition st) [
      | none ↦
          report "Unknown" "First Seen" none
          >> finish (record { requeue_after = pos 0; error = none })
      | some c ↦
          if is_set spec.suspend
          then finish (record { requeue_after = delay spec; error = none })
          else connect username password
    ]

  abbrev pub secret_error : String → String
  secret_error e =
      "failed to get Secret containing External alert system credentials, secret name: "
      <> (o.namespaced_name namespace spec.external_secret <> (", reason: " <> e))

  abbrev pub config_map_error : String → String
  config_map_error e =
      "failed to get ConfigMap containing the data to be sent to the external alert system"
      <> (", configmap name: "
          <> (o.namespaced_name namespace spec.external_data <> (", reason: " <> e)))

  -- The config map is read under `if *clusterSpec.NotifyExtenal`, which panics on a nil pointer.
  unfoldable pub load_data : String × String → M PortScanStatus (Fallible (String × String))
  load_data credentials s = elim spec.notify_extenal [
    | none ↦ panicked s
    | some false ↦ returned (ok credentials) s
    | some true ↦ elim (api.config_map namespace spec.external_data) [
      | err e ↦ returned (err (config_map_error e)) s
      | ok d ↦ returned (ok credentials) (record s { payload = d })
    ]
  ]

  unfoldable pub load : M PortScanStatus (Fallible (String × String))
  unfolding load_data
  load =
      if is_set spec.notify_extenal
      then elim (api.secret namespace spec.external_secret) [
        | err e ↦ pure (err (secret_error e))
        | ok credentials ↦ load_data credentials
      ]
      else load_data ("", "")

  unfoldable pub reconcile_object : M PortScanStatus Reply
  unfolding load check
  reconcile_object = do
    r ← load
    elim r [
      | err e ↦ pure (record { requeue_after = pos 0; error = some e })
      | ok (username, password) ↦ check username password
    ]

-- `Reconcile`, from the error of making the object and what `Get` answers.
unfoldable pub reconcile :
    Outside
    → Api
    → String
    → Option String
    → Fetched (Object (PortScanSpec × PortScanStatus))
    → World
    → Reconciled PortScanStatus
reconcile o api namespace (some e) fetched w =
    early (record { requeue_after = pos 0; error = some e })
reconcile o api namespace none (not_fetched e) w =
    early (record { requeue_after = pos 0; error = some ("unexpected get error : " <> e) })
reconcile o api namespace none not_found w = early (record { requeue_after = pos 0; error = none })
reconcile o api namespace none (found foreign) w =
    early (record { requeue_after = pos 0; error = none })
reconcile o api namespace none (found (of_kind (spec, status))) w =
    run (
      reconcile_object o api namespace spec (record { world = w; status = status; payload = none }))
