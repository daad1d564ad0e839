-- ===== src/ContainerScan/Pods.antt =====
-- The loops over pods and containers in `Reconcile` of
-- internal/controller/containerscan_controller.go, in both of its branches.
pub mod Frame
pub mod Health
pub mod Laws
use monitoring_wo_webhooks.Prelude.{
  ℕ, String, ◌<>◌, Bool, true, false, not, ◌&&◌, ◌||◌, Option, none, some, List, [], ◌∷◌, ◌++◌,
  ◌==◌, if◌then◌else◌, is_set, is_unset, eqb,
}
use monitoring_wo_webhooks.Prelude.Int.{is_zero, ℤ, pos, negsuc}
use monitoring_wo_webhooks.Runtime.{
  Outside, World, Fallible, ok, err, M, returned, panicked, pure, ◌>>=◌, ◌>>◌, on_world, act, look,
  modify, get_status, when, now, read_file, text_of,
}
use monitoring_wo_webhooks.Slices.{append_absent, delete_listed}
use monitoring_wo_webhooks.ContainerScan.Types.{
  ContainerScanSpec, ContainerScanStatus, ContainerState, Pod,
}
use monitoring_wo_webhooks.ContainerScan.Util.{
  send_email_alert, send_email_recover_alert, notify_external_system, sub_notify_external_system,
  set_incident_id, mark_notified,
}
use monitoring_wo_webhooks.ContainerScan.Cleanup.{pod_key, mail_file, ext_file}

-- The branch on `LastRunTime`, and why a container counts as failing.
pub data Poll : Type 0 where
  first_poll later_poll : Poll

pub data Cause : Type 0 where
  exited crash_loop : Cause

abbrev pub prepend : Option String → List String → List String
prepend none names = names
prepend (some name) names = name ∷ names

-- Only one of the eight copies of the code mails without looking at the list.
abbrev pub mails_always : Poll → Cause → Bool → Bool
mails_always first_poll crash_loop false = true
mails_always first_poll crash_loop true = false
mails_always first_poll exited aggregate = false
mails_always later_poll cause aggregate = false

-- The name that is put on `afcontainers` or `afpods`; only whether there is one matters.
abbrev pub failing_name : Poll → Cause → Bool → String → String → String
failing_name later_poll exited true pod container = pod
failing_name later_poll exited false pod container = container
failing_name later_poll crash_loop aggregate pod container = container
failing_name first_poll cause aggregate pod container = container

abbrev pub aggregate : ContainerScanSpec → Bool
aggregate spec = is_set spec.aggregate_alerts

-- What stands for the container in mails and alerts, and in the names of files.
abbrev pub subject : ContainerScanSpec → String → String
subject spec container = if aggregate spec then "cont" else container

abbrev pub kind : ContainerScanSpec → String → String
kind spec container = if aggregate spec then "pod" else container

-- The file from which the fingerprint of a failing container is read back. For a pod it lacks the
-- namespace.
unfoldable pub fingerprint_file : ContainerScanSpec → String → String → String → String
unfolding ext_file
fingerprint_file spec ns pod container =
    if aggregate spec
    then "/home/golanguser/files/container/" <> ("pod-" <> (pod <> "-ext.txt"))
    else ext_file container pod ns

module _ (o : Outside) (spec : ContainerScanSpec) (username password ns : String) where
  unfoldable pub fire : Poll → Cause → String → String → M ContainerScanStatus (Option String)
  fire later_poll exited pod container =
      sub_notify_external_system o "firing" spec.external_url username password pod
        (subject spec container) (ext_file (kind spec container) pod ns)
  fire later_poll crash_loop pod container =
      notify_external_system o "firing" spec.external_url username password pod
        (subject spec container) (ext_file (kind spec container) pod ns)
  fire first_poll cause pod container =
      notify_external_system o "firing" spec.external_url username password pod
        (subject spec container) (ext_file (kind spec container) pod ns)

  unfoldable pub ask_incident : String → M ContainerScanStatus String
  ask_incident name = do
    fingerprint ← look (read_file o name)
    incident ← on_world (set_incident_id o spec username password (text_of fingerprint))
    pure (text_of incident)

  abbrev pub is_new_incident : List String → String → Bool
  is_new_incident ids i = not (o.contains ids i) && (not (i == "") && not (i == "[Pending]"))

  unfoldable pub add_incident : String → M ContainerScanStatus (Unit {0})
  unfolding ask_incident
  add_incident name = do
    i ← ask_incident name
    modify (λ st. record st {
      incident_id =
          if is_new_incident st.incident_id i then st.incident_id ++ i ∷ [] else st.incident_id;
    })

  unfoldable pub drop_incident : String → M ContainerScanStatus (Unit {0})
  unfolding ask_incident
  drop_incident name = do
    i ← ask_incident name
    st ← get_status
    ids ← delete_listed o st.incident_id i
    modify (λ st. record st { incident_id = ids })

  -- The notification of a failing container.
  unfoldable pub notify_failing : Poll → Cause → String → String → M ContainerScanStatus (Unit {0})
  notify_failing poll cause pod container = do
    e ← fire poll cause pod container
    add_incident (fingerprint_file spec ns pod container)
    mark_notified o

  -- A failing container: the pod is listed before the list decides on the mail.
  unfoldable pub failing :
      Poll → Cause → String → String → String → M ContainerScanStatus (Option String)
  unfolding notify_failing
  failing poll cause pod host container = do
    modify (λ st. record st { affected_pods = append_absent o st.affected_pods (pod_key pod ns) })
    st ← get_status
    when
        ((mails_always poll cause (aggregate spec)
            || not (o.contains st.affected_pods (pod_key pod ns)))
          && is_unset spec.suspend_email_alert)
        (act (
          send_email_alert o pod (subject spec container) spec
            (mail_file (kind spec container) pod ns) host))
    when (is_set spec.notify_extenal) (notify_failing poll cause pod container)
    pure (some (failing_name poll cause (aggregate spec) pod container))

  -- The notification of a container that exited with zero. The alert is that of the container also
  -- where alerts are aggregated.
  unfoldable pub notify_recovered : String → String → M ContainerScanStatus (Unit {0})
  notify_recovered pod container = do
    drop_incident (ext_file (kind spec container) pod ns)
    e ←
        sub_notify_external_system o "resolved" spec.external_url username password pod container
          (ext_file container pod ns)
    t ← on_world (now o)
    modify (λ st. record st { external_notified_time = some t })

  -- A container that exited with zero: the pod is unlisted before the list decides on the mail.
  unfoldable pub recovered : String → String → String → M ContainerScanStatus (Unit {0})
  unfolding notify_recovered
  recovered pod host container = do
    st ← get_status
    pods ← delete_listed o st.affected_pods (pod_key pod ns)
    modify (λ st. record st { affected_pods = pods })
    st ← get_status
    when (o.contains st.affected_pods (pod_key pod ns) && is_unset spec.suspend_email_alert) (
        act (
          send_email_recover_alert o pod (subject spec container) spec
            (mail_file (kind spec container) pod ns) host))
    when (is_set spec.notify_extenal && st.external_notified) (notify_recovered pod container)

  unfoldable pub exited_zero : Poll → String → String → String → M ContainerScanStatus (Unit {0})
  unfolding recovered
  exited_zero first_poll pod host container = pure tt
  exited_zero later_poll pod host container = recovered pod host container

  -- One container: the name that is noted if it fails.
  unfoldable pub check_container :
      Poll → String → String → ContainerState → M ContainerScanStatus (Option String)
  unfolding failing exited_zero
  check_container poll pod host c = elim c.terminated [
    | some code ↦
        if is_zero code
        then exited_zero poll pod host c.name >> pure none
        else failing poll exited pod host c.name
    | none ↦ elim c.waiting [
      | some why ↦
          if why == "CrashLoopBackOff" then failing poll crash_loop pod host c.name else pure none
      | none ↦ pure none
    ]
  ]

  unfoldable pub check_containers :
      Poll → String → String → List ContainerState → M ContainerScanStatus (List String)
  unfolding check_container
  check_containers poll pod host [] = pure []
  check_containers poll pod host (c ∷ cs) =
      let rest = check_containers poll pod host cs in
      do name ← check_container poll pod host c; names ← rest; pure (prepend name names)

  unfoldable pub check_pods : Poll → List Pod → M ContainerScanStatus (List String)
  unfolding check_containers
  check_pods poll [] = pure []
  check_pods poll (pod ∷ pods) =
      let rest = check_pods poll pods in
      do
        names ← check_containers poll pod.name pod.node_name pod.states
        more ← rest
        pure (names ++ more)
