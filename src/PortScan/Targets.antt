-- ===== src/PortScan/Targets.antt =====
-- The loops over the targets in `Reconcile` of internal/controller/portscan_controller.go: the
-- first poll, and the polls after the interval has passed.
pub mod Frame
pub mod Round
pub mod Laws
use monitoring_wo_webhooks.Prelude.{
  ℕ, String, ◌<>◌, Bool, true, false, not, ◌&&◌, ◌||◌, Option, none, some, List, [], ◌∷◌, ◌++◌,
  ◌==◌, if◌then◌else◌, is_set, is_unset,
}
use monitoring_wo_webhooks.Runtime.{
  Outside, World, Fallible, Session, M, returned, panicked, pure, ◌>>=◌, ◌>>◌, on_world, act, look,
  modify, get_status, at, when, now, read_file, remove_file, is_missing, text_of,
}
use monitoring_wo_webhooks.Slices.{delete_listed}
use monitoring_wo_webhooks.PortScan.Types.{PortScanSpec, PortScanStatus}
use monitoring_wo_webhooks.PortScan.Util.{
  parts, handle_cn_string, check_server_aliveness, send_email_alert, send_email_recovered_alert,
  set_incident_id, sub_notify_external_system, notify_external_system,
}

-- The files of a target: the first remembers the mail, the second the fingerprint.
unfoldable pub mail_file : String → String → String
mail_file host port =
    "/home/golanguser/files/port/." <> (handle_cn_string host <> ("-" <> (port <> ".txt")))

unfoldable pub ext_file : String → String → String
ext_file host port =
    "/home/golanguser/files/port/." <> (handle_cn_string host <> ("-" <> (port <> "-ext.txt")))

abbrev pub down_text : String → String → String → String
down_text host port node =
    "Target "
    <> (host <> (" is not reachable on port " <> (port <> (" from k8s cluster " <> node))))

abbrev pub up_text : String → String → String → String
up_text host port node =
    "Target "
    <> (host <> (" is now reachable again on port " <> (port <> (" from k8s cluster " <> node))))

-- A ticket that exists already, and is not listed yet.
abbrev pub is_new_incident : Outside → List String → String → Bool
is_new_incident o ids i = not (o.contains ids i) && (not (i == "") && not (i == "[Pending]"))

-- How the two polls send an alert: `NotifyExternalSystem` or `SubNotifyExternalSystem`.
pub data Poll : Type 0 where
  first_poll later_poll : Poll

-- `errorp`, from the back: the host of an unreachable target goes in front.
abbrev pub push : Option String → List String → List String
push none errors = errors
push (some host) errors = host ∷ errors

module _ (o : Outside) (spec : PortScanSpec) (username password node : String) where
  unfoldable pub fire : Poll → String → String → M PortScanStatus (Option String)
  fire first_poll target name =
      notify_external_system o "firing" target spec.external_url username password name
  fire later_poll target name =
      sub_notify_external_system o "firing" target spec.external_url username password name

  -- The ticket of the alert that the fingerprint file names, or an empty text.
  unfoldable pub ask_incident : String → M PortScanStatus String
  ask_incident name = do
    fingerprint ← look (read_file o name)
    incident ← on_world (set_incident_id o spec username password (text_of fingerprint))
    pure (text_of incident)

  unfoldable pub add_incident : String → M PortScanStatus (Unit {0})
  unfolding ask_incident
  add_incident name = do
    i ← ask_incident name
    modify (λ st. record st {
      incident_id =
          if is_new_incident o st.incident_id i then st.incident_id ++ i ∷ [] else st.incident_id;
    })

  unfoldable pub drop_incident : String → M PortScanStatus (Unit {0})
  unfolding ask_incident
  drop_incident name = do
    i ← ask_incident name
    st ← get_status
    ids ← delete_listed o st.incident_id i
    modify (λ st. record st { incident_id = ids })

  unfoldable pub touch_notified : M PortScanStatus (Unit {0})
  touch_notified = do
    t ← on_world (now o)
    modify (λ st. record st { external_notified_time = some t })

  -- The external notification of a target that went down.
  unfoldable pub notify_down : Poll → String → String → String → M PortScanStatus (Unit {0})
  unfolding fire add_incident touch_notified
  notify_down poll target host port = do
    e ← fire poll target (ext_file host port)
    add_incident (ext_file host port)
    modify (λ st. record st { external_notified = true })
    touch_notified

  -- The error branch of a probe, for a target that is not listed yet.
  unfoldable pub target_down : Poll → String → String → String → M PortScanStatus (Unit {0})
  unfolding notify_down
  target_down poll target host port = do
    st ← get_status
    if o.contains st.affected_targets target then pure tt else do
      modify (λ st. record st { affected_targets = st.affected_targets ++ target ∷ [] })
      when (is_unset spec.suspend_email_alert)
          (act (send_email_alert o node (mail_file host port) spec (down_text host port node)))
      when (is_set spec.notify_extenal) (notify_down poll target host port)

  -- The external notification of a target that came back. It reads the mail file.
  unfoldable pub notify_up : String → String → String → M PortScanStatus (Unit {0})
  unfolding drop_incident touch_notified
  notify_up target host port = do
    drop_incident (ext_file host port)
    e ←
        sub_notify_external_system o "resolved" target spec.external_url username password
          (mail_file host port)
    touch_notified

  unfoldable pub unlist : String → M PortScanStatus (Unit {0})
  unlist target = do
    st ← get_status
    targets ← delete_listed o st.affected_targets target
    modify (λ st. record st { affected_targets = targets })

  -- A listed target that answers again, where its mail file is there.
  unfoldable pub target_up : String → String → String → M PortScanStatus (Unit {0})
  unfolding notify_up unlist
  target_up target host port = do
    st ← get_status
    if o.contains st.affected_targets target
        then (do
          when (is_unset spec.suspend_email_alert) (
              act (
                send_email_recovered_alert o node (mail_file host port) spec
                  (up_text host port node)))
          when (is_set spec.notify_extenal && st.external_notified) (notify_up target host port)
          unlist target
          act (remove_file o (ext_file host port)))
        else pure tt

  unfoldable pub without_file : Poll → String → M PortScanStatus (Unit {0})
  unfolding unlist
  without_file first_poll target = pure tt
  without_file later_poll target = unlist target

  -- A reachable target. Without its mail file the first poll does nothing, a later one unlists it.
  unfoldable pub reachable : Poll → String → String → String → M PortScanStatus (Unit {0})
  unfolding target_up without_file
  reachable poll target host port = do
    no_file ← look (is_missing (mail_file host port))
    if no_file then without_file poll target else target_up target host port

  -- One round: the host if the target is unreachable.
  unfoldable pub poll_target : Poll → String → M PortScanStatus (Option String)
  unfolding target_down reachable
  poll_target poll target = do
    e ← check_server_aliveness o target
    host ← at (parts target) 0
    port ← at (parts target) 1
    elim e [
      | some text ↦ target_down poll target host port >> pure (some host)
      | none ↦ reachable poll target host port >> pure none
    ]

  -- The loop, with the hosts that could not be reached (`errorp`).
  unfoldable pub poll_targets : Poll → List String → M PortScanStatus (List String)
  unfolding poll_target
  poll_targets poll [] = pure []
  poll_targets poll (target ∷ targets) =
      let rest = poll_targets poll targets in
      do e ← poll_target poll target; errors ← rest; pure (push e errors)
