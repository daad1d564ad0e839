-- ===== src/VmScan/Placement.antt =====
-- The loops over namespaces and nodes in `Reconcile` of internal/controller/vmscan_controller.go.
pub mod Frame
pub mod Laws
use monitoring_wo_webhooks.Prelude.{
  ℕ, String, ◌<>◌, Bool, true, false, not, ◌&&◌, Option, none, some, List, [], ◌∷◌, ◌++◌, ◌==◌,
  if◌then◌else◌, is_set, is_unset, ltb, length,
}
use monitoring_wo_webhooks.Runtime.{
  Outside, World, Fallible, ok, err, M, returned, pure, ◌>>=◌, ◌>>◌, on_world, act, look, modify,
  get_status, when, now, read_file, remove_file, is_missing, text_of,
}
use monitoring_wo_webhooks.Slices.{append_absent, delete_listed}
use monitoring_wo_webhooks.VmScan.Types.{VmScanSpec, VmScanStatus, Vmi, VmApi}
use monitoring_wo_webhooks.VmScan.Util.{
  send_email_alert, send_email_recovered_alert, set_incident_id, sub_notify_external_system,
  notify_external_system,
}
use monitoring_wo_webhooks.VmScan.Migrations.{is_controller}

unfoldable pub mail_file : String → String → String
mail_file ns node = "/home/golanguser/files/vmscan/" <> (ns <> ("-" <> (node <> ".txt")))

unfoldable pub ext_file : String → String → String
ext_file ns node = "/home/golanguser/files/vmscan/" <> (ns <> ("-" <> (node <> "-ext.txt")))

-- The map `vmiNodes`: pairs of a node and an instance on it, in the order of their insertion.
abbrev pub Placed : Type 0
Placed = List (String × String)

-- `vmiNodes[node]`
unfoldable pub on_node : String → Placed → List String
on_node node [] = []
on_node node ((n, vmi) ∷ placed) =
    if n == node then vmi ∷ on_node node placed else on_node node placed

-- The loop that fills the map with the instances of a namespace.
unfoldable pub place : List Vmi → Placed → Placed
unfolding is_controller
place [] placed = placed
place (vmi ∷ vmis) placed =
    place vmis (if is_controller vmi.name then placed ++ (vmi.node_name, vmi.name) ∷ [] else placed)

-- More than one instance on the node.
unfoldable pub is_crowded : String → Placed → Bool
unfolding on_node
is_crowded node placed = ltb 1 (length (on_node node placed))

-- The name under which an instance is listed as affected, with a literal "ns".
abbrev pub affected_entry : String → String → String
affected_entry node vmi = node <> (":ns:" <> vmi)

pub data Poll : Type 0 where
  first_poll later_poll : Poll

module _ (o : Outside) (spec : VmScanSpec) (username password : String) where
  unfoldable pub ask_incident : String → M VmScanStatus String
  ask_incident name = do
    fingerprint ← look (read_file o name)
    incident ← on_world (set_incident_id o spec username password (text_of fingerprint))
    pure (text_of incident)

  abbrev pub is_new_incident : List String → String → Bool
  is_new_incident ids i = not (o.contains ids i) && (not (i == "") && not (i == "[Pending]"))

  unfoldable pub add_incident : String → M VmScanStatus (Unit {0})
  unfolding ask_incident
  add_incident name = do
    i ← ask_incident name
    modify (λ st. record st {
      incident_id =
          if is_new_incident st.incident_id i then st.incident_id ++ i ∷ [] else st.incident_id;
    })

  unfoldable pub drop_incident : String → M VmScanStatus (Unit {0})
  unfolding ask_incident
  drop_incident name = do
    i ← ask_incident name
    st ← get_status
    ids ← delete_listed o st.incident_id i
    modify (λ st. record st { incident_id = ids })

  unfoldable pub touch_notified : M VmScanStatus (Unit {0})
  touch_notified = do
    t ← on_world (now o)
    modify (λ st. record st { external_notified_time = some t })

  unfoldable pub mark_notified : M VmScanStatus (Unit {0})
  unfolding touch_notified
  mark_notified = do touch_notified; modify (λ st. record st { external_notified = true })

  -- The notification of a crowded node, in the order of either poll.
  unfoldable pub notify_crowded : Poll → String → String → M VmScanStatus (Unit {0})
  unfolding add_incident mark_notified
  notify_crowded first_poll ns node = do
    e ←
        notify_external_system o "firing" ns node spec.external_url username password
          (ext_file ns node)
    mark_notified
    add_incident (ext_file ns node)
  notify_crowded later_poll ns node = do
    e ←
        sub_notify_external_system o "firing" ns node spec.external_url username password
          (ext_file ns node)
    add_incident (ext_file ns node)
    mark_notified

  unfoldable pub list_vmi : String → String → M VmScanStatus (Unit {0})
  list_vmi node vmi = modify (λ st. record st {
    affected_targets = append_absent o st.affected_targets (affected_entry node vmi);
  })

  unfoldable pub list_vmis : String → List String → M VmScanStatus (Unit {0})
  unfolding list_vmi
  list_vmis node [] = pure tt
  list_vmis node (vmi ∷ vmis) = let rest = list_vmis node vmis in list_vmi node vmi >> rest

  -- The mail and the notification of a crowded node.
  unfoldable pub alert_crowded : Poll → String → String → M VmScanStatus (Unit {0})
  unfolding notify_crowded
  alert_crowded poll ns node = do
    when (is_unset spec.suspend_email_alert)
        (act (send_email_alert o ns node (mail_file ns node) spec node))
    st ← get_status
    when (is_set spec.notify_extenal && not st.external_notified) (notify_crowded poll ns node)

  -- A later poll alerts after each instance.
  unfoldable pub alert_vmis : String → String → List String → M VmScanStatus (Unit {0})
  unfolding list_vmi alert_crowded
  alert_vmis ns node [] = pure tt
  alert_vmis ns node (vmi ∷ vmis) =
      let rest = alert_vmis ns node vmis in
      do list_vmi node vmi; alert_crowded later_poll ns node; rest

  unfoldable pub crowded : Poll → String → String → List String → M VmScanStatus (Unit {0})
  unfolding list_vmis alert_crowded alert_vmis
  crowded first_poll ns node vmis = list_vmis node vmis >> alert_crowded first_poll ns node
  crowded later_poll ns node vmis = alert_vmis ns node vmis

  -- The notification of a node that is fine. It reads the mail file for its fingerprint.
  unfoldable pub notify_fine : String → String → M VmScanStatus (Unit {0})
  unfolding drop_incident touch_notified
  notify_fine ns node = do
    drop_incident (ext_file ns node)
    e ←
        sub_notify_external_system o "resolved" ns node spec.external_url username password
          (mail_file ns node)
    touch_notified
    act (remove_file o (mail_file ns node))
    act (remove_file o (ext_file ns node))

  -- A node that is not crowded clears the whole list of affected targets.
  unfoldable pub fine : String → String → M VmScanStatus (Unit {0})
  unfolding notify_fine
  fine ns node = do
    modify (λ st. record st { affected_targets = [] })
    st ← get_status
    gone ← look (is_missing (ext_file ns node))
    when (not gone && is_unset spec.suspend_email_alert)
        (act (send_email_recovered_alert o ns node (mail_file ns node) spec node))
    when (not gone && (is_set spec.notify_extenal && st.external_notified)) (notify_fine ns node)

  -- One node: whether it is crowded.
  unfoldable pub check_node : Poll → String → Placed → String → M VmScanStatus Bool
  unfolding is_crowded on_node crowded fine
  check_node poll ns placed node =
      if is_crowded node placed
      then crowded poll ns node (on_node node placed) >> pure true
      else fine ns node >> pure false

  -- The loop over the nodes, with `isAffected`, which each node overwrites.
  unfoldable pub check_nodes : Poll → String → Placed → List String → Bool → M VmScanStatus Bool
  unfolding check_node
  check_nodes poll ns placed [] affected = pure affected
  check_nodes poll ns placed (node ∷ nodes) affected =
      let rest : Bool → M VmScanStatus Bool = λ b. check_nodes poll ns placed nodes b in
      do b ← check_node poll ns placed node; rest b

  abbrev pub list_error : String → String
  list_error ns = "unable to get the Virtual Machine Instance Lists in target namespace " <> ns

  -- The loop over the namespaces. The map of instances grows over all of them.
  unfoldable pub check_namespaces :
      Poll → VmApi → List String → List String → Placed → Bool → M VmScanStatus (Fallible Bool)
  unfolding check_nodes place
  check_namespaces poll api nodes [] placed affected = pure (ok affected)
  check_namespaces poll api nodes (ns ∷ namespaces) placed affected =
      let rest : Placed → Bool → M VmScanStatus (Fallible Bool) =
        λ p b. check_namespaces poll api nodes namespaces p b in
      elim (api.placed ns) [
        | err e ↦ pure (err (list_error ns))
        | ok vmis ↦ do
          b ← check_nodes poll ns (place vmis placed) nodes affected
          rest (place vmis placed) b
      ]
