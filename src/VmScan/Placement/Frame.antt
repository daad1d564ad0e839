-- ===== src/VmScan/Placement/Frame.antt =====
-- The parts of one node's check: none of them panics where the data map is there, and the list of
-- affected targets moves to a list that is written out.
use monitoring_wo_webhooks.Prelude.{
  ◌+◌, some, ◌≡◌, refl, ◌∙◌, String, Bool, true, false, not, ◌&&◌, List, [], ◌∷◌, ◌++◌, arith,
  if◌then◌else◌, is_some, is_set, mem,
}
use monitoring_wo_webhooks.Runtime.{Outside, Session, is_missing, when, now}
use monitoring_wo_webhooks.Runtime.Laws.{Ensures, Ensures-returned, returns, IsDocumented}
use monitoring_wo_webhooks.Slices.Laws.{delete_listed_lem, append_absent_lem}
use monitoring_wo_webhooks.VmScan.Types.{VmScanSpec, VmScanStatus}
use monitoring_wo_webhooks.VmScan.Util.{
  send_email_alert, send_email_recovered_alert, sub_notify_external_system, notify_external_system,
}
use monitoring_wo_webhooks.VmScan.Placement.{
  Poll, first_poll, later_poll, mail_file, ext_file, Placed, on_node, is_crowded, affected_entry,
  add_incident, drop_incident, notify_crowded, list_vmi, list_vmis, alert_crowded, alert_vmis,
  crowded, notify_fine, fine, check_node,
}

pub record Moves (xs : List String) (s t : Session VmScanStatus) : Type 0 where
  pub affected : t.status.affected_targets ≡ xs
  pub polled : t.status.last_poll_time ≡ s.status.last_poll_time
  pub conditions : t.status.conditions ≡ s.status.conditions
  pub migrations : t.status.migrations ≡ s.status.migrations
  pub payload : is_some t.payload ≡ is_some s.payload

-- The data map is there whenever notifications are on.
abbrev pub IsFilled : VmScanSpec → Session VmScanStatus → Type 0
IsFilled spec s = is_set spec.notify_extenal ≡ true → is_some s.payload ≡ true

-- The list with the instances of a node at its end, save those that are there.
unfoldable pub add_all : String → List String → List String → List String
add_all node [] xs = xs
add_all node (vmi ∷ vmis) xs =
    add_all node vmis
      (if mem (affected_entry node vmi) xs then xs else xs ++ affected_entry node vmi ∷ [])

module _ (o : Outside) (status ns node url username password name : String)
    (s : Session VmScanStatus) (filled : is_some s.payload ≡ true) where
  sub_notify-Moves :
      Ensures
        (λ _ t. Moves s.status.affected_targets s t)
        (sub_notify_external_system o status ns node url username password name s)
  unfolding sub_notify_external_system Ensures
  sub_notify-Moves = ground arith

  notify-Moves :
      Ensures
        (λ _ t. Moves s.status.affected_targets s t)
        (notify_external_system o status ns node url username password name s)
  unfolding notify_external_system Ensures
  notify-Moves = ground arith

module _ (o : Outside) (doc : IsDocumented o) (spec : VmScanSpec) (username password : String) where
  add_incident-Moves :
      (name : String) (s : Session VmScanStatus)
      → Ensures
          (λ _ t. Moves s.status.affected_targets s t)
          (add_incident o spec username password name s)
  unfolding add_incident Ensures
  add_incident-Moves name s = ground arith

  drop_incident-Moves :
      (name : String) (s : Session VmScanStatus)
      → Ensures
          (λ _ t. Moves s.status.affected_targets s t)
          (drop_incident o spec username password name s)
  unfolding drop_incident Ensures
  drop_incident-Moves name s = rw (delete_listed_lem o doc) (ground arith)

  module _ (ns node : String) where
    notify_crowded-Moves :
        (poll : Poll) (s : Session VmScanStatus)
        → is_some s.payload ≡ true
        → Ensures
            (λ _ t. Moves s.status.affected_targets s t)
            (notify_crowded o spec username password poll ns node s)
    unfolding notify_crowded
    notify_crowded-Moves first_poll s filled =
        let name = ext_file ns node in
        let h = notify-Moves o "firing" ns node spec.external_url username password name s filled in
        let (e, t, sent, m) = returns h in
        let noted = record t {
          world = record (t.world) { ticks = t.world.ticks + 1 };
          status = record (t.status) {
            external_notified_time = some (o.now t.world.ticks);
            external_notified = true;
          };
        } in
        let (_, u, asked, n) = returns (add_incident-Moves name noted) in
        unfold Ensures now in ground arith
    notify_crowded-Moves later_poll s filled =
        let name = ext_file ns node in
        let h =
          sub_notify-Moves o "firing" ns node spec.external_url username password name s filled in
        let (e, t, sent, m) = returns h in
        let (_, u, asked, n) = returns (add_incident-Moves name t) in unfold Ensures in ground arith

    notify_fine-Moves :
        (s : Session VmScanStatus)
        → is_some s.payload ≡ true
        → Ensures
            (λ _ t. Moves s.status.affected_targets s t)
            (notify_fine o spec username password ns node s)
    unfolding notify_fine
    notify_fine-Moves s filled =
        let (_, t, dropped, m) = returns (drop_incident-Moves (ext_file ns node) s) in
        let h =
          sub_notify-Moves o "resolved" ns node spec.external_url username password
            (mail_file ns node) t (m.payload ∙ filled) in
        let (e, u, sent, k) = returns h in unfold Ensures in ground arith

    when-notify_crowded-Moves :
        (b : Bool) (poll : Poll) (s : Session VmScanStatus)
        → (b ≡ true → is_some s.payload ≡ true)
        → Ensures
            (λ _ t. Moves s.status.affected_targets s t)
            (when b (notify_crowded o spec username password poll ns node) s)
    when-notify_crowded-Moves true poll s filled = notify_crowded-Moves poll s (filled refl)
    when-notify_crowded-Moves false poll s filled = unfold Ensures in ground arith

    when-notify_fine-Moves :
        (b : Bool) (s : Session VmScanStatus)
        → (b ≡ true → is_some s.payload ≡ true)
        → Ensures
            (λ _ t. Moves s.status.affected_targets s t)
            (when b (notify_fine o spec username password ns node) s)
    when-notify_fine-Moves true s filled = notify_fine-Moves s (filled refl)
    when-notify_fine-Moves false s filled = unfold Ensures in ground arith

    alert_crowded-Moves :
        (poll : Poll) (s : Session VmScanStatus)
        → IsFilled spec s
        → Ensures
            (λ _ t. Moves s.status.affected_targets s t)
            (alert_crowded o spec username password poll ns node s)
    unfolding alert_crowded
    alert_crowded-Moves poll s filled =
        let mailed = record s {
          world = send_email_alert o ns node (mail_file ns node) spec node s.world;
        } in
        let told = is_set spec.notify_extenal && not s.status.external_notified in
        let (_, t, end, m) =
          returns (when-notify_crowded-Moves told poll s (λ h. filled (ground arith))) in
        let (_, u, end', n) =
          returns (when-notify_crowded-Moves told poll mailed (λ h. filled (ground arith))) in
        unfold Ensures in ground arith

    list_vmi-Moves :
        (vmi : String) (s : Session VmScanStatus)
        → Ensures
            (λ _ t. Moves (add_all node (vmi ∷ []) s.status.affected_targets) s t)
            (list_vmi o spec username password node vmi s)
    unfolding list_vmi Ensures add_all
    list_vmi-Moves vmi s = rw (append_absent_lem o doc) (ground arith)

    list_vmis-Moves :
        (vmis : List String) (s : Session VmScanStatus)
        → Ensures
            (λ _ t. Moves (add_all node vmis s.status.affected_targets) s t)
            (list_vmis o spec username password node vmis s)
    unfolding list_vmis add_all
    list_vmis-Moves [] s = unfold Ensures in ground arith
    list_vmis-Moves (vmi ∷ vmis) s =
        let (_, t, listed, m) = returns (list_vmi-Moves vmi s) in
        let (_, u, end, n) = returns (list_vmis-Moves vmis t) in
        Ensures-returned _ {a = tt} {s = u} (ground arith) (ground arith)

    alert_vmis-Moves :
        (vmis : List String) (s : Session VmScanStatus)
        → IsFilled spec s
        → Ensures
            (λ _ t. Moves (add_all node vmis s.status.affected_targets) s t)
            (alert_vmis o spec username password ns node vmis s)
    unfolding alert_vmis add_all
    alert_vmis-Moves [] s filled = unfold Ensures in ground arith
    alert_vmis-Moves (vmi ∷ vmis) s filled =
        let (_, t, listed, m) = returns (list_vmi-Moves vmi s) in
        let (_, u, told, n) =
          returns (alert_crowded-Moves later_poll t (λ h. m.payload ∙ filled h)) in
        let (_, v, end, p) =
          returns (alert_vmis-Moves vmis u (λ h. n.payload ∙ (m.payload ∙ filled h))) in
        Ensures-returned _ {a = tt} {s = v} (ground arith) (ground arith)

    crowded-Moves :
        (poll : Poll) (vmis : List String) (s : Session VmScanStatus)
        → IsFilled spec s
        → Ensures
            (λ _ t. Moves (add_all node vmis s.status.affected_targets) s t)
            (crowded o spec username password poll ns node vmis s)
    unfolding crowded
    crowded-Moves first_poll vmis s filled =
        let (_, t, listed, m) = returns (list_vmis-Moves vmis s) in
        let (_, u, told, n) =
          returns (alert_crowded-Moves first_poll t (λ h. m.payload ∙ filled h)) in
        unfold Ensures in ground arith
    crowded-Moves later_poll vmis s filled = alert_vmis-Moves vmis s filled

    fine-Moves :
        (s : Session VmScanStatus)
        → IsFilled spec s
        → Ensures (λ _ t. Moves [] s t) (fine o spec username password ns node s)
    unfolding fine
    fine-Moves s filled =
        let cleared = record s { status = record (s.status) { affected_targets = [] } } in
        let gone = is_missing (ext_file ns node) s.world in
        let mailed = record cleared {
          world = send_email_recovered_alert o ns node (mail_file ns node) spec node s.world;
        } in
        let told = not gone && (is_set spec.notify_extenal && s.status.external_notified) in
        let (_, t, end, m) =
          returns (when-notify_fine-Moves told cleared (λ h. filled (ground arith))) in
        let (_, u, end', n) =
          returns (when-notify_fine-Moves told mailed (λ h. filled (ground arith))) in
        unfold Ensures in ground arith

    -- A crowded node adds its instances, another clears the list.
    abbrev pub next_affected : Placed → List String → List String
    next_affected placed xs =
        if is_crowded node placed then add_all node (on_node node placed) xs else []

    pub check_node-Moves :
        (poll : Poll) (placed : Placed) (s : Session VmScanStatus)
        → IsFilled spec s
        → Ensures
            (λ b t.
              (b ≡ is_crowded node placed)
              × Moves (next_affected placed s.status.affected_targets) s t)
            (check_node o spec username password poll ns placed node s)
    unfolding check_node
    check_node-Moves poll placed s filled =
        let (_, t, lost, m) = returns (crowded-Moves poll (on_node node placed) s filled) in
        let (_, u, good, n) = returns (fine-Moves s filled) in unfold Ensures in ground arith
