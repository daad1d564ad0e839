-- ===== src/PortScan/Targets/Frame.antt =====
-- The parts of one round: none of them panics on a target with a port, and only the list of
-- affected targets moves, to a list that is written out.
use monitoring_wo_webhooks.Prelude.{
  ◌≡◌, refl, ◌∙◌, String, Bool, true, false, ◌&&◌, List, [], ◌∷◌, ◌++◌, arith, if◌then◌else◌,
  is_some, is_set, mem,
}
use monitoring_wo_webhooks.Runtime.{Outside, Session, is_missing, when}
use monitoring_wo_webhooks.Runtime.Laws.{Ensures, returns, IsDocumented}
use monitoring_wo_webhooks.Slices.Laws.{remove, remove_absent, delete_listed_lem}
use monitoring_wo_webhooks.PortScan.Types.{PortScanSpec, PortScanStatus}
use monitoring_wo_webhooks.PortScan.Util.{parts, send_email_alert, send_email_recovered_alert}
use monitoring_wo_webhooks.PortScan.Util.Laws.{Kept, sub_notify-Kept, notify-Kept}
use monitoring_wo_webhooks.PortScan.Targets.{
  Poll, first_poll, later_poll, mail_file, ext_file, down_text, up_text, fire, add_incident,
  drop_incident, notify_down, target_down, notify_up, unlist, target_up, without_file, reachable,
}

pub record Moves (xs : List String) (s t : Session PortScanStatus) : Type 0 where
  pub affected : t.status.affected_targets ≡ xs
  pub polled : t.status.last_poll_time ≡ s.status.last_poll_time
  pub conditions : t.status.conditions ≡ s.status.conditions
  pub payload : is_some t.payload ≡ is_some s.payload

Kept-Moves : {s t : Session PortScanStatus} → Kept s t → Moves s.status.affected_targets s t
Kept-Moves k = ground arith

-- The data map is there whenever notifications are on.
abbrev pub IsFilled : PortScanSpec → Session PortScanStatus → Type 0
IsFilled spec s = is_set spec.notify_extenal ≡ true → is_some s.payload ≡ true

-- The list with a text at its end, unless it is there.
abbrev pub add : String → List String → List String
add v xs = if mem v xs then xs else xs ++ v ∷ []

-- The list after a reachable target was handled. In the first poll a target without its mail
-- file stays where it is.
abbrev pub settled : String → Poll → Bool → List String → List String
settled target first_poll no_file xs = if no_file then xs else remove target xs
settled target later_poll no_file xs = remove target xs

module _ (o : Outside) (doc : IsDocumented o) (spec : PortScanSpec)
    (username password node : String) where
  add_incident-Moves :
      (name : String) (s : Session PortScanStatus)
      → Ensures
          (λ _ t. Moves s.status.affected_targets s t)
          (add_incident o spec username password node name s)
  unfolding add_incident Ensures
  add_incident-Moves name s = ground arith

  drop_incident-Moves :
      (name : String) (s : Session PortScanStatus)
      → Ensures
          (λ _ t. Moves s.status.affected_targets s t)
          (drop_incident o spec username password node name s)
  unfolding drop_incident Ensures
  drop_incident-Moves name s = rw (delete_listed_lem o doc) (ground arith)

  unlist-Moves :
      (target : String) (s : Session PortScanStatus)
      → Ensures
          (λ _ t. Moves (remove target s.status.affected_targets) s t)
          (unlist o spec username password node target s)
  unfolding unlist Ensures
  unlist-Moves target s = rw (delete_listed_lem o doc) (ground arith)

  module _ (target host port : String) (split : parts target ≡ host ∷ port ∷ []) where
    fire-Moves :
        (poll : Poll) (s : Session PortScanStatus)
        → is_some s.payload ≡ true
        → Ensures
            (λ _ t. Moves s.status.affected_targets s t)
            (fire o spec username password node poll target (ext_file host port) s)
    unfolding fire
    fire-Moves first_poll s filled =
        let name = ext_file host port in
        let h =
          notify-Kept o "firing" target spec.external_url username password name host port s in
        let (e, t, done, k) = returns (h split filled) in unfold Ensures in ground arith
    fire-Moves later_poll s filled =
        let name = ext_file host port in
        let h = sub_notify-Kept o "firing" target spec.external_url username password name in
        let (e, t, done, k) = returns (h host port s split filled) in unfold Ensures in ground arith

    notify_down-Moves :
        (poll : Poll) (s : Session PortScanStatus)
        → is_some s.payload ≡ true
        → Ensures
            (λ _ t. Moves s.status.affected_targets s t)
            (notify_down o spec username password node poll target host port s)
    unfolding notify_down
    notify_down-Moves poll s filled =
        let (e, t, fired, m) = returns (fire-Moves poll s filled) in
        let (_, u, asked, n) = returns (add_incident-Moves (ext_file host port) t) in
        unfold Ensures in ground arith

    notify_up-Moves :
        (s : Session PortScanStatus)
        → is_some s.payload ≡ true
        → Ensures
            (λ _ t. Moves s.status.affected_targets s t)
            (notify_up o spec username password node target host port s)
    unfolding notify_up
    notify_up-Moves s filled =
        let (_, t, dropped, m) = returns (drop_incident-Moves (ext_file host port) s) in
        let h = sub_notify-Kept o "resolved" target spec.external_url username password in
        let (e, u, sent, k) =
          returns (h (mail_file host port) host port t split (m.payload ∙ filled)) in
        unfold Ensures in ground arith

    when-notify_down-Moves :
        (b : Bool) (poll : Poll) (s : Session PortScanStatus)
        → (b ≡ true → is_some s.payload ≡ true)
        → Ensures
            (λ _ t. Moves s.status.affected_targets s t)
            (when b (notify_down o spec username password node poll target host port) s)
    when-notify_down-Moves true poll s filled = notify_down-Moves poll s (filled refl)
    when-notify_down-Moves false poll s filled = unfold Ensures in ground arith

    when-notify_up-Moves :
        (b : Bool) (s : Session PortScanStatus)
        → (b ≡ true → is_some s.payload ≡ true)
        → Ensures
            (λ _ t. Moves s.status.affected_targets s t)
            (when b (notify_up o spec username password node target host port) s)
    when-notify_up-Moves true s filled = notify_up-Moves s (filled refl)
    when-notify_up-Moves false s filled = unfold Ensures in ground arith

    pub target_down-Moves :
        (poll : Poll) (s : Session PortScanStatus)
        → IsFilled spec s
        → Ensures
            (λ _ t. Moves (add target s.status.affected_targets) s t)
            (target_down o spec username password node poll target host port s)
    unfolding target_down
    target_down-Moves poll s filled =
        let listed = s.status.affected_targets ++ target ∷ [] in
        let st = record (s.status) { affected_targets = listed } in
        let w =
          send_email_alert o node (mail_file host port) spec (down_text host port node) s.world in
        let quiet = record s { status = st } in
        let mailed = record s { status = st; world = w } in
        let (_, t, end, m) =
          returns (when-notify_down-Moves (is_set spec.notify_extenal) poll quiet filled) in
        let (_, t', end', m') =
          returns (when-notify_down-Moves (is_set spec.notify_extenal) poll mailed filled) in
        unfold Ensures in ground (arith, doc.contains_lem s.status.affected_targets target)

    target_up-Moves :
        (s : Session PortScanStatus)
        → IsFilled spec s
        → Ensures
            (λ _ t. Moves (remove target s.status.affected_targets) s t)
            (target_up o spec username password node target host port s)
    unfolding target_up
    target_up-Moves s filled =
        let w =
          send_email_recovered_alert o node (mail_file host port) spec (up_text host port node)
            s.world in
        let mailed = record s { world = w } in
        let told = is_set spec.notify_extenal && s.status.external_notified in
        let (_, t, end, m) = returns (when-notify_up-Moves told s (λ h. filled (ground arith))) in
        let (_, u, gone, n) = returns (unlist-Moves target t) in
        let (_, t', end', m') =
          returns (when-notify_up-Moves told mailed (λ h. filled (ground arith))) in
        let (_, u', gone', n') = returns (unlist-Moves target t') in
        unfold Ensures in
        ground (
          arith,
          doc.contains_lem s.status.affected_targets target,
          remove_absent target s.status.affected_targets,
        )

    pub reachable-Moves :
        (poll : Poll) (s : Session PortScanStatus)
        → IsFilled spec s
        → Ensures
            (λ _ t.
              Moves
                (settled target poll
                  (is_missing (mail_file host port) s.world)
                  s.status.affected_targets)
                s
                t)
            (reachable o spec username password node poll target host port s)
    unfolding reachable
    reachable-Moves poll s filled =
        let (_, t, up, m) = returns (target_up-Moves s filled) in
        let (_, u, gone, n) = returns (unlist-Moves target s) in
        unfold Ensures without_file in ground arith
