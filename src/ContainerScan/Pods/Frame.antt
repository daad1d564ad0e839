-- ===== src/ContainerScan/Pods/Frame.antt =====
-- The notifications of the container scan: none of them panics where the data map is there, and
-- what they leave alone.
use monitoring_wo_webhooks.Prelude.{
  ◌≡◌, refl, ◌∙◌, String, Bool, true, false, Option, none, some, List, [], arith, if◌then◌else◌,
  is_some, is_set, Distinct, append_one-Distinct,
}
use monitoring_wo_webhooks.Runtime.{Outside, World, Session, when, read_file, text_of, M, pure, now}
use monitoring_wo_webhooks.Runtime.Laws.{Ensures, returns, IsDocumented}
use monitoring_wo_webhooks.Alerts.{
  Choice, missing, notified, use_fingerprint, sub_fingerprint, fresh_fingerprint, post_request,
  get_request, incident_url,
}
use monitoring_wo_webhooks.Alerts.Laws.{filled_map, payload_of, fill_lem}
use monitoring_wo_webhooks.Alerts.Mails.{
  commands, commands-sub_fingerprint, commands-fresh_fingerprint, commands-deliver,
  commands-query_incident,
}
use monitoring_wo_webhooks.Slices.Laws.{remove-Distinct, delete_listed_lem}
use monitoring_wo_webhooks.ContainerScan.Types.{ContainerScanSpec, ContainerScanStatus}
use monitoring_wo_webhooks.ContainerScan.Util.{
  alert_text, send_alert, mark_notified, set_incident_id, notify_external_system,
  sub_notify_external_system,
}
use monitoring_wo_webhooks.ContainerScan.Cleanup.{ext_file}
use monitoring_wo_webhooks.ContainerScan.Pods.{
  mark_notified, set_incident_id, now, Poll, first_poll, later_poll, Cause, exited, crash_loop,
  kind, fingerprint_file, fire, ask_incident, add_incident, drop_incident, notify_failing,
  notify_recovered,
}

-- The mails, where a run is said to send none.
abbrev pub heard : Bool → World → List String
heard quiet w = if quiet then commands w.log else []

-- What a notification leaves alone, and that it keeps the incidents free of doubles.
pub record Kept (quiet : Bool) (s t : Session ContainerScanStatus) : Type 0 where
  pub affected : t.status.affected_pods ≡ s.status.affected_pods
  pub incidents : Distinct t.status.incident_id
  pub polled : t.status.last_run_time ≡ s.status.last_run_time
  pub conditions : t.status.conditions ≡ s.status.conditions
  pub payload : is_some t.payload ≡ is_some s.payload
  pub mails : heard quiet t.world ≡ heard quiet s.world

-- The data map is there whenever notifications are on.
abbrev pub IsFilled : ContainerScanSpec → Session ContainerScanStatus → Type 0
IsFilled spec s = is_set spec.notify_extenal ≡ true → is_some s.payload ≡ true

module _ (o : Outside) (quiet : Bool) (status url username password pod cont name : String)
    (s : Session ContainerScanStatus) (filled : is_some s.payload ≡ true)
    (d : Distinct s.status.incident_id) where
  send_alert-Kept :
      (fingerprint : String) (w : World)
      → commands w.log ≡ commands s.world.log
      → Ensures
          (λ _ t. Kept quiet s t)
          (send_alert o status url username password pod cont name fingerprint
            (record s { world = w }))
  unfolding send_alert
  send_alert-Kept fingerprint w same =
      let a = alert_text pod cont in
      let (p, e) = payload_of s.payload filled in
      let q = filled_map fingerprint status (o.show_time (now o w).0) a a p in
      let r = post_request o false url username password q in
      let v = (now o w).1 in
      let done = fill_lem o fingerprint status a a (record s { world = w }) p e in
      unfold Ensures now in ground (arith, commands-deliver o r name fingerprint v)

  after_choice-Kept :
      (c : Choice) (w : World)
      → commands w.log ≡ commands s.world.log
      → Ensures
          (λ _ t. Kept quiet s t)
          ((elim c as (λ _. M ContainerScanStatus (Option String)) [
            | missing e ↦ pure (some e)
            | notified ↦ pure none
            | use_fingerprint f ↦ send_alert o status url username password pod cont name f
          ])
            (record s { world = w }))
  after_choice-Kept (missing e) w same = unfold Ensures in ground arith
  after_choice-Kept notified w same = unfold Ensures in ground arith
  after_choice-Kept (use_fingerprint f) w same = send_alert-Kept f w same

  sub_notify-Kept :
      Ensures
        (λ _ t. Kept quiet s t)
        (sub_notify_external_system o status url username password pod cont name s)
  unfolding sub_notify_external_system
  sub_notify-Kept =
      let r = sub_fingerprint o status name s.world in
      after_choice-Kept r.0 r.1 (commands-sub_fingerprint o status name s.world)

  notify-Kept :
      Ensures
        (λ _ t. Kept quiet s t)
        (notify_external_system o status url username password pod cont name s)
  unfolding notify_external_system
  notify-Kept =
      let r = fresh_fingerprint o name s.world in
      after_choice-Kept r.0 r.1 (commands-fresh_fingerprint o name s.world)

module _ (o : Outside) (doc : IsDocumented o) (spec : ContainerScanSpec)
    (username password ns : String) (quiet : Bool) where
  fire-Kept :
      (poll : Poll) (cause : Cause) (pod container : String) (s : Session ContainerScanStatus)
      → is_some s.payload ≡ true
      → Distinct s.status.incident_id
      → Ensures
          (λ _ t. Kept quiet s t)
          (fire o spec username password ns poll cause pod container s)
  unfolding fire
  fire-Kept first_poll exited pod container s filled d =
      notify-Kept o quiet "firing" spec.external_url username password pod _ _ s filled d
  fire-Kept first_poll crash_loop pod container s filled d =
      notify-Kept o quiet "firing" spec.external_url username password pod _ _ s filled d
  fire-Kept later_poll exited pod container s filled d =
      sub_notify-Kept o quiet "firing" spec.external_url username password pod _ _ s filled d
  fire-Kept later_poll crash_loop pod container s filled d =
      notify-Kept o quiet "firing" spec.external_url username password pod _ _ s filled d

  ask_incident-Kept :
      (name : String) (s : Session ContainerScanStatus)
      → Distinct s.status.incident_id
      → Ensures
          (λ _ t. Kept quiet s t × (t.status ≡ s.status))
          (ask_incident o spec username password ns name s)
  unfolding ask_incident set_incident_id Ensures
  ask_incident-Kept name s d =
      let fingerprint = text_of (read_file o name s.world) in
      let r = get_request o false (incident_url spec.external_url) username password fingerprint in
      ground (arith, commands-query_incident o r s.world)

  add_incident-Kept :
      (name : String) (s : Session ContainerScanStatus)
      → Distinct s.status.incident_id
      → Ensures (λ _ t. Kept quiet s t) (add_incident o spec username password ns name s)
  unfolding add_incident
  add_incident-Kept name s d =
      let (i, t, asked, p) = returns (ask_incident-Kept name s d) in
      let ids = t.status.incident_id in
      unfold Ensures in
      ground (arith, doc.contains_lem ids i, append_one-Distinct i ids p.0.incidents)

  drop_incident-Kept :
      (name : String) (s : Session ContainerScanStatus)
      → Distinct s.status.incident_id
      → Ensures (λ _ t. Kept quiet s t) (drop_incident o spec username password ns name s)
  unfolding drop_incident
  drop_incident-Kept name s d =
      let (i, t, asked, p) = returns (ask_incident-Kept name s d) in
      let ids = t.status.incident_id in
      unfold Ensures in
      ground (arith, delete_listed_lem o doc ids i t, remove-Distinct i ids p.0.incidents)

  notify_failing-Kept :
      (poll : Poll) (cause : Cause) (pod container : String) (s : Session ContainerScanStatus)
      → is_some s.payload ≡ true
      → Distinct s.status.incident_id
      → Ensures
          (λ _ t. Kept quiet s t)
          (notify_failing o spec username password ns poll cause pod container s)
  unfolding notify_failing
  notify_failing-Kept poll cause pod container s filled d =
      let (e, t, fired, k) = returns (fire-Kept poll cause pod container s filled d) in
      let name = fingerprint_file spec ns pod container in
      let (_, u, added, l) = returns (add_incident-Kept name t k.incidents) in
      unfold Ensures mark_notified now in ground arith

  notify_recovered-Kept :
      (pod container : String) (s : Session ContainerScanStatus)
      → is_some s.payload ≡ true
      → Distinct s.status.incident_id
      → Ensures
          (λ _ t. Kept quiet s t)
          (notify_recovered o spec username password ns pod container s)
  unfolding notify_recovered
  notify_recovered-Kept pod container s filled d =
      let own = ext_file (kind spec container) pod ns in
      let (_, t, dropped, k) = returns (drop_incident-Kept own s d) in
      let (e, u, sent, l) = returns (
        sub_notify-Kept o quiet "resolved" spec.external_url username password pod container
          (ext_file container pod ns) t (k.payload ∙ filled) k.incidents) in
      unfold Ensures now in ground arith

  pub when-failing-Kept :
      (b : Bool) (poll : Poll) (cause : Cause) (pod container : String)
      (s : Session ContainerScanStatus)
      → (b ≡ true → is_some s.payload ≡ true)
      → Distinct s.status.incident_id
      → Ensures
          (λ _ t. Kept quiet s t)
          (when b (notify_failing o spec username password ns poll cause pod container) s)
  when-failing-Kept true poll cause pod container s filled d =
      notify_failing-Kept poll cause pod container s (filled refl) d
  when-failing-Kept false poll cause pod container s filled d = unfold Ensures in ground arith

  pub when-recovered-Kept :
      (b : Bool) (pod container : String) (s : Session ContainerScanStatus)
      → (b ≡ true → is_some s.payload ≡ true)
      → Distinct s.status.incident_id
      → Ensures
          (λ _ t. Kept quiet s t)
          (when b (notify_recovered o spec username password ns pod container) s)
  when-recovered-Kept true pod container s filled d =
      notify_recovered-Kept pod container s (filled refl) d
  when-recovered-Kept false pod container s filled d = unfold Ensures in ground arith
