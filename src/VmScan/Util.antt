-- ===== src/VmScan/Util.antt =====
-- internal/vmscan/util/util.go. The prints and logs are left out.
pub mod Laws
use monitoring_wo_webhooks.Prelude.{
  ℕ, String, ◌<>◌, Bool, true, false, Option, none, some, List, [], ◌∷◌, ◌==◌, if◌then◌else◌,
}
use monitoring_wo_webhooks.Prelude.Text.{contains}
use monitoring_wo_webhooks.Runtime.{
  Outside, World, Fallible, ok, err, Session, M, returned, panicked, pure, ◌>>=◌, ◌>>◌, on_world,
  act, run_fails, read_file, write_file, is_missing, text_of,
}
use monitoring_wo_webhooks.Conditions.{Condition, get_condition, set_condition}
use monitoring_wo_webhooks.Alerts.{
  Choice, missing, notified, use_fingerprint, Delivery, error_of, fresh_fingerprint,
  sub_fingerprint, fill, post, get_request, query_incident, incident_url,
}
use monitoring_wo_webhooks.VmScan.Types.{VmScanSpec, VmScanStatus}

abbrev pub placement_type : String
placement_type = "PlacementStatus"

unfoldable pub get_non_violation_condition : VmScanStatus → Option Condition
unfolding get_condition
get_non_violation_condition st = get_condition placement_type st.conditions

unfoldable pub is_ready : VmScanStatus → Bool
unfolding get_non_violation_condition
is_ready st = elim (get_non_violation_condition st) [
  | none ↦ false
  | some c ↦ c.status == "NonViolated"
]

abbrev pub sendmail : VmScanSpec → String
sendmail spec =
    "\" | /usr/sbin/sendmail -f "
    <> (spec.email <> (" -S " <> (spec.relay_host <> (" " <> spec.email))))

-- The two texts of the alert differ in a space.
unfoldable pub alert_mail : String → VmScanSpec → String → String → String → String
alert_mail gap spec ns node host =
    "/usr/bin/printf '%s\\n' \"Subject: VM placement alert from "
    <> (host
        <> ("\" \"\""
            <> (gap
                <> ("\"one or more VMIs are found in target namespace "
                    <> (ns <> (" are found on the same node " <> (node <> sendmail spec)))))))

unfoldable pub recovered_mail : VmScanSpec → String → String → String → String
recovered_mail spec ns node host =
    "/usr/bin/printf '%s\\n' \"Subject: VM placement alert from "
    <> (host
        <> ("\" \"Previously VMIs placement violation is now resolved in target namespace "
            <> (ns <> (" target node " <> (node <> sendmail spec)))))

abbrev pub running_alert : String → String → String
running_alert node ns =
    "One or more VMIs running on the same node "
    <> (node <> (" in namespace " <> (ns <> ", please check")))

abbrev pub found_alert : String → String → String
found_alert node ns =
    "One or more VMIs are found on the same node "
    <> (node <> (" in namespace " <> (ns <> ", please check")))

abbrev pub found_message : String → String → String
found_message node ns =
    "One or more VMIs are found on the node "
    <> (node <> (" in namespace " <> (ns <> ", please check")))

module _ (o : Outside) where
  unfoldable pub set_non_violation_condition : String → String → String → M VmScanStatus (Unit {0})
  set_non_violation_condition status reason message s =
      let r = set_condition o placement_type status reason message s.status.conditions s.world in
      returned tt (record s { world = r.1; status = record (s.status) { conditions = r.0 } })

  -- A file that is there and does not say "sent" is not written.
  unfoldable pub send_email_alert : String → String → String → VmScanSpec → String → World → World
  unfolding alert_mail
  send_email_alert ns node name spec host w =
      if is_missing name w
      then (write_file o name "sent" (run_fails o (alert_mail "  " spec ns node host) w).1).1
      else if text_of (read_file o name w) == "sent"
      then w
      else (run_fails o (alert_mail " " spec ns node host) w).1

  unfoldable pub send_email_recovered_alert :
      String → String → String → VmScanSpec → String → World → World
  unfolding recovered_mail
  send_email_recovered_alert ns node name spec host w =
      if text_of (read_file o name w) == "sent"
      then (run_fails o (recovered_mail spec ns node host) w).1
      else w

  abbrev pub skips : String → Bool
  skips url = contains url "https://"

  unfoldable pub set_incident_id :
      VmScanSpec → String → String → String → World → Fallible String × World
  set_incident_id spec username password fingerprint =
      let url = incident_url spec.external_url in
      query_incident o (get_request o (skips url) url username password fingerprint)

  unfoldable pub sub_notify_external_system :
      String → String → String → String → String → String → String → M VmScanStatus (Option String)
  sub_notify_external_system status ns node url username password name = do
    c ← on_world (sub_fingerprint o status name)
    elim c [
      | missing e ↦ pure (some e)
      | notified ↦ pure none
      | use_fingerprint f ↦ do
        fill o f status (pure (running_alert node ns)) (pure (running_alert node ns))
        d ← post o (skips url) url username password name f
        pure (error_of d)
    ]

  unfoldable pub notify_external_system :
      String → String → String → String → String → String → String → M VmScanStatus (Option String)
  notify_external_system status ns node url username password name = do
    c ← on_world (fresh_fingerprint o name)
    elim c [
      | missing e ↦ pure (some e)
      | notified ↦ pure none
      | use_fingerprint f ↦ do
        fill o f status (pure (found_alert node ns)) (pure (found_message node ns))
        d ← post o (skips url) url username password name f
        pure (error_of d)
    ]
