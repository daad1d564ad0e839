-- ===== src/MetallbScan/Util.antt =====
-- The conditions, alerts and mails of internal/metallbscan/util/util.go. The prints and logs are left
-- out.
pub mod Laws
use monitoring_wo_webhooks.Prelude.{
  String, ◌<>◌, Bool, true, false, Option, none, some, List, [], ◌∷◌, ◌==◌, if◌then◌else◌,
}
use monitoring_wo_webhooks.Prelude.Text.{keep_plain}
use monitoring_wo_webhooks.Runtime.{
  Outside, World, Fallible, ok, err, Session, M, returned, panicked, pure, ◌>>=◌, ◌>>◌, on_world,
  run_fails, read_file, write_file, truncate_file, is_missing, text_of,
}
use monitoring_wo_webhooks.Conditions.{Condition, get_condition, set_condition}
use monitoring_wo_webhooks.Alerts.{
  Choice, missing, notified, use_fingerprint, error_of, fresh_fingerprint, sub_fingerprint, fill,
  post, get_request, query_incident, incident_url,
}
use monitoring_wo_webhooks.MetallbScan.Types.{MetallbScanSpec, MetallbScanStatus}

abbrev pub ready_type : String
ready_type = "Ready"

unfoldable pub get_ready_condition : MetallbScanStatus → Option Condition
unfolding get_condition
get_ready_condition st = get_condition ready_type st.conditions

unfoldable pub is_ready : MetallbScanStatus → Bool
unfolding get_ready_condition
is_ready st = elim (get_ready_condition st) [ none ↦ false | some c ↦ c.status == "True" ]

-- `HandleCNString`
unfoldable pub handle_cn_string : String → String
unfolding keep_plain
handle_cn_string cn = keep_plain cn

abbrev pub printf : String → String → String
printf subject text =
    "/usr/bin/printf '%s\\n' \"Subject: MetallbScan alert from " <> (subject <> ("\" \"" <> text))

abbrev pub sendmail : MetallbScanSpec → String
sendmail spec =
    "\" | /usr/sbin/sendmail -f "
    <> (spec.email <> (" -S " <> (spec.relay_host <> (" " <> spec.email))))

unfoldable pub alert_mail : MetallbScanSpec → String → String → String
alert_mail spec node alert = printf node ("\" \"Alert: " <> (alert <> sendmail spec))

unfoldable pub recovered_mail : MetallbScanSpec → String → String → String
recovered_mail spec node text = printf node ("\"  \"Resolved: " <> (text <> sendmail spec))

module _ (o : Outside) where
  unfoldable pub set_ready_condition : String → String → String → M MetallbScanStatus (Unit {0})
  set_ready_condition status reason message s =
      let r = set_condition o ready_type status reason message s.status.conditions s.world in
      returned tt (record s { world = r.1; status = record (s.status) { conditions = r.0 } })

  -- The mail goes out first, and the file is marked whether or not the command fails.
  unfoldable pub send_email_alert : String → String → MetallbScanSpec → String → World → World
  unfolding alert_mail
  send_email_alert node name spec alert w =
      if is_missing name w
      then (write_file o name "sent" (run_fails o (alert_mail spec node alert) w).1).1
      else if text_of (read_file o name w) == "sent"
      then w
      else (write_file o name "sent"
          (truncate_file name (run_fails o (alert_mail spec node alert) w).1)).1

  -- The file is left to the caller.
  unfoldable pub send_email_recovered_alert :
      String → String → MetallbScanSpec → String → World → World
  unfolding recovered_mail
  send_email_recovered_alert node name spec text w =
      if is_missing name w
      then w
      else if text_of (read_file o name w) == "sent"
      then (run_fails o (recovered_mail spec node text) w).1
      else w

  unfoldable pub set_incident_id :
      MetallbScanSpec → String → String → String → World → Fallible String × World
  set_incident_id spec username password fingerprint =
      query_incident o
        (get_request o false (incident_url spec.external_url) username password fingerprint)

  -- What both notifications do with the choice of a fingerprint.
  unfoldable pub send_chosen :
      String
      → String
      → String
      → String
      → String
      → String
      → Choice
      → M MetallbScanStatus (Option String)
  send_chosen status url username password name alert c = elim c [
    | missing e ↦ pure (some e)
    | notified ↦ pure none
    | use_fingerprint f ↦ do
      fill o f status (pure alert) (pure alert)
      d ← post o false url username password name f
      pure (error_of d)
  ]

  unfoldable pub sub_notify_external_system :
      String → String → String → String → String → String → M MetallbScanStatus (Option String)
  unfolding send_chosen
  sub_notify_external_system status url username password name alert = do
    c ← on_world (sub_fingerprint o status name)
    send_chosen status url username password name alert c

  unfoldable pub notify_external_system :
      String → String → String → String → String → String → M MetallbScanStatus (Option String)
  unfolding send_chosen
  notify_external_system status url username password name alert = do
    c ← on_world (fresh_fingerprint o name)
    send_chosen status url username password name alert c
