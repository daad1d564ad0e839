-- ===== src/PortScan/Util.antt =====
-- internal/portscan/portutil/util.go. The prints and logs are left out.
pub mod Laws
pub mod Mails
use monitoring_wo_webhooks.Prelude.{
  ℕ, String, ◌<>◌, Bool, true, false, Option, none, some, List, [], ◌∷◌, ◌==◌, if◌then◌else◌,
}
use monitoring_wo_webhooks.Prelude.Text.{split_n, keep_plain}
use monitoring_wo_webhooks.Prelude.Int.{ℤ}
use monitoring_wo_webhooks.Runtime.{
  Outside, World, Fallible, ok, err, Session, M, returned, panicked, pure, ◌>>=◌, ◌>>◌, on_world,
  act, look, modify, at, now, run_fails, read_file, write_file, remove_file, truncate_file,
  is_missing, text_of,
}
use monitoring_wo_webhooks.Conditions.{Condition, get_condition, set_condition}
use monitoring_wo_webhooks.Alerts.{
  Choice, missing, notified, use_fingerprint, Delivery, failed, refused, accepted, error_of,
  fresh_fingerprint, sub_fingerprint, fill, post, get_request, query_incident, incident_url,
}
use monitoring_wo_webhooks.PortScan.Types.{PortScanSpec, PortScanStatus}

abbrev pub ready_type : String
ready_type = "Ready"

unfoldable pub get_ready_condition : PortScanStatus → Option Condition
unfolding get_condition
get_ready_condition st = get_condition ready_type st.conditions

unfoldable pub is_ready : PortScanStatus → Bool
unfolding get_ready_condition
is_ready st = elim (get_ready_condition st) [ none ↦ false | some c ↦ c.status == "True" ]

-- `strings.SplitN(target, ":", 2)`
abbrev pub parts : String → List String
parts target = split_n target ":"

unfoldable pub nc_command : String → String → String
nc_command host port = "/usr/bin/nc -w 3 -zv " <> (host <> (" " <> port))

abbrev pub printf : String → String → String
printf subject text =
    "/usr/bin/printf '%s\\n' \"Subject: PortScan alert from " <> (subject <> ("\" \"" <> text))

abbrev pub sendmail : PortScanSpec → String
sendmail spec =
    "\" | /usr/sbin/sendmail -f "
    <> (spec.email <> (" -S " <> (spec.relay_host <> (" " <> spec.email))))

unfoldable pub alert_mail : PortScanSpec → String → String → String
alert_mail spec node alert = printf node ("\" \"Alert: " <> (alert <> sendmail spec))

unfoldable pub recovered_mail : PortScanSpec → String → String → String
recovered_mail spec node text = printf node ("\"  \"Resolved: " <> (text <> sendmail spec))

abbrev pub unreachable_alert : String → String → String
unreachable_alert host port =
    "target " <> (host <> (" is unreachable on port " <> (port <> ", please check")))

-- `HandleCNString`
unfoldable pub handle_cn_string : String → String
unfolding keep_plain
handle_cn_string cn = keep_plain cn

module _ (o : Outside) where
  unfoldable pub set_ready_condition : String → String → String → M PortScanStatus (Unit {0})
  set_ready_condition status reason message s =
      let r = set_condition o ready_type status reason message s.status.conditions s.world in
      returned tt (record s { world = r.1; status = record (s.status) { conditions = r.0 } })

  -- The error, if the target is unreachable.
  unfoldable pub check_server_aliveness : String → M PortScanStatus (Option String)
  unfolding nc_command
  check_server_aliveness target = do
    host ← at (parts target) 0
    port ← at (parts target) 1
    fails ← on_world (run_fails o (nc_command host port))
    pure (if fails then some ("target " <> (host <> " is unreachable")) else none)

  -- A mail is sent once: the file then says "sent".
  unfoldable pub send_email_alert : String → String → PortScanSpec → String → World → World
  unfolding alert_mail
  send_email_alert node name spec alert w =
      if is_missing name w
      then (let r = write_file o name "sent" w in
          if r.0 then r.1 else (run_fails o (alert_mail spec node alert) r.1).1)
      else elim (read_file o name w) [
        | err e ↦ w
        | ok text ↦
            if text == "sent"
            then w
            else (let r = write_file o name "sent" (truncate_file name w) in
                if r.0 then r.1 else (run_fails o (alert_mail spec node alert) r.1).1)
      ]

  -- The file is removed once the mail is out.
  unfoldable pub send_email_recovered_alert :
      String → String → PortScanSpec → String → World → World
  unfolding recovered_mail
  send_email_recovered_alert node name spec text w =
      if is_missing name w then w else elim (read_file o name w) [
        | err e ↦ w
        | ok found ↦
            if found == "sent"
            then (let r = run_fails o (recovered_mail spec node text) w in
                if r.0 then r.1 else remove_file o name r.1)
            else w
      ]

  unfoldable pub set_incident_id :
      PortScanSpec → String → String → String → World → Fallible String × World
  set_incident_id spec username password fingerprint =
      query_incident o
        (get_request o false (incident_url spec.external_url) username password fingerprint)

  -- `clstatus.ExternalNotified = true` with its time.
  unfoldable pub mark_notified : M PortScanStatus (Unit {0})
  mark_notified = do
    t ← on_world (now o)
    modify (λ st. record st { external_notified = true; external_notified_time = some t })

  unfoldable pub send_alert :
      String
      → String
      → String
      → String
      → String
      → String
      → String
      → M PortScanStatus (Option String)
  unfolding mark_notified
  send_alert status target url username password name fingerprint = do
    let alert : M PortScanStatus String = do
      host ← at (parts target) 0
      port ← at (parts target) 1
      pure (unreachable_alert host port)
    fill o fingerprint status alert alert
    d ← post o false url username password name fingerprint
    elim d [
      | failed e ↦ pure (some e)
      | refused ↦ pure none
      | accepted ↦ mark_notified >> pure none
    ]

  unfoldable pub sub_notify_external_system :
      String → String → String → String → String → String → M PortScanStatus (Option String)
  unfolding send_alert
  sub_notify_external_system status target url username password name = do
    c ← on_world (sub_fingerprint o status name)
    elim c [
      | missing e ↦ pure (some e)
      | notified ↦ pure none
      | use_fingerprint f ↦ send_alert status target url username password name f
    ]

  unfoldable pub notify_external_system :
      String → String → String → String → String → String → M PortScanStatus (Option String)
  unfolding send_alert
  notify_external_system status target url username password name = do
    c ← on_world (fresh_fingerprint o name)
    elim c [
      | missing e ↦ pure (some e)
      | notified ↦ pure none
      | use_fingerprint f ↦ send_alert status target url username password name f
    ]
