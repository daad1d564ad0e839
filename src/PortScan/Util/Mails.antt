-- ===== src/PortScan/Util/Mails.antt =====
-- The mails of a port scan: an alert is mailed once, and a recovery takes its mark away.
use monitoring_wo_webhooks.Prelude.{
  ap, ◌∙◌, ◌≡◌, refl, String, true, false, some, List, ◌∷◌, arith, eq_iff,
}
use monitoring_wo_webhooks.Runtime.{
  Outside, Event, World, ran, wrote, removed, Session, returned, run_fails, read_file, write_file,
  remove_file, is_missing,
}
use monitoring_wo_webhooks.Alerts.{missing_fingerprint}
use monitoring_wo_webhooks.Alerts.Laws.{sub_fingerprint_missing}
use monitoring_wo_webhooks.PortScan.Types.{PortScanSpec, PortScanStatus}
use monitoring_wo_webhooks.PortScan.Util.{
  send_email_alert, send_email_recovered_alert, sub_notify_external_system, alert_mail,
  recovered_mail,
}

-- The mail of a target was marked as sent, and the mark can be read.
abbrev pub Marked : Outside → String → World → Type 0
Marked o name w = (w.files name ≡ some "sent") × (o.read_fails w.log name ≡ false)

module _ (o : Outside) (node name : String) (spec : PortScanSpec) where
  -- Where the mark cannot be written no mail is sent, and nothing else is done.
  pub send_email_unwritable :
      (alert : String) (w : World)
      → is_missing name w ≡ true
      → o.write_fails w.log name ≡ true
      → send_email_alert o node name spec alert w ≡ w
  unfolding send_email_alert write_file
  send_email_unwritable alert w h k = ground arith

  send_email-Marked :
      (alert : String) (w : World) → Marked o name w → send_email_alert o node name spec alert w ≡ w
  unfolding send_email_alert is_missing read_file
  send_email-Marked alert w m = ground (arith, eq_iff "sent" "sent")

  send_email_first :
      (alert : String) (w : World)
      → is_missing name w ≡ true
      → o.write_fails w.log name ≡ false
      → let v = send_email_alert o node name spec alert w in
        (v.log ≡ ran (alert_mail spec node alert) ∷ wrote name "sent" ∷ w.log)
        × (v.files name ≡ some "sent")
  unfolding send_email_alert write_file run_fails
  send_email_first alert w h k = ground (arith, eq_iff name name)

  -- Where the mail file is not there and can be written, the first alert leaves the mark "sent" and
  -- one mail, the mark first. Where the mark can then be read, a further alert changes nothing.
  pub send_email_once :
      (alert again : String) (w : World)
      → is_missing name w ≡ true
      → o.write_fails w.log name ≡ false
      → o.read_fails (ran (alert_mail spec node alert) ∷ wrote name "sent" ∷ w.log) name ≡ false
      → let v = send_email_alert o node name spec alert w in
        (v.log ≡ ran (alert_mail spec node alert) ∷ wrote name "sent" ∷ w.log)
        × (v.files name ≡ some "sent")
        × (send_email_alert o node name spec again v ≡ v)
  send_email_once alert again w h k readable =
      let first = send_email_first alert w h k in
      let kept = ap (λ l. o.read_fails l name) first.0 ∙ readable in
      (first.0, first.1, send_email-Marked again _ (first.1, kept))

  send_email_recovered :
      (text : String) (w : World)
      → Marked o name w
      → o.command_fails w.log (recovered_mail spec node text) ≡ false
      → o.remove_fails (ran (recovered_mail spec node text) ∷ w.log) name ≡ false
      → let v = send_email_recovered_alert o node name spec text w in
        (v.log ≡ removed name ∷ ran (recovered_mail spec node text) ∷ w.log)
        × (is_missing name v ≡ true)
  unfolding send_email_recovered_alert run_fails read_file is_missing remove_file
  send_email_recovered text w h k r = ground (arith, eq_iff name name)

  -- The effects up to the mail of an alert, and up to the mail of the recovery after it.
  abbrev pub alerted : String → World → List Event
  alerted alert w = ran (alert_mail spec node alert) ∷ wrote name "sent" ∷ w.log

  abbrev pub mailed : String → String → World → List Event
  mailed text alert w = ran (recovered_mail spec node text) ∷ alerted alert w

  -- From an alert to a recovery and to the next alert, where the mail file is not there at first,
  -- can be written both times, read and removed, and the mail of the recovery goes out: each of the
  -- three calls sends its mail, one after the other, the mark is set before the mail of an alert and
  -- removed after the mail of the recovery, and nothing else is done.
  pub send_email_cycle :
      (alert text again : String) (w : World)
      → is_missing name w ≡ true
      → o.write_fails w.log name ≡ false
      → o.read_fails (alerted alert w) name ≡ false
      → o.command_fails (alerted alert w) (recovered_mail spec node text) ≡ false
      → o.remove_fails (mailed text alert w) name ≡ false
      → o.write_fails (removed name ∷ mailed text alert w) name ≡ false
      → let first = send_email_alert o node name spec alert w in
        let recovered = send_email_recovered_alert o node name spec text first in
        let last = send_email_alert o node name spec again recovered in
        (is_missing name recovered ≡ true)
        × (last.log
            ≡ ran (alert_mail spec node again)
              ∷ wrote name "sent"
              ∷ removed name
              ∷ ran (recovered_mail spec node text)
              ∷ ran (alert_mail spec node alert)
              ∷ wrote name "sent"
              ∷ w.log)
        × (last.files name ≡ some "sent")
  send_email_cycle alert text again w h writable readable mails removes rewritable =
      let first = send_email_first alert w h writable in
      let u = send_email_alert o node name spec alert w in
      let recovered =
        send_email_recovered text u (first.1, ap (λ l. o.read_fails l name) first.0 ∙ readable)
          (ap (λ l. o.command_fails l (recovered_mail spec node text)) first.0 ∙ mails)
          (ap (λ l. o.remove_fails (ran (recovered_mail spec node text) ∷ l) name) first.0
            ∙ removes) in
      let v = send_email_recovered_alert o node name spec text u in
      let log =
        recovered.0 ∙ ap (λ l. removed name ∷ ran (recovered_mail spec node text) ∷ l) first.0 in
      let last =
        send_email_first again v recovered.1 (ap (λ l. o.write_fails l name) log ∙ rewritable) in
      (
        recovered.1,
        last.0 ∙ ap (λ l. ran (alert_mail spec node again) ∷ wrote name "sent" ∷ l) log,
        last.1,
      )

  resolved_without_file :
      (target url username password : String) (s : Session PortScanStatus)
      → is_missing name s.world ≡ true
      → sub_notify_external_system o "resolved" target url username password name s
        ≡ returned (some (missing_fingerprint "resolved" name)) s
  unfolding sub_notify_external_system
  resolved_without_file target url username password s gone =
      ground (arith, sub_fingerprint_missing o "resolved" name s.world refl gone)

  -- The code mails the recovery first and asks the same file for the fingerprint of the resolved
  -- alert. Where the mark of the alert was there and could be read, the mail went out and the file
  -- was removed, the resolved alert is never sent: it ends in the error of a missing fingerprint
  -- and changes nothing.
  pub resolved_after_recovered :
      (target url username password text : String) (s : Session PortScanStatus)
      → Marked o name s.world
      → o.command_fails s.world.log (recovered_mail spec node text) ≡ false
      → o.remove_fails (ran (recovered_mail spec node text) ∷ s.world.log) name ≡ false
      → let v = record s { world = send_email_recovered_alert o node name spec text s.world } in
        sub_notify_external_system o "resolved" target url username password name v
        ≡ returned (some (missing_fingerprint "resolved" name)) v
  resolved_after_recovered target url username password text s h k r =
      let v = send_email_recovered_alert o node name spec text s.world in
      let gone = (send_email_recovered text s.world h k r).1 in
      resolved_without_file target url username password (record s { world = v }) gone
