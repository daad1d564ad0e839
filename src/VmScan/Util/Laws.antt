-- ===== src/VmScan/Util/Laws.antt =====
-- Which fingerprint a resolved alert of a VM scan carries.
use monitoring_wo_webhooks.Prelude.{
  ◌≡◌, refl, ◌∙◌, String, true, false, some, List, ◌∷◌, arith, eq_iff,
}
use monitoring_wo_webhooks.Runtime.{
  ran, ok, Outside, World, Event, Dict, Session, read_file, write_file, run_fails, is_missing, now,
}
use monitoring_wo_webhooks.Runtime.Laws.{Ensures}
use monitoring_wo_webhooks.Alerts.{use_fingerprint, sub_fingerprint}
use monitoring_wo_webhooks.Alerts.Laws.{filled_map, fill_lem}
use monitoring_wo_webhooks.VmScan.Types.{VmScanSpec, VmScanStatus}
use monitoring_wo_webhooks.VmScan.Util.{
  alert_mail, send_email_alert, send_email_recovered_alert, sub_notify_external_system,
  running_alert,
}

-- The mails of a crowded node, and of its recovery.
abbrev pub mailed : Outside → String → String → String → String → VmScanSpec → World → World
mailed o ns node name host spec w =
    send_email_recovered_alert o ns node name spec host
      (send_email_alert o ns node name spec host w)

module _ (o : Outside) (ns node name host : String) (spec : VmScanSpec)
    (writable : (log : List Event) → o.write_fails log name ≡ false)
    (readable : (log : List Event) → o.read_fails log name ≡ false) where
  alert_marks :
      (w : World)
      → is_missing name w ≡ true
      → (send_email_alert o ns node name spec host w).files name ≡ some "sent"
  unfolding send_email_alert write_file run_fails
  alert_marks w gone =
      let mail = alert_mail "  " spec ns node host in
      ground (arith, writable (ran mail ∷ w.log), eq_iff name name)

  recovered_keeps :
      (w : World)
      → (send_email_recovered_alert o ns node name spec host w).files name ≡ w.files name
  unfolding send_email_recovered_alert run_fails
  recovered_keeps w = ground arith

  read_mark : (w : World) → w.files name ≡ some "sent" → read_file o name w ≡ ok "sent"
  unfolding read_file
  read_mark w h = ground (arith, readable w.log)

  resolved_choice :
      (w : World)
      → w.files name ≡ some "sent"
      → sub_fingerprint o "resolved" name w ≡ (use_fingerprint "sent", w)
  unfolding sub_fingerprint
  resolved_choice w h = rw (read_mark w h) refl

  posted_payload :
      (url username password : String) (s : Session VmScanStatus) (d : Dict)
      → s.world.files name ≡ some "sent"
      → s.payload ≡ some d
      → let a = running_alert node ns in
        Ensures
          (λ _ t.
            t.payload ≡ some (filled_map "sent" "resolved" (o.show_time (now o s.world).0) a a d))
          (sub_notify_external_system o "resolved" ns node url username password name s)
  unfolding sub_notify_external_system
  posted_payload url username password s d mark e =
      let a = running_alert node ns in
      let done = fill_lem o "sent" "resolved" a a s d e in
      unfold Ensures in ground (arith, resolved_choice s.world mark)

  -- Where the mail file can be read and written and was not there, and the map to fill is there:
  -- after the alert and the recovery of a node were mailed, the resolved alert that asks the mail
  -- file fills the map with the fingerprint "sent", which is the mark in that file.
  pub resolved_fingerprint :
      (url username password : String) (s : Session VmScanStatus) (d : Dict)
      → is_missing name s.world ≡ true
      → s.payload ≡ some d
      → let a = running_alert node ns in
        Ensures
          (λ _ t.
            t.payload
            ≡ some (
                filled_map "sent" "resolved"
                  (o.show_time (now o (mailed o ns node name host spec s.world)).0)
                  a
                  a
                  d))
          (sub_notify_external_system o "resolved" ns node url username password name
            (record s { world = mailed o ns node name host spec s.world }))
  resolved_fingerprint url username password s d gone e =
      posted_payload url username password
        (record s { world = mailed o ns node name host spec s.world }) d
        (recovered_keeps (send_email_alert o ns node name spec host s.world)
          ∙ alert_marks s.world gone)
        e
