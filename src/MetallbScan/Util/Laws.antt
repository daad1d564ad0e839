-- ===== src/MetallbScan/Util/Laws.antt =====
-- The mails of the scan of MetalLB.
use monitoring_wo_webhooks.Prelude.{
  ◌≡◌, ap, ◌∙◌, String, ◌==◌, true, false, some, ◌∷◌, arith, eq_iff,
}
use monitoring_wo_webhooks.Runtime.{
  Outside, World, ran, wrote, run_fails, read_file, write_file, is_missing,
}
use monitoring_wo_webhooks.MetallbScan.Types.{MetallbScanSpec}
use monitoring_wo_webhooks.MetallbScan.Util.{
  ok, text_of, alert_mail, recovered_mail, send_email_alert, send_email_recovered_alert,
}

module _ (o : Outside) (node name : String) (spec : MetallbScanSpec) where
  mark_found :
      (w : World)
      → w.files name ≡ some "sent"
      → o.read_fails w.log name ≡ false
      → read_file o name w ≡ ok "sent"
  unfolding read_file
  mark_found w h k = ground arith

  mark_read :
      (w : World)
      → w.files name ≡ some "sent"
      → o.read_fails w.log name ≡ false
      → (text_of (read_file o name w) == "sent") ≡ true
  mark_read w h k = ap (λ r. text_of r == "sent") (mark_found w h k)

  marked-unchanged :
      (alert : String) (w : World)
      → w.files name ≡ some "sent"
      → o.read_fails w.log name ≡ false
      → send_email_alert o node name spec alert w ≡ w
  unfolding send_email_alert is_missing
  marked-unchanged alert w h k = ground (arith, mark_read w h k)

  first-marked :
      (alert : String) (w : World)
      → is_missing name w ≡ true
      → o.write_fails (ran (alert_mail spec node alert) ∷ w.log) name ≡ false
      → let v = send_email_alert o node name spec alert w in
        (v.log ≡ wrote name "sent" ∷ ran (alert_mail spec node alert) ∷ w.log)
        × (v.files name ≡ some "sent")
  unfolding send_email_alert write_file run_fails
  first-marked alert w h k = ground (arith, eq_iff name name)

  marked-recovered :
      (text : String) (w : World)
      → w.files name ≡ some "sent"
      → o.read_fails w.log name ≡ false
      → (send_email_recovered_alert o node name spec text w).log
        ≡ ran (recovered_mail spec node text) ∷ w.log
  unfolding send_email_recovered_alert run_fails is_missing
  marked-recovered text w h k = ground (arith, mark_read w h k)

  -- Where the mail file is not there, can be written after the mail, and can then be read: the first
  -- alert sends one mail and then marks the file, whether or not the mail command fails; a further
  -- alert changes nothing; and a recovery sends one mail.
  pub alert-again-recovered :
      (alert again text : String) (w : World)
      → is_missing name w ≡ true
      → o.write_fails (ran (alert_mail spec node alert) ∷ w.log) name ≡ false
      → o.read_fails (wrote name "sent" ∷ ran (alert_mail spec node alert) ∷ w.log) name ≡ false
      → let v = send_email_alert o node name spec alert w in
        (v.log ≡ wrote name "sent" ∷ ran (alert_mail spec node alert) ∷ w.log)
        × (send_email_alert o node name spec again v ≡ v)
        × ((send_email_recovered_alert o node name spec text v).log
            ≡ ran (recovered_mail spec node text) ∷ v.log)
  alert-again-recovered alert again text w h k readable =
      let first = first-marked alert w h k in
      let kept = ap (λ l. o.read_fails l name) first.0 ∙ readable in
      let v = send_email_alert o node name spec alert w in
      (first.0, marked-unchanged again v first.1 kept, marked-recovered text v first.1 kept)
