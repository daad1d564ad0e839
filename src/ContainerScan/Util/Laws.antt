-- ===== src/ContainerScan/Util/Laws.antt =====
-- The mails and the notifications of a container scan.
use monitoring_wo_webhooks.Prelude.{
  ℕ, ◌≡◌, refl, String, Bool, true, false, ◌&&◌, ◌||◌, Option, none, some, List, ◌∷◌, ◌==◌, arith,
  eq_iff, is_some, eqb,
}
use monitoring_wo_webhooks.Runtime.{
  answer, Outside, World, Event, Fallible, Request, ran, wrote, Session, read_file, write_file,
  run_fails, is_missing, text_of, now, random_string,
}
use monitoring_wo_webhooks.Runtime.Laws.{Ensures, returns}
use monitoring_wo_webhooks.Alerts.{fresh_fingerprint}
use monitoring_wo_webhooks.Alerts.Laws.{filled_map, payload_of, fill_lem, post_code}
use monitoring_wo_webhooks.ContainerScan.Types.{ContainerScanSpec, ContainerScanStatus}
use monitoring_wo_webhooks.ContainerScan.Util.{
  alert_text, alert_mail, mail_file, open_file, create_file, send_email_alert,
  notify_external_system, send_alert,
}

module _ (o : Outside) (pod cont namespace host : String) (spec : ContainerScanSpec)
    (w : World) where
  abbrev name : String
  name = mail_file cont pod namespace

  alert_created :
      is_missing name w ≡ true
      → ((log : List Event) → o.write_fails log name ≡ false)
      → ((log : List Event) → o.read_fails log name ≡ false)
      → let v = send_email_alert o pod cont spec name host (create_file o cont pod namespace w).1 in
        (v.log ≡ ran (alert_mail spec pod cont host) ∷ wrote name "sent" ∷ wrote name "" ∷ w.log)
        × (v.files name ≡ some "sent")
  unfolding send_email_alert create_file open_file read_file write_file run_fails is_missing
  alert_created gone writable readable = ground (
    arith,
    writable w.log,
    writable (wrote name "" ∷ w.log),
    readable (wrote name "" ∷ w.log),
    eq_iff name name,
  )

  alert_sent :
      (v : World)
      → v.files name ≡ some "sent"
      → o.read_fails v.log name ≡ false
      → send_email_alert o pod cont spec name host v ≡ v
  unfolding send_email_alert read_file
  alert_sent v h r = ground (arith, eq_iff "sent" "sent")

  -- Where the mail file is not there and all its reads and writes succeed, an alert does nothing
  -- before `CreateFile`. After it the alert leaves the mark and one mail, and the next alert
  -- changes nothing.
  pub alert_once :
      is_missing name w ≡ true
      → ((log : List Event) → o.write_fails log name ≡ false)
      → ((log : List Event) → o.read_fails log name ≡ false)
      → let v = send_email_alert o pod cont spec name host (create_file o cont pod namespace w).1 in
        (send_email_alert o pod cont spec name host w ≡ w)
        × (v.log ≡ ran (alert_mail spec pod cont host) ∷ wrote name "sent" ∷ wrote name "" ∷ w.log)
        × (v.files name ≡ some "sent")
        × (send_email_alert o pod cont spec name host v ≡ v)
  unfolding send_email_alert read_file is_missing
  alert_once gone writable readable =
      let first = alert_created gone writable readable in
      let v = send_email_alert o pod cont spec name host (create_file o cont pod namespace w).1 in
      (ground arith, first.0, first.1, alert_sent v first.1 (readable v.log))

-- What a notification does to the flag, and to nothing else of the status.
abbrev pub Flagged :
    Session ContainerScanStatus → Bool → Option String → Session ContainerScanStatus → Type 0
Flagged s flag e t =
    (e ≡ none)
    × (t.status.external_notified ≡ flag)
    × (t.status.conditions ≡ s.status.conditions)
    × (t.status.last_run_time ≡ s.status.last_run_time)
    × (t.status.incident_id ≡ s.status.incident_id)
    × (t.status.affected_pods ≡ s.status.affected_pods)

module _ (o : Outside) (status url username password pod cont name : String) (code : ℕ)
    (text : Fallible String) (fine : (method url : String) → o.request_error method url ≡ none)
    (answers : (log : List Event) (r : Request) → o.response log r ≡ answer code text)
    (s : Session ContainerScanStatus) (filled : is_some s.payload ≡ true) where
  send_alert-Flagged :
      (fingerprint : String) (w : World)
      → Ensures
          (λ e t. Flagged s (s.status.external_notified || eqb code 200) e t)
          (send_alert o status url username password pod cont name fingerprint
            (record s { world = w }))
  unfolding send_alert
  send_alert-Flagged fingerprint w =
      let a = alert_text pod cont in
      let r = record s { world = w } in
      let (d, e) = payload_of s.payload filled in
      let start = (now o w).0 in
      let u = record s {
        world = (now o w).1;
        payload = some (filled_map fingerprint status (o.show_time start) a a d);
      } in
      let done = fill_lem o fingerprint status a a r d e in
      let (v, posted) =
        post_code o false url username password name fingerprint u
          (filled_map fingerprint status (o.show_time start) a a d) code text refl fine answers in
      unfold Ensures in ground arith

  -- Where the data map is there, every request can be made and is answered with the same code, a
  -- notification returns without an error. It sets the flag if no fingerprint was on file and the
  -- code is 200, and else keeps the flag; the conditions, the times of runs, the incidents and the
  -- pods stay.
  pub notify-Flagged :
      Ensures
        (λ e t.
          Flagged s
            (s.status.external_notified
              || (text_of (read_file o name s.world) == "" && eqb code 200))
            e
            t)
        (notify_external_system o status url username password pod cont name s)
  unfolding notify_external_system fresh_fingerprint
  notify-Flagged =
      let (f, w) = random_string o 10 s.world in
      let (e, t, sent, p) = returns (send_alert-Flagged f w) in unfold Ensures in ground arith
