-- ===== src/ContainerScan/Util.antt =====
-- internal/containerscan/util/util.go. The prints and logs are left out.
pub mod Laws
use monitoring_wo_webhooks.Prelude.{
  ℕ, String, ◌<>◌, Bool, true, false, Option, none, some, List, [], ◌∷◌, ◌==◌, if◌then◌else◌,
}
use monitoring_wo_webhooks.Prelude.Int.{ℤ}
use monitoring_wo_webhooks.Runtime.{
  Outside, World, Fallible, ok, err, Session, M, returned, panicked, pure, ◌>>=◌, ◌>>◌, on_world,
  modify, now, run_fails, read_file, write_file, is_missing, text_of, wrote,
}
use monitoring_wo_webhooks.Conditions.{Condition, get_condition, set_condition}
use monitoring_wo_webhooks.Alerts.{
  Choice, missing, notified, use_fingerprint, Delivery, failed, refused, accepted,
  fresh_fingerprint, sub_fingerprint, fill, post, get_request, query_incident, incident_url,
}
use monitoring_wo_webhooks.ContainerScan.Types.{ContainerScanSpec, ContainerScanStatus}

abbrev pub ready_type : String
ready_type = "Ready"

unfoldable pub get_ready_condition : ContainerScanStatus → Option Condition
unfolding get_condition
get_ready_condition st = get_condition ready_type st.conditions

unfoldable pub is_ready : ContainerScanStatus → Bool
unfolding get_ready_condition
is_ready st = elim (get_ready_condition st) [ none ↦ false | some c ↦ c.status == "True" ]

abbrev pub printf : String → String → String
printf host text =
    "/usr/bin/printf '%s\\n' \"Subject: container alert from " <> (host <> ("\" \"\" \"" <> text))

abbrev pub sendmail : ContainerScanSpec → String
sendmail spec =
    "\" | /usr/sbin/sendmail -f "
    <> (spec.email <> (" -S " <> (spec.relay_host <> (" " <> spec.email))))

-- The name "cont" stands for all containers of the pod.
unfoldable pub alert_mail : ContainerScanSpec → String → String → String → String
alert_mail spec pod cont host =
    if cont == "cont"
    then printf host (
        "pod "
        <> (pod
            <> (" has containers with exit code non-zero or in status crashloopbackoff in cluster "
                <> (host <> sendmail spec))))
    else printf host (
        "Container "
        <> (cont
            <> (" in pod "
                <> (pod
                    <> (" is terminated with exit code non-zero in status crashloopbackoff in cluster "
                        <> (host <> sendmail spec))))))

unfoldable pub recovered_mail : ContainerScanSpec → String → String → String → String
recovered_mail spec pod cont host =
    if cont == "cont"
    then printf host (
        "Containers in affected pod "
        <> (pod <> (" are recovered in cluster " <> (host <> sendmail spec))))
    else printf host (
        "Container "
        <> (cont
            <> (" in pod " <> (pod <> (" is recovered in cluster " <> (host <> sendmail spec))))))

unfoldable pub alert_text : String → String → String
alert_text pod cont =
    if cont == "cont"
    then "pod " <> (pod <> " has non-zero exit code containers, please check")
    else "Container " <> (cont <> (" in pod " <> (pod <> " has non-zero exit code, please check")))

unfoldable pub mail_file : String → String → String → String
mail_file container pod namespace =
    "/home/golanguser/" <> (container <> ("-" <> (pod <> ("-" <> (namespace <> ".txt")))))

unfoldable pub ext_file : String → String → String → String
ext_file container pod namespace =
    "/home/golanguser/" <> (container <> ("-" <> (pod <> ("-" <> (namespace <> "-ext.txt")))))

module _ (o : Outside) where
  unfoldable pub set_ready_condition : String → String → String → M ContainerScanStatus (Unit {0})
  set_ready_condition status reason message s =
      let r = set_condition o ready_type status reason message s.status.conditions s.world in
      returned tt (record s { world = r.1; status = record (s.status) { conditions = r.0 } })

  -- `os.OpenFile` with O_RDONLY|O_CREATE, with whether it failed: a missing file is made empty.
  unfoldable pub open_file : String → World → Bool × World
  open_file name w =
      if is_missing name w
      then if o.write_fails w.log name then (true, w) else (
        false,
        record w {
          files = λ f. if f == name then some "" else w.files f;
          log = wrote name "" ∷ w.log;
        },
      )
      else (o.read_fails w.log name, w)

  unfoldable pub create_file : String → String → String → World → Bool × World
  unfolding open_file mail_file
  create_file container pod namespace w = open_file (mail_file container pod namespace) w

  unfoldable pub create_ext_file : String → String → String → World → Bool × World
  unfolding open_file ext_file
  create_ext_file container pod namespace w = open_file (ext_file container pod namespace) w

  -- A file that cannot be read, or is not there, keeps the mail from being sent.
  unfoldable pub send_email_alert :
      String → String → ContainerScanSpec → String → String → World → World
  unfolding alert_mail
  send_email_alert pod cont spec name host w = elim (read_file o name w) [
    | err e ↦ w
    | ok text ↦
        if text == "sent"
        then w
        else (let r = write_file o name "sent" w in
            if r.0 then r.1 else (run_fails o (alert_mail spec pod cont host) r.1).1)
  ]

  unfoldable pub send_email_recover_alert :
      String → String → ContainerScanSpec → String → String → World → World
  unfolding recovered_mail
  send_email_recover_alert pod cont spec name host w = elim (read_file o name w) [
    | err e ↦ w
    | ok text ↦ if text == "sent" then (run_fails o (recovered_mail spec pod cont host) w).1 else w
  ]

  unfoldable pub mark_notified : M ContainerScanStatus (Unit {0})
  mark_notified = do
    t ← on_world (now o)
    modify (λ st. record st { external_notified = true; external_notified_time = some t })

  unfoldable pub send_alert :
      String
      → String
      → String
      → String
      → String
      → String
      → String
      → String
      → M ContainerScanStatus (Option String)
  unfolding mark_notified alert_text
  send_alert status url username password pod cont name fingerprint = do
    fill o fingerprint status (pure (alert_text pod cont)) (pure (alert_text pod cont))
    d ← post o false url username password name fingerprint
    elim d [
      | failed e ↦ pure (some e)
      | refused ↦ pure none
      | accepted ↦ mark_notified >> pure none
    ]

  unfoldable pub sub_notify_external_system :
      String
      → String
      → String
      → String
      → String
      → String
      → String
      → M ContainerScanStatus (Option String)
  unfolding send_alert
  sub_notify_external_system status url username password pod cont name = do
    c ← on_world (sub_fingerprint o status name)
    elim c [
      | missing e ↦ pure (some e)
      | notified ↦ pure none
      | use_fingerprint f ↦ send_alert status url username password pod cont name f
    ]

  unfoldable pub notify_external_system :
      String
      → String
      → String
      → String
      → String
      → String
      → String
      → M ContainerScanStatus (Option String)
  unfolding send_alert
  notify_external_system status url username password pod cont name = do
    c ← on_world (fresh_fingerprint o name)
    elim c [
      | missing e ↦ pure (some e)
      | notified ↦ pure none
      | use_fingerprint f ↦ send_alert status url username password pod cont name f
    ]

  unfoldable pub set_incident_id :
      ContainerScanSpec → String → String → String → World → Fallible String × World
  set_incident_id spec username password fingerprint =
      query_incident o
        (get_request o false (incident_url spec.external_url) username password fingerprint)
