-- ===== src/MetallbScan/Speakers/Laws.antt =====
-- What the mails and checks of the speakers leave alone, whether they return or panic.
use monitoring_wo_webhooks.Prelude.{
  ◌≡◌, ◌≢◌, refl, ◌∙◌, String, false, List, [], ◌∷◌, ◌++◌, arith, if◌then◌else◌, Bool-cases, inl,
  inr, is_unset, mem, mem-append_one, Distinct, append_one-Distinct, eq_iff,
}
use monitoring_wo_webhooks.Runtime.{Outside, World, Session, remove_file}
use monitoring_wo_webhooks.Runtime.Laws.{IsDocumented}
use monitoring_wo_webhooks.Runtime.Always.{Always, Always-returned}
use monitoring_wo_webhooks.Slices.Laws.{remove, mem-remove, remove-Distinct, delete_listed_lem}
use monitoring_wo_webhooks.MetallbScan.Types.{MetallbScanSpec, MetallbScanStatus}
use monitoring_wo_webhooks.MetallbScan.Util.{send_email_alert, send_email_recovered_alert}
use monitoring_wo_webhooks.MetallbScan.Speakers.{SpeakerApi, mail_and_list, list_and_mail, recover}

-- No check is listed twice, the checks that are of others are listed as before, and the rest of the
-- status is as it was.
pub record Untouched (other : String → Type 0) (s t : Session MetallbScanStatus) : Type 0 where
  pub distinct : Distinct t.status.failed_checks
  pub others : (v : String) → other v → mem v t.status.failed_checks ≡ mem v s.status.failed_checks
  pub conditions : t.status.conditions ≡ s.status.conditions
  pub incidents : t.status.incident_id ≡ s.status.incident_id
  pub last_run : t.status.last_run_time ≡ s.status.last_run_time
  pub last_success : t.status.last_successful_run_time ≡ s.status.last_successful_run_time
  pub healthy : t.status.healthy ≡ s.status.healthy

pub Untouched-same :
    {other : String → Type 0} (s : Session MetallbScanStatus)
    → Distinct s.status.failed_checks
    → Untouched other s s
Untouched-same s d = record {
  distinct = d;
  others = λ v h. refl;
  conditions = refl;
  incidents = refl;
  last_run = refl;
  last_success = refl;
  healthy = refl;
}

-- A check that is none of the others.
abbrev pub IsOwn : (String → Type 0) → String → Type 0
IsOwn other check = (v : String) → other v → v ≢ check

module _ {other : String → Type 0} {s : Session MetallbScanStatus} where
  pub Untouched-world :
      (w : World) (t : Session MetallbScanStatus)
      → Untouched other s t
      → Untouched other s (record t { world = w })
  Untouched-world w t p = record {
    distinct = p.distinct;
    others = p.others;
    conditions = p.conditions;
    incidents = p.incidents;
    last_run = p.last_run;
    last_success = p.last_success;
    healthy = p.healthy;
  }

  Untouched-checks :
      (w : World) (checks : List String) (t : Session MetallbScanStatus)
      → Untouched other s t
      → Distinct checks
      → ((v : String) → other v → mem v checks ≡ mem v t.status.failed_checks)
      → Untouched other s
          (record t { world = w; status = record (t.status) { failed_checks = checks } })
  Untouched-checks w checks t p d e = record {
    distinct = d;
    others = λ v h. e v h ∙ p.others v h;
    conditions = p.conditions;
    incidents = p.incidents;
    last_run = p.last_run;
    last_success = p.last_success;
    healthy = p.healthy;
  }

  pub Untouched-listed :
      (w : World) (check : String) (t : Session MetallbScanStatus)
      → Untouched other s t
      → IsOwn other check
      → mem check t.status.failed_checks ≡ false
      → Untouched other s (record t {
        world = w;
        status = record (t.status) { failed_checks = t.status.failed_checks ++ check ∷ [] };
      })
  Untouched-listed w check t p own absent =
      let xs = t.status.failed_checks in
      Untouched-checks w (xs ++ check ∷ []) t p (append_one-Distinct check xs p.distinct absent)
        (λ v h. ground (arith, mem-append_one v check xs, eq_iff check v, own v h))

  pub Untouched-unlisted :
      (w : World) (check : String) (t : Session MetallbScanStatus)
      → Untouched other s t
      → IsOwn other check
      → Untouched other s (record t {
        world = w;
        status = record (t.status) { failed_checks = remove check t.status.failed_checks };
      })
  Untouched-unlisted w check t p own =
      let xs = t.status.failed_checks in
      Untouched-checks w (remove check xs) t p (remove-Distinct check xs p.distinct)
        (λ v h. ground (arith, mem-remove check v xs p.distinct, eq_iff v check, own v h))

  module _ (o : Outside) (doc : IsDocumented o) (api : SpeakerApi) (ns : String)
      (spec : MetallbScanSpec) where
    pub mail_and_list-Untouched :
        (host name check text : String) (t : Session MetallbScanStatus)
        → Untouched other s t
        → IsOwn other check
        → Always (Untouched other s) (mail_and_list o api ns spec host name check text t)
    unfolding mail_and_list
    mail_and_list-Untouched host name check text t p own =
        elim (Bool-cases (mem check t.status.failed_checks)) [
          | inl listed ↦
              Always-returned _ {a = tt} {s = t}
                (ground (arith, doc.contains_lem t.status.failed_checks check)) p
          | inr absent ↦
              let w =
                if is_unset spec.suspend_email_alert
                then send_email_alert o host name spec text t.world
                else t.world in
              Always-returned _ {a = tt}
                {s = record t {
                  world = w;
                  status = record (t.status) {
                    failed_checks = t.status.failed_checks ++ check ∷ [];
                  };
                }}
                (ground (arith, doc.contains_lem t.status.failed_checks check))
                (Untouched-listed w check t p own absent)
        ]

    pub list_and_mail-Untouched :
        (host name check text : String) (t : Session MetallbScanStatus)
        → Untouched other s t
        → IsOwn other check
        → Always (Untouched other s) (list_and_mail o api ns spec host name check text t)
    unfolding list_and_mail
    list_and_mail-Untouched host name check text t p own =
        elim (Bool-cases (mem check t.status.failed_checks)) [
          | inl listed ↦
              Always-returned _ {a = tt} {s = t}
                (ground (arith, doc.contains_lem t.status.failed_checks check)) p
          | inr absent ↦
              let w =
                if is_unset spec.suspend_email_alert
                then send_email_alert o host name spec text t.world
                else t.world in
              Always-returned _ {a = tt}
                {s = record t {
                  world = w;
                  status = record (t.status) {
                    failed_checks = t.status.failed_checks ++ check ∷ [];
                  };
                }}
                (ground (arith, doc.contains_lem t.status.failed_checks check))
                (Untouched-listed w check t p own absent)
        ]

    pub recover-Untouched :
        (host mailed name check text : String) (t : Session MetallbScanStatus)
        → Untouched other s t
        → IsOwn other check
        → Always (Untouched other s) (recover o api ns spec host mailed name check text t)
    unfolding recover
    recover-Untouched host mailed name check text t p own =
        let xs = t.status.failed_checks in
        elim (Bool-cases (mem check xs)) [
          | inr absent ↦
              Always-returned _ {a = tt} {s = t} (ground (arith, doc.contains_lem xs check)) p
          | inl listed ↦
              let w =
                if is_unset spec.suspend_email_alert
                then send_email_recovered_alert o host mailed spec text t.world
                else t.world in
              Always-returned _ {a = tt}
                {s = record t {
                  world = remove_file o name w;
                  status = record (t.status) { failed_checks = remove check xs };
                }}
                (ground (
                  arith,
                  doc.contains_lem xs check,
                  delete_listed_lem o doc xs check (record t { world = w }),
                ))
                (Untouched-unlisted (remove_file o name w) check t p own)
        ]
