-- ===== src/Alerts/Mails.antt =====
-- The alerts of Alerts run no command, and so send no mail.
use monitoring_wo_webhooks.Prelude.{◌≡◌, refl, String, List, [], ◌∷◌, arith}
use monitoring_wo_webhooks.Runtime.{
  Outside, World, Event, Request, ran, requested, wrote, truncated, removed, recorded, updated,
  write_file, remove_file, send, random_string,
}
use monitoring_wo_webhooks.Alerts.{fresh_fingerprint, sub_fingerprint, deliver, query_incident}

-- The commands that were run.
abbrev pub commands : List Event → List String
commands [] = []
commands (ran c ∷ es) = c ∷ commands es
commands (requested r ∷ es) = commands es
commands (wrote f t ∷ es) = commands es
commands (truncated f ∷ es) = commands es
commands (removed f ∷ es) = commands es
commands (recorded k m ∷ es) = commands es
commands (updated ∷ es) = commands es

module _ (o : Outside) where
  fresh_fingerprint-log : (name : String) (w : World) → (fresh_fingerprint o name w).1.log ≡ w.log
  unfolding fresh_fingerprint random_string
  fresh_fingerprint-log name w = ground arith

  sub_fingerprint-log :
      (status name : String) (w : World) → (sub_fingerprint o status name w).1.log ≡ w.log
  unfolding sub_fingerprint
  sub_fingerprint-log status name w = ground (arith, fresh_fingerprint-log name w)

  pub commands-fresh_fingerprint :
      (name : String) (w : World) → commands (fresh_fingerprint o name w).1.log ≡ commands w.log
  commands-fresh_fingerprint name w = rw (fresh_fingerprint-log name w) refl

  pub commands-sub_fingerprint :
      (status name : String) (w : World)
      → commands (sub_fingerprint o status name w).1.log ≡ commands w.log
  commands-sub_fingerprint status name w = rw (sub_fingerprint-log status name w) refl

  pub commands-deliver :
      (r : Request) (name fingerprint : String) (w : World)
      → commands (deliver o r name fingerprint w).1.log ≡ commands w.log
  unfolding deliver send write_file
  commands-deliver r name fingerprint w = ground arith

  pub commands-query_incident :
      (r : Request) (w : World) → commands (query_incident o r w).1.log ≡ commands w.log
  unfolding query_incident send
  commands-query_incident r w = ground arith

  pub commands-remove_file :
      (name : String) (w : World) → commands (remove_file o name w).log ≡ commands w.log
  unfolding remove_file
  commands-remove_file name w = ground arith
