-- ===== src/ContainerScan/Pods/Health.antt =====
-- What the states of containers say of their pods, and what the loops over them may move.
use monitoring_wo_webhooks.Prelude.{
  ◌≡◌, refl, sym, ap, ◌∙◌, String, Bool, true, false, ◌&&◌, ◌||◌, none, some, List, [], ◌∷◌, ◌++◌,
  ◌==◌, if◌then◌else◌, is_some, mem, Distinct,
}
use mathlib.Core.Path.{subst}
use monitoring_wo_webhooks.Runtime.{World, Session}
use monitoring_wo_webhooks.ContainerScan.Types.{ContainerScanStatus, ContainerState, Pod}
use monitoring_wo_webhooks.ContainerScan.Cleanup.{pod_key}
use monitoring_wo_webhooks.ContainerScan.Pods.{
  is_zero, Poll, first_poll, later_poll, Cause, exited, crash_loop, mails_always,
}
use monitoring_wo_webhooks.ContainerScan.Pods.Frame.{heard, Kept}

-- What the state of a container says of its pod.
pub data Health : Type 0 where
  is_failing is_recovered is_silent : Health

abbrev pub health : ContainerState → Health
health c = elim c.terminated [
  | some code ↦ if is_zero code then is_recovered else is_failing
  | none ↦ elim c.waiting [
    | some why ↦ if why == "CrashLoopBackOff" then is_failing else is_silent
    | none ↦ is_silent
  ]
]

abbrev pub fails : Health → Bool
fails is_failing = true
fails is_recovered = false
fails is_silent = false

-- Whether an entry is listed after a container was seen, by whether it was listed before.
abbrev pub said : Poll → String → Health → String → Bool → Bool
said poll key is_failing v before = if v == key then true else before
said first_poll key is_recovered v before = before
said later_poll key is_recovered v before = if v == key then false else before
said poll key is_silent v before = before

-- The last container that says something of the entry decides.
abbrev pub said_containers : Poll → String → List ContainerState → String → Bool → Bool
said_containers poll key [] v before = before
said_containers poll key (c ∷ cs) v before =
    said_containers poll key cs v (said poll key (health c) v before)

abbrev pub said_pods : Poll → String → List Pod → String → Bool → Bool
said_pods poll ns [] v before = before
said_pods poll ns (pod ∷ pods) v before =
    said_pods poll ns pods v (said_containers poll (pod_key pod.name ns) pod.states v before)

abbrev pub any_container : List ContainerState → Bool
any_container [] = false
any_container (c ∷ cs) = fails (health c) || any_container cs

-- Whether a pod of the list has a failing container.
abbrev pub any_pod : List Pod → Bool
any_pod [] = false
any_pod (pod ∷ pods) = any_container pod.states || any_pod pods

abbrev pub is_empty : List String → Bool
is_empty [] = true
is_empty (x ∷ xs) = false

-- The polls that send no mail.
abbrev pub is_quiet : Poll → Bool → Bool
is_quiet first_poll aggregated = aggregated
is_quiet later_poll aggregated = true

-- What moves, by a function on whether an entry is listed, and what stays.
pub record Moved (quiet : Bool) (f : String → Bool → Bool) (s t : Session ContainerScanStatus)
    : Type 0 where
  pub entries : (v : String) → mem v t.status.affected_pods ≡ f v (mem v s.status.affected_pods)
  pub affected : Distinct t.status.affected_pods
  pub incidents : Distinct t.status.incident_id
  pub polled : t.status.last_run_time ≡ s.status.last_run_time
  pub conditions : t.status.conditions ≡ s.status.conditions
  pub payload : is_some t.payload ≡ is_some s.payload
  pub mails : heard quiet t.world ≡ heard quiet s.world

pub Moved-trans :
    (quiet : Bool) (f g : String → Bool → Bool) (s t u : Session ContainerScanStatus)
    → Moved quiet f s t
    → Moved quiet g t u
    → Moved quiet (λ v b. g v (f v b)) s u
Moved-trans quiet f g s t u p q = record {
  entries = λ v. q.entries v ∙ ap (g v) (p.entries v);
  affected = q.affected;
  incidents = q.incidents;
  polled = q.polled ∙ p.polled;
  conditions = q.conditions ∙ p.conditions;
  payload = q.payload ∙ p.payload;
  mails = q.mails ∙ p.mails;
}

-- The lists of the status hold nothing twice.
abbrev pub Listed : Session ContainerScanStatus → Type 0
Listed s = Distinct s.status.affected_pods × Distinct s.status.incident_id

pub Moved-same :
    (quiet : Bool) (s : Session ContainerScanStatus) → Listed s → Moved quiet (λ v b. b) s s
Moved-same quiet s d = record {
  entries = λ v. refl;
  affected = d.0;
  incidents = d.1;
  polled = refl;
  conditions = refl;
  payload = refl;
  mails = refl;
}

-- A change of the list alone, then what leaves it alone.
pub Moved-Kept :
    (quiet : Bool) (f : String → Bool → Bool) (xs : List String) (s t : Session ContainerScanStatus)
    (w : World)
    → ((v : String) → mem v xs ≡ f v (mem v s.status.affected_pods))
    → Distinct xs
    → heard quiet w ≡ heard quiet s.world
    → Kept quiet (record s { world = w; status = record (s.status) { affected_pods = xs } }) t
    → Moved quiet f s t
Moved-Kept quiet f xs s t w e d h k = record {
  entries = λ v. ap (mem v) k.affected ∙ e v;
  affected = subst Distinct (sym k.affected) d;
  incidents = k.incidents;
  polled = k.polled;
  conditions = k.conditions;
  payload = k.payload;
  mails = k.mails ∙ h;
}

pub is_empty-append : (xs ys : List String) → is_empty (xs ++ ys) ≡ (is_empty xs && is_empty ys)
is_empty-append [] ys = refl
is_empty-append (x ∷ xs) ys = refl

-- A mail is only sent by a poll that is not quiet.
pub heard-guard :
    (poll : Poll) (cause : Cause) (aggregated asked : Bool) (v w : World)
    → let quiet = is_quiet poll aggregated in
      heard quiet (if mails_always poll cause aggregated && asked then v else w) ≡ heard quiet w
heard-guard first_poll exited aggregated asked v w = refl
heard-guard first_poll crash_loop true asked v w = refl
heard-guard first_poll crash_loop false asked v w = refl
heard-guard later_poll cause aggregated asked v w = refl
