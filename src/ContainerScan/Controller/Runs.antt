-- ===== src/ContainerScan/Controller/Runs.antt =====
-- Whole reconciliations of a container scan: reply and condition follow from the first namespace in
-- trouble, and no run after the first sends a mail.
use monitoring_wo_webhooks.Prelude.{
  ℕ, ◌+◌, ◌≡◌, refl, sym, ap, ◌∙◌, String, Bool, true, false, not, Option, none, some, List, [],
  ◌∷◌, arith, if◌then◌else◌, is_some, Distinct, Option-cases, inl, inr,
}
use mathlib.Core.Path.{subst}
use monitoring_wo_webhooks.Runtime.{
  Outside, Session, Fallible, returned, M, now, ok, err, pure, ◌>>=◌,
}
use monitoring_wo_webhooks.Runtime.Laws.{Ensures, Ensures-returned, returns, IsDocumented}
use monitoring_wo_webhooks.Cluster.{Api}
use monitoring_wo_webhooks.Alerts.Mails.{commands}
use monitoring_wo_webhooks.ContainerScan.Types.{ContainerScanSpec, ContainerScanStatus, Pod, PodApi}
use monitoring_wo_webhooks.ContainerScan.Cleanup.Laws.{cleanup-Cleaned}
use monitoring_wo_webhooks.ContainerScan.Cleanup.Panics.{remote_files-Tidied}
use monitoring_wo_webhooks.ContainerScan.Pods.{Poll, aggregate}
use monitoring_wo_webhooks.ContainerScan.Pods.Frame.{heard, IsFilled}
use monitoring_wo_webhooks.ContainerScan.Pods.Health.{any_pod, is_empty, is_quiet, Listed}
use monitoring_wo_webhooks.ContainerScan.Pods.Laws.{check_pods-Moved}
use monitoring_wo_webhooks.ContainerScan.Controller.{
  conclude, namespace_error, list_error, failing_error, success, check_namespace, check_namespaces,
}
use monitoring_wo_webhooks.ContainerScan.Controller.Laws.{readiness, report-Reported}

-- What is wrong with a namespace: it cannot be fetched, its pods cannot be listed, or one of them
-- has a failing container.
abbrev pub wrong : PodApi → String → Option String
wrong pods ns = elim (namespace_error ns (pods.namespace ns)) [
  | some e ↦ some e
  | none ↦ elim (pods.pods ns) [
    | err e ↦ some (list_error ns e)
    | ok items ↦ if any_pod items then some (failing_error ns) else none
  ]
]

-- The first namespace in which something is wrong.
abbrev pub first_wrong : PodApi → List String → Option String
first_wrong pods [] = none
first_wrong pods (ns ∷ namespaces) = elim (wrong pods ns) [
  | some e ↦ some e
  | none ↦ first_wrong pods namespaces
]

-- The last namespace of a list.
abbrev pub last_of : String → List String → String
last_of ns [] = ns
last_of ns (other ∷ namespaces) = last_of other namespaces

-- What a run keeps on every path.
pub record Carried (quiet : Bool) (s t : Session ContainerScanStatus) : Type 0 where
  pub listed : Listed t
  pub payload : is_some t.payload ≡ is_some s.payload
  pub mails : heard quiet t.world ≡ heard quiet s.world

pub Carried-trans :
    (quiet : Bool) (s t u : Session ContainerScanStatus)
    → Carried quiet s t
    → Carried quiet t u
    → Carried quiet s u
Carried-trans quiet s t u p q = record {
  listed = q.listed;
  payload = q.payload ∙ p.payload;
  mails = q.mails ∙ p.mails;
}

Carried-same : (quiet : Bool) (s : Session ContainerScanStatus) → Listed s → Carried quiet s s
Carried-same quiet s d = record { listed = d; payload = refl; mails = refl }

pub heard-commands :
    (quiet : Bool) (s t : Session ContainerScanStatus)
    → commands t.world.log ≡ commands s.world.log
    → heard quiet t.world ≡ heard quiet s.world
heard-commands quiet s t e = ground arith

-- The readiness, the flag and the time after a namespace without failing containers.
abbrev pub Passed : Outside → String → Session ContainerScanStatus → Type 0
Passed o ns t =
    (readiness t.status ≡ some ("True", success ns))
    × (t.status.external_notified ≡ false)
    × ((k : ℕ) × (t.status.last_run_time ≡ some (o.now k)))

-- What a namespace leaves behind, by what is wrong with it.
abbrev pub Left : Outside → String → Option String → Session ContainerScanStatus → Type 0
Left o ns none t = Passed o ns t
Left o ns (some e) t = Unit {0}

module _ (o : Outside) (api : Api) (pods : PodApi) (namespace : String) (spec : ContainerScanSpec)
    (doc : IsDocumented o) (set : is_some spec.aggregate_alerts ≡ true) where
  conclude-Passed :
      (quiet : Bool) (ns : String) (s : Session ContainerScanStatus)
      → Listed s
      → Ensures (λ _ t. Passed o ns t × Carried quiet s t) (conclude o api pods namespace spec ns s)
  unfolding conclude now
  conclude-Passed quiet ns s d =
      let k = s.world.ticks in
      let polled = record s {
        world = record (s.world) { ticks = k + 1 };
        status = record (s.status) { last_run_time = some (o.now k); external_notified = false };
      } in
      let (_, t, gone, p) = returns (remote_files-Tidied o spec ns set pods polled) in
      let (_, u, done, q) =
        returns (report-Reported o api pods namespace spec "True" (success ns) none t) in
      Ensures-returned _ {a = tt} {s = u} (ground arith) (
        (
          q.reports,
          q.notified ∙ ap (λ st. st.external_notified) p.1,
          (k, q.polled ∙ ap (λ st. st.last_run_time) p.1),
        ),
        record {
          listed = (
            subst Distinct (sym (q.affected ∙ ap (λ st. st.affected_pods) p.1)) d.0,
            subst Distinct (sym (q.incidents ∙ ap (λ st. st.incident_id) p.1)) d.1,
          );
          payload = ap is_some (q.payload ∙ p.0.payload);
          mails = heard-commands quiet polled u (q.mails ∙ p.0.mails);
        },
      )

  module _ (username password : String) (poll : Poll) where
    abbrev pub quiet : Bool
    quiet = is_quiet poll (aggregate spec)

    check_listed-Left :
        (ns : String) (items : List Pod) (s : Session ContainerScanStatus)
        → namespace_error ns (pods.namespace ns) ≡ none
        → pods.pods ns ≡ ok items
        → IsFilled spec s
        → Listed s
        → Ensures
            (λ e t. (e ≡ wrong pods ns) × Left o ns (wrong pods ns) t × Carried quiet s t)
            (check_namespace o api pods namespace spec username password poll ns s)
    unfolding check_namespace
    check_listed-Left ns items s there listed filled d =
        let (_, t, tidy, p) = returns (cleanup-Cleaned o spec ns doc pods s d.0) in
        let kept = p.0.tidied in
        let (names, u, looked, q) = returns (
          check_pods-Moved o doc spec username password ns poll items t
            (λ h. ap is_some kept.payload ∙ filled h)
            (p.0.distinct, subst Distinct (sym kept.incidents) d.1)) in
        let m = q.1 in
        let carried : Carried quiet s u = record {
          listed = (m.affected, m.incidents);
          payload = m.payload ∙ ap is_some kept.payload;
          mails = m.mails ∙ heard-commands quiet s t kept.mails;
        } in
        by names u (any_pod items) refl q.0 carried (ground arith)
      where
        by :
            (names : List String) (u : Session ContainerScanStatus) (b : Bool)
            → any_pod items ≡ b
            → is_empty names ≡ not b
            → Carried quiet s u
            → check_namespace o api pods namespace spec username password poll ns s ≡ (
                (elim names as (λ _. M ContainerScanStatus (Option String)) [
                  | [] ↦ conclude o api pods namespace spec ns >>= (λ _. pure none)
                  | name ∷ more ↦ pure (some (failing_error ns))
                ])
                  u)
            → Ensures
                (λ e t. (e ≡ wrong pods ns) × Left o ns (wrong pods ns) t × Carried quiet s t)
                (check_namespace o api pods namespace spec username password poll ns s)
        by [] u false any e c eq =
            let (_, v, done, q) = returns (conclude-Passed quiet ns u c.listed) in
            let w : wrong pods ns ≡ none = ground arith in
            Ensures-returned _ {a = none} {s = v} (ground arith)
              (rw w (refl, q.0, Carried-trans quiet s u v c q.1))
        by [] u true any e c eq = ground arith
        by (n ∷ names) u false any e c eq = ground arith
        by (n ∷ names) u true any e c eq =
            let w : wrong pods ns ≡ some (failing_error ns) = ground arith in
            Ensures-returned _ {a = some (failing_error ns)} {s = u} (ground arith)
              (rw w (refl, tt, c))

    check_namespace-Left :
        (ns : String) (s : Session ContainerScanStatus)
        → IsFilled spec s
        → Listed s
        → Ensures
            (λ e t. (e ≡ wrong pods ns) × Left o ns (wrong pods ns) t × Carried quiet s t)
            (check_namespace o api pods namespace spec username password poll ns s)
    unfolding check_namespace
    check_namespace-Left ns s filled d =
        elim (Option-cases (namespace_error ns (pods.namespace ns))) [
          | inl there ↦ by there (pods.pods ns) refl
          | inr (e, gone) ↦
              let w : wrong pods ns ≡ some e = ground arith in
              Ensures-returned _ {a = some e} {s = s} (ground arith)
                (rw w (refl, tt, Carried-same quiet s d))
        ]
      where
        by :
            namespace_error ns (pods.namespace ns) ≡ none
            → (r : Fallible (List Pod)) → pods.pods ns ≡ r
            → Ensures
                (λ e t. (e ≡ wrong pods ns) × Left o ns (wrong pods ns) t × Carried quiet s t)
                (check_namespace o api pods namespace spec username password poll ns s)
        by there (ok items) listed = check_listed-Left ns items s there listed filled d
        by there (err e) listed =
            let (_, t, tidy, p) = returns (cleanup-Cleaned o spec ns doc pods s d.0) in
            let kept = p.0.tidied in
            let w : wrong pods ns ≡ some (list_error ns e) = ground arith in
            Ensures-returned _ {a = some (list_error ns e)} {s = t} (ground arith) (
              rw w (
                refl,
                tt,
                record {
                  listed = (p.0.distinct, subst Distinct (sym kept.incidents) d.1);
                  payload = ap is_some kept.payload;
                  mails = heard-commands quiet s t kept.mails;
                },
              ))

    -- What the loop over at least one namespace leaves.
    abbrev pub Swept : String → List String → Session ContainerScanStatus → Type 0
    Swept ns namespaces s =
        let e = first_wrong pods (ns ∷ namespaces) in
        Ensures (λ r t. (r ≡ e) × Left o (last_of ns namespaces) e t × Carried quiet s t)
          (check_namespaces o api pods namespace spec username password poll (ns ∷ namespaces) s)

    -- The loop after a namespace, by what is wrong with it.
    next-Swept :
        (ns : String) (namespaces : List String) (e : Option String)
        (s t : Session ContainerScanStatus)
        → check_namespace o api pods namespace spec username password poll ns s ≡ returned e t
        → e ≡ wrong pods ns
        → Left o ns (wrong pods ns) t
        → Carried quiet s t
        → ((other : String) (more : List String) → namespaces ≡ other ∷ more → Swept other more t)
        → Swept ns namespaces s
    unfolding check_namespaces
    next-Swept ns namespaces (some e) s t checked w left c go =
        let f : first_wrong pods (ns ∷ namespaces) ≡ some e = ground arith in
        Ensures-returned _ {a = some e} {s = t} (ground arith) (rw f (refl, tt, c))
    next-Swept ns [] none s t checked w left c go =
        let f : first_wrong pods (ns ∷ []) ≡ none = ground arith in
        Ensures-returned _ {a = none} {s = t} (ground arith)
          (rw f (refl, subst (λ e. Left o ns e t) (sym w) left, c))
    next-Swept ns (other ∷ more) none s t checked w left c go =
        let (e, u, end, p) = returns (go other more refl) in
        let f : first_wrong pods (ns ∷ other ∷ more) ≡ first_wrong pods (other ∷ more) =
          ground arith in
        Ensures-returned _ {a = e} {s = u} (ground arith)
          (rw f (p.0, p.1, Carried-trans quiet s t u c p.2))

    pub check_namespaces-Swept :
        (ns : String) (namespaces : List String) (s : Session ContainerScanStatus)
        → IsFilled spec s
        → Listed s
        → Swept ns namespaces s
    check_namespaces-Swept ns [] s filled d =
        let (e, t, checked, p) = returns (check_namespace-Left ns s filled d) in
        next-Swept ns [] e s t checked p.0 p.1 p.2 (λ other more h. ground arith)
    check_namespaces-Swept ns (other ∷ more) s filled d =
        let (e, t, checked, p) = returns (check_namespace-Left ns s filled d) in
        let c = p.2 in
        let rest = check_namespaces-Swept other more t (λ h. c.payload ∙ filled h) c.listed in
        next-Swept ns (other ∷ more) e s t checked p.0 p.1 c
          (λ next others h. at t rest next others (ground arith) (ground arith))
      where
        at :
            (t : Session ContainerScanStatus) (rest : Swept other more t) (next : String)
            (others : List String)
            → other ≡ next
            → more ≡ others
            → Swept next others t
        at t rest next others e f =
            subst (λ xs. Swept next xs t) f (subst (λ x. Swept x more t) e rest)
