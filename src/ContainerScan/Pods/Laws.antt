-- ===== src/ContainerScan/Pods/Laws.antt =====
-- What the loops over pods and containers leave in the list of affected pods, which names they
-- note, and which mails they send.
use monitoring_wo_webhooks.Prelude.{
  Bool-cases, inl, inr, ◌≡◌, refl, ◌∙◌, String, Bool, true, false, not, ◌&&◌, Option, none, some,
  List, [], ◌∷◌, ◌++◌, ◌==◌, arith, if◌then◌else◌, is_some, is_set, is_unset, eq_iff,
}
use monitoring_wo_webhooks.Runtime.{Outside, World, Session}
use monitoring_wo_webhooks.Runtime.Laws.{Ensures, Ensures-returned, returns, IsDocumented}
use monitoring_wo_webhooks.Slices.{append_absent}
use monitoring_wo_webhooks.Slices.Laws.{
  remove, mem-remove, remove-Distinct, delete_listed_lem, mem-append_absent, append_absent-Distinct,
}
use monitoring_wo_webhooks.ContainerScan.Types.{
  ContainerScanSpec, ContainerScanStatus, ContainerState, Pod,
}
use monitoring_wo_webhooks.ContainerScan.Util.{send_email_alert}
use monitoring_wo_webhooks.ContainerScan.Cleanup.{pod_key, mail_file}
use monitoring_wo_webhooks.ContainerScan.Pods.{
  is_zero, ℤ, Poll, first_poll, later_poll, Cause, exited, crash_loop, prepend, aggregate, subject,
  kind, mails_always, failing_name, failing, recovered, exited_zero, check_container,
  check_containers, check_pods,
}
use monitoring_wo_webhooks.ContainerScan.Pods.Frame.{
  IsFilled, when-failing-Kept, when-recovered-Kept,
}
use monitoring_wo_webhooks.ContainerScan.Pods.Health.{
  is_empty-append, Listed, Moved, Moved-Kept, Moved-same, Moved-trans, any_container, any_pod,
  fails, health, heard-guard, is_empty, is_failing, is_quiet, is_recovered, said, said_containers,
  said_pods,
}

module _ (o : Outside) (doc : IsDocumented o) (spec : ContainerScanSpec)
    (username password ns : String) (poll : Poll) where
  abbrev quiet : Bool
  quiet = is_quiet poll (aggregate spec)

  failing-Moved :
      (cause : Cause) (pod host container : String) (s : Session ContainerScanStatus)
      → IsFilled spec s
      → Listed s
      → Ensures
          (λ r t. (is_some r ≡ true) × Moved quiet (said poll (pod_key pod ns) is_failing) s t)
          (failing o spec username password ns poll cause pod host container s)
  unfolding failing
  failing-Moved cause pod host container s filled d =
      let key = pod_key pod ns in
      let xs = append_absent o s.status.affected_pods key in
      let guard = mails_always poll cause (aggregate spec) && is_unset spec.suspend_email_alert in
      let mail =
        send_email_alert o pod (subject spec container) spec
          (mail_file (kind spec container) pod ns) host s.world in
      let w : World = if guard then mail else s.world in
      let told = is_set spec.notify_extenal in
      let listed = record s { world = w; status = record (s.status) { affected_pods = xs } } in
      let (_, t, end, k) = returns (
        when-failing-Kept o doc spec username password ns quiet told poll cause pod container listed
          filled d.1) in
      let has = mem-append_absent o doc s.status.affected_pods key key in
      Ensures-returned _ {a = some (failing_name poll cause (aggregate spec) pod container)} {s = t}
        (ground (arith, doc.contains_lem xs key, has, eq_iff key key))
        (
          refl,
          Moved-Kept quiet (said poll key is_failing) xs s t w
              (λ v.
                ground (arith, mem-append_absent o doc s.status.affected_pods key v, eq_iff v key))
              (append_absent-Distinct o doc _ key d.0)
              (heard-guard poll cause (aggregate spec) (is_unset spec.suspend_email_alert) mail
                s.world)
              k,
        )

  recovered-Moved :
      (pod host container : String) (s : Session ContainerScanStatus)
      → IsFilled spec s
      → Listed s
      → Ensures
          (λ _ t. Moved true (λ v b. if v == pod_key pod ns then false else b) s t)
          (recovered o spec username password ns pod host container s)
  unfolding recovered
  recovered-Moved pod host container s filled d =
      let key = pod_key pod ns in
      let xs = remove key s.status.affected_pods in
      let told = is_set spec.notify_extenal && s.status.external_notified in
      let unlisted = record s { status = record (s.status) { affected_pods = xs } } in
      let (_, t, end, k) = returns (
        when-recovered-Kept o doc spec username password ns true told pod container unlisted
          (λ h. filled (ground arith)) d.1) in
      let gone = mem-remove key key s.status.affected_pods d.0 in
      Ensures-returned _ {a = tt} {s = t}
        (ground (
          arith,
          delete_listed_lem o doc s.status.affected_pods key s,
          doc.contains_lem xs key,
          gone,
          eq_iff key key,
        ))
        (Moved-Kept true (λ v b. if v == key then false else b) xs s t s.world
          (λ v. ground (arith, mem-remove key v s.status.affected_pods d.0, eq_iff v key))
          (remove-Distinct key _ d.0) refl k)

  exited_zero-Moved :
      (p : Poll) (pod host container : String) (s : Session ContainerScanStatus)
      → IsFilled spec s
      → Listed s
      → Ensures
          (λ _ t. Moved (is_quiet p (aggregate spec)) (said p (pod_key pod ns) is_recovered) s t)
          (exited_zero o spec username password ns p pod host container s)
  unfolding exited_zero
  exited_zero-Moved first_poll pod host container s filled d =
      unfold Ensures in Moved-same (aggregate spec) s d
  exited_zero-Moved later_poll pod host container s filled d =
      recovered-Moved pod host container s filled d

  check_container-Moved :
      (pod host : String) (c : ContainerState) (s : Session ContainerScanStatus)
      → IsFilled spec s
      → Listed s
      → Ensures
          (λ r t.
            (is_some r ≡ fails (health c))
            × Moved quiet (said poll (pod_key pod ns) (health c)) s t)
          (check_container o spec username password ns poll pod host c s)
  unfolding check_container
  check_container-Moved pod host c s filled d = by c.terminated c.waiting
    where
      by :
          (terminated : Option ℤ) (waiting : Option String)
          → let e = record c { terminated = terminated; waiting = waiting } in
            Ensures
              (λ r t.
                (is_some r ≡ fails (health e))
                × Moved quiet (said poll (pod_key pod ns) (health e)) s t)
              (check_container o spec username password ns poll pod host e s)
      by (some code) waiting = elim (Bool-cases (is_zero code)) [
        | inl zero ↦
            let (_, t, end, m) = returns (exited_zero-Moved poll pod host c.name s filled d) in
            rw zero (Ensures-returned _ {a = none} {s = t} (ground arith) (refl, m))
        | inr other ↦ rw other (failing-Moved exited pod host c.name s filled d)
      ]
      by none none = unfold Ensures in (refl, Moved-same quiet s d)
      by none (some why) = elim (Bool-cases (why == "CrashLoopBackOff")) [
        | inl loops ↦ rw loops (failing-Moved crash_loop pod host c.name s filled d)
        | inr waits ↦ rw waits (unfold Ensures in (refl, Moved-same quiet s d))
      ]

  check_containers-Moved :
      (pod host : String) (cs : List ContainerState) (s : Session ContainerScanStatus)
      → IsFilled spec s
      → Listed s
      → Ensures
          (λ names t.
            (is_empty names ≡ not (any_container cs))
            × Moved quiet (said_containers poll (pod_key pod ns) cs) s t)
          (check_containers o spec username password ns poll pod host cs s)
  unfolding check_containers
  check_containers-Moved pod host [] s filled d = unfold Ensures in (refl, Moved-same quiet s d)
  check_containers-Moved pod host (c ∷ cs) s filled d =
      let key = pod_key pod ns in
      let (r, t, checked, m) = returns (check_container-Moved pod host c s filled d) in
      let k = m.1 in
      let (names, u, end, n) = returns (
        check_containers-Moved pod host cs t (λ h. k.payload ∙ filled h)
          (k.affected, k.incidents)) in
      Ensures-returned _ {a = prepend r names} {s = u} (ground arith) (
        ground arith,
        Moved-trans quiet (said poll key (health c)) (said_containers poll key cs) s t u k n.1,
      )

  pub check_pods-Moved :
      (pods : List Pod) (s : Session ContainerScanStatus)
      → IsFilled spec s
      → Listed s
      → Ensures
          (λ names t.
            (is_empty names ≡ not (any_pod pods)) × Moved quiet (said_pods poll ns pods) s t)
          (check_pods o spec username password ns poll pods s)
  unfolding check_pods
  check_pods-Moved [] s filled d = unfold Ensures in (refl, Moved-same quiet s d)
  check_pods-Moved (pod ∷ pods) s filled d =
      let key = pod_key pod.name ns in
      let (names, t, checked, m) =
        returns (check_containers-Moved pod.name pod.node_name pod.states s filled d) in
      let k = m.1 in
      let (more, u, end, n) =
        returns (check_pods-Moved pods t (λ h. k.payload ∙ filled h) (k.affected, k.incidents)) in
      Ensures-returned _ {a = names ++ more} {s = u} (ground arith) (
        is_empty-append names more ∙ (ground arith),
        Moved-trans quiet (said_containers poll key pod.states) (said_pods poll ns pods) s t u k
            n.1,
      )
