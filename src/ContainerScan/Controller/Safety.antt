-- ===== src/ContainerScan/Controller/Safety.antt =====
-- No path through the reconciliation of a container scan panics or lists anything twice.
use monitoring_wo_webhooks.Prelude.{
  ◌≡◌, ◌+◌, ◌<>◌, refl, sym, String, true, Option, none, some, List, [], ◌∷◌, arith, is_some,
  is_set, Distinct, Option-cases, Bool-cases, inl, inr,
}
use mathlib.Core.Path.{subst}
use monitoring_wo_webhooks.Prelude.Int.{pos, ltb_ℤ}
use monitoring_wo_webhooks.Runtime.{Dict, Outside, Session, returned, now, Fallible, ok, err}
use monitoring_wo_webhooks.Runtime.Laws.{Ensures, Ensures-returned, returns, IsDocumented}
use monitoring_wo_webhooks.Cluster.{update_status, Reply, reply, Api, past_time}
use monitoring_wo_webhooks.ContainerScan.Types.{ContainerScanSpec, ContainerScanStatus, PodApi}
use monitoring_wo_webhooks.ContainerScan.Util.{get_ready_condition}
use monitoring_wo_webhooks.ContainerScan.Pods.{Poll, first_poll, later_poll}
use monitoring_wo_webhooks.ContainerScan.Pods.Frame.{IsFilled}
use monitoring_wo_webhooks.ContainerScan.Pods.Health.{Listed}
use monitoring_wo_webhooks.ContainerScan.Controller.{
  config_map_error, secret_error, config_text, report_error, finish, finally, trouble, delay,
  check_namespaces, sweep, poll_if_due, check, load, run_object, reconcile_object,
}
use monitoring_wo_webhooks.ContainerScan.Controller.Laws.{Reported, report-Reported}
use monitoring_wo_webhooks.ContainerScan.Controller.Runs.{check_namespaces-Swept}

module _ (o : Outside) (api : Api) (pods : PodApi) (namespace : String)
    (spec : ContainerScanSpec) where
  Listed-reported :
      (status message : String) (s t : Session ContainerScanStatus)
      → Reported status message s t
      → Listed s
      → Listed t
  Listed-reported status message s t p d =
      (subst Distinct (sym p.affected) d.0, subst Distinct (sym p.incidents) d.1)

  -- The deferred function, also where the update of the status fails.
  finish-Listed :
      (r : Reply) (s : Session ContainerScanStatus)
      → Listed s
      → Ensures (λ _ t. Listed t) (finish o api pods namespace spec r s)
  unfolding finish update_status
  finish-Listed r s d = by r.error refl
    where
      closed :
          (t : Session ContainerScanStatus)
          → Listed t
          → report_error o api pods namespace spec r.error s ≡ returned tt t
          → Ensures (λ _ t. Listed t) (finish o api pods namespace spec r s)
      closed t d e = elim (Option-cases (o.update_error t.world.log)) [
        | inl fine ↦
            Ensures-returned _ {a = r} {s = record t { world = (update_status o t.world).1 }}
              (ground arith) d
        | inr (why, failed) ↦
            Ensures-returned _ {a = reply (pos 0) (o.aggregate (r.error ∷ some why ∷ []))}
              {s = record t { world = (update_status o t.world).1 }} (ground arith) d
      ]

      by :
          (e : Option String)
          → r.error ≡ e
          → Ensures (λ _ t. Listed t) (finish o api pods namespace spec r s)
      by none h = closed s d (ground arith)
      by (some e) h =
          let (_, t, done, p) =
            returns (report-Reported o api pods namespace spec "False" (trouble spec) (some e) s) in
          closed t (Listed-reported _ _ s t p d) (ground arith)

  module _ (doc : IsDocumented o) (set : is_some spec.aggregate_alerts ≡ true)
      (username password : String) where
    check_namespaces-Listed :
        (poll : Poll) (spaces : List String) (s : Session ContainerScanStatus)
        → IsFilled spec s
        → Listed s
        → Ensures
            (λ _ t. Listed t)
            (check_namespaces o api pods namespace spec username password poll spaces s)
    unfolding check_namespaces
    check_namespaces-Listed poll [] s filled d = unfold Ensures in d
    check_namespaces-Listed poll (ns ∷ spaces) s filled d =
        let (e, t, swept, p) = returns (
          check_namespaces-Swept o api pods namespace spec doc set username password poll ns spaces
            s filled d) in
        Ensures-returned _ swept p.2.listed

    sweep-Listed :
        (poll : Poll) (s : Session ContainerScanStatus)
        → IsFilled spec s
        → Listed s
        → Ensures (λ _ t. Listed t) (sweep o api pods namespace spec username password poll s)
    unfolding sweep
    sweep-Listed poll s filled d =
        let (e, t, swept, p) =
          returns (check_namespaces-Listed poll spec.target_namespace s filled d) in
        Ensures-returned _
          {a = elim e [ some why ↦ reply (pos 0) (some why) | none ↦ reply (delay spec) none ]}
          {s = t} (ground arith) p

    poll_if_due-Listed :
        (s : Session ContainerScanStatus)
        → IsFilled spec s
        → Listed s
        → Ensures (λ _ t. Listed t) (poll_if_due o api pods namespace spec username password s)
    unfolding poll_if_due now
    poll_if_due-Listed s filled d = elim (Option-cases s.status.last_run_time) [
      | inl never ↦
          let (r, t, end, p) = returns (sweep-Listed first_poll s filled d) in
          Ensures-returned _ {a = r} {s = t} (ground arith) p
      | inr (last, before) ↦
          let u = record s { world = record (s.world) { ticks = s.world.ticks + 1 } } in
          elim (Bool-cases (ltb_ℤ last (past_time (o.now s.world.ticks) (delay spec)))) [
            | inl due ↦
                let (r, t, end, p) = returns (sweep-Listed later_poll u filled d) in
                Ensures-returned _ {a = r} {s = t} (ground arith) p
            | inr early ↦ Ensures-returned _ {a = reply (delay spec) none} {s = u} (ground arith) d
          ]
    ]

    check-Listed :
        (s : Session ContainerScanStatus)
        → IsFilled spec s
        → Listed s
        → Ensures (λ _ t. Listed t) (check o api pods namespace spec username password s)
    unfolding check
    check-Listed s filled d = elim (Option-cases (get_ready_condition s.status)) [
      | inl unseen ↦
          let (_, t, done, p) =
            returns (report-Reported o api pods namespace spec "Unknown" "First Seen" none s) in
          Ensures-returned _ {a = reply (pos 0) none} {s = t} (ground arith)
            (Listed-reported _ _ s t p d)
      | inr (c, seen) ↦ elim (Option-cases api.config_error) [
        | inr (e, failed) ↦
            Ensures-returned _ {a = reply (pos 0) (some (config_text <> e))} {s = s} (ground arith)
              d
        | inl configured ↦ elim (Option-cases api.client_error) [
          | inr (e, failed) ↦
              Ensures-returned _ {a = reply (pos 0) (some (config_text <> e))} {s = s}
                (ground arith) d
          | inl connected ↦ elim (Bool-cases (is_set spec.suspend)) [
            | inl off ↦ Ensures-returned _ {a = reply (pos 0) none} {s = s} (ground arith) d
            | inr on ↦
                let (r, t, end, p) = returns (poll_if_due-Listed s filled d) in
                Ensures-returned _ {a = r} {s = t} (ground arith) p
          ]
        ]
      ]
    ]

  -- Every config map that can be read has data.
  abbrev pub HasData : Type 0
  HasData =
      (d : Option Dict) → api.config_map namespace spec.external_data ≡ ok d → is_some d ≡ true

  run_object-Listed :
      IsDocumented o
      → is_some spec.aggregate_alerts ≡ true
      → HasData
      → (s : Session ContainerScanStatus) → Listed s
      → Ensures (λ _ t. Listed t) (run_object o api pods namespace spec s)
  unfolding run_object load
  run_object-Listed doc set there s d = elim (Bool-cases (is_set spec.notify_extenal)) [
    | inr silent ↦
        let (r, t, end, p) = returns (check-Listed doc set "" "" s (λ h. ground arith) d) in
        Ensures-returned _ {a = r} {s = t} (ground arith) p
    | inl loud ↦
        by (api.secret namespace spec.external_secret) (api.config_map namespace spec.external_data)
          refl refl loud
  ]
    where
      by :
          (c : Fallible (String × String)) (m : Fallible (Option Dict))
          → api.secret namespace spec.external_secret ≡ c
          → api.config_map namespace spec.external_data ≡ m
          → is_set spec.notify_extenal ≡ true
          → Ensures (λ _ t. Listed t) (run_object o api pods namespace spec s)
      by (err e) m h k loud =
          Ensures-returned _ {a = reply (pos 0) (some (secret_error o api pods namespace spec e))}
            {s = s} (ground arith) d
      by (ok c) (err e) h k loud =
          Ensures-returned _
            {a = reply (pos 0) (some (config_map_error o api pods namespace spec e))} {s = s}
            (ground arith) d
      by (ok (username, password)) (ok m) h k loud =
          let u = record s { payload = m } in
          let (r, t, end, p) =
            returns (check-Listed doc set username password u (λ _. there m k) d) in
          Ensures-returned _ {a = r} {s = t} (ground arith) p

  -- On every path through the reconciliation of an object (secret or config map not there, first
  -- seen, no cluster configuration, suspended, not due, a namespace in trouble or none, an update of
  -- the status that fails), there is no panic and the lists of affected pods and of incidents hold
  -- nothing twice afterwards, if they held nothing twice before. The flag to aggregate alerts is set
  -- or unset but not left out, every config map that can be read has data, and the search in slices
  -- does what its documentation says.
  pub reconcile_object-Listed :
      IsDocumented o
      → is_some spec.aggregate_alerts ≡ true
      → HasData
      → (s : Session ContainerScanStatus) → Listed s
      → Ensures (λ _ t. Listed t) (reconcile_object o api pods namespace spec s)
  unfolding reconcile_object finally
  reconcile_object-Listed doc set there s d =
      let (r, t, ran, p) = returns (run_object-Listed doc set there s d) in
      let (a, u, end, q) = returns (finish-Listed r t p) in
      Ensures-returned _ {a = a} {s = u} (ground arith) q
