-- ===== src/ContainerScan/Controller/Verdict.antt =====
-- A whole reconciliation of a container scan that is due: reply and condition follow from the first
-- namespace in trouble, and no run after the first sends a mail.
use monitoring_wo_webhooks.Prelude.{
  Distinct, ◌+◌, ◌≡◌, refl, sym, ap, ◌∙◌, String, Bool, true, false, Option, none, some, List, ◌∷◌,
  arith, is_some, is_set,
}
use mathlib.Core.Path.{subst}
use monitoring_wo_webhooks.Prelude.Int.{ℤ, pos, ltb_ℤ}
use monitoring_wo_webhooks.Runtime.{Outside, Event, Session, returned, M, now}
use monitoring_wo_webhooks.Runtime.Laws.{Ensures, Ensures-returned, returns, IsDocumented}
use monitoring_wo_webhooks.Conditions.{Condition}
use monitoring_wo_webhooks.Cluster.{Reply, reply, Api, past_time}
use monitoring_wo_webhooks.ContainerScan.Types.{ContainerScanSpec, ContainerScanStatus, PodApi}
use monitoring_wo_webhooks.ContainerScan.Util.{get_ready_condition}
use monitoring_wo_webhooks.ContainerScan.Pods.{Poll, first_poll, later_poll, aggregate}
use monitoring_wo_webhooks.ContainerScan.Pods.Frame.{heard, IsFilled}
use monitoring_wo_webhooks.ContainerScan.Pods.Health.{is_quiet, Listed}
use monitoring_wo_webhooks.ContainerScan.Controller.{
  run_object, ok, finally, trouble, delay, sweep, poll_if_due, check, load, reconcile_object,
}
use monitoring_wo_webhooks.ContainerScan.Controller.Laws.{
  readiness, told, finish_error, finish_fine,
}
use monitoring_wo_webhooks.ContainerScan.Controller.Runs.{
  first_wrong, last_of, Left, Passed, Carried, heard-commands, check_namespaces-Swept,
}

-- How a poll ends, by the first thing that is wrong.
abbrev pub Ended :
    Outside
    → ContainerScanSpec
    → String
    → Option String
    → Reply
    → Session ContainerScanStatus
    → Type 0
Ended o spec last none r t = (r ≡ reply (delay spec) none) × Passed o last t
Ended o spec last (some e) r t =
    (r ≡ reply (pos 0) (some e))
    × (readiness t.status ≡ some ("False", told (trouble spec) (some e)))

-- What has to hold for a reconciliation to come to the poll.
pub record Checks (api : Api) (spec : ContainerScanSpec) (c : Condition)
    (s : Session ContainerScanStatus) : Type 0 where
  pub seen : get_ready_condition s.status ≡ some c
  pub configured : api.config_error ≡ none
  pub connected : api.client_error ≡ none
  pub is_on : is_set spec.suspend ≡ false

abbrev pub poll_of : Option ℤ → Poll
poll_of none = first_poll
poll_of (some last) = later_poll

-- There was no run yet, or the interval has passed since the last one without trouble.
abbrev pub IsDue : Outside → ContainerScanSpec → Option ℤ → Session ContainerScanStatus → Type 0
IsDue o spec none s = Unit {0}
IsDue o spec (some last) s = ltb_ℤ last (past_time (o.now s.world.ticks) (delay spec)) ≡ true

module _ (o : Outside) (api : Api) (pods : PodApi) (namespace : String) (spec : ContainerScanSpec)
    (username password : String) where
  due-sweeps :
      (last : Option ℤ) (s : Session ContainerScanStatus)
      → s.status.last_run_time ≡ last
      → IsDue o spec last s
      → (u : Session ContainerScanStatus) × (poll_if_due o api pods namespace spec username password
            s
          ≡ sweep o api pods namespace spec username password (poll_of last) u)
        × (u.status ≡ s.status)
        × (u.payload ≡ s.payload)
        × (u.world.log ≡ s.world.log)
  unfolding poll_if_due now
  due-sweeps none s e due = (s, ground arith, refl, refl, refl)
  due-sweeps (some last) s e due = (
    record s { world = record (s.world) { ticks = s.world.ticks + 1 } },
    ground arith,
    refl,
    refl,
    refl,
  )

  check-poll_if_due :
      (c : Condition) (s : Session ContainerScanStatus)
      → Checks api spec c s
      → check o api pods namespace spec username password s
        ≡ poll_if_due o api pods namespace spec username password s
  unfolding check
  check-poll_if_due c s p = ground arith

  run_object-poll_if_due :
      (c : Condition) (start s : Session ContainerScanStatus)
      → load o api pods namespace spec start ≡ returned (ok (username, password)) s
      → Checks api spec c s
      → run_object o api pods namespace spec start
        ≡ poll_if_due o api pods namespace spec username password s
  unfolding run_object
  run_object-poll_if_due c start s loaded p = rw loaded (check-poll_if_due c s p)

module _ (o : Outside) (api : Api) (pods : PodApi) (namespace : String) (spec : ContainerScanSpec)
    (updates : (log : List Event) → o.update_error log ≡ none) (doc : IsDocumented o)
    (set : is_some spec.aggregate_alerts ≡ true) (username password ns : String)
    (namespaces : List String) (targets : spec.target_namespace ≡ ns ∷ namespaces) where
  -- The first thing that is wrong in the namespaces.
  abbrev pub verdict : Option String
  verdict = first_wrong pods (ns ∷ namespaces)

  finally-Ended :
      (quiet : Bool) (e : Option String) (m : M ContainerScanStatus Reply)
      (start s t : Session ContainerScanStatus)
      → m start
        ≡ returned
            (elim e as (λ _. Reply) [
              | some e ↦ reply (pos 0) (some e)
              | none ↦ reply (delay spec) none
            ])
            t
      → Left o (last_of ns namespaces) e t
      → Carried quiet s t
      → Ensures
          (λ r v. Ended o spec (last_of ns namespaces) e r v × Carried quiet s v)
          (finally o api pods namespace spec m start)
  unfolding finally
  finally-Ended quiet none m start s t run left c =
      let (r, v, end, q) = returns (finish_fine o api pods namespace spec (delay spec) t updates) in
      Ensures-returned _ {a = r} {s = v} (ground arith) (
        (
          q.0,
          subst (λ st. Passed o (last_of ns namespaces) (record t { status = st })) (sym q.1) left,
        ),
        record {
          listed = subst (λ st. Listed (record s { status = st })) (sym q.1) c.listed;
          payload = ap is_some q.2 ∙ c.payload;
          mails = heard-commands quiet t v q.3 ∙ c.mails;
        },
      )
  finally-Ended quiet (some e) m start s t run left c =
      let (r, v, end, q) = returns (finish_error o api pods namespace spec (pos 0) e t updates) in
      let p = q.1 in
      Ensures-returned _ {a = r} {s = v} (ground arith) (
        (q.0, p.reports),
        record {
          listed = (
            subst Distinct (sym p.affected) c.listed.0,
            subst Distinct (sym p.incidents) c.listed.1,
          );
          payload = ap is_some p.payload ∙ c.payload;
          mails = heard-commands quiet t v p.mails ∙ c.mails;
        },
      )

  sweep-Ended :
      (poll : Poll) (m : M ContainerScanStatus Reply) (start s u : Session ContainerScanStatus)
      → m start ≡ sweep o api pods namespace spec username password poll u
      → u.status ≡ s.status
      → u.payload ≡ s.payload
      → u.world.log ≡ s.world.log
      → IsFilled spec s
      → Listed s
      → let quiet = is_quiet poll (aggregate spec) in
        Ensures
          (λ r t. Ended o spec (last_of ns namespaces) verdict r t × Carried quiet s t)
          (finally o api pods namespace spec m start)
  unfolding sweep
  sweep-Ended poll m start s u e same kept logged filled d =
      let quiet = is_quiet poll (aggregate spec) in
      let (a, t, swept, p) = returns (
        check_namespaces-Swept o api pods namespace spec doc set username password poll ns
          namespaces u (λ h. ap is_some kept ∙ filled h)
          (subst (λ st. Listed (record s { status = st })) (sym same) d)) in
      let c = p.2 in
      let carried : Carried quiet s t = record {
        listed = c.listed;
        payload = c.payload ∙ ap is_some kept;
        mails = c.mails ∙ ap (λ l. heard quiet (record (s.world) { log = l })) logged;
      } in
      finally-Ended quiet verdict m start s t (ground arith) p.1 carried

  -- A container scan that is due and not suspended, of at least one namespace; it has a condition on
  -- readiness. Secret and config map were read, the cluster configuration is there, the map to fill
  -- is there if alerts are sent, the flag to aggregate alerts is set or unset but not left out, no
  -- list of the status holds anything twice, the search in slices does what its documentation says,
  -- and the update of the status succeeds. The reconciliation returns. If in some namespace the
  -- namespace cannot be fetched, its pods cannot be listed or a pod has a failing container, the
  -- reply has the error of the first such namespace and no delay, and the condition is "False" with
  -- that error. If not, the reply has no error and the next run comes after the check interval; the
  -- condition is "True" with the name of the last namespace only, the flag for notifications is off,
  -- and the time of the last run is a reading of the clock. Either way no list of the status holds
  -- anything twice afterwards, and if there was a run before, or alerts are aggregated, no command
  -- was run, so that no mail was sent, whatever fails or recovers.
  pub reconcile-Ended :
      (c : Condition) (start s : Session ContainerScanStatus)
      → load o api pods namespace spec start ≡ returned (ok (username, password)) s
      → Checks api spec c s
      → IsFilled spec s
      → Listed s
      → IsDue o spec s.status.last_run_time s
      → let quiet = is_quiet (poll_of s.status.last_run_time) (aggregate spec) in
        Ensures
          (λ r t. Ended o spec (last_of ns namespaces) verdict r t × Carried quiet s t)
          (reconcile_object o api pods namespace spec start)
  unfolding reconcile_object
  reconcile-Ended c start s loaded up filled d due =
      let (u, e, same, kept, logged) =
        due-sweeps o api pods namespace spec username password s.status.last_run_time s refl due in
      let (r, t, end, p) = returns (
        sweep-Ended (poll_of s.status.last_run_time) (run_object o api pods namespace spec) start s
          u
          (run_object-poll_if_due o api pods namespace spec username password c start s loaded up
            ∙ e)
          same kept logged filled d) in
      Ensures-returned _ end p
