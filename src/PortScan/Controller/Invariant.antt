-- ===== src/PortScan/Controller/Invariant.antt =====
-- An admitted scan is reconciled without a panic, on every path, and no target is ever listed twice.
use monitoring_wo_webhooks.Prelude.{
  ℕ, ◌+◌, ◌≡◌, ◌≢◌, sym, String, ◌<>◌, Bool, true, Option, none, some, List, [], ◌∷◌, arith,
  is_some, Distinct, Option-cases, inl, inr,
}
use mathlib.Core.Path.{subst}
use monitoring_wo_webhooks.Prelude.Int.{pos}
use monitoring_wo_webhooks.Runtime.{Outside, Session, returned, M, now, ok, err, Fallible}
use monitoring_wo_webhooks.Runtime.Laws.{Ensures, Ensures-returned, returns, IsDocumented}
use monitoring_wo_webhooks.Cluster.{Reply, reply, Api}
use monitoring_wo_webhooks.PortScan.Types.{PortScanSpec, PortScanStatus}
use monitoring_wo_webhooks.PortScan.Targets.Frame.{IsFilled}
use monitoring_wo_webhooks.PortScan.Targets.Round.{Probes}
use monitoring_wo_webhooks.PortScan.Targets.Laws.{AllPorts, later_poll_lem, first_poll_lem}
use monitoring_wo_webhooks.PortScan.Webhook.Laws.{Admissible, Defaulted}
use monitoring_wo_webhooks.PortScan.Controller.{
  finish, finally, trouble, delay, conclude, poll_if_due, connect, check, load, reconcile_object,
  first_success, later_success, get_api_name, running_host, config_text,
}
use monitoring_wo_webhooks.PortScan.Controller.Laws.{report-Reported}

-- No target is listed twice.
abbrev pub Listed : Session PortScanStatus → Type 0
Listed s = Distinct s.status.affected_targets

module _ (o : Outside) (api : Api) (namespace : String) (spec : PortScanSpec) where
  finish-Listed :
      (r : Reply) (s : Session PortScanStatus)
      → Listed s
      → Ensures (λ _ t. Listed t) (finish o api namespace spec r s)
  unfolding finish
  finish-Listed r s d = elim (Option-cases r.error) [
    | inl fine ↦ unfold Ensures in ground arith
    | inr (e, failed) ↦
        let (_, t, done, p) =
          returns (report-Reported o api namespace spec "False" trouble (some e) s) in
        let d' : Listed t = subst Distinct (sym p.affected) d in unfold Ensures in ground arith
  ]

  conclude-Listed :
      (message : String) (errors : List String) (s : Session PortScanStatus)
      → Listed s
      → Ensures (λ _ t. Listed t) (conclude o api namespace spec message errors s)
  unfolding conclude now
  conclude-Listed message (host ∷ hosts) s d = unfold Ensures in ground arith
  conclude-Listed message [] s d =
      let k = s.world.ticks in
      let polled = record s {
        world = record (s.world) { ticks = k + 1 };
        status = record (s.status) { last_poll_time = some (o.now k) };
      } in
      let (_, t, done, p) =
        returns (report-Reported o api namespace spec "True" message none polled) in
      let d' : Listed t = subst Distinct (sym p.affected) d in unfold Ensures in ground arith

  finally-Listed :
      (pending : Option String) (m : M PortScanStatus Reply) (s : Session PortScanStatus)
      → Ensures (λ _ t. Listed t) (m s)
      → Ensures (λ _ t. Listed t) (finally o api namespace spec pending m s)
  unfolding finally
  finally-Listed pending m s h =
      let (r, t, done, d) = returns h in
      let (q, u, end, d') = returns (finish-Listed r t d) in
      Ensures-returned _ {a = q} {s = u} (ground arith) d'

  module _ (doc : IsDocumented o) (down : String → Bool) (probes : Probes o down)
      (ports : AllPorts spec.target) where
    poll-Listed :
        (username password : String) (s : Session PortScanStatus)
        → IsFilled spec s
        → Listed s
        → Ensures (λ _ t. Listed t) (poll_if_due o api namespace spec username password s)
    unfolding poll_if_due now
    poll-Listed username password s filled d =
        let host = running_host api in
        let later = record s { world = record (s.world) { ticks = s.world.ticks + 1 } } in
        let (es, t, done, p) = returns (
          first_poll_lem o doc down probes spec username password host spec.target s ports filled
            d) in
        let (_, t', end, q) = returns (conclude-Listed first_success es t p.1.1) in
        let (fs, u, done', p') = returns (
          later_poll_lem o doc down probes spec username password host spec.target later ports
            filled d) in
        let (_, u', end', q') = returns (conclude-Listed later_success fs u p'.2) in
        unfold Ensures in ground arith

    connect-Listed :
        (username password : String) (s : Session PortScanStatus)
        → IsFilled spec s
        → Listed s
        → Ensures (λ _ t. Listed t) (connect o api namespace spec username password s)
    unfolding connect
    connect-Listed username password s filled d = connected api.config_error api.client_error
      where
        connected :
            (config client : Option String)
            → Ensures
                (λ _ t. Listed t)
                ((elim config as (λ _. M PortScanStatus Reply) [
                  | some e ↦ finish o api namespace spec (reply (pos 0) (some (config_text <> e)))
                  | none ↦ elim client as (λ _. M PortScanStatus Reply) [
                    | some e ↦ finish o api namespace spec (reply (pos 0) (some (config_text <> e)))
                    | none ↦
                        finally o api namespace spec
                          (get_api_name api).1
                          (poll_if_due o api namespace spec username password)
                  ]
                ])
                  s)
        connected (some e) client = finish-Listed (reply (pos 0) (some (config_text <> e))) s d
        connected none (some e) = finish-Listed (reply (pos 0) (some (config_text <> e))) s d
        connected none none =
            finally-Listed (get_api_name api).1 (poll_if_due o api namespace spec username password)
              s (poll-Listed username password s filled d)

    check-Listed :
        (username password : String) (s : Session PortScanStatus)
        → IsFilled spec s
        → Listed s
        → Ensures (λ _ t. Listed t) (check o api namespace spec username password s)
    unfolding check
    check-Listed username password s filled d =
        let (_, t, seen, p) =
          returns (report-Reported o api namespace spec "Unknown" "First Seen" none s) in
        let d' : Listed t = subst Distinct (sym p.affected) d in
        let (_, t', a, a') = returns (finish-Listed (reply (pos 0) none) t d') in
        let (_, u, b, b') = returns (finish-Listed (reply (delay spec) none) s d) in
        let (_, v, c, c') = returns (connect-Listed username password s filled d) in
        unfold Ensures in ground arith

  -- What `load` gives to the rest of the run.
  abbrev Loaded : Fallible (String × String) → Session PortScanStatus → Type 0
  Loaded (err e) t = Unit
  Loaded (ok c) t = IsFilled spec t

  load-Loaded :
      (start : Session PortScanStatus)
      → is_some spec.notify_extenal ≡ true
      → api.config_map namespace spec.external_data ≢ ok none
      → Listed start
      → Ensures (λ r t. Listed t × Loaded r t) (load o api namespace spec start)
  unfolding load
  load-Loaded start given filled d = unfold Ensures in ground arith

  -- A scan with its defaults filled in, which the webhook admits, whose config map does not come
  -- without data, and each of whose targets is always or never reachable, is reconciled without a
  -- panic, on every path, and no target is listed twice afterwards, if none was before.
  pub reconcile-Listed :
      (doc : IsDocumented o) (down : String → Bool) (probes : Probes o down) (label_max : ℕ)
      (name : String) (start : Session PortScanStatus)
      → Defaulted spec
      → Admissible label_max name spec
      → api.config_map namespace spec.external_data ≢ ok none
      → Listed start
      → Ensures (λ _ t. Listed t) (reconcile_object o api namespace spec start)
  unfolding reconcile_object
  reconcile-Listed doc down probes label_max name start given admitted filled d =
      let (r, s, done, p) = returns (load-Loaded start given.notify filled d) in rest r s done p
    where
      rest :
          (r : Fallible (String × String)) (s : Session PortScanStatus)
          → load o api namespace spec start ≡ returned r s
          → Listed s × Loaded r s
          → Ensures (λ _ t. Listed t) (reconcile_object o api namespace spec start)
      rest (err e) s done p = rw (done, reconcile_object) (unfold Ensures in p.0)
      rest (ok (username, password)) s done p =
          rw (done, reconcile_object)
            (check-Listed doc down probes admitted.ports username password s p.1 p.0)
