-- ===== src/PortScan/Targets/Laws.antt =====
-- Whole polls: the hosts that they report, and the list of affected targets that they leave.
use monitoring_wo_webhooks.Prelude.{
  ◌≡◌, refl, sym, ap, ◌∙◌, String, Bool, true, false, ◌||◌, Option, List, [], ◌∷◌, arith, ◌==◌,
  eq_iff, if◌then◌else◌, mem, Distinct, mem-append_one, append_one-Distinct,
}
use mathlib.Core.Path.{subst}
use monitoring_wo_webhooks.Runtime.{Outside, Session, returned, is_missing}
use monitoring_wo_webhooks.Runtime.Laws.{Ensures, Ensures-returned, returns, IsDocumented}
use monitoring_wo_webhooks.Slices.Laws.{remove, mem-remove, remove-Distinct}
use monitoring_wo_webhooks.PortScan.Types.{PortScanSpec, PortScanStatus}
use monitoring_wo_webhooks.PortScan.Targets.{
  Poll, first_poll, later_poll, mail_file, push, poll_target, poll_targets,
}
use monitoring_wo_webhooks.PortScan.Targets.Frame.{Moves, IsFilled, add, settled}
use monitoring_wo_webhooks.PortScan.Targets.Round.{
  host_of, port_of, HasPort, Probes, poll_target-Moves,
}

-- Every target names a port.
abbrev pub AllPorts : List String → Type 0
AllPorts [] = Unit
AllPorts (t ∷ ts) = HasPort t × AllPorts ts

pub mem-add : (v w : String) (xs : List String) → mem v (add w xs) ≡ (mem v xs || w == v)
mem-add v w xs = ground (arith, mem-append_one v w xs, eq_iff w v)

pub add-Distinct : (w : String) (xs : List String) → Distinct xs → Distinct (add w xs)
add-Distinct w xs d = ground (arith, append_one-Distinct w xs d)

module _ (down : String → Bool) where
  -- The hosts of the targets that cannot be reached, in order.
  abbrev pub unreachable : List String → List String
  unreachable [] = []
  unreachable (t ∷ ts) = if down t then host_of t ∷ unreachable ts else unreachable ts

  abbrev step_affected : String → List String → List String
  step_affected t xs = if down t then add t xs else remove t xs

  -- What later polls do to the list of affected targets.
  abbrev pub after : List String → List String → List String
  after xs [] = xs
  after xs (t ∷ ts) = after (step_affected t xs) ts

  -- What the first poll does to whether a text is listed, from `old` to `new`.
  abbrev pub Grows : List String → String → Bool → Bool → Type 0
  Grows ts v old new =
      (mem v ts ≡ true → down v ≡ true → new ≡ true)
      × (mem v ts ≡ false → new ≡ old)
      × (mem v ts ≡ true → down v ≡ false → new ≡ true → old ≡ true)

  abbrev pub Grown : List String → List String → List String → Type 0
  Grown ts xs ys = ((v : String) → Grows ts v (mem v xs) (mem v ys)) × Distinct ys

  step-Distinct : (t : String) (xs : List String) → Distinct xs → Distinct (step_affected t xs)
  step-Distinct t xs d = ground (arith, add-Distinct t xs d, remove-Distinct t xs d)

  after-Distinct : (xs ts : List String) → Distinct xs → Distinct (after xs ts)
  after-Distinct xs [] d = d
  after-Distinct xs (t ∷ ts) d = after-Distinct (step_affected t xs) ts (step-Distinct t xs d)

  mem-after :
      (v : String) (xs ts : List String)
      → Distinct xs
      → mem v (after xs ts) ≡ (if mem v ts then down v else mem v xs)
  mem-after v xs [] d = refl
  mem-after v xs (t ∷ ts) d =
      mem-after v (step_affected t xs) ts (step-Distinct t xs d)
      ∙ ground (arith, mem-add v t xs, mem-remove t v xs d, eq_iff t v, eq_iff v t)

module _ (o : Outside) (doc : IsDocumented o) (down : String → Bool) (probes : Probes o down)
    (spec : PortScanSpec) (username password node : String) where
  poll_cons :
      (poll : Poll) (t : String) (ts : List String) (s : Session PortScanStatus) {e : Option String}
      {errors : List String} {u v : Session PortScanStatus}
      → poll_target o spec username password node poll t s ≡ returned e u
      → poll_targets o spec username password node poll ts u ≡ returned errors v
      → poll_targets o spec username password node poll (t ∷ ts) s ≡ returned (push e errors) v
  unfolding poll_targets
  poll_cons poll t ts s p q = ground arith

  poll_nil :
      (poll : Poll) (s : Session PortScanStatus)
      → poll_targets o spec username password node poll [] s ≡ returned [] s
  unfolding poll_targets
  poll_nil poll s = refl

  pub later_poll-Moves :
      (ts : List String) (s : Session PortScanStatus)
      → AllPorts ts
      → IsFilled spec s
      → Ensures
          (λ errors t.
            (errors ≡ unreachable down ts) × Moves (after down s.status.affected_targets ts) s t)
          (poll_targets o spec username password node later_poll ts s)
  later_poll-Moves [] s h filled = Ensures-returned _ (poll_nil later_poll s) (ground arith)
  later_poll-Moves (t ∷ ts) s h filled =
      let (e, u, polled, p) = returns (
        poll_target-Moves o doc down probes spec username password node later_poll t s h.0
          filled) in
      let (errors, v, rest, q) =
        returns (later_poll-Moves ts u h.1 (λ on. p.1.payload ∙ filled on)) in
      Ensures-returned _ (poll_cons later_poll t ts s polled rest) (ground arith)

  -- After a later poll a target of the scan is listed as affected exactly if it cannot be reached;
  -- what is not a target stays as it was, and no entry is doubled. The poll reports the hosts of
  -- the unreachable targets in order, and leaves the conditions and the poll time alone.
  pub later_poll_lem :
      (ts : List String) (s : Session PortScanStatus)
      → AllPorts ts
      → IsFilled spec s
      → Distinct s.status.affected_targets
      → Ensures
          (λ errors t.
            (errors ≡ unreachable down ts)
            × ((v : String)
                → mem v t.status.affected_targets
                  ≡ (if mem v ts then down v else mem v s.status.affected_targets))
            × Distinct t.status.affected_targets
            × (t.status.last_poll_time ≡ s.status.last_poll_time)
            × (t.status.conditions ≡ s.status.conditions))
          (poll_targets o spec username password node later_poll ts s)
  later_poll_lem ts s h filled d =
      let (errors, t, done, p) = returns (later_poll-Moves ts s h filled) in
      let xs = s.status.affected_targets in
      Ensures-returned _ done (
        p.0,
        (λ v. ap (mem v) p.1.affected ∙ mem-after down v xs ts d),
        subst Distinct (sym p.1.affected) (after-Distinct down xs ts d),
        p.1.polled,
        p.1.conditions,
      )

  settled-Distinct :
      (t : String) (b : Bool) (xs : List String)
      → Distinct xs
      → Distinct (if down t then add t xs else settled t first_poll b xs)
  settled-Distinct t b xs d = ground (arith, add-Distinct t xs d, remove-Distinct t xs d)

  Grows-cons :
      (t : String) (b : Bool) (xs ys ts : List String) (v : String)
      → Distinct xs
      → ys ≡ (if down t then add t xs else settled t first_poll b xs)
      → (new : Bool) → Grows down ts v (mem v ys) new
      → Grows down (t ∷ ts) v (mem v xs) new
  Grows-cons t b xs ys ts v d e new g =
      ground (arith, ap (mem v) e, mem-add v t xs, mem-remove t v xs d, eq_iff t v, eq_iff v t)

  -- After the first poll every unreachable target is listed, nothing else is added, what is not a
  -- target stays as it was, and no entry is doubled. The poll reports the hosts of the unreachable
  -- targets in order, and leaves the conditions and the poll time alone.
  pub first_poll_lem :
      (ts : List String) (s : Session PortScanStatus)
      → AllPorts ts
      → IsFilled spec s
      → Distinct s.status.affected_targets
      → Ensures
          (λ errors t.
            (errors ≡ unreachable down ts)
            × Grown down ts s.status.affected_targets t.status.affected_targets
            × (t.status.last_poll_time ≡ s.status.last_poll_time)
            × (t.status.conditions ≡ s.status.conditions))
          (poll_targets o spec username password node first_poll ts s)
  first_poll_lem [] s h filled d =
      Ensures-returned _ (poll_nil first_poll s) (refl, ((λ v. ground arith), d), refl, refl)
  first_poll_lem (t ∷ ts) s h filled d =
      let (e, u, polled, p) = returns (
        poll_target-Moves o doc down probes spec username password node first_poll t s h.0
          filled) in
      let xs = s.status.affected_targets in
      let b = is_missing (mail_file (host_of t) (port_of t)) s.world in
      let d' = subst Distinct (sym p.1.affected) (settled-Distinct t b xs d) in
      let (errors, w, rest, q) =
        returns (first_poll_lem ts u h.1 (λ on. p.1.payload ∙ filled on) d') in
      Ensures-returned _ (poll_cons first_poll t ts s polled rest) (
        ground arith,
        ((λ v. Grows-cons t b xs _ ts v d p.1.affected _ (q.1.0 v)), q.1.1),
        q.2 ∙ p.1.polled,
        q.3 ∙ p.1.conditions,
      )
