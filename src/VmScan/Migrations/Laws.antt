-- ===== src/VmScan/Migrations/Laws.antt =====
-- What a pass over the migrations leaves in the list of the status.
use monitoring_wo_webhooks.Prelude.{
  ◌≡◌, ◌∙◌, ap, String, Bool, not, ◌&&◌, none, some, List, [], ◌∷◌, ◌==◌, arith, if◌then◌else◌, mem,
  Distinct, eq_iff,
}
use monitoring_wo_webhooks.Runtime.{Outside, Session}
use monitoring_wo_webhooks.Runtime.Laws.{Ensures, Ensures-returned, returns, IsDocumented}
use monitoring_wo_webhooks.Slices.Laws.{
  delete_listed_lem, mem-remove, remove-Distinct, mem-append_absent, append_absent-Distinct,
}
use monitoring_wo_webhooks.VmScan.Types.{VmScanStatus, Vmi, VmApi}
use monitoring_wo_webhooks.VmScan.Migrations.{
  is_controller, entry, listed, note_migration, note_migrations, check_migrations,
}

-- What one instance says of an entry: nothing, or whether its migration runs.
abbrev pub said : String → String → Vmi → Bool → Bool
said v ns vm before =
    if is_controller vm.name && entry vm.name ns == v
    then elim vm.migration [ none ↦ before | some done ↦ not done ]
    else before

-- The last instance that says something of the entry decides.
abbrev pub said_all : String → String → List Vmi → Bool → Bool
said_all v ns [] before = before
said_all v ns (vm ∷ vms) before = said_all v ns vms (said v ns vm before)

abbrev pub running : VmApi → List String → String → Bool → Bool
running api [] v before = before
running api (ns ∷ namespaces) v before =
    running api namespaces v (said_all v ns (listed (api.migrating ns)) before)

-- What moves, by a function on whether an entry is listed, and what stays.
pub record Migrated (f : String → Bool → Bool) (s t : Session VmScanStatus) : Type 0 where
  pub entries : (v : String) → mem v t.status.migrations ≡ f v (mem v s.status.migrations)
  pub distinct : Distinct t.status.migrations
  pub affected : t.status.affected_targets ≡ s.status.affected_targets
  pub polled : t.status.last_poll_time ≡ s.status.last_poll_time
  pub conditions : t.status.conditions ≡ s.status.conditions
  pub incidents : t.status.incident_id ≡ s.status.incident_id
  pub notified : t.status.external_notified ≡ s.status.external_notified
  pub notified_time : t.status.external_notified_time ≡ s.status.external_notified_time
  pub payload : t.payload ≡ s.payload
  pub world : t.world ≡ s.world

Migrated-trans :
    (f g : String → Bool → Bool) (s t u : Session VmScanStatus)
    → Migrated f s t
    → Migrated g t u
    → Migrated (λ v b. g v (f v b)) s u
Migrated-trans f g s t u p q = record {
  entries = λ v. q.entries v ∙ ap (g v) (p.entries v);
  distinct = q.distinct;
  affected = q.affected ∙ p.affected;
  polled = q.polled ∙ p.polled;
  conditions = q.conditions ∙ p.conditions;
  incidents = q.incidents ∙ p.incidents;
  notified = q.notified ∙ p.notified;
  notified_time = q.notified_time ∙ p.notified_time;
  payload = q.payload ∙ p.payload;
  world = q.world ∙ p.world;
}

module _ (o : Outside) (doc : IsDocumented o) where
  note_migration-Migrated :
      (ns : String) (vm : Vmi) (s : Session VmScanStatus)
      → Distinct s.status.migrations
      → Ensures (λ _ t. Migrated (λ v. said v ns vm) s t) (note_migration o ns vm s)
  unfolding note_migration Ensures
  note_migration-Migrated ns vm s d =
      let xs = s.status.migrations in
      let e = entry vm.name ns in
      ground (
        arith,
        delete_listed_lem o doc xs e s,
        (λ (v : String). mem-append_absent o doc xs e v),
        append_absent-Distinct o doc xs e d,
        (λ (v : String). mem-remove e v xs d),
        remove-Distinct e xs d,
        (λ (v : String). eq_iff e v),
        (λ (v : String). eq_iff v e),
      )

  note_migrations-Migrated :
      (ns : String) (vms : List Vmi) (s : Session VmScanStatus)
      → Distinct s.status.migrations
      → Ensures (λ _ t. Migrated (λ v. said_all v ns vms) s t) (note_migrations o ns vms s)
  unfolding note_migrations
  note_migrations-Migrated ns [] s d = unfold Ensures in ground arith
  note_migrations-Migrated ns (vm ∷ vms) s d =
      let (_, t, noted, p) = returns (note_migration-Migrated ns vm s d) in
      let (_, u, end, q) = returns (note_migrations-Migrated ns vms t p.distinct) in
      Ensures-returned _ {a = tt} {s = u} (ground arith)
        (Migrated-trans (λ v. said v ns vm) (λ v. said_all v ns vms) s t u p q)

  -- On a list of migrations without doubles, where the search in slices does what its
  -- documentation says, a pass over the migrations returns and does
  -- nothing outside. It leaves every other field of the status and the notification data as they
  -- were, and keeps the list without doubles.
  -- An entry is in it exactly if the last controller instance of that name with a migration is
  -- still migrating, or there is no such instance and it was in it.
  pub check_migrations-Migrated :
      (api : VmApi) (namespaces : List String) (s : Session VmScanStatus)
      → Distinct s.status.migrations
      → Ensures (λ _ t. Migrated (running api namespaces) s t) (check_migrations o api namespaces s)
  unfolding check_migrations
  check_migrations-Migrated api [] s d = unfold Ensures in ground arith
  check_migrations-Migrated api (ns ∷ namespaces) s d =
      let vms = listed (api.migrating ns) in
      let (_, t, noted, p) = returns (note_migrations-Migrated ns vms s d) in
      let (_, u, end, q) = returns (check_migrations-Migrated api namespaces t p.distinct) in
      Ensures-returned _ {a = tt} {s = u} (ground arith)
        (Migrated-trans (λ v. said_all v ns vms) (running api namespaces) s t u p q)
