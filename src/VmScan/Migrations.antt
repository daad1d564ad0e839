-- ===== src/VmScan/Migrations.antt =====
-- The loops over the migrations in `Reconcile` of internal/controller/vmscan_controller.go.
pub mod Laws
use monitoring_wo_webhooks.Prelude.{
  String, ◌<>◌, Bool, true, false, not, ◌&&◌, Option, none, some, List, [], ◌∷◌, ◌++◌, ◌==◌,
  if◌then◌else◌,
}
use monitoring_wo_webhooks.Prelude.Text.{contains}
use monitoring_wo_webhooks.Runtime.{
  Outside, Fallible, ok, err, M, returned, pure, ◌>>=◌, ◌>>◌, get_status, modify,
}
use monitoring_wo_webhooks.Slices.{append_absent, delete_listed}
use monitoring_wo_webhooks.VmScan.Types.{VmScanStatus, Vmi, VmApi}

-- The instances that the scan looks at.
unfoldable pub is_controller : String → Bool
unfolding contains
is_controller name = not (name == "") && contains name "controller"

abbrev pub entry : String → String → String
entry name ns = name <> (":" <> ns)

module _ (o : Outside) (ns : String) where
  -- One instance: a migration that runs is listed, one that is completed is not.
  unfoldable pub note_migration : Vmi → M VmScanStatus (Unit {0})
  unfolding is_controller
  note_migration vm =
      if is_controller vm.name
      then elim vm.migration [
        | none ↦ pure tt
        | some false ↦
            modify
              (λ st. record st { migrations = append_absent o st.migrations (entry vm.name ns) })
        | some true ↦ do
          st ← get_status
          migrations ← delete_listed o st.migrations (entry vm.name ns)
          modify (λ st. record st { migrations = migrations })
      ]
      else pure tt

  unfoldable pub note_migrations : List Vmi → M VmScanStatus (Unit {0})
  unfolding note_migration
  note_migrations [] = pure tt
  note_migrations (vm ∷ vms) = let rest = note_migrations vms in note_migration vm >> rest

-- A namespace whose instances cannot be listed is passed over.
abbrev pub listed : Fallible (List Vmi) → List Vmi
listed (ok vms) = vms
listed (err e) = []

unfoldable pub check_migrations : Outside → VmApi → List String → M VmScanStatus (Unit {0})
unfolding note_migrations
check_migrations o api [] = pure tt
check_migrations o api (ns ∷ namespaces) =
    let rest = check_migrations o api namespaces in
    note_migrations o ns (listed (api.migrating ns)) >> rest
