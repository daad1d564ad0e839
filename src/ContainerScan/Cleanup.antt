-- ===== src/ContainerScan/Cleanup.antt =====
-- The loop over the affected pods that looks for pods that are gone, and `remoteFiles`, of
-- internal/controller/containerscan_controller.go.
pub mod Laws
pub mod Panics
use monitoring_wo_webhooks.Prelude.{
  ℕ, zero, suc, ◌+◌, String, ◌<>◌, Bool, true, false, Option, none, some, List, [], ◌∷◌,
  if◌then◌else◌, is_set, length, get_or, get_elem?,
}
use monitoring_wo_webhooks.Prelude.Text.{contains, split_n}
use monitoring_wo_webhooks.Runtime.{
  Outside, World, Fallible, ok, err, M, returned, panicked, panic, pure, ◌>>=◌, ◌>>◌, act, look,
  modify, get_status, remove_file,
}
use monitoring_wo_webhooks.Slices.{delete_listed}
use monitoring_wo_webhooks.ContainerScan.Types.{ContainerScanSpec, ContainerScanStatus, Pod, PodApi}

-- The entry of a pod in the list of affected pods.
abbrev pub pod_key : String → String → String
pod_key pod ns = pod <> (":ns:" <> ns)

-- `strings.SplitN(p, ":ns:", 2)[0]`
abbrev pub pod_of : String → String
pod_of entry = get_or (split_n entry ":ns:") 0 ""

unfoldable pub mail_file : String → String → String → String
mail_file kind pod ns =
    "/home/golanguser/files/container/" <> (kind <> ("-" <> (pod <> ("-" <> (ns <> ".txt")))))

unfoldable pub ext_file : String → String → String → String
ext_file kind pod ns =
    "/home/golanguser/files/container/" <> (kind <> ("-" <> (pod <> ("-" <> (ns <> "-ext.txt")))))

-- An array after the slice at its front was written.
unfoldable pub overlay : List String → List String → List String
overlay [] array = array
overlay (x ∷ xs) [] = x ∷ xs
overlay (x ∷ xs) (a ∷ array) = x ∷ overlay xs array

module _ (o : Outside) (spec : ContainerScanSpec) (ns : String) where
  -- The files are removed by their names alone, without the directory.
  unfoldable pub remove_named : String → List String → World → World
  remove_named pod [] w = w
  remove_named pod (file ∷ files) w =
      remove_named pod files (if contains file pod then remove_file o file w else w)

  unfoldable pub remove_pair : String → String → World → World
  remove_pair kind pod w =
      remove_file o (mail_file kind pod ns) (remove_file o (ext_file kind pod ns) w)

  unfoldable pub remove_stale : PodApi → String → World → World
  unfolding remove_named remove_pair
  remove_stale api pod w =
      if is_set spec.aggregate_alerts
      then remove_pair "pod" pod w
      else remove_named pod (api.directory w) w

  -- One round: a pod that cannot be fetched is unlisted, and its files are removed.
  unfoldable pub check_affected : PodApi → String → M ContainerScanStatus (Unit {0})
  unfolding remove_stale
  check_affected api entry =
      if api.pod_fails ns (pod_of entry)
      then (do
        st ← get_status
        pods ← delete_listed o st.affected_pods (pod_key (pod_of entry) ns)
        modify (λ st. record st { affected_pods = pods })
        act (remove_stale api (pod_of entry)))
      else pure tt

  -- `range` goes over the array that the slice had at first, by position. A deletion moves the
  -- entries behind it to the front in that array.
  unfoldable pub visit : PodApi → ℕ → ℕ → List String → M ContainerScanStatus (Unit {0})
  unfolding check_affected overlay
  visit api zero i array = pure tt
  visit api (suc n) i array =
      let rest : List String → M ContainerScanStatus (Unit {0}) = λ a. visit api n (i + 1) a in
      elim (get_elem? array i) [
        | none ↦ pure tt
        | some entry ↦ do
          check_affected api entry
          st ← get_status
          rest (overlay st.affected_pods array)
      ]

  unfoldable pub cleanup : PodApi → M ContainerScanStatus (Unit {0})
  unfolding visit
  cleanup api = do st ← get_status; visit api (length st.affected_pods) 0 st.affected_pods

  -- The loop of `remoteFiles` over the containers of a pod, which reads through
  -- `spec.AggregateAlerts`.
  unfoldable pub remove_container : String → String → M ContainerScanStatus (Unit {0})
  unfolding remove_pair
  remove_container pod container = elim spec.aggregate_alerts [
    | none ↦ panic
    | some true ↦ act (remove_pair "pod" pod)
    | some false ↦ act (remove_pair container pod)
  ]

  unfoldable pub remove_containers : String → List String → M ContainerScanStatus (Unit {0})
  unfolding remove_container
  remove_containers pod [] = pure tt
  remove_containers pod (c ∷ cs) =
      let rest = remove_containers pod cs in remove_container pod c >> rest

  unfoldable pub remove_pods : List Pod → M ContainerScanStatus (Unit {0})
  unfolding remove_containers
  remove_pods [] = pure tt
  remove_pods (pod ∷ pods) =
      let rest = remove_pods pods in remove_containers pod.name pod.containers >> rest

  -- Its error is only logged.
  unfoldable pub remote_files : PodApi → M ContainerScanStatus (Unit {0})
  unfolding remove_pods
  remote_files api = elim (api.pods_afterwards ns) [ err e ↦ pure tt | ok pods ↦ remove_pods pods ]
