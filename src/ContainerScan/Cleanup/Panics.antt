-- ===== src/ContainerScan/Cleanup/Panics.antt =====
-- What `remoteFiles` of internal/controller/containerscan_controller.go leaves, and when it panics.
use monitoring_wo_webhooks.Prelude.{
  Option-cases, ◌≡◌, ◌⊎◌, ◌∙◌, refl, String, Bool, true, false, none, List, [], ◌∷◌, ◌&&◌, not,
  is_some, arith, inl, inr,
}
use monitoring_wo_webhooks.Runtime.{
  Outside, Fallible, ok, err, Session, Outcome, returned, panicked,
}
use monitoring_wo_webhooks.Runtime.Laws.{Ensures-returned, Ensures, returns}
use monitoring_wo_webhooks.ContainerScan.Types.{ContainerScanSpec, ContainerScanStatus, Pod, PodApi}
use monitoring_wo_webhooks.ContainerScan.Cleanup.{
  pure, M, remove_container, remove_containers, remove_pods, remote_files,
}
use monitoring_wo_webhooks.ContainerScan.Cleanup.Laws.{Tidied, Tidied-trans, commands-remove_pair}

abbrev pub panics : {St A : Type 0} → Outcome St A → Bool
panics (returned a s) = false
panics (panicked s) = true

-- Whether a pod of a list has a container.
abbrev pub has_containers : List Pod → Bool
has_containers [] = false
has_containers (pod ∷ pods) = elim pod.containers [ [] ↦ has_containers pods | c ∷ cs ↦ true ]

-- Whether the API server lists a pod with a container.
abbrev pub lists_containers : Fallible (List Pod) → Bool
lists_containers (err e) = false
lists_containers (ok pods) = has_containers pods

listed : (cs : List String) → (cs ≡ []) ⊎ ((c : String) × (rest : List String) × (cs ≡ c ∷ rest))
listed [] = inl refl
listed (c ∷ cs) = inr (c, cs, refl)

module _ (o : Outside) (spec : ContainerScanSpec) (ns : String) where
  -- `remoteFiles`, with the flag that it reads through the pointer.
  module _ (set : is_some spec.aggregate_alerts ≡ true) where
    remove_container-Tidied :
        (pod container : String) (s : Session ContainerScanStatus)
        → Ensures
            (λ _ t. Tidied s t × (t.status ≡ s.status))
            (remove_container o spec ns pod container s)
    unfolding remove_container Ensures
    remove_container-Tidied pod container s = ground (
      arith,
      commands-remove_pair o spec ns "pod" pod s.world,
      commands-remove_pair o spec ns container pod s.world,
    )

    remove_containers-Tidied :
        (pod : String) (cs : List String) (s : Session ContainerScanStatus)
        → Ensures (λ _ t. Tidied s t × (t.status ≡ s.status)) (remove_containers o spec ns pod cs s)
    unfolding remove_containers
    remove_containers-Tidied pod [] s = unfold Ensures in ground arith
    remove_containers-Tidied pod (c ∷ cs) s =
        let (_, t, gone, p) = returns (remove_container-Tidied pod c s) in
        let (_, u, end, q) = returns (remove_containers-Tidied pod cs t) in
        Ensures-returned _ {a = tt} {s = u} (ground arith) (Tidied-trans s t u p.0 q.0, q.1 ∙ p.1)

    remove_pods-Tidied :
        (pods : List Pod) (s : Session ContainerScanStatus)
        → Ensures (λ _ t. Tidied s t × (t.status ≡ s.status)) (remove_pods o spec ns pods s)
    unfolding remove_pods
    remove_pods-Tidied [] s = unfold Ensures in ground arith
    remove_pods-Tidied (pod ∷ pods) s =
        let (_, t, gone, p) = returns (remove_containers-Tidied pod.name pod.containers s) in
        let (_, u, end, q) = returns (remove_pods-Tidied pods t) in
        Ensures-returned _ {a = tt} {s = u} (ground arith) (Tidied-trans s t u p.0 q.0, q.1 ∙ p.1)

    pub remote_files-Tidied :
        (api : PodApi) (s : Session ContainerScanStatus)
        → Ensures (λ _ t. Tidied s t × (t.status ≡ s.status)) (remote_files o spec ns api s)
    unfolding remote_files
    remote_files-Tidied api s = by (api.pods_afterwards ns)
      where
        by :
            (r : Fallible (List Pod))
            → Ensures
                (λ _ t. Tidied s t × (t.status ≡ s.status))
                ((elim r as (λ _. M ContainerScanStatus (Unit {0})) [
                  | err e ↦ pure tt
                  | ok pods ↦ remove_pods o spec ns pods
                ])
                  s)
        by (err e) = unfold Ensures in ground arith
        by (ok pods) = remove_pods-Tidied pods s

  module _ (unset : spec.aggregate_alerts ≡ none) where
    remove_containers_unset :
        (pod c : String) (cs : List String) (s : Session ContainerScanStatus)
        → remove_containers o spec ns pod (c ∷ cs) s ≡ panicked s
    unfolding remove_containers remove_container
    remove_containers_unset pod c cs s = ground arith

    remove_pods_unset :
        (pods : List Pod) (s : Session ContainerScanStatus)
        → panics (remove_pods o spec ns pods s) ≡ has_containers pods
    unfolding remove_pods remove_containers
    remove_pods_unset [] s = refl
    remove_pods_unset (pod ∷ pods) s = elim (listed pod.containers) [
      | inl h ↦ rw h (remove_pods_unset pods s)
      | inr (c, cs, h) ↦ rw h (ground (arith, remove_containers_unset pod.name c cs s))
    ]

    remote_files_unset :
        (api : PodApi) (r : Fallible (List Pod)) (s : Session ContainerScanStatus)
        → api.pods_afterwards ns ≡ r
        → panics (remote_files o spec ns api s) ≡ lists_containers r
    unfolding remote_files
    remote_files_unset api (err e) s h = ground arith
    remote_files_unset api (ok pods) s h = ground (arith, remove_pods_unset pods s)

  -- `remoteFiles` panics exactly if `aggregateAlerts` is nil and the API server lists, for the
  -- namespace, a pod that has a container: in every other case it returns, whatever the files are.
  pub remote_files-Panics :
      (api : PodApi) (s : Session ContainerScanStatus)
      → panics (remote_files o spec ns api s)
        ≡ (not (is_some spec.aggregate_alerts) && lists_containers (api.pods_afterwards ns))
  remote_files-Panics api s = elim (Option-cases spec.aggregate_alerts) [
    | inl unset ↦ ground (arith, remote_files_unset unset api (api.pods_afterwards ns) s refl)
    | inr (flag, set) ↦
        let (_, t, end, p) = returns (remote_files-Tidied (ground arith) api s) in ground arith
  ]
