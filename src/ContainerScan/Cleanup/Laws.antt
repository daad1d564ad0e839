-- ===== src/ContainerScan/Cleanup/Laws.antt =====
-- What the loop over the affected pods leaves.
use monitoring_wo_webhooks.Prelude.{
  ap, Bool, not, Option-cases, ℕ, zero, suc, ◌+◌, ◌≡◌, ◌≢◌, refl, ◌∙◌, String, true, none, List, [],
  ◌∷◌, arith, if◌then◌else◌, mem, Distinct, eq_iff, length, get_elem?, Bool-cases, inl, inr,
}
use monitoring_wo_webhooks.Prelude.Text.{contains}
use monitoring_wo_webhooks.Runtime.{Outside, World, Session, remove_file}
use monitoring_wo_webhooks.Runtime.Laws.{Ensures, Ensures-returned, returns, IsDocumented}
use monitoring_wo_webhooks.Alerts.Mails.{commands, commands-remove_file}
use monitoring_wo_webhooks.Slices.Laws.{remove, mem-remove, remove-Distinct, delete_listed_lem}
use monitoring_wo_webhooks.ContainerScan.Types.{ContainerScanSpec, ContainerScanStatus, PodApi}
use monitoring_wo_webhooks.ContainerScan.Cleanup.{
  returned, some, false, Option, pod_key, pod_of, mail_file, ext_file, overlay, remove_named,
  remove_pair, remove_stale, check_affected, visit, cleanup,
}

-- What neither this loop nor `remoteFiles` changes.
pub record Tidied (s t : Session ContainerScanStatus) : Type 0 where
  pub incidents : t.status.incident_id ≡ s.status.incident_id
  pub polled : t.status.last_run_time ≡ s.status.last_run_time
  pub notified : t.status.external_notified ≡ s.status.external_notified
  pub notified_time : t.status.external_notified_time ≡ s.status.external_notified_time
  pub conditions : t.status.conditions ≡ s.status.conditions
  pub payload : t.payload ≡ s.payload
  pub mails : commands t.world.log ≡ commands s.world.log

Tidied-same : (s : Session ContainerScanStatus) → Tidied s s
Tidied-same s = ground arith

pub Tidied-trans : (s t u : Session ContainerScanStatus) → Tidied s t → Tidied t u → Tidied s u
Tidied-trans s t u p q = ground arith

-- An entry is no pod of the namespace that cannot be fetched.
abbrev pub IsThere : PodApi → String → String → Type 0
IsThere api ns v = (p : String) → api.pod_fails ns p ≡ true → v ≢ pod_key p ns

-- Only entries of pods that cannot be fetched go, and nothing comes.
pub record Cleaned (api : PodApi) (ns : String) (s t : Session ContainerScanStatus) : Type 0 where
  pub tidied : Tidied s t
  pub distinct : Distinct t.status.affected_pods
  pub fewer :
      (v : String) → mem v t.status.affected_pods ≡ true → mem v s.status.affected_pods ≡ true
  pub kept :
      (v : String) → IsThere api ns v → mem v t.status.affected_pods ≡ mem v s.status.affected_pods

Cleaned-same :
    (api : PodApi) (ns : String) (s : Session ContainerScanStatus)
    → Distinct s.status.affected_pods
    → Cleaned api ns s s
Cleaned-same api ns s d = record {
  tidied = Tidied-same s;
  distinct = d;
  fewer = λ v h. h;
  kept = λ v h. refl;
}

-- The first entry whose pod cannot be fetched.
abbrev pub first_gone : PodApi → String → List String → Option String
first_gone api ns [] = none
first_gone api ns (x ∷ xs) = if api.pod_fails ns (pod_of x) then some x else first_gone api ns xs

-- The pod of that entry, where there is one, is not listed for the namespace.
abbrev pub is_unlisted : String → Option String → List String → Bool
is_unlisted ns none listed = true
is_unlisted ns (some x) listed = not (mem (pod_key (pod_of x) ns) listed)

abbrev pub FirstGone : PodApi → String → List String → Session ContainerScanStatus → Type 0
FirstGone api ns xs t = is_unlisted ns (first_gone api ns xs) t.status.affected_pods ≡ true

overlay-same : (xs : List String) → overlay xs xs ≡ xs
unfolding overlay
overlay-same [] = refl
overlay-same (x ∷ xs) = ap (λ l. x ∷ l) (overlay-same xs)

Cleaned-trans :
    (api : PodApi) (ns : String) (s t u : Session ContainerScanStatus)
    → Cleaned api ns s t
    → Cleaned api ns t u
    → Cleaned api ns s u
Cleaned-trans api ns s t u p q = record {
  tidied = Tidied-trans s t u p.tidied q.tidied;
  distinct = q.distinct;
  fewer = λ v h. p.fewer v (q.fewer v h);
  kept = λ v h. q.kept v h ∙ p.kept v h;
}

module _ (o : Outside) (spec : ContainerScanSpec) (ns : String) where
  commands-remove_named :
      (pod : String) (files : List String) (w : World)
      → commands (remove_named o spec ns pod files w).log ≡ commands w.log
  unfolding remove_named
  commands-remove_named pod [] w = refl
  commands-remove_named pod (file ∷ files) w =
      commands-remove_named pod files (if contains file pod then remove_file o file w else w)
      ∙ (ground (arith, commands-remove_file o file w))

  pub commands-remove_pair :
      (kind pod : String) (w : World)
      → commands (remove_pair o spec ns kind pod w).log ≡ commands w.log
  unfolding remove_pair
  commands-remove_pair kind pod w =
      commands-remove_file o (mail_file kind pod ns) (remove_file o (ext_file kind pod ns) w)
      ∙ commands-remove_file o (ext_file kind pod ns) w

  commands-remove_stale :
      (api : PodApi) (pod : String) (w : World)
      → commands (remove_stale o spec ns api pod w).log ≡ commands w.log
  unfolding remove_stale
  commands-remove_stale api pod w =
      ground
        (arith, commands-remove_pair "pod" pod w, commands-remove_named pod (api.directory w) w)

  module _ (doc : IsDocumented o) (api : PodApi) where
    check_affected-Cleaned :
        (entry : String) (s : Session ContainerScanStatus)
        → Distinct s.status.affected_pods
        → Ensures (λ _ t. Cleaned api ns s t) (check_affected o spec ns api entry s)
    unfolding check_affected
    check_affected-Cleaned entry s d = elim (Bool-cases (api.pod_fails ns (pod_of entry))) [
      | inr here ↦ rw here (unfold Ensures in Cleaned-same api ns s d)
      | inl gone ↦
          let pod = pod_of entry in
          let xs = s.status.affected_pods in
          let key = pod_key pod ns in
          let t = record s {
            world = remove_stale o spec ns api pod s.world;
            status = record (s.status) { affected_pods = remove key xs };
          } in
          rw gone (
            Ensures-returned _ {a = tt} {s = t} (ground (arith, delete_listed_lem o doc xs key s))
              (record {
                tidied = ground (arith, commands-remove_stale api pod s.world);
                distinct = remove-Distinct key xs d;
                fewer = λ v h. ground (arith, mem-remove key v xs d);
                kept = λ v h. ground (arith, mem-remove key v xs d, eq_iff v key, h pod gone);
              }))
    ]

    visit-Cleaned :
        (n i : ℕ) (array : List String) (s : Session ContainerScanStatus)
        → Distinct s.status.affected_pods
        → Ensures (λ _ t. Cleaned api ns s t) (visit o spec ns api n i array s)
    unfolding visit
    visit-Cleaned zero i array s d = unfold Ensures in Cleaned-same api ns s d
    visit-Cleaned (suc n) i array s d = elim (Option-cases (get_elem? array i)) [
      | inl out ↦ Ensures-returned _ {a = tt} {s = s} (ground arith) (Cleaned-same api ns s d)
      | inr (entry, found) ↦
          let (_, t, checked, p) = returns (check_affected-Cleaned entry s d) in
          let (_, u, end, q) =
            returns (visit-Cleaned n (i + 1) (overlay t.status.affected_pods array) t p.distinct) in
          Ensures-returned _ {a = tt} {s = u} (ground arith) (Cleaned-trans api ns s t u p q)
    ]

    check_affected-there :
        (entry : String) (s : Session ContainerScanStatus)
        → api.pod_fails ns (pod_of entry) ≡ false
        → check_affected o spec ns api entry s ≡ returned tt s
    unfolding check_affected
    check_affected-there entry s here = ground arith

    -- A pod that is gone is unlisted in its round.
    check_affected-gone :
        (entry : String) (s t : Session ContainerScanStatus)
        → Distinct s.status.affected_pods
        → api.pod_fails ns (pod_of entry) ≡ true
        → check_affected o spec ns api entry s ≡ returned tt t
        → mem (pod_key (pod_of entry) ns) t.status.affected_pods ≡ false
    unfolding check_affected
    check_affected-gone entry s t d gone run =
        let xs = s.status.affected_pods in
        let key = pod_key (pod_of entry) ns in
        ground (arith, delete_listed_lem o doc xs key s, mem-remove key key xs d, eq_iff key key)

    -- The loop from a position on, where nothing was deleted before it.
    visit-FirstGone :
        (ys : List String) (i : ℕ) (s : Session ContainerScanStatus)
        → Distinct s.status.affected_pods
        → ((j : ℕ) → get_elem? s.status.affected_pods (i + j) ≡ get_elem? ys j)
        → Ensures
            (λ _ t. Cleaned api ns s t × FirstGone api ns ys t)
            (visit o spec ns api (length ys) i s.status.affected_pods s)
    unfolding visit
    visit-FirstGone [] i s d drops = unfold Ensures in (Cleaned-same api ns s d, refl)
    visit-FirstGone (y ∷ ys) i s d drops =
        let xs = s.status.affected_pods in
        let found : get_elem? xs i ≡ some y = ap (get_elem? xs) (omega arith) ∙ drops 0 in
        let (_, u, end, p) =
          returns (
            visit-FirstGone ys (i + 1) s d
              (λ j. ap (get_elem? xs) (omega arith) ∙ drops (suc j))) in
        let (_, t, checked, c) = returns (check_affected-Cleaned y s d) in
        let (_, v, ended, q) =
          returns
            (visit-Cleaned (length ys) (i + 1) (overlay t.status.affected_pods xs) t c.distinct) in
        elim (Bool-cases (api.pod_fails ns (pod_of y))) [
          | inr here ↦
              Ensures-returned _ {a = tt} {s = u}
                (ground (arith, check_affected-there y s here, overlay-same xs)) (p.0, ground arith)
          | inl gone ↦
              let key = pod_key (pod_of y) ns in
              Ensures-returned _ {a = tt} {s = v} (ground arith) (
                Cleaned-trans api ns s t v c q,
                ground (arith, check_affected-gone y s t d gone checked, q.fewer key),
              )
        ]

    -- Where the search in slices does what its documentation says and no pod is listed twice, the
    -- loop over the affected pods returns, whatever the deletions do to the array that it goes over.
    -- It adds no entry, keeps each entry that is not that of a pod of the namespace which cannot be
    -- fetched, unlists the pod of the first entry whose pod cannot be fetched, leaves no pod listed
    -- twice, and runs no command. The incidents, the conditions, the time of the last poll, the
    -- notification and its time, and the map of the notifications stay.
    pub cleanup-Cleaned :
        (s : Session ContainerScanStatus)
        → Distinct s.status.affected_pods
        → Ensures
            (λ _ t. Cleaned api ns s t × FirstGone api ns s.status.affected_pods t)
            (cleanup o spec ns api s)
    unfolding cleanup
    cleanup-Cleaned s d =
        visit-FirstGone s.status.affected_pods 0 s d
          (λ j. ap (get_elem? s.status.affected_pods) (omega arith))
