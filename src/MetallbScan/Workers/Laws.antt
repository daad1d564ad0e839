-- ===== src/MetallbScan/Workers/Laws.antt =====
-- What a look at all workers and at all routes leaves alone, whether it returns or panics.
use monitoring_wo_webhooks.Prelude.{
  ℕ, ◌≢◌, String, ◌<>◌, Bool, true, false, List, [], ◌∷◌, arith, Distinct, Bool-cases, inl, inr,
  mem, is_set, is_unset, if◌then◌else◌,
}
use monitoring_wo_webhooks.Prelude.Text.{split}
use monitoring_wo_webhooks.Prelude.Int.{is_zero}
use monitoring_wo_webhooks.Runtime.{
  Outside, World, Session, Fallible, ok, err, M, pure, ◌>>◌, remove_file,
}
use monitoring_wo_webhooks.Runtime.Laws.{IsDocumented}
use monitoring_wo_webhooks.Runtime.Always.{
  Always, Always-returned, bind-Always, pure-Always, at-Always, if-Always, fallible-Always,
  option-Always,
}
use monitoring_wo_webhooks.Slices.Laws.{remove, delete_listed_lem}
use monitoring_wo_webhooks.MetallbScan.Types.{MetallbScanSpec, MetallbScanStatus}
use monitoring_wo_webhooks.MetallbScan.Util.{send_email_recovered_alert}
use monitoring_wo_webhooks.MetallbScan.Services.{get_pods_from_node}
use monitoring_wo_webhooks.MetallbScan.Speakers.{
  list_and_mail, SpeakerApi, BgpHop, check_speaker_daemonset, file, alert_file, gone, no_hops,
  not_running, open_output, write_output,
}
use monitoring_wo_webhooks.MetallbScan.Speakers.Laws.{
  Untouched, Untouched-same, IsOwn, Untouched-world, Untouched-unlisted, mail_and_list-Untouched,
  list_and_mail-Untouched, recover-Untouched,
}
use monitoring_wo_webhooks.MetallbScan.Workers.{
  pure, neighbor_command, miss_speaker, find_speaker, check_hop, check_hops, miss_hops, find_hops,
  ask_speaker, check_worker, check_workers, check_bgp_hop_workers,
}
use monitoring_wo_webhooks.MetallbScan.Workers.Files.{
  retrieve_bgp_hop-Always, check_bgp_hop_status-Always,
}

-- A check that is not about the speaker pods or the hops of a node.
abbrev pub IsOther : String → String → Type 0
IsOther ns v =
    ((node : String) → v ≢ gone node ns)
    × ((node : String) → v ≢ not_running node ns)
    × ((pod node : String) → v ≢ no_hops pod node)

module _ (o : Outside) (doc : IsDocumented o) (api : SpeakerApi) (ns : String)
    (spec : MetallbScanSpec) (s : Session MetallbScanStatus) where
  abbrev pub Same : Session MetallbScanStatus → Type 0
  Same t = Untouched (IsOther ns) s t

  pub world-Same :
      (w : World) (t : Session MetallbScanStatus) → Same t → Same (record t { world = w })
  world-Same w t p = Untouched-world w t p

  gone-IsOwn : (node : String) → IsOwn (IsOther ns) (gone node ns)
  gone-IsOwn node v h = h.0 node

  pub not_running-IsOwn : (node : String) → IsOwn (IsOther ns) (not_running node ns)
  not_running-IsOwn node v h = h.1 node

  no_hops-IsOwn : (pod node : String) → IsOwn (IsOther ns) (no_hops pod node)
  no_hops-IsOwn pod node v h = h.2 pod node

  module _ (host : String) where
    miss_speaker-Same :
        (node : String) (t : Session MetallbScanStatus)
        → Same t
        → Always Same (miss_speaker o api ns spec host node t)
    unfolding miss_speaker
    miss_speaker-Same node t p =
        fallible-Always Same (check_speaker_daemonset api.daemon_sets) _ _ t
          (λ e. pure-Always Same _ t p) (λ b. by b)
      where
        by :
            (b : Bool)
            → Always Same (
                (elim b as (λ _. M MetallbScanStatus (Unit {0})) [
                  | true ↦ pure tt
                  | false ↦
                      list_and_mail o api ns spec host
                        (alert_file node "nospeaker")
                        (gone node ns)
                        ("no speaker pod is found in status in node "
                          <> (node <> (" in namespace " <> ns)))
                ])
                  t)
        by true = pure-Always Same _ t p
        by false = list_and_mail-Untouched o doc api ns spec host _ _ _ t p (gone-IsOwn node)

    find_speaker-Same :
        (node : String) (t : Session MetallbScanStatus)
        → Same t
        → Always Same (find_speaker o api ns spec host node t)
    unfolding find_speaker
    find_speaker-Same node t p =
        let xs = t.status.failed_checks in
        let check = gone node ns in
        let u = record t { status = record (t.status) { failed_checks = remove check xs } } in
        let w =
          if is_unset spec.suspend_email_alert
          then send_email_recovered_alert o host (file (node <> ".nospeaker.txt")) spec
              ("speaker pod is found in node " <> (node <> (" in namespace " <> ns))) t.world
          else t.world in
        elim (Bool-cases (mem check xs)) [
          | inr absent ↦
              Always-returned _ {a = tt} {s = t} (ground (arith, doc.contains_lem xs check)) p
          | inl listed ↦
              Always-returned _ {a = tt}
                {s = record u { world = remove_file o (alert_file node "nospeaker") w }}
                (ground (arith, doc.contains_lem xs check, delete_listed_lem o doc xs check t))
                (Untouched-unlisted (remove_file o (alert_file node "nospeaker") w) check t p
                  (gone-IsOwn node))
        ]

    check_hop-Same :
        (node pod hop : String) (hops : List BgpHop) (t : Session MetallbScanStatus)
        → Same t
        → Always Same (check_hop o api ns spec host node pod hop hops t)
    unfolding check_hop
    check_hop-Same node pod hop hops t p =
        let output = file (pod <> "-bgphoproute.txt") in
        let fields = split b':' hop in
        bind-Always Same _ _ (at-Always Same fields 0 t p) (λ ip u q.
          let opened = open_output o api output u.world in
          let v = record u { world = opened.1 } in
          let w = write_output o api (neighbor_command o api ns spec host ip) output pod opened.1 in
          let x = record u { world = w } in
          option-Always Same opened.0 _ _ v
            (bind-Always Same _ _
              (check_bgp_hop_status-Always Same world-Same o api output ip x (world-Same w u q))
              (λ r y k.
                fallible-Always Same r _ _ y (λ e. pure-Always Same _ y k)
                  (λ status.
                    if-Always Same (is_zero status.remote_as) _ _ y (pure-Always Same _ y k) (
                      bind-Always Same _ _ (at-Always Same fields 1 y k)
                        (λ mark z l. pure-Always Same _ z l)))))
            (λ e. pure-Always Same _ v (world-Same opened.1 u q)))

    check_hops-Same :
        (node pod : String) (more : List String) (hops : List BgpHop)
        (t : Session MetallbScanStatus)
        → Same t
        → Always Same (check_hops o api ns spec host node pod more hops t)
    unfolding check_hops
    check_hops-Same node pod [] hops t p = pure-Always Same _ t p
    check_hops-Same node pod (hop ∷ more) hops t p =
        bind-Always Same _ _ (check_hop-Same node pod hop hops t p) (λ r u q.
          fallible-Always Same r _ _ u (λ e. pure-Always Same _ u q)
            (λ l. check_hops-Same node pod more l u q))

    miss_hops-Same :
        (node pod : String) (t : Session MetallbScanStatus)
        → Same t
        → Always Same (miss_hops o api ns spec host node pod t)
    unfolding miss_hops
    miss_hops-Same node pod t p =
        if-Always Same (is_set spec.ignore_no_bgp_hop) _ _ t (pure-Always Same _ t p)
          (mail_and_list-Untouched o doc api ns spec host _ _ _ t p (no_hops-IsOwn pod node))

    find_hops-Same :
        (node pod : String) (t : Session MetallbScanStatus)
        → Same t
        → Always Same (find_hops o api ns spec host node pod t)
    unfolding find_hops
    find_hops-Same node pod t p =
        recover-Untouched o doc api ns spec host _ _ _ _ t p (no_hops-IsOwn pod node)

    ask_speaker-Same :
        (node pod : String) (hops : List BgpHop) (t : Session MetallbScanStatus)
        → Same t
        → Always Same (ask_speaker o api ns spec host node pod hops t)
    unfolding ask_speaker
    ask_speaker-Same node pod hops t p =
        let output = file (pod <> "-bgphop.txt") in
        bind-Always Same _ _ (find_speaker-Same node t p) (λ _ u q.
          let opened = open_output o api output u.world in
          let v = record u { world = opened.1 } in
          let w = write_output o api "show ip bgp nexthop" output pod opened.1 in
          let x = record u { world = w } in
          option-Always Same opened.0 _ _ v
            (bind-Always Same _ _
              (retrieve_bgp_hop-Always Same world-Same o output x (world-Same w u q))
              (λ r y k.
                fallible-Always Same r _ _ y (λ e. pure-Always Same _ y k) (λ found. by found y k)))
            (λ e. pure-Always Same _ v (world-Same opened.1 u q)))
      where
        by :
            (found : List String) (y : Session MetallbScanStatus)
            → Same y
            → Always Same (
                (elim found as (λ _. M MetallbScanStatus (Fallible (List BgpHop))) [
                  | [] ↦ miss_hops o api ns spec host node pod >> pure (ok hops)
                  | hop ∷ more ↦
                      find_hops o api ns spec host node pod
                      >> check_hops o api ns spec host node pod (hop ∷ more) hops
                ])
                  y)
        by [] y k =
            bind-Always Same _ _ (miss_hops-Same node pod y k) (λ _ z l. pure-Always Same _ z l)
        by (hop ∷ more) y k =
            bind-Always Same _ _ (find_hops-Same node pod y k)
              (λ _ z l. check_hops-Same node pod (hop ∷ more) hops z l)

    check_worker-Same :
        (node : String) (hops : List BgpHop) (t : Session MetallbScanStatus)
        → Same t
        → Always Same (check_worker o api ns spec host node hops t)
    unfolding check_worker
    check_worker-Same node hops t p = by (get_pods_from_node (api.pods node))
      where
        by :
            (r : Fallible (ℕ × List String))
            → Always Same (
                (elim r as (λ _. M MetallbScanStatus (Fallible (List BgpHop))) [
                  | err e ↦ pure (err e)
                  | ok (n, []) ↦ miss_speaker o api ns spec host node >> pure (ok hops)
                  | ok (n, pod ∷ pods) ↦ ask_speaker o api ns spec host node pod hops
                ])
                  t)
        by (err e) = pure-Always Same _ t p
        by (ok (n, [])) =
            bind-Always Same _ _ (miss_speaker-Same node t p) (λ _ u q. pure-Always Same _ u q)
        by (ok (n, pod ∷ pods)) = ask_speaker-Same node pod hops t p

    check_workers-Same :
        (nodes : List String) (hops : List BgpHop) (t : Session MetallbScanStatus)
        → Same t
        → Always Same (check_workers o api ns spec host nodes hops t)
    unfolding check_workers
    check_workers-Same [] hops t p = pure-Always Same _ t p
    check_workers-Same (node ∷ nodes) hops t p =
        bind-Always Same _ _ (check_worker-Same node hops t p) (λ r u q.
          fallible-Always Same r _ _ u (λ e. pure-Always Same _ u q)
            (λ l. check_workers-Same nodes l u q))

    -- Where no check is listed twice before, and the search in slices does what its documentation
    -- says: whatever the API server, the speakers and the files answer, and whether the look at the
    -- hops of all workers returns, ends with an error or panics, it leaves no check listed twice,
    -- lists every check that is not about the speaker pods or the hops of a node exactly if it was
    -- listed before, and changes neither the conditions nor the incidents nor the times of the
    -- status.
    pub check_bgp_hop_workers-Untouched :
        Distinct s.status.failed_checks → Always Same (check_bgp_hop_workers o api ns spec host s)
    unfolding check_bgp_hop_workers
    check_bgp_hop_workers-Untouched d =
        let same : Same s = Untouched-same s d in
        fallible-Always Same api.nodes _ _ s (λ e. pure-Always Same _ s same)
          (λ nodes. check_workers-Same nodes [] s same)
