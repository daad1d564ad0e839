-- ===== src/MetallbScan/Workers.antt =====
-- `CheckBGPHopWorkers` of internal/controller/metallbscan_controller.go.
pub mod Laws
pub mod Files
pub mod Routes
use monitoring_wo_webhooks.Prelude.{
  String, ◌<>◌, Bool, true, false, not, Option, none, some, List, [], ◌∷◌, ◌++◌, if◌then◌else◌,
  is_set, is_unset,
}
use monitoring_wo_webhooks.Prelude.Text.{split}
use monitoring_wo_webhooks.Prelude.Int.{is_zero}
use monitoring_wo_webhooks.Runtime.{
  Outside, Fallible, ok, err, M, returned, panicked, pure, ◌>>=◌, ◌>>◌, on_world, act, modify,
  get_status, when, at, remove_file,
}
use monitoring_wo_webhooks.Slices.{delete_listed}
use monitoring_wo_webhooks.MetallbScan.Types.{MetallbScanSpec, MetallbScanStatus}
use monitoring_wo_webhooks.MetallbScan.Util.{send_email_recovered_alert}
use monitoring_wo_webhooks.MetallbScan.Services.{get_pods_from_node}
use monitoring_wo_webhooks.MetallbScan.Hops.{retrieve_bgp_hop}
use monitoring_wo_webhooks.MetallbScan.Speakers.{
  SpeakerApi, BgpHop, check_speaker_daemonset, file, alert_file, gone, no_hops, open_output,
  write_output, check_bgp_hop_status, mail_and_list, list_and_mail, recover,
}

module _ (o : Outside) (api : SpeakerApi) (ns : String) (spec : MetallbScanSpec)
    (host : String) where
  -- A node without a running speaker pod, which only counts if no daemon set is complete.
  unfoldable pub miss_speaker : String → M MetallbScanStatus (Unit {0})
  unfolding list_and_mail check_speaker_daemonset
  miss_speaker node = elim (check_speaker_daemonset api.daemon_sets) [
    | err e ↦ pure tt
    | ok true ↦ pure tt
    | ok false ↦
        list_and_mail o api ns spec host (alert_file node "nospeaker") (gone node ns)
          ("no speaker pod is found in status in node " <> (node <> (" in namespace " <> ns)))
  ]

  -- A node that has one again. The mail goes by a file name that keeps the characters which the name
  -- of the alert's file leaves out.
  unfoldable pub find_speaker : String → M MetallbScanStatus (Unit {0})
  find_speaker node = do
    st ← get_status
    when (o.contains st.failed_checks (gone node ns)) (do
      checks ← delete_listed o st.failed_checks (gone node ns)
      modify (λ st. record st { failed_checks = checks })
      when (is_unset spec.suspend_email_alert) (
          act (
            send_email_recovered_alert o host (file (node <> ".nospeaker.txt")) spec
              ("speaker pod is found in node " <> (node <> (" in namespace " <> ns)))))
      act (remove_file o (alert_file node "nospeaker")))

  abbrev pub neighbor_command : String → String
  neighbor_command ip = "show ip bgp neighbor " <> (ip <> " json")

  -- One hop. A neighbour whose AS number is zero is left out.
  unfoldable pub check_hop :
      String → String → String → List BgpHop → M MetallbScanStatus (Fallible (List BgpHop))
  unfolding open_output write_output check_bgp_hop_status split
  check_hop node pod hop hops = do
    let output = file (pod <> "-bgphoproute.txt")
    ip ← at (split b':' hop) 0
    e ← on_world (open_output o api output)
    elim e [
      | some e ↦ pure (err e)
      | none ↦ do
        act (write_output o api (neighbor_command ip) output pod)
        r ← check_bgp_hop_status o api output ip
        elim r [
          | err e ↦ pure (err e)
          | ok status ↦ if is_zero status.remote_as then pure (ok hops) else (do
            mark ← at (split b':' hop) 1
            pure (
                ok (
                  hops
                  ++ record {
                    node_name = node;
                    ip = ip;
                    remote_as = status.remote_as;
                    valid = true;
                    validstatus = mark;
                    established = status.bgp_state;
                    up_timer = status.up_timer;
                    bfdstatus = status.bfd_status;
                  }
                    ∷ [])))
        ]
    ]

  unfoldable pub check_hops :
      String → String → List String → List BgpHop → M MetallbScanStatus (Fallible (List BgpHop))
  unfolding check_hop
  check_hops node pod [] hops = pure (ok hops)
  check_hops node pod (hop ∷ more) hops =
      let rest : List BgpHop → M MetallbScanStatus (Fallible (List BgpHop)) =
        λ l. check_hops node pod more l in
      do r ← check_hop node pod hop hops; elim r [ err e ↦ pure (err e) | ok l ↦ rest l ]

  unfoldable pub miss_hops : String → String → M MetallbScanStatus (Unit {0})
  unfolding mail_and_list
  miss_hops node pod =
      if is_set spec.ignore_no_bgp_hop
      then pure tt
      else mail_and_list o api ns spec host (alert_file node "nobgphopsspeaker") (no_hops pod node)
          ("no configured hops are found (show ip bgp nexthop) in speaker pod "
            <> (pod <> (" running in node " <> node)))

  unfoldable pub find_hops : String → String → M MetallbScanStatus (Unit {0})
  unfolding recover
  find_hops node pod =
      recover o api ns spec host (alert_file node "nobgphopsspeaker")
        (alert_file node "nobgphopsspeaker") (no_hops pod node)
        ("hops are found in speaker pod " <> (pod <> (" running in node " <> node)))

  -- A node with a running speaker pod.
  unfoldable pub ask_speaker :
      String → String → List BgpHop → M MetallbScanStatus (Fallible (List BgpHop))
  unfolding find_speaker open_output write_output retrieve_bgp_hop miss_hops find_hops check_hops
  ask_speaker node pod hops = do
    find_speaker node
    let output = file (pod <> "-bgphop.txt")
    e ← on_world (open_output o api output)
    elim e [
      | some e ↦ pure (err e)
      | none ↦ do
        act (write_output o api "show ip bgp nexthop" output pod)
        r ← retrieve_bgp_hop o output
        elim r [
          | err e ↦ pure (err e)
          | ok [] ↦ miss_hops node pod >> pure (ok hops)
          | ok (hop ∷ more) ↦ find_hops node pod >> check_hops node pod (hop ∷ more) hops
        ]
    ]

  unfoldable pub check_worker : String → List BgpHop → M MetallbScanStatus (Fallible (List BgpHop))
  unfolding ask_speaker miss_speaker get_pods_from_node
  check_worker node hops = elim (get_pods_from_node (api.pods node)) [
    | err e ↦ pure (err e)
    | ok (n, []) ↦ miss_speaker node >> pure (ok hops)
    | ok (n, pod ∷ pods) ↦ ask_speaker node pod hops
  ]

  unfoldable pub check_workers :
      List String → List BgpHop → M MetallbScanStatus (Fallible (List BgpHop))
  unfolding check_worker
  check_workers [] hops = pure (ok hops)
  check_workers (node ∷ nodes) hops =
      let rest : List BgpHop → M MetallbScanStatus (Fallible (List BgpHop)) =
        λ l. check_workers nodes l in
      do r ← check_worker node hops; elim r [ err e ↦ pure (err e) | ok l ↦ rest l ]

  unfoldable pub check_bgp_hop_workers : M MetallbScanStatus (Fallible (List BgpHop))
  unfolding check_workers
  check_bgp_hop_workers = elim api.nodes [
    | err e ↦ pure (err e)
    | ok nodes ↦ check_workers nodes []
  ]
