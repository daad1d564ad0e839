-- ===== src/MetallbScan/Workers/Routes.antt =====
-- What the look at the routes of all services leaves alone, whether it returns or panics.
use monitoring_wo_webhooks.Prelude.{String, ◌<>◌, Option, none, some, List, [], ◌∷◌, ◌==◌, Distinct}
use monitoring_wo_webhooks.Runtime.{Outside, Session, Fallible, ok, M, pure, ◌>>◌}
use monitoring_wo_webhooks.Runtime.Laws.{IsDocumented}
use monitoring_wo_webhooks.Runtime.Always.{
  Always, bind-Always, pure-Always, panic-Always, if-Always, fallible-Always, option-Always,
}
use monitoring_wo_webhooks.MetallbScan.Types.{MetallbScanSpec, MetallbScanStatus}
use monitoring_wo_webhooks.MetallbScan.Endpoints.{LbService}
use monitoring_wo_webhooks.MetallbScan.Speakers.{
  SpeakerApi, BgpRoute, file, alert_file, not_running, open_output, write_output, mail_and_list,
  running_pods, ask_route, check_route, check_routes, add_routes, get_bgp_ip_route,
}
use monitoring_wo_webhooks.MetallbScan.Speakers.Laws.{
  Untouched-same, mail_and_list-Untouched, recover-Untouched,
}
use monitoring_wo_webhooks.MetallbScan.Workers.Files.{check_lb_ip_route-Always}
use monitoring_wo_webhooks.MetallbScan.Workers.Laws.{Same, world-Same, not_running-IsOwn}

module _ (o : Outside) (doc : IsDocumented o) (api : SpeakerApi) (ns : String)
    (spec : MetallbScanSpec) (s : Session MetallbScanStatus) where
  abbrev Alike : Session MetallbScanStatus → Type 0
  Alike = Same o doc api ns spec s

  route_of_pod-Same :
      (sv : LbService) (node pod : String) (routes : List BgpRoute) (t : Session MetallbScanStatus)
      → Alike t
      → Always Alike (ask_route o api ns spec sv node pod routes t)
  unfolding ask_route
  route_of_pod-Same sv node pod routes t p =
      let name = alert_file node "norunningspeaker" in
      let output = file (pod <> "-bgpoutput.txt") in
      let alike = world-Same o doc api ns spec s in
      let own = not_running-IsOwn o doc api ns spec s node in
      bind-Always Alike _ _ (recover-Untouched o doc api ns spec node name name _ _ t p own)
        (λ _ u q.
          let opened = open_output o api output u.world in
          let v = record u { world = opened.1 } in
          let w = write_output o api "show ip bgp" output pod opened.1 in
          let x = record u { world = w } in
          option-Always Alike opened.0 _ _ v
            (bind-Always Alike _ _
              (check_lb_ip_route-Always Alike alike o output sv.lbip x (alike w u q))
              (λ r y k.
                fallible-Always Alike r _ _ y (λ e. pure-Always Alike _ y k)
                  (λ a. pure-Always Alike _ y k)))
            (λ e. pure-Always Alike _ v (alike opened.1 u q)))

  check_route-Same :
      (sv : LbService) (node : String) (routes : List BgpRoute) (t : Session MetallbScanStatus)
      → Alike t
      → Always Alike (check_route o api ns spec sv node routes t)
  unfolding check_route
  check_route-Same sv node routes t p = by (running_pods o api ns spec node)
    where
      by :
          (pods : List String)
          → Always Alike (
              (elim pods as (λ _. M MetallbScanStatus (Fallible (List BgpRoute))) [
                | [] ↦
                    mail_and_list o api ns spec node
                      (alert_file node "norunningspeaker")
                      (not_running node ns)
                      (not_running node ns)
                    >> pure (ok routes)
                | pod ∷ pods ↦ ask_route o api ns spec sv node pod routes
              ])
                t)
      by [] =
          bind-Always Alike _ _
            (mail_and_list-Untouched o doc api ns spec node _ _ _ t p
              (not_running-IsOwn o doc api ns spec s node))
            (λ _ u q. pure-Always Alike _ u q)
      by (pod ∷ pods) = route_of_pod-Same sv node pod routes t p

  check_routes-Same :
      (sv : LbService) (nodes : List (Option String)) (routes : List BgpRoute)
      (t : Session MetallbScanStatus)
      → Alike t
      → Always Alike (check_routes o api ns spec sv nodes routes t)
  unfolding check_routes
  check_routes-Same sv [] routes t p = pure-Always Alike _ t p
  check_routes-Same sv (none ∷ nodes) routes t p = panic-Always Alike _ t p
  check_routes-Same sv (some node ∷ nodes) routes t p =
      bind-Always Alike _ _ (check_route-Same sv node routes t p) (λ r u q.
        fallible-Always Alike r _ _ u (λ e. pure-Always Alike _ u q)
          (λ l. check_routes-Same sv nodes l u q))

  add_routes-Same :
      (svs : List LbService) (routes : List BgpRoute) (t : Session MetallbScanStatus)
      → Alike t
      → Always Alike (add_routes o api ns spec svs routes t)
  unfolding add_routes
  add_routes-Same [] routes t p = pure-Always Alike _ t p
  add_routes-Same (sv ∷ svs) routes t p =
      if-Always Alike (sv.lbip == "") _ _ t (add_routes-Same svs routes t p) (
        bind-Always Alike _ _ (check_routes-Same sv sv.ends.nodes routes t p) (λ r u q.
          fallible-Always Alike r _ _ u (λ e. pure-Always Alike _ u q)
            (λ l. add_routes-Same svs l u q)))

  -- Where no check is listed twice before, and the search in slices does what its documentation
  -- says: whatever the API server, the speakers and the files answer, and whether the look at the
  -- routes returns, ends with an error or panics, it leaves no check listed twice, lists every check
  -- that is not about the speaker pods or the hops of a node exactly if it was listed before, and
  -- changes neither the conditions nor the incidents nor the times of the status.
  pub get_bgp_ip_route-Untouched :
      (svs : List LbService)
      → Distinct s.status.failed_checks
      → Always Alike (get_bgp_ip_route o api ns spec svs s)
  unfolding get_bgp_ip_route
  get_bgp_ip_route-Untouched svs d = add_routes-Same svs [] s (Untouched-same s d)
