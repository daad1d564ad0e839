-- ===== src/Tests/MetallbScan.antt =====
-- The services and routes of the MetalLB scan at concrete input.
use monitoring_wo_webhooks.MetallbScan.Pools.{is_empty, get_bgp_ip_pools_peer}
use monitoring_wo_webhooks.MetallbScan.Pools.Laws.{Usable, keys, all_of, ranges_of, singles_of}
use monitoring_wo_webhooks.MetallbScan.Pools.Peers.{get_bgp_ip_pools_peer_lem}
use monitoring_wo_webhooks.MetallbScan.Services.RoundTrip.{split-get_load_balancer_sevices}
use monitoring_wo_webhooks.Prelude.{map}
use monitoring_wo_webhooks.MetallbScan.Upgrades.{ConfigPool, Node, check_mcp_in_progress}
use monitoring_wo_webhooks.MetallbScan.Upgrades.Laws.{check_mcp_in_progress_lem}
use monitoring_wo_webhooks.Prelude.{true, starts_with, some, Bool, String, ◌==◌, ◌&&◌, ◌||◌, ap}
use monitoring_wo_webhooks.MetallbScan.Pools.{AddressPool, Ranges, check_ip_pool}
use monitoring_wo_webhooks.MetallbScan.Pools.Laws.{Documented, any_holds, check_ip_pool_lem}
use monitoring_wo_webhooks.Prelude.{◌≡◌, refl, false, none, some, List, [], ◌∷◌}
use monitoring_wo_webhooks.Prelude.Text.{contains, split}
use monitoring_wo_webhooks.Runtime.{Session, ok, returned, read_file, remove_file}
use monitoring_wo_webhooks.MetallbScan.Services.{Service, get_load_balancer_sevices}
use monitoring_wo_webhooks.MetallbScan.Services.Laws.{get_load_balancer_sevices_lem}
use monitoring_wo_webhooks.MetallbScan.Routes.{check_lb_ip_route}
use monitoring_wo_webhooks.MetallbScan.Routes.Laws.{check_lb_ip_route_lem}
use monitoring_wo_webhooks.MetallbScan.Hops.{is_address, trim, retrieve_bgp_hop, is_exist_bgp_hop}
use monitoring_wo_webhooks.MetallbScan.Hops.Laws.{retrieve-is_exist}
use monitoring_wo_webhooks.Tests.World.{outside, outside-IsDocumented, world}

abbrev services : List Service
services =
    record {
      name = "a";
      namespace = "n";
      kind = "LoadBalancer";
      load_balancer_ip = "1";
      ingress = none;
    }
    ∷ record {
      name = "b";
      namespace = "n";
      kind = "LoadBalancer";
      load_balancer_ip = "";
      ingress = some ("2" ∷ "" ∷ "3" ∷ []);
    }
    ∷ record {
      name = "c";
      namespace = "n";
      kind = "LoadBalancer";
      load_balancer_ip = "";
      ingress = none;
    }
    ∷ record {
      name = "d";
      namespace = "n";
      kind = "ClusterIP";
      load_balancer_ip = "";
      ingress = none;
    }
    ∷ []

get_load_balancer_sevices_lem_example :
    get_load_balancer_sevices (ok services) ≡ ok ("a:n:1" ∷ "b:n:2" ∷ "b:n:3" ∷ [], "c:n" ∷ [])
get_load_balancer_sevices_lem_example = get_load_balancer_sevices_lem services

-- The route of another address, which ends in the same text, stands first and decides.
abbrev routed : Session (Unit {0})
routed = record {
  world = record world { files = λ f. some "*> 11.1.1.1/32\n*> 1.1.1.1/32" };
  status = tt;
  payload = none;
}

check_lb_ip_route_lem_example :
    check_lb_ip_route outside "f" "1.1.1.1" routed
    ≡ returned
        (ok (false, (false, "")))
        (record routed { world = remove_file outside "f" routed.world })
unfolding contains split read_file
check_lb_ip_route_lem_example =
    check_lb_ip_route_lem outside "f" "1.1.1.1" "*> 11.1.1.1/32\n*> 1.1.1.1/32" routed refl

abbrev peers : Session (Unit {0})
peers = record routed {
  world = record world { files = λ f. some " 10.10.10.10 4 65000\n10.0.0.1 4 65000" };
}

retrieve-is_exist_example :
    (retrieve_bgp_hop outside "f" peers
      ≡ returned
          (ok ("10.10.10.10:4" ∷ []))
          (record peers { world = remove_file outside "f" peers.world }))
    × (is_exist_bgp_hop outside "f" "10.0.0.1" peers
        ≡ returned (ok false) (record peers { world = remove_file outside "f" peers.world }))
unfolding is_address trim split read_file
retrieve-is_exist_example =
    retrieve-is_exist outside outside-IsDocumented "f" "10.0.0.1"
      " 10.10.10.10 4 65000\n10.0.0.1 4 65000" peers (("10.10.10.10", "4") ∷ []) refl refl

-- A range, a single address and one end of a span.
abbrev pools : List AddressPool
pools =
    record { name = "wide"; labels = some []; addresses = "10.0.0.0/8" ∷ "1.1.1.1-1.1.1.9" ∷ [] }
    ∷ record { name = "one"; labels = none; addresses = "10.1.1.1" ∷ "" ∷ [] }
    ∷ []

abbrev holds : String → String → Bool
holds net ip = net == "10.0.0.0/8" && starts_with ip "10."

abbrev any_net : List String → String → Bool
any_net [] ip = false
any_net (n ∷ ns) ip = holds n ip || any_net ns ip

abbrev nets : Ranges
nets = record { Net = String; parse_cidr = λ text. some text; within = λ ns ip. ok (any_net ns ip) }

abbrev svc : Service
svc = record {
  name = "a";
  namespace = "n";
  kind = "LoadBalancer";
  load_balancer_ip = "10.1.1.1";
  ingress = none;
}

any_net_lem : (ip : String) (ns : List String) → any_net ns ip ≡ any_holds nets holds ns ip
any_net_lem ip [] = refl
any_net_lem ip (n ∷ ns) = ap (λ b. holds n ip || b) (any_net_lem ip ns)

within_lem : (ip : String) → Documented nets holds ip
within_lem ip ns = ap (λ b. ok b) (any_net_lem ip ns)

usable : Usable nets holds pools
unfolding contains split
usable = ((refl, refl, (refl, refl, (refl, refl, tt))), (refl, refl, tt), (refl, tt))

-- The single address comes before the range in which it lies.
check_ip_pool_lem_example :
    check_ip_pool nets (ok pools) "10.1.1.1" routed
    ≡ returned (ok (true, ("one", "10.1.1.1"))) routed
unfolding contains split
check_ip_pool_lem_example =
    check_ip_pool_lem nets holds "10.1.1.1" (within_lem "10.1.1.1") pools routed usable

some_entry :
    (is_empty (keys (all_of ranges_of pools)) && is_empty (keys (all_of singles_of pools))) ≡ false
unfolding contains
some_entry = refl

get_bgp_ip_pools_peer_lem_example :
    get_bgp_ip_pools_peer nets (λ k. ok pools) ("a:n:10.1.1.1" ∷ "a:n:10.2.2.2" ∷ []) routed
    ≡ returned
        (ok (
          record {
            name = "a";
            namespace = "n";
            ippool = "10.1.1.1";
            poolname = "one";
            con_pool = true;
          }
          ∷ record {
            name = "a";
            namespace = "n";
            ippool = "10.0.0.0/8";
            poolname = "wide";
            con_pool = true;
          }
          ∷ []))
        routed
unfolding contains split
get_bgp_ip_pools_peer_lem_example =
    get_bgp_ip_pools_peer_lem nets holds (λ k. ok pools) pools (λ k. refl) usable some_entry
      ((svc, "10.1.1.1") ∷ (svc, "10.2.2.2") ∷ []) routed
      ((refl, refl, refl), within_lem "10.1.1.1", ((refl, refl, refl), within_lem "10.2.2.2", tt))

split-get_load_balancer_sevices_example :
    (found : List String) × (without : List String) × (get_load_balancer_sevices (ok services)
      ≡ ok (found, without))
    × (map (split b':') found
        ≡ ("a" ∷ "n" ∷ "1" ∷ []) ∷ ("b" ∷ "n" ∷ "2" ∷ []) ∷ ("b" ∷ "n" ∷ "3" ∷ []) ∷ [])
split-get_load_balancer_sevices_example = split-get_load_balancer_sevices services (
  (refl, refl, refl, tt),
  (
    (refl, refl, refl, (refl, (refl, (refl, tt)))),
    ((refl, refl, refl, tt), ((refl, refl, refl, tt), tt)),
  ),
)

abbrev config_pools : List ConfigPool
config_pools =
    record { name = "master"; conditions = ("Updating", "False") ∷ []; selector = none }
    ∷ record {
      name = "worker";
      conditions = ("Updated", "True") ∷ ("Updating", "True") ∷ [];
      selector = some [];
    }
    ∷ record { name = "other"; conditions = ("Updating", "True") ∷ []; selector = none }
    ∷ []

abbrev nodes : List Node
nodes =
    record {
      name = "n1";
      annotations = ("machineconfiguration.openshift.io/state", "Working") ∷ [];
    }
    ∷ []

check_mcp_in_progress_lem_example :
    check_mcp_in_progress (λ l. ok nodes) (ok config_pools) routed ≡ returned (ok true) routed
check_mcp_in_progress_lem_example = check_mcp_in_progress_lem (λ l. ok nodes) config_pools routed
