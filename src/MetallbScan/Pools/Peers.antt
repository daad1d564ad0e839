-- ===== src/MetallbScan/Pools/Peers.antt =====
-- The pools of all services.
use monitoring_wo_webhooks.Prelude.{
  ◌≡◌, refl, if◌then◌else◌, sym, ap, String, Bool, true, false, ◌&&◌, List, [], ◌∷◌, ◌++◌, map,
  arith,
}
use mathlib.Core.List.{append-nil, append_assoc}
use monitoring_wo_webhooks.Runtime.{Session, Fallible, ok, returned}
use monitoring_wo_webhooks.MetallbScan.Keys.{has, split-address_key}
use monitoring_wo_webhooks.MetallbScan.Services.{Service, address_key}
use monitoring_wo_webhooks.MetallbScan.Pools.{
  AddressPool, Ranges, BgpPeer, Place, is_empty, peer_of, add_peers, get_bgp_ip_pools_peer,
}
use monitoring_wo_webhooks.MetallbScan.Pools.Laws.{
  Documented, Usable, all_of, ranges_of, singles_of, keys, place_of, check_ip_pool_lem,
}

-- A service with one of its addresses.
abbrev pub Target : Type 0
Target = Service × String

abbrev pub IsPlain : Target → Type 0
IsPlain (svc, ip) =
    (has b':' svc.name ≡ false) × (has b':' svc.namespace ≡ false) × (has b':' ip ≡ false)

abbrev pub entry : Target → String
entry (svc, ip) = address_key svc ip

-- A service with the pool that has its address and the entry of that pool, or without any.
abbrev pub peer_at : Service → Place → BgpPeer
peer_at svc place = record {
  name = svc.name;
  namespace = svc.namespace;
  ippool = if place.0 then place.1.1 else "";
  poolname = if place.0 then place.1.0 else "";
  con_pool = place.0;
}

peer_of_lem :
    (svc : Service) (place : Place) → peer_of svc.name svc.namespace place ≡ peer_at svc place
peer_of_lem svc (false, p) = refl
peer_of_lem svc (true, p) = refl

module _ (nets : Ranges) (holds : nets.Net → String → Bool) where
  -- What holds of each target.
  abbrev pub Each : List Target → Type 0
  Each [] = Unit {0}
  Each (t ∷ ts) = IsPlain t × Documented nets holds t.1 × Each ts

  abbrev pub peer : List AddressPool → Target → BgpPeer
  peer pools (svc, ip) = peer_at svc (place_of nets holds pools ip)

  module _ {St : Type 0} (api : String → Fallible (List AddressPool)) (pools : List AddressPool)
      (answers : (k : String) → api k ≡ ok pools) (usable : Usable nets holds pools)
      (some_entry : (is_empty (keys (all_of ranges_of pools))
          && is_empty (keys (all_of singles_of pools)))
        ≡ false) where
    add_peers_lem :
        (ts : List Target) (peers : List BgpPeer) (s : Session St)
        → Each ts
        → add_peers nets api (map entry ts) peers s ≡ returned (ok (peers ++ map (peer pools) ts)) s
    unfolding add_peers
    add_peers_lem [] peers s each = ap (λ l. returned (ok l) s) (sym (append-nil peers))
    add_peers_lem ((svc, ip) ∷ ts) peers s ((h, k, l), doc, each) = ground (
      arith,
      split-address_key svc ip h k l,
      peer_of_lem svc (place_of nets holds pools ip),
      answers (address_key svc ip),
      check_ip_pool_lem nets holds ip doc pools s usable,
      add_peers_lem ts (peers ++ peer pools (svc, ip) ∷ []) s each,
      append_assoc peers (peer pools (svc, ip) ∷ []) (map (peer pools) ts),
    )

    -- For the services of a list, each with an address, where the API server lists the same pools
    -- at every call: if the pools have at least one address, no name and no address has a colon,
    -- every address with a slash is a range, and the ranger does what its documentation says, then
    -- the function returns one peer for each service, in their order, with its name and namespace,
    -- and with the pool and the entry of the first address that equals its own, or else of the first
    -- range that covers it, or, where there is neither, with empty texts and the flag unset.
    pub get_bgp_ip_pools_peer_lem :
        (ts : List Target) (s : Session St)
        → Each ts
        → get_bgp_ip_pools_peer nets api (map entry ts) s ≡ returned (ok (map (peer pools) ts)) s
    unfolding get_bgp_ip_pools_peer
    get_bgp_ip_pools_peer_lem ts s each = add_peers_lem ts [] s each
