-- ===== src/MetallbScan/Pools.antt =====
-- The address pools of services: `checkIpPool` and `GetBGPIPPoolsPeer` of
-- internal/controller/metallbscan_controller.go.
pub mod Laws
pub mod Peers
use monitoring_wo_webhooks.Prelude.{
  String, ◌<>◌, Bool, true, false, not, ◌&&◌, ◌||◌, Option, none, some, List, [], ◌∷◌, ◌++◌, ◌==◌,
  if◌then◌else◌, mem,
}
use monitoring_wo_webhooks.Prelude.Text.{contains, split}
use monitoring_wo_webhooks.Runtime.{
  Outside, Fallible, ok, err, Dict, M, returned, panicked, panic, pure, ◌>>=◌, ◌>>◌, at,
}

pub record AddressPool : Type 0 where
  pub name : String
  pub labels : Option Dict
  pub addresses : List String

-- `net.ParseCIDR`, nil for what is no range, and `Contains` of a ranger into which these ranges were
-- inserted.
pub record Ranges : Type 1 where
  pub Net : Type 0
  pub parse_cidr : String → Option Net
  pub within : List Net → String → Fallible Bool

pub record BgpPeer : Type 0 where
  pub name : String
  pub namespace : String
  pub ippool : String
  pub poolname : String
  pub con_pool : Bool

-- Whether a pool has the address, its name, and the entry that has it.
abbrev pub Place : Type 0
Place = Bool × (String × String)

abbrev pub nowhere : Place
nowhere = (false, ("", ""))

abbrev pub key : String → String → String
key pool text = pool <> (":" <> text)

-- The loop over the ends of a range that is written with a dash.
unfoldable pub add_ends : String → List String → List String → List String
add_ends pool [] singles = singles
add_ends pool (ip ∷ ips) singles = add_ends pool ips (singles ++ key pool ip ∷ [])

-- One address of a pool, on `ippools` and `indeIPs`.
unfoldable pub add_address : String → String → List String × List String → List String × List String
unfolding add_ends contains split
add_address pool add (ranges, singles) =
    if add == ""
    then (ranges, singles)
    else if contains add "/"
    then (ranges ++ key pool add ∷ [], singles)
    else if contains add "-"
    then (ranges, add_ends pool (split b'-' add) singles)
    else (ranges, singles ++ key pool add ∷ [])

unfoldable pub add_pool :
    String → List String → List String × List String → List String × List String
unfolding add_address
add_pool pool [] lists = lists
add_pool pool (add ∷ adds) lists = add_pool pool adds (add_address pool add lists)

unfoldable pub add_pools : List AddressPool → List String × List String → List String × List String
unfolding add_pool
add_pools [] lists = lists
add_pools (pool ∷ pools) lists = add_pools pools (add_pool pool.name pool.addresses lists)

abbrev pub is_empty : List String → Bool
is_empty [] = true
is_empty (x ∷ xs) = false

abbrev pub no_pools : String
no_pools = "no valid bgp IP pools found"

abbrev pub peer_of : String → String → Place → BgpPeer
peer_of name ns (false, p) = record {
  name = name;
  namespace = ns;
  ippool = "";
  poolname = "";
  con_pool = false;
}
peer_of name ns (true, p) = record {
  name = name;
  namespace = ns;
  ippool = p.1;
  poolname = p.0;
  con_pool = true;
}

module _ {St : Type 0} where
  unfoldable pub find_single : String → List String → M St Place
  unfolding split
  find_single external [] = pure nowhere
  find_single external (ip ∷ ips) =
      let rest : M St Place = find_single external ips in
      do
        text ← at (split b':' ip) 1
        if external == text
            then (do pool ← at (split b':' ip) 0; pure (true, (pool, text)))
            else rest

  module _ (nets : Ranges) where
    -- The ranger keeps the ranges that were looked at before. Where `net.ParseCIDR` gives nil, the
    -- read through it panics.
    unfoldable pub find_range : String → List nets.Net → List String → M St (Fallible Place)
    unfolding split
    find_range external seen [] = pure (ok nowhere)
    find_range external seen (ip ∷ ips) =
        let rest : List nets.Net → M St (Fallible Place) = λ ns. find_range external ns ips in
        do
          text ← at (split b':' ip) 1
          elim (nets.parse_cidr text) [
            | none ↦ panic
            | some n ↦ elim (nets.within (seen ++ n ∷ []) external) [
              | err e ↦ pure (err e)
              | ok found ↦
                  if found
                  then (do pool ← at (split b':' ip) 0; pure (ok (true, (pool, text))))
                  else rest (seen ++ n ∷ [])
            ]
          ]

    unfoldable pub look_up : String → List String × List String → M St (Fallible Place)
    unfolding find_single find_range
    look_up external lists = do
      place ← find_single external lists.1
      if place.0 then pure (ok place) else find_range external [] lists.0

    -- On the answer of the API server.
    unfoldable pub check_ip_pool : Fallible (List AddressPool) → String → M St (Fallible Place)
    unfolding look_up add_pools
    check_ip_pool (err e) external = pure (err e)
    check_ip_pool (ok pools) external =
        let lists = add_pools pools ([], []) in
        if is_empty lists.0 && is_empty lists.1 then pure (err no_pools) else look_up external lists

    -- The loop over the services, on the answers of the API server for each of them.
    unfoldable pub add_peers :
        (String → Fallible (List AddressPool))
        → List String
        → List BgpPeer
        → M St (Fallible (List BgpPeer))
    unfolding check_ip_pool split
    add_peers api [] peers = pure (ok peers)
    add_peers api (svc ∷ svcs) peers =
        let rest : List BgpPeer → M St (Fallible (List BgpPeer)) = λ ps. add_peers api svcs ps in
        do
          external ← at (split b':' svc) 2
          answer ← check_ip_pool (api svc) external
          elim answer [
            | err e ↦ pure (err e)
            | ok place ↦ do
              name ← at (split b':' svc) 0
              ns ← at (split b':' svc) 1
              rest (peers ++ peer_of name ns place ∷ [])
          ]

    unfoldable pub get_bgp_ip_pools_peer :
        (String → Fallible (List AddressPool)) → List String → M St (Fallible (List BgpPeer))
    unfolding add_peers
    get_bgp_ip_pools_peer api svcs = add_peers api svcs []
