-- ===== src/MetallbScan/Advertisements.antt =====
-- `getIPAddressPoolLabels`, `checkBgpAdvertisment` and `GetBGPIPAd` of
-- internal/controller/metallbscan_controller.go.
use monitoring_wo_webhooks.Prelude.{
  String, Bool, true, false, not, ◌&&◌, ◌||◌, Option, none, some, List, [], ◌∷◌, ◌++◌, ◌==◌,
  if◌then◌else◌,
}
use monitoring_wo_webhooks.Runtime.{Outside, Fallible, ok, err, Dict}
use monitoring_wo_webhooks.MetallbScan.Pools.{AddressPool, BgpPeer}

pub record Advertisement : Type 0 where
  pub name : String
  pub pools : List String
  pub selectors : List Dict
  pub peers : List String

pub record BgpAd : Type 0 where
  pub svcname : String
  pub namespace : String
  pub poolname : String
  pub advertised : Bool
  pub adv_name : String
  pub peers : List String

-- The labels of the first pool of that name; nil if there is none.
unfoldable pub find_labels : String → List AddressPool → Option Dict
find_labels pool [] = none
find_labels pool (p ∷ ps) = if pool == p.name then p.labels else find_labels pool ps

unfoldable pub get_ip_address_pool_labels :
    Fallible (List AddressPool) → String → Fallible (Option Dict)
unfolding find_labels
get_ip_address_pool_labels (err e) pool = err e
get_ip_address_pool_labels (ok pools) pool = ok (find_labels pool pools)

-- Whether a pool is advertised, the name of the advertisement, and its peers.
abbrev pub Advertised : Type 0
Advertised = Bool × (String × List String)

abbrev pub unadvertised : Advertised
unadvertised = (false, ("", []))

abbrev pub by : Advertisement → Advertised
by adv = (true, (adv.name, adv.peers))

module _ (o : Outside) where
  -- The first loop: advertisements that name the pool.
  unfoldable pub find_named : String → List Advertisement → Option Advertisement
  find_named pool [] = none
  find_named pool (adv ∷ advs) =
      if not (adv.name == "") && o.contains adv.pools pool then some adv else find_named pool advs

-- The loops over the labels of a pool and of the selectors of an advertisement.
unfoldable pub match_label : String × String → Dict → Bool
match_label (k1, v1) [] = false
match_label (k1, v1) ((k, v) ∷ labels) = k1 == k && v1 == v || match_label (k1, v1) labels

unfoldable pub match_labels : Dict → Dict → Bool
unfolding match_label
match_labels [] selector = false
match_labels (l ∷ labels) selector = match_label l selector || match_labels labels selector

unfoldable pub match_selectors : Dict → List Dict → Bool
unfolding match_labels
match_selectors labels [] = false
match_selectors labels (s ∷ selectors) = match_labels labels s || match_selectors labels selectors

-- The second loop. The labels are fetched anew for each advertisement.
unfoldable pub find_selected :
    (String → Fallible (List AddressPool)) → String → List Advertisement → Fallible Advertised
unfolding match_selectors get_ip_address_pool_labels
find_selected api pool [] = ok unadvertised
find_selected api pool (adv ∷ advs) =
    let rest = find_selected api pool advs in
    if adv.name == "" then rest else elim (get_ip_address_pool_labels (api adv.name) pool) [
      | err e ↦ err e
      | ok none ↦ ok unadvertised
      | ok (some labels) ↦ if match_selectors labels adv.selectors then ok (by adv) else rest
    ]

unfoldable pub check_bgp_advertisment :
    Outside
    → Fallible (List Advertisement)
    → (String → Fallible (List AddressPool))
    → String
    → Fallible Advertised
unfolding find_named find_selected
check_bgp_advertisment o (err e) api pool = err e
check_bgp_advertisment o (ok advs) api pool = elim (find_named o pool advs) [
  | some adv ↦ ok (by adv)
  | none ↦ find_selected api pool advs
]

abbrev pub ad_of : BgpPeer → Advertised → BgpAd
ad_of p (b, a) = record {
  svcname = p.name;
  namespace = p.namespace;
  poolname = p.poolname;
  advertised = b;
  adv_name = a.0;
  peers = a.1;
}

-- The loop over the services that have a pool, on the answers of the API server for each pool.
unfoldable pub add_ads :
    Outside
    → (String → Fallible (List Advertisement))
    → (String → String → Fallible (List AddressPool))
    → List BgpPeer
    → List BgpAd
    → Fallible (List BgpAd)
unfolding check_bgp_advertisment
add_ads o advs api [] ads = ok ads
add_ads o advs api (p ∷ ps) ads =
    let rest : List BgpAd → Fallible (List BgpAd) = λ l. add_ads o advs api ps l in
    if not (p.poolname == "") || not (p.ippool == "")
    then elim (check_bgp_advertisment o (advs p.poolname) (api p.poolname) p.poolname) [
      | err e ↦ err e
      | ok a ↦ rest (ads ++ ad_of p a ∷ [])
    ]
    else rest ads

unfoldable pub get_bgp_ip_ad :
    Outside
    → (String → Fallible (List Advertisement))
    → (String → String → Fallible (List AddressPool))
    → List BgpPeer
    → Fallible (List BgpAd)
unfolding add_ads
get_bgp_ip_ad o advs api peers = add_ads o advs api peers []
