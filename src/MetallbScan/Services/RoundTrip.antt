-- ===== src/MetallbScan/Services/RoundTrip.antt =====
-- The entries of the list of load balancers, and what the scan reads out of them again.
use monitoring_wo_webhooks.Prelude.{
  ◌≡◌, refl, ap, String, false, Option, none, some, List, [], ◌∷◌, ◌++◌, ◌==◌, map, arith,
  if◌then◌else◌,
}
use monitoring_wo_webhooks.Prelude.Text.{split}
use monitoring_wo_webhooks.Runtime.{ok}
use monitoring_wo_webhooks.MetallbScan.Keys.{has, split-address_key}
use monitoring_wo_webhooks.MetallbScan.Services.{Service, get_load_balancer_sevices}
use monitoring_wo_webhooks.MetallbScan.Services.Laws.{
  ingress_entries, entries, all_entries, all_pending, get_load_balancer_sevices_lem,
}

-- The name, the namespace and each address of a service that is a load balancer.
abbrev pub ingress_fields : Service → List String → List (List String)
ingress_fields svc [] = []
ingress_fields svc (ip ∷ ips) =
    if ip == ""
    then ingress_fields svc ips
    else (svc.name ∷ svc.namespace ∷ ip ∷ []) ∷ ingress_fields svc ips

abbrev pub ingress_of : Option (List String) → List String
ingress_of none = []
ingress_of (some ips) = ips

abbrev pub fields : Service → List (List String)
fields svc =
    if svc.kind == "LoadBalancer"
    then if svc.load_balancer_ip == ""
      then ingress_fields svc (ingress_of svc.ingress)
      else (svc.name ∷ svc.namespace ∷ svc.load_balancer_ip ∷ []) ∷ []
    else []

abbrev pub all_fields : List Service → List (List String)
all_fields [] = []
all_fields (svc ∷ svcs) = fields svc ++ all_fields svcs

abbrev pub ArePlain : List String → Type 0
ArePlain [] = Unit {0}
ArePlain (x ∷ xs) = (has b':' x ≡ false) × ArePlain xs

-- No colon in the name, the namespace and the addresses.
abbrev pub IsPlain : Service → Type 0
IsPlain svc =
    (has b':' svc.name ≡ false)
    × (has b':' svc.namespace ≡ false)
    × (has b':' svc.load_balancer_ip ≡ false)
    × ArePlain (ingress_of svc.ingress)

abbrev pub AllPlain : List Service → Type 0
AllPlain [] = Unit {0}
AllPlain (svc ∷ svcs) = IsPlain svc × AllPlain svcs

map-append :
    (f : String → List String) (xs ys : List String) → map f (xs ++ ys) ≡ map f xs ++ map f ys
map-append f [] ys = refl
map-append f (x ∷ xs) ys = ap (λ l. f x ∷ l) (map-append f xs ys)

split-ingress :
    (svc : Service) (ips : List String)
    → has b':' svc.name ≡ false
    → has b':' svc.namespace ≡ false
    → ArePlain ips
    → map (split b':') (ingress_entries svc ips) ≡ ingress_fields svc ips
split-ingress svc [] h k plain = refl
split-ingress svc (ip ∷ ips) h k (l, plain) =
    ground (arith, split-address_key svc ip h k l, split-ingress svc ips h k plain)

split-entries : (svc : Service) → IsPlain svc → map (split b':') (entries svc) ≡ fields svc
split-entries svc (h, k, l, plain) = by svc.ingress refl
  where
    by :
        (ingress : Option (List String))
        → svc.ingress ≡ ingress
        → map (split b':') (entries svc) ≡ fields svc
    by none e = ground (arith, split-address_key svc svc.load_balancer_ip h k l)
    by (some ips) e = ground (
      arith,
      split-address_key svc svc.load_balancer_ip h k l,
      split-ingress svc (ingress_of svc.ingress) h k plain,
    )

split-all_entries :
    (svcs : List Service) → AllPlain svcs → map (split b':') (all_entries svcs) ≡ all_fields svcs
split-all_entries [] plain = refl
split-all_entries (svc ∷ svcs) (h, plain) = ground (
  arith,
  map-append (split b':') (entries svc) (all_entries svcs),
  split-entries svc h,
  split-all_entries svcs plain,
)

-- Where no name, no namespace and no address of the services has a colon, the list of addresses
-- that `GetLoadBalancerSevices` makes of them can be read back: splitting its entries at the colons
-- gives, service by service, the name, the namespace and the address of each load balancer with
-- the address of its spec, or with each of its ingress addresses that is not empty.
pub split-get_load_balancer_sevices :
    (svcs : List Service)
    → AllPlain svcs
    → (found : List String) × (without : List String) × (get_load_balancer_sevices (ok svcs)
        ≡ ok (found, without))
      × (map (split b':') found ≡ all_fields svcs)
split-get_load_balancer_sevices svcs plain = (
  all_entries svcs,
  all_pending svcs,
  get_load_balancer_sevices_lem svcs,
  split-all_entries svcs plain,
)
