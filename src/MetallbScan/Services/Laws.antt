-- ===== src/MetallbScan/Services/Laws.antt =====
-- Which services the lists of the MetalLB scan hold.
use monitoring_wo_webhooks.Prelude.{
  ◌≡◌, refl, sym, ap, String, ◌&&◌, Option, none, some, List, [], ◌∷◌, ◌++◌, ◌==◌, arith,
  if◌then◌else◌,
}
use monitoring_wo_webhooks.Runtime.{ok}
use monitoring_wo_webhooks.MetallbScan.Services.{
  Service, service_key, address_key, add_ingress, add_service, add_services,
  get_load_balancer_sevices,
}

append_nil : (xs : List String) → xs ++ [] ≡ xs
append_nil [] = refl
append_nil (x ∷ xs) = ap (λ l. x ∷ l) (append_nil xs)

append_assoc : (xs ys zs : List String) → (xs ++ ys) ++ zs ≡ xs ++ (ys ++ zs)
append_assoc [] ys zs = refl
append_assoc (x ∷ xs) ys zs = ap (λ l. x ∷ l) (append_assoc xs ys zs)

-- The addresses of an ingress list that has them.
abbrev pub ingress_entries : Service → List String → List String
ingress_entries svc [] = []
ingress_entries svc (ip ∷ ips) =
    if ip == "" then ingress_entries svc ips else address_key svc ip ∷ ingress_entries svc ips

-- What a service adds to the list with addresses, and to the list without.
abbrev pub entries : Service → List String
entries svc =
    if svc.kind == "LoadBalancer"
    then if svc.load_balancer_ip == ""
      then elim svc.ingress [ none ↦ [] | some ips ↦ ingress_entries svc ips ]
      else address_key svc svc.load_balancer_ip ∷ []
    else []

abbrev pub pending : Service → List String
pending svc =
    if svc.kind == "LoadBalancer" && svc.load_balancer_ip == ""
    then elim svc.ingress [ none ↦ service_key svc ∷ [] | some ips ↦ [] ]
    else []

abbrev pub all_entries : List Service → List String
all_entries [] = []
all_entries (svc ∷ svcs) = entries svc ++ all_entries svcs

abbrev pub all_pending : List Service → List String
all_pending [] = []
all_pending (svc ∷ svcs) = pending svc ++ all_pending svcs

add_ingress_lem :
    (svc : Service) (ips found : List String)
    → add_ingress svc ips found ≡ found ++ ingress_entries svc ips
unfolding add_ingress
add_ingress_lem svc [] found = sym (append_nil found)
add_ingress_lem svc (ip ∷ ips) found = ground (
  arith,
  add_ingress_lem svc ips found,
  add_ingress_lem svc ips (found ++ address_key svc ip ∷ []),
  append_assoc found (address_key svc ip ∷ []) (ingress_entries svc ips),
)

add_service-ingress :
    (svc : Service) (found without : List String) (ingress : Option (List String))
    → svc.ingress ≡ ingress
    → add_service svc (found, without) ≡ (found ++ entries svc, without ++ pending svc)
unfolding add_service
add_service-ingress svc found without none e = ground (arith, append_nil found, append_nil without)
add_service-ingress svc found without (some ips) e =
    ground (arith, append_nil found, append_nil without, add_ingress_lem svc ips found)

add_service_lem :
    (svc : Service) (found without : List String)
    → add_service svc (found, without) ≡ (found ++ entries svc, without ++ pending svc)
add_service_lem svc found without = add_service-ingress svc found without svc.ingress refl

add_services_lem :
    (svcs : List Service) (found without : List String)
    → add_services svcs (found, without) ≡ (found ++ all_entries svcs, without ++ all_pending svcs)
unfolding add_services
add_services_lem [] found without = ground (arith, append_nil found, append_nil without)
add_services_lem (svc ∷ svcs) found without = ground (
  arith,
  add_service_lem svc found without,
  add_services_lem svcs (found ++ entries svc) (without ++ pending svc),
  append_assoc found (entries svc) (all_entries svcs),
  append_assoc without (pending svc) (all_pending svcs),
)

-- Of the services that the API server answers, the first list has, service by service, the address
-- of the spec where a load balancer sets one, and otherwise every ingress address that is not
-- empty; the second has the load balancers with neither an address nor an ingress list. Services of
-- other kinds, and load balancers whose ingress list has no address, are in none.
pub get_load_balancer_sevices_lem :
    (svcs : List Service)
    → get_load_balancer_sevices (ok svcs) ≡ ok (all_entries svcs, all_pending svcs)
unfolding get_load_balancer_sevices
get_load_balancer_sevices_lem svcs = ap ok (add_services_lem svcs [] [])
