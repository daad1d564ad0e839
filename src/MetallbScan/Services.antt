-- ===== src/MetallbScan/Services.antt =====
-- `GetLoadBalancerSevices` and `GetpodsFromNodeBasedonLabels` of internal/metallbscan/util/util.go.
pub mod Laws
pub mod RoundTrip
use monitoring_wo_webhooks.Prelude.{
  ℕ, String, ◌<>◌, Bool, Option, none, some, List, [], ◌∷◌, ◌++◌, ◌==◌, if◌then◌else◌, length,
}
use monitoring_wo_webhooks.Runtime.{Fallible, ok, err}

-- What is read of a service. The ingress list of its status may be nil.
pub record Service : Type 0 where
  pub name : String
  pub namespace : String
  pub kind : String
  pub load_balancer_ip : String
  pub ingress : Option (List String)

abbrev pub service_key : Service → String
service_key svc = svc.name <> (":" <> svc.namespace)

abbrev pub address_key : Service → String → String
address_key svc ip = svc.name <> (":" <> (svc.namespace <> (":" <> ip)))

-- The loop over the ingress list.
unfoldable pub add_ingress : Service → List String → List String → List String
add_ingress svc [] found = found
add_ingress svc (ip ∷ ips) found =
    add_ingress svc ips (if ip == "" then found else found ++ address_key svc ip ∷ [])

-- One round of the loop over the services, on `loadbalancersvc` and `loadbalancersvcnoip`.
unfoldable pub add_service : Service → List String × List String → List String × List String
unfolding add_ingress
add_service svc (found, without) =
    if svc.kind == "LoadBalancer"
    then if svc.load_balancer_ip == ""
      then elim svc.ingress [
        | none ↦ (found, without ++ service_key svc ∷ [])
        | some ips ↦ (add_ingress svc ips found, without)
      ]
      else (found ++ address_key svc svc.load_balancer_ip ∷ [], without)
    else (found, without)

unfoldable pub add_services : List Service → List String × List String → List String × List String
unfolding add_service
add_services [] lists = lists
add_services (svc ∷ svcs) lists = add_services svcs (add_service svc lists)

unfoldable pub get_load_balancer_sevices :
    Fallible (List Service) → Fallible (List String × List String)
unfolding add_services
get_load_balancer_sevices (err e) = err e
get_load_balancer_sevices (ok svcs) = ok (add_services svcs ([], []))

pub record Pod : Type 0 where
  pub name : String
  pub phase : String

-- The running pods of the list that the API server answers.
unfoldable pub add_pods : List Pod → List String → List String
add_pods [] names = names
add_pods (pod ∷ pods) names =
    add_pods pods (if pod.phase == "Running" then names ++ pod.name ∷ [] else names)

unfoldable pub get_pods_from_node : Fallible (List Pod) → Fallible (ℕ × List String)
unfolding add_pods
get_pods_from_node (err e) = err e
get_pods_from_node (ok pods) = ok (length (add_pods pods []), add_pods pods [])
