-- ===== src/Tests/Speakers.antt =====
-- Endpoints, speakers and mails of the MetalLB scan at concrete input.
use monitoring_wo_webhooks.Prelude.{◌≡◌, refl, ◌==◌, false, none, some, [], ◌∷◌, if◌then◌else◌}
use monitoring_wo_webhooks.Prelude.Int.{pos}
use monitoring_wo_webhooks.Runtime.{Session, World, ok, returned, ran, wrote, is_missing}
use monitoring_wo_webhooks.Runtime.Always.{Always}
use monitoring_wo_webhooks.MetallbScan.Types.{MetallbScanSpec, MetallbScanStatus}
use monitoring_wo_webhooks.MetallbScan.Services.{Service}
use monitoring_wo_webhooks.MetallbScan.Util.{
  alert_mail, recovered_mail, send_email_alert, send_email_recovered_alert,
}
use monitoring_wo_webhooks.MetallbScan.Util.Laws.{alert-again-recovered}
use monitoring_wo_webhooks.MetallbScan.Endpoints.{
  Address, EndpointApi, LbService, get_svc_end_points,
}
use monitoring_wo_webhooks.MetallbScan.Endpoints.Laws.{get_svc_end_points_lem}
use monitoring_wo_webhooks.MetallbScan.Speakers.{SpeakerApi, get_bgp_ip_route}
use monitoring_wo_webhooks.MetallbScan.Speakers.Laws.{Untouched}
use monitoring_wo_webhooks.MetallbScan.Workers.{check_bgp_hop_workers}
use monitoring_wo_webhooks.MetallbScan.Workers.Laws.{IsOther, check_bgp_hop_workers-Untouched}
use monitoring_wo_webhooks.MetallbScan.Workers.Routes.{get_bgp_ip_route-Untouched}
use monitoring_wo_webhooks.Tests.World.{outside, outside-IsDocumented, world}

abbrev spec : MetallbScanSpec
spec = record {
  suspend = none;
  ignore_bfd = none;
  ignore_no_bgp_hop = none;
  worker_label = none;
  speaker_pod_label = none;
  suspend_email_alert = some false;
  email = "e";
  cluster = none;
  metallb_namespace = none;
  relay_host = "r";
  notify_external = none;
  external_url = "";
  external_data = "";
  external_secret = "";
  check_interval = none;
}

-- One check of this scan, and one of another kind.
abbrev start : Session MetallbScanStatus
start = record {
  world = world;
  status = record {
    conditions = [];
    last_run_time = none;
    incident_id = [];
    failed_checks =
        "no speaker pod is found in node n1 in namespace m" ∷ "service a is not advertised" ∷ [];
    last_successful_run_time = none;
    healthy = false;
  };
  payload = none;
}

abbrev svc : Service
svc = record {
  name = "a";
  namespace = "n";
  kind = "LoadBalancer";
  load_balancer_ip = "1";
  ingress = none;
}

abbrev address : Address
address = record {
  ip = "10.0.0.1";
  node_name = some "n1";
  target = some (record { kind = "Pod"; name = "p"; namespace = "n" });
}

abbrev endpoint_api : EndpointApi
endpoint_api = record {
  endpoints = λ ns name. ok (some (address ∷ []) ∷ []);
  phase = λ ns name. ok "Pending";
}

abbrev served : LbService
served = record {
  name = "a";
  namespace = "n";
  lbip = "1";
  ends = record {
    names = "p" ∷ [];
    ips = "10.0.0.1" ∷ [];
    nodes = some "n1" ∷ [];
    statuses = false ∷ [];
  };
}

get_svc_end_points_lem_example :
    get_svc_end_points endpoint_api ("a:n:1" ∷ []) start ≡ returned (ok (served ∷ [])) start
get_svc_end_points_lem_example =
    get_svc_end_points_lem endpoint_api (((svc, "1"), some (address ∷ []) ∷ []) ∷ []) start (
      (refl, refl, refl),
      refl,
      (((record { kind = "Pod"; name = "p"; namespace = "n" }, refl, ("Pending", refl)), tt), tt),
      tt,
    )

-- The first node has a speaker again, and the second one has none.
abbrev speaker_api : SpeakerApi
speaker_api = record {
  pods = λ node. ok (if node == "n1" then record { name = "s1"; phase = "Running" } ∷ [] else []);
  daemon_sets = ok (record { name = "speaker"; desired = 2; current = 1 } ∷ []);
  nodes = ok ("n1" ∷ "n2" ∷ []);
  printed = λ log pod command. "10.20.30.40 valid\n";
  decode = λ text. ok (record {
    remote_as = pos 64_500;
    bgp_state = "Established";
    up_timer = "1d";
    bfd_status = "up";
  });
  open_error = λ log name. none;
}

check_bgp_hop_workers-Untouched_example :
    Always
      (Untouched (IsOther "m") start)
      (check_bgp_hop_workers outside speaker_api "m" spec "hub" start)
check_bgp_hop_workers-Untouched_example =
    check_bgp_hop_workers-Untouched outside outside-IsDocumented speaker_api "m" spec start "hub"
      (refl, (refl, tt))

get_bgp_ip_route-Untouched_example :
    Always
      (Untouched (IsOther "m") start)
      (get_bgp_ip_route outside speaker_api "m" spec (served ∷ []) start)
get_bgp_ip_route-Untouched_example =
    get_bgp_ip_route-Untouched outside outside-IsDocumented speaker_api "m" spec start (served ∷ [])
      (refl, (refl, tt))

abbrev alerted : World
alerted = send_email_alert outside "hub" "f" spec "down" world

alert-again-recovered_example :
    (alerted.log ≡ wrote "f" "sent" ∷ ran (alert_mail spec "hub" "down") ∷ [])
    × (send_email_alert outside "hub" "f" spec "down" alerted ≡ alerted)
    × ((send_email_recovered_alert outside "hub" "f" spec "up" alerted).log
        ≡ ran (recovered_mail spec "hub" "up") ∷ alerted.log)
unfolding is_missing
alert-again-recovered_example =
    alert-again-recovered outside "hub" "f" spec "down" "down" "up" world refl refl refl
