-- ===== src/MetallbScan/Speakers.antt =====
-- What the speaker pods say of routes and hops: `checkSpeakerDaemonset`, `GetBGPIPRoute`,
-- `checkBGPHopStatus`, `CheckBGPHopWorkers` and `writeFile` of
-- internal/controller/metallbscan_controller.go.
pub mod Laws
use Prim.Native.Char.{code}
use Prim.Native.String.{count}
use Prim.Native.String
use mathlib.Core.Option
use monitoring_wo_webhooks.Prelude.{
  eqb, ℕ, String, ◌<>◌, Bool, true, false, not, ◌&&◌, Option, none, some, List, [], ◌∷◌, ◌++◌, ◌==◌,
  if◌then◌else◌, is_set, is_unset,
}
use monitoring_wo_webhooks.Prelude.Text.{drop, cut, split, trim_prefix, trim_suffix}
use monitoring_wo_webhooks.Prelude.Int.{ℤ, is_zero}
use monitoring_wo_webhooks.Runtime.{
  Outside, World, Event, Fallible, ok, err, M, returned, panicked, pure, panic, ◌>>=◌, ◌>>◌,
  on_world, act, look, modify, get_status, when, at, read_file, remove_file, is_missing, wrote,
}
use monitoring_wo_webhooks.Slices.{delete_listed}
use monitoring_wo_webhooks.MetallbScan.Types.{MetallbScanSpec, MetallbScanStatus}
use monitoring_wo_webhooks.MetallbScan.Util.{
  handle_cn_string, send_email_alert, send_email_recovered_alert,
}
use monitoring_wo_webhooks.MetallbScan.Services.{Pod, get_pods_from_node}
use monitoring_wo_webhooks.MetallbScan.Routes.{Answer, check_lb_ip_route}
use monitoring_wo_webhooks.MetallbScan.Hops.{retrieve_bgp_hop}
use monitoring_wo_webhooks.MetallbScan.Endpoints.{LbService}

pub record DaemonSet : Type 0 where
  pub name : String
  pub desired : ℕ
  pub current : ℕ

-- The fields of `BGPHopStatus` that are read.
pub record HopStatus : Type 0 where
  pub remote_as : ℤ
  pub bgp_state : String
  pub up_timer : String
  pub bfd_status : String

-- The speaker pods of a node, the daemon sets, the names of the nodes, what `vtysh` in the container
-- "frr" of a pod prints for a command, and the decoding of JSON.
pub record SpeakerApi : Type 0 where
  pub pods : String → Fallible (List Pod)
  pub daemon_sets : Fallible (List DaemonSet)
  pub nodes : Fallible (List String)
  pub printed : List Event → String → String → String
  pub decode : String → Fallible HopStatus
  -- the error of `os.OpenFile`
  pub open_error : List Event → String → Option String

pub record BgpRoute : Type 0 where
  pub svcname : String
  pub namespace : String
  pub lbip : String
  pub speak_pod : String
  pub answer : Answer
  pub node_name : String

pub record BgpHop : Type 0 where
  pub node_name : String
  pub ip : String
  pub remote_as : ℤ
  pub valid : Bool
  pub validstatus : String
  pub established : String
  pub up_timer : String
  pub bfdstatus : String

unfoldable pub find_scheduled : List DaemonSet → Bool
find_scheduled [] = false
find_scheduled (d ∷ ds) =
    if not (d.name == "") && eqb d.desired d.current then true else find_scheduled ds

unfoldable pub check_speaker_daemonset : Fallible (List DaemonSet) → Fallible Bool
unfolding find_scheduled
check_speaker_daemonset (err e) = err e
check_speaker_daemonset (ok sets) = ok (find_scheduled sets)

abbrev pub file : String → String
file name = "/home/golanguser/files/metallb/." <> name

abbrev pub alert_file : String → String → String
alert_file node kind = file (handle_cn_string node <> ("." <> (kind <> ".txt")))

abbrev pub gone : String → String → String
gone node ns = "no speaker pod is found in node " <> (node <> (" in namespace " <> ns))

abbrev pub not_running : String → String → String
not_running node ns =
    "no speaker pod is in running status in node " <> (node <> (" in namespace " <> ns))

abbrev pub no_hops : String → String → String
no_hops pod node =
    "no configured hops are found in speaker pod " <> (pod <> (" running in node " <> node))

-- `strings.Trim(s, "\n")`
unfoldable pub trim_front : String → String
trim_front String.[] = ""
trim_front (String.◌∷◌ c s) = if eqb (code c) 10 then trim_front s else String.◌∷◌ c s

unfoldable pub trim_back : String → String
trim_back String.[] = ""
trim_back (String.◌∷◌ c s) =
    let rest = trim_back s in if rest == "" && eqb (code c) 10 then "" else String.◌∷◌ c rest

-- `strings.Replace(s, old, new, 1)`
unfoldable pub replace_first : String → String → String → String
unfolding cut
replace_first s old new = elim (cut s old) [ none ↦ s | some (a, b) ↦ a <> (new <> b) ]

-- The object of one neighbour, without the object around it.
unfoldable pub inner_json : String → String → String
unfolding trim_front trim_back replace_first trim_prefix trim_suffix
inner_json hop text =
    let trimmed = trim_prefix (trim_back (trim_front text)) "{" in
    trim_suffix (replace_first trimmed ("\"" <> (hop <> "\":{")) "{") "}"

module _ (o : Outside) where
  -- `os.OpenFile` with O_CREATE|O_RDWR: the error, if any. A missing file is made empty.
  unfoldable pub open_output : SpeakerApi → String → World → Option String × World
  open_output api name w = elim (api.open_error w.log name) [
    | some e ↦ (some e, w)
    | none ↦
        if is_missing name w
        then (
          none,
          record w {
            files = λ f. if f == name then some "" else w.files f;
            log = wrote name "" ∷ w.log;
          },
        )
        else (none, w)
  ]

  -- The output goes over the front of what the file holds.
  unfoldable pub write_output : SpeakerApi → String → String → String → World → World
  unfolding drop
  write_output api command name pod w =
      let text = api.printed w.log pod command in
      record w {
        files = λ f.
            if f == name
            then Option.map (λ old. text <> drop (count text) old) (w.files f)
            else w.files f;
        log = wrote name text ∷ w.log;
      }

  unfoldable pub check_bgp_hop_status :
      SpeakerApi → String → String → M MetallbScanStatus (Fallible HopStatus)
  unfolding inner_json
  check_bgp_hop_status api name hop = do
    content ← look (read_file o name)
    elim content [
      | err e ↦ pure (err e)
      | ok text ↦ elim (api.decode (inner_json hop text)) [
        | err e ↦ pure (err e)
        | ok status ↦ act (remove_file o name) >> pure (ok status)
      ]
    ]

  module _ (api : SpeakerApi) (ns : String) (spec : MetallbScanSpec) where
    -- A check that fails is mailed and listed, unless it is listed.
    unfoldable pub mail_and_list :
        String → String → String → String → M MetallbScanStatus (Unit {0})
    mail_and_list host name check text = do
      st ← get_status
      when (not (o.contains st.failed_checks check)) (do
        when (is_unset spec.suspend_email_alert) (act (send_email_alert o host name spec text))
        modify (λ st. record st { failed_checks = st.failed_checks ++ check ∷ [] }))

    -- The same, in the other order.
    unfoldable pub list_and_mail :
        String → String → String → String → M MetallbScanStatus (Unit {0})
    list_and_mail host name check text = do
      st ← get_status
      when (not (o.contains st.failed_checks check)) (do
        modify (λ st. record st { failed_checks = st.failed_checks ++ check ∷ [] })
        when (is_unset spec.suspend_email_alert) (act (send_email_alert o host name spec text)))

    -- A check that succeeds again: the mail goes by one file name, and another file is removed.
    unfoldable pub recover :
        String → String → String → String → String → M MetallbScanStatus (Unit {0})
    recover host mailed name check text = do
      st ← get_status
      when (o.contains st.failed_checks check) (do
        when (is_unset spec.suspend_email_alert)
            (act (send_email_recovered_alert o host mailed spec text))
        checks ← delete_listed o st.failed_checks check
        modify (λ st. record st { failed_checks = checks })
        act (remove_file o name))

    abbrev pub running_pods : String → List String
    running_pods node = elim (get_pods_from_node (api.pods node)) [ err e ↦ [] | ok p ↦ p.1 ]

    -- The route to an address, as the speaker pod of a node has it.
    unfoldable pub ask_route :
        LbService → String → String → List BgpRoute → M MetallbScanStatus (Fallible (List BgpRoute))
    unfolding recover open_output write_output
    ask_route sv node pod routes = do
      let name = alert_file node "norunningspeaker"
      recover node name name (not_running node ns)
          ("speaker pod found in running status in node " <> (node <> (" in namespace " <> ns)))
      let output = file (pod <> "-bgpoutput.txt")
      e ← on_world (open_output api output)
      elim e [
        | some e ↦ pure (err e)
        | none ↦ do
          act (write_output api "show ip bgp" output pod)
          r ← check_lb_ip_route o output sv.lbip
          elim r [
            | err e ↦ pure (err e)
            | ok a ↦ pure (
                ok (
                  routes
                  ++ record {
                    svcname = sv.name;
                    namespace = sv.namespace;
                    lbip = sv.lbip;
                    speak_pod = pod;
                    answer = a;
                    node_name = node;
                  }
                    ∷ []))
          ]
      ]

    unfoldable pub check_route :
        LbService → String → List BgpRoute → M MetallbScanStatus (Fallible (List BgpRoute))
    unfolding mail_and_list ask_route get_pods_from_node
    check_route sv node routes =
        elim (running_pods node) as (λ _. M MetallbScanStatus (Fallible (List BgpRoute))) [
          | [] ↦
              mail_and_list node (alert_file node "norunningspeaker") (not_running node ns)
                (not_running node ns)
              >> pure (ok routes)
          | pod ∷ pods ↦ ask_route sv node pod routes
        ]

    -- The loop over the nodes of a service, which are read through pointers.
    unfoldable pub check_routes :
        LbService
        → List (Option String)
        → List BgpRoute
        → M MetallbScanStatus (Fallible (List BgpRoute))
    unfolding check_route
    check_routes sv [] routes = pure (ok routes)
    check_routes sv (node ∷ nodes) routes =
        let rest : List BgpRoute → M MetallbScanStatus (Fallible (List BgpRoute)) =
          λ l. check_routes sv nodes l in
        elim node [
          | none ↦ panic
          | some n ↦ do r ← check_route sv n routes; elim r [ err e ↦ pure (err e) | ok l ↦ rest l ]
        ]

    unfoldable pub add_routes :
        List LbService → List BgpRoute → M MetallbScanStatus (Fallible (List BgpRoute))
    unfolding check_routes
    add_routes [] routes = pure (ok routes)
    add_routes (sv ∷ svs) routes =
        let rest : List BgpRoute → M MetallbScanStatus (Fallible (List BgpRoute)) =
          λ l. add_routes svs l in
        if sv.lbip == "" then rest routes else (do
          r ← check_routes sv sv.ends.nodes routes
          elim r [ err e ↦ pure (err e) | ok l ↦ rest l ])

    unfoldable pub get_bgp_ip_route :
        List LbService → M MetallbScanStatus (Fallible (List BgpRoute))
    unfolding add_routes
    get_bgp_ip_route svs = add_routes svs []
