-- ===== src/MetallbScan/Workers/Files.antt =====
-- What reads the files of the speakers changes the world alone, whether it returns or panics.
use monitoring_wo_webhooks.Prelude.{String, ◌<>◌, List, [], ◌∷◌, ◌==◌}
use monitoring_wo_webhooks.Prelude.Text.{contains, split}
use monitoring_wo_webhooks.Runtime.{Outside, World, Session, read_file, remove_file}
use monitoring_wo_webhooks.Runtime.Always.{
  Always, bind-Always, pure-Always, at-Always, if-Always, fallible-Always,
}
use monitoring_wo_webhooks.MetallbScan.Hops.{is_address, trim, add_hops, retrieve_bgp_hop}
use monitoring_wo_webhooks.MetallbScan.Routes.{judge_line, check_lines, check_lb_ip_route}
use monitoring_wo_webhooks.MetallbScan.Types.{MetallbScanStatus}
use monitoring_wo_webhooks.MetallbScan.Speakers.{SpeakerApi, inner_json, check_bgp_hop_status}

module _ {St : Type 0} (P : Session St → Type 0)
    (quiet : (w : World) (t : Session St) → P t → P (record t { world = w })) where
  judge_line-Always :
      (route : String) (fields : List String) (t : Session St)
      → P t
      → Always P (judge_line route fields t)
  unfolding judge_line
  judge_line-Always route fields t p = bind-Always P _ _ (at-Always P fields 0 t p) (λ mark u q.
      if-Always P (mark == "*>") _ _ u
        (bind-Always P _ _ (at-Always P fields 1 u q) (λ net v r. pure-Always P _ v r))
        (bind-Always P _ _ (at-Always P fields 1 u q) (λ net v r. pure-Always P _ v r)))

  check_lines-Always :
      (route : String) (lines : List String) (t : Session St)
      → P t
      → Always P (check_lines route lines t)
  unfolding check_lines
  check_lines-Always route [] t p = pure-Always P _ t p
  check_lines-Always route (line ∷ lines) t p =
      if-Always P (contains line route) _ _ t (judge_line-Always route (split b' ' line) t p)
        (check_lines-Always route lines t p)

  pub check_lb_ip_route-Always :
      (o : Outside) (name ip : String) (t : Session St)
      → P t
      → Always P (check_lb_ip_route o name ip t)
  unfolding check_lb_ip_route
  check_lb_ip_route-Always o name ip t p =
      fallible-Always P (read_file o name t.world) _ _ t (λ e. pure-Always P _ t p)
        (λ text.
          let w = remove_file o name t.world in
          bind-Always P _ _
            (check_lines-Always (ip <> "/32") (split 10 text) (record t { world = w })
              (quiet w t p))
            (λ a u q. pure-Always P _ u q))

  add_hops-Always :
      (lines hops : List String) (t : Session St) → P t → Always P (add_hops lines hops t)
  unfolding add_hops
  add_hops-Always [] hops t p = pure-Always P _ t p
  add_hops-Always (line ∷ lines) hops t p =
      let rest : (hops : List String) (t : Session St) → P t → Always P (add_hops lines hops t) =
        λ hops t p. add_hops-Always lines hops t p in
      let fields = split b' ' (trim line) in
      if-Always P (is_address (trim line)) _ _ t
        (bind-Always P _ _ (at-Always P fields 0 t p) (λ first u q.
          if-Always P (is_address first) _ _ u
            (bind-Always P _ _ (at-Always P fields 1 u q) (λ second v r. rest _ v r))
            (rest hops u q)))
        (rest hops t p)

  pub retrieve_bgp_hop-Always :
      (o : Outside) (name : String) (t : Session St) → P t → Always P (retrieve_bgp_hop o name t)
  unfolding retrieve_bgp_hop
  retrieve_bgp_hop-Always o name t p =
      fallible-Always P (read_file o name t.world) _ _ t (λ e. pure-Always P _ t p)
        (λ text.
          bind-Always P _ _ (add_hops-Always (split 10 text) [] t p)
            (λ hops u q. pure-Always P _ _ (quiet (remove_file o name u.world) u q)))

pub check_bgp_hop_status-Always :
    (P : Session MetallbScanStatus → Type 0)
    (quiet : (w : World) (t : Session MetallbScanStatus) → P t → P (record t { world = w }))
    (o : Outside) (api : SpeakerApi) (name hop : String) (t : Session MetallbScanStatus)
    → P t
    → Always P (check_bgp_hop_status o api name hop t)
unfolding check_bgp_hop_status
check_bgp_hop_status-Always P quiet o api name hop t p =
    fallible-Always P (read_file o name t.world) _ _ t (λ e. pure-Always P _ t p)
      (λ text.
        fallible-Always P (api.decode (inner_json hop text)) _ _ t (λ e. pure-Always P _ t p)
          (λ status. pure-Always P _ _ (quiet (remove_file o name t.world) t p)))
