-- ===== src/PortScan/Targets/Round.antt =====
-- One round of a poll, where the answers of the probes are known.
use monitoring_wo_webhooks.Prelude.{
  ◌≡◌, String, ◌<>◌, Bool, true, none, some, List, [], ◌∷◌, arith, if◌then◌else◌, get_or,
}
use monitoring_wo_webhooks.Prelude.Text.{contains, split_n, is_some-cut}
use monitoring_wo_webhooks.Runtime.{Outside, Event, ran, Session, returned, is_missing, run_fails}
use monitoring_wo_webhooks.Runtime.Laws.{Ensures, returns, IsDocumented}
use monitoring_wo_webhooks.PortScan.Types.{PortScanSpec, PortScanStatus}
use monitoring_wo_webhooks.PortScan.Util.{parts, nc_command, check_server_aliveness}
use monitoring_wo_webhooks.PortScan.Targets.{Poll, mail_file, poll_target}
use monitoring_wo_webhooks.PortScan.Targets.Frame.{
  Moves, IsFilled, add, settled, target_down-Moves, reachable-Moves,
}

-- The two sides of the first colon.
abbrev pub host_of : String → String
host_of target = get_or (parts target) 0 ""

abbrev pub port_of : String → String
port_of target = get_or (parts target) 1 ""

abbrev pub HasPort : String → Type 0
HasPort target = contains target ":" ≡ true

pub parts_lem :
    (target : String) → HasPort target → parts target ≡ host_of target ∷ port_of target ∷ []
unfolding split_n
parts_lem target h = ground (arith, is_some-cut target ":")

-- During the polls considered, a probe of a target always fails or always succeeds.
abbrev pub Probes : Outside → (String → Bool) → Type 0
Probes o down =
    (log : List Event) (target : String)
    → HasPort target
    → o.command_fails log (nc_command (host_of target) (port_of target)) ≡ down target

-- The session after the probe of a target.
abbrev pub probed : String → Session PortScanStatus → Session PortScanStatus
probed target s = record s {
  world = record (s.world) {
    log = ran (nc_command (host_of target) (port_of target)) ∷ s.world.log;
  };
}

module _ (o : Outside) (doc : IsDocumented o) (down : String → Bool) (probes : Probes o down)
    (spec : PortScanSpec) (username password node : String) where
  check-probed :
      (target : String) (s : Session PortScanStatus)
      → HasPort target
      → check_server_aliveness o target s
        ≡ returned
            (if down target
              then some ("target " <> (host_of target <> " is unreachable"))
              else none)
            (probed target s)
  unfolding check_server_aliveness run_fails
  check-probed target s h = ground (arith, parts_lem target h, probes s.world.log target h)

  abbrev pub next_affected : Poll → String → Session PortScanStatus → List String
  next_affected poll target s =
      if down target
      then add target s.status.affected_targets
      else settled target poll (is_missing (mail_file (host_of target) (port_of target)) s.world)
          s.status.affected_targets

  pub poll_target-Moves :
      (poll : Poll) (target : String) (s : Session PortScanStatus)
      → HasPort target
      → IsFilled spec s
      → Ensures
          (λ e t.
            (e ≡ (if down target then some (host_of target) else none))
            × Moves (next_affected poll target s) s t)
          (poll_target o spec username password node poll target s)
  unfolding poll_target
  poll_target-Moves poll target s h filled =
      let p = probed target s in
      let host = host_of target in
      let port = port_of target in
      let split = parts_lem target h in
      let (_, t, lost, m) = returns (
        target_down-Moves o doc spec username password node target host port split poll p filled) in
      let (_, u, found, n) =
        returns (
          reachable-Moves o doc spec username password node target host port split poll p filled) in
      rw (check-probed target s h) (unfold Ensures is_missing in ground (arith, parts_lem target h))
