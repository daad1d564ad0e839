-- ===== src/Tests/World.antt =====
-- An outside in which one probe fails, every other call succeeds, and the documentation holds.
use monitoring_wo_webhooks.Prelude.{
  ℕ, ◌+◌, refl, String, ◌<>◌, Bool, false, Option, none, some, List, [], ◌∷◌, ◌==◌, mem,
  first_index,
}
use monitoring_wo_webhooks.Prelude.Int.{pos}
use monitoring_wo_webhooks.Runtime.{Outside, World, answer, ok}
use monitoring_wo_webhooks.Runtime.Laws.{IsDocumented, position}
use monitoring_wo_webhooks.Cluster.{Api}
use monitoring_wo_webhooks.PortScan.Targets.Round.{host_of, port_of, Probes}
use monitoring_wo_webhooks.PortScan.Util.{nc_command}

abbrev pub first_of : List (Option String) → Option String
first_of [] = none
first_of (none ∷ es) = first_of es
first_of (some e ∷ es) = some e

abbrev bytes : ℕ → List ℕ
bytes n = 1 ∷ 2 ∷ 3 ∷ 4 ∷ 5 ∷ 6 ∷ 7 ∷ 8 ∷ 9 ∷ 10 ∷ 11 ∷ 12 ∷ []

abbrev pub outside : Outside
outside = record {
  now = λ k. pos (1_000 + k);
  show_time = λ t. "now";
  random = λ k n. bytes n;
  command_fails = λ log c. c == "/usr/bin/nc -w 3 -zv b 2";
  read_fails = λ log f. false;
  write_fails = λ log f. false;
  remove_fails = λ log f. false;
  request_error = λ m u. none;
  response = λ log r. answer 200 (ok "[]");
  ticket = λ text. ok "INC1";
  base64 = λ text. text;
  contains = λ xs v. mem v xs;
  index = λ xs v. position (first_index xs v);
  update_error = λ log. none;
  aggregate = first_of;
  namespaced_name = λ ns n. ns <> ("/" <> n);
}

pub outside-IsDocumented : IsDocumented outside
outside-IsDocumented = record {
  contains_lem = λ xs v. refl;
  index_lem = λ xs v. refl;
  aggregate_nil = refl;
  aggregate_none = λ es. refl;
  aggregate_some = λ e es. refl;
}

abbrev pub down : String → Bool
down target = outside.command_fails [] (nc_command (host_of target) (port_of target))

pub outside-Probes : Probes outside down
outside-Probes log target h = refl

abbrev pub world : World
world = record { files = λ f. none; log = []; ticks = 0 }

abbrev pub api : Api
api = record {
  config_error = none;
  client_error = none;
  api_config = ok "config";
  subdomain = λ text. ok "apps.test";
  secret = λ ns n. ok ("user", "word");
  config_map = λ ns n. ok (some []);
}

-- The same, with an external system that answers 500.
abbrev pub refusing : Outside
refusing = record outside { response = λ log r. answer 500 (ok "") }
