-- ===== src/Tests/Shared.antt =====
-- The shared components at concrete input.
use monitoring_wo_webhooks.Prelude.{
  ℕ, ◌↔◌, ◌≡◌, refl, false, none, some, [], ◌∷◌, arith, eq_iff, length,
}
use monitoring_wo_webhooks.Runtime.{is_missing, Request, Session, returned, ok, send}
use monitoring_wo_webhooks.Conditions.{Condition, get_condition, set_condition, stamp, blank}
use monitoring_wo_webhooks.Conditions.Laws.{get-set, get-set_other, length-set}
use monitoring_wo_webhooks.Slices.{delete_listed}
use monitoring_wo_webhooks.Slices.Laws.{remove, delete_listed_lem}
use monitoring_wo_webhooks.Alerts.{notified, error_of, deliver, fresh_fingerprint}
use monitoring_wo_webhooks.Alerts.Laws.{deliver_once, deliver_by_code}
use monitoring_wo_webhooks.Tests.World.{outside, outside-IsDocumented, world, refusing}

abbrev other : Condition
other = record {
  ctype = "Other";
  status = "True";
  last_transition_time = none;
  reason = "";
  message = "";
}

get-set_example :
    get_condition "Ready" (set_condition outside "Ready" "True" "r" "m" (other ∷ []) world).0
    ≡ some (stamp outside "True" "r" "m" (blank "Ready") world).0
unfolding get_condition
get-set_example = get-set outside "Ready" "True" "r" "m" (other ∷ []) world

get-set_other_example :
    get_condition "Other" (set_condition outside "Ready" "True" "r" "m" (other ∷ []) world).0
    ≡ some other
unfolding get_condition
get-set_other_example =
    get-set_other outside "Ready" "True" "r" "m" "Other" (other ∷ []) world
      (λ h. absurd (ground (arith, eq_iff "Other" "Ready")))

length-set_example : length (set_condition outside "Ready" "True" "r" "m" (other ∷ []) world).0 ≡ 2
unfolding get_condition
length-set_example = length-set outside "Ready" "True" "r" "m" (other ∷ []) world

abbrev session : Session (Unit {0})
session = record { world = world; status = tt; payload = none }

delete_listed_lem_example :
    delete_listed outside ("a" ∷ "b" ∷ []) "b" session ≡ returned ("a" ∷ []) session
unfolding remove
delete_listed_lem_example =
    delete_listed_lem outside outside-IsDocumented ("a" ∷ "b" ∷ []) "b" session

abbrev request : Request
request = record {
  method = "POST";
  url = "u";
  query = [];
  headers = [];
  body = [];
  skip_verify = false;
}

deliver_once_example :
    let v = (deliver outside request "f" "0a" world).1 in
    fresh_fingerprint outside "f" v ≡ (notified, v)
unfolding deliver send
deliver_once_example =
    deliver_once outside request "f" "0a" world (λ h. absurd (ground (arith, eq_iff "0a" ""))) refl
      refl (deliver outside request "f" "0a" world).1 refl refl

deliver_by_code_example :
    let v = (deliver refusing request "f" "0a" world).1 in
    (error_of (deliver refusing request "f" "0a" world).0 ≡ none)
    × (((fresh_fingerprint refusing "f" v).0 ≡ notified) ↔ (◌≡◌ {A = ℕ} 500 200))
unfolding is_missing
deliver_by_code_example =
    deliver_by_code refusing request "f" "0a" world 500 (ok "")
      (λ h. absurd (ground (arith, eq_iff "0a" ""))) refl (λ log. refl) (λ log. refl) refl refl
