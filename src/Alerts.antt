-- ===== src/Alerts.antt =====
-- What the notification code of the four internal/*/util.go has in common: the fingerprint file
-- that keeps an alert from being sent twice, the request to the external system, and the query
-- for the incident that it opened.
pub mod Laws
pub mod Mails
use monitoring_wo_webhooks.Prelude.{
  ℕ, String, ◌<>◌, Bool, true, false, Option, none, some, List, [], ◌∷◌, ◌==◌, if◌then◌else◌, eqb,
}
use monitoring_wo_webhooks.Prelude.Text.{split_after_first, trim_prefix, trim_suffix}
use monitoring_wo_webhooks.Runtime.{
  Outside, World, Fallible, ok, err, Dict, Request, Response, no_answer, answer, Session, M,
  Outcome, returned, panicked, pure, ◌>>=◌, ◌>>◌, on_world, act, look, set_data, now, random_string,
  read_file, write_file, send, text_of,
}

-- The fingerprint to send, or why nothing is sent.
pub data Choice : Type 0 where
  missing : String → Choice
  notified : Choice
  use_fingerprint : String → Choice

-- How the POST ended: an error, an answer other than 200, or an answer 200.
pub data Delivery : Type 0 where
  failed : String → Delivery
  refused : Delivery
  accepted : Delivery

-- What the functions return: for an answer other than 200 the `err` in scope, which is nil there.
abbrev pub error_of : Delivery → Option String
error_of (failed e) = some e
error_of refused = none
error_of accepted = none

abbrev pub missing_fingerprint : String → String → String
missing_fingerprint status name =
    "unable to notify the system for the "
    <> (status <> (" status due to missing fingerprint in the file " <> name))

module _ (o : Outside) where
  -- The first test of `NotifyExternalSystem`.
  unfoldable pub fresh_fingerprint : String → World → Choice × World
  fresh_fingerprint name w =
      if text_of (read_file o name w) == ""
      then (use_fingerprint (random_string o 10 w).0, (random_string o 10 w).1)
      else (notified, w)

  -- The first test of `SubNotifyExternalSystem`.
  unfoldable pub sub_fingerprint : String → String → World → Choice × World
  unfolding fresh_fingerprint
  sub_fingerprint status name w =
      if status == "resolved"
      then if text_of (read_file o name w) == ""
        then (missing (missing_fingerprint status name), w)
        else (use_fingerprint (text_of (read_file o name w)), w)
      else fresh_fingerprint name w

  unfoldable pub basic_auth : String → String → String
  basic_auth username password = o.base64 (username <> (":" <> password))

  unfoldable pub post_request : Bool → String → String → String → Dict → Request
  unfolding basic_auth
  post_request skip url username password d = record {
    method = "POST";
    url = url;
    query = [];
    headers =
        ("Authorization", "Basic " <> basic_auth username password)
        ∷ ("User-Agent", "Openshift")
        ∷ ("Content-Type", "application/json")
        ∷ [];
    body = d;
    skip_verify = skip;
  }

  -- From `http.NewRequest` to `writeFile`, whose error is ignored.
  unfoldable pub deliver : Request → String → String → World → Delivery × World
  deliver r name fingerprint w = elim (o.request_error r.method r.url) [
    | some e ↦ (failed e, w)
    | none ↦ elim (send o r w).0 [
      | no_answer e ↦ (failed e, (send o r w).1)
      | answer code text ↦
          if eqb code 200
          then (accepted, (write_file o name fingerprint (send o r w).1).1)
          else (refused, (send o r w).1)
    ]
  ]

  -- `SetIncidentID`: the first ticket that the external system lists for the fingerprint.
  unfoldable pub get_request : Bool → String → String → String → String → Request
  unfolding basic_auth
  get_request skip url username password fingerprint = record {
    method = "GET";
    url = url;
    query = ("alertKey", fingerprint) ∷ ("maxalarms", "1") ∷ [];
    headers =
        ("Authorization", "Basic " <> basic_auth username password)
        ∷ ("Content-Type", "application/json")
        ∷ [];
    body = [];
    skip_verify = skip;
  }

  unfoldable pub query_incident : Request → World → Fallible String × World
  query_incident r w = elim (o.request_error r.method r.url) [
    | some e ↦ (err e, w)
    | none ↦ elim (send o r w).0 [
      | no_answer e ↦ (err e, (send o r w).1)
      | answer code (err e) ↦ (err e, (send o r w).1)
      | answer code (ok text) ↦ (o.ticket (trim_suffix (trim_prefix text "[") "]"), (send o r w).1)
    ]
  ]

  module _ {St : Type 0} where
    -- The writes to `data`; the texts are computed after the first three of them.
    abbrev pub fill : String → String → M St String → M St String → M St (Unit {0})
    fill fingerprint status alert message = do
      set_data "fingerprint" fingerprint
      set_data "status" status
      t ← on_world (now o)
      set_data "startsAt" (o.show_time t)
      a ← alert
      set_data "alertName" a
      m ← message
      set_data "message" m

    abbrev pub post : Bool → String → String → String → String → String → M St Delivery
    post skip url username password name fingerprint s = elim s.payload [
      | none ↦ panicked s
      | some d ↦
          let r = deliver (post_request skip url username password d) name fingerprint s.world in
          returned r.0 (record s { world = r.1 })
    ]

-- The address that `SetIncidentID` asks.
abbrev pub incident_url : String → String
incident_url url = split_after_first url "co.nz" <> "/rem/api/event/v1/query"
