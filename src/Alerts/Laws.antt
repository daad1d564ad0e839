-- ===== src/Alerts/Laws.antt =====
-- When an alert is sent, and what keeps it from being sent twice.
use monitoring_wo_webhooks.Prelude.{
  ap, Bool-cases, inl, inr, ◌↔◌, is_some, if◌then◌else◌, eqb, is_some, ℕ, none, some, Option, ◌≡◌,
  ◌≢◌, refl, String, true, false, some, ◌∷◌, arith, eq_iff,
}
use monitoring_wo_webhooks.Runtime.{
  Event, Fallible, Outside, World, requested, Request, read_file, write_file, send, text_of,
  is_missing,
}
use monitoring_wo_webhooks.Alerts.{
  post_request, refused, now, Option, returned, post, pure, fill, List, Dict, Session, Bool, answer,
  missing, notified, accepted, fresh_fingerprint, sub_fingerprint, deliver, error_of,
  missing_fingerprint,
}

module _ (o : Outside) where
  text-missing :
      (name : String) (w : World) → is_missing name w ≡ true → text_of (read_file o name w) ≡ ""
  unfolding is_missing read_file
  text-missing name w h = ground arith

  pub sub_fingerprint_missing :
      (status name : String) (w : World)
      → status ≡ "resolved"
      → is_missing name w ≡ true
      → sub_fingerprint o status name w ≡ (missing (missing_fingerprint status name), w)
  unfolding sub_fingerprint
  sub_fingerprint_missing status name w e h = rw (e, text-missing name w h, sub_fingerprint) refl

  deliver_not_200 :
      (r : Request) (name fingerprint : String) (w : World) (code : ℕ) (text : Fallible String)
      → o.request_error r.method r.url ≡ none
      → o.response w.log r ≡ answer code text
      → code ≢ 200
      → (error_of (deliver o r name fingerprint w).0 ≡ none)
        × ((deliver o r name fingerprint w).1 ≡ record w { log = requested r ∷ w.log })
  unfolding deliver send
  deliver_not_200 r name fingerprint w code text fine answered other = ground arith

  pub deliver_accepted :
      (r : Request) (name fingerprint : String) (w : World)
      → (deliver o r name fingerprint w).0 ≡ accepted
      → o.write_fails (requested r ∷ w.log) name ≡ false
      → (deliver o r name fingerprint w).1.files name ≡ some fingerprint
  unfolding deliver send write_file
  deliver_accepted r name fingerprint w h k = ground (arith, eq_iff name name)

  -- A delivery of a fingerprint that is not empty, which is accepted and whose file is written, is
  -- the last one: in every world where that file is unchanged and can be read, the next firing
  -- alert finds it and sends nothing.
  pub deliver_once :
      (r : Request) (name fingerprint : String) (w : World)
      → fingerprint ≢ ""
      → (deliver o r name fingerprint w).0 ≡ accepted
      → o.write_fails (requested r ∷ w.log) name ≡ false
      → (v : World) → v.files name ≡ (deliver o r name fingerprint w).1.files name
      → o.read_fails v.log name ≡ false
      → fresh_fingerprint o name v ≡ (notified, v)
  unfolding fresh_fingerprint read_file
  deliver_once r name fingerprint w ne h k v same readable =
      ground (arith, deliver_accepted r name fingerprint w h k, eq_iff fingerprint "")

deliver_code :
    (o : Outside) (r : Request) (name fingerprint : String) (w : World) (code : ℕ)
    (text : Fallible String)
    → o.request_error r.method r.url ≡ none
    → o.response w.log r ≡ answer code text
    → (deliver o r name fingerprint w).0 ≡ (if eqb code 200 then accepted else refused)
unfolding deliver send
deliver_code o r name fingerprint w code text fine answered = ground arith

-- Where the fingerprint file is not there, and can be written and read, a request that can be made
-- and is answered gives the caller no error, whatever the status of the answer. Only after the
-- status 200 does the next firing alert count as notified; after every other one it is sent anew.
pub deliver_by_code :
    (o : Outside) (r : Request) (name fingerprint : String) (w : World) (code : ℕ)
    (text : Fallible String)
    → fingerprint ≢ ""
    → is_missing name w ≡ true
    → ((log : List Event) → o.write_fails log name ≡ false)
    → ((log : List Event) → o.read_fails log name ≡ false)
    → o.request_error r.method r.url ≡ none
    → o.response w.log r ≡ answer code text
    → let v = (deliver o r name fingerprint w).1 in
      (error_of (deliver o r name fingerprint w).0 ≡ none)
      × (((fresh_fingerprint o name v).0 ≡ notified) ↔ (code ≡ 200))
unfolding fresh_fingerprint is_missing
deliver_by_code o r name fingerprint w code text ne gone writable readable fine answered =
    let v = (deliver o r name fingerprint w).1 in
    let ended = deliver_code o r name fingerprint w code text fine answered in
    elim (Bool-cases (eqb code 200)) [
      | inl success ↦
          let accepts : (deliver o r name fingerprint w).0 ≡ accepted = ground arith in
          let once =
            deliver_once o r name fingerprint w ne accepts (writable (requested r ∷ w.log)) v refl
              (readable v.log) in
          (ground arith, ((λ h. ground arith), λ h. ap (λ c. c.0) once))
      | inr another ↦
          let other : code ≢ 200 = ground arith in
          let kept = deliver_not_200 o r name fingerprint w code text fine answered other in
          let still : is_missing name v ≡ true = rw kept.1 gone in
          let empty = text-missing o name v still in
          (
            kept.0,
            (
              (λ h. absurd (ground (arith, eq_iff (text_of (read_file o name v)) ""))),
              λ h. absurd (other h),
            ),
          )
    ]

-- The map that a notification fills.
abbrev pub filled_map : String → String → String → String → String → Dict → Dict
filled_map fingerprint status started alert message d =
    ("message", message)
    ∷ ("alertName", alert)
    ∷ ("startsAt", started)
    ∷ ("status", status)
    ∷ ("fingerprint", fingerprint)
    ∷ d

pub fill_lem :
    {St : Type 0} (o : Outside) (fingerprint status alert message : String) (s : Session St)
    (d : Dict)
    → s.payload ≡ some d
    → fill o fingerprint status (pure alert) (pure message) s
      ≡ returned tt (record s {
        world = (now o s.world).1;
        payload =
            some (filled_map fingerprint status (o.show_time (now o s.world).0) alert message d);
      })
fill_lem o fingerprint status alert message s d e = rw e refl

pub payload_of : (p : Option Dict) → is_some p ≡ true → (d : Dict) × (p ≡ some d)
payload_of none h = absurd (ground arith)
payload_of (some d) h = (d, refl)

-- A POST is accepted exactly if it is answered by 200.
pub post_code :
    {St : Type 0} (o : Outside) (skip : Bool) (url username password name fingerprint : String)
    (s : Session St) (d : Dict) (code : ℕ) (text : Fallible String)
    → s.payload ≡ some d
    → ((method url : String) → o.request_error method url ≡ none)
    → ((log : List Event) (r : Request) → o.response log r ≡ answer code text)
    → (w : World) × (post o skip url username password name fingerprint s
        ≡ returned (if eqb code 200 then accepted else refused) (record s { world = w }))
post_code o skip url username password name fingerprint s d code text e fine answers =
    let r = post_request o skip url username password d in
    let h =
      deliver_code o r name fingerprint s.world code text (fine r.method r.url)
        (answers s.world.log r) in
    ((deliver o r name fingerprint s.world).1, ground arith)
