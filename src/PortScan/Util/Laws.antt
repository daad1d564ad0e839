-- ===== src/PortScan/Util/Laws.antt =====
-- What the notifications of a port scan leave alone, and that they do not panic.
use monitoring_wo_webhooks.Prelude.{◌≡◌, String, true, [], ◌∷◌, arith, is_some}
use monitoring_wo_webhooks.Runtime.{Outside, Session}
use monitoring_wo_webhooks.Runtime.Laws.{Ensures}
use monitoring_wo_webhooks.PortScan.Types.{PortScanStatus}
use monitoring_wo_webhooks.PortScan.Util.{
  parts, send_alert, sub_notify_external_system, notify_external_system,
}

-- What no notification changes.
pub record Kept (s t : Session PortScanStatus) : Type 0 where
  pub affected : t.status.affected_targets ≡ s.status.affected_targets
  pub polled : t.status.last_poll_time ≡ s.status.last_poll_time
  pub conditions : t.status.conditions ≡ s.status.conditions
  pub incidents : t.status.incident_id ≡ s.status.incident_id
  pub payload : is_some t.payload ≡ is_some s.payload

module _ (o : Outside) (status target url username password name : String) where
  pub send_alert-Kept :
      (fingerprint host port : String) (s : Session PortScanStatus)
      → parts target ≡ host ∷ port ∷ []
      → is_some s.payload ≡ true
      → Ensures
          (λ _ t. Kept s t)
          (send_alert o status target url username password name fingerprint s)
  unfolding send_alert Ensures
  send_alert-Kept fingerprint host port s e h = ground arith

  module _ (host port : String) (s : Session PortScanStatus)
      (split : parts target ≡ host ∷ port ∷ []) (filled : is_some s.payload ≡ true) where
    pub sub_notify-Kept :
        Ensures
          (λ _ t. Kept s t)
          (sub_notify_external_system o status target url username password name s)
    unfolding sub_notify_external_system Ensures
    sub_notify-Kept = ground arith

    pub notify-Kept :
        Ensures
          (λ _ t. Kept s t)
          (notify_external_system o status target url username password name s)
    unfolding notify_external_system Ensures
    notify-Kept = ground arith
