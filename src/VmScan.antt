-- ===== src/VmScan.antt =====
-- The scan of virtual machines: api/v1alpha1/vmscan_types.go and vmscan_webhook.go,
-- internal/vmscan/util/util.go and internal/controller/vmscan_controller.go.
pub mod Types
pub mod Util
pub mod Migrations
pub mod Placement
pub mod Controller
pub mod Webhook
