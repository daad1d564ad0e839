-- ===== src/PortScan.antt =====
-- The port scan: api/v1alpha1/portscan_types.go, internal/portscan/portutil/util.go and
-- internal/controller/portscan_controller.go.
pub mod Types
pub mod Util
pub mod Targets
pub mod Webhook
pub mod Controller
