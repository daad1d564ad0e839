-- ===== src/ContainerScan.antt =====
-- The scan of containers: api/v1alpha1/containerscan_types.go and containerscan_webhook.go, and
-- internal/containerscan/util/util.go and internal/controller/containerscan_controller.go.
pub mod Types
pub mod Util
pub mod Cleanup
pub mod Pods
pub mod Webhook
pub mod Controller
