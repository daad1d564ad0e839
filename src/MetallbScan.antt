-- ===== src/MetallbScan.antt =====
-- Of the scan of MetalLB (internal/metallbscan/util/util.go and the functions behind `Reconcile` in
-- internal/controller/metallbscan_controller.go): its services, its routes, and its address pools.
pub mod Services
pub mod Routes
pub mod Hops
pub mod Types
pub mod Util
pub mod Upgrades
pub mod Endpoints
pub mod Speakers
pub mod Workers
pub mod Keys
pub mod Pools
pub mod Advertisements
