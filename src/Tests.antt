-- ===== src/Tests.antt =====
-- Runs of the model on concrete input, and the theorems at such input.
mod World
mod Shared
mod PortScan
mod VmScan
mod ContainerScan
mod MetallbScan
mod Speakers
