-- ===== src/Driver.antt =====
-- The packet driver, src/lazybsd_dpdk.cc.
pub mod Filter
pub mod Pages
pub mod TxRing
pub mod Send
pub mod Dispatch
pub mod Input
pub mod Rss
pub mod Lcores
pub mod Messages
pub mod Offload
pub mod Copying
mod Examples
mod QueueExamples
mod DispatchExamples
mod ProcessExamples
mod OffloadExamples
mod CopyExamples
