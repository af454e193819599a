-- ===== src/Callout.antt =====
-- The callout facility of bsd/lib/lazybsd_kern_timeout.c: timers on a hashed wheel.
pub mod Run
pub mod State
pub mod Init
pub mod Api
pub mod Softclock
pub mod Invariant
pub mod Stable
pub mod Reset
pub mod Stop
mod Examples
