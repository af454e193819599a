-- ===== src/Env.antt =====
-- The kernel environment of bsd/lib/lazybsd_kern_environment.c: names, their values, and the numbers
-- read from them.
pub mod Lookup
pub mod Number
pub mod Array
mod Examples
