-- ===== src/Subr.antt =====
-- The subroutines of bsd/lib/lazybsd_kern_subr.c: the sizes of hash tables, and moves between a
-- buffer and a list of segments.
pub mod Hash
pub mod Uio
mod Examples
