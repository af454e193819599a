-- ===== src/Printf.antt =====
-- The kernel's printf, bsd/lib/lazybsd_subr_prf.c: numbers as text, directives, formats and the
-- buffer before the console.
pub mod Number
mod Examples
pub mod Width
pub mod Format
pub mod Output
pub mod Convert
pub mod Directive
pub mod Console
pub mod Buffer
