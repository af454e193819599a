-- ===== src/Route.antt =====
-- bsd/lib/lazybsd_route.c: routing messages. This file has what the parts share: what the kernel's headers
-- give, and `struct rt_addrinfo`. A socket address is a pointer into a memory of bytes, with `sa_len` in its
-- first byte and `sa_family` in the second.
pub mod Bytes
pub mod Xaddrs
pub mod Buffer
pub mod Clean
mod Examples
mod CleanExamples
use lazybsd.Prelude.{ℕ, ◌+◌, ◌≤◌, ◌<◌, ◌≡◌, Bool, Option}
use lazybsd.Sock.Address.{Memory}

-- The numbers, macros and functions of the kernel. `sa_size` is SA_SIZE, by `sa_len`; `sa_zero` is the address of
-- the variable of that name; `recovered` are the bytes of a copy that `sa6_recoverscope` has put right.
pub record Kernel : Type 0 where
  pub rtax_max : ℕ
  pub with_inet6 : Bool
  pub af_inet : ℕ
  pub af_inet6 : ℕ
  pub af_link : ℕ
  pub sa_zero : ℕ
  pub sa_size : ℕ → ℕ
  pub align : ℕ → ℕ
  pub embedscope : Memory → ℕ → Memory
  pub recovered : Memory → ℕ → Option (ℕ → ℕ)

-- What SA_SIZE and ALIGN do, and where `sa6_embedscope` writes: to `sin6_addr`.
pub record IsKernel (k : Kernel) : Type 0 where
  pub size : (len : ℕ) → (len ≤ k.sa_size len) × (1 ≤ k.sa_size len)
  pub aligned : (n : ℕ) → n ≤ k.align n
  pub embeds : (m : Memory) (p x : ℕ) → x < p + 8 → k.embedscope m p x ≡ m x

-- `rti_addrs`, by its bits, and `rti_info`
abbrev pub Bits : Type 0
Bits = ℕ → Bool

abbrev pub Info : Type 0
Info = ℕ → Option ℕ
