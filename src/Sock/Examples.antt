-- ===== src/Sock/Examples.antt =====
-- The theorems on bsd/lib/lazybsd_socket.c at work, and runs of its functions.
use lazybsd.Prelude.{ℕ, ◌<◌, ◌≡◌, refl, pos, some, arith, if◌then◌else◌, ◌==◌}
use lazybsd.Sock.Address.{Memory, linux2freebsd_sockaddr}
use lazybsd.Sock.Address.Trips.{IsFamily}
use lazybsd.Sock.Options.{OptName, so_error, ip_tos, Kernel, kernel_called, sockopt}

-- An AF_INET6 address of Linux at 100, with the port 80.
abbrev memory : Memory
memory x = if x == 100 then 10 else if x == 103 then 80 else 0

memory_bytes : (x : ℕ) → memory x < 256
memory_bytes x = ground arith

inet6-IsFamily : IsFamily 10
inet6-IsFamily = record { byte = omega arith; shared = λ e. omega arith }

converted :
    (linux2freebsd_sockaddr memory (some 100) 28 (some 200) 200 ≡ 28)
    × (linux2freebsd_sockaddr memory (some 100) 28 (some 200) 201 ≡ 28)
    × (linux2freebsd_sockaddr memory (some 100) 28 (some 200) 203 ≡ 80)
unfolding linux2freebsd_sockaddr
converted = (refl, refl, refl)

-- A kernel with some of its numbers.
abbrev number : OptName → ℕ
number so_error = 4103
number ip_tos = 3
number o = 0

abbrev kernel : Kernel
kernel = record {
  sol_socket = 65535;
  ipproto_ip = 0;
  ipproto_ipv6 = 41;
  ipproto_tcp = 6;
  number = number;
  einval = 22;
}

so_error_call : sockopt kernel (λ l o. 0) 1 (pos 4) ≡ kernel_called 65535 (pos 4103) 0
unfolding sockopt
so_error_call = refl
