-- ===== src/Sock/CallExamples.antt =====
-- Tests of the model of the calls of bsd/lib/lazybsd_socket.c, and instances of their theorems.
use lazybsd.Prelude.{
  ℕ, ◌+◌, ◌≤◌, ◌<◌, ◌≡◌, ◌≢◌, ◌⊎◌, refl, none, some, [], if◌then◌else◌, ltb, ◌==◌, pos, arith, inl,
}
use lazybsd.Subr.Uio.{Iovec}
use lazybsd.Sock.Address.{Memory, load16, bcopy}
use lazybsd.Sock.Address.Trips.{IsFamily}
use lazybsd.Sock.Process.{Msghdr, KernelCall, kern_accept, kern_getpeername, Reply, Process, Kernel}
use lazybsd.Sock.Calls.{load32, lazybsd_connect}
use lazybsd.Sock.Names.{lazybsd_getpeername, RouteConsts, lazybsd_route_ctl}
use lazybsd.Sock.Message.{Cmsgs, tos, ttl, other, classify, freebsd2linux_message}
use lazybsd.Sock.InPlace.{InPlace, freebsd2linux_message-InPlace}
use lazybsd.Sock.Peer.{RemembersPeer, converted_name, getpeername-connect}

abbrev no_message : Msghdr
no_message = record {
  msg_name = none;
  msg_namelen = 0;
  msg_iov = 0;
  msg_iovlen = 0;
  msg_control = none;
  msg_controllen = 0;
  msg_flags = 0;
}

abbrev reply : Memory → Reply
reply m = record {
  error = 0;
  retval = 0;
  namelen = 0;
  message = no_message;
  sockaddr = none;
  written = m;
}

-- A kernel that copies the 16 bytes at 200 to 300 when it is asked for the peer's name.
abbrev answer : KernelCall → Memory → Reply
answer c m = elim c [
  | kern_getpeername s namelen ↦ record (reply m) {
    sockaddr = some 300;
    written = bcopy m 200 300 16;
  }
  | kern_accept s ↦ record (reply m) { error = 35; sockaddr = some 500 }
  | _ ↦ reply m
]

abbrev kernel : Kernel
kernel = record { answer = answer; host = λ x. 11 }

-- An address of the family 2 at 100.
abbrev memory : Memory
memory x = if x == 100 then 2 else if x == 101 then 0 else 7

abbrev process : Process
process = record { memory = memory; errno = none; asked = []; freed = [] }

memory_bytes : (x : ℕ) → memory x < 256
memory_bytes x = ground arith

IsFamily-2 : IsFamily (load16 memory 100)
IsFamily-2 = record { byte = omega arith; shared = λ e. omega arith }

remembers :
    RemembersPeer kernel 3 200 300 16 500 (converted_name kernel 3 200 300 16 500 100 400 process)
remembers = record {
  connected = refl;
  named = refl;
  allocated = refl;
  copied = λ i h. ground arith;
}

getpeername-connect_example :
    let q =
      lazybsd_getpeername kernel 3
        (some 400)
        500
        (lazybsd_connect kernel 200 3 (some 100) 16 process).0 in
    (q.1 ≡ pos 0) × ((i : ℕ) → i < 16 → q.0.memory (400 + i) ≡ memory (100 + i))
getpeername-connect_example =
    getpeername-connect kernel 3 200 300 16 500 100 400 process memory_bytes IsFamily-2
      (omega arith) (omega arith) (inl (omega arith)) (inl (omega arith)) remembers

abbrev segment : Iovec
segment = record { iov_base = 1000; iov_len = 20 }

abbrev consts : RouteConsts
consts = record { rtm_add = 1; rtm_delete = 2; rtm_change = 3; rtf_host = 4; rtf_gateway = 2 }

-- A request that is none of the three is refused without a call of the kernel.
route_ctl_refused :
    (lazybsd_route_ctl consts kernel 700 800 900 3 0 none none none process).0.asked ≡ []
unfolding lazybsd_route_ctl
route_ctl_refused = refl

abbrev cmsgs : Cmsgs
cmsgs = record {
  ipproto_ip = 0;
  ip_recvtos = 68;
  ip_recvttl = 65;
  ip_tos = 3;
  ip_ttl = 4;
  firsthdr = λ control controllen. if ltb controllen 12 then none else some control;
  nxthdr = λ m control controllen cmsg. none;
}

-- A control message of the kernel at 100: 17 bytes, level IPPROTO_IP, type IP_RECVTTL, content 64.
abbrev ttl_memory : Memory
ttl_memory x = if x == 100 then 17 else if x == 108 then 65 else if x == 116 then 64 else 0

ttl_bytes : (x : ℕ) → ttl_memory x < 256
ttl_bytes x = ground arith

ttl_length : 16 ≤ load32 ttl_memory 100
unfolding load32
ttl_length = omega arith

ttl_classified : classify 0 68 65 (load32 ttl_memory 104) (load32 ttl_memory 108) ≡ ttl
unfolding classify load32
ttl_classified = refl

freebsd2linux_message-InPlace_example :
    let t = freebsd2linux_message cmsgs ttl_memory 100 100 in
    let level = load32 ttl_memory 104 in
    let number = load32 ttl_memory 108 in
    (level ≡ 0 → number ≡ 68 → InPlace ttl_memory t 100 tos)
    × (level ≡ 0 → number ≢ 68 → number ≡ 65 → InPlace ttl_memory t 100 ttl)
    × ((level ≢ 0) ⊎ ((number ≢ 68) × (number ≢ 65)) → InPlace ttl_memory t 100 other)
freebsd2linux_message-InPlace_example =
    freebsd2linux_message-InPlace cmsgs ttl_memory 100 ttl_bytes ttl_length
