-- ===== src/Route/Buffer.antt =====
-- `rtsock_msg_buffer` of bsd/lib/lazybsd_route.c: a message and its addresses are measured, or written to a buffer.
pub mod Sizes
pub mod Runs
pub mod Reads
pub mod Trip
use lazybsd.Prelude.{
  ℕ, zero, suc, ◌+◌, ◌-◌, ◌%◌, ◌^◌, Bool, true, false, not, ◌&&◌, ◌||◌, Option, none, some,
  if◌then◌else◌, ltb, leb, ◌==◌, update, ℤ, pos, ltb_ℤ, ◌+ℤ◌, ◌-ℤ◌, is_some,
}
use lazybsd.Sock.Address.{Memory}
use lazybsd.Route.{Kernel, Bits, Info}
use lazybsd.Route.Bytes.{write}

-- The types of messages, and the sizes of their headers
pub record Headers : Type 0 where
  pub rtm_version : ℕ
  pub rtm_deladdr : ℕ
  pub rtm_newaddr : ℕ
  pub rtm_ifinfo : ℕ
  pub rtm_newmaddr : ℕ
  pub net_rt_iflistl : ℕ
  pub ifa_msghdrl_size : ℕ
  pub ifa_msghdr_size : ℕ
  pub if_msghdrl_size : ℕ
  pub if_msghdr_size : ℕ
  pub ifma_msghdr_size : ℕ
  pub rt_msghdr_size : ℕ

-- `struct walkarg`
pub record Walkarg : Type 0 where
  pub w_tmem : ℕ
  pub w_tmemsize : ℕ
  pub w_op : ℕ

abbrev pub is_listl : Headers → Option Walkarg → Bool
is_listl h none = false
is_listl h (some w) = w.w_op == h.net_rt_iflistl

unfoldable pub header_size : Headers → (type : ℕ) → Option Walkarg → ℕ
header_size h type w =
    if type == h.rtm_deladdr || type == h.rtm_newaddr
    then (if is_listl h w then h.ifa_msghdrl_size else h.ifa_msghdr_size)
    else if type == h.rtm_ifinfo
    then (if is_listl h w then h.if_msghdrl_size else h.if_msghdr_size)
    else if type == h.rtm_newmaddr
    then h.ifma_msghdr_size
    else h.rt_msghdr_size

-- The variables of the loop; `cp` is NULL where nothing is written.
pub record Writing : Type 0 where
  pub len : ℕ
  pub buflen : ℤ
  pub cp : Option ℕ
  pub memory : Memory
  pub addrs : Bits

-- The bytes that are copied: an IPv6 address has its scope put right on the way.
abbrev pub recovered_or : Option (ℕ → ℕ) → (ℕ → ℕ) → ℕ → ℕ
recovered_or none bytes = bytes
recovered_or (some f) bytes = f

abbrev pub bytes_of : Kernel → Memory → ℕ → ℕ → ℕ
bytes_of k m p =
    let bytes : ℕ → ℕ = λ j. m (p + j) in
    if k.with_inet6 && m (p + 1) == k.af_inet6 then recovered_or (k.recovered m p) bytes else bytes

-- An address is copied if it fits; otherwise nothing more is written.
abbrev pub copied : Kernel → (sa dlen : ℕ) → Option ℕ → Writing → Writing
copied k sa dlen none s = s
copied k sa dlen (some cp) s =
    if ltb_ℤ s.buflen (pos dlen) then record s { cp = none } else record s {
      memory = write s.memory cp dlen (bytes_of k s.memory sa);
      cp = some (cp + dlen);
      buflen = s.buflen -ℤ pos dlen;
    }

unfoldable pub put_addr : Kernel → (i : ℕ) → Option ℕ → Writing → Writing
unfolding ◌-ℤ◌
put_addr k i none s = s
put_addr k i (some sa) s =
    let dlen = k.sa_size (s.memory sa) in
    let t = copied k sa dlen s.cp s in
    record t { len = s.len + dlen; addrs = update s.addrs i true }

unfoldable pub addr_loop : (rounds i : ℕ) → Kernel → Info → Writing → Writing
unfolding put_addr
addr_loop zero i k info s = s
addr_loop (suc rounds) i k info s = addr_loop rounds (i + 1) k info (put_addr k i (info i) s)

-- Before the loop
abbrev pub start : Headers → (type : ℕ) → Option Walkarg → Memory → Writing
start h type none m = record {
  len = header_size h type none;
  buflen = pos 0;
  cp = none;
  memory = m;
  addrs = λ i. false;
}
start h type (some w) m = record {
  len = header_size h type (some w);
  buflen = pos w.w_tmemsize -ℤ pos (header_size h type (some w));
  cp = some (w.w_tmem + header_size h type (some w));
  memory = m;
  addrs = λ i. false;
}

-- The padding behind the loop
abbrev pub padded : Kernel → Option ℕ → Writing → Writing
padded k none s = record s { len = k.align s.len }
padded k (some cp) s =
    let dlen = k.align s.len - s.len in
    if ltb_ℤ s.buflen (pos dlen)
    then record s { len = k.align s.len; cp = none }
    else record s { len = k.align s.len; buflen = s.buflen -ℤ pos dlen }

-- What is written to `struct rt_msghdr`
pub record Header : Type 0 where
  pub version : ℕ
  pub type : ℕ
  pub msglen : ℕ

pub record Written : Type 0 where
  pub enobufs : Bool
  pub plen : ℕ
  pub addrs : Bits
  pub memory : Memory
  pub header : Option Header

abbrev pub header_for : Headers → (type len : ℕ) → Option ℕ → Option Header
header_for h type len none = none
header_for h type len (some cp) =
    some record { version = h.rtm_version; type = type; msglen = len % 2 ^ 16 }

-- `rtsock_msg_buffer`; the header and the memory of the addresses are kept apart.
unfoldable pub rtsock_msg_buffer :
    Kernel → Headers → (type : ℕ) → Info → Option Walkarg → Memory → Written
unfolding header_size addr_loop ◌-ℤ◌
rtsock_msg_buffer k h type info w m =
    let s = addr_loop k.rtax_max 0 k info (start h type w m) in
    let t = padded k s.cp s in
    record {
      enobufs = is_some w && not (is_some t.cp);
      plen = t.len;
      addrs = t.addrs;
      memory = t.memory;
      header = header_for h type t.len t.cp;
    }
