-- ===== src/Driver/Offload/Segments.antt =====
-- A TCP segment that the NIC is to cut up, as `lazybsd_offload_set` of src/lazybsd_memory.cc prepares it.
use lazybsd.Prelude.{
  ℕ, ◌+◌, ◌/◌, ◌<◌, ◌≡◌, ◌≢◌, refl, ◌∙◌, Bool, true, false, if◌then◌else◌, ◌==◌, bit_and, bit_or,
  arith, ◌*◌, HasBits, HasBits-kept, HasBits-set, HasBits-self,
}
use lazybsd.Sock.Address.{Memory, load16, store16}
use lazybsd.Veth.Packet.{CsumFlags, mbuf_tx_offload}
use lazybsd.Driver.Offload.{
  TxFlags, Asked, RteMbuf, iph_len, set_offloads, no_offload, page_array, copying, offload_set,
  if_send_offload,
}

-- Whether one of the bits of a mask is in the flags
abbrev pub asks : (csum_flags mask : ℕ) → Bool
asks csum_flags mask = if bit_and csum_flags mask == 0 then false else true

-- The rte_mbuf has the flags of TCP segmentation and of a checksum of TCP, and if one of IP is asked for, `for_ip` and
-- the flag of IPv4; it says where the headers are, and the checksum field of the TCP header has the checksum of the
-- pseudo header; no other byte has changed.
pub record IsPrepared (k : TxFlags) (for_ip : ℕ) (is_ip : Bool) (tso_seg_size : ℕ) (m : Memory)
    (head : RteMbuf) (r : Memory × RteMbuf) : Type 0 where
  pub tcp_seg : HasBits r.1.ol_flags k.tcp_seg
  pub tcp_cksum : HasBits r.1.ol_flags k.tcp_cksum
  pub ip_cksum : is_ip ≡ true → HasBits r.1.ol_flags for_ip × HasBits r.1.ol_flags k.ipv4
  pub l2_len : r.1.l2_len ≡ 14
  pub l3_len : r.1.l3_len ≡ bit_and (m (head.start + 14)) 15 * 4
  pub l4_len : r.1.l4_len ≡ bit_and (m (head.start + r.1.l2_len + r.1.l3_len + 12)) 240 / 4
  pub tso_segsz : r.1.tso_segsz ≡ tso_seg_size
  pub checksum :
      load16 r.0 (head.start + r.1.l2_len + r.1.l3_len + 16)
      ≡ k.phdr_cksum m (head.start + r.1.l2_len)
  pub others :
      (x : ℕ)
      → x ≢ head.start + r.1.l2_len + r.1.l3_len + 16
      → x ≢ head.start + r.1.l2_len + r.1.l3_len + 17
      → r.0 x ≡ m x

load16-store16 : (m : Memory) (a v : ℕ) → v < 65536 → load16 (store16 m a v) a ≡ v
load16-store16 m a v lt =
    let low : (a == a + 1) ≡ false = ground arith in
    let here : (a == a) ≡ true = ground arith in
    let high : (a + 1 == a + 1) ≡ true = ground arith in rw (low, here, high) (omega arith)

store16-other : (m : Memory) (a v x : ℕ) → x ≢ a → x ≢ a + 1 → store16 m a v x ≡ m x
store16-other m a v x p q = ground arith

module _ (k : TxFlags) (a : Asked) (m : Memory) (head : RteMbuf)
    (word : (n : Memory) (iph : ℕ) → k.phdr_cksum n iph < 65536) where
  -- The fields that matter, as they are at the end
  record Ends (ip : Bool) (size : ℕ) (r : Memory × RteMbuf) : Type 0 where
    seg : HasBits r.1.ol_flags k.tcp_seg
    tcp : HasBits r.1.ol_flags k.tcp_cksum
    in_ip : ip ≡ true → HasBits r.1.ol_flags a.for_ip × HasBits r.1.ol_flags k.ipv4
    memory :
        r.0 ≡ store16 m (head.start + 14 + iph_len m head + 16) (k.phdr_cksum m (head.start + 14))
    l2_len : r.1.l2_len ≡ 14
    l3_len : r.1.l3_len ≡ iph_len m head
    l4_len : r.1.l4_len ≡ bit_and (m (head.start + 14 + iph_len m head + 12)) 240 / 4
    tso_segsz : r.1.tso_segsz ≡ size

  Ends-IsPrepared :
      (ip : Bool) (size : ℕ) (r : Memory × RteMbuf)
      → Ends ip size r
      → IsPrepared k a.for_ip ip size m head r
  Ends-IsPrepared ip size r h =
      let at = head.start + 14 + iph_len m head + 16 in
      let v = k.phdr_cksum m (head.start + 14) in
      record {
        tcp_seg = h.seg;
        tcp_cksum = h.tcp;
        ip_cksum = h.in_ip;
        l2_len = h.l2_len;
        l3_len = h.l3_len;
        l4_len = rw (h.l2_len, h.l3_len) h.l4_len;
        tso_segsz = h.tso_segsz;
        checksum =
            rw (h.memory, h.l2_len, h.l3_len) (load16-store16 m at v (word m (head.start + 14)));
        others =
            rw (h.memory, h.l2_len, h.l3_len)
              (λ x p q. store16-other m at v x p (λ e. q (e ∙ omega arith)));
      }

  -- The flags, before those of UDP
  with_tcp : ℕ → ℕ
  with_tcp w = bit_or (bit_or w k.tcp_cksum) k.tcp_seg

  with_ip : ℕ
  with_ip = bit_or head.ol_flags (bit_or a.for_ip k.ipv4)

  with_tcp-seg : (w : ℕ) → HasBits (with_tcp w) k.tcp_seg
  unfolding with_tcp
  with_tcp-seg w = HasBits-set (bit_or w k.tcp_cksum) k.tcp_seg k.tcp_seg (HasBits-self k.tcp_seg)

  with_tcp-tcp : (w : ℕ) → HasBits (with_tcp w) k.tcp_cksum
  unfolding with_tcp
  with_tcp-tcp w =
      HasBits-kept (bit_or w k.tcp_cksum) k.tcp_seg k.tcp_cksum
        (HasBits-set w k.tcp_cksum k.tcp_cksum (HasBits-self k.tcp_cksum))

  with_tcp-kept : (w b : ℕ) → HasBits w b → HasBits (with_tcp w) b
  unfolding with_tcp
  with_tcp-kept w b h =
      HasBits-kept (bit_or w k.tcp_cksum) k.tcp_seg b (HasBits-kept w k.tcp_cksum b h)

  with_tcp-ip : HasBits (with_tcp with_ip) a.for_ip × HasBits (with_tcp with_ip) k.ipv4
  unfolding with_ip
  with_tcp-ip =
      let both = bit_or a.for_ip k.ipv4 in
      (
        with_tcp-kept with_ip a.for_ip (
            HasBits-set head.ol_flags both a.for_ip
              (HasBits-kept a.for_ip k.ipv4 a.for_ip (HasBits-self a.for_ip))),
        with_tcp-kept with_ip k.ipv4 (
            HasBits-set head.ol_flags both k.ipv4
              (HasBits-set a.for_ip k.ipv4 k.ipv4 (HasBits-self k.ipv4))),
      )

  -- Whether checksums of IP and UDP are asked for too
  tcp-Ends :
      (ip udp sctp : Bool) (size : ℕ)
      → (size == 0) ≡ false
      → Ends ip size (
          set_offloads k a true
            (record {
              ip_csum = ip;
              tcp_csum = true;
              udp_csum = udp;
              sctp_csum = sctp;
              tso_seg_size = size;
            })
            m
            head)
  unfolding set_offloads with_tcp with_ip
  tcp-Ends true true sctp size sized = rw sized record {
    seg = HasBits-kept (with_tcp (with_ip)) a.for_udp k.tcp_seg (with_tcp-seg (with_ip));
    tcp = HasBits-kept (with_tcp (with_ip)) a.for_udp k.tcp_cksum (with_tcp-tcp (with_ip));
    in_ip = λ e. (
      HasBits-kept (with_tcp (with_ip)) a.for_udp a.for_ip (with_tcp-ip.0),
      HasBits-kept (with_tcp (with_ip)) a.for_udp k.ipv4 (with_tcp-ip.1),
    );
    memory = refl;
    l2_len = refl;
    l3_len = refl;
    l4_len = refl;
    tso_segsz = refl;
  }
  tcp-Ends true false sctp size sized = rw sized record {
    seg = with_tcp-seg (with_ip);
    tcp = with_tcp-tcp (with_ip);
    in_ip = λ e. (with_tcp-ip.0, with_tcp-ip.1);
    memory = refl;
    l2_len = refl;
    l3_len = refl;
    l4_len = refl;
    tso_segsz = refl;
  }
  tcp-Ends false true sctp size sized = rw sized record {
    seg =
        HasBits-kept (with_tcp (head.ol_flags)) a.for_udp k.tcp_seg (with_tcp-seg (head.ol_flags));
    tcp =
        HasBits-kept (with_tcp (head.ol_flags)) a.for_udp k.tcp_cksum
          (with_tcp-tcp (head.ol_flags));
    in_ip = λ e. absurd (cc);
    memory = refl;
    l2_len = refl;
    l3_len = refl;
    l4_len = refl;
    tso_segsz = refl;
  }
  tcp-Ends false false sctp size sized = rw sized record {
    seg = with_tcp-seg (head.ol_flags);
    tcp = with_tcp-tcp (head.ol_flags);
    in_ip = λ e. absurd (cc);
    memory = refl;
    l2_len = refl;
    l3_len = refl;
    l4_len = refl;
    tso_segsz = refl;
  }

  mbuf-Ends :
      (c : CsumFlags) (csum_flags tso_segsz : ℕ)
      → (bit_and csum_flags c.csum_tcp == 0) ≡ false
      → (bit_and csum_flags c.csum_tso == 0) ≡ false
      → tso_segsz ≢ 0
      → Ends
          (asks csum_flags c.csum_ip)
          tso_segsz
          (set_offloads k a true (mbuf_tx_offload c csum_flags tso_segsz no_offload) m head)
  unfolding mbuf_tx_offload
  mbuf-Ends c csum_flags tso_segsz tcp tso some_size =
      let sized : (tso_segsz == 0) ≡ false = ground arith in
      rw (tcp, tso)
        (tcp-Ends (if bit_and csum_flags c.csum_ip == 0 then false else true)
          (if bit_and csum_flags c.csum_udp == 0 then false else true)
          (if bit_and csum_flags c.csum_sctp == 0 then false else true) tso_segsz sized)

-- For a NIC with checksums of TCP, an mbuf that the stack marks for TCP and for segmentation, into segments of some
-- size: in both builds, `l2_len` and `l3_len` lead to the TCP header, `l4_len` is its length, the segment size is
-- passed on, the checksum field has the checksum of the pseudo header, which is a word of 16 bits, and no other
-- byte is changed: the checksum of the IP header is left as it is. The flags of TCP segmentation and of a checksum of
-- TCP are set, and where the stack marks the mbuf for a checksum of IP, the flag of IPv4 and, without the page array,
-- that of a checksum of IP, but with it that of one of TCP.
pub offload_set-IsPrepared :
    (k : TxFlags) (c : CsumFlags) (csum_flags tso_segsz : ℕ) (m : Memory) (head : RteMbuf)
    → ((n : Memory) (iph : ℕ) → k.phdr_cksum n iph < 65536)
    → (bit_and csum_flags c.csum_tcp == 0) ≡ false
    → (bit_and csum_flags c.csum_tso == 0) ≡ false
    → tso_segsz ≢ 0
    → IsPrepared k k.tcp_cksum
        (asks csum_flags c.csum_ip)
        tso_segsz
        m
        head
        (offload_set k c true csum_flags tso_segsz m head)
      × IsPrepared k k.ip_cksum
          (asks csum_flags c.csum_ip)
          tso_segsz
          m
          head
          (if_send_offload k c true csum_flags tso_segsz m head)
unfolding offload_set if_send_offload
offload_set-IsPrepared k c csum_flags tso_segsz m head word tcp tso some_size = (
  Ends-IsPrepared k (page_array k) m head word (asks csum_flags c.csum_ip) tso_segsz
      (offload_set k c true csum_flags tso_segsz m head)
      (mbuf-Ends k (page_array k) m head word c csum_flags tso_segsz tcp tso some_size),
  Ends-IsPrepared k (copying k) m head word (asks csum_flags c.csum_ip) tso_segsz
      (if_send_offload k c true csum_flags tso_segsz m head)
      (mbuf-Ends k (copying k) m head word c csum_flags tso_segsz tcp tso some_size),
)
