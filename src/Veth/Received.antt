-- ===== src/Veth/Received.antt =====
-- A packet of several DPDK buffers, made into a chain by `lazybsd_mbuf_gethdr` and `lazybsd_mbuf_get` of
-- bsd/lib/lazybsd_veth.c and read again by `lazybsd_next_mbuf`.
use lazybsd.Prelude.{
  ℕ, zero, suc, ◌≤◌, ◌≡◌, arith, ◌≢◌, refl, sym, ap, ◌∙◌, Bool, ◌&&◌, Option, none, some, List, [],
  ◌∷◌, if◌then◌else◌, length, update, ==_refl, ==-eq_false, if_true, if_false, if_intro,
}
use lazybsd.Veth.Packet.{
  Packet, PacketStore, cluster, with_next, header, mbuf_gethdr, mbuf_get, next_mbuf, mbuf_ext_free,
}

-- A DPDK buffer, and the address that the allocator gives its mbuf.
pub record Segment : Type 0 where
  pub address : ℕ
  pub pkt : ℕ
  pub bytes : ℕ
  pub len : ℕ

-- What `lazybsd_next_mbuf` and the free function tell of an mbuf.
abbrev pub Seen : Type 0
Seen = (ℕ × ℕ) × Option ℕ

abbrev pub seen_of : Segment → Seen
seen_of g = ((g.bytes, g.len), some g.pkt)

abbrev pub all_seen : List Segment → List Seen
all_seen [] = []
all_seen (g ∷ gs) = seen_of g ∷ all_seen gs

-- The buffers behind the first, one `lazybsd_mbuf_get` each.
abbrev pub get_all : (prev : ℕ) → List Segment → PacketStore → PacketStore
get_all prev [] s = s
get_all prev (g ∷ gs) s =
    get_all g.address gs (mbuf_get (some g.address) (some prev) g.pkt g.bytes g.len s).0

-- The chain from an mbuf on, up to a number of mbufs.
abbrev pub walk : (fuel : ℕ) → PacketStore → Option ℕ → List Seen
walk zero s o = []
walk (suc fuel) s none = []
walk (suc fuel) s (some a) = let r = next_mbuf s a in (r.1, mbuf_ext_free s a) ∷ walk fuel s r.0

-- The allocator gives addresses that are not in use.
abbrev pub Apart : ℕ → List Segment → Type 0
Apart a [] = Unit
Apart a (g ∷ gs) = (a ≢ g.address) × Apart a gs

abbrev pub Distinct : List Segment → Type 0
Distinct [] = Unit
Distinct (g ∷ gs) = Apart g.address gs × Distinct gs

update_same : (s : PacketStore) (a : ℕ) (m : Packet) → update s a m a ≡ m
update_same s a m = if_true m (s a) (==_refl a)

update_other : (s : PacketStore) (a b : ℕ) (m : Packet) → b ≢ a → update s a m b ≡ s b
update_other s a b m n = if_false m (s b) (==-eq_false b a n)

-- One `lazybsd_mbuf_get` behind another mbuf.
module _ (p : ℕ) (g : Segment) (n : p ≢ g.address) (s : PacketStore) where
  made : Packet
  made = cluster g.pkt g.bytes g.len (s g.address)

  alone : PacketStore
  unfolding made
  alone = update s g.address made

  one_more : PacketStore
  unfolding alone
  one_more = update alone p (with_next g.address (alone p))

  one_more_prev : one_more p ≡ with_next g.address (s p)
  unfolding one_more
  one_more_prev =
      update_same alone p (with_next g.address (alone p))
      ∙ ap (with_next g.address) (update_other s g.address p made n)

  one_more_new : one_more g.address ≡ made
  unfolding one_more
  one_more_new =
      update_other alone p g.address (with_next g.address (alone p)) (λ e. n (sym e))
      ∙ update_same s g.address made

  one_more_other : (b : ℕ) → b ≢ p → b ≢ g.address → one_more b ≡ s b
  unfolding one_more
  one_more_other b h k =
      update_other alone p b (with_next g.address (alone p)) h ∙ update_other s g.address b made k

  one_more_lem : (mbuf_get (some g.address) (some p) g.pkt g.bytes g.len s).0 ≡ one_more
  unfolding one_more mbuf_get
  one_more_lem = refl

get_all_other :
    (p : ℕ) (gs : List Segment) (s : PacketStore) (b : ℕ)
    → b ≢ p
    → Apart b gs
    → Apart p gs
    → Distinct gs
    → get_all p gs s b ≡ s b
get_all_other p [] s b h k q d = refl
get_all_other p (g ∷ gs) s b h k q d =
    ap (λ t. get_all g.address gs t b) (one_more_lem p g q.0 s)
    ∙ get_all_other g.address gs (one_more p g q.0 s) b k.0 k.1 d.0 d.1
    ∙ one_more_other p g q.0 s b h k.0

-- What an mbuf tells, from its fields alone.
abbrev seen_at : Packet → Seen
seen_at m =
    ((m.m_data, m.m_len), if m.m_ext && (m.disposable && m.frees_dpdk) then m.ext_arg1 else none)

walk-none : (fuel : ℕ) (s : PacketStore) → walk fuel s none ≡ []
walk-none zero s = refl
walk-none (suc fuel) s = refl

-- The chain from an mbuf that has no next one yet.
walk-get_all :
    (fuel p : ℕ) (gs : List Segment) (s : PacketStore)
    → length gs ≤ fuel
    → (s p).m_next ≡ none
    → Apart p gs
    → Distinct gs
    → walk (suc fuel) (get_all p gs s) (some p) ≡ seen_at (s p) ∷ all_seen gs
unfolding next_mbuf mbuf_ext_free made
walk-get_all fuel p [] s l e q d =
    ap (λ o. seen_at (s p) ∷ walk fuel s o) e ∙ ap (λ r. seen_at (s p) ∷ r) (walk-none fuel s)
walk-get_all zero p (g ∷ gs) s l e q d = absurd (omega (arith, l))
walk-get_all (suc fuel) p (g ∷ gs) s l e q d =
    let t = one_more p g q.0 s in
    let u = get_all g.address gs t in
    let first : u p ≡ with_next g.address (s p) =
      get_all_other g.address gs t p q.0 q.1 d.0 d.1 ∙ one_more_prev p g q.0 s in
    let new = one_more_new p g q.0 s in
    let rest =
      walk-get_all fuel g.address gs t (omega (arith, l)) (ap (λ m. m.m_next) new) d.0 d.1 in
    ap (λ s'. walk (suc (suc fuel)) (get_all g.address gs s') (some p)) (one_more_lem p g q.0 s)
    ∙ ap (λ m. seen_at m ∷ walk (suc fuel) u m.m_next) first
    ∙ ap (λ l. seen_at (s p) ∷ l) (rest ∙ ap (λ m. seen_at m ∷ all_seen gs) new)

module _ (rx_valid total : ℕ) (rx_csum : Bool) (g : Segment) (gs : List Segment)
    (s : PacketStore) where
  -- The first buffer in a header mbuf, the others behind it.
  abbrev pub received : PacketStore
  received =
      get_all g.address gs
        (mbuf_gethdr rx_valid (some g.address) 0 g.pkt total g.bytes g.len rx_csum s).0

  head_mbuf : Packet
  head_mbuf = header rx_valid g.pkt total g.bytes g.len rx_csum (s g.address)

  head_next : head_mbuf.m_next ≡ none
  unfolding head_mbuf
  head_next = if_intro (λ (m : Packet). m.m_next ≡ none) rx_csum refl refl

  head_seen : seen_at head_mbuf ≡ seen_of g
  unfolding head_mbuf
  head_seen = if_intro (λ m. seen_at m ≡ seen_of g) rx_csum refl refl

  -- A packet in several buffers, put into mbufs at different addresses, is a chain that
  -- `lazybsd_next_mbuf` goes through and that ends behind the last buffer: however many more mbufs are asked
  -- for, it gives the data and the length of each buffer, in order, and
  -- each mbuf frees its own buffer.
  pub walk-received :
      (fuel : ℕ)
      → length gs ≤ fuel
      → Distinct (g ∷ gs)
      → walk (suc fuel) received (some g.address) ≡ all_seen (g ∷ gs)
  unfolding mbuf_gethdr head_mbuf
  walk-received fuel l d =
      let t = update s g.address head_mbuf in
      let head = update_same s g.address head_mbuf in
      walk-get_all fuel g.address gs t l (ap (λ m. m.m_next) head ∙ head_next) d.0 d.1
      ∙ ap (λ m. seen_at m ∷ all_seen gs) head
      ∙ ap (λ x. x ∷ all_seen gs) head_seen
