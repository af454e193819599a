-- ===== src/Driver/Copying.antt =====
-- src/lazybsd_dpdk.cc, `lazybsd_dpdk_if_send` in the build without LAZYBSD_USE_PAGE_ARRAY: the data of a chain of
-- the stack is copied into new rte_mbufs, which go to `send_single_packet`.
pub mod Joined
use lazybsd.Prelude.{
  ℕ, zero, suc, ◌+◌, ◌-◌, Bool, true, false, not, ◌&&◌, Option, none, some, if◌then◌else◌, ltb,
  ◌==◌, List, [], ◌∷◌, ◌++◌, ℤ, pos, negsuc,
}
use lazybsd.Veth.Packet.{PacketStore, mbuf_copydata}

-- Where the data comes from: the chain at `chain`, copied by the kernel's `m_copydata`; RTE_MBUF_DEFAULT_DATAROOM;
-- and which of the calls of `rte_pktmbuf_alloc`, counted from 0, has an mbuf
pub record Source : Type 0 where
  pub store : PacketStore
  pub m_copydata : ℕ → (off len : ℕ) → List ℕ
  pub chain : ℕ
  pub dataroom : ℕ
  pub has_mbuf : ℕ → Bool

-- The data of the segments, or an error, behind which the segments are freed
pub data Copied : Type 0 where
  failed : Copied
  all_segments : List (List ℕ) → Copied

abbrev pub with_segment : List ℕ → Option Copied → Option Copied
with_segment data_of none = none
with_segment data_of (some failed) = some failed
with_segment data_of (some (all_segments segments)) = some (all_segments (data_of ∷ segments))

-- The loop; the first round has the head of the packet, a later one allocates. `none` is a loop that is not over
-- when the rounds are.
unfoldable pub copy_loop : (rounds : ℕ) → Source → (nb_segs off total : ℕ) → Option Copied
unfolding mbuf_copydata
copy_loop zero s nb_segs off total = none
copy_loop (suc rounds) s nb_segs off total =
    let len = if ltb s.dataroom total then s.dataroom else total in
    let rest = copy_loop rounds s (nb_segs + 1) (off + len) (total - len) in
    if total == 0
    then some (all_segments [])
    else if ltb 0 nb_segs && not (s.has_mbuf nb_segs)
    then some failed
    else elim (mbuf_copydata s.m_copydata s.store s.chain off len) [
      | none ↦ some failed
      | some data_of ↦ with_segment data_of rest
    ]

-- What is returned, the packet that is sent with its length, and the chains that are freed
pub record Outcome : Type 0 where
  pub ret : ℤ
  pub sent : Option (ℕ × List (List ℕ))
  pub freed : List ℕ

abbrev pub not_sent : (chain : ℕ) → Outcome
not_sent chain = record { ret = negsuc 0; sent = none; freed = chain ∷ [] }

abbrev pub outcome : (chain total : ℕ) → Option Copied → Option Outcome
outcome chain total none = none
outcome chain total (some failed) = some (not_sent chain)
outcome chain total (some (all_segments segments)) =
    some (record { ret = pos 0; sent = some (total, segments); freed = chain ∷ [] })

-- `lazybsd_dpdk_if_send`, with one round more than there are bytes
unfoldable pub copying_if_send : Source → (total : ℕ) → Option Outcome
unfolding copy_loop
copying_if_send s total =
    if s.has_mbuf 0
    then outcome s.chain total (copy_loop (total + 1) s 0 0 total)
    else some (not_sent s.chain)
