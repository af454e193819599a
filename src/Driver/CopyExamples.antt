-- ===== src/Driver/CopyExamples.antt =====
-- The theorem on `lazybsd_dpdk_if_send` of src/lazybsd_dpdk.cc, where it copies, at work, and runs of it.
use lazybsd.Prelude.{
  ℕ, ◌≡◌, refl, true, false, none, some, not, ◌==◌, List, [], ◌∷◌, pos, negsuc, take, drop, arith,
}
use lazybsd.Veth.Packet.{Packet}
use lazybsd.Driver.Copying.{Source, Outcome, copying_if_send}
use lazybsd.Driver.Copying.Joined.{IsSent, HasAll, copying_if_send-joined}

abbrev chain_of_five : Packet
chain_of_five = record {
  m_data = 100;
  m_len = 5;
  m_next = none;
  m_ext = false;
  disposable = false;
  frees_dpdk = false;
  ext_arg1 = none;
  pkt_len = 5;
  rcvif = none;
  csum_flags = 0;
  csum_data = 0;
  ether_vtag = 0;
  vlantag = false;
}

abbrev five_bytes : List ℕ
five_bytes = 10 ∷ 11 ∷ 12 ∷ 13 ∷ 14 ∷ []

-- Buffers of two bytes
abbrev source : Source
source = record {
  store = λ a. chain_of_five;
  m_copydata = λ a off len. take len (drop off five_bytes);
  chain = 7;
  dataroom = 2;
  has_mbuf = λ i. true;
}

in_three :
    copying_if_send source 5
    ≡ some (record {
      ret = pos 0;
      sent = some (5, (10 ∷ 11 ∷ []) ∷ (12 ∷ 13 ∷ []) ∷ (14 ∷ []) ∷ []);
      freed = 7 ∷ [];
    })
unfolding copying_if_send
in_three = refl

no_third_mbuf :
    copying_if_send (record source { has_mbuf = λ i. not (i == 2) }) 5
    ≡ some (record { ret = negsuc 0; sent = none; freed = 7 ∷ [] })
unfolding copying_if_send
no_third_mbuf = refl

copying_if_send-joined_example :
    (o : Outcome) × (copying_if_send source 5 ≡ some o)
    × (o.freed ≡ 7 ∷ [])
    × IsSent 2 five_bytes 5 o o.sent
    × (HasAll source 5 → o.ret ≡ pos 0)
copying_if_send-joined_example =
    copying_if_send-joined source five_bytes 5 (omega arith) (λ off len. refl)
