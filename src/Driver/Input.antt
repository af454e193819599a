-- ===== src/Driver/Input.antt =====
-- src/lazybsd_dpdk.cc: `lazybsd_veth_input`, which makes a chain of mbufs of the stack from the segments of
-- a packet. A segment is a name; an mbuf of the stack frees its segment when it is freed itself
-- (`lazybsd_mbuf_ext_free` of bsd/lib/lazybsd_veth.c). VLAN tags and checksum flags are left out.
use lazybsd.Prelude.{
  ℕ, zero, suc, ◌+◌, ◌≡◌, ap, sym, ◌∙◌, Bool, true, false, ◌&&◌, Option, none, some, if◌then◌else◌,
  List, [], ◌∷◌, ◌++◌, take, length, arith, ◌<◌,
}
use mathlib.Core.List.{append_assoc, append-nil}

-- What is done: the calls that free a segment, and the chain that `lazybsd_veth_process_packet` is given.
pub record Input : Type 0 where
  pub freed : List ℕ
  pub delivered : Option (List ℕ)

-- The loop over the segments behind the first: `attached` are those that an mbuf of the stack has, and
-- `get` says whether `lazybsd_mbuf_get` succeeds for the `i`-th. A failure frees the chain, with the segments
-- attached, and then all segments of the packet.
unfoldable pub attach_loop : (get : ℕ → Bool) → (i : ℕ) → (all attached segments : List ℕ) → Input
attach_loop get i all attached [] = record { freed = []; delivered = some attached }
attach_loop get i all attached (x ∷ l) =
    let rest = attach_loop get (i + 1) all (attached ++ x ∷ []) l in
    if get i then rest else record { freed = attached ++ all; delivered = none }

-- `lazybsd_veth_input`: the packet is its first segment and the others.
unfoldable pub veth_input :
    (rx_csum bad_checksum gethdr : Bool)
    → (get : ℕ → Bool) → (pkt : ℕ) → (segments : List ℕ) → Input
unfolding attach_loop
veth_input rx_csum bad gethdr get pkt l =
    if rx_csum && bad
    then record { freed = pkt ∷ l; delivered = none }
    else if gethdr
    then attach_loop get 0 (pkt ∷ l) (pkt ∷ []) l
    else record { freed = pkt ∷ l; delivered = none }

attach_loop_all :
    (get : ℕ → Bool) (i : ℕ) (all attached l : List ℕ)
    → ((k : ℕ) → get k ≡ true)
    → attach_loop get i all attached l ≡ record { freed = []; delivered = some (attached ++ l) }
unfolding attach_loop
attach_loop_all get i all attached [] h =
    ap (λ (x : List ℕ). record { freed = []; delivered = some x }) (sym (append-nil attached))
attach_loop_all get i all attached (x ∷ l) h = rw (h i) (
    attach_loop_all get (i + 1) all (attached ++ x ∷ []) l h
    ∙ ap (λ (t : List ℕ). record { freed = []; delivered = some t })
        (append_assoc attached (x ∷ []) l))

-- With memory for the mbufs and good checksums the stack is given all segments in their order, and none
-- is freed.
pub veth_input_delivers :
    (rx_csum : Bool) (get : ℕ → Bool) (pkt : ℕ) (l : List ℕ)
    → ((k : ℕ) → get k ≡ true)
    → veth_input rx_csum false true get pkt l ≡ record { freed = []; delivered = some (pkt ∷ l) }
unfolding veth_input
veth_input_delivers true get pkt l h = attach_loop_all get 0 (pkt ∷ l) (pkt ∷ []) l h
veth_input_delivers false get pkt l h = attach_loop_all get 0 (pkt ∷ l) (pkt ∷ []) l h

attach_loop_fails :
    (get : ℕ → Bool) (i k : ℕ) (all attached l : List ℕ)
    → ((j : ℕ) → j < k → get (i + j) ≡ true)
    → get (i + k) ≡ false
    → k < length l
    → attach_loop get i all attached l
      ≡ record { freed = (attached ++ take k l) ++ all; delivered = none }
unfolding attach_loop
attach_loop_fails get i k all attached [] before at h = absurd (omega arith)
attach_loop_fails get i zero all attached (x ∷ l) before at h =
    let e : i + 0 ≡ i = omega arith in
    let now : get i ≡ false = rw e at at in
    rw now (
      ap (λ (t : List ℕ). record { freed = t ++ all; delivered = none })
        (sym (append-nil attached)))
attach_loop_fails get i (suc k) all attached (x ∷ l) before at h =
    let z : i + 0 ≡ i = omega arith in
    let s : i + suc k ≡ i + 1 + k = omega arith in
    let now : get i ≡ true = rw z at (before 0 (omega arith)) in
    let later : get (i + 1 + k) ≡ false = rw s at at in
    let rest =
      attach_loop_fails get (i + 1) k all (attached ++ x ∷ []) l
        (λ j less.
          let e : i + 1 + j ≡ i + suc j = omega arith in rw e (before (suc j) (omega arith)))
        later (omega arith) in
    rw now (
      rest
      ∙ ap (λ (t : List ℕ). record { freed = t ++ all; delivered = none })
          (append_assoc attached (x ∷ []) (take k l)))

-- When the allocation for the segment behind `k` others fails, the segments before it, from the packet's
-- first on, are freed twice: with the chain that has them, and with the packet.
pub veth_input_frees_twice :
    (rx_csum : Bool) (get : ℕ → Bool) (k pkt : ℕ) (l : List ℕ)
    → ((j : ℕ) → j < k → get j ≡ true)
    → get k ≡ false
    → k < length l
    → veth_input rx_csum false true get pkt l
      ≡ record { freed = (pkt ∷ take k l) ++ pkt ∷ l; delivered = none }
unfolding veth_input
veth_input_frees_twice rx_csum get k pkt l before at h =
    let z : 0 + k ≡ k = omega arith in
    let now : get (0 + k) ≡ false = rw z at in
    let all =
      attach_loop_fails get 0 k (pkt ∷ l) (pkt ∷ []) l
        (λ j less. let e : 0 + j ≡ j = omega arith in rw e (before j less)) now h in
    by_csum rx_csum all
  where
    by_csum :
        (b : Bool)
        → attach_loop get 0 (pkt ∷ l) (pkt ∷ []) l
          ≡ record { freed = (pkt ∷ take k l) ++ pkt ∷ l; delivered = none }
        → veth_input b false true get pkt l
          ≡ record { freed = (pkt ∷ take k l) ++ pkt ∷ l; delivered = none }
    by_csum true all = all
    by_csum false all = all
