-- ===== src/Driver/Copying/Joined.antt =====
-- The packet that `lazybsd_dpdk_if_send` of src/lazybsd_dpdk.cc copies has the data of the chain.
use lazybsd.Prelude.{
  ℕ, zero, suc, ◌+◌, ◌-◌, ◌≤◌, ◌<◌, ◌≡◌, refl, ap, sym, ◌∙◌, inl, inr, Bool, true, false, not, ◌&&◌,
  Option, none, some, if◌then◌else◌, ltb, ◌==◌, List, [], ◌∷◌, ◌++◌, pos, negsuc, take, drop,
  length, arith, if_cases, Bool-cases,
}
use lazybsd.Veth.Packet.{mbuf_copydata}
use lazybsd.Veth.Writes.{concat}
use lazybsd.Driver.Copying.{
  Source, Copied, failed, all_segments, with_segment, copy_loop, Outcome, not_sent, outcome,
  copying_if_send,
}

-- No segment has more than a buffer holds.
abbrev pub FitIn : (room : ℕ) → List (List ℕ) → Type 0
FitIn room [] = Unit {0}
FitIn room (segment ∷ segments) = (length segment ≤ room) × FitIn room segments

drop-nil : (n : ℕ) → drop {A = ℕ} n [] ≡ []
drop-nil zero = refl
drop-nil (suc n) = refl

take-nil : (n : ℕ) → take {A = ℕ} n [] ≡ []
take-nil zero = refl
take-nil (suc n) = refl

drop-drop : (a b : ℕ) (l : List ℕ) → drop b (drop a l) ≡ drop (a + b) l
drop-drop zero b l = let none_more : 0 + b ≡ b = omega arith in rw none_more refl
drop-drop (suc a) b [] = drop-nil b ∙ sym (drop-nil (suc a + b))
drop-drop (suc a) b (x ∷ l) =
    let next : suc a + b ≡ suc (a + b) = omega arith in rw next (drop-drop a b l)

take-take : (a b : ℕ) (l : List ℕ) → take a l ++ take b (drop a l) ≡ take (a + b) l
take-take zero b l = let none_more : 0 + b ≡ b = omega arith in rw none_more refl
take-take (suc a) b [] = take-nil b ∙ sym (take-nil (suc a + b))
take-take (suc a) b (x ∷ l) =
    let next : suc a + b ≡ suc (a + b) = omega arith in rw next (ap (λ k. x ∷ k) (take-take a b l))

length-take_le : (n : ℕ) (l : List ℕ) → length (take n l) ≤ n
length-take_le zero l = omega arith
length-take_le (suc n) [] = omega arith
length-take_le (suc n) (x ∷ l) = omega (arith, length-take_le n l)

abbrev pub is_copied : Copied → Bool
is_copied failed = false
is_copied (all_segments segments) = true

-- There is an mbuf for every segment, and the chain has the bytes that are asked for.
abbrev pub HasAll : Source → (until : ℕ) → Type 0
HasAll s until = ((i : ℕ) → s.has_mbuf i ≡ true) × (until ≤ (s.store s.chain).pkt_len)

module _ (s : Source) (bytes : List ℕ) (one : 1 ≤ s.dataroom)
    (law : (off len : ℕ) → s.m_copydata s.chain off len ≡ take len (drop off bytes)) where
  -- What the loop ends with
  abbrev Ends : (off total : ℕ) → Copied → Type 0
  Ends off total failed = Unit {0}
  Ends off total (all_segments segments) =
      (concat segments ≡ take total (drop off bytes)) × FitIn s.dataroom segments

  segment-Ends :
      (off len total : ℕ)
      → len ≤ total
      → len ≤ s.dataroom
      → (c : Copied) → Ends (off + len) (total - len) c
      → (d : Copied) × (with_segment (s.m_copydata s.chain off len) (some c) ≡ some d)
        × Ends off total d
        × (is_copied d ≡ is_copied c)
  segment-Ends off len total le fits failed h = (failed, refl, tt, refl)
  segment-Ends off len total le fits (all_segments segments) h =
      let d = s.m_copydata s.chain off len in
      let whole : len + (total - len) ≡ total = omega (arith, le) in
      let short : length d ≤ s.dataroom =
        rw (law off len) (omega (arith, length-take_le len (drop off bytes), fits)) in
      (
        all_segments (d ∷ segments),
        refl,
        (
          ap (λ l. d ++ l) h.0
              ∙ ap (λ l. l ++ take (total - len) (drop (off + len) bytes)) (law off len)
              ∙ ap (λ l. take len (drop off bytes) ++ take (total - len) l)
                  (sym (drop-drop off len bytes))
              ∙ take-take len (total - len) (drop off bytes)
              ∙ ap (λ n. take n (drop off bytes)) whole,
          (short, h.1),
        ),
        refl,
      )

  copy_loop-Ends :
      (rounds nb_segs off total : ℕ)
      → total < rounds
      → (c : Copied) × (copy_loop rounds s nb_segs off total ≡ some c)
        × Ends off total c
        × (HasAll s (off + total) → is_copied c ≡ true)
  unfolding copy_loop mbuf_copydata
  copy_loop-Ends zero nb_segs off total lt = absurd (omega arith)
  copy_loop-Ends (suc rounds) nb_segs off total lt =
      let len = if ltb s.dataroom total then s.dataroom else total in
      let le : len ≤ total = ground arith in
      let fits : len ≤ s.dataroom = ground arith in
      let P = λ (o : Option Copied).
        (c : Copied) × (o ≡ some c)
        × Ends off total c
        × (HasAll s (off + total) → is_copied c ≡ true) in
      if_cases P (total == 0)
        (λ e.
          let nothing : total ≡ 0 = ground arith in
          (all_segments [], refl, (rw nothing refl, tt), λ all. refl))
        (λ e.
          let less : total - len < rounds = ground arith in
          let upto : off + len + (total - len) ≡ off + total = omega (arith, le) in
          if_cases P (ltb 0 nb_segs && not (s.has_mbuf nb_segs))
            (λ f. (failed, refl, tt, λ all. let has = all.0 nb_segs in absurd (ground arith)))
            (λ f.
              let x = copy_loop-Ends rounds (nb_segs + 1) (off + len) (total - len) less in
              elim (Bool-cases (ltb (s.store s.chain).pkt_len (off + len))) [
                | inl behind ↦
                    rw behind (failed, refl, tt, λ all. let enough = all.1 in absurd (ground arith))
                | inr within ↦
                    let y = segment-Ends off len total le fits x.0 x.2 in
                    rw (within, x.1)
                      (y.0, y.1, y.2, λ all. y.3 ∙ x.3 (all.0, omega (arith, all.1, upto)))
              ]))

-- The packet that is sent has the length asked for and the data in order; without one, -1 is returned.
abbrev pub IsSent :
    (room : ℕ) → (bytes : List ℕ) → (total : ℕ) → Outcome → Option (ℕ × List (List ℕ)) → Type 0
IsSent room bytes total o none = o.ret ≡ negsuc 0
IsSent room bytes total o (some (pkt_len, segments)) =
    (o.ret ≡ pos 0) × (pkt_len ≡ total) × (concat segments ≡ take total bytes) × FitIn room segments

-- Where buffers are not empty and the kernel copies the bytes of the chain, `lazybsd_dpdk_if_send` of the build that
-- copies returns, and frees the chain once in any case. It sends nothing and returns -1, or sends the bytes asked
-- for, in order, in segments that fit in their buffers; the latter if there are mbufs enough and the chain is as
-- long.
pub copying_if_send-joined :
    (s : Source) (bytes : List ℕ) (total : ℕ)
    → 1 ≤ s.dataroom
    → ((off len : ℕ) → s.m_copydata s.chain off len ≡ take len (drop off bytes))
    → (o : Outcome) × (copying_if_send s total ≡ some o)
      × (o.freed ≡ s.chain ∷ [])
      × IsSent s.dataroom bytes total o o.sent
      × (HasAll s total → o.ret ≡ pos 0)
unfolding copying_if_send
copying_if_send-joined s bytes total one law =
    let x = copy_loop-Ends s bytes one law (total + 1) 0 0 total (omega arith) in
    elim (Bool-cases (s.has_mbuf 0)) [
      | inl has ↦ rw (has, x.1) (sends x.0 x.2 (λ all. x.3 (all.0, omega (arith, all.1))))
      | inr no_mbuf ↦
          rw no_mbuf (not_sent s.chain, refl, refl, refl, λ all. let has = all.0 0 in absurd (cc))
    ]
  where
    sends :
        (c : Copied)
        → Ends s bytes one law 0 total c
        → (HasAll s total → is_copied c ≡ true)
        → (o : Outcome) × (outcome s.chain total (some c) ≡ some o)
          × (o.freed ≡ s.chain ∷ [])
          × IsSent s.dataroom bytes total o o.sent
          × (HasAll s total → o.ret ≡ pos 0)
    sends failed h good = (not_sent s.chain, refl, refl, refl, λ all. let is = good all in cc)
    sends (all_segments segments) h good = (
      record { ret = pos 0; sent = some (total, segments); freed = s.chain ∷ [] },
      refl,
      refl,
      (refl, refl, h.0, h.1),
      λ all. refl,
    )
