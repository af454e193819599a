-- ===== src/Driver/Rss.antt =====
-- src/lazybsd_dpdk.cc: which queue the NIC chooses, `toeplitz_hash`, `set_rss_table` and
-- `lazybsd_rss_check`.
pub mod Window
pub mod Table
use lazybsd.Prelude.{
  ℕ, zero, suc, ◌+◌, ◌-◌, ◌*◌, ◌/◌, ◌%◌, ◌^◌, Bool, true, ◌&&◌, if◌then◌else◌, ltb, leb, ◌==◌, List,
  [], ◌∷◌, ◌++◌, bit_and, bit_or, length,
}
use Prim.Native.Nat.{bit_xor, max}

-- The test of a bit of a byte, from the highest on: `byte & (1 << (7 - b))`
abbrev pub bit_at : (byte b : ℕ) → Bool
bit_at byte b = ltb 0 (bit_and byte (2 ^ (7 - b)))

-- The window on the key moves by a bit: `v <<= 1`, and the next bit of the key, if there is one.
abbrev pub next_v : (keylen : ℕ) → (key : ℕ → ℕ) → (i b v : ℕ) → ℕ
next_v keylen key i b v =
    let shifted = v * 2 % 2 ^ 32 in
    if ltb (i + 4) keylen && bit_at (key (i + 4)) b then bit_or shifted 1 else shifted

-- The inner loop of `toeplitz_hash`, for the rounds left, from the bit `b` on: `hash` and `v`
unfoldable pub bit_loop :
    (rounds b : ℕ) → (keylen : ℕ) → (key : ℕ → ℕ) → (i byte hash v : ℕ) → ℕ × ℕ
bit_loop zero b keylen key i byte hash v = (hash, v)
bit_loop (suc rounds) b keylen key i byte hash v =
    bit_loop rounds (b + 1) keylen key i byte (if bit_at byte b then bit_xor hash v else hash)
      (next_v keylen key i b v)

-- The outer loop, over the bytes that are left
unfoldable pub byte_loop :
    (keylen : ℕ) → (key : ℕ → ℕ) → (i : ℕ) → (bytes : List ℕ) → (hash v : ℕ) → ℕ
unfolding bit_loop
byte_loop keylen key i [] hash v = hash
byte_loop keylen key i (byte ∷ bytes) hash v =
    let r = bit_loop 8 0 keylen key i byte hash v in byte_loop keylen key (i + 1) bytes r.0 r.1

-- `toeplitz_hash`
unfoldable pub toeplitz_hash : (keylen : ℕ) → (key : ℕ → ℕ) → (bytes : List ℕ) → ℕ
unfolding byte_loop
toeplitz_hash keylen key bytes =
    byte_loop keylen key 0 bytes 0 (key 0 * 2 ^ 24 + key 1 * 2 ^ 16 + key 2 * 2 ^ 8 + key 3)

-- The loops of `set_rss_table`: a group of entries from the counter `hash` on, and the groups
abbrev pub reta_group_size : ℕ
reta_group_size = 64

unfoldable pub fill_group : (rounds hash nb_queues : ℕ) → List ℕ
fill_group zero hash nb_queues = []
fill_group (suc rounds) hash nb_queues = hash % nb_queues ∷ fill_group rounds (hash + 1) nb_queues

unfoldable pub fill_groups : (rounds hash nb_queues : ℕ) → List (List ℕ)
unfolding fill_group
fill_groups zero hash nb_queues = []
fill_groups (suc rounds) hash nb_queues =
    fill_group reta_group_size hash nb_queues
    ∷ fill_groups rounds (hash + reta_group_size) nb_queues

-- `set_rss_table`: the table that `rte_eth_dev_rss_reta_update` is given, none for a size of 0
unfoldable pub set_rss_table : (reta_size nb_queues : ℕ) → List (List ℕ)
unfolding fill_groups
set_rss_table reta_size nb_queues =
    if reta_size == 0 then [] else fill_groups (max 1 (reta_size / reta_group_size)) 0 nb_queues

-- The bytes of a number of the host, which is little-endian
abbrev pub le_bytes : (n x : ℕ) → List ℕ
le_bytes zero x = []
le_bytes (suc n) x = x % 256 ∷ le_bytes n (x / 256)

-- `lazybsd_rss_check`
unfoldable pub rss_check :
    (keylen : ℕ)
    → (key : ℕ → ℕ) → (nb_queues reta_size queueid : ℕ) → (saddr daddr sport dport : ℕ) → Bool
unfolding toeplitz_hash
rss_check keylen key nb_queues reta_size queueid saddr daddr sport dport =
    let bytes = le_bytes 4 saddr ++ le_bytes 4 daddr ++ le_bytes 2 sport ++ le_bytes 2 dport in
    if leb nb_queues 1
    then true
    else bit_and (toeplitz_hash keylen key bytes) (reta_size - 1) % nb_queues == queueid
