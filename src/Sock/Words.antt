-- ===== src/Sock/Words.antt =====
-- Numbers of four and eight bytes in memory, the low byte first, as the structures of
-- bsd/lib/lazybsd_socket.c have them.
use lazybsd.Prelude.{
  ℕ, ◌+◌, ◌/◌, ◌%◌, ◌^◌, ◌≤◌, ◌<◌, ◌≡◌, ◌≢◌, ◌⊎◌, inl, inr, ◌∙◌, update, arith, if_true, if_false,
  ==_refl, ==-eq_false,
}
use lazybsd.Sock.Address.{Memory}
use lazybsd.Sock.Calls.{load32, store32}
use lazybsd.Sock.Names.{store64}
use lazybsd.Sock.Message.{load64}

update_at : (m : Memory) (a v : ℕ) → update m a v a ≡ v
update_at m a v = if_true v (m a) (==_refl a)

update_off : (m : Memory) (a b v : ℕ) → b ≢ a → update m a v b ≡ m b
update_off m a b v n = if_false v (m b) (==-eq_false b a n)

module _ (m : Memory) (a v : ℕ) where
  -- The bytes that a number is stored in.
  pub store32_byte0 : store32 m a v a ≡ v % 256
  unfolding store32
  store32_byte0 = ground arith

  pub store32_byte1 : store32 m a v (a + 1) ≡ v / 256 % 256
  unfolding store32
  store32_byte1 = ground arith

  pub store32_byte2 : store32 m a v (a + 2) ≡ v / 65536 % 256
  unfolding store32
  store32_byte2 = ground arith

  pub store32_byte3 : store32 m a v (a + 3) ≡ v / 16777216 % 256
  unfolding store32
  store32_byte3 = ground arith

  pub store32_off : (x : ℕ) → (x < a) ⊎ (a + 4 ≤ x) → store32 m a v x ≡ m x
  unfolding store32
  store32_off x h = ground arith

  pub load32-store32_wraps : load32 (store32 m a v) a ≡ v % 2 ^ 32
  unfolding load32
  load32-store32_wraps = omega (arith, store32_byte0, store32_byte1, store32_byte2, store32_byte3)

  pub load32-store32 : v < 2 ^ 32 → load32 (store32 m a v) a ≡ v
  load32-store32 h = omega (arith, load32-store32_wraps)

  pub load32_off : (b : ℕ) → (b + 4 ≤ a) ⊎ (a + 4 ≤ b) → load32 (store32 m a v) b ≡ load32 m b
  unfolding load32
  load32_off b h =
      ground (arith, store32_off b, store32_off (b + 1), store32_off (b + 2), store32_off (b + 3))

module _ (m : Memory) (a v : ℕ) where
  pub load64-store64 : v < 2 ^ 64 → load64 (store64 m a v) a ≡ v
  load64-store64 h =
      let low = store32 m a v in
      let high = v / 2 ^ 32 in
      let first : load32 (store32 low (a + 4) high) a ≡ v % 2 ^ 32 =
        load32_off low (a + 4) high a (inl (omega arith)) ∙ load32-store32_wraps m a v in
      let second = load32-store32 low (a + 4) high (omega arith) in omega arith

  pub load32_off64 : (b : ℕ) → a + 8 ≤ b → load32 (store64 m a v) b ≡ load32 m b
  load32_off64 b h =
      load32_off (store32 m a v) (a + 4) (v / 2 ^ 32) b (inr (omega arith))
      ∙ load32_off m a v b (inr (omega arith))

  pub store64_off : (x : ℕ) → a + 8 ≤ x → store64 m a v x ≡ m x
  store64_off x h =
      store32_off (store32 m a v) (a + 4) (v / 2 ^ 32) x (inr (omega arith))
      ∙ store32_off m a v x (inr (omega arith))

pub load64_off : (m : Memory) (a v b : ℕ) → b + 8 ≤ a → load64 (store32 m a v) b ≡ load64 m b
load64_off m a v b h =
    omega
      (arith, load32_off m a v b (inl (omega arith)), load32_off m a v (b + 4) (inl (omega arith)))

-- Memory that reads the same gives the same numbers.
pub load32_same : (m t : Memory) → ((x : ℕ) → m x ≡ t x) → (b : ℕ) → load32 m b ≡ load32 t b
unfolding load32
load32_same m t h b = omega (arith, h b, h (b + 1), h (b + 2), h (b + 3))

pub load32_bound : (m : Memory) → ((x : ℕ) → m x < 256) → (a : ℕ) → load32 m a < 2 ^ 32
unfolding load32
load32_bound m h a = omega (arith, h a, h (a + 1), h (a + 2), h (a + 3))
