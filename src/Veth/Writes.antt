-- ===== src/Veth/Writes.antt =====
-- Several writes to one buffer of bsd/lib/lazybsd_veth.c.
use lazybsd.Prelude.{ℕ, ◌+◌, ◌≤◌, ◌<◌, ◌≡◌, Option, none, some, List, [], ◌∷◌, ◌++◌, length}
use lazybsd.Veth.Zc.{Mbuf, ZcMbuf, zc_mbuf_write, contents, spaces}
use lazybsd.Veth.Appends.{AllEmpty, RestEmpty}

-- What the whole chain holds.
abbrev pub holding : ZcMbuf → List ℕ
holding z = contents (z.before ++ z.ahead)

-- A buffer between two writes: nothing is held behind the current mbuf, and there is room up to `len`.
pub record IsZc (z : ZcMbuf) : Type 0 where
  pub tail : RestEmpty z.ahead
  pub room : z.len ≤ z.off + spaces z.ahead
  pub counted : z.off ≡ length (holding z)
  pub bounded : z.off ≤ z.len

-- The documented behaviour of `m_getm2`: the mbufs are empty and have the space asked for.
pub record GetM2 : Type 0 where
  pub m_getm2 : ℕ → Option (List Mbuf)
  pub m_getm2_room :
      (n : ℕ) (chain : List Mbuf) → m_getm2 n ≡ some chain → AllEmpty chain × (n ≤ spaces chain)

abbrev pub after_write : (ZcMbuf → Option ZcMbuf) → Option (ZcMbuf × ℕ) → Option ZcMbuf
after_write next none = none
after_write next (some w) = next w.0

-- Writes, one after the other, up to the first that fails.
abbrev pub write_all : List (List ℕ) → ZcMbuf → Option ZcMbuf
write_all [] z = some z
write_all (s ∷ ss) z = after_write (write_all ss) (zc_mbuf_write (some z) s)

abbrev pub concat : List (List ℕ) → List ℕ
concat [] = []
concat (s ∷ ss) = s ++ concat ss

-- After the writes the buffer holds what was written, or more was written than its length.
pub data Holds (len : ℕ) (s : List ℕ) : Option ZcMbuf → Type 0 where
  holds : (z : ZcMbuf) → holding z ≡ s → z.off ≡ length s → Holds len s (some z)
  too_long : len < length s → Holds len s none

-- A write to a buffer, with its two branches.
pub data WriteResult (z : ZcMbuf) (s : List ℕ) : Option (ZcMbuf × ℕ) → Type 0 where
  wrote :
      (w : ZcMbuf)
      → IsZc w
      → w.len ≡ z.len
      → holding w ≡ holding z ++ s
      → WriteResult z s (some (w, length s))
  refused : z.len < z.off + length s → WriteResult z s none

-- A fresh buffer.
pub record Fresh (len : ℕ) (z : ZcMbuf) : Type 0 where
  pub ready : IsZc z
  pub nothing : holding z ≡ []
  pub whole : z.len ≡ len

module _ (m : GetM2) (len : ℕ) where
  got : List Mbuf → ZcMbuf
  got chain = record { before = []; ahead = chain; off = 0; len = len }
