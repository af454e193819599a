-- ===== src/Sock/InPlace.antt =====
-- Control messages of bsd/lib/lazybsd_socket.c converted where they stand, as in `lazybsd_recvmsg`.
use lazybsd.Prelude.{ℕ, ◌+◌, ◌≤◌, ◌<◌, ◌≡◌, ◌≢◌, ◌⊎◌, inl, inr, ap, ◌∙◌, arith, update}
use mathlib.Core.Path.{subst}
use lazybsd.Sock.Address.{Memory, bcopy}
use lazybsd.Sock.Calls.{load32, store32}
use lazybsd.Sock.Names.{store64}
use lazybsd.Sock.Words.{
  store32_off, load32-store32, load32_off, load64-store64, load32_off64, store64_off, load64_off,
  load32_same, load32_bound,
}
use lazybsd.Sock.Message.{
  Cmsgs, load64, less_16, cmsg_len, freebsd2linux_header, copy_content, Kind, tos, ttl, other,
  classify, freebsd2linux_kind, linux_ip_tos, linux_ip_ttl, kind_at, freebsd2linux_message,
}

-- The header after the three assignments.
pub record Header (m t : Memory) (a : ℕ) : Type 0 where
  pub len : load64 t a ≡ load32 m a
  pub level : load32 t (a + 8) ≡ load32 m (a + 4)
  pub kind : load32 t (a + 12) ≡ load32 m (a + 8)
  pub others : (x : ℕ) → a + 16 ≤ x → t x ≡ m x

module _ (m : Memory) (bytes : (x : ℕ) → m x < 256) (a : ℕ) where
  freebsd2linux_header-Header : 16 ≤ load32 m a → Header m (freebsd2linux_header m a a) a
  unfolding freebsd2linux_header
  freebsd2linux_header-Header h =
      let kind = load32 m (a + 8) in
      let t = store32 m (a + 12) kind in
      let level = load32 t (a + 4) in
      let u = store32 t (a + 8) level in
      let level' : level ≡ load32 m (a + 4) =
        load32_off m (a + 12) kind (a + 4) (inl (omega arith)) in
      let n = load32 u a in
      let n' : n ≡ load32 m a =
        load32_off t (a + 8) level a (inl (omega arith))
        ∙ load32_off m (a + 12) kind a (inl (omega arith)) in
      let small = load32_bound m bytes a in
      let small' = load32_bound m bytes (a + 4) in
      let small'' = load32_bound m bytes (a + 8) in
      let kept : cmsg_len (less_16 n) ≡ load32 m a = omega arith in
      record {
        len = load64-store64 u a (cmsg_len (less_16 n)) (omega arith) ∙ kept;
        level =
            load32_off64 u a (cmsg_len (less_16 n)) (a + 8) (omega arith)
            ∙ load32-store32 t (a + 8) level (omega arith)
            ∙ level';
        kind =
            load32_off64 u a (cmsg_len (less_16 n)) (a + 12) (omega arith)
            ∙ load32_off t (a + 8) level (a + 12) (inr (omega arith))
            ∙ load32-store32 m (a + 12) kind (omega arith);
        others = λ x h.
            store64_off u a (cmsg_len (less_16 n)) x (omega arith)
            ∙ store32_off t (a + 8) level x (inr (omega arith))
            ∙ store32_off m (a + 12) kind x (inr (omega arith));
      }

-- What the header has in each case.
abbrev pub linux_number : Kind → ℕ → ℕ
linux_number tos number = 1
linux_number ttl number = 2
linux_number other number = number

abbrev pub linux_len : Kind → ℕ → ℕ
linux_len tos len = len
linux_len ttl len = 20
linux_len other len = len

-- The content: an `int` for the time to live, else the bytes as they were.
abbrev pub SameContent : (m t : Memory) → ℕ → Kind → Type 0
SameContent m t a tos = (x : ℕ) → a + 16 ≤ x → t x ≡ m x
SameContent m t a ttl = load32 t (a + 16) ≡ m (a + 16)
SameContent m t a other = (x : ℕ) → a + 16 ≤ x → t x ≡ m x

pub record InPlace (m t : Memory) (a : ℕ) (kind : Kind) : Type 0 where
  pub len : load64 t a ≡ linux_len kind (load32 m a)
  pub level : load32 t (a + 8) ≡ load32 m (a + 4)
  pub number : load32 t (a + 12) ≡ linux_number kind (load32 m (a + 8))
  pub content : SameContent m t a kind

SameContent-same :
    (m t u : Memory) (a : ℕ) (k : Kind)
    → ((x : ℕ) → u x ≡ t x)
    → SameContent m t a k
    → SameContent m u a k
SameContent-same m t u a tos h p = λ x l. h x ∙ p x l
SameContent-same m t u a ttl h p = load32_same u t h (a + 16) ∙ p
SameContent-same m t u a other h p = λ x l. h x ∙ p x l

InPlace-same :
    (m t u : Memory) (a : ℕ) (k : Kind) → ((x : ℕ) → u x ≡ t x) → InPlace m t a k → InPlace m u a k
InPlace-same m t u a k h p =
    let same = load32_same u t h in
    record {
      len = omega (arith, same a, same (a + 4), p.len);
      level = same (a + 8) ∙ p.level;
      number = same (a + 12) ∙ p.number;
      content = SameContent-same m t u a k h p.content;
    }

bcopy_same : (m : Memory) (a n x : ℕ) → bcopy m a a n x ≡ m x
bcopy_same m a n x = ground arith

update_kept : (m : Memory) (a x : ℕ) → update m a (m a) x ≡ m x
update_kept m a x = ground arith

module _ (m t : Memory) (a : ℕ) (bytes : (x : ℕ) → m x < 256) (h : Header m t a) where
  tos-InPlace : InPlace m (freebsd2linux_kind tos t a a) a tos
  tos-InPlace =
      let u = store32 t (a + 12) linux_ip_tos in
      InPlace-same m u (update u (a + 16) (u (a + 16))) a tos (update_kept u (a + 16)) (record {
        len = load64_off t (a + 12) linux_ip_tos a (omega arith) ∙ h.len;
        level = load32_off t (a + 12) linux_ip_tos (a + 8) (inl (omega arith)) ∙ h.level;
        number = load32-store32 t (a + 12) linux_ip_tos (omega arith);
        content = λ x l. store32_off t (a + 12) linux_ip_tos x (inr (omega arith)) ∙ h.others x l;
      })

  ttl-InPlace : InPlace m (freebsd2linux_kind ttl t a a) a ttl
  ttl-InPlace =
      let n = cmsg_len 4 in
      let u = store64 t a n in
      let w = store32 u (a + 12) linux_ip_ttl in
      let v = w (a + 16) in
      let byte : v ≡ m (a + 16) =
        store32_off u (a + 12) linux_ip_ttl (a + 16) (inr (omega arith))
        ∙ store64_off t a n (a + 16) (omega arith)
        ∙ h.others (a + 16) (omega arith) in
      let small = bytes (a + 16) in
      record {
        len =
            load64_off w (a + 16) v a (omega arith)
            ∙ load64_off u (a + 12) linux_ip_ttl a (omega arith)
            ∙ load64-store64 t a n (omega arith);
        level =
            load32_off w (a + 16) v (a + 8) (inl (omega arith))
            ∙ load32_off u (a + 12) linux_ip_ttl (a + 8) (inl (omega arith))
            ∙ load32_off64 t a n (a + 8) (omega arith)
            ∙ h.level;
        number =
            load32_off w (a + 16) v (a + 12) (inl (omega arith))
            ∙ load32-store32 u (a + 12) linux_ip_ttl (omega arith);
        content = load32-store32 w (a + 16) v (omega arith) ∙ byte;
      }

  other-InPlace : InPlace m (freebsd2linux_kind other t a a) a other
  other-InPlace =
      InPlace-same m t (copy_content t a a a) a other (bcopy_same t (a + 16) (less_16 (load64 t a)))
        (record { len = h.len; level = h.level; number = h.kind; content = h.others })

  freebsd2linux_kind-InPlace : (k : Kind) → InPlace m (freebsd2linux_kind k t a a) a k
  freebsd2linux_kind-InPlace tos = tos-InPlace
  freebsd2linux_kind-InPlace ttl = ttl-InPlace
  freebsd2linux_kind-InPlace other = other-InPlace

converted-InPlace :
    (c : Cmsgs) (m : Memory) (a : ℕ)
    → ((x : ℕ) → m x < 256)
    → 16 ≤ load32 m a
    → InPlace m
        (freebsd2linux_message c m a a)
        a
        (classify c.ipproto_ip c.ip_recvtos c.ip_recvttl (load32 m (a + 4)) (load32 m (a + 8)))
unfolding freebsd2linux_message
converted-InPlace c m a bytes l =
    let t = freebsd2linux_header m a a in
    let h = freebsd2linux_header-Header m bytes a l in
    let kind = classify c.ipproto_ip c.ip_recvtos c.ip_recvttl in
    let same : kind_at c t a ≡ kind (load32 m (a + 4)) (load32 m (a + 8)) =
      ap (λ x. kind x (load32 t (a + 12))) h.level ∙ ap (kind (load32 m (a + 4))) h.kind in
    rw (← same) (freebsd2linux_kind-InPlace m t a bytes h (kind_at c t a))

-- A control message of the kernel of at least 16 bytes, in a memory of bytes, that is converted for Linux where it
-- stands keeps its level. One of the level of IP for the type of service keeps its length and content and gets the type
-- 1; one of the level of IP for the time to live, if the kernel's numbers of the two differ, gets the length 20 and
-- the type 2 with its first byte as an `int`; any other one keeps its length, its type and its content.
pub freebsd2linux_message-InPlace :
    (c : Cmsgs) (m : Memory) (a : ℕ)
    → ((x : ℕ) → m x < 256)
    → 16 ≤ load32 m a
    → let level = load32 m (a + 4) in
      let number = load32 m (a + 8) in
      let t = freebsd2linux_message c m a a in
      (level ≡ c.ipproto_ip → number ≡ c.ip_recvtos → InPlace m t a tos)
      × (level ≡ c.ipproto_ip → number ≢ c.ip_recvtos → number ≡ c.ip_recvttl → InPlace m t a ttl)
      × ((level ≢ c.ipproto_ip) ⊎ ((number ≢ c.ip_recvtos) × (number ≢ c.ip_recvttl))
          → InPlace m t a other)
unfolding classify
freebsd2linux_message-InPlace c m a bytes l =
    let level = load32 m (a + 4) in
    let number = load32 m (a + 8) in
    let t = freebsd2linux_message c m a a in
    let kind = classify c.ipproto_ip c.ip_recvtos c.ip_recvttl level number in
    let whole = converted-InPlace c m a bytes l in
    let as_kind = λ (k : Kind) (e : kind ≡ k). subst (InPlace m t a) e whole in
    (
      λ p q. as_kind tos (ground arith),
      λ p n q. as_kind ttl (ground arith),
      λ h. as_kind other (no_case h),
    )
  where
    no_case :
        (load32 m (a + 4) ≢ c.ipproto_ip)
          ⊎ ((load32 m (a + 8) ≢ c.ip_recvtos) × (load32 m (a + 8) ≢ c.ip_recvttl))
        → classify c.ipproto_ip c.ip_recvtos c.ip_recvttl (load32 m (a + 4)) (load32 m (a + 8))
          ≡ other
    no_case (inl n) = ground arith
    no_case (inr n) = let p = n.0 in let q = n.1 in ground arith
