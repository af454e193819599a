-- ===== src/Veth/Appends.antt =====
-- Writes to a buffer of bsd/lib/lazybsd_veth.c for sending without a copy append to what it holds.
use lazybsd.Prelude.{
  ℕ, zero, suc, ◌+◌, ◌≤◌, ◌≡◌, refl, sym, ap, ◌∙◌, List, [], ◌∷◌, ◌++◌, ◌==◌, length, take, drop,
  arith, length-drop, take-append-drop, if_cases,
}
use Prim.Native.Nat.{min}
use mathlib.Core.List.{append_assoc, append-nil}
use lazybsd.Veth.Zc.{Mbuf, fill, write_loop, contents, spaces}

abbrev pub AllEmpty : List Mbuf → Type 0
AllEmpty [] = Unit
AllEmpty (mb ∷ ms) = (mb.held ≡ []) × AllEmpty ms

abbrev pub RestEmpty : List Mbuf → Type 0
RestEmpty [] = Unit
RestEmpty (mb ∷ ms) = AllEmpty ms

pub AllEmpty-RestEmpty : (ms : List Mbuf) → AllEmpty ms → RestEmpty ms
AllEmpty-RestEmpty [] h = tt
AllEmpty-RestEmpty (mb ∷ ms) h = h.1

pub AllEmpty-contents : (ms : List Mbuf) → AllEmpty ms → contents ms ≡ []
AllEmpty-contents [] h = refl
AllEmpty-contents (mb ∷ ms) h = ap (λ s. s ++ contents ms) h.0 ∙ AllEmpty-contents ms h.1

pub contents-append : (xs ys : List Mbuf) → contents (xs ++ ys) ≡ contents xs ++ contents ys
contents-append [] ys = refl
contents-append (mb ∷ xs) ys =
    ap (λ s. mb.held ++ s) (contents-append xs ys)
    ∙ sym (append_assoc mb.held (contents xs) (contents ys))

-- The bytes stand behind what the chain held, and what is left of the space is enough for the rest.
pub record Wrote (chain : List Mbuf) (s : List ℕ) (w : List Mbuf × List Mbuf) : Type 0 where
  pub text : contents w.0 ++ contents w.1 ≡ contents chain ++ s
  pub tail : RestEmpty w.1
  pub room : spaces chain ≤ spaces w.1 + length s

take_all : (n : ℕ) (s : List ℕ) → length s ≤ n → take n s ≡ s
take_all zero [] h = refl
take_all zero (c ∷ s) h = absurd (omega arith)
take_all (suc n) [] h = refl
take_all (suc n) (c ∷ s) h = ap (λ t. c ∷ t) (take_all n s (omega arith))

module _ (mb : Mbuf) (ms : List Mbuf) (empty : AllEmpty ms) (s : List ℕ) where
  -- The rest fits in the first mbuf.
  Wrote-here :
      (n : ℕ)
      → n ≡ min mb.space (length s)
      → length s ≡ n
      → Wrote (mb ∷ ms) s ([], fill n s mb ∷ ms)
  Wrote-here n m h =
      let none_left = AllEmpty-contents ms empty in
      record {
        text =
            ap (λ t. (mb.held ++ t) ++ contents ms) (take_all n s (omega arith))
            ∙ ap (λ t. (mb.held ++ s) ++ t) none_left
            ∙ append-nil (mb.held ++ s)
            ∙ ap (λ t. t ++ s) (sym (append-nil mb.held) ∙ ap (λ t. mb.held ++ t) (sym none_left));
        tail = empty;
        room = omega arith;
      }

  -- The first mbuf is filled up, and the rest is written behind it.
  Wrote-behind :
      (n : ℕ) (w : List Mbuf × List Mbuf)
      → n ≡ min mb.space (length s)
      → mb.space ≤ n
      → Wrote ms (drop n s) w
      → Wrote (mb ∷ ms) s (fill n s mb ∷ w.0, w.1)
  Wrote-behind n w m l p =
      let none_left = AllEmpty-contents ms empty in
      record {
        text =
            append_assoc (mb.held ++ take n s) (contents w.0) (contents w.1)
            ∙ ap (λ t. (mb.held ++ take n s) ++ t) (p.text ∙ ap (λ t. t ++ drop n s) none_left)
            ∙ append_assoc mb.held (take n s) (drop n s)
            ∙ ap (λ t. mb.held ++ t) (take-append-drop n s)
            ∙ ap (λ t. t ++ s) (sym (append-nil mb.held) ∙ ap (λ t. mb.held ++ t) (sym none_left));
        tail = p.tail;
        room = omega (arith, p.room, length-drop n s);
      }

pub write_loop-Wrote :
    (chain : List Mbuf) (s : List ℕ)
    → RestEmpty chain
    → length s ≤ spaces chain
    → Wrote chain s (write_loop s chain)
unfolding write_loop
write_loop-Wrote [] [] h l = record { text = refl; tail = tt; room = omega arith }
write_loop-Wrote [] (c ∷ s) h l = absurd (omega arith)
write_loop-Wrote (mb ∷ ms) s h l =
    let n = min mb.space (length s) in
    if_cases (Wrote (mb ∷ ms) s) (length s == n) (λ e. Wrote-here mb ms h s n refl (ground arith))
      λ e.
        Wrote-behind mb ms h s n (write_loop (drop n s) ms) refl (ground arith) (
          write_loop-Wrote ms (drop n s) (AllEmpty-RestEmpty ms h) (omega (arith, length-drop n s)))
