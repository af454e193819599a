-- ===== src/Printf/Console.antt =====
-- The console behind `putbuf` and `kputchar` of bsd/lib/lazybsd_subr_prf.c is a text that grows: what
-- was passed on, followed by what is in the buffer.
use lazybsd.Prelude.{
  ℕ, ◌+◌, ◌-◌, ◌%◌, ◌^◌, ◌<◌, ◌≡◌, ◌≢◌, refl, ap, sym, ◌∙◌, true, ◌||◌, Option, none, some, List,
  [], ◌∷◌, ◌++◌, ◌==◌, length, arith, if_cases, if_true, if_false, ==-eq_false, length-append,
}
use mathlib.Core.List.{append_assoc, append-nil}
use lazybsd.Printf.Buffer.{
  Event, putchar, puts, cnputs, msglogstr, PutcharArg, c_string, on_console, put_in, putbuf,
  kputchar, kputchars, console_arg, last_output,
}

-- The characters that a call for the console is passed; what the library does with them is not said here: its `puts`
-- shows a newline behind them.
abbrev pub passed : Event → List ℕ
passed (putchar c) = c ∷ []
passed (puts s) = s
passed (cnputs s) = s
passed (msglogstr s) = []

abbrev pub passed_all : List Event → List ℕ
passed_all [] = []
passed_all (e ∷ es) = passed e ++ passed_all es

-- Characters other than NUL.
abbrev pub NonZero : List ℕ → Type 0
NonZero [] = Unit
NonZero (c ∷ s) = (c ≢ 0) × NonZero s

abbrev pub held : Option (List ℕ) → List ℕ
held none = []
held (some text) = text

-- The text of the console, the buffer's part included.
abbrev pub so_far : PutcharArg → List ℕ
so_far a = passed_all a.events ++ held a.p_bufr

-- A buffer has room for another character and two NULs.
abbrev pub HasRoom : PutcharArg → Option (List ℕ) → Type 0
HasRoom a none = Unit
HasRoom a (some text) =
    (length text + a.remain ≡ a.n_bufr) × ((2 < a.remain) × ((a.n_bufr < 2 ^ 64) × NonZero text))

pub record IsConsole (a : PutcharArg) : Type 0 where
  pub console : a.to_cons ≡ true
  pub room : HasRoom a a.p_bufr

passed_all-append : (xs ys : List Event) → passed_all (xs ++ ys) ≡ passed_all xs ++ passed_all ys
passed_all-append [] ys = refl
passed_all-append (e ∷ xs) ys =
    ap (λ s. passed e ++ s) (passed_all-append xs ys)
    ∙ sym (append_assoc (passed e) (passed_all xs) (passed_all ys))

NonZero-append : (s : List ℕ) (c : ℕ) → NonZero s → c ≢ 0 → NonZero (s ++ (c ∷ []))
NonZero-append [] c h n = (n, tt)
NonZero-append (x ∷ s) c h n = (h.0, NonZero-append s c h.1 n)

c_string-NonZero : (s : List ℕ) → NonZero s → c_string s ≡ s
c_string-NonZero [] h = refl
c_string-NonZero (x ∷ s) h = let on = c_string-NonZero s h.1 in ground arith

snoc_so_far :
    (events : List Event) (text s : List ℕ)
    → passed_all events ++ (text ++ s) ≡ (passed_all events ++ text) ++ s
snoc_so_far events text s = sym (append_assoc (passed_all events) text s)

-- One step of the buffer is one step of the text.
pub record Follows (a : PutcharArg) (s : List ℕ) (b : PutcharArg) : Type 0 where
  pub text : so_far b ≡ so_far a ++ s
  pub console : IsConsole b

module _ (c : ℕ) (n : c ≢ 0) (a : PutcharArg) (console : a.to_cons ≡ true) where
  so_far_with : (o : Option (List ℕ)) → a.p_bufr ≡ o → passed_all a.events ++ held o ≡ so_far a
  so_far_with o h = ap (λ x. passed_all a.events ++ held x) (sym h)

  passed_console :
      (e : Event) → passed_all (on_console a.to_cons a.events e) ≡ passed_all a.events ++ passed e
  passed_console e =
      ap passed_all (if_true (a.events ++ (e ∷ [])) a.events console)
      ∙ passed_all-append a.events (e ∷ [])
      ∙ ap (λ s. passed_all a.events ++ s) (append-nil (passed e))

  put_in-Follows :
      (o : Option (List ℕ)) → a.p_bufr ≡ o → HasRoom a o → Follows a (c ∷ []) (put_in c a o)
  unfolding put_in
  put_in-Follows none h r =
      let es = on_console a.to_cons a.events (putchar c) in
      record {
        text =
            ap (λ o. passed_all es ++ held o) h
            ∙ append-nil (passed_all es)
            ∙ passed_console (putchar c)
            ∙ ap (λ s. s ++ (c ∷ [])) (sym (append-nil (passed_all a.events)) ∙ so_far_with none h);
        console = record { console = console; room = rw h tt };
      }
  put_in-Follows (some text) h r =
      let stored = text ++ (c ∷ []) in
      let remain' = (a.remain + 2 ^ 64 - 1) % 2 ^ 64 in
      let plain = NonZero-append text c r.1.1.1 n in
      let longer = length-append text (c ∷ []) in
      let same : passed_all a.events ++ stored ≡ so_far a ++ (c ∷ []) =
        snoc_so_far a.events text (c ∷ []) ∙ ap (λ s. s ++ (c ∷ [])) (so_far_with (some text) h) in
      let down : remain' ≡ a.remain - 1 = omega arith in
      if_cases (Follows a (c ∷ [])) ((remain' == 2) || (c == 10))
        (λ e. record {
          text =
              append-nil _
              ∙ passed_console (puts (c_string stored))
              ∙ ap (λ s. passed_all a.events ++ s) (c_string-NonZero stored plain)
              ∙ same;
          console = record {
            console = console;
            room = (omega arith, (omega arith, (r.1.1.0, tt)));
          };
        })
        λ e. record {
          text = same;
          console = record {
            console = console;
            room = (omega arith, (ground arith, (r.1.1.0, plain)));
          };
        }

putbuf-Follows : (c : ℕ) (a : PutcharArg) → c ≢ 0 → IsConsole a → Follows a (c ∷ []) (putbuf c a)
unfolding putbuf
putbuf-Follows c a n p = put_in-Follows c n a p.console a.p_bufr refl p.room

kputchar-Follows :
    (c : ℕ) (a : PutcharArg) → c ≢ 0 → IsConsole a → Follows a (c ∷ []) (kputchar c a)
unfolding kputchar
kputchar-Follows c a n p = rw (if_true (putbuf c a) _ p.console) (putbuf-Follows c a n p)

kputchars-Follows :
    (s : List ℕ) (a : PutcharArg) → NonZero s → IsConsole a → Follows a s (kputchars s a)
kputchars-Follows [] a h p = record { text = sym (append-nil (so_far a)); console = p }
kputchars-Follows (c ∷ s) a h p =
    let one = kputchar-Follows c a h.0 p in
    let rest = kputchars-Follows s (kputchar c a) h.1 one.console in
    record {
      text = rest.text ∙ ap (λ x. x ++ s) one.text ∙ append_assoc (so_far a) (c ∷ []) s;
      console = rest.console;
    }

-- At the end the console has the text.
last_output-passed :
    (a : PutcharArg) (o : Option (List ℕ))
    → a.p_bufr ≡ o
    → HasRoom a o
    → passed_all (last_output a) ≡ passed_all a.events ++ held o
unfolding last_output
last_output-passed a none h r = rw h (sym (append-nil (passed_all a.events)))
last_output-passed a (some []) h r = rw h (sym (append-nil (passed_all a.events)))
last_output-passed a (some (c ∷ s)) h r =
    let text = c_string (c ∷ s) in
    rw h (
      ap passed_all (if_false a.events _ (==-eq_false c 0 r.1.1.1.0))
      ∙ passed_all-append a.events (cnputs text ∷ msglogstr text ∷ [])
      ∙ ap (λ x. passed_all a.events ++ x) (append-nil text ∙ c_string-NonZero (c ∷ s) r.1.1.1))

-- The sizes of a buffer that `putbuf` works with.
abbrev pub BigEnough : Option ℕ → Type 0
BigEnough none = Unit
BigEnough (some n) = (2 < n) × (n < 2 ^ 64)

console_arg-IsConsole : (size : Option ℕ) → BigEnough size → IsConsole (console_arg size)
console_arg-IsConsole none h = record { console = refl; room = tt }
console_arg-IsConsole (some n) h = record { console = refl; room = (omega arith, (h.0, (h.1, tt))) }

so_far-console_arg : (size : Option ℕ) → so_far (console_arg size) ≡ []
so_far-console_arg none = refl
so_far-console_arg (some n) = refl

-- Whether `vprintf` has a buffer or none, as long as a buffer has more than two bytes, the calls of `putchar`, `puts` and `cnputs`
-- are together passed the characters that `kvprintf` prints, each once and in order, where none of these is
-- NUL (the newline that `puts` of the C library shows behind its own is not counted), and at every end the characters in the buffer and those that `remain` counts make up its size, with more
-- than two left.
pub last_output-kputchars :
    (size : Option ℕ) (text : List ℕ)
    → BigEnough size
    → NonZero text
    → let a = kputchars text (console_arg size) in (passed_all (last_output a) ≡ text) × IsConsole a
last_output-kputchars size text h n =
    let a = kputchars text (console_arg size) in
    let f = kputchars-Follows text (console_arg size) n (console_arg-IsConsole size h) in
    (
      last_output-passed a a.p_bufr refl f.console.room
          ∙ f.text
          ∙ ap (λ s. s ++ text) (so_far-console_arg size),
      f.console,
    )
