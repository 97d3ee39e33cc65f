-- ===== src/Format/Output.antt =====
-- kern/printf.c and lib/printf.c: `cprintf` of the kernel and of user environments.
--
-- `sent` are the texts given to `sys_cputs`, the first one first. The buffer is the list of its `idx`
-- characters; what stands behind them is never sent.
use challenge.Base.{
  ℕ, ◌+◌, ◌%◌, ◌^◌, ◌≤◌, ◌<◌, ◌≡◌, refl, sym, subst, ◌∙◌, ap, Option, some, List, [], ◌∷◌, ◌++◌,
  arith, ◌==◌, if◌then◌else◌, length, All, length-append, append_assoc, append_nil, All-append,
  ==_ne, if_true, if_false,
}
use native.Mathlib.Decide.{ℕ_discrete}
use challenge.Strings.{Bytes, ◌>>=◌}
use challenge.Format.{Printing, printfmt}

-- `putch` of the kernel: `*cnt++` moves the pointer, and the number stays.
abbrev kernel_putch : ℕ → List ℕ × ℕ → List ℕ × ℕ
kernel_putch ch (console, cnt) = (console ++ ch ∷ [], cnt)

kernel_put_all : List ℕ → List ℕ × ℕ → List ℕ × ℕ
kernel_put_all [] r = r
kernel_put_all (c ∷ cs) r = kernel_put_all cs (kernel_putch c r)

-- What goes to `cputchar`, and the value returned.
unfoldable pub kernel_vcprintf : ℕ → ℕ → Bytes → List ℕ → (ℕ → ℕ) → ℕ → Option (List ℕ × ℕ)
unfolding kernel_put_all
kernel_vcprintf f g m fmt va color = do
  s ← printfmt f g m va fmt color
  some (kernel_put_all s.printed ([], 0))

pub record Printbuf : Type 0 where
  pub buf : List ℕ
  pub cnt : ℕ
  pub sent : List (List ℕ)

unfoldable pub user_putch : ℕ → Printbuf → Printbuf
user_putch ch b =
    let buf' = b.buf ++ ch % 2 ^ 8 ∷ [] in
    if length buf' == 255
    then record { buf = []; cnt = b.cnt + 1; sent = b.sent ++ buf' ∷ [] }
    else record { buf = buf'; cnt = b.cnt + 1; sent = b.sent }

user_put_all : List ℕ → Printbuf → Printbuf
user_put_all [] b = b
user_put_all (c ∷ cs) b = user_put_all cs (user_putch c b)

-- The texts given to `sys_cputs`, and the value returned.
unfoldable pub user_vcprintf : ℕ → ℕ → Bytes → List ℕ → (ℕ → ℕ) → ℕ → Option (List (List ℕ) × ℕ)
unfolding user_put_all
user_vcprintf f g m fmt va color = do
  s ← printfmt f g m va fmt color
  let b = user_put_all s.printed (record { buf = []; cnt = 0; sent = [] })
  some (b.sent ++ b.buf ∷ [], b.cnt)

abbrev pub concat : List (List ℕ) → List ℕ
concat [] = []
concat (xs ∷ xss) = xs ++ concat xss

abbrev pub bytes_of : List ℕ → List ℕ
bytes_of [] = []
bytes_of (c ∷ cs) = c % 2 ^ 8 ∷ bytes_of cs

abbrev pub Short : List ℕ → Type 0
Short xs = length xs ≤ 255

-- The texts sent so far and the buffer.
abbrev all_of : Printbuf → List ℕ
all_of b = concat b.sent ++ b.buf

concat-append : (xss yss : List (List ℕ)) → concat (xss ++ yss) ≡ concat xss ++ concat yss
concat-append [] yss = refl
concat-append (xs ∷ xss) yss =
    ap (λ t. xs ++ t) (concat-append xss yss) ∙ sym (append_assoc xs (concat xss) (concat yss))

concat-last : (xss : List (List ℕ)) (xs : List ℕ) → concat (xss ++ xs ∷ []) ≡ concat xss ++ xs
concat-last xss xs = concat-append xss (xs ∷ []) ∙ ap (λ t. concat xss ++ t) (append_nil xs)

record Sent (b : Printbuf) (cs : List ℕ) (b' : Printbuf) : Type 0 where
  text : all_of b' ≡ all_of b ++ bytes_of cs
  count : b'.cnt ≡ b.cnt + length cs
  room : length b'.buf < 255
  short : All Short b'.sent

user_putch-Sent :
    (c : ℕ) (b : Printbuf)
    → length b.buf < 255
    → All Short b.sent
    → Sent b (c ∷ []) (user_putch c b)
unfolding user_putch
user_putch-Sent c b lt all =
    let buf' : List ℕ = b.buf ++ c % 2 ^ 8 ∷ [] in
    let size : length buf' ≡ length b.buf + 1 = length-append b.buf (c % 2 ^ 8 ∷ []) in
    elim (ℕ_discrete (length buf') 255) [
      | yes e ↦
          subst (Sent b (c ∷ [])) (sym (if_true {b = length buf' == 255} _ _ (rw e refl))) (record {
            text =
                append_nil (concat (b.sent ++ buf' ∷ []))
                ∙ concat-last b.sent buf'
                ∙ sym (append_assoc (concat b.sent) b.buf (c % 2 ^ 8 ∷ []));
            count = refl;
            room = omega arith;
            short = All-append Short b.sent buf' all (omega (arith, e));
          })
      | no ne ↦
          subst (Sent b (c ∷ []))
            (sym (if_false {b = length buf' == 255} _ _ (==_ne (length buf') 255 ne)))
            (record {
              text = sym (append_assoc (concat b.sent) b.buf (c % 2 ^ 8 ∷ []));
              count = refl;
              room = omega (arith, size, ne);
              short = all;
            })
    ]

user_put_all-Sent :
    (cs : List ℕ) (b : Printbuf)
    → length b.buf < 255
    → All Short b.sent
    → Sent b cs (user_put_all cs b)
unfolding user_put_all
user_put_all-Sent [] b lt all = record {
  text = sym (append_nil (all_of b));
  count = omega arith;
  room = lt;
  short = all;
}
user_put_all-Sent (c ∷ cs) b lt all =
    let first = user_putch-Sent c b lt all in
    let rest = user_put_all-Sent cs (user_putch c b) first.room first.short in
    record {
      text =
          rest.text
          ∙ ap (λ t. t ++ bytes_of cs) first.text
          ∙ append_assoc (all_of b) (c % 2 ^ 8 ∷ []) (bytes_of cs);
      count = rest.count ∙ omega (arith, first.count);
      room = rest.room;
      short = rest.short;
    }

-- When formatted printing returns, `cprintf` of a user environment gives the bytes of its output to
-- `sys_cputs` in order, in texts of at most 255 bytes, and returns the number of characters.
pub user_vcprintf-Short :
    (f g : ℕ) (m : Bytes) (fmt : List ℕ) (va : ℕ → ℕ) (color : ℕ) (s : Printing)
    → printfmt f g m va fmt color ≡ some s
    → (texts : List (List ℕ)) × (user_vcprintf f g m fmt va color ≡ some (texts, length s.printed))
      × (concat texts ≡ bytes_of s.printed)
      × All Short texts
unfolding user_vcprintf
user_vcprintf-Short f g m fmt va color s run =
    let start : Printbuf = record { buf = []; cnt = 0; sent = [] } in
    let b = user_put_all s.printed start in
    let h = user_put_all-Sent s.printed start (omega arith) tt in
    (
      b.sent ++ b.buf ∷ [],
      rw run (ap (λ (n : ℕ). some (b.sent ++ b.buf ∷ [], n)) (h.count ∙ omega arith)),
      concat-last b.sent b.buf ∙ h.text,
      All-append Short b.sent b.buf h.short (omega (arith, h.room)),
    )

kernel_put_all_lem :
    (cs console : List ℕ) (cnt : ℕ) → kernel_put_all cs (console, cnt) ≡ (console ++ cs, cnt)
unfolding kernel_put_all
kernel_put_all_lem [] console cnt = ap (λ t. (t, cnt)) (sym (append_nil console))
kernel_put_all_lem (c ∷ cs) console cnt =
    kernel_put_all_lem cs (console ++ c ∷ []) cnt
    ∙ ap (λ t. (t, cnt)) (append_assoc console (c ∷ []) cs)

-- When formatted printing returns, `cprintf` of the kernel gives its output to the console in order,
-- and returns 0 for every output.
pub kernel_vcprintf-zero :
    (f g : ℕ) (m : Bytes) (fmt : List ℕ) (va : ℕ → ℕ) (color : ℕ) (s : Printing)
    → printfmt f g m va fmt color ≡ some s
    → kernel_vcprintf f g m fmt va color ≡ some (s.printed, 0)
unfolding kernel_vcprintf
kernel_vcprintf-zero f g m fmt va color s run = rw run (ap some (kernel_put_all_lem s.printed [] 0))
