-- ===== src/Readline/Edited.antt =====
-- lib/readline.c: the line that the user has edited.
use challenge.Base.{
  ℕ, ◌+◌, ◌-◌, ◌%◌, ◌^◌, ◌≤◌, ◌<◌, ◌≡◌, ◌≢◌, refl, ◌∙◌, Bool, true, false, ◌&&◌, ◌||◌, List, [],
  ◌∷◌, ◌++◌, arith, ◌==◌, leb, ltb, if◌then◌else◌, update, update_self, update_ne, length, All,
  lt→not_leb, ltb→lt,
}
use mathlib.Core.Bool.{false≢true}
use challenge.Readline.{Line, got_line, edit, echo, end_line, read_loop, readline}

-- One key of the editor on the characters so far, the latest first: Backspace and Delete take one away, where there is one;
-- any other character from the space on is added, up to 1023 of them.
abbrev pub after_key : ℕ → List ℕ → List ℕ
after_key c [] = if leb 0x20 c then c % 2 ^ 8 ∷ [] else []
after_key c (x ∷ xs) =
    if c == 0x08 || c == 0x7F
    then xs
    else if leb 0x20 c && ltb (length (x ∷ xs)) 1023
    then c % 2 ^ 8 ∷ x ∷ xs
    else x ∷ xs

abbrev pub after_keys : List ℕ → List ℕ → List ℕ
after_keys [] xs = xs
after_keys (c ∷ cs) xs = after_keys cs (after_key c xs)

-- The buffer holds the characters, the latest first.
abbrev pub Held : (ℕ → ℕ) → List ℕ → Type 0
Held buf [] = Unit
Held buf (x ∷ xs) = (buf (length xs) ≡ x) × Held buf xs

-- A key that does not end the line
abbrev pub IsKey : ℕ → Type 0
IsKey c = (c < 2 ^ 31) × (c ≢ 0x0A) × (c ≢ 0x0D)

-- The line so far is `xs`, and the memory behind the buffer is `old`.
pub record Editing (old : ℕ → ℕ) (s : Line) (xs : List ℕ) : Type 0 where
  pub count : s.i ≡ length xs
  pub fits : length xs ≤ 1023
  pub held : Held s.buf xs
  pub behind : (j : ℕ) → 1024 ≤ j → s.buf j ≡ old j

Held-update :
    (buf : ℕ → ℕ) (n c : ℕ) (xs : List ℕ) → length xs ≤ n → Held buf xs → Held (update buf n c) xs
Held-update buf n c [] le h = tt
Held-update buf n c (x ∷ xs) le h = (
  update_ne buf n (length xs) c (λ e. omega arith) ∙ h.0,
  Held-update buf n c xs (omega arith) h.1,
)

-- The line with a character added, and with one taken away
Editing-add :
    (old : ℕ → ℕ) (s : Line) (xs : List ℕ) (c : ℕ) (out : List ℕ)
    → length xs < 1023
    → Editing old s xs
    → Editing old (record { i = s.i + 1; buf = update s.buf s.i c; echoed = out }) (c ∷ xs)
Editing-add old s xs c out lt e = record {
  count = omega (arith, e.count);
  fits = omega arith;
  held = (
    rw e.count (update_self s.buf (length xs) c),
    Held-update s.buf s.i c xs (omega (arith, e.count)) e.held,
  );
  behind =
      λ j le. update_ne s.buf s.i j c (λ (p : j ≡ s.i). omega (arith, e.count)) ∙ e.behind j le;
}

Editing-drop :
    (old : ℕ → ℕ) (s : Line) (x : ℕ) (xs : List ℕ) (out : List ℕ)
    → Editing old s (x ∷ xs)
    → Editing old (record { i = s.i - 1; buf = s.buf; echoed = out }) xs
Editing-drop old s x xs out e = record {
  count = omega (arith, e.count);
  fits = omega (arith, e.fits);
  held = e.held.1;
  behind = e.behind;
}

Editing-echo :
    (old : ℕ → ℕ) (s : Line) (xs : List ℕ) (out : List ℕ)
    → Editing old s xs
    → Editing old (record s { echoed = out }) xs
Editing-echo old s xs out e = record {
  count = e.count;
  fits = e.fits;
  held = e.held;
  behind = e.behind;
}

-- Both sides branch on the same test.
Editing-if :
    (old : ℕ → ℕ) (b : Bool) (s t : Line) (xs ys : List ℕ)
    → (b ≡ true → Editing old s xs)
    → (b ≡ false → Editing old t ys)
    → Editing old (if b then s else t) (if b then xs else ys)
Editing-if old true s t xs ys f g = f refl
Editing-if old false s t xs ys f g = g refl

abbrev erases : ℕ → Bool
erases c = c == 0x08 || c == 0x7F

echo_lem :
    (echoing : Bool) (c : ℕ) (s : Line)
    → (out : List ℕ) × (echo echoing c s ≡ record s { echoed = out })
echo_lem true c s = (s.echoed ++ c ∷ [], refl)
echo_lem false c s = (s.echoed, refl)

and_right : (a b : Bool) → (a && b) ≡ true → b ≡ true
and_right true b h = h
and_right false b h = absurd (false≢true h)

edit-Editing :
    (echoing : Bool) (old : ℕ → ℕ) (c : ℕ) (s : Line) (xs : List ℕ)
    → Editing old s xs
    → Editing old (edit echoing c s) (after_key c xs)
unfolding edit
edit-Editing echoing old c s [] e =
    let (out, eq) = echo_lem echoing c s in
    let none_there : (erases c && ltb 0 s.i) ≡ false = ground (arith, e.count) in
    let room : (leb 0x20 c && ltb s.i 1023) ≡ leb 0x20 c = ground (arith, e.count) in
    rw (none_there, room, eq)
      (Editing-if old (leb 0x20 c) _ s _ []
        (λ _. Editing-add old s [] (c % 2 ^ 8) out (omega arith) e) (λ _. e))
edit-Editing echoing old c s (x ∷ xs) e =
    let (out, eq) = echo_lem echoing c s in
    let (out', eq') = echo_lem echoing 0x08 s in
    let some_there : (erases c && ltb 0 s.i) ≡ erases c = ground (arith, e.count) in
    let room : (leb 0x20 c && ltb s.i 1023) ≡ (leb 0x20 c && ltb (length (x ∷ xs)) 1023) =
      rw e.count refl in
    rw (some_there, room, eq, eq')
      (Editing-if old (erases c) _ _ xs _ (λ _. Editing-drop old s x xs out' e)
        (λ _.
          Editing-if old (leb 0x20 c && ltb (length (x ∷ xs)) 1023) _ s _ (x ∷ xs)
            (λ fits. Editing-add old s (x ∷ xs) (c % 2 ^ 8) out (ltb→lt _ _ (and_right _ _ fits)) e)
            (λ _. e)))

read_loop-Editing :
    (echoing : Bool) (old : ℕ → ℕ) (cs rest : List ℕ) (c : ℕ) (s : Line) (xs : List ℕ)
    → All IsKey cs
    → (c == 0x0A || c == 0x0D) ≡ true
    → Editing old s xs
    → (t : Line) × (read_loop echoing (cs ++ c ∷ rest) s ≡ got_line (end_line echoing t))
      × Editing old t (after_keys cs xs)
unfolding read_loop
read_loop-Editing echoing old [] rest c s xs keys ends e =
    let small : leb (2 ^ 31) c ≡ false = ground (arith, ends) in (s, rw (small, ends) refl, e)
read_loop-Editing echoing old (k ∷ ks) rest c s xs keys ends e =
    let small : leb (2 ^ 31) k ≡ false = lt→not_leb _ _ keys.0.0 in
    let goes_on : (k == 0x0A || k == 0x0D) ≡ false = ground (arith, keys.0) in
    let (t, run, e') =
      read_loop-Editing echoing old ks rest c (edit echoing k s) (after_key k xs) keys.1 ends
        (edit-Editing echoing old k s xs e) in
    (t, rw (small, goes_on) run, e')

Editing-end :
    (old : ℕ → ℕ) (s : Line) (xs : List ℕ) (out : List ℕ)
    → Editing old s xs
    → Editing old (record { i = s.i; buf = update s.buf s.i 0; echoed = out }) xs
Editing-end old s xs out e = record {
  count = e.count;
  fits = e.fits;
  held = Held-update s.buf s.i 0 xs (omega (arith, e.count)) e.held;
  behind = λ j le. update_ne s.buf s.i j 0 (λ p. omega (arith, e.count, e.fits)) ∙ e.behind j le;
}

-- A call reads up to the first Return or new line and returns the characters that the keys before it have
-- left, with a zero behind them: they are 1023 at most, and no place behind the buffer is written.
pub readline-Editing :
    (echoing : Bool) (buf : ℕ → ℕ) (cs rest : List ℕ) (c : ℕ)
    → All IsKey cs
    → (c == 0x0A || c == 0x0D) ≡ true
    → (t : Line) × (readline echoing (cs ++ c ∷ rest) buf ≡ got_line t)
      × Editing buf t (after_keys cs [])
      × (t.buf t.i ≡ 0)
unfolding readline end_line
readline-Editing echoing buf cs rest c keys ends =
    let (t, run, e) =
      read_loop-Editing echoing buf cs rest c (record { i = 0; buf = buf; echoed = [] }) [] keys
        ends (record { count = refl; fits = omega arith; held = tt; behind = λ j le. refl }) in
    let (out, eq) = echo_lem echoing 0x0A t in
    (
      end_line echoing t,
      run,
      rw eq (Editing-end buf t (after_keys cs []) out e),
      rw eq (update_self t.buf t.i 0),
    )
