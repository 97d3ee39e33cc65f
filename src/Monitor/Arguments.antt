-- ===== src/Monitor/Arguments.antt =====
-- kern/monitor.c: what the loop over the command line makes of it.
use challenge.Base.{
  ℕ, zero, suc, ◌+◌, ◌≤◌, ◌<◌, ◌≡◌, ◌≢◌, refl, sym, subst, ◌∙◌, ap, false, some, List, [], ◌∷◌,
  ◌++◌, arith, ◌==◌, length, ==_ne, if_true, if_false, Bool-cases, inl, inr, ◌⊎◌, append_assoc,
  append_nil, length-append,
}
use native.Mathlib.Decide.{dec_lt}
use challenge.Strings.{Bytes}
use challenge.Strings.Text.{IsString}
use challenge.Monitor.{arguments, is_white, save_arg, parse_args}
use challenge.Monitor.Words.{
  words-nil, length-skipped, split, words, blanks, skipped, after_word, Same, Gobbled,
  words-skipped, split-after_word, words-black, gobble-Gobbled, scan_past_lem, rest-IsString,
  split-white, split-black,
}

-- The texts at the pointers, one for one
abbrev pub AreStrings : Bytes → List ℕ → List (List ℕ) → Type 0
AreStrings m [] [] = Unit
AreStrings m [] (w ∷ ws) = ⊥
AreStrings m (p ∷ ps) [] = ⊥
AreStrings m (p ∷ ps) (w ∷ ws) = IsString m p w × AreStrings m ps ws

-- A first word `w` stays, if memory below its end stays and a NUL is put behind it.
abbrev Stays : Bytes → Bytes → ℕ → List ℕ → Type 0
Stays m m' p w = Same (p + length w) m m' → m' (p + length w) ≡ 0 → IsString m' p w

Stays-nil : (m m' : Bytes) (p : ℕ) → Stays m m' p []
Stays-nil m m' p same end = subst (λ a. m' a ≡ 0) (omega arith) end

Stays-cons :
    (m m' : Bytes) (p c : ℕ) (w : List ℕ)
    → m p ≡ c
    → c ≢ 0
    → Stays m m' (p + 1) w
    → Stays m m' p (c ∷ w)
Stays-cons m m' p c w here ne rest same end = (
  same p (omega arith) ∙ here,
  ne,
  rest (λ x l. same x (omega arith)) (subst (λ a. m' a ≡ 0) (omega arith) end),
)

word-Stays : (m m' : Bytes) (p : ℕ) (cs : List ℕ) → IsString m p cs → Stays m m' p (split cs).0
word-Stays m m' p [] str = Stays-nil m m' p
word-Stays m m' p (c ∷ cs) str = elim (Bool-cases (is_white c)) [
  | inl e ↦
      subst (Stays m m' p) (ap (λ (s : List ℕ × List (List ℕ)). s.0) (sym (split-white c cs e)))
        (Stays-nil m m' p)
  | inr e ↦
      subst (Stays m m' p) (ap (λ (s : List ℕ × List (List ℕ)). s.0) (sym (split-black c cs e)))
        (Stays-cons m m' p c (split cs).0 str.0 str.1 (word-Stays m m' (p + 1) cs str.2))
]

-- At the end of the line, or at whitespace
abbrev AtEnd : List ℕ → Type 0
AtEnd cs = (cs ≡ []) ⊎ (0 < blanks cs)

after_word-AtEnd : (cs : List ℕ) → AtEnd (after_word cs)
after_word-AtEnd [] = inl refl
after_word-AtEnd (c ∷ cs) = elim (Bool-cases (is_white c)) [
  | inl e ↦
      subst AtEnd (sym (if_true (c ∷ cs) (after_word cs) e))
        (inr (rw (if_true (suc (blanks cs)) 0 e) (omega arith)))
  | inr e ↦ subst AtEnd (sym (if_false (c ∷ cs) (after_word cs) e)) (after_word-AtEnd cs)
]

words-cons :
    (c : ℕ) (cs : List ℕ)
    → is_white c ≡ false
    → words (c ∷ cs) ≡ (split (c ∷ cs)).0 ∷ words (after_word (c ∷ cs))
words-cons c cs e =
    words-black c cs e
    ∙ ap (λ (s : List ℕ × List (List ℕ)). s.0 ∷ s.1) (sym (split-black c cs e))
    ∙ ap (λ ws. (split (c ∷ cs)).0 ∷ ws) (split-after_word (c ∷ cs))

length-after_word : (cs : List ℕ) → length (after_word cs) ≤ length cs
length-after_word [] = omega arith
length-after_word (c ∷ cs) = elim (Bool-cases (is_white c)) [
  | inl e ↦ rw (if_true (c ∷ cs) (after_word cs) e) (omega arith)
  | inr e ↦ rw (if_false (c ∷ cs) (after_word cs) e) (omega (arith, length-after_word cs))
]

abbrev Black : List ℕ → Type 0
Black [] = Unit
Black (c ∷ cs) = is_white c ≡ false

skipped-Black : (cs : List ℕ) → Black (skipped cs)
skipped-Black [] = tt
skipped-Black (c ∷ cs) = elim (Bool-cases (is_white c)) [
  | inl e ↦ subst Black (sym (if_true (skipped cs) (c ∷ cs) e)) (skipped-Black cs)
  | inr e ↦ subst Black (sym (if_false (skipped cs) (c ∷ cs) e)) e
]

-- The loop from `q` on, where the line is `cs`, adds the pointers `ps`.
record Loop (f g : ℕ) (m : Bytes) (q : ℕ) (ws : List (List ℕ)) (argv : List ℕ) (ended : Type 0)
    (m' : Bytes) (ps : List ℕ) : Type 0 where
  runs : parse_args f g m q argv ≡ some (arguments m' (argv ++ ps))
  strings : AreStrings m' ps ws
  same : Same q m m'
  end : ended → m' q ≡ 0

-- What the loop does with fuel `f`, as a hypothesis for the next round.
abbrev Works : ℕ → ℕ → Type 0
Works f g =
    (m : Bytes) (q : ℕ) (cs : List ℕ) (argv : List ℕ)
    → IsString m q cs
    → length cs < g
    → length (words cs) < f
    → length argv + length (words cs) ≤ 15
    → (m' : Bytes) × (ps : List ℕ) × Loop f g m q (words cs) argv (AtEnd cs) m' ps

-- A round by what `gobble` leaves.
module _ (f g : ℕ) (m : Bytes) (q n : ℕ) (argv : List ℕ) (m1 : Bytes) where
  cleared : (rest : List ℕ) → Gobbled g m q n rest m1 → 0 < n → m1 q ≡ 0
  cleared rest gb pos = gb.zeros q (omega arith) (omega arith)

  round_end : Gobbled g m q n [] m1 → Loop (suc f) g m q [] argv (Unit {0}) m1 []
  unfolding parse_args save_arg
  round_end gb = record {
    runs =
        rw (gb.runs, gb.text) (ap (λ (a : List ℕ). some (arguments m1 a)) (sym (append_nil argv)));
    strings = tt;
    same = gb.same;
    end = λ _. elim (dec_lt 0 n) [
      | yes pos ↦ cleared [] gb pos
      | no none_there ↦ subst (λ (a : ℕ). m1 a ≡ 0) (omega arith) gb.text
    ];
  }

  module _ (c : ℕ) (cs : List ℕ) (gb : Gobbled g m q n (c ∷ cs) m1) (black : is_white c ≡ false)
      (works : Works f g) where
    abbrev past : ℕ
    past = q + n + length (split (c ∷ cs)).0

    round_more :
        length (c ∷ cs) < g
        → length (words (c ∷ cs)) < suc f
        → length argv + length (words (c ∷ cs)) ≤ 15
        → (m' : Bytes) × (ps : List ℕ) × Loop (suc f) g m q (words (c ∷ cs)) argv (0 < n) m' ps
    unfolding parse_args save_arg
    round_more short rounds few =
        let not_end : (m1 (q + n) == 0) ≡ false = rw (gb.text.0) (==_ne c 0 gb.text.1) in
        let fewer : length (words (c ∷ cs)) ≡ suc (length (words (after_word (c ∷ cs)))) =
          ap length (words-cons c cs black) in
        let room : (length argv == 15) ≡ false =
          ==_ne (length argv) 15 (λ e. omega (arith, fewer, few)) in
        let (m', ps, l) =
          works m1 past (after_word (c ∷ cs)) (argv ++ (q + n) ∷ [])
            (rest-IsString m1 (q + n) (c ∷ cs) gb.text)
            (omega (arith, length-after_word (c ∷ cs), short)) (omega (arith, fewer))
            (omega (arith, fewer, length-append argv ((q + n) ∷ []))) in
        let ended : m' past ≡ 0 = l.end (after_word-AtEnd (c ∷ cs)) in
        (
          m',
          (q + n) ∷ ps,
          record {
            runs =
                rw (gb.runs, not_end, room, scan_past_lem g m1 (q + n) (c ∷ cs) gb.text short)
                  (l.runs
                    ∙ ap (λ (a : List ℕ). some (arguments m' a))
                        (append_assoc argv ((q + n) ∷ []) ps));
            strings =
                subst (AreStrings m' ((q + n) ∷ ps)) (sym (words-cons c cs black))
                  (word-Stays m1 m' (q + n) (c ∷ cs) gb.text l.same ended, l.strings);
            same = λ x lt. l.same x (omega arith) ∙ gb.same x lt;
            end = λ pos. l.same q (omega arith) ∙ cleared (c ∷ cs) gb pos;
          },
        )

blanks-AtEnd : (cs : List ℕ) → AtEnd cs → skipped cs ≢ [] → 0 < blanks cs
blanks-AtEnd cs (inl e) ne = absurd (ne (ap skipped e))
blanks-AtEnd cs (inr pos) ne = pos

round :
    (f g : ℕ) (m : Bytes) (q n : ℕ) (argv : List ℕ) (m1 : Bytes) (r : List ℕ)
    → Gobbled g m q n r m1
    → Black r
    → Works f g
    → length r < g
    → length (words r) < suc f
    → length argv + length (words r) ≤ 15
    → (m' : Bytes) × (ps : List ℕ) × Loop (suc f) g m q (words r) argv ((r ≢ []) → 0 < n) m' ps
round f g m q n argv m1 [] gb black works short rounds few =
    let l = round_end f g m q n argv m1 gb in
    (
      m1,
      [],
      record {
        runs = l.runs;
        strings = subst (AreStrings m1 []) (sym words-nil) tt;
        same = l.same;
        end = λ h. l.end tt;
      },
    )
round f g m q n argv m1 (c ∷ cs) gb black works short rounds few =
    let (m', ps, l) = round_more f g m q n argv m1 c cs gb black works short rounds few in
    (
      m',
      ps,
      record { runs = l.runs; strings = l.strings; same = l.same; end = λ h. l.end (h (λ p. cc)) },
    )

works : (f g : ℕ) → Works f g
works zero g m q cs argv str short rounds few = absurd (omega arith)
works (suc f) g m q cs argv str short rounds few =
    let (m1, gb) = gobble-Gobbled g m q cs str short in
    let same : words (skipped cs) ≡ words cs = words-skipped cs in
    let count : length (words (skipped cs)) ≡ length (words cs) = ap length same in
    let (m', ps, l) =
      round f g m q (blanks cs) argv m1 (skipped cs) gb (skipped-Black cs) (works f g)
        (omega (arith, length-skipped cs)) (omega (arith, count)) (omega (arith, count)) in
    (
      m',
      ps,
      record {
        runs = l.runs;
        strings = subst (AreStrings m' ps) same l.strings;
        same = l.same;
        end = λ h. l.end (λ ne. blanks-AtEnd cs h ne);
      },
    )

-- The loop over a command line of at most 15 words, from its start: the arguments are the words of the line,
-- in order, each a text of its own in the buffer, and memory in front of the buffer is as it was.
pub parse_args-words :
    (f g : ℕ) (m : Bytes) (buf : ℕ) (cs : List ℕ)
    → IsString m buf cs
    → length cs < g
    → length (words cs) < f
    → length (words cs) ≤ 15
    → (m' : Bytes) × (argv : List ℕ) × (parse_args f g m buf [] ≡ some (arguments m' argv))
      × AreStrings m' argv (words cs)
      × ((x : ℕ) → x < buf → m' x ≡ m x)
parse_args-words f g m buf cs str short rounds few =
    let (m', ps, l) = works f g m buf cs [] str short rounds (omega (arith, few)) in
    (m', ps, l.runs, l.strings, l.same)
