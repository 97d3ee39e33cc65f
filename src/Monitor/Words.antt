-- ===== src/Monitor/Words.antt =====
-- kern/monitor.c: the arguments of a command line.
use challenge.Base.{
  ℕ, zero, suc, ◌+◌, ◌≤◌, ◌<◌, ◌≡◌, refl, sym, subst, ◌∙◌, ap, true, false, some, List, [], ◌∷◌,
  arith, ◌==◌, if◌then◌else◌, length, update, update_self, update_ne, ==_ne, if_true, if_false,
  Bool-cases, inl, inr, subst₂,
}
use native.Mathlib.Decide.{ℕ_discrete}
use challenge.Strings.{Bytes}
use challenge.Strings.Text.{IsString}
use challenge.Monitor.{is_white, gobble, scan_past}

abbrev pub add_word : List ℕ → List (List ℕ) → List (List ℕ)
add_word [] ws = ws
add_word (c ∷ cs) ws = (c ∷ cs) ∷ ws

-- The word at the start of a line, which may be empty, and the words behind it.
abbrev pub split : List ℕ → List ℕ × List (List ℕ)
split [] = ([], [])
split (c ∷ cs) = let s = split cs in if is_white c then ([], add_word s.0 s.1) else (c ∷ s.0, s.1)

-- The words of a line, which whitespace separates.
unfoldable pub words : List ℕ → List (List ℕ)
words cs = add_word (split cs).0 (split cs).1

abbrev pub blanks : List ℕ → ℕ
blanks [] = 0
blanks (c ∷ cs) = if is_white c then suc (blanks cs) else 0

abbrev pub skipped : List ℕ → List ℕ
skipped [] = []
skipped (c ∷ cs) = if is_white c then skipped cs else c ∷ cs

abbrev pub after_word : List ℕ → List ℕ
after_word [] = []
after_word (c ∷ cs) = if is_white c then c ∷ cs else after_word cs

module _ (c : ℕ) (cs : List ℕ) where
  pub split-white : is_white c ≡ true → split (c ∷ cs) ≡ ([], words cs)
  unfolding words
  split-white e = if_true _ _ e

  pub split-black : is_white c ≡ false → split (c ∷ cs) ≡ (c ∷ (split cs).0, (split cs).1)
  split-black e = if_false _ _ e

  pub words-white : is_white c ≡ true → words (c ∷ cs) ≡ words cs
  unfolding words
  words-white e = ap (λ (s : List ℕ × List (List ℕ)). add_word s.0 s.1) (split-white e)

  pub words-black : is_white c ≡ false → words (c ∷ cs) ≡ (c ∷ (split cs).0) ∷ (split cs).1
  unfolding words
  words-black e = ap (λ (s : List ℕ × List (List ℕ)). add_word s.0 s.1) (split-black e)

pub words-nil : words [] ≡ []
unfolding words
words-nil = refl

pub length-skipped : (cs : List ℕ) → length (skipped cs) ≤ length cs
length-skipped [] = omega arith
length-skipped (c ∷ cs) = elim (Bool-cases (is_white c)) [
  | inl e ↦ rw (if_true (skipped cs) (c ∷ cs) e) (omega (arith, length-skipped cs))
  | inr e ↦ rw (if_false (skipped cs) (c ∷ cs) e) (omega arith)
]

pub words-skipped : (cs : List ℕ) → words (skipped cs) ≡ words cs
words-skipped [] = refl
words-skipped (c ∷ cs) = elim (Bool-cases (is_white c)) [
  | inl e ↦ ap words (if_true (skipped cs) (c ∷ cs) e) ∙ words-skipped cs ∙ sym (words-white c cs e)
  | inr e ↦ ap words (if_false (skipped cs) (c ∷ cs) e)
]

pub split-after_word : (cs : List ℕ) → (split cs).1 ≡ words (after_word cs)
unfolding words
split-after_word [] = refl
split-after_word (c ∷ cs) = elim (Bool-cases (is_white c)) [
  | inl e ↦
      ap (λ (s : List ℕ × List (List ℕ)). s.1) (split-white c cs e)
      ∙ sym (words-white c cs e)
      ∙ sym (ap words (if_true (c ∷ cs) (after_word cs) e))
  | inr e ↦
      ap (λ (s : List ℕ × List (List ℕ)). s.1) (split-black c cs e)
      ∙ split-after_word cs
      ∙ sym (ap words (if_false (c ∷ cs) (after_word cs) e))
]

-- Memory is as it was below `a`.
abbrev pub Same : ℕ → Bytes → Bytes → Type 0
Same a m m' = (x : ℕ) → x < a → m' x ≡ m x

-- `gobble` takes `n` characters of whitespace away in front of `rest`.
pub record Gobbled (g : ℕ) (m : Bytes) (p n : ℕ) (rest : List ℕ) (m' : Bytes) : Type 0 where
  pub runs : gobble g m p ≡ some (m', p + n)
  pub text : IsString m' (p + n) rest
  pub same : Same p m m'
  pub zeros : (x : ℕ) → p ≤ x → x < p + n → m' x ≡ 0

update-after :
    (m : Bytes) (p q v : ℕ) (cs : List ℕ) → p < q → IsString m q cs → IsString (update m p v) q cs
update-after m p q v [] lt h = update_ne m p q v (λ e. omega arith) ∙ h
update-after m p q v (c ∷ cs) lt h = (
  update_ne m p q v (λ e. omega arith) ∙ h.0,
  h.1,
  update-after m p (q + 1) v cs (omega arith) h.2,
)

module _ (g : ℕ) (m : Bytes) (p : ℕ) where
  gobble_end : IsString m p [] → Gobbled (suc g) m p 0 [] m
  unfolding gobble
  gobble_end str = record {
    runs = rw str (ap (λ (a : ℕ). some (m, a)) (omega arith));
    text = subst (λ a. m a ≡ 0) (omega arith) str;
    same = λ x l. refl;
    zeros = λ x l l'. absurd (omega arith);
  }

  module _ (c : ℕ) (cs : List ℕ) (str : IsString m p (c ∷ cs)) where
    not_end : (m p == 0) ≡ false
    not_end = rw str.0 (==_ne c 0 str.1)

    gobble_stop : is_white c ≡ false → Gobbled (suc g) m p 0 (c ∷ cs) m
    unfolding gobble
    gobble_stop e = record {
      runs =
          (let black : is_white (m p) ≡ false = ap is_white str.0 ∙ e in
            rw (not_end, black) (ap (λ (a : ℕ). some (m, a)) (omega arith)));
      text = subst (λ (a : ℕ). IsString m a (c ∷ cs)) (omega arith) str;
      same = λ x l. refl;
      zeros = λ x l l'. absurd (omega arith);
    }

    gobble_one :
        (n : ℕ) (rest : List ℕ) (m' : Bytes)
        → is_white c ≡ true
        → Gobbled g (update m p 0) (p + 1) n rest m'
        → Gobbled (suc g) m p (suc n) rest m'
    unfolding gobble
    gobble_one n rest m' e more = record {
      runs =
          (let white : is_white (m p) ≡ true = ap is_white str.0 ∙ e in
            rw (not_end, white) (more.runs ∙ ap (λ (a : ℕ). some (m', a)) (omega arith)));
      text = subst (λ (a : ℕ). IsString m' a rest) (omega arith) more.text;
      same = λ x l. more.same x (omega arith) ∙ update_ne m p x 0 (λ q. omega arith);
      zeros = λ x l l'. elim (ℕ_discrete x p) [
        | yes here ↦ more.same x (omega (arith, here)) ∙ ap (update m p 0) here ∙ update_self m p 0
        | no past ↦ more.zeros x (omega arith) (omega arith)
      ];
    }

pub gobble-Gobbled :
    (g : ℕ) (m : Bytes) (p : ℕ) (cs : List ℕ)
    → IsString m p cs
    → length cs < g
    → (m' : Bytes) × Gobbled g m p (blanks cs) (skipped cs) m'
gobble-Gobbled zero m p cs str lt = absurd (omega arith)
gobble-Gobbled (suc g) m p [] str lt = (m, gobble_end g m p str)
gobble-Gobbled (suc g) m p (c ∷ cs) str lt = elim (Bool-cases (is_white c)) [
  | inl e ↦
      let (m', rest) =
        gobble-Gobbled g (update m p 0) (p + 1) cs
          (update-after m p (p + 1) 0 cs (omega arith) str.2) (omega arith) in
      (
        m',
        subst₂ (λ n r. Gobbled (suc g) m p n r m') (sym (if_true (suc (blanks cs)) 0 e))
            (sym (if_true (skipped cs) (c ∷ cs) e))
            (gobble_one g m p c cs str (blanks cs) (skipped cs) m' e rest),
      )
  | inr e ↦ (
    m,
    subst₂ (λ n r. Gobbled (suc g) m p n r m) (sym (if_false (suc (blanks cs)) 0 e))
        (sym (if_false (skipped cs) (c ∷ cs) e)) (gobble_stop g m p c cs str e),
  )
]

pub scan_past_lem :
    (g : ℕ) (m : Bytes) (p : ℕ) (cs : List ℕ)
    → IsString m p cs
    → length cs < g
    → scan_past g m p ≡ some (p + length (split cs).0)
unfolding scan_past
scan_past_lem zero m p cs str lt = absurd (omega arith)
scan_past_lem (suc g) m p [] str lt = rw str (ap some (omega arith))
scan_past_lem (suc g) m p (c ∷ cs) str lt =
    let there : (m p == 0) ≡ false = rw str.0 (==_ne c 0 str.1) in
    elim (Bool-cases (is_white c)) [
      | inl e ↦
          let white : is_white (m p) ≡ true = ap is_white str.0 ∙ e in
          rw (there, white)
            (ap some
              (omega (arith, ap (λ (s : List ℕ × List (List ℕ)). length s.0) (split-white c cs e))))
      | inr e ↦
          let black : is_white (m p) ≡ false = ap is_white str.0 ∙ e in
          rw (there, black)
            (scan_past_lem g m (p + 1) cs str.2 (omega arith)
              ∙ ap some (
                  omega
                    (arith, ap (λ (s : List ℕ × List (List ℕ)). length s.0) (split-black c cs e))))
    ]

-- The text behind the first word
pub rest-IsString :
    (m : Bytes) (p : ℕ) (cs : List ℕ)
    → IsString m p cs
    → IsString m (p + length (split cs).0) (after_word cs)
rest-IsString m p [] str = subst (λ a. m a ≡ 0) (omega arith) str
rest-IsString m p (c ∷ cs) str = elim (Bool-cases (is_white c)) [
  | inl e ↦
      subst₂ (λ (n : ℕ) r. IsString m (p + n) r)
        (ap (λ (s : List ℕ × List (List ℕ)). length s.0) (sym (split-white c cs e)))
        (sym (if_true (c ∷ cs) (after_word cs) e))
        (subst (λ (a : ℕ). IsString m a (c ∷ cs)) (omega arith) str)
  | inr e ↦
      subst₂ (λ (n : ℕ) r. IsString m (p + n) r)
        (ap (λ (s : List ℕ × List (List ℕ)). length s.0) (sym (split-black c cs e)))
        (sym (if_false (c ∷ cs) (after_word cs) e))
        (subst (λ (a : ℕ). IsString m a (after_word cs)) (omega arith)
          (rest-IsString m (p + 1) cs str.2))
]
