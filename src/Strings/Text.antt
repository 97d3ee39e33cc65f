-- ===== src/Strings/Text.antt =====
-- What the functions of lib/string.c on strings compute, for strings that end inside memory.
use challenge.Base.{
  ℕ, zero, suc, ◌+◌, ◌-◌, ◌≤◌, ◌<◌, ◌≡◌, refl, ◌≢◌, subst, ◌∙◌, ap, some, List, [], ◌∷◌, arith, ◌⊎◌,
  inl, inr, ◌==◌, if◌then◌else◌, Bool-cases, update, update_self, update_ne, length, ==_ne,
}
use challenge.Strings.{Bytes, strlen, strlen_loop, strlcpy, strlcpy_loop, strcmp, difference}

-- The bytes from `s` on are the characters `xs`, none of them NUL, and then a NUL.
abbrev pub IsString : Bytes → ℕ → List ℕ → Type 0
IsString m s [] = m s ≡ 0
IsString m s (x ∷ xs) = (m s ≡ x) × (x ≢ 0) × IsString m (s + 1) xs

strlen_loop_lem :
    (f : ℕ) (m : Bytes) (s n : ℕ) (xs : List ℕ)
    → IsString m s xs
    → length xs < f
    → strlen_loop f m s n ≡ some (n + length xs)
unfolding strlen_loop
strlen_loop_lem zero m s n xs h lt = absurd (omega arith)
strlen_loop_lem (suc f) m s n [] h lt = ground arith
strlen_loop_lem (suc f) m s n (x ∷ xs) h lt =
    ground (arith, strlen_loop_lem f m (s + 1) (n + 1) xs h.2)

-- `strlen` of a string returns its length.
pub strlen_lem :
    (f : ℕ) (m : Bytes) (s : ℕ) (xs : List ℕ)
    → IsString m s xs
    → length xs < f
    → strlen f m s ≡ some (length xs)
unfolding strlen
strlen_lem f m s xs h lt = strlen_loop_lem f m s 0 xs h lt ∙ ap some (omega arith)

-- A write outside the string leaves it.
update-IsString :
    (m : Bytes) (s : ℕ) (xs : List ℕ) (a v : ℕ)
    → (a < s) ⊎ (s + length xs < a)
    → IsString m s xs
    → IsString (update m a v) s xs
update-IsString m s [] a v out h =
    update_ne m a s v (elim out [ inl p ↦ (λ e. omega arith) | inr p ↦ (λ e. omega arith) ]) ∙ h
update-IsString m s (x ∷ xs) a v out h = (
  update_ne m a s v (elim out [ inl p ↦ (λ e. omega arith) | inr p ↦ (λ e. omega arith) ]) ∙ h.0,
  h.1,
  update-IsString m (s + 1) xs a v
      (elim out [ inl p ↦ inl (omega arith) | inr p ↦ inr (omega arith) ]) h.2,
)

-- The characters that fit.
abbrev pub take : ℕ → List ℕ → List ℕ
take zero xs = []
take (suc n) [] = []
take (suc n) (x ∷ xs) = x ∷ take n xs

-- What a copy of `n` bytes or fewer, from `d` on, leaves: the string `ys` at `d`, and the bytes
-- outside as they were.
pub record Copied (m m' : Bytes) (d n : ℕ) (ys : List ℕ) : Type 0 where
  pub string : IsString m' d ys
  pub outside : (a : ℕ) → (a < d) ⊎ (d + n ≤ a) → m' a ≡ m a

Copied-end : (m : Bytes) (d n : ℕ) → Copied m (update m d 0) d (suc n) []
Copied-end m d n = record {
  string = update_self m d 0;
  outside =
      λ a o. update_ne m d a 0 (elim o [ inl p ↦ (λ e. omega arith) | inr p ↦ (λ e. omega arith) ]);
}

Copied-cons :
    (m m' : Bytes) (d n x : ℕ) (ys : List ℕ)
    → x ≢ 0
    → Copied (update m d x) m' (d + 1) n ys
    → Copied m m' d (suc n) (x ∷ ys)
Copied-cons m m' d n x ys nonzero c = record {
  string = (c.outside d (inl (omega arith)) ∙ update_self m d x, nonzero, c.string);
  outside = λ a o.
      c.outside a (elim o [ inl p ↦ inl (omega arith) | inr p ↦ inr (omega arith) ])
      ∙ update_ne m d a x (elim o [ inl p ↦ (λ e. omega arith) | inr p ↦ (λ e. omega arith) ]);
}

strlcpy_loop_lem :
    (m : Bytes) (dst src size : ℕ) (xs : List ℕ)
    → IsString m src xs
    → (dst + size < src) ⊎ (src + length xs < dst)
    → ((strlcpy_loop m dst src size).1 ≡ dst + length (take size xs))
      × Copied m (strlcpy_loop m dst src size).0 dst (suc size) (take size xs)
unfolding strlcpy_loop
strlcpy_loop_lem m dst src zero xs h apart = (omega arith, Copied-end m dst 0)
strlcpy_loop_lem m dst src (suc size) [] h apart =
    rw (ap (λ c. c == 0) h) (omega arith, Copied-end m dst (suc size))
strlcpy_loop_lem m dst src (suc size) (x ∷ xs) h apart =
    let m1 = update m dst (m src) in
    let h1 : IsString m1 (src + 1) xs =
      update-IsString m (src + 1) xs dst (m src)
        (elim apart [ inl p ↦ inl (omega arith) | inr p ↦ inr (omega arith) ]) h.2 in
    let (end, c) =
      strlcpy_loop_lem m1 (dst + 1) (src + 1) size xs h1
        (elim apart [ inl p ↦ inl (omega arith) | inr p ↦ inr (omega arith) ]) in
    rw (ap (λ y. y == 0) h.0 ∙ ==_ne x 0 h.1) (
      omega arith,
      Copied-cons m _ dst (suc size) x (take size xs) h.1 (
          subst
            (λ v.
              Copied (update m dst v) (strlcpy_loop m1 (dst + 1) (src + 1) size).0 (dst + 1)
                (suc size) (take size xs))
            h.0 c),
    )

-- `strlcpy` into a buffer of `size` bytes apart from the source: it holds as much of the string as fits
-- with a NUL, the number of characters copied is returned, and no byte outside the buffer changes.
pub strlcpy-Copied :
    (m : Bytes) (dst src size : ℕ) (xs : List ℕ)
    → IsString m src xs
    → 0 < size
    → (dst + size ≤ src) ⊎ (src + length xs < dst)
    → ((strlcpy m dst src size).1 ≡ length (take (size - 1) xs))
      × Copied m (strlcpy m dst src size).0 dst size (take (size - 1) xs)
unfolding strlcpy
strlcpy-Copied m dst src zero xs h pos apart = absurd (omega arith)
strlcpy-Copied m dst src (suc size) xs h pos apart =
    let (end, c) =
      strlcpy_loop_lem m dst src size xs h
        (elim apart [ inl p ↦ inl (omega arith) | inr p ↦ inr p ]) in
    let e : suc size - 1 ≡ size = omega arith in rw e (omega (arith, end), c)

-- The order of two strings as the first difference of their bytes, with the end as 0.
abbrev pub compare_texts : List ℕ → List ℕ → ℕ
compare_texts [] [] = 0
compare_texts [] (y ∷ ys) = difference 0 y
compare_texts (x ∷ xs) [] = difference x 0
compare_texts (x ∷ xs) (y ∷ ys) = if x == y then compare_texts xs ys else difference x y

-- `strcmp` of two strings returns the difference of the first bytes in which they differ, and 0 if
-- there are none.
pub strcmp_lem :
    (f : ℕ) (m : Bytes) (p q : ℕ) (xs ys : List ℕ)
    → IsString m p xs
    → IsString m q ys
    → length xs < f
    → strcmp f m p q ≡ some (compare_texts xs ys)
unfolding strcmp
strcmp_lem zero m p q xs ys hx hy lt = absurd (omega arith)
strcmp_lem (suc f) m p q [] [] hx hy lt = rw (hx, hy) refl
strcmp_lem (suc f) m p q [] (y ∷ ys) hx hy lt = rw (hx, hy.0) refl
strcmp_lem (suc f) m p q (x ∷ xs) [] hx hy lt = rw (hx.0, hy, ==_ne x 0 hx.1) refl
strcmp_lem (suc f) m p q (x ∷ xs) (y ∷ ys) hx hy lt =
    rw (hx.0, hy.0, ==_ne x 0 hx.1)
      (elim (Bool-cases (x == y)) [
        | inl e ↦ rw e (strcmp_lem f m (p + 1) (q + 1) xs ys hx.2 hy.2 (omega arith))
        | inr e ↦ rw e refl
      ])
