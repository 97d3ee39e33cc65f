-- ===== src/Strings/Move.antt =====
-- What `memmove` and `memset` of lib/string.c leave in memory.
use challenge.Base.{
  ℕ, zero, suc, ◌+◌, ◌-◌, ◌*◌, ◌/◌, ◌%◌, ◌^◌, ◌≤◌, ◌<◌, ◌≡◌, refl, sym, ◌∙◌, ap, true, false, ◌&&◌,
  arith, ◌⊎◌, inl, inr, ◌==◌, leb, ltb, if◌then◌else◌, Bool-cases,
}
use native.Mathlib.Decide.{dec_lt}
use challenge.Strings.{Bytes, move_unit, span, copy_up, copy_down, fill_units, memmove, memset}

-- `n` bytes from `s` at once to `d`, read before any is written.
abbrev pub moved : ℕ → ℕ → ℕ → Bytes → Bytes
moved n s d m a = if leb d a && ltb a (d + n) then m (s + (a - d)) else m a

abbrev pub filled : ℕ → ℕ → ℕ → Bytes → Bytes
filled n v c m a = if leb v a && ltb a (v + n) then c else m a

span-one : (n : ℕ) → span 1 n ≡ n
unfolding span
span-one zero = refl
span-one (suc n) = omega (arith, span-one n)

span-four : (n : ℕ) → span 4 n ≡ 4 * n
unfolding span
span-four zero = refl
span-four (suc n) = omega (arith, span-four n)

moved_in : (n s d : ℕ) (m : Bytes) (a : ℕ) → d ≤ a → a < d + n → moved n s d m a ≡ m (s + (a - d))
moved_in n s d m a lo hi = ground arith

moved_out : (n s d : ℕ) (m : Bytes) (a : ℕ) → (a < d) ⊎ (d + n ≤ a) → moved n s d m a ≡ m a
moved_out n s d m a o = ground arith

-- Where an address lies as to a block of `u` bytes from `d` and `r` more.
data Place (d u r a : ℕ) : Type 0 where
  below : a < d → Place d u r a
  first : d ≤ a → a < d + u → Place d u r a
  later : d + u ≤ a → a < d + (u + r) → Place d u r a
  above : d + (u + r) ≤ a → Place d u r a

place : (d u r a : ℕ) → Place d u r a
place d u r a = elim (dec_lt a d) [
  | yes l ↦ below l
  | no l ↦ elim (dec_lt a (d + u)) [
    | yes f ↦ first (omega arith) f
    | no f ↦ elim (dec_lt a (d + (u + r))) [
      | yes t ↦ later (omega arith) t
      | no t ↦ above (omega arith)
    ]
  ]
]

-- The first unit and then the rest, upwards, is all at once, if the writes stay below what is read.
unit_first :
    (u r s d : ℕ) (m : Bytes) (a : ℕ)
    → (d ≤ s) ⊎ (s + (u + r) ≤ d)
    → Place d u r a
    → moved r (s + u) (d + u) (moved u s d m) a ≡ moved (u + r) s d m a
unit_first u r s d m a apart (below l) =
    moved_out r (s + u) (d + u) (moved u s d m) a (inl (omega arith))
    ∙ moved_out u s d m a (inl l)
    ∙ sym (moved_out (u + r) s d m a (inl l))
unit_first u r s d m a apart (first lo hi) =
    moved_out r (s + u) (d + u) (moved u s d m) a (inl hi)
    ∙ moved_in u s d m a lo hi
    ∙ sym (moved_in (u + r) s d m a lo (omega arith))
unit_first u r s d m a apart (later lo hi) =
    moved_in r (s + u) (d + u) (moved u s d m) a lo (omega arith)
    ∙ moved_out u s d m (s + u + (a - (d + u)))
        (elim apart [ inl p ↦ inr (omega arith) | inr p ↦ inl (omega arith) ])
    ∙ ap m (omega arith)
    ∙ sym (moved_in (u + r) s d m a (omega arith) hi)
unit_first u r s d m a apart (above lo) =
    moved_out r (s + u) (d + u) (moved u s d m) a (inr (omega arith))
    ∙ moved_out u s d m a (inr (omega arith))
    ∙ sym (moved_out (u + r) s d m a (inr lo))

-- The last unit and then the rest, downwards, is all at once, if the writes stay above what is read.
unit_last :
    (u r s d : ℕ) (m : Bytes) (a : ℕ)
    → s ≤ d
    → Place d r u a
    → moved r s d (moved u (s + r) (d + r) m) a ≡ moved (u + r) s d m a
unit_last u r s d m a apart (below l) =
    moved_out r s d (moved u (s + r) (d + r) m) a (inl l)
    ∙ moved_out u (s + r) (d + r) m a (inl (omega arith))
    ∙ sym (moved_out (u + r) s d m a (inl l))
unit_last u r s d m a apart (first lo hi) =
    moved_in r s d (moved u (s + r) (d + r) m) a lo hi
    ∙ moved_out u (s + r) (d + r) m (s + (a - d)) (inl (omega arith))
    ∙ sym (moved_in (u + r) s d m a lo (omega arith))
unit_last u r s d m a apart (later lo hi) =
    moved_out r s d (moved u (s + r) (d + r) m) a (inr lo)
    ∙ moved_in u (s + r) (d + r) m a lo (omega arith)
    ∙ ap m (omega arith)
    ∙ sym (moved_in (u + r) s d m a (omega arith) (omega arith))
unit_last u r s d m a apart (above lo) =
    moved_out r s d (moved u (s + r) (d + r) m) a (inr (omega arith))
    ∙ moved_out u (s + r) (d + r) m a (inr (omega arith))
    ∙ sym (moved_out (u + r) s d m a (inr (omega arith)))

copy_up-moved :
    (u n s d : ℕ) (m : Bytes) (a : ℕ)
    → (d ≤ s) ⊎ (s + span u n ≤ d)
    → copy_up u n s d m a ≡ moved (span u n) s d m a
unfolding copy_up span
copy_up-moved u zero s d m a apart =
    sym (moved_out 0 s d m a (elim (dec_lt a d) [ yes l ↦ inl l | no l ↦ inr (omega arith) ]))
copy_up-moved u (suc n) s d m a apart =
    copy_up-moved u n (s + u) (d + u) (move_unit u s d m) a
      (elim apart [ inl p ↦ inl (omega arith) | inr p ↦ inr (omega arith) ])
    ∙ unit_first u (span u n) s d m a apart (place d u (span u n) a)

copy_down-moved :
    (u n s d : ℕ) (m : Bytes) (a : ℕ) → s ≤ d → copy_down u n s d m a ≡ moved (span u n) s d m a
unfolding copy_down span
copy_down-moved u zero s d m a apart =
    sym (moved_out 0 s d m a (elim (dec_lt a d) [ yes l ↦ inl l | no l ↦ inr (omega arith) ]))
copy_down-moved u (suc n) s d m a apart =
    copy_down-moved u n s d (move_unit u (s + span u n) (d + span u n) m) a apart
    ∙ unit_last u (span u n) s d m a apart (place d (span u n) u a)

span_words : (x y n : ℕ) → (x % 4 == 0 && (y % 4 == 0 && n % 4 == 0)) ≡ true → span 4 (n / 4) ≡ n
span_words x y n h = span-four (n / 4) ∙ ground arith

overlap :
    (src dst n : ℕ)
    → src + n < 2 ^ 32
    → (ltb src dst && ltb dst ((src + n) % 2 ^ 32)) ≡ true
    → src ≤ dst
overlap src dst n hs t = ground arith

no_overlap :
    (src dst n : ℕ)
    → src + n < 2 ^ 32
    → (ltb src dst && ltb dst ((src + n) % 2 ^ 32)) ≡ false
    → (dst ≤ src) ⊎ (src + n ≤ dst)
no_overlap src dst n hs t = ground arith

up_moved :
    (u k n s d : ℕ) (m : Bytes) (a : ℕ)
    → span u k ≡ n
    → (d ≤ s) ⊎ (s + n ≤ d)
    → copy_up u k s d m a ≡ moved n s d m a
up_moved u k n s d m a e apart =
    copy_up-moved u k s d m a (elim apart [ inl p ↦ inl p | inr p ↦ inr (omega arith) ])
    ∙ ap (λ x. moved x s d m a) e

down_moved :
    (u k n s d : ℕ) (m : Bytes) (a : ℕ)
    → span u k ≡ n
    → s ≤ d
    → copy_down u k s d m a ≡ moved n s d m a
down_moved u k n s d m a e apart = copy_down-moved u k s d m a apart ∙ ap (λ x. moved x s d m a) e

-- `memmove` of `n` bytes puts at `dst` what was at `src` before the call, however the two overlap and
-- are aligned, and changes no other byte, where both blocks end inside the 32-bit address space.
pub memmove-moved :
    (m : Bytes) (dst src n : ℕ)
    → src + n < 2 ^ 32
    → dst + n < 2 ^ 32
    → (a : ℕ) → memmove m dst src n a ≡ moved n src dst m a
unfolding memmove
memmove-moved m dst src n hs hd a =
    elim (Bool-cases (ltb src dst && ltb dst ((src + n) % 2 ^ 32))) [
      | inl t ↦ elim (Bool-cases ((src + n) % 4 == 0 && ((dst + n) % 4 == 0 && n % 4 == 0))) [
        | inl w ↦
            rw (t, w)
              (down_moved 4 (n / 4) n src dst m a (span_words (src + n) (dst + n) n w)
                (overlap src dst n hs t))
        | inr w ↦ rw (t, w) (down_moved 1 n n src dst m a (span-one n) (overlap src dst n hs t))
      ]
      | inr t ↦ elim (Bool-cases (src % 4 == 0 && (dst % 4 == 0 && n % 4 == 0))) [
        | inl w ↦
            rw (t, w)
              (up_moved 4 (n / 4) n src dst m a (span_words src dst n w)
                (no_overlap src dst n hs t))
        | inr w ↦ rw (t, w) (up_moved 1 n n src dst m a (span-one n) (no_overlap src dst n hs t))
      ]
    ]

fill_first :
    (u r v c : ℕ) (m : Bytes) (a : ℕ)
    → filled r (v + u) c (filled u v c m) a ≡ filled (u + r) v c m a
fill_first u r v c m a = ground arith

filled_zero : (n v c : ℕ) (m : Bytes) (a : ℕ) → (n == 0) ≡ true → m a ≡ filled n v c m a
filled_zero n v c m a z = ground arith

fill_units-filled :
    (u n v c : ℕ) (m : Bytes) (a : ℕ) → fill_units u n v c m a ≡ filled (span u n) v c m a
unfolding fill_units span
fill_units-filled u zero v c m a = ground arith
fill_units-filled u (suc n) v c m a =
    fill_units-filled u n (v + u) c (filled u v c m) a ∙ fill_first u (span u n) v c m a

-- `memset` sets `n` bytes from `v` on to the low byte of `c`, however they are aligned, and changes no
-- other byte.
pub memset-filled : (m : Bytes) (v c n a : ℕ) → memset m v c n a ≡ filled n v (c % 2 ^ 8) m a
unfolding memset
memset-filled m v c n a = elim (Bool-cases (n == 0)) [
  | inl z ↦ rw z (filled_zero n v (c % 2 ^ 8) m a z)
  | inr z ↦ elim (Bool-cases (v % 4 == 0 && n % 4 == 0)) [
    | inl w ↦
        rw (z, w)
          (fill_units-filled 4 (n / 4) v (c % 2 ^ 8) m a
            ∙ ap (λ x. filled x v (c % 2 ^ 8) m a) (span-four (n / 4) ∙ ground arith))
    | inr w ↦
        rw (z, w)
          (fill_units-filled 1 n v (c % 2 ^ 8) m a
            ∙ ap (λ x. filled x v (c % 2 ^ 8) m a) (span-one n))
  ]
]
