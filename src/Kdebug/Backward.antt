-- ===== src/Kdebug/Backward.antt =====
-- kern/kdebug.c: the search backwards for a stab of the type.
use challenge.Base.{
  ℕ, zero, suc, ◌+◌, ◌≤◌, ◌<◌, ◌≡◌, subst, arith, ==_iff, lt→not_leb, le→leb, ==_ne,
}
use native.Mathlib.Decide.{ℕ_discrete, dec_lt}
use challenge.Kdebug.{Stab, down_to}

abbrev pub value : (ℕ → Stab) → ℕ → ℕ
value stabs i = (stabs i).n_value

module _ (stabs : ℕ → Stab) (type : ℕ) where
  -- An entry of the type that is looked for
  abbrev pub Matches : ℕ → Type 0
  Matches i = (stabs i).n_type ≡ type

  -- `down_to` stops at the last entry of the type in the range, or below the range.
  pub record Last (low high m : ℕ) : Type 0 where
    pub within : m ≤ high
    pub below : low ≤ m + 1
    pub found : low ≤ m → Matches m
    pub none_above : (i : ℕ) → m < i → i ≤ high → low ≤ i → ¬ (Matches i)

  pub down_to-Last :
      (low high : ℕ) → 0 < low → low ≤ high + 1 → Last low high (down_to stabs type low high)
  unfolding down_to
  down_to-Last low zero pos le = record {
    within = omega arith;
    below = omega arith;
    found = λ p. absurd (omega arith);
    none_above = λ i p q o. absurd (omega arith);
  }
  down_to-Last low (suc m) pos le = elim (dec_lt (suc m) low) [
    | yes out ↦ rw (lt→not_leb low (suc m) out) (record {
      within = omega arith;
      below = omega arith;
      found = λ p. absurd (omega arith);
      none_above = λ i p q o. absurd (omega arith);
    })
    | no into ↦ elim (ℕ_discrete (stabs (suc m)).n_type type) [
      | yes e ↦
          rw (le→leb low (suc m) (omega arith), (==_iff (stabs (suc m)).n_type type).1 e)
            (record {
              within = omega arith;
              below = omega arith;
              found = λ p. e;
              none_above = λ i p q o. absurd (omega arith);
            })
      | no ne ↦
          let rest = down_to-Last low m pos (omega arith) in
          rw (le→leb low (suc m) (omega arith), ==_ne (stabs (suc m)).n_type type ne)
            (record {
              within = omega (arith, rest.within);
              below = rest.below;
              found = rest.found;
              none_above = λ i p q o. elim (ℕ_discrete i (suc m)) [
                | yes same ↦ λ h. ne (subst Matches same h)
                | no other ↦ rest.none_above i p (omega arith) o
              ];
            })
    ]
  ]
