-- ===== src/Mpconfig/Table.antt =====
-- The tables that `mpconfig` of kern/mpconfig.c accepts.
use challenge.Base.{
  ℕ, zero, suc, ◌+◌, ◌*◌, ◌^◌, ◌<◌, ◌≡◌, refl, sym, subst, Bool, true, false, not, ◌&&◌, ◌||◌,
  Option, none, some, arith, ◌⊎◌, inl, inr, ◌==◌, leb, if◌then◌else◌, Bool-cases, if_true, if_false,
  ◌-◌, Option-cases, ==_iff,
}
use mathlib.Core.Bool.{false≢true}
use challenge.Mmu.{pgnum, word}
use challenge.Mpconfig.{
  sum, is_mp, or_else, mpsearch, mpsearch1, mpconfig, valid_table, read16, read32,
}

-- A table that the kernel may use
pub record Usable (npages : ℕ) (m : ℕ → ℕ) (mp conf : ℕ) : Type 0 where
  pub pointer : is_mp m mp ≡ true
  pub in_memory : pgnum conf < npages
  pub checksum : sum m conf (read16 m (conf + 4)) ≡ 0
  pub version : (m (conf + 6) ≡ 1) ⊎ (m (conf + 6) ≡ 4)

both : (a b : Bool) → (a && b) ≡ true → (a ≡ true) × (b ≡ true)
both true b e = (refl, e)
both false b e = absurd (false≢true e)

either : (a b : Bool) → (a || b) ≡ true → (a ≡ true) ⊎ (b ≡ true)
either true b e = inl refl
either false b e = inr e

not_leb→lt : (a b : ℕ) → leb a b ≡ false → b < a
not_leb→lt a b h = ground arith

abbrev Found : (ℕ → ℕ) → Option ℕ → Type 0
Found m none = Unit
Found m (some a) = is_mp m a ≡ true

mpsearch1-Found : (n : ℕ) (m : ℕ → ℕ) (a : ℕ) → Found m (mpsearch1 n m a)
unfolding mpsearch1
mpsearch1-Found zero m a = tt
mpsearch1-Found (suc n) m a = elim (Bool-cases (is_mp m a)) [
  | inl e ↦ subst (Found m) (sym (if_true {b = is_mp m a} (some a) (mpsearch1 n m (a + 16)) e)) e
  | inr e ↦
      subst (Found m) (sym (if_false {b = is_mp m a} (some a) (mpsearch1 n m (a + 16)) e))
        (mpsearch1-Found n m (a + 16))
]

Found-or_else : (m : ℕ → ℕ) (a b : Option ℕ) → Found m a → Found m b → Found m (or_else a b)
Found-or_else m none b p q = q
Found-or_else m (some a) b p q = p

Found-if :
    (m : ℕ → ℕ) (c : Bool) (a b : Option ℕ) → Found m a → Found m b → Found m (if c then a else b)
Found-if m true a b p q = p
Found-if m false a b p q = q

mpsearch-Found : (m : ℕ → ℕ) → Found m (mpsearch m)
unfolding mpsearch
mpsearch-Found m =
    Found-or_else m _ (mpsearch1 4096 m 0xF0000)
      (Found-if m (read16 m 0x40E == 0) _ _
        (mpsearch1-Found 64 m (word (read16 m 0x413 * 1024 + 2 ^ 32 - 1024)))
        (mpsearch1-Found 64 m (read16 m 0x40E * 16)))
      (mpsearch1-Found 4096 m 0xF0000)

abbrev AllUsable : ℕ → (ℕ → ℕ) → Option (Option (ℕ × ℕ)) → Type 0
AllUsable npages m none = Unit
AllUsable npages m (some none) = Unit
AllUsable npages m (some (some (mp, conf))) = Usable npages m mp conf

module _ (npages : ℕ) (m : ℕ → ℕ) where
  -- The result for the pointer at `mp`
  table_at : ℕ → ℕ → Option (Option (ℕ × ℕ))
  table_at mp conf =
      if conf == 0 || not (m (mp + 11) == 0)
      then some none
      else if leb npages (pgnum conf)
      then none
      else if valid_table m conf
      then some (some (mp, conf))
      else some none

  AllUsable-if :
      (c : Bool) (a b : Option (Option (ℕ × ℕ)))
      → (c ≡ true → AllUsable npages m a)
      → (c ≡ false → AllUsable npages m b)
      → AllUsable npages m (if c then a else b)
  AllUsable-if true a b p q = p refl
  AllUsable-if false a b p q = q refl

  valid-Usable :
      (mp conf : ℕ)
      → is_mp m mp ≡ true
      → leb npages (pgnum conf) ≡ false
      → AllUsable npages m (if valid_table m conf then some (some (mp, conf)) else some none)
  valid-Usable mp conf p q =
      AllUsable-if (valid_table m conf) (some (some (mp, conf))) (some none)
        (λ valid.
          let (_, rest) = both _ _ valid in
          let (total, rest') = both _ _ rest in
          let (version, _) = both _ _ rest' in
          record {
            pointer = p;
            in_memory = not_leb→lt npages (pgnum conf) q;
            checksum = (==_iff _ 0).0 total;
            version = elim (either _ _ version) [
              | inl one ↦ inl ((==_iff (m (conf + 6)) 1).0 one)
              | inr four ↦ inr ((==_iff (m (conf + 6)) 4).0 four)
            ];
          })
        (λ _. tt)

  table_at-Usable : (mp conf : ℕ) → is_mp m mp ≡ true → AllUsable npages m (table_at mp conf)
  unfolding table_at
  table_at-Usable mp conf p =
      AllUsable-if (conf == 0 || not (m (mp + 11) == 0)) (some none) _ (λ _. tt)
        (λ _.
          AllUsable-if (leb npages (pgnum conf)) none _ (λ _. tt) (λ q. valid-Usable mp conf p q))

mpconfig-AllUsable : (npages : ℕ) (m : ℕ → ℕ) → AllUsable npages m (mpconfig npages m)
unfolding mpconfig table_at
mpconfig-AllUsable npages m = elim (Option-cases (mpsearch m)) [
  | inl e ↦ rw (mpconfig, e) tt
  | inr (mp, e) ↦
      rw (mpconfig, e)
        (table_at-Usable npages m mp (read32 m (mp + 4)) (subst (Found m) e (mpsearch-Found m)))
]

-- A table that `mpconfig` accepts lies in physical memory, its bytes add up to 0, and its version is 1
-- or 4; the structure that points to it has the signature of one, and its bytes add up to 0.
pub mpconfig-Usable :
    (npages : ℕ) (m : ℕ → ℕ) (mp conf : ℕ)
    → mpconfig npages m ≡ some (some (mp, conf))
    → Usable npages m mp conf
mpconfig-Usable npages m mp conf run = subst (AllUsable npages m) run (mpconfig-AllUsable npages m)
