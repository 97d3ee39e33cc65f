-- ===== src/Mpconfig/Cpus.antt =====
-- The CPUs that `mp_init` of kern/mpconfig.c finds.
use challenge.Base.{
  ℕ, zero, suc, ◌+◌, ◌<◌, ◌≤◌, ◌≡◌, refl, ◌∙◌, inl, inr, subst, ap, Bool, true, false, Option, none,
  some, arith, ◌==◌, leb, if◌then◌else◌, lt→ltb, le→not_ltb, ==_ne, ==_refl, sym, Option-cases,
}
use native.Mathlib.Decide.{ℕ_discrete, dec_lt}
use challenge.Mpconfig.{Mp, read16, read32, mpconfig, add_cpu, scan, finish, mp_init}

-- At most NCPU CPUs, each of which has its index in `cpus` as its id
pub record Numbered (s : Mp) : Type 0 where
  pub bounded : s.ncpu ≤ 8
  pub ids : (i : ℕ) → i < s.ncpu → s.cpu_id i ≡ i
  pub first : s.cpu_id 0 ≡ 0

add_cpu-Numbered : (flags : ℕ) (s : Mp) → Numbered s → Numbered (add_cpu flags s)
add_cpu-Numbered flags s h = elim (dec_lt s.ncpu 8) [
  | yes lt ↦ rw (lt→ltb s.ncpu 8 lt) (record {
    bounded = omega (arith, lt);
    ids = λ i below. elim (ℕ_discrete i s.ncpu) [
      | yes e ↦ rw (e, ==_refl s.ncpu) refl
      | no ne ↦ rw (==_ne i s.ncpu ne) (h.ids i (omega (arith, ne)))
    ];
    first = elim (ℕ_discrete 0 s.ncpu) [
      | yes e ↦ rw (sym e) refl
      | no ne ↦ rw (==_ne 0 s.ncpu ne) h.first
    ];
  })
  | no np ↦
      rw (le→not_ltb s.ncpu 8 (omega arith))
        (record { bounded = h.bounded; ids = h.ids; first = h.first })
]

if-Numbered : (b : Bool) (x y : Mp) → Numbered x → Numbered y → Numbered (if b then x else y)
if-Numbered true x y p q = p
if-Numbered false x y p q = q

scan-Numbered : (n : ℕ) (m : ℕ → ℕ) (p : ℕ) (s : Mp) → Numbered s → Numbered (scan n m p s)
unfolding scan
scan-Numbered zero m p s h = h
scan-Numbered (suc n) m p s h =
    if-Numbered (m p == 0) _ _
      (scan-Numbered n m (p + 20) (add_cpu (m (p + 3)) s) (add_cpu-Numbered (m (p + 3)) s h))
      (if-Numbered (leb (m p) 4) _ _ (scan-Numbered n m (p + 8) s h)
        (record { bounded = h.bounded; ids = h.ids; first = h.first }))

finish-Numbered : (s : Mp) → Numbered s → Numbered (finish s)
finish-Numbered s h =
    if-Numbered s.ismp _ _ (record { bounded = h.bounded; ids = h.ids; first = h.first })
      (record {
        bounded = omega arith;
        ids = λ i lt. ap s.cpu_id {x = i} {y = 0} (omega arith) ∙ h.first ∙ omega arith;
        first = h.first;
      })

-- Whatever state there is
abbrev AllNumbered : Option Mp → Type 0
AllNumbered none = Unit
AllNumbered (some s) = Numbered s

mp_init-AllNumbered :
    (npages : ℕ) (m : ℕ → ℕ) (s : Mp)
    → s.ncpu ≡ 0
    → s.cpu_id 0 ≡ 0
    → AllNumbered (mp_init npages m s)
unfolding mp_init
mp_init-AllNumbered npages m s none_yet first =
    let h : Numbered s = record {
      bounded = omega (arith, none_yet);
      ids = λ i lt. absurd (omega (arith, none_yet));
      first = first;
    } in
    elim (Option-cases (mpconfig npages m)) [
      | inl e ↦ rw (mp_init, e) tt
      | inr (none, e) ↦
          rw (mp_init, e) (record { bounded = h.bounded; ids = h.ids; first = h.first })
      | inr (some (mp, conf), e) ↦
          rw (mp_init, e)
            (let start : Mp = record s {
              ismp = true;
              bootcpu = 0;
              lapicaddr = read32 m (conf + 36);
            } in
              finish-Numbered (scan (read16 m (conf + 34)) m (conf + 44) start) (
                scan-Numbered (read16 m (conf + 34)) m (conf + 44) start
                  (record { bounded = h.bounded; ids = h.ids; first = h.first })))
    ]

-- `mp_init`, on globals with no CPU yet, leaves at most NCPU CPUs, whatever bytes the table has, and
-- the id of each of them is its index in `cpus`.
pub mp_init-Numbered :
    (npages : ℕ) (m : ℕ → ℕ) (s s' : Mp)
    → s.ncpu ≡ 0
    → s.cpu_id 0 ≡ 0
    → mp_init npages m s ≡ some s'
    → Numbered s'
mp_init-Numbered npages m s s' none_yet first run =
    subst AllNumbered run (mp_init-AllNumbered npages m s none_yet first)
