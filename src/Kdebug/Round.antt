-- ===== src/Kdebug/Round.antt =====
-- kern/kdebug.c: a round of the binary search.
use challenge.Base.{
  ℕ, ◌+◌, ◌-◌, ◌*◌, ◌/◌, ◌^◌, ◌≤◌, ◌<◌, ◌≡◌, ◌≢◌, refl, subst, ◌∙◌, inl, inr, ◌⊎◌, true, false,
  ◌==◌, if◌then◌else◌, arith, ==_iff, lt→ltb, le→not_ltb, ==_ne,
}
use native.Mathlib.Decide.{dec_lt}
use challenge.Mmu.{word}
use challenge.Kdebug.{Stab, Binsearch, down_to, narrow}
use challenge.Kdebug.Backward.{Matches, value, Last, down_to-Last}

abbrev not_met : ℕ → ℕ → ℕ
not_met addr a = if a == addr then 1 else 0

-- Two rounds for each entry that is left, and one more while the address has not been met.
abbrev pub measure : ℕ → Binsearch → ℕ
measure addr s = 2 * (s.r + 1 - s.l) + not_met addr s.addr

module _ (stabs : ℕ → Stab) (type : ℕ) where
  module _ (addr low high : ℕ) where
    -- The stabs of the type between `low` and `high` stand in the order of their addresses, one of them is
    -- at or before `addr`, and none is at `addr + 1`.
    pub record Table (k : ℕ) : Type 0 where
      pub start : 0 < low
      pub small : addr + 1 < 2 ^ 32
      pub sorted :
          (i j : ℕ)
          → low ≤ i
          → i ≤ j
          → j ≤ high
          → Matches stabs type i
          → Matches stabs type j
          → value stabs i ≤ value stabs j
      pub no_next : (i : ℕ) → low ≤ i → i ≤ high → Matches stabs type i → value stabs i ≢ addr + 1
      pub from : low ≤ k
      pub to : k ≤ high
      pub match : Matches stabs type k
      pub before : value stabs k ≤ addr

    -- A stab of the type at or before the address
    abbrev pub Candidate : ℕ → Type 0
    Candidate x = Matches stabs type x × (value stabs x ≤ addr) × (low ≤ x) × (x ≤ high)

    -- What the entries outside `l` and `r` are known to be.
    pub record Narrowed (s : Binsearch) : Type 0 where
      pub low_end : low ≤ s.l
      pub high_end : s.r ≤ high
      pub same_right : s.right ≡ s.r
      pub at_addr : (s.addr ≡ addr) ⊎ (s.addr ≡ addr + 1)
      pub passed :
          (i : ℕ)
          → low ≤ i
          → i < s.l
          → Matches stabs type i
          → (i ≤ s.left) × (s.any_matches ≡ true) × Candidate s.left
      pub behind : (i : ℕ) → s.r < i → i ≤ high → Matches stabs type i → addr < value stabs i
      pub edge : (s.r ≡ high) ⊎ (Matches stabs type (s.r + 1) × (addr < value stabs (s.r + 1)))

    module _ (k : ℕ) (t : Table k) (s : Binsearch) (n : Narrowed s) (more : s.l ≤ s.r) where
      abbrev middle : ℕ
      middle = (s.l + s.r) / 2

      abbrev m : ℕ
      m = down_to stabs type s.l middle

      last : Last stabs type s.l middle m
      last = down_to-Last stabs type s.l middle (omega (arith, t.start, n.low_end)) (omega arith)

      -- no match in the lower half
      skip : m < s.l → Narrowed (record s { l = middle + 1 })
      skip out = record {
        low_end = omega (arith, n.low_end);
        high_end = n.high_end;
        same_right = n.same_right;
        at_addr = n.at_addr;
        passed = λ i p q h. elim (dec_lt i s.l) [
          | yes lt ↦ n.passed i p lt h
          | no ge ↦ absurd (last.none_above i (omega arith) (omega arith) (omega arith) h)
        ];
        behind = n.behind;
        edge = n.edge;
      }

      -- the last match of the lower half is before the address
      left_half :
          s.l ≤ m
          → value stabs m < s.addr
          → Narrowed (record s { any_matches = true; left = m; l = middle + 1 })
      left_half into lt = record {
        low_end = omega (arith, n.low_end);
        high_end = n.high_end;
        same_right = n.same_right;
        at_addr = n.at_addr;
        passed = λ i p q h. (
          at_most i p q h,
          refl,
          (
            last.found into,
            le_addr,
            omega (arith, n.low_end),
            omega (arith, last.within, n.high_end),
          ),
        );
        behind = n.behind;
        edge = n.edge;
      }
        where
          at_most : (i : ℕ) → low ≤ i → i < middle + 1 → Matches stabs type i → i ≤ m
          at_most i p q h = elim (dec_lt m i) [
            | yes above ↦ absurd (last.none_above i above (omega arith) (omega arith) h)
            | no le ↦ omega arith
          ]

          le_addr : value stabs m ≤ addr
          le_addr = elim n.at_addr [ inl e ↦ omega arith | inr e ↦ omega arith ]

      -- it is behind the address
      right_half :
          s.l ≤ m
          → s.addr < value stabs m
          → Narrowed (record s { any_matches = true; right = m - 1; r = m - 1 })
      right_half into lt = record {
        low_end = n.low_end;
        high_end = omega (arith, last.within, n.high_end);
        same_right = refl;
        at_addr = n.at_addr;
        passed = λ i p q h. (let (a, b, c) = n.passed i p q h in (a, refl, c));
        behind = λ i p q h. omega (
          arith,
          gt_addr,
          t.sorted m i (omega (arith, n.low_end)) (omega arith) q (last.found into) h,
        );
        edge = inr (
            subst (λ j. Matches stabs type j × (addr < value stabs j)) one
              (last.found into, gt_addr));
      }
        where
          gt_addr : addr < value stabs m
          gt_addr = elim n.at_addr [ inl e ↦ omega arith | inr e ↦ omega arith ]

          one : m ≡ m - 1 + 1
          one = omega (arith, t.start, n.low_end)

      -- it is at the address
      exact :
          s.l ≤ m
          → value stabs m ≡ s.addr
          → (s.addr ≡ addr)
            × Narrowed (record s { any_matches = true; left = m; l = m; addr = word (s.addr + 1) })
      exact into eq = (
        here,
        record {
          low_end = omega (arith, n.low_end);
          high_end = n.high_end;
          same_right = n.same_right;
          at_addr = inr (omega (arith, here, t.small));
          passed = λ i p q h. (
            omega arith,
            refl,
            (
              last.found into,
              omega (arith, here),
              omega (arith, n.low_end),
              omega (arith, last.within, n.high_end),
            ),
          );
          behind = n.behind;
          edge = n.edge;
        },
      )
        where
          here : s.addr ≡ addr
          here = elim n.at_addr [
            | inl e ↦ e
            | inr e ↦ absurd (
                t.no_next m (omega (arith, n.low_end)) (omega (arith, last.within, n.high_end))
                  (last.found into) (eq ∙ e))
          ]

      -- The second visit of the entry at the address is the last round with that flag.
      less :
          s.l ≤ m
          → s.addr ≡ addr
          → measure addr
              (record s { any_matches = true; left = m; l = m; addr = word (s.addr + 1) })
            < measure addr s
      less into here =
          let gone : (word (s.addr + 1) == addr) ≡ false =
            ==_ne (word (s.addr + 1)) addr (λ e. omega (arith, here, t.small)) in
          let flagged : (s.addr == addr) ≡ true = (==_iff s.addr addr).1 here in
          rw (gone, flagged) (omega (arith, into))

      -- One round keeps what is known, and there is less to search.
      pub narrow-Narrowed :
          Narrowed (narrow stabs type s) × (measure addr (narrow stabs type s) < measure addr s)
      unfolding narrow
      narrow-Narrowed = elim (dec_lt m s.l) [
        | yes out ↦ rw (lt→ltb m s.l out) (skip out, omega arith)
        | no into ↦ elim (dec_lt (value stabs m) s.addr) [
          | yes lt ↦
              rw (le→not_ltb m s.l (omega arith), lt→ltb (value stabs m) s.addr lt)
                (left_half (omega arith) lt, omega arith)
          | no ge ↦ elim (dec_lt s.addr (value stabs m)) [
            | yes gt ↦
                rw
                  (
                    le→not_ltb m s.l (omega arith),
                    le→not_ltb (value stabs m) s.addr (omega arith),
                    lt→ltb s.addr (value stabs m) gt,
                  )
                  (right_half (omega arith) gt, omega (arith, last.within))
            | no le ↦
                rw
                  (
                    le→not_ltb m s.l (omega arith),
                    le→not_ltb (value stabs m) s.addr (omega arith),
                    le→not_ltb s.addr (value stabs m) (omega arith),
                  )
                  (let (here, e) = exact (omega arith) (omega arith) in
                    (e, less (omega arith) here))
          ]
        ]
      ]
