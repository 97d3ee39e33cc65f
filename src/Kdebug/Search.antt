-- ===== src/Kdebug/Search.antt =====
-- kern/kdebug.c: the region that the search finds.
use challenge.Base.{
  ℕ, zero, suc, ◌+◌, ◌-◌, ◌*◌, ◌≤◌, ◌<◌, ◌≡◌, refl, sym, subst, ◌∙◌, ap, inl, ◌⊎◌, true, false,
  some, arith, lt→ltb, le→not_ltb, ==_refl,
}
use native.Mathlib.Decide.{dec_lt}
use challenge.Kdebug.{
  Stab, Binsearch, down_to, narrow, search_loop, store_region, after_loop, stab_binsearch,
}
use challenge.Kdebug.Backward.{Matches, value, down_to-Last}
use challenge.Kdebug.Round.{Table, Narrowed, Candidate, measure, narrow-Narrowed}

module _ (stabs : ℕ → Stab) (type : ℕ) where
  module _ (addr low high : ℕ) where
    module _ (k : ℕ) (t : Table stabs type addr low high k) where
      search_loop-Narrowed :
          (f : ℕ) (s : Binsearch)
          → Narrowed stabs type addr low high s
          → measure addr s < f
          → (u : Binsearch) × (search_loop stabs type f s ≡ some u)
            × Narrowed stabs type addr low high u
            × (u.r < u.l)
      unfolding search_loop
      search_loop-Narrowed zero s n lt = absurd (omega arith)
      search_loop-Narrowed (suc f) s n lt = elim (dec_lt s.r s.l) [
        | yes done ↦ (s, rw (lt→ltb s.r s.l done) refl, n, done)
        | no more ↦
            let (n', less) = narrow-Narrowed stabs type addr low high k t s n (omega arith) in
            let (u, run, last, out) =
              search_loop-Narrowed f (narrow stabs type s) n' (omega arith) in
            (u, rw (le→not_ltb s.r s.l (omega arith)) run, last, out)
      ]

    -- The region that starts at `left`: a stab of the type at or before the address, with no other stab of the
    -- type in the region, and the next one, if there is one, right behind it and behind the address.
    pub record Region (left right : ℕ) : Type 0 where
      pub in_order : (low ≤ left) × (left ≤ right) × (right ≤ high)
      pub is_stab : Matches stabs type left
      pub starts : value stabs left ≤ addr
      pub alone : (i : ℕ) → left < i → i ≤ right → ¬ (Matches stabs type i)
      pub next_stab :
          (right ≡ high) ⊎ (Matches stabs type (right + 1) × (addr < value stabs (right + 1)))

    module _ (k : ℕ) (t : Table stabs type addr low high k) (u : Binsearch)
        (n : Narrowed stabs type addr low high u) (done : u.r < u.l) where
      known : (k ≤ u.left) × (u.any_matches ≡ true) × Candidate stabs type addr low high u.left
      known = elim (dec_lt u.r k) [
        | yes gt ↦ absurd (omega (arith, n.behind k gt t.to t.match, t.before))
        | no le ↦ n.passed k t.from (omega arith) t.match
      ]

      left-le : u.left ≤ u.r
      left-le = elim (dec_lt u.r u.left) [
        | yes gt ↦ absurd (omega (arith, n.behind u.left gt known.2.3 known.2.0, known.2.1))
        | no le ↦ omega arith
      ]

      none_between : (i : ℕ) → u.left < i → i ≤ u.r → ¬ (Matches stabs type i)
      none_between i p q h =
          omega (arith, n.passed i (omega (arith, known.2.2)) (omega (arith, done)) h)

      stays : down_to stabs type (u.left + 1) u.right ≡ u.left
      stays =
          let last =
            down_to-Last stabs type (u.left + 1) u.right (omega arith)
              (omega (arith, left-le, n.same_right)) in
          let found = down_to stabs type (u.left + 1) u.right in
          elim (dec_lt u.left found) [
            | yes gt ↦ absurd (
                none_between found gt (omega (arith, last.within, n.same_right))
                  (last.found (omega arith)))
            | no le ↦ omega (arith, last.below)
          ]

      store_region-Region :
          (left : ℕ) × (store_region stabs type u ≡ (left, u.right)) × Region left u.right
      unfolding store_region
      store_region-Region = (
        u.left,
        rw (known.1, stays) refl,
        record {
          in_order = (
            known.2.2,
            omega (arith, left-le, n.same_right),
            omega (arith, n.high_end, n.same_right),
          );
          is_stab = known.2.0;
          starts = known.2.1;
          alone = λ i p q. none_between i p (omega (arith, n.same_right));
          next_stab =
              subst
                (λ (r : ℕ).
                  (r ≡ high) ⊎ (Matches stabs type (r + 1) × (addr < value stabs (r + 1))))
                (sym n.same_right) n.edge;
        },
      )

    -- The search in a table in order that has a stab of the type at or before the address, and none at the address
    -- plus one, returns the region that contains the address, with two rounds for each entry and two more.
    pub stab_binsearch-Region :
        (k f : ℕ)
        → Table stabs type addr low high k
        → 2 * (high + 1 - low) + 2 ≤ f
        → (left right : ℕ) × (stab_binsearch stabs type f low high addr ≡ some (left, right))
          × Region left right
    unfolding stab_binsearch after_loop
    stab_binsearch-Region k f t enough =
        let s0 : Binsearch = record {
          l = low;
          r = high;
          any_matches = false;
          addr = addr;
          left = low;
          right = high;
        } in
        let n0 : Narrowed stabs type addr low high s0 = record {
          low_end = omega arith;
          high_end = omega arith;
          same_right = refl;
          at_addr = inl refl;
          passed = λ i p q h. absurd (omega arith);
          behind = λ i p q h. absurd (omega arith);
          edge = inl refl;
        } in
        let (u, run, n, done) =
          search_loop-Narrowed k t f s0 n0 (rw (==_refl addr) (omega arith)) in
        let (left, e, region) = store_region-Region k t u n done in
        (left, u.right, ap (after_loop stabs type) run ∙ ap some e, region)
