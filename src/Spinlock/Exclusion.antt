-- ===== src/Spinlock/Exclusion.antt =====
-- kern/spinlock.c: the invariant of the lock under several CPUs.
use challenge.Base.{
  ℕ, ◌≡◌, ◌≢◌, refl, sym, subst, ◌∙◌, ap, Bool, true, false, Option, none, some, ◌⊎◌, inl, inr,
  ◌==◌, if◌then◌else◌, update, ==_ne, ==_refl,
}
use mathlib.Core.Bool.{false≢true}
use native.Mathlib.Decide.{ℕ_discrete}
use challenge.Spinlock.{Spinlock, holding, is_cpu}
use challenge.Spinlock.Turns.{Phase, advance, System, turn, Step, initial, Reach, critical}

-- A CPU that has not panicked and does not have the lock
abbrev calm : Phase → Bool
calm Phase.outside = true
calm Phase.trying = true
calm _ = false

-- What `lk->cpu` is while the CPU `o` has the lock
abbrev recorded : ℕ → Phase → Option ℕ
recorded o Phase.inside = some o
recorded o _ = none

record Free (s : System) : Type 0 where
  unlocked : s.lock.locked ≡ 0
  no_cpu : s.lock.cpu ≡ none
  all_calm : (d : ℕ) → calm (s.phase d) ≡ true

record Held (s : System) (o : ℕ) : Type 0 where
  locked : s.lock.locked ≡ 1
  in_critical : critical (s.phase o) ≡ true
  owner : s.lock.cpu ≡ recorded o (s.phase o)
  others_calm : (d : ℕ) → d ≢ o → calm (s.phase d) ≡ true

Inv : System → Type 0
Inv s = Free s ⊎ ((o : ℕ) × Held s o)

-- The tests of `holding`, in a state with the lock free, held by the CPU itself, or held by another one.
free-holding : (me : ℕ) (lk : Spinlock) → lk.locked ≡ 0 → holding me lk ≡ false
unfolding holding
free-holding me lk e = rw e refl

own-holding : (me : ℕ) (lk : Spinlock) → lk.locked ≡ 1 → lk.cpu ≡ some me → holding me lk ≡ true
unfolding holding
own-holding me lk e c = rw (e, c, ==_refl me) refl

recorded-other : (me o : ℕ) (p : Phase) → me ≢ o → is_cpu me (recorded o p) ≡ false
recorded-other me o Phase.inside ne = ==_ne o me (λ e. ne (sym e))
recorded-other me o Phase.outside ne = refl
recorded-other me o Phase.trying ne = refl
recorded-other me o Phase.taken ne = refl
recorded-other me o Phase.releasing ne = refl
recorded-other me o Phase.panicked ne = refl

other-holding :
    (me o : ℕ) (lk : Spinlock) (p : Phase)
    → lk.locked ≡ 1
    → lk.cpu ≡ recorded o p
    → me ≢ o
    → holding me lk ≡ false
unfolding holding
other-holding me o lk p e c ne = rw (e, c, recorded-other me o p ne) refl

module _ (me : ℕ) (s : System) where
  abbrev put : Spinlock → Phase → System
  put lk q = record { lock = lk; phase = update s.phase me q }

  -- The state after a turn of `me`, by the phase that it was in
  after : Phase → System
  after p = put (advance me s.lock p).0 (advance me s.lock p).1

  put-calm :
      (q : Phase) (d : ℕ)
      → calm q ≡ true
      → (d ≢ me → calm (s.phase d) ≡ true)
      → calm (update s.phase me q d) ≡ true
  put-calm q d c others = elim (ℕ_discrete d me) [
    | yes e ↦ rw (e, ==_refl me) c
    | no ne ↦ rw (==_ne d me ne) (others ne)
  ]

  -- `me` has the lock after its turn.
  put-Held :
      (lk : Spinlock) (q : Phase)
      → lk.locked ≡ 1
      → critical q ≡ true
      → lk.cpu ≡ recorded me q
      → ((d : ℕ) → d ≢ me → calm (s.phase d) ≡ true)
      → Held (put lk q) me
  put-Held lk q locked busy owner others = record {
    locked = locked;
    in_critical = rw (==_refl me) busy;
    owner = rw (==_refl me) owner;
    others_calm = λ d ne. rw (==_ne d me ne) (others d ne);
  }

  -- Another CPU keeps the lock.
  keep-Held :
      (lk : Spinlock) (q : Phase) (o : ℕ)
      → lk.locked ≡ 1
      → lk.cpu ≡ s.lock.cpu
      → calm q ≡ true
      → me ≢ o
      → Held s o
      → Held (put lk q) o
  keep-Held lk q o locked same c ne h = record {
    locked = locked;
    in_critical = rw (==_ne o me (λ e. ne (sym e))) h.in_critical;
    owner = rw (==_ne o me (λ e. ne (sym e))) (same ∙ h.owner);
    others_calm = λ d other. put-calm q d c (λ _. h.others_calm d other);
  }

  -- The phase before the turn decides whether `me` had the lock.
  not_calm :
      {A : Type 0} (p : Phase) → s.phase me ≡ p → calm p ≡ false → calm (s.phase me) ≡ true → A
  not_calm p e c h = absurd (false≢true (sym c ∙ sym (ap calm e) ∙ h))

  not_critical :
      {A : Type 0} (p : Phase)
      → s.phase me ≡ p
      → critical p ≡ false
      → critical (s.phase me) ≡ true
      → A
  not_critical p e c h = absurd (false≢true (sym c ∙ sym (ap critical e) ∙ h))

  Free-Inv : (p : Phase) → s.phase me ≡ p → Free s → Inv (after p)
  unfolding Inv after advance
  Free-Inv Phase.outside e f = inl (record {
    unlocked = f.unlocked;
    no_cpu = f.no_cpu;
    all_calm = λ d. put-calm _ d (rw (free-holding me s.lock f.unlocked) refl) (λ _. f.all_calm d);
  })
  Free-Inv Phase.trying e f = inr (
    me,
    put-Held (record s.lock { locked = 1 })
        (if s.lock.locked == 0 then Phase.taken else Phase.trying) refl (rw f.unlocked refl)
        (f.no_cpu ∙ rw f.unlocked refl) (λ d _. f.all_calm d),
  )
  Free-Inv Phase.taken e f = not_calm Phase.taken e refl (f.all_calm me)
  Free-Inv Phase.inside e f = not_calm Phase.inside e refl (f.all_calm me)
  Free-Inv Phase.releasing e f = not_calm Phase.releasing e refl (f.all_calm me)
  Free-Inv Phase.panicked e f = not_calm Phase.panicked e refl (f.all_calm me)

  owner-Inv : (p : Phase) → s.phase me ≡ p → Held s me → Inv (after p)
  unfolding Inv after advance
  owner-Inv Phase.outside e h = not_critical Phase.outside e refl h.in_critical
  owner-Inv Phase.trying e h = not_critical Phase.trying e refl h.in_critical
  owner-Inv Phase.panicked e h = not_critical Phase.panicked e refl h.in_critical
  owner-Inv Phase.taken e h =
      inr (
        me,
        put-Held (record s.lock { cpu = some me }) Phase.inside h.locked refl refl h.others_calm,
      )
  owner-Inv Phase.inside e h =
      let test = own-holding me s.lock h.locked (h.owner ∙ ap (recorded me) e) in
      inr (
        me,
        rw test (
            put-Held (record s.lock { cpu = none }) Phase.releasing h.locked refl refl
              h.others_calm),
      )
  owner-Inv Phase.releasing e h = inl (record {
    unlocked = refl;
    no_cpu = h.owner ∙ ap (recorded me) e;
    all_calm = λ d. put-calm Phase.outside d refl (h.others_calm d);
  })

  other-Inv : (p : Phase) (o : ℕ) → s.phase me ≡ p → me ≢ o → Held s o → Inv (after p)
  unfolding Inv after advance
  other-Inv Phase.outside o e ne h =
      let test = other-holding me o s.lock (s.phase o) h.locked h.owner ne in
      inr (o, keep-Held s.lock _ o h.locked refl (rw test refl) ne h)
  other-Inv Phase.trying o e ne h =
      inr (o, keep-Held (record s.lock { locked = 1 }) _ o refl refl (rw h.locked refl) ne h)
  other-Inv Phase.taken o e ne h = not_calm Phase.taken e refl (h.others_calm me ne)
  other-Inv Phase.inside o e ne h = not_calm Phase.inside e refl (h.others_calm me ne)
  other-Inv Phase.releasing o e ne h = not_calm Phase.releasing e refl (h.others_calm me ne)
  other-Inv Phase.panicked o e ne h = not_calm Phase.panicked e refl (h.others_calm me ne)

initial-Inv : Inv initial
unfolding Inv
initial-Inv = inl (record { unlocked = refl; no_cpu = refl; all_calm = λ d. refl })

turn-Inv : (me : ℕ) (s : System) → Inv s → Inv (turn me s)
unfolding Inv turn after
turn-Inv me s (inl f) = Free-Inv me s (s.phase me) refl f
turn-Inv me s (inr (o, h)) = elim (ℕ_discrete me o) [
  | yes e ↦ owner-Inv me s (s.phase me) refl (subst (Held s) (sym e) h)
  | no ne ↦ other-Inv me s (s.phase me) o refl ne h
]

Reach-Inv : {s : System} → Reach s → Inv s
Reach-Inv Reach.start = initial-Inv
Reach-Inv (Reach.later {s} r (Step.next me)) = turn-Inv me s (Reach-Inv r)

calm-critical : (p : Phase) → calm p ≡ true → critical p ≡ false
calm-critical Phase.outside c = refl
calm-critical Phase.trying c = refl
calm-critical Phase.taken c = absurd (false≢true c)
calm-critical Phase.inside c = absurd (false≢true c)
calm-critical Phase.releasing c = absurd (false≢true c)
calm-critical Phase.panicked c = absurd (false≢true c)

-- Who is in the critical section has the lock.
owner_only : (s : System) (o c : ℕ) → Held s o → critical (s.phase c) ≡ true → c ≡ o
owner_only s o c h busy = elim (ℕ_discrete c o) [
  | yes e ↦ e
  | no ne ↦ absurd (false≢true (sym (calm-critical (s.phase c) (h.others_calm c ne)) ∙ busy))
]

Inv-exclusion :
    (s : System) (c d : ℕ)
    → Inv s
    → critical (s.phase c) ≡ true
    → critical (s.phase d) ≡ true
    → c ≡ d
unfolding Inv
Inv-exclusion s c d (inl f) in_c in_d =
    absurd (false≢true (sym (calm-critical (s.phase c) (f.all_calm c)) ∙ in_c))
Inv-exclusion s c d (inr (o, h)) in_c in_d = owner_only s o c h in_c ∙ sym (owner_only s o d h in_d)

Inv-panicked : (s : System) (c : ℕ) → Inv s → s.phase c ≢ Phase.panicked
unfolding Inv
Inv-panicked s c (inl f) e = false≢true (sym (ap calm e) ∙ f.all_calm c)
Inv-panicked s c (inr (o, h)) e = elim (ℕ_discrete c o) [
  | yes same ↦
      false≢true (sym (ap critical e) ∙ ap (λ (x : ℕ). critical (s.phase x)) same ∙ h.in_critical)
  | no ne ↦ false≢true (sym (ap calm e) ∙ h.others_calm c ne)
]

-- Two CPUs are never between taking the lock and releasing it at the same time, however their
-- accesses of the lock interleave.
pub mutual_exclusion :
    (s : System) (c d : ℕ)
    → Reach s
    → critical (s.phase c) ≡ true
    → critical (s.phase d) ≡ true
    → c ≡ d
mutual_exclusion s c d r in_c in_d = Inv-exclusion s c d (Reach-Inv r) in_c in_d

-- No CPU panics in `spin_lock` or `spin_unlock`, however their accesses of the lock interleave: `holding`
-- is never true of a CPU that takes the lock, and never false of one that releases it.
pub never_panics : (s : System) (c : ℕ) → Reach s → s.phase c ≢ Phase.panicked
never_panics s c r = Inv-panicked s c (Reach-Inv r)
