-- ===== src/Pmap/Access/Check.antt =====
-- What `user_mem_check` of kern/pmap.c decides.
use challenge.Base.{
  ℕ, zero, suc, ◌+◌, ◌-◌, ◌*◌, ◌/◌, ◌^◌, ◌≤◌, ◌<◌, ◌≡◌, refl, sym, ◌∙◌, ap, bit_and, Bool, true,
  false, not, ◌||◌, Option, none, some, arith, ◌==◌, ltb, leb, if◌then◌else◌, Bool-cases, ◌⊎◌, inl,
  inr, if_false, lt→ltb, le→not_ltb, lt→not_leb, ==_iff, subst, subst₂,
}
use mathlib.Core.Bool.{false≢true}
use native.Mathlib.Decide.{dec_lt}
use challenge.Base.Run.{Run, ok}
use challenge.Mmu.{word, pgsize, pgnum, pdx, ptx, rounddown, roundup, ulim}
use challenge.Pmap.Pages.{Pmap, PtePtr}
use challenge.Pmap.Tables.{is_present, pgdir_walk, Errno}
use challenge.Pmap.Mapping.Walk.{pgdir_walk-found, pgdir_walk-absent}
use challenge.Pmap.Access.{refused, mem_check_loop, user_mem_check}

-- The page of memory that the directory entry for `a` names.
abbrev pub table_of : Pmap → ℕ → ℕ → ℕ
table_of pm pgdir a = pgnum (pm.mem pgdir (pdx a))

-- User code may access the page at `a` with all of `perm`.
pub record Granted (pm : Pmap) (pgdir perm a : ℕ) : Type 0 where
  pub low : a < ulim
  pub directory : is_present (pm.mem pgdir (pdx a)) ≡ true
  pub present : is_present (pm.mem (table_of pm pgdir a) (ptx a)) ≡ true
  pub permits : bit_and (pm.mem (table_of pm pgdir a) (ptx a)) perm ≡ perm

-- Every page table of the directory is a page of memory, so KADDR does not panic.
abbrev pub TablesInMemory : Pmap → ℕ → Type 0
TablesInMemory pm pgdir =
    (a : ℕ) → is_present (pm.mem pgdir (pdx a)) ≡ true → table_of pm pgdir a < pm.npages

slot_of : Pmap → ℕ → ℕ → Option PtePtr
slot_of pm pgdir a =
    if is_present (pm.mem pgdir (pdx a))
    then some (record { table = table_of pm pgdir a; index = ptx a })
    else none

walk_slot :
    (pm : Pmap) (pgdir a : ℕ)
    → TablesInMemory pm pgdir
    → pgdir_walk pgdir a false pm ≡ ok (slot_of pm pgdir a) pm
unfolding slot_of
walk_slot pm pgdir a wf = elim (Bool-cases (is_present (pm.mem pgdir (pdx a)))) [
  | inl e ↦
      pgdir_walk-found pm pgdir a (table_of pm pgdir a) false e refl (wf a e)
      ∙ ap (λ o. ok o pm) (rw e refl)
  | inr e ↦ pgdir_walk-absent pgdir a e ∙ ap (λ o. ok o pm) (rw e refl)
]

refused_cases :
    (b1 b2 b3 : Bool)
    → (b1 || (not b2 || not b3)) ≡ false
    → (b1 ≡ false) × (b2 ≡ true) × (b3 ≡ true)
refused_cases false true true h = (refl, refl, refl)
refused_cases false true false h = absurd (cc)
refused_cases false false b3 h = absurd (cc)
refused_cases true b2 b3 h = absurd (cc)

module _ (pm : Pmap) (pgdir perm a : ℕ) where
  refused-Granted : Granted pm pgdir perm a → refused a perm (slot_of pm pgdir a) pm ≡ false
  unfolding refused slot_of
  refused-Granted g =
      rw (g.directory, refused, g.present, (==_iff _ perm).1 g.permits, lt→not_leb ulim a g.low)
        refl

  Granted-refused : refused a perm (slot_of pm pgdir a) pm ≡ false → Granted pm pgdir perm a
  unfolding refused slot_of
  Granted-refused h = elim (Bool-cases (is_present (pm.mem pgdir (pdx a)))) [
    | inl e ↦
        let (b1, b2, b3) =
          refused_cases (leb ulim a) (is_present (pm.mem (table_of pm pgdir a) (ptx a)))
            (bit_and (pm.mem (table_of pm pgdir a) (ptx a)) perm == perm) (rw (e, refused) at h) in
        record { low = ground arith; directory = e; present = b2; permits = (==_iff _ perm).0 b3 }
    | inr e ↦ absurd (cc (rw (e, refused) at h))
  ]

-- The outcome of a check of the pages at `ptr`, `ptr + PGSIZE` and so on below `end`: all may be
-- accessed and nothing changes, or the first that may not be is reported.
abbrev pub page_at : ℕ → ℕ → ℕ
page_at ptr j = ptr + j * pgsize

abbrev pub AllGranted : Pmap → ℕ → ℕ → ℕ → ℕ → Type 0
AllGranted pm pgdir perm ptr end =
    (j : ℕ) → page_at ptr j < end → Granted pm pgdir perm (page_at ptr j)

abbrev pub fault_at : Pmap → ℕ → ℕ → Pmap
fault_at pm va b = record pm { user_mem_check_addr = if ltb b va then va else b }

pub record FirstRefused (pm : Pmap) (pgdir perm ptr end j : ℕ) : Type 0 where
  pub inside : page_at ptr j < end
  pub bad : ¬ Granted pm pgdir perm (page_at ptr j)
  pub before : (i : ℕ) → i < j → Granted pm pgdir perm (page_at ptr i)

abbrev pub Checked : Run Pmap (Option Errno) → Pmap → ℕ → ℕ → ℕ → ℕ → ℕ → Type 0
Checked r pm pgdir va perm ptr end =
    (AllGranted pm pgdir perm ptr end × (r ≡ ok none pm))
    ⊎ ((j : ℕ) × FirstRefused pm pgdir perm ptr end j
        × (r ≡ ok (some Errno.fault) (fault_at pm va (page_at ptr j))))

loop_stop :
    (k : ℕ) (pm : Pmap) (pgdir va ptr end perm : ℕ)
    → end ≤ ptr
    → mem_check_loop k pgdir va ptr end perm pm ≡ ok none pm
unfolding mem_check_loop
loop_stop zero pm pgdir va ptr end perm h = refl
loop_stop (suc k) pm pgdir va ptr end perm h = if_false _ _ (le→not_ltb ptr end h)

module _ (pm : Pmap) (pgdir va perm end : ℕ) (wf : TablesInMemory pm pgdir) where
  loop : ℕ → ℕ → Run Pmap (Option Errno)
  loop k ptr = mem_check_loop k pgdir va ptr end perm pm

  loop_run : (k ptr : ℕ) → loop k ptr ≡ mem_check_loop k pgdir va ptr end perm pm
  unfolding loop
  loop_run k ptr = refl

  stop : (k ptr : ℕ) → end ≤ ptr → loop k ptr ≡ ok none pm
  stop k ptr h = loop_run k ptr ∙ loop_stop k pm pgdir va ptr end perm h

  turn_refused :
      (k ptr : ℕ)
      → ptr < end
      → refused ptr perm (slot_of pm pgdir ptr) pm ≡ true
      → loop (suc k) ptr ≡ ok (some Errno.fault) (fault_at pm va ptr)
  unfolding loop mem_check_loop
  turn_refused k ptr h e = rw (lt→ltb ptr end h, walk_slot pm pgdir ptr wf, e) refl

  turn_granted :
      (k ptr : ℕ)
      → ptr < end
      → refused ptr perm (slot_of pm pgdir ptr) pm ≡ false
      → loop (suc k) ptr ≡ loop k (ptr + pgsize)
  unfolding loop mem_check_loop
  turn_granted k ptr h e = rw (lt→ltb ptr end h, walk_slot pm pgdir ptr wf, e) refl

  at_start : (ptr : ℕ) → ptr ≡ page_at ptr 0
  at_start ptr = omega arith

  at_next : (ptr j : ℕ) → page_at (ptr + pgsize) j ≡ page_at ptr (suc j)
  at_next ptr j = omega arith

  here_or_later :
      (ptr : ℕ) (Q : ℕ → Type 0)
      → Q ptr
      → ((j : ℕ) → Q (page_at (ptr + pgsize) j))
      → (j : ℕ) → Q (page_at ptr j)
  here_or_later ptr Q q r zero = subst Q (at_start ptr) q
  here_or_later ptr Q q r (suc j) = subst Q (at_next ptr j) (r j)

  later_refused :
      (ptr : ℕ)
      → Granted pm pgdir perm ptr
      → (j : ℕ) → FirstRefused pm pgdir perm (ptr + pgsize) end j
      → FirstRefused pm pgdir perm ptr end (suc j)
  later_refused ptr g j f = record {
    inside = subst (λ a. a < end) (at_next ptr j) f.inside;
    bad = subst (λ a. ¬ Granted pm pgdir perm a) (at_next ptr j) f.bad;
    before = λ i. elim i as (λ i. i < suc j → Granted pm pgdir perm (page_at ptr i)) [
      | zero ↦ λ _. subst (Granted pm pgdir perm) (at_start ptr) g
      | suc i ↦ λ h. subst (Granted pm pgdir perm) (at_next ptr i) (f.before i (omega arith))
    ];
  }

  loop-Checked :
      (k ptr : ℕ) → end ≤ ptr + k * pgsize → Checked (loop k ptr) pm pgdir va perm ptr end
  loop-Checked zero ptr fuel = inl ((λ j h. absurd (omega arith)), stop zero ptr (omega arith))
  loop-Checked (suc k) ptr fuel = elim (dec_lt ptr end) [
    | no n ↦ inl ((λ j h. absurd (omega arith)), stop (suc k) ptr (omega arith))
    | yes lt ↦ elim (Bool-cases (refused ptr perm (slot_of pm pgdir ptr) pm)) [
      | inl bad ↦ inr (
        0,
        record {
          inside = omega arith;
          bad =
              subst (λ a. ¬ Granted pm pgdir perm a) (at_start ptr)
                (λ g. false≢true (sym (refused-Granted pm pgdir perm ptr g) ∙ bad));
          before = λ i h. absurd (omega arith);
        },
        turn_refused k ptr lt bad
            ∙ ap (λ a. ok (some Errno.fault) (fault_at pm va a)) (at_start ptr),
      )
      | inr good ↦
          let g = Granted-refused pm pgdir perm ptr good in
          elim (loop-Checked k (ptr + pgsize) (omega arith)) [
            | inl (all, r) ↦ inl (
              here_or_later ptr (λ a. a < end → Granted pm pgdir perm a) (λ _. g) all,
              turn_granted k ptr lt good ∙ r,
            )
            | inr (j, first, r) ↦ inr (
              suc j,
              later_refused ptr g j first,
              turn_granted k ptr lt good
                  ∙ r
                  ∙ ap (λ a. ok (some Errno.fault) (fault_at pm va a)) (at_next ptr j),
            )
          ]
    ]
  ]

first_page : (va : ℕ) → rounddown va pgsize ≡ va / pgsize * pgsize
unfolding rounddown
first_page va = omega arith

last_page :
    (end : ℕ) → end + 4095 < 2 ^ 32 → roundup (word end) pgsize ≡ (end + 4095) / pgsize * pgsize
unfolding roundup
last_page end h = omega arith

check_run :
    (pm : Pmap) (pgdir va len perm : ℕ)
    → user_mem_check pgdir va len perm pm
      ≡ mem_check_loop
          (2 ^ 20)
          pgdir
          va
          (rounddown va pgsize)
          (roundup (word (va + len)) pgsize)
          perm
          pm
unfolding user_mem_check
check_run pm pgdir va len perm = refl

-- For a directory whose page tables are in memory and a range whose end, rounded up, is an
-- address, `user_mem_check` returns 0 and changes nothing if every page of the range may be
-- accessed; otherwise it returns -E_FAULT and has recorded the first page that may not be, or `va`
-- where that page begins below it.
pub user_mem_check_lem :
    (pm : Pmap) (pgdir va len perm : ℕ)
    → TablesInMemory pm pgdir
    → va + len + 4095 < 2 ^ 32
    → Checked
        (user_mem_check pgdir va len perm pm)
        pm
        pgdir
        va
        perm
        (va / pgsize * pgsize)
        ((va + len + 4095) / pgsize * pgsize)
user_mem_check_lem pm pgdir va len perm wf h =
    subst
      (λ r. Checked r pm pgdir va perm (va / pgsize * pgsize) ((va + len + 4095) / pgsize * pgsize))
      (sym (
        check_run pm pgdir va len perm
        ∙ ap (λ a. mem_check_loop (2 ^ 20) pgdir va a (roundup (word (va + len)) pgsize) perm pm)
            (first_page va)
        ∙ ap (λ b. mem_check_loop (2 ^ 20) pgdir va (va / pgsize * pgsize) b perm pm)
            (last_page (va + len) h)))
      (subst
        (λ r.
          Checked r pm pgdir va perm (va / pgsize * pgsize) ((va + len + 4095) / pgsize * pgsize))
        (loop_run pm pgdir va perm ((va + len + 4095) / pgsize * pgsize) wf (2 ^ 20)
          (va / pgsize * pgsize))
        (loop-Checked pm pgdir va perm ((va + len + 4095) / pgsize * pgsize) wf (2 ^ 20)
          (va / pgsize * pgsize) (omega arith)))

same_page :
    (pm : Pmap) (pgdir perm a b : ℕ)
    → a / pgsize ≡ b / pgsize
    → Granted pm pgdir perm a
    → Granted pm pgdir perm b
same_page pm pgdir perm a b e g =
    let d : pdx a ≡ pdx b = omega arith in
    let t : ptx a ≡ ptx b = omega arith in
    record {
      low = omega (arith, g.low);
      directory = subst (λ (i : ℕ). is_present (pm.mem pgdir i) ≡ true) d g.directory;
      present =
          subst₂ (λ (i j : ℕ). is_present (pm.mem (pgnum (pm.mem pgdir i)) j) ≡ true) d t g.present;
      permits =
          subst₂ (λ (i j : ℕ). bit_and (pm.mem (pgnum (pm.mem pgdir i)) j) perm ≡ perm) d t
            g.permits;
    }

-- Where `user_mem_check` returns 0, for a directory whose page tables are in memory and a range
-- whose end, rounded up, is an address, every address of the range is below ULIM and mapped with
-- all of `perm`.
pub user_mem_check-Granted :
    (pm : Pmap) (pgdir va len perm a : ℕ) {pm' : Pmap}
    → TablesInMemory pm pgdir
    → va + len + 4095 < 2 ^ 32
    → user_mem_check pgdir va len perm pm ≡ ok none pm'
    → va ≤ a
    → a < va + len
    → Granted pm pgdir perm a
user_mem_check-Granted pm pgdir va len perm a wf h r lo hi =
    elim (user_mem_check_lem pm pgdir va len perm wf h) [
      | inl (all, _) ↦
          same_page pm pgdir perm (page_at (va / pgsize * pgsize) (a / pgsize - va / pgsize)) a
            (omega arith) (all (a / pgsize - va / pgsize) (omega arith))
      | inr (j, first, bad) ↦ absurd (cc)
    ]

wrapped_end :
    (va len : ℕ)
    → va < 2 ^ 32
    → 2 ^ 32 ≤ va + len
    → len + 8190 ≤ 2 ^ 32
    → roundup (word (va + len)) pgsize ≤ rounddown va pgsize
unfolding roundup
wrapped_end va len lt over short = omega arith

-- `user_mem_check` accepts a range that runs past the end of the 32-bit address space, shorter
-- than that by 8190 bytes or more, and changes nothing, whatever is mapped.
pub user_mem_check_wraps :
    (pm : Pmap) (pgdir va len perm : ℕ)
    → va < 2 ^ 32
    → 2 ^ 32 ≤ va + len
    → len + 8190 ≤ 2 ^ 32
    → user_mem_check pgdir va len perm pm ≡ ok none pm
user_mem_check_wraps pm pgdir va len perm lt over short =
    check_run pm pgdir va len perm
    ∙ loop_stop (2 ^ 20) pm pgdir va (rounddown va pgsize) (roundup (word (va + len)) pgsize) perm
        (wrapped_end va len lt over short)
