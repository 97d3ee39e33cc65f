-- ===== src/Examples/Startup.antt =====
-- The start of a machine, and its devices and lock.
use challenge.Base.{
  ℕ, ◌+◌, ◌-◌, ◌*◌, ◌≡◌, ◌≢◌, refl, true, false, none, some, List, [], ◌∷◌, leb, if◌then◌else◌,
  arith, get_elem?, update,
}
use challenge.Base.Run.{ok}
use challenge.Mmu.{kernbase, pgsize}
use challenge.Pmap.Pages.{Pmap}
use challenge.Pmap.FreeList.Alloc.{IsFreeList}
use challenge.Pmap.Init.{boot_alloc, page_init}
use challenge.Pmap.Init.Free.{first_free, free_pages, page_init-IsFreeList}
use challenge.Pmap.Boot.{boot_map_region}
use challenge.Pmap.Boot.Region.{RegionMapped, page_at, boot_map_region-RegionMapped}
use challenge.Console.{Cons, cons_getc}
use challenge.Console.Queue.{Holds, cons_getc-Holds}
use challenge.Spinlock.Turns.{Phase, System, turn, advance, initial, Reach, Step}
use challenge.Spinlock.Exclusion.{mutual_exclusion, never_panics}
use challenge.Mpconfig.{Mp, mp_init, sum}
use challenge.Mpconfig.Cpus.{Numbered, mp_init-Numbered}
use challenge.Examples.{machine}

-- 200 pages, of which the kernel uses those below 170
abbrev empty_machine : Pmap
empty_machine = record machine { npages = 200; page_free_list = none }

abbrev kernel_end : ℕ
kernel_end = kernbase + 170 * pgsize

page_init-IsFreeList_example :
    (pm' : Pmap) × (page_init 0 kernel_end empty_machine ≡ ok tt pm')
    × IsFreeList pm' (free_pages (first_free 0 kernel_end) 200)
unfolding boot_alloc
page_init-IsFreeList_example =
    page_init-IsFreeList 0 kernel_end empty_machine (omega arith) (omega arith) (omega arith)
      (omega arith)

boot_map_region-RegionMapped_example :
    (pm' : Pmap) × (boot_map_region 3 2 (page_at 954 10) (2 * pgsize) 0x30_0000 2 machine
      ≡ ok (some tt) pm')
    × RegionMapped machine pm' 3 10 2 0x30_0000 2
boot_map_region-RegionMapped_example =
    boot_map_region-RegionMapped 2 3 machine 2 3 954 10 0x30_0000 2 (omega arith) (omega arith)
      (omega arith) (omega arith)
      (record { present = refl; entry = refl; below = omega arith; apart = omega arith })

-- CPU 0 takes the lock while CPU 1 waits for it.
abbrev contended : System
contended = turn 1 (turn 0 (turn 1 (turn 0 (turn 0 initial))))

contended-Reach : Reach contended
contended-Reach =
    Reach.later
      (Reach.later
        (Reach.later (Reach.later (Reach.later Reach.start (Step.next 0)) (Step.next 0))
          (Step.next 1))
        (Step.next 0))
      (Step.next 1)

mutual_exclusion_example : ◌≡◌ {A = ℕ} 0 0
unfolding turn advance
mutual_exclusion_example = mutual_exclusion contended 0 0 contended-Reach refl refl

never_panics_example : contended.phase 1 ≢ Phase.panicked
never_panics_example = never_panics contended 1 contended-Reach

-- One character waits, in the last place but one of the buffer.
abbrev console : Cons
console = record { buf = λ _. 7; rpos = 510; wpos = 511 }

cons_getc-Holds_example :
    ((cons_getc (65 ∷ 0 ∷ []) (66 ∷ []) console).0 ≡ 7)
    × Holds (cons_getc (65 ∷ 0 ∷ []) (66 ∷ []) console).1 (65 ∷ 66 ∷ [])
cons_getc-Holds_example =
    cons_getc-Holds (65 ∷ 0 ∷ []) (66 ∷ []) console (7 ∷ [])
      (record {
        read_place = omega arith;
        write_place = refl;
        room = omega arith;
        stored = (refl, tt);
      })
      (omega arith)

-- The bytes of a list at an address
abbrev pub at : ℕ → List ℕ → (ℕ → ℕ) → ℕ → ℕ
at base xs m a =
    if leb base a then elim (get_elem? xs (a - base)) [ none ↦ m a | some x ↦ x ] else m a

-- A firmware table with one processor
abbrev firmware : ℕ → ℕ
firmware = at 0x40E (0x00 ∷ 0x01 ∷ []) (
    at 0x1000 (95 ∷ 77 ∷ 80 ∷ 95 ∷ 0 ∷ 5 ∷ 0 ∷ 0 ∷ 1 ∷ 4 ∷ 155 ∷ []) (
      at 0x500 (80 ∷ 67 ∷ 77 ∷ 80 ∷ 64 ∷ 0 ∷ 4 ∷ 171 ∷ [])
        (at 0x522 (1 ∷ 0 ∷ 0 ∷ 0 ∷ 224 ∷ 254 ∷ 0 ∷ 0 ∷ 0 ∷ 0 ∷ 0 ∷ 0 ∷ 0 ∷ 2 ∷ []) (λ _. 0))))

abbrev no_cpus : Mp
no_cpus = record {
  ismp = false;
  ncpu = 0;
  bootcpu = 0;
  cpu_id = λ _. 0;
  started = none;
  lapicaddr = 0;
}

abbrev one_cpu : Mp
one_cpu = record {
  ismp = true;
  ncpu = 1;
  bootcpu = 0;
  cpu_id = update (λ _. 0) 0 0;
  started = some 0;
  lapicaddr = 0xFEE0_0000;
}

one_found : mp_init 1024 firmware no_cpus ≡ some one_cpu
unfolding mp_init sum
one_found = refl

mp_init-Numbered_example : Numbered one_cpu
mp_init-Numbered_example = mp_init-Numbered 1024 firmware no_cpus one_cpu refl refl one_found
