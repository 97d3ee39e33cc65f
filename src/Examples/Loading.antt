-- ===== src/Examples/Loading.antt =====
-- The loading of a program into environment 0 of the small machine.
use challenge.Base.{
  ◌+◌, ℕ, zero, suc, ◌+◌, ◌/◌, ◌*◌, ◌^◌, ◌%◌, All, List, ◌≢◌, ◌≡◌, refl, sym, ap, false, some, none,
  [], ◌∷◌, arith, if◌then◌else◌, leb, ltb, ◌&&◌,
}
use challenge.Base.Run.{ok}
use challenge.Mmu.{pdx, pgnum}
use challenge.Pmap.Pages.{Pmap}
use challenge.Pmap.Tables.{is_present}
use challenge.Pmap.FreeList.Alloc.{IsFreeList}
use challenge.Env.State.{Kernel}
use challenge.Env.Load.{Proghdr, proghdr, region_alloc, load_icode}
use challenge.Env.Load.Region.{Entries}
use challenge.Env.Load.Segment.{Extent}
use challenge.Env.Load.Space.{Placed}
use challenge.Env.Load.Headers.{headers}
use challenge.Env.Load.Icode.{stack_header, InPlace, load_icode-HasSegments}
use challenge.Env.Load.Unmapped.{region_alloc-not_mapped}
use challenge.Examples.{machine, with_free, kernel, two_envs}

abbrev loader : Kernel
loader = kernel (two_envs 3 4 false) 1 (some 0)

-- The word at the place `i` of a list
abbrev word_at : List ℕ → ℕ → ℕ
word_at [] i = 0
word_at (w ∷ ws) zero = w
word_at (w ∷ ws) (suc i) = word_at ws i

-- An ELF file with three program headers, of which the second is not to be loaded
abbrev file : ℕ → ℕ
file j =
    word_at
      (0x464C_457F ∷ 0 ∷ 0 ∷ 0 ∷ 0 ∷ 0 ∷ 0x80_0020 ∷ 52 ∷ 0 ∷ 0 ∷ 0 ∷ 3 ∷ 0 ∷ 1 ∷ 0 ∷ 0x80_0020 ∷ 0
        ∷ 8 ∷ 8 ∷ 5 ∷ 0x1000 ∷ 0x6474_e551 ∷ 0 ∷ 0 ∷ 0 ∷ 0 ∷ 0 ∷ 6 ∷ 16 ∷ 1 ∷ 8 ∷ 0x80_1000 ∷ 0 ∷ 5
        ∷ 0x800 ∷ 7 ∷ 0x1000 ∷ [])
      (j / 4)
    / 2 ^ (8 * (j % 4))
    % 2 ^ 8

-- A machine with nothing mapped, on which the pages 10 to 14 are free
abbrev fresh_machine : Pmap
fresh_machine = record machine {
  mem = λ _ _. 0;
  pages = λ p. record { pp_ref = 0; pp_link = if leb 10 p && ltb p 14 then some (p + 1) else none };
}

abbrev new_program : Kernel
new_program = record loader { pm = fresh_machine }

abbrev text_extent : Extent
text_extent = record { table = 11; first = 0; pages = 10 ∷ [] }

abbrev data_extent : Extent
data_extent = record { table = 11; first = 1; pages = 12 ∷ [] }

abbrev stack_extent : Extent
stack_extent = record { table = 14; first = 1021; pages = 13 ∷ [] }

fresh-IsFreeList : IsFreeList fresh_machine (10 ∷ 11 ∷ 12 ∷ 13 ∷ 14 ∷ [])
fresh-IsFreeList = record {
  fits = omega arith;
  chain = (refl, (refl, (refl, (refl, (refl, tt)))));
  distinct = omega arith;
  idle = omega arith;
}

text_extent-Placed : Placed 2 (proghdr file 52) text_extent
text_extent-Placed = record {
  type = refl;
  fits = omega arith;
  some_size = omega arith;
  starts = refl;
  count = refl;
  fuel = omega arith;
  room = omega arith;
  below = omega arith;
  low = omega arith;
}

data_extent-Placed : Placed 2 (proghdr file 116) data_extent
data_extent-Placed = record {
  type = refl;
  fits = omega arith;
  some_size = omega arith;
  starts = refl;
  count = refl;
  fuel = omega arith;
  room = omega arith;
  below = omega arith;
  low = omega arith;
}

stack_extent-Placed : Placed 2 stack_header stack_extent
stack_extent-Placed = record {
  type = refl;
  fits = omega arith;
  some_size = omega arith;
  starts = refl;
  count = refl;
  fuel = omega arith;
  room = omega arith;
  below = omega arith;
  low = omega arith;
}

load_icode-HasSegments_example :
    (k' : Kernel) × (load_icode 2 0 file new_program ≡ ok (some tt) k')
    × All
        (λ (h : Proghdr × Extent). InPlace k'.pm 2 file h.0)
        (headers file 52 (some text_extent ∷ none ∷ some data_extent ∷ []))
    × (pgnum (k'.pm.mem 2 954) ≡ 14)
    × Entries k'.pm 14 1021 (13 ∷ [])
    × IsFreeList k'.pm []
    × ((k'.envs 0).env_tf.tf_eip ≡ 0x80_0020)
    × ((i : ℕ) → i ≢ 0 → k'.envs i ≡ new_program.envs i)
load_icode-HasSegments_example =
    load_icode-HasSegments 1 0 file new_program 2 (some text_extent ∷ none ∷ some data_extent ∷ [])
      stack_extent [] (λ j. omega arith) refl refl refl (λ d lt. refl) fresh-IsFreeList
      (omega arith) ((λ e. absurd (omega (arith, e))), omega arith, tt)
      ((
        text_extent-Placed,
        (λ t e. absurd (cc e)),
        (λ j le lt. refl),
        (
          data_extent-Placed,
          (λ t e. ap (λ o. elim o [ none ↦ t | some x ↦ x ]) (sym e)),
          (λ j le lt. ground arith),
          (stack_extent-Placed, (λ t e. absurd (cc e)), (λ j le lt. ground arith), tt),
        ),
      ))

-- One page is free.
abbrev last_page : Kernel
last_page = record loader { pm = with_free (some 12) }

region_alloc-not_mapped_example :
    (pm' : Pmap) × (region_alloc 2 0 0x80_0000 0x1000 last_page
      ≡ ok (some tt) (record last_page { pm = pm' }))
    × (is_present (pm'.mem 2 (pdx 0x80_0000)) ≡ false)
    × IsFreeList pm' []
    × ((pm'.pages 12).pp_ref ≡ 0)
region_alloc-not_mapped_example =
    region_alloc-not_mapped 0 0 last_page 0x80_0000 0x1000 2 12 refl refl (omega arith)
      (omega arith)
      (record {
        fits = omega arith;
        chain = (refl, tt);
        distinct = (tt, tt);
        idle = ((omega arith, refl), tt);
      })
      (omega arith) refl
