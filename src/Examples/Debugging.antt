-- ===== src/Examples/Debugging.antt =====
-- The commands of the monitor and the table of stabs.
use challenge.Base.{
  ℕ, ◌*◌, ◌+◌, ◌/◌, ◌^◌, ◌<◌, ◌≡◌, ◌≢◌, refl, some, List, [], ◌∷◌, arith, ◌==◌, if◌then◌else◌,
}
use challenge.Base.Run.{ok}
use challenge.Mmu.{pte_addr}
use challenge.Pmap.Pages.{Pmap, read_pte}
use challenge.Kdebug.{Stab, stab_binsearch}
use challenge.Kdebug.Round.{Table}
use challenge.Kdebug.Search.{Region, stab_binsearch-Region}
use challenge.Monitor.{arguments, parse_args, setperm, showmappings, xtoi}
use challenge.Monitor.Commands.{setperm-changes_frame}
use challenge.Monitor.Mappings.{showmappings-endless}
use challenge.Monitor.Words.{words}
use challenge.Monitor.Arguments.{AreStrings, parse_args-words}
use challenge.Pmap.Tables.{pgdir_walk}
use challenge.Examples.{machine}
use challenge.Examples.Startup.{at}

-- The indices 0 to 3: source files at 16, 64, 128 and a function at 80.
abbrev stabs : ℕ → Stab
stabs i = record {
  n_strx = 0;
  n_type = if i == 3 then 0x24 else 0x64;
  n_other = 0;
  n_desc = 0;
  n_value = if i == 1 then 16 else if i == 2 then 64 else if i == 3 then 80 else 128;
}

stabs-Table : Table stabs 0x64 100 1 4 2
stabs-Table = record {
  start = omega arith;
  small = omega arith;
  sorted = λ i j p q o a b. ground arith;
  no_next = λ i p q a. ground arith;
  from = omega arith;
  to = omega arith;
  match = refl;
  before = omega arith;
}

stab_binsearch-Region_example :
    (left right : ℕ) × (stab_binsearch stabs 0x64 10 1 4 100 ≡ some (left, right))
    × Region stabs 0x64 100 1 4 left right
stab_binsearch-Region_example =
    stab_binsearch-Region stabs 0x64 100 1 4 2 10 stabs-Table (omega arith)

-- An address in front of every stab of the type is given a region that is not empty.
before_all : stab_binsearch stabs 0x64 10 1 4 10 ≡ some (0, 0)
unfolding stab_binsearch
before_all = refl

-- Where a stab stands at the address plus one too, the search returns that one.
abbrev next_to : ℕ → Stab
next_to i = record (stabs i) { n_type = 0x44; n_value = 60 + i }

next_address : stab_binsearch next_to 0x44 10 1 4 62 ≡ some (4, 4)
unfolding stab_binsearch
next_address = refl

-- "setperm 0xeebff000 change 0x7" of an address that is mapped to page 20
abbrev line : List ℕ
line =
    b's' ∷ b' ' ∷ b'0' ∷ b'x' ∷ b'e' ∷ b'e' ∷ b'b' ∷ b'f' ∷ b'f' ∷ b'0' ∷ b'0' ∷ b'0' ∷ b' ' ∷ b'c'
    ∷ b'h' ∷ b' ' ∷ b' ' ∷ b'0' ∷ b'x' ∷ b'7' ∷ []

abbrev board : Pmap
board = record machine {
  kern_pgdir = 2;
  mem = λ f i.
      if f == 2
      then (if i == 954 then 3 * 4096 + 7 else 0)
      else if f == 3
      then (if i == 1023 then 20 * 4096 + 7 else 0)
      else 0;
}

parse_args-words_example :
    (m' : ℕ → ℕ) × (argv : List ℕ) × (parse_args 6 30 (at 100 line (λ _. 0)) 100 []
      ≡ some (arguments m' argv))
    × AreStrings m' argv (words line)
    × ((x : ℕ) → x < 100 → m' x ≡ at 100 line (λ _. 0) x)
unfolding words
parse_args-words_example =
    parse_args-words 6 30 (at 100 line (λ _. 0)) 100 line (omega arith) (omega arith) (omega arith)
      (omega arith)

abbrev texts : ℕ → ℕ
texts =
    at 102
      (b'0' ∷ b'x' ∷ b'e' ∷ b'e' ∷ b'b' ∷ b'f' ∷ b'f' ∷ b'0' ∷ b'0' ∷ b'0' ∷ 0 ∷ b'c' ∷ b'h' ∷ 0 ∷ 0
        ∷ b'0' ∷ b'x' ∷ b'7' ∷ [])
      (λ _. 0)

setperm-changes_frame_example :
    (after : Pmap) × (setperm 20 texts (100 ∷ 102 ∷ 113 ∷ 117 ∷ []) board ≡ ok (some tt) after)
    × (read_pte after (record { table = 3; index = 1023 }) / 2 ^ 12 ≡ 4)
    × (pte_addr (read_pte after (record { table = 3; index = 1023 })) ≢ 20 * 4096)
unfolding xtoi pgdir_walk
setperm-changes_frame_example =
    setperm-changes_frame 20 texts 100 102 113 117 board board 0xeebf_f000 7
      (record { table = 3; index = 1023 }) refl refl refl refl (omega arith) (omega arith)

showmappings-endless_example :
    showmappings 1000 20
      (at 102 (b'0' ∷ b'x' ∷ b'f' ∷ b'f' ∷ b'f' ∷ b'f' ∷ b'f' ∷ b'0' ∷ b'0' ∷ b'0' ∷ []) (λ _. 0))
      (100 ∷ 102 ∷ 102 ∷ [])
      board
    ≢ ok (some tt) board
unfolding xtoi
showmappings-endless_example =
    showmappings-endless 20
      (at 102 (b'0' ∷ b'x' ∷ b'f' ∷ b'f' ∷ b'f' ∷ b'f' ∷ b'f' ∷ b'0' ∷ b'0' ∷ b'0' ∷ []) (λ _. 0))
      100 102 102 0xFFFF_F000 0xFFFF_F000 board refl refl (omega arith) (omega arith) 1000 board
