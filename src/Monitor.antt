-- ===== src/Monitor.antt =====
-- kern/monitor.c: the commands of the kernel monitor, but for what they print.
--
-- Texts stand in the memory `m` of bytes; `argv` is the list of the pointers before the NULL at its end.
-- The loops have fuel, and `none` says that it ran out.
pub mod Commands
pub mod Words
pub mod Arguments
pub mod Mappings
use challenge.Base.{
  ℕ, zero, suc, ◌+◌, ◌-◌, ◌*◌, ◌^◌, bit_and, bit_or, Bool, true, false, ◌&&◌, ◌||◌, not, Option,
  none, some, List, [], ◌∷◌, ◌++◌, ◌==◌, leb, if◌then◌else◌, update, length, get_elem?,
}
use challenge.Base.Run.{Exit, Panic, ok, Cmd, pure, panic, leave, modify, ◌>>=◌, ◌>>◌}
use challenge.Mmu.{word, pgsize, pte_p, pte_w, pte_u}
use challenge.Pmap.Pages.{Pmap, PtePtr, read_pte, write_word}
use challenge.Pmap.Tables.{pgdir_walk}
use challenge.Strings.{Bytes, strcmp}

abbrev pub maxargs : ℕ
maxargs = 16

-- `strchr(WHITESPACE, c)` for a character that is not NUL
abbrev pub is_white : ℕ → Bool
is_white c = c == 0x09 || c == 0x0D || c == 0x0A || c == 0x20

-- `while (*buf && strchr(WHITESPACE, *buf)) *buf++ = 0`
unfoldable pub gobble : ℕ → Bytes → ℕ → Option (Bytes × ℕ)
gobble zero m buf = none
gobble (suc f) m buf =
    let rest = gobble f (update m buf 0) (buf + 1) in
    if not (m buf == 0) && is_white (m buf) then rest else some (m, buf)

-- `while (*buf && !strchr(WHITESPACE, *buf)) buf++`
unfoldable pub scan_past : ℕ → Bytes → ℕ → Option ℕ
scan_past zero m buf = none
scan_past (suc f) m buf =
    let rest = scan_past f m (buf + 1) in
    if not (m buf == 0) && not (is_white (m buf)) then rest else some buf

-- The buffer with the ends of the arguments, and `argv`
pub data Parsed : Type 0 where
  arguments : Bytes → List ℕ → Parsed
  too_many : Bytes → Parsed

module _ {A B : Type 0} where
  -- A loop on characters, and then the rest
  abbrev pub then_do : Option A → (A → Option B) → Option B
  then_do none k = none
  then_do (some a) k = k a

-- `argv[argc++] = buf` and the scan, before the rest of the loop
unfoldable pub save_arg : ℕ → List ℕ → (ℕ → List ℕ → Option Parsed) → Bytes × ℕ → Option Parsed
save_arg g argv rest (m, buf) =
    if m buf == 0
    then some (arguments m argv)
    else if length argv == maxargs - 1
    then some (too_many m)
    else then_do (scan_past g m buf) λ past. rest past (argv ++ buf ∷ [])

-- The loop over the arguments has the fuel `f`, the loops over characters `g`.
unfoldable pub parse_args : ℕ → ℕ → Bytes → ℕ → List ℕ → Option Parsed
parse_args zero g m buf argv = none
parse_args (suc f) g m buf argv =
    then_do (gobble g m buf) λ r. save_arg g argv (parse_args f g r.0) r

-- A command is its place in `commands`; `names` are the texts of their names there.
unfoldable pub find_command : ℕ → Bytes → ℕ → List ℕ → Option (Option ℕ)
find_command f m arg [] = some none
find_command f m arg (name ∷ names) = elim (strcmp f m arg name) [
  | none ↦ none
  | some d ↦ elim (d == 0) [
    | true ↦ some (some 0)
    | false ↦ elim (find_command f m arg names) [
      | none ↦ none
      | some none ↦ some none
      | some (some i) ↦ some (some (suc i))
    ]
  ]
]

abbrev pub hex_digit : ℕ → Option ℕ
hex_digit c =
    if leb b'0' c && leb c b'9'
    then some (c - b'0')
    else if leb b'a' c && leb c b'f'
    then some (c - b'a' + 10)
    else if leb b'A' c && leb c b'F'
    then some (c - b'A' + 10)
    else none

-- The number, or nothing where `xtoi` panics.
unfoldable pub xtoi_loop : ℕ → Bytes → ℕ → ℕ → Option (Option ℕ)
xtoi_loop zero m s result = none
xtoi_loop (suc f) m s result = elim (m s == 0) [
  | true ↦ some (some result)
  | false ↦ elim (hex_digit (m s)) [
    | none ↦ some none
    | some d ↦ xtoi_loop f m (s + 1) (word (result * 16 + d))
  ]
]

unfoldable pub xtoi : ℕ → Bytes → ℕ → Option (Option ℕ)
unfolding xtoi_loop
xtoi f m s = xtoi_loop f m (s + 2) 0

-- A command's loop ended, or its fuel ran out.
abbrev pub Looped : Type 0
Looped = Option (Unit {0})

-- A number of an argument, for the rest of a command
with_number : Option (Option ℕ) → (ℕ → Cmd Pmap Looped) → Cmd Pmap Looped
with_number none k = pure none
with_number (some none) k = panic Panic.xtoi_invalid
with_number (some (some n)) k = k n

show_page : Cmd Pmap Looped → Option PtePtr → Cmd Pmap Looped
show_page rest none = panic Panic.showmappings_no_page
show_page rest (some p) = rest

unfoldable pub show_loop : ℕ → ℕ → ℕ → Cmd Pmap Looped
unfolding show_page
show_loop zero va vend = pure none
show_loop (suc f) va vend =
    let rest = show_loop f (word (va + pgsize)) vend in
    if leb va vend
    then (λ (pm : Pmap). (pgdir_walk pm.kern_pgdir va true >>= show_page rest) pm)
    else pure (some tt)

unfoldable pub showmappings : ℕ → ℕ → Bytes → List ℕ → Cmd Pmap Looped
unfolding with_number show_loop xtoi
showmappings f g m (name ∷ from ∷ to ∷ []) =
    with_number (xtoi g m from) λ va. with_number (xtoi g m to) λ vend. show_loop f va vend
showmappings f g m _ = pure (some tt)

-- `argv[i][j]`, a fault where `argv[i]` is the NULL at the end
char_of : Bytes → List ℕ → ℕ → ℕ → (ℕ → Cmd Pmap Looped) → Cmd Pmap Looped
char_of m argv i j k = elim (get_elem? argv i) [
  | none ↦ leave Exit.kernel_fault
  | some p ↦ k (m (p + j))
]

-- `*ppte = f(*ppte)`
edit_entry : Option PtePtr → (ℕ → ℕ) → Cmd Pmap Looped
edit_entry none f pm = leave Exit.kernel_fault pm
edit_entry (some p) f pm = ok (some tt) (write_word p.table p.index (f (read_pte pm p)) pm)

abbrev pub perm_of : ℕ → ℕ
perm_of c = if c == b'U' then pte_u else if c == b'W' then pte_w else if c == b'P' then pte_p else 0

-- `*ppte & ~perm` of 32 bits
abbrev pub without : ℕ → ℕ → ℕ
without perm pte = bit_and pte (2 ^ 32 - 1 - perm)

abbrev pub changed : ℕ → ℕ → ℕ
changed perm pte = bit_or (bit_and pte 0xFFF8) perm

set_or_clear : Option PtePtr → ℕ → ℕ → Cmd Pmap Looped
unfolding edit_entry
set_or_clear ppte c perm =
    if c == b'l'
    then edit_entry ppte (without perm)
    else if c == b'e'
    then edit_entry ppte (λ pte. bit_or pte perm)
    else pure (some tt)

-- The command once the entry is found
set_entry_perm : ℕ → Bytes → List ℕ → Option PtePtr → Cmd Pmap Looped
unfolding char_of edit_entry set_or_clear with_number xtoi
set_entry_perm g m argv ppte = char_of m argv 2 1 λ c.
    if c == b'h'
    then elim (get_elem? argv 3) [
      | none ↦ leave Exit.kernel_fault
      | some p ↦ with_number (xtoi g m p) λ perm. edit_entry ppte (changed perm)
    ]
    else char_of m argv 3 0 λ p. set_or_clear ppte c (perm_of p)

-- The command once there is an address
set_perm_at : ℕ → Bytes → List ℕ → ℕ → Cmd Pmap Looped
unfolding set_entry_perm
set_perm_at g m argv addr pm = (pgdir_walk pm.kern_pgdir addr true >>= set_entry_perm g m argv) pm

unfoldable pub setperm : ℕ → Bytes → List ℕ → Cmd Pmap Looped
unfolding set_perm_at with_number xtoi
setperm g m [] = leave Exit.kernel_fault
setperm g m (name ∷ []) = pure (some tt)
setperm g m (name ∷ addr ∷ rest) =
    with_number (xtoi g m addr) (set_perm_at g m (name ∷ addr ∷ rest))

-- A command by its place in `commands`: the first three only print.
unfoldable pub call_command : ℕ → ℕ → Bytes → List ℕ → ℕ → Cmd Pmap Looped
unfolding showmappings setperm
call_command f g m argv i =
    if i == 3 then showmappings f g m argv else if i == 4 then setperm g m argv else pure (some tt)

with_command : ℕ → ℕ → Bytes → List ℕ → Option (Option ℕ) → Cmd Pmap Looped
unfolding call_command
with_command f g m argv none = pure none
with_command f g m argv (some none) = pure (some tt)
with_command f g m argv (some (some i)) = call_command f g m argv i

run_parsed : ℕ → ℕ → List ℕ → Option Parsed → Cmd Pmap Looped
unfolding with_command find_command
run_parsed f g names none = pure none
run_parsed f g names (some (too_many m)) = pure (some tt)
run_parsed f g names (some (arguments m [])) = pure (some tt)
run_parsed f g names (some (arguments m (arg ∷ args))) =
    with_command f g m (arg ∷ args) (find_command g m arg names)

unfoldable pub runcmd : ℕ → ℕ → Bytes → List ℕ → ℕ → Cmd Pmap Looped
unfolding run_parsed parse_args
runcmd f g m names buf = run_parsed f g names (parse_args f g m buf [])
