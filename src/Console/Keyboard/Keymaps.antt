-- ===== src/Console/Keyboard/Keymaps.antt =====
-- kern/console.c: the tables of the keyboard. An entry that a table does not list is 0; the characters
-- are written by their codes.
use challenge.Base.{ℕ, zero, suc, none, some, List, [], ◌∷◌, get_elem?, ◌==◌, if◌then◌else◌}

-- The designated entries `[key] = c` of a table
designated : List (ℕ × ℕ) → ℕ → ℕ
designated [] key = 0
designated ((i, c) ∷ rest) key = if key == i then c else designated rest key

entries : List ℕ → List (ℕ × ℕ) → ℕ → ℕ
unfolding designated
entries first others key = elim (get_elem? first key) [ some c ↦ c | none ↦ designated others key ]

unfoldable pub shiftcode : ℕ → ℕ
unfolding designated
shiftcode = designated ((0x1D, 2) ∷ (0x2A, 1) ∷ (0x36, 1) ∷ (0x38, 4) ∷ (0x9D, 2) ∷ (0xB8, 4) ∷ [])

unfoldable pub togglecode : ℕ → ℕ
unfolding designated
togglecode = designated ((0x3A, 8) ∷ (0x45, 16) ∷ (0x46, 32) ∷ [])

-- The keys behind E0 of `normalmap` and `shiftmap`
abbrev keypad : List (ℕ × ℕ)
keypad =
    (0xC7, 0xE0)
    ∷ (0x9C, 0x0A)
    ∷ (0xB5, 0x2F)
    ∷ (0xC8, 0xE2)
    ∷ (0xC9, 0xE6)
    ∷ (0xCB, 0xE4)
    ∷ (0xCD, 0xE5)
    ∷ (0xCF, 0xE1)
    ∷ (0xD0, 0xE3)
    ∷ (0xD1, 0xE7)
    ∷ (0xD2, 0xE8)
    ∷ (0xD3, 0xE9)
    ∷ []

normal_rows : List ℕ
normal_rows =
    0x00 ∷ 0x1B ∷ 0x31 ∷ 0x32 ∷ 0x33 ∷ 0x34 ∷ 0x35 ∷ 0x36 ∷ 0x37 ∷ 0x38 ∷ 0x39 ∷ 0x30 ∷ 0x2D ∷ 0x3D
    ∷ 0x08 ∷ 0x09 ∷ 0x71 ∷ 0x77 ∷ 0x65 ∷ 0x72 ∷ 0x74 ∷ 0x79 ∷ 0x75 ∷ 0x69 ∷ 0x6F ∷ 0x70 ∷ 0x5B
    ∷ 0x5D ∷ 0x0A ∷ 0x00 ∷ 0x61 ∷ 0x73 ∷ 0x64 ∷ 0x66 ∷ 0x67 ∷ 0x68 ∷ 0x6A ∷ 0x6B ∷ 0x6C ∷ 0x3B
    ∷ 0x27 ∷ 0x60 ∷ 0x00 ∷ 0x5C ∷ 0x7A ∷ 0x78 ∷ 0x63 ∷ 0x76 ∷ 0x62 ∷ 0x6E ∷ 0x6D ∷ 0x2C ∷ 0x2E
    ∷ 0x2F ∷ 0x00 ∷ 0x2A ∷ 0x00 ∷ 0x20 ∷ 0x00 ∷ 0x00 ∷ 0x00 ∷ 0x00 ∷ 0x00 ∷ 0x00 ∷ 0x00 ∷ 0x00
    ∷ 0x00 ∷ 0x00 ∷ 0x00 ∷ 0x00 ∷ 0x00 ∷ 0x37 ∷ 0x38 ∷ 0x39 ∷ 0x2D ∷ 0x34 ∷ 0x35 ∷ 0x36 ∷ 0x2B
    ∷ 0x31 ∷ 0x32 ∷ 0x33 ∷ 0x30 ∷ 0x2E ∷ 0x00 ∷ 0x00 ∷ 0x00 ∷ 0x00 ∷ []

shift_rows : List ℕ
shift_rows =
    0x00 ∷ 0x1B ∷ 0x21 ∷ 0x40 ∷ 0x23 ∷ 0x24 ∷ 0x25 ∷ 0x5E ∷ 0x26 ∷ 0x2A ∷ 0x28 ∷ 0x29 ∷ 0x5F ∷ 0x2B
    ∷ 0x08 ∷ 0x09 ∷ 0x51 ∷ 0x57 ∷ 0x45 ∷ 0x52 ∷ 0x54 ∷ 0x59 ∷ 0x55 ∷ 0x49 ∷ 0x4F ∷ 0x50 ∷ 0x7B
    ∷ 0x7D ∷ 0x0A ∷ 0x00 ∷ 0x41 ∷ 0x53 ∷ 0x44 ∷ 0x46 ∷ 0x47 ∷ 0x48 ∷ 0x4A ∷ 0x4B ∷ 0x4C ∷ 0x3A
    ∷ 0x22 ∷ 0x7E ∷ 0x00 ∷ 0x7C ∷ 0x5A ∷ 0x58 ∷ 0x43 ∷ 0x56 ∷ 0x42 ∷ 0x4E ∷ 0x4D ∷ 0x3C ∷ 0x3E
    ∷ 0x3F ∷ 0x00 ∷ 0x2A ∷ 0x00 ∷ 0x20 ∷ 0x00 ∷ 0x00 ∷ 0x00 ∷ 0x00 ∷ 0x00 ∷ 0x00 ∷ 0x00 ∷ 0x00
    ∷ 0x00 ∷ 0x00 ∷ 0x00 ∷ 0x00 ∷ 0x00 ∷ 0x37 ∷ 0x38 ∷ 0x39 ∷ 0x2D ∷ 0x34 ∷ 0x35 ∷ 0x36 ∷ 0x2B
    ∷ 0x31 ∷ 0x32 ∷ 0x33 ∷ 0x30 ∷ 0x2E ∷ 0x00 ∷ 0x00 ∷ 0x00 ∷ 0x00 ∷ []

ctl_rows : List ℕ
ctl_rows =
    0x00 ∷ 0x00 ∷ 0x00 ∷ 0x00 ∷ 0x00 ∷ 0x00 ∷ 0x00 ∷ 0x00 ∷ 0x00 ∷ 0x00 ∷ 0x00 ∷ 0x00 ∷ 0x00 ∷ 0x00
    ∷ 0x00 ∷ 0x00 ∷ 0x11 ∷ 0x17 ∷ 0x05 ∷ 0x12 ∷ 0x14 ∷ 0x19 ∷ 0x15 ∷ 0x09 ∷ 0x0F ∷ 0x10 ∷ 0x00
    ∷ 0x00 ∷ 0x0D ∷ 0x00 ∷ 0x01 ∷ 0x13 ∷ 0x04 ∷ 0x06 ∷ 0x07 ∷ 0x08 ∷ 0x0A ∷ 0x0B ∷ 0x0C ∷ 0x00
    ∷ 0x00 ∷ 0x00 ∷ 0x00 ∷ 0x1C ∷ 0x1A ∷ 0x18 ∷ 0x03 ∷ 0x16 ∷ 0x02 ∷ 0x0E ∷ 0x0D ∷ 0x00 ∷ 0x00
    ∷ 0xEF ∷ 0x00 ∷ 0x00 ∷ []

unfoldable pub normalmap : ℕ → ℕ
unfolding entries normal_rows
normalmap = entries normal_rows keypad

unfoldable pub shiftmap : ℕ → ℕ
unfolding entries shift_rows
shiftmap = entries shift_rows keypad

unfoldable pub ctlmap : ℕ → ℕ
unfolding entries ctl_rows
ctlmap = entries ctl_rows (
    (0x97, 0xE0)
    ∷ (0xB5, 0xEF)
    ∷ (0xC8, 0xE2)
    ∷ (0xC9, 0xE6)
    ∷ (0xCB, 0xE4)
    ∷ (0xCD, 0xE5)
    ∷ (0xCF, 0xE1)
    ∷ (0xD0, 0xE3)
    ∷ (0xD1, 0xE7)
    ∷ (0xD2, 0xE8)
    ∷ (0xD3, 0xE9)
    ∷ [])

unfoldable pub charcode : ℕ → ℕ → ℕ
unfolding normalmap shiftmap ctlmap
charcode zero = normalmap
charcode (suc zero) = shiftmap
charcode (suc (suc _)) = ctlmap
