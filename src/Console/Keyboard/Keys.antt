-- ===== src/Console/Keyboard/Keys.antt =====
-- kern/console.c: the characters that keys give with the modifier keys.
use challenge.Base.{
  ==_ne, bit_or, not, ltb, ℕ, zero, suc, ◌+◌, ◌-◌, ◌<◌, ◌≡◌, ◌≢◌, ap, refl, sym, Bool, true, false,
  ◌&&◌, arith, ◌==◌, leb, if◌then◌else◌,
}
use challenge.Console.Keyboard.{
  Kbd, e0esc, key_del, clear_bits, kbd_proc_data, is_set, press, release, shift_bit, ctl_bit,
  capslock,
}
use challenge.Console.Keyboard.Keymaps.{normalmap, shiftmap, ctlmap, shiftcode, togglecode}

-- A test of the numbers below a bound, from the largest one down.
unfoldable pub passes : (ℕ → Bool) → ℕ → Bool
passes test zero = true
passes test (suc bound) = if test bound then passes test bound else false

pub passes_at :
    (test : ℕ → Bool) (bound key : ℕ) → key < bound → passes test bound ≡ true → test key ≡ true
unfolding passes
passes_at test zero key lt all = absurd (omega arith)
passes_at test (suc bound) key lt all =
    ground (arith, passes_at test bound key, ap test {x = key} {y = bound})

-- What a key gives: with Ctrl the entry of its table; a letter is a capital if one of Shift and Caps
-- Lock is on, but not both; any other key has its second character with Shift.
unfoldable pub typed : ℕ → ℕ → ℕ
typed shift key =
    let c = normalmap key in
    if is_set shift ctl_bit
    then ctlmap key
    else if leb b'a' c && leb c b'z'
    then (if is_set shift shift_bit
        then (if is_set shift capslock then c else c - 0x20)
        else if is_set shift capslock
        then c - 0x20
        else c)
    else if is_set shift shift_bit
    then shiftmap key
    else normalmap key

-- A key that does not change the state
abbrev pub is_ordinary : ℕ → Bool
is_ordinary key = shiftcode key == 0 && togglecode key == 0

-- Two numbers below bounds, at which a test succeeds throughout
module _ (n m : ℕ) (p : ℕ → ℕ → Bool) (table : passes (λ x. passes (p x) m) n ≡ true) where
  pub at : (x y : ℕ) → x < n → y < m → p x y ≡ true
  at x y lx ly = passes_at (p x) m y ly (passes_at (λ x. passes (p x) m) n x lx table)

-- The state after a byte, whatever `rebooted` is.
abbrev pub next_shift : ℕ → ℕ → ℕ
next_shift code shift = (kbd_proc_data code (record { shift = shift; rebooted = false })).1.shift

abbrev pub value : ℕ → ℕ → ℕ
value code shift = (kbd_proc_data code (record { shift = shift; rebooted = false })).0

pub eq_bool : Bool → Bool → Bool
eq_bool true b = b
eq_bool false b = not b

pub eq_bool-eq : (a b : Bool) → eq_bool a b ≡ true → a ≡ b
unfolding eq_bool
eq_bool-eq true true h = refl
eq_bool-eq true false h = sym h
eq_bool-eq false true h = h
eq_bool-eq false false h = refl

unfoldable pub test_escape : ℕ → ℕ → Bool
test_escape code shift =
    ltb (next_shift code shift) 128 && eq_bool (is_set (next_shift code shift) e0esc) (code == 0xE0)

pub escape_table : passes (λ code. passes (test_escape code) 128) 256 ≡ true
unfolding passes test_escape kbd_proc_data press release eq_bool
escape_table = refl

unfoldable pub test_press : ℕ → ℕ → Bool
test_press key shift =
    if is_ordinary key
    then value key shift == typed shift key
      && next_shift key shift == shift
      && not (typed shift key == key_del)
    else true

pub press_table : passes (λ key. passes (test_press key) 64) 128 ≡ true
unfolding passes test_press kbd_proc_data press release typed
press_table = refl

unfoldable pub test_release : ℕ → ℕ → Bool
test_release key shift =
    if key == 0x60
    then true
    else value (key + 0x80) shift == 0
      && next_shift (key + 0x80) shift == clear_bits shift (shiftcode key)

pub release_table : passes (λ key. passes (test_release key) 64) 128 ≡ true
unfolding passes test_release kbd_proc_data press release
release_table = refl

press_value :
    (key : ℕ) (s : Kbd)
    → (press key s).0 ≡ (press key (record { shift = s.shift; rebooted = false })).0
unfolding press
press_value key s = refl

press_shift :
    (key : ℕ) (s : Kbd)
    → (press key s).1.shift ≡ (press key (record { shift = s.shift; rebooted = false })).1.shift
unfolding press
press_shift key s = refl

unless_false : (a b x : Bool) → b ≡ false → (if a && b then true else x) ≡ x
unless_false true b x h = rw h refl
unless_false false b x h = refl

press_rebooted :
    (key : ℕ) (s : Kbd) → (press key s).0 ≢ key_del → (press key s).1.rebooted ≡ s.rebooted
unfolding press
press_rebooted key s h = unless_false _ _ s.rebooted (==_ne (press key s).0 key_del h)

pub value_lem : (code : ℕ) (s : Kbd) → (kbd_proc_data code s).0 ≡ value code s.shift
unfolding kbd_proc_data release
value_lem code s = ground (
  arith,
  press_value code s,
  press_value (bit_or code 0x80) (record s { shift = clear_bits s.shift e0esc }),
)

pub next_shift_lem : (code : ℕ) (s : Kbd) → (kbd_proc_data code s).1.shift ≡ next_shift code s.shift
unfolding kbd_proc_data release
next_shift_lem code s = ground (
  arith,
  press_shift code s,
  press_shift (bit_or code 0x80) (record s { shift = clear_bits s.shift e0esc }),
)

-- Only a key that gives KEY_DEL can tell the machine to reboot.
pub rebooted_lem :
    (code : ℕ) (s : Kbd)
    → (kbd_proc_data code s).0 ≢ key_del
    → (kbd_proc_data code s).1.rebooted ≡ s.rebooted
unfolding kbd_proc_data release
rebooted_lem code s h = ground (
  arith,
  press_rebooted code s,
  press_rebooted (bit_or code 0x80) (record s { shift = clear_bits s.shift e0esc }),
)
