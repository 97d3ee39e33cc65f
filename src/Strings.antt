-- ===== src/Strings.antt =====
-- lib/string.c: strings and blocks of bytes in memory.
--
-- Memory is the function from an address to the byte there. A pointer is its address; arithmetic on
-- pointers stays inside the 32-bit address space where the code's does. A loop that runs to the end of
-- a string has fuel, and `none` says that the fuel ran out before the loop ended.
pub mod Move
pub mod Text
use challenge.Base.{
  ℕ, zero, suc, ◌+◌, ◌-◌, ◌*◌, ◌/◌, ◌%◌, ◌^◌, Bool, true, false, ◌&&◌, ◌||◌, Option, none, some,
  ◌==◌, leb, ltb, if◌then◌else◌, update,
}

abbrev pub Bytes : Type 0
Bytes = ℕ → ℕ

module _ {A B : Type 0} where
  infixl 5 ◌>>=◌
  abbrev pub ◌>>=◌ : Option A → (A → Option B) → Option B
  none >>= k = none
  some a >>= k = k a

-- The loop of `strlen`, which counts up from `n`.
strlen_loop : ℕ → Bytes → ℕ → ℕ → Option ℕ
strlen_loop zero m s n = none
strlen_loop (suc f) m s n =
    let rest = strlen_loop f m (s + 1) (n + 1) in if m s == 0 then some n else rest

unfoldable pub strlen : ℕ → Bytes → ℕ → Option ℕ
unfolding strlen_loop
strlen f m s = strlen_loop f m s 0

unfoldable pub strnlen : Bytes → ℕ → ℕ → ℕ
strnlen m s zero = 0
strnlen m s (suc size) = let rest = strnlen m (s + 1) size in if m s == 0 then 0 else suc rest

-- The memory after the copy; the value returned is `dst`.
unfoldable pub strcpy : ℕ → Bytes → ℕ → ℕ → Option Bytes
strcpy zero m dst src = none
strcpy (suc f) m dst src =
    let m' = update m dst (m src) in
    let rest = strcpy f m' (dst + 1) (src + 1) in if m src == 0 then some m' else rest

unfoldable pub strcat : ℕ → Bytes → ℕ → ℕ → Option Bytes
unfolding strlen strcpy
strcat f m dst src = do len ← strlen f m dst; strcpy f m (dst + len) src

unfoldable pub strncpy : Bytes → ℕ → ℕ → ℕ → Bytes
strncpy m dst src zero = m
strncpy m dst src (suc size) =
    strncpy (update m dst (m src)) (dst + 1) (if m src == 0 then src else src + 1) size

-- The loop of `strlcpy`, with `size` bytes left for characters: the memory and the end of the copy.
strlcpy_loop : Bytes → ℕ → ℕ → ℕ → Bytes × ℕ
strlcpy_loop m dst src zero = (update m dst 0, dst)
strlcpy_loop m dst src (suc size) =
    let rest = strlcpy_loop (update m dst (m src)) (dst + 1) (src + 1) size in
    if m src == 0 then (update m dst 0, dst) else rest

-- The memory, and the number of characters copied.
unfoldable pub strlcpy : Bytes → ℕ → ℕ → ℕ → Bytes × ℕ
unfolding strlcpy_loop
strlcpy m dst src zero = (m, 0)
strlcpy m dst src (suc size) = let (m', end) = strlcpy_loop m dst src size in (m', end - dst)

-- `(int) ((unsigned char) a - (unsigned char) b)`, as the bit pattern
abbrev pub difference : ℕ → ℕ → ℕ
difference a b = (a + 2 ^ 32 - b) % 2 ^ 32

unfoldable pub strcmp : ℕ → Bytes → ℕ → ℕ → Option ℕ
strcmp zero m p q = none
strcmp (suc f) m p q =
    let rest = strcmp f m (p + 1) (q + 1) in
    if m p == 0
    then some (difference (m p) (m q))
    else if m p == m q
    then rest
    else some (difference (m p) (m q))

unfoldable pub strncmp : Bytes → ℕ → ℕ → ℕ → ℕ
strncmp m p q zero = 0
strncmp m p q (suc n) =
    let rest = strncmp m (p + 1) (q + 1) n in
    if m p == 0 then difference (m p) (m q) else if m p == m q then rest else difference (m p) (m q)

-- The inner `none` is the null pointer.
unfoldable pub strchr : ℕ → Bytes → ℕ → ℕ → Option (Option ℕ)
strchr zero m s c = none
strchr (suc f) m s c =
    let rest = strchr f m (s + 1) c in
    if m s == 0 then some none else if m s == c % 2 ^ 8 then some (some s) else rest

unfoldable pub strfind : ℕ → Bytes → ℕ → ℕ → Option ℕ
strfind zero m s c = none
strfind (suc f) m s c =
    let rest = strfind f m (s + 1) c in
    if m s == 0 then some s else if m s == c % 2 ^ 8 then some s else rest

-- `rep stos` of `n` units of `u` bytes, each of which is the byte `c`
fill_units : ℕ → ℕ → ℕ → ℕ → Bytes → Bytes
fill_units u zero v c m = m
fill_units u (suc n) v c m =
    fill_units u n (v + u) c (λ a. if leb v a && ltb a (v + u) then c else m a)

-- With `n` a multiple of 4 the word stored is the byte `c`, four times.
unfoldable pub memset : Bytes → ℕ → ℕ → ℕ → Bytes
unfolding fill_units
memset m v c n =
    if n == 0
    then m
    else if v % 4 == 0 && n % 4 == 0
    then fill_units 4 (n / 4) v (c % 2 ^ 8) m
    else fill_units 1 n v (c % 2 ^ 8) m

-- `movs`: the `u` bytes at `s` are read together and then written at `d`.
move_unit : ℕ → ℕ → ℕ → Bytes → Bytes
move_unit u s d m a = if leb d a && ltb a (d + u) then m (s + (a - d)) else m a

-- The bytes in `n` units of `u`.
span : ℕ → ℕ → ℕ
span u zero = 0
span u (suc n) = u + span u n

-- `cld; rep movs`, upwards from `s` and `d`
copy_up : ℕ → ℕ → ℕ → ℕ → Bytes → Bytes
unfolding move_unit
copy_up u zero s d m = m
copy_up u (suc n) s d m = copy_up u n (s + u) (d + u) (move_unit u s d m)

-- `std; rep movs`, downwards to `s` and `d`
copy_down : ℕ → ℕ → ℕ → ℕ → Bytes → Bytes
unfolding move_unit span
copy_down u zero s d m = m
copy_down u (suc n) s d m = copy_down u n s d (move_unit u (s + span u n) (d + span u n) m)

unfoldable pub memmove : Bytes → ℕ → ℕ → ℕ → Bytes
unfolding copy_up copy_down
memmove m dst src n =
    if ltb src dst && ltb dst ((src + n) % 2 ^ 32)
    then if (src + n) % 4 == 0 && ((dst + n) % 4 == 0 && n % 4 == 0)
      then copy_down 4 (n / 4) src dst m
      else copy_down 1 n src dst m
    else if src % 4 == 0 && (dst % 4 == 0 && n % 4 == 0)
    then copy_up 4 (n / 4) src dst m
    else copy_up 1 n src dst m

unfoldable pub memcpy : Bytes → ℕ → ℕ → ℕ → Bytes
unfolding memmove
memcpy = memmove

unfoldable pub memcmp : Bytes → ℕ → ℕ → ℕ → ℕ
memcmp m s1 s2 zero = 0
memcmp m s1 s2 (suc n) =
    let rest = memcmp m (s1 + 1) (s2 + 1) n in
    if m s1 == m s2 then rest else difference (m s1) (m s2)

unfoldable pub memfind : Bytes → ℕ → ℕ → ℕ → ℕ
memfind m s c zero = s
memfind m s c (suc n) = let rest = memfind m (s + 1) c n in if m s == c % 2 ^ 8 then s else rest

-- The loop over the initial whitespace of `strtol`
unfoldable pub skip_blanks : ℕ → Bytes → ℕ → Option ℕ
skip_blanks zero m s = none
skip_blanks (suc f) m s =
    let rest = skip_blanks f m (s + 1) in
    if m s == b' ' then rest else if m s == b'\t' then rest else some s

-- The sign: whether it is a minus, and where the text goes on.
unfoldable pub sign : Bytes → ℕ → Bool × ℕ
sign m s = if m s == b'+' then (false, s + 1) else if m s == b'-' then (true, s + 1) else (false, s)

-- The prefix of a hexadecimal or octal number: the base, and where the digits start.
unfoldable pub prefix : Bytes → ℕ → ℕ → ℕ × ℕ
prefix m s base =
    if (base == 0 || base == 16) && (m s == b'0' && m (s + 1) == b'x')
    then (16, s + 2)
    else if base == 0 && m s == b'0'
    then (8, s + 1)
    else if base == 0
    then (10, s)
    else (base, s)

abbrev pub digit : ℕ → Option ℕ
digit c =
    if leb b'0' c && leb c b'9'
    then some (c - b'0')
    else if leb b'a' c && leb c b'z'
    then some (c - b'a' + 10)
    else if leb b'A' c && leb c b'Z'
    then some (c - b'A' + 10)
    else none

-- The loop over the digits: the value, and the end of the digits.
unfoldable pub digits : ℕ → Bytes → ℕ → ℕ → ℕ → Option (ℕ × ℕ)
digits zero m s base val = none
digits (suc f) m s base val = elim (digit (m s)) [
  | none ↦ some (val, s)
  | some dig ↦ elim (leb base dig) [
    | true ↦ some (val, s)
    | false ↦ digits f m (s + 1) base ((val * base + dig) % 2 ^ 32)
  ]
]

-- The bit pattern of the value, and what is stored through `endptr`.
unfoldable pub strtol : ℕ → Bytes → ℕ → ℕ → Option (ℕ × ℕ)
unfolding skip_blanks sign prefix digits
strtol f m s base = do
  s1 ← skip_blanks f m s
  let (neg, s2) = sign m s1
  let (base', s3) = prefix m s2 base
  (val, end) ← digits f m s3 base' 0
  some (if neg then (2 ^ 32 - val) % 2 ^ 32 else val, end)
