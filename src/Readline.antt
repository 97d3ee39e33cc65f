-- ===== src/Readline.antt =====
-- lib/readline.c. The values that `getchar` returns are a list of 32-bit integers; the prompt is left out.
pub mod Edited
use challenge.Base.{
  ℕ, ◌+◌, ◌-◌, ◌%◌, ◌^◌, Bool, true, false, ◌&&◌, ◌||◌, List, [], ◌∷◌, ◌++◌, ◌==◌, leb, ltb,
  if◌then◌else◌, update,
}

abbrev pub buflen : ℕ
buflen = 1024

-- `i`, `buf`, and what went to `cputchar`.
pub record Line : Type 0 where
  pub i : ℕ
  pub buf : ℕ → ℕ  -- char
  pub echoed : List ℕ

-- The line, NULL after an error, or a call that still waits for input.
pub data Reading : Type 0 where
  got_line : Line → Reading
  read_error : Line → Reading
  waiting : Line → Reading

abbrev pub echo : Bool → ℕ → Line → Line
echo echoing c s = if echoing then record s { echoed = s.echoed ++ c ∷ [] } else s

-- The two branches that edit the line, for `c` that does not end it.
edit : Bool → ℕ → Line → Line
edit echoing c s =
    if (c == 0x08 || c == 0x7F) && ltb 0 s.i
    then (let t = echo echoing 0x08 s in record t { i = t.i - 1 })
    else if leb 0x20 c && ltb s.i (buflen - 1)
    then (let t = echo echoing c s in record t { buf = update t.buf t.i (c % 2 ^ 8); i = t.i + 1 })
    else s

end_line : Bool → Line → Line
end_line echoing s = let t = echo echoing 0x0A s in record t { buf = update t.buf t.i 0 }

read_loop : Bool → List ℕ → Line → Reading
unfolding edit end_line
read_loop echoing [] s = waiting s
read_loop echoing (c ∷ cs) s =
    let more = read_loop echoing cs (edit echoing c s) in
    if leb (2 ^ 31) c
    then read_error s
    else if c == 0x0A || c == 0x0D
    then got_line (end_line echoing s)
    else more

unfoldable pub readline : Bool → List ℕ → (ℕ → ℕ) → Reading
unfolding read_loop
readline echoing input buf = read_loop echoing input (record { i = 0; buf = buf; echoed = [] })
