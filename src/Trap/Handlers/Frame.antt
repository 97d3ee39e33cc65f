-- ===== src/Trap/Handlers/Frame.antt =====
-- Where the handlers of kern/trap.c put the user trap frame, and what their stores leave in memory.
use challenge.Base.{
  ℕ, zero, suc, ◌+◌, ◌-◌, ◌*◌, ◌/◌, ◌%◌, ◌^◌, ◌≤◌, ◌<◌, ◌≡◌, refl, ◌≢◌, ◌∙◌, ap, bit_and, true,
  false, some, List, [], ◌∷◌, arith, ◌==◌, ◌⊎◌, inl, inr, update, length, get_elem?, write_other,
  write_same,
}
use challenge.Base.Run.{ok}
use challenge.Mmu.{pgsize, pgnum, pdx, ptx, pte_w, uxstacktop}
use challenge.Pmap.Pages.{Pmap, write_word}
use challenge.Pmap.Tables.{is_present}
use challenge.Trap.Handlers.{utf_size, utf_address, store_word, store_user}

-- For a stack pointer below the exception stack, or 56 bytes or more above its bottom, the user
-- trap frame lies within the page of the exception stack.
pub utf_address-bounds :
    (esp : ℕ)
    → ((esp < uxstacktop - pgsize) ⊎ (uxstacktop - pgsize + 56 ≤ esp))
    → (uxstacktop - pgsize ≤ utf_address esp) × (utf_address esp + utf_size ≤ uxstacktop)
unfolding utf_address
utf_address-bounds esp (inl h) = (ground arith, ground arith)
utf_address-bounds esp (inr h) = (ground arith, ground arith)

-- The memory with the words `ws` in page `q` from word `i` on.
pub written : ℕ → ℕ → List ℕ → (ℕ → ℕ → ℕ) → ℕ → ℕ → ℕ
written q i [] m = m
written q i (w ∷ ws) m = written q (i + 1) ws (update m q (update (m q) i w))

pub written_other :
    (q i : ℕ) (ws : List ℕ) (m : ℕ → ℕ → ℕ) (g j : ℕ)
    → (g ≢ q) ⊎ ((j < i) ⊎ (i + length ws ≤ j))
    → written q i ws m g j ≡ m g j
unfolding written
written_other q i [] m g j h = refl
written_other q i (w ∷ ws) m g j (inl ne) =
    written_other q (i + 1) ws (update m q (update (m q) i w)) g j (inl ne)
    ∙ write_other m q i w g j (inl ne)
written_other q i (w ∷ ws) m g j (inr (inl lt)) =
    written_other q (i + 1) ws (update m q (update (m q) i w)) g j (inr (inl (omega arith)))
    ∙ write_other m q i w g j (inr (omega arith))
written_other q i (w ∷ ws) m g j (inr (inr le)) =
    written_other q (i + 1) ws (update m q (update (m q) i w)) g j (inr (inr (omega arith)))
    ∙ write_other m q i w g j (inr (omega arith))

pub written_at :
    (q i : ℕ) (ws : List ℕ) (m : ℕ → ℕ → ℕ) (j w : ℕ)
    → get_elem? ws j ≡ some w
    → written q i ws m q (i + j) ≡ w
unfolding written
written_at q i [] m j w h = absurd (cc)
written_at q i (v ∷ ws) m zero w h =
    written_other q (i + 1) ws (update m q (update (m q) i v)) q (i + 0) (inr (inl (omega arith)))
    ∙ ap (update m q (update (m q) i v) q) {x = i + 0} {y = i} (omega arith)
    ∙ write_same m q i v
    ∙ (cc)
written_at q i (v ∷ ws) m (suc j) w h =
    ap (written q (i + 1) ws (update m q (update (m q) i v)) q) (omega arith)
    ∙ written_at q (i + 1) ws (update m q (update (m q) i v)) j w h

-- The page number `n` of user memory is mapped, writable, to the page `q` by the page table `t` of
-- `pgdir`, and is itself neither of the two.
pub record Writable (mem : ℕ → ℕ → ℕ) (pgdir n t q : ℕ) : Type 0 where
  pub directory : is_present (mem pgdir (n / 2 ^ 10 % 2 ^ 10)) ≡ true
  pub table : pgnum (mem pgdir (n / 2 ^ 10 % 2 ^ 10)) ≡ t
  pub present : is_present (mem t (n % 2 ^ 10)) ≡ true
  pub writable : (bit_and (mem t (n % 2 ^ 10)) pte_w == 0) ≡ false
  pub frame : pgnum (mem t (n % 2 ^ 10)) ≡ q
  pub not_directory : pgdir ≢ q
  pub not_table : t ≢ q

write-Writable :
    (m : ℕ → ℕ → ℕ) (pgdir n t q i v : ℕ)
    → Writable m pgdir n t q
    → Writable (update m q (update (m q) i v)) pgdir n t q
write-Writable m pgdir n t q i v h =
    let dir = write_other m q i v pgdir (n / 2 ^ 10 % 2 ^ 10) (inl h.not_directory) in
    let leaf = write_other m q i v t (n % 2 ^ 10) (inl h.not_table) in
    record {
      directory = ap is_present dir ∙ h.directory;
      table = ap pgnum dir ∙ h.table;
      present = ap is_present leaf ∙ h.present;
      writable = ap (λ x. bit_and x pte_w == 0) leaf ∙ h.writable;
      frame = ap pgnum leaf ∙ h.frame;
      not_directory = h.not_directory;
      not_table = h.not_table;
    }

next_word :
    (ws : List ℕ) (q va n : ℕ) (m : ℕ → ℕ → ℕ)
    → n * pgsize ≤ va
    → va + 4 * suc (length ws) ≤ n * pgsize + pgsize
    → written q ((va + 4) / 4 % 2 ^ 10) ws m ≡ written q (va / 4 % 2 ^ 10 + 1) ws m
unfolding written
next_word [] q va n m lo hi = refl
next_word (w ∷ ws) q va n m lo hi = ap (λ i. written q i (w ∷ ws) m) (omega arith)

-- Stores to user memory that stay on one page, which is mapped and writable and is neither the
-- page directory nor the page's table, from a multiple of 4 on, put the words there one after the other
-- and change nothing else.
pub store_user-written :
    (ws : List ℕ) (pgdir n t q va : ℕ) (pm : Pmap)
    → Writable pm.mem pgdir n t q
    → n * pgsize ≤ va
    → va + 4 * length ws ≤ n * pgsize + pgsize
    → va % 4 ≡ 0
    → store_user pgdir va ws pm ≡ ok tt (record pm { mem = written q (va / 4 % 2 ^ 10) ws pm.mem })
unfolding store_user store_word written
store_user-written [] pgdir n t q va pm h lo hi aligned = refl
store_user-written (w ∷ ws) pgdir n t q va pm h lo hi aligned =
    let d : pdx va ≡ n / 2 ^ 10 % 2 ^ 10 = omega arith in
    let x : ptx va ≡ n % 2 ^ 10 = omega arith in
    simp (d, x, aligned, h.directory, h.table, h.present, h.writable, h.frame)
      (store_user-written ws pgdir n t q (va + 4) (write_word q (va / 4 % 2 ^ 10) w pm)
          (write-Writable pm.mem pgdir n t q (va / 4 % 2 ^ 10) w h) (omega arith) (omega arith)
          (omega (arith, aligned))
        ∙ ap (λ m. ok tt (record pm { mem = m }))
            (next_word ws q va n (update pm.mem q (update (pm.mem q) (va / 4 % 2 ^ 10) w)) lo hi))
