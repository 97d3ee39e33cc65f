-- ===== src/Env/Load/Store.antt =====
-- kern/env.c: a store of one byte by `load_icode`'s `memset` and `memcpy`.
use challenge.Base.{
  ℕ, ◌/◌, ◌%◌, ◌^◌, ◌<◌, ◌≤◌, ◌≡◌, ◌≢◌, refl, sym, ◌∙◌, ap, true, false, arith, bit_and, ◌==◌, inl,
  ◌⊎◌, write_other, write_same,
}
use challenge.Base.Run.{ok}
use challenge.Mmu.{pgsize, pgnum, pdx, ptx, pte_w}
use challenge.Pmap.Pages.{Pmap, write_word}
use challenge.Pmap.Tables.{is_present}
use challenge.Pmap.Access.Check.{table_of}
use challenge.Env.Load.{set_byte, store_byte}
use challenge.Env.Load.Word.{byte_in, byte_in-set_byte_same, byte_in-other}

-- The page table entry for `a`, its page, and the place of the word of `a` in the page
abbrev pub entry_for : Pmap → ℕ → ℕ → ℕ
entry_for pm pgdir a = pm.mem (table_of pm pgdir a) (ptx a)

abbrev pub page_of : Pmap → ℕ → ℕ → ℕ
page_of pm pgdir a = pgnum (entry_for pm pgdir a)

abbrev pub word_of : ℕ → ℕ
word_of a = a / 4 % 2 ^ 10

-- The byte at the address `a`
abbrev pub byte_at : Pmap → ℕ → ℕ → ℕ
byte_at pm pgdir a = byte_in (pm.mem (page_of pm pgdir a) (word_of a)) (a % 4)

-- The addresses from `lo` to below `hi` are mapped writable, each page to its own page of memory, which is neither
-- the page directory nor a page table for them.
pub record Writable (pm : Pmap) (pgdir lo hi : ℕ) : Type 0 where
  pub limit : hi ≤ 2 ^ 32
  pub directory : (a : ℕ) → lo ≤ a → a < hi → is_present (pm.mem pgdir (pdx a)) ≡ true
  pub present : (a : ℕ) → lo ≤ a → a < hi → is_present (entry_for pm pgdir a) ≡ true
  pub writes : (a : ℕ) → lo ≤ a → a < hi → (bit_and (entry_for pm pgdir a) pte_w == 0) ≡ false
  pub not_dir : (a : ℕ) → lo ≤ a → a < hi → page_of pm pgdir a ≢ pgdir
  pub not_table :
      (a b : ℕ) → lo ≤ a → a < hi → lo ≤ b → b < hi → page_of pm pgdir a ≢ table_of pm pgdir b
  pub own :
      (a b : ℕ)
      → lo ≤ a
      → a < hi
      → lo ≤ b
      → b < hi
      → page_of pm pgdir a ≡ page_of pm pgdir b
      → a / pgsize ≡ b / pgsize

-- Memory after a store of `x` at `a`
abbrev pub stored : Pmap → ℕ → ℕ → ℕ → Pmap
stored pm pgdir a x =
    write_word (page_of pm pgdir a) (word_of a)
      (set_byte (pm.mem (page_of pm pgdir a) (word_of a)) (a % 4) x) pm

pub store_byte-stored :
    (pm : Pmap) (pgdir lo hi a x : ℕ)
    → Writable pm pgdir lo hi
    → lo ≤ a
    → a < hi
    → store_byte pgdir a x pm ≡ ok tt (stored pm pgdir a x)
unfolding store_byte
store_byte-stored pm pgdir lo hi a x w le lt =
    rw (w.directory a le lt, w.present a le lt, w.writes a le lt) refl

module _ (pm : Pmap) (pgdir lo hi a x : ℕ) (w : Writable pm pgdir lo hi) (le : lo ≤ a)
    (lt : a < hi) where
  abbrev pm1 : Pmap
  pm1 = stored pm pgdir a x

  same_word : (g j : ℕ) → (g ≢ page_of pm pgdir a) ⊎ (j ≢ word_of a) → pm1.mem g j ≡ pm.mem g j
  same_word g j o = write_other pm.mem (page_of pm pgdir a) (word_of a) _ g j o

  same_table : (b : ℕ) → pm1.mem pgdir (pdx b) ≡ pm.mem pgdir (pdx b)
  same_table b = same_word pgdir (pdx b) (inl (λ e. w.not_dir a le lt (sym e)))

  pub same_entry : (b : ℕ) → lo ≤ b → b < hi → entry_for pm1 pgdir b ≡ entry_for pm pgdir b
  same_entry b le' lt' =
      ap (λ e. pm1.mem (pgnum e) (ptx b)) (same_table b)
      ∙ same_word (table_of pm pgdir b) (ptx b) (inl (λ e. w.not_table a b le lt le' lt' (sym e)))

  pub stored-Writable : Writable pm1 pgdir lo hi
  stored-Writable = record {
    limit = w.limit;
    directory = λ b le' lt'. ap is_present (same_table b) ∙ w.directory b le' lt';
    present = λ b le' lt'. ap is_present (same_entry b le' lt') ∙ w.present b le' lt';
    writes =
        λ b le' lt'. ap (λ e. bit_and e pte_w == 0) (same_entry b le' lt') ∙ w.writes b le' lt';
    not_dir = λ b le' lt' e. w.not_dir b le' lt' (sym (ap pgnum (same_entry b le' lt')) ∙ e);
    not_table = λ b c le' lt' le2 lt2 e.
        w.not_table b c le' lt' le2 lt2
          (sym (ap pgnum (same_entry b le' lt')) ∙ e ∙ ap pgnum (same_table c));
    own = λ b c le' lt' le2 lt2 e.
        w.own b c le' lt' le2 lt2
          (sym (ap pgnum (same_entry b le' lt')) ∙ e ∙ ap pgnum (same_entry c le2 lt2));
  }

  -- The byte at `a` is `x`.
  pub stored_here : x < 2 ^ 8 → byte_at pm1 pgdir a ≡ x
  stored_here below =
      ap (λ e. byte_in (pm1.mem (pgnum e) (word_of a)) (a % 4)) (same_entry a le lt)
      ∙ ap (λ v. byte_in v (a % 4)) (write_same pm.mem (page_of pm pgdir a) (word_of a) _)
      ∙ byte_in-set_byte_same (pm.mem (page_of pm pgdir a) (word_of a)) (a % 4) x (omega arith)
          below

  -- The other bytes of the region are as they were.
  pub stored_there :
      (b : ℕ) → x < 2 ^ 8 → lo ≤ b → b < hi → b ≢ a → byte_at pm1 pgdir b ≡ byte_at pm pgdir b
  stored_there b below le' lt' ne =
      ap (λ e. byte_in (pm1.mem (pgnum e) (word_of b)) (b % 4)) (same_entry b le' lt')
      ∙ byte_in-other pm.mem (page_of pm pgdir a) (word_of a) (a % 4) x (page_of pm pgdir b)
          (word_of b) (b % 4) (omega arith) (omega arith) below
          (λ e e' q. ne (omega (arith, w.own b a le' lt' le lt e, e', q)))

  -- Pages that the region is not mapped to are as they were.
  pub stored_elsewhere : (g j : ℕ) → g ≢ page_of pm pgdir a → pm1.mem g j ≡ pm.mem g j
  stored_elsewhere g j ne = same_word g j (inl ne)
