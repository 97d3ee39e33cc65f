-- ===== src/Env/Load/Space.antt =====
-- kern/env.c: the address space of the environment while `load_icode` fills it.
use challenge.Base.{
  bit_and, ℕ, ◌+◌, ◌%◌, ◌^◌, ◌<◌, ◌≤◌, ◌≡◌, ◌≢◌, sym, ◌∙◌, ap, Bool, false, true, some, none,
  Option, List, arith, length, All, ◌==◌, ◌&&◌, ◌||◌, leb, ltb,
}
use challenge.Mmu.{pte_w, pgsize, pdx, ptx, pgnum, utop}
use challenge.Pmap.Pages.{Pmap}
use challenge.Pmap.Tables.{is_present}
use challenge.Pmap.FreeList.Alloc.{IsFreeList, Avoids}
use challenge.Pmap.Access.Check.{table_of}
use challenge.Env.Load.{Proghdr, elf_prog_load}
use challenge.Env.Load.Region.{pages_of}
use challenge.Env.Load.Store.{Writable, page_of, byte_at, entry_for, word_of}
use challenge.Env.Load.Word.{byte_in}
use challenge.Env.Load.Bytes.{HasSegment}
use challenge.Env.Load.Pages.{nth, place}
use challenge.Env.Load.Segment.{Extent}

-- The page table of each entry of the directory, if it has one; and which entries of the tables are taken
abbrev pub Tables : Type 0
Tables = ℕ → Option ℕ

abbrev pub Used : Type 0
Used = ℕ → ℕ → Bool

-- The pages of the list `free` are free. The user part of the directory `pgdir` has the tables `tabs`, each its own page
-- of memory, and an entry that is not taken maps nothing.
pub record Space (pm : Pmap) (pgdir : ℕ) (free : List ℕ) (tabs : Tables) (used : Used)
    : Type 0 where
  pub free_list : IsFreeList pm free
  pub off_dir : Avoids pgdir free
  pub missing : (d : ℕ) → d < pdx utop → tabs d ≡ none → is_present (pm.mem pgdir d) ≡ false
  pub present : (d t : ℕ) → tabs d ≡ some t → is_present (pm.mem pgdir d) ≡ true
  pub entry : (d t : ℕ) → tabs d ≡ some t → pgnum (pm.mem pgdir d) ≡ t
  pub below : (d t : ℕ) → tabs d ≡ some t → t < pm.npages
  pub apart : (d t : ℕ) → tabs d ≡ some t → t ≢ pgdir
  pub away : (d t : ℕ) → tabs d ≡ some t → Avoids t free
  pub one : (d d' t : ℕ) → tabs d ≡ some t → tabs d' ≡ some t → d ≡ d'
  pub unmapped : (d t j : ℕ) → tabs d ≡ some t → used d j ≡ false → is_present (pm.mem t j) ≡ false

-- The addresses of the segment lie in the user part, inside one page table, and `x` has as many pages as they touch.
pub record Placed (f : ℕ) (ph : Proghdr) (x : Extent) : Type 0 where
  pub type : ph.p_type ≡ elf_prog_load
  pub fits : ph.p_filesz ≤ ph.p_memsz
  pub some_size : 0 < ph.p_memsz
  pub starts : x.first ≡ ptx ph.p_va
  pub count : length x.pages ≡ pages_of ph.p_va ph.p_memsz
  pub fuel : length x.pages < f
  pub room : x.first + length x.pages ≤ 1024
  pub below : ph.p_va + ph.p_memsz + pgsize < 2 ^ 32
  pub low : pdx ph.p_va < pdx utop

-- The entries of a segment are taken.
abbrev pub mark : ℕ → Extent → Used → Used
mark d0 x used d j = used d j || (d == d0 && (leb x.first j && ltb j (x.first + length x.pages)))

-- A segment is in memory, on pages that are no tables and are not free.
pub record Held (pm : Pmap) (pgdir : ℕ) (free : List ℕ) (tabs : Tables) (used : Used)
    (binary : ℕ → ℕ) (f : ℕ) (ph : Proghdr) (x : Extent) : Type 0 where
  pub placed : Placed f ph x
  pub segment : HasSegment pm pgdir binary ph
  pub writable : Writable pm pgdir ph.p_va (ph.p_va + ph.p_memsz)
  pub tables : (a : ℕ) → ph.p_va ≤ a → a < ph.p_va + ph.p_memsz → table_of pm pgdir a ≡ x.table
  pub own_pages :
      (a : ℕ)
      → ph.p_va ≤ a
      → a < ph.p_va + ph.p_memsz
      → page_of pm pgdir a ≡ nth x.pages (place ph.p_va a)
  pub known : tabs (pdx ph.p_va) ≡ some x.table
  pub marked : (j : ℕ) → x.first ≤ j → j < x.first + length x.pages → used (pdx ph.p_va) j ≡ true
  pub not_free : All (λ p. Avoids p free) x.pages
  pub not_dir : All (λ p. p ≢ pgdir) x.pages
  pub not_table : (d t : ℕ) → tabs d ≡ some t → All (λ p. p ≢ t) x.pages

-- The mappings and the bytes of a segment are those of `pm`, if the words that they stand in are.
module _ (pm pm' : Pmap) (pgdir f : ℕ) (ph : Proghdr) (x : Extent) (placed : Placed f ph x)
    (tables : (a : ℕ) → ph.p_va ≤ a → a < ph.p_va + ph.p_memsz → table_of pm pgdir a ≡ x.table)
    (own_pages : (a : ℕ)
      → ph.p_va ≤ a
      → a < ph.p_va + ph.p_memsz
      → page_of pm pgdir a ≡ nth x.pages (place ph.p_va a))
    (same_dir : pm'.mem pgdir (pdx ph.p_va) ≡ pm.mem pgdir (pdx ph.p_va))
    (same_table : (j : ℕ)
      → x.first ≤ j
      → j < x.first + length x.pages
      → pm'.mem x.table j ≡ pm.mem x.table j)
    (same_pages : (i j : ℕ)
      → i < length x.pages
      → pm'.mem (nth x.pages i) j ≡ pm.mem (nth x.pages i) j)
    (a : ℕ) (le : ph.p_va ≤ a) (lt : a < ph.p_va + ph.p_memsz) where
  one_table : pdx a ≡ pdx ph.p_va
  one_table = omega (arith, placed.starts, placed.count, placed.room)

  from_first : x.first ≤ ptx a
  from_first = omega (arith, placed.starts, placed.count, placed.room)

  to_last : ptx a < x.first + length x.pages
  to_last = omega (arith, placed.starts, placed.count, placed.room)

  page_inside : place ph.p_va a < length x.pages
  page_inside = omega (arith, placed.starts, placed.count, placed.room)

  kept_directory : pm'.mem pgdir (pdx a) ≡ pm.mem pgdir (pdx a)
  kept_directory = ap (pm'.mem pgdir) one_table ∙ same_dir ∙ ap (pm.mem pgdir) (sym one_table)

  pub kept_table : table_of pm' pgdir a ≡ table_of pm pgdir a
  kept_table =
      ap (λ d. pgnum (pm'.mem pgdir d)) one_table
      ∙ ap pgnum same_dir
      ∙ ap (λ d. pgnum (pm.mem pgdir d)) (sym one_table)

  pub kept_entry : entry_for pm' pgdir a ≡ entry_for pm pgdir a
  kept_entry =
      ap (λ g. pm'.mem g (ptx a)) (kept_table ∙ tables a le lt)
      ∙ same_table (ptx a) from_first to_last
      ∙ ap (λ g. pm.mem g (ptx a)) (sym (tables a le lt))

  pub kept_page : page_of pm' pgdir a ≡ page_of pm pgdir a
  kept_page = ap pgnum kept_entry

  pub kept_byte : byte_at pm' pgdir a ≡ byte_at pm pgdir a
  kept_byte =
      ap (λ g. byte_in (pm'.mem g (word_of a)) (a % 4)) (kept_page ∙ own_pages a le lt)
      ∙ ap (λ w. byte_in w (a % 4)) (same_pages (place ph.p_va a) (word_of a) page_inside)
      ∙ ap (λ g. byte_in (pm.mem g (word_of a)) (a % 4)) (sym (own_pages a le lt))

kept_Writable :
    (pm pm' : Pmap) (pgdir f : ℕ) (ph : Proghdr) (x : Extent)
    → Placed f ph x
    → ((a : ℕ) → ph.p_va ≤ a → a < ph.p_va + ph.p_memsz → table_of pm pgdir a ≡ x.table)
    → ((a : ℕ)
        → ph.p_va ≤ a
        → a < ph.p_va + ph.p_memsz
        → page_of pm pgdir a ≡ nth x.pages (place ph.p_va a))
    → pm'.mem pgdir (pdx ph.p_va) ≡ pm.mem pgdir (pdx ph.p_va)
    → ((j : ℕ) → x.first ≤ j → j < x.first + length x.pages → pm'.mem x.table j ≡ pm.mem x.table j)
    → ((i j : ℕ) → i < length x.pages → pm'.mem (nth x.pages i) j ≡ pm.mem (nth x.pages i) j)
    → Writable pm pgdir ph.p_va (ph.p_va + ph.p_memsz)
    → Writable pm' pgdir ph.p_va (ph.p_va + ph.p_memsz)
kept_Writable pm pm' pgdir f ph x placed tables own dir table pages w =
    let same = kept_entry pm pm' pgdir f ph x placed tables own dir table pages in
    let same_table = kept_table pm pm' pgdir f ph x placed tables own dir table pages in
    let same_dir : (a : ℕ)
        → ph.p_va ≤ a
        → a < ph.p_va + ph.p_memsz
        → pm'.mem pgdir (pdx a) ≡ pm.mem pgdir (pdx a) =
      kept_directory pm pm' pgdir f ph x placed tables own dir table pages in
    record {
      limit = w.limit;
      directory = λ a le lt. ap is_present (same_dir a le lt) ∙ w.directory a le lt;
      present = λ a le lt. ap is_present (same a le lt) ∙ w.present a le lt;
      writes = λ a le lt. ap (λ v. bit_and v pte_w == 0) (same a le lt) ∙ w.writes a le lt;
      not_dir = λ a le lt e. w.not_dir a le lt (sym (ap pgnum (same a le lt)) ∙ e);
      not_table = λ a b le lt le' lt' e.
          w.not_table a b le lt le' lt' (sym (ap pgnum (same a le lt)) ∙ e ∙ same_table b le' lt');
      own = λ a b le lt le' lt' e.
          w.own a b le lt le' lt' (sym (ap pgnum (same a le lt)) ∙ e ∙ ap pgnum (same b le' lt'));
    }

pub Held-same :
    (pm pm' : Pmap) (pgdir : ℕ) (free free' : List ℕ) (tabs tabs' : Tables) (used used' : Used)
    (binary : ℕ → ℕ) (f : ℕ) (ph : Proghdr) (x : Extent)
    → Held pm pgdir free tabs used binary f ph x
    → pm'.mem pgdir (pdx ph.p_va) ≡ pm.mem pgdir (pdx ph.p_va)
    → ((j : ℕ) → x.first ≤ j → j < x.first + length x.pages → pm'.mem x.table j ≡ pm.mem x.table j)
    → ((i j : ℕ) → i < length x.pages → pm'.mem (nth x.pages i) j ≡ pm.mem (nth x.pages i) j)
    → tabs' (pdx ph.p_va) ≡ some x.table
    → ((d j : ℕ) → used d j ≡ true → used' d j ≡ true)
    → All (λ p. Avoids p free') x.pages
    → ((d t : ℕ) → tabs' d ≡ some t → All (λ p. p ≢ t) x.pages)
    → Held pm' pgdir free' tabs' used' binary f ph x
Held-same pm pm' pgdir free free' tabs tabs' used used' binary f ph x h dir table pages known more
      not_free not_table =
    record {
      placed = h.placed;
      segment = λ b le lt.
          kept_byte pm pm' pgdir f ph x h.placed h.tables h.own_pages dir table pages b le lt
          ∙ h.segment b le lt;
      writable =
          kept_Writable pm pm' pgdir f ph x h.placed h.tables h.own_pages dir table pages
            h.writable;
      tables = λ b le lt.
          kept_table pm pm' pgdir f ph x h.placed h.tables h.own_pages dir table pages b le lt
          ∙ h.tables b le lt;
      own_pages = λ b le lt.
          kept_page pm pm' pgdir f ph x h.placed h.tables h.own_pages dir table pages b le lt
          ∙ h.own_pages b le lt;
      known = known;
      marked = λ j le lt. more (pdx ph.p_va) j (h.marked j le lt);
      not_free = not_free;
      not_dir = h.not_dir;
      not_table = not_table;
    }
