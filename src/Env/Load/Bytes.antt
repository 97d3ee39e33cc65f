-- ===== src/Env/Load/Bytes.antt =====
-- kern/env.c: the bytes of a segment that `load_icode` leaves in memory.
use challenge.Base.{
  ℕ, zero, suc, ◌+◌, ◌-◌, ◌^◌, ◌<◌, ◌≤◌, ◌≡◌, ◌≢◌, refl, sym, ◌∙◌, ap, some, arith, ◌==◌, inl, inr,
  ◌⊎◌, ltb, if◌then◌else◌, Bool-cases, ==_iff,
}
use challenge.Base.Run.{ok}
use challenge.Mmu.{word, pgnum}
use challenge.Pmap.Pages.{Pmap}
use challenge.Env.Load.{Proghdr, store_bytes, fill_segment}
use challenge.Env.Load.Store.{
  entry_for, page_of, byte_at, Writable, stored, store_byte-stored, stored-Writable, same_entry,
  stored_here, stored_there, stored_elsewhere,
}

-- Of the region from `lo` to `hi`, the bytes from `va` to below `va + n` are those of `src` from `i` on, and the others
-- are as they were in `pm`; so are the mappings, and all memory that the region is not mapped to.
pub record Filled (pm : Pmap) (pgdir lo hi va : ℕ) (src : ℕ → ℕ) (i n : ℕ) (pm' : Pmap)
    : Type 0 where
  pub region : Writable pm' pgdir lo hi
  pub inside : (b : ℕ) → va ≤ b → b < va + n → byte_at pm' pgdir b ≡ src (i + (b - va))
  pub outside :
      (b : ℕ)
      → lo ≤ b
      → b < hi
      → ((b < va) ⊎ (va + n ≤ b))
      → byte_at pm' pgdir b ≡ byte_at pm pgdir b
  pub entries : (b : ℕ) → lo ≤ b → b < hi → entry_for pm' pgdir b ≡ entry_for pm pgdir b
  pub elsewhere :
      (g j : ℕ) → ((b : ℕ) → lo ≤ b → b < hi → g ≢ page_of pm pgdir b) → pm'.mem g j ≡ pm.mem g j
  pub only_memory : pm' ≡ record pm { mem = pm'.mem }

module _ (pgdir lo hi : ℕ) (src : ℕ → ℕ) (bytes : (j : ℕ) → src j < 2 ^ 8) where
  store_bytes-none :
      (pm : Pmap) (va i : ℕ) → Writable pm pgdir lo hi → Filled pm pgdir lo hi va src i 0 pm
  store_bytes-none pm va i w = record {
    region = w;
    inside = λ b le lt. absurd (omega arith);
    outside = λ b le lt o. refl;
    entries = λ b le lt. refl;
    elsewhere = λ g j o. refl;
    only_memory = refl;
  }

  Filled-first :
      (pm pm' : Pmap) (va i n : ℕ)
      → Writable pm pgdir lo hi
      → lo ≤ va
      → va < hi
      → va + suc n ≤ hi
      → Filled (stored pm pgdir va (src i)) pgdir lo hi (va + 1) src (i + 1) n pm'
      → Filled pm pgdir lo hi va src i (suc n) pm'
  Filled-first pm pm' va i n w le lt room r =
      let same = same_entry pm pgdir lo hi va (src i) w le lt in
      let first : byte_at pm' pgdir va ≡ src i =
        r.outside va le lt (inl (omega arith))
        ∙ stored_here pm pgdir lo hi va (src i) w le lt (bytes i) in
      record {
        region = r.region;
        inside = λ b le' lt'. elim (Bool-cases (b == va)) [
          | inl y ↦
              let e = (==_iff b va).0 y in
              ap (byte_at pm' pgdir) e
              ∙ first
              ∙ ap src {x = i} {y = i + (b - va)} (omega (arith, e))
          | inr n' ↦
              let later : va + 1 ≤ b = ground arith in
              r.inside b later (omega arith)
              ∙ ap src {x = i + 1 + (b - (va + 1))} {y = i + (b - va)} (omega (arith, later))
        ];
        outside = λ b le' lt' o.
            r.outside b le' lt' (elim o [ inl p ↦ inl (omega arith) | inr p ↦ inr (omega arith) ])
            ∙ stored_there pm pgdir lo hi va (src i) w le lt b (bytes i) le' lt'
                (λ e. elim o [ inl p ↦ omega arith | inr p ↦ omega arith ]);
        entries = λ b le' lt'. r.entries b le' lt' ∙ same b le' lt';
        elsewhere = λ g j away.
            r.elsewhere g j (λ b le' lt' e. away b le' lt' (e ∙ ap pgnum (same b le' lt')))
            ∙ stored_elsewhere pm pgdir lo hi va (src i) w le lt g j (away va le lt);
        only_memory = r.only_memory;
      }

  store_bytes-next :
      (n va i : ℕ) (pm : Pmap)
      → Writable pm pgdir lo hi
      → lo ≤ va
      → va < hi
      → store_bytes pgdir va src i (suc n) pm
        ≡ store_bytes pgdir (va + 1) src (i + 1) n (stored pm pgdir va (src i))
  unfolding store_bytes
  store_bytes-next n va i pm w le lt =
      let here : word va ≡ va = omega (arith, w.limit) in
      rw (here, store_byte-stored pm pgdir lo hi va (src i) w le lt) refl

  store_bytes-Filled :
      (n va i : ℕ) (pm : Pmap)
      → Writable pm pgdir lo hi
      → lo ≤ va
      → va + n ≤ hi
      → (pm' : Pmap) × (store_bytes pgdir va src i n pm ≡ ok tt pm')
        × Filled pm pgdir lo hi va src i n pm'
  unfolding store_bytes
  store_bytes-Filled zero va i pm w le room = (pm, refl, store_bytes-none pm va i w)
  store_bytes-Filled (suc n) va i pm w le room =
      let lt : va < hi = omega arith in
      let (pm', run, r) =
        store_bytes-Filled n (va + 1) (i + 1) (stored pm pgdir va (src i))
          (stored-Writable pm pgdir lo hi va (src i) w le lt) (omega arith) (omega arith) in
      (pm', store_bytes-next n va i pm w le lt ∙ run, Filled-first pm pm' va i n w le lt room r)

-- The byte that a segment has at the address `b`: that of the file, and 0 behind it
abbrev pub segment_byte : (ℕ → ℕ) → Proghdr → ℕ → ℕ
segment_byte binary ph b =
    let i = b - ph.p_va in if ltb i ph.p_filesz then binary (ph.p_offset + i) else 0

abbrev pub HasSegment : Pmap → ℕ → (ℕ → ℕ) → Proghdr → Type 0
HasSegment pm pgdir binary ph =
    (b : ℕ) → ph.p_va ≤ b → b < ph.p_va + ph.p_memsz → byte_at pm pgdir b ≡ segment_byte binary ph b

Filled-HasSegment :
    (pm0 pm1 pm' : Pmap) (pgdir : ℕ) (binary : ℕ → ℕ) (ph : Proghdr)
    → ph.p_filesz ≤ ph.p_memsz
    → Filled pm0 pgdir ph.p_va (ph.p_va + ph.p_memsz) ph.p_va (λ _. 0) 0 ph.p_memsz pm1
    → Filled pm1 pgdir ph.p_va (ph.p_va + ph.p_memsz) ph.p_va binary ph.p_offset ph.p_filesz pm'
    → HasSegment pm' pgdir binary ph
Filled-HasSegment pm0 pm1 pm' pgdir binary ph fits zeros copy b le lt =
    elim (Bool-cases (ltb (b - ph.p_va) ph.p_filesz)) [
      | inl y ↦
          copy.inside b le (ground arith)
          ∙ sym (ap (λ c. if c then binary (ph.p_offset + (b - ph.p_va)) else 0) y)
      | inr n ↦
          copy.outside b le lt (inr (ground arith))
          ∙ zeros.inside b le lt
          ∙ sym (ap (λ c. if c then binary (ph.p_offset + (b - ph.p_va)) else 0) n)
    ]

-- Where a segment's addresses are mapped writable, each page to its own page of memory apart from the page tables,
-- it is loaded without a fault: its bytes are those of the file and zeros behind them, the mappings stay, and
-- only pages that the segment is mapped to change.
pub fill_segment-HasSegment :
    (pm : Pmap) (pgdir : ℕ) (binary : ℕ → ℕ) (ph : Proghdr)
    → ((j : ℕ) → binary j < 2 ^ 8)
    → ph.p_filesz ≤ ph.p_memsz
    → Writable pm pgdir ph.p_va (ph.p_va + ph.p_memsz)
    → (pm' : Pmap) × (fill_segment pgdir binary ph pm ≡ ok (some tt) pm')
      × HasSegment pm' pgdir binary ph
      × Writable pm' pgdir ph.p_va (ph.p_va + ph.p_memsz)
      × ((g j : ℕ)
          → ((b : ℕ) → ph.p_va ≤ b → b < ph.p_va + ph.p_memsz → g ≢ page_of pm pgdir b)
          → pm'.mem g j ≡ pm.mem g j)
      × (pm' ≡ record pm { mem = pm'.mem })
      × ((b : ℕ)
          → ph.p_va ≤ b
          → b < ph.p_va + ph.p_memsz
          → entry_for pm' pgdir b ≡ entry_for pm pgdir b)
unfolding fill_segment
fill_segment-HasSegment pm pgdir binary ph bytes fits w =
    let lo = ph.p_va in
    let hi = ph.p_va + ph.p_memsz in
    let (pm1, run, zeros) =
      store_bytes-Filled pgdir lo hi (λ _. 0) (λ j. omega arith) ph.p_memsz lo 0 pm w (omega arith)
        (omega arith) in
    let (pm', run', copy) =
      store_bytes-Filled pgdir lo hi binary bytes ph.p_filesz lo ph.p_offset pm1 zeros.region
        (omega arith) (omega (arith, fits)) in
    (
      pm',
      rw (run, run') refl,
      Filled-HasSegment pm pm1 pm' pgdir binary ph fits zeros copy,
      copy.region,
      λ g j away.
          copy.elsewhere g j (λ b le lt e. away b le lt (e ∙ ap pgnum (zeros.entries b le lt)))
          ∙ zeros.elsewhere g j away,
      copy.only_memory ∙ ap (λ (q : Pmap). record q { mem = pm'.mem }) zeros.only_memory,
      λ b le lt. copy.entries b le lt ∙ zeros.entries b le lt,
    )
