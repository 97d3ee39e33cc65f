-- ===== src/Kdebug.antt =====
-- kern/kdebug.c: the search of the table of stabs.
--
-- An index of the table is kept plus one, so that the right end -1 of an empty region is 0: the entry
-- `stabs[i]` is `stabs (i + 1)`. The left end of a region that is searched is 0 or more in the code.
-- The loop has fuel, and `none` says that it ran out.
mod Backward
pub mod Round
pub mod Search
use challenge.Base.{
  ℕ, zero, suc, ◌+◌, ◌-◌, ◌/◌, Bool, true, false, not, ◌&&◌, Option, none, some, ◌==◌, leb, ltb,
  if◌then◌else◌,
}
use challenge.Mmu.{word}

pub record Stab : Type 0 where
  pub n_strx : ℕ
  pub n_type : ℕ
  pub n_other : ℕ
  pub n_desc : ℕ
  pub n_value : ℕ

-- The variables `l`, `r`, `any_matches` and `addr`, and `*region_left` and `*region_right`.
pub record Binsearch : Type 0 where
  pub l : ℕ
  pub r : ℕ
  pub any_matches : Bool
  pub addr : ℕ
  pub left : ℕ
  pub right : ℕ

module _ (stabs : ℕ → Stab) (type : ℕ) where
  -- `while (m >= low && stabs[m].n_type != type) m--`
  unfoldable pub down_to : ℕ → ℕ → ℕ
  down_to low zero = zero
  down_to low (suc m) =
      if leb low (suc m) && not ((stabs (suc m)).n_type == type) then down_to low m else suc m

  -- One round of the loop
  unfoldable pub narrow : Binsearch → Binsearch
  unfolding down_to
  narrow s =
      let true_m = (s.l + s.r) / 2 in
      let m = down_to s.l true_m in
      if ltb m s.l
      then record s { l = true_m + 1 }
      else if ltb (stabs m).n_value s.addr
      then record s { any_matches = true; left = m; l = true_m + 1 }
      else if ltb s.addr (stabs m).n_value
      then record s { any_matches = true; right = m - 1; r = m - 1 }
      else record s { any_matches = true; left = m; l = m; addr = word (s.addr + 1) }

  pub search_loop : ℕ → Binsearch → Option Binsearch
  unfolding narrow
  search_loop zero s = none
  search_loop (suc f) s =
      let rest = search_loop f (narrow s) in if ltb s.r s.l then some s else rest

  -- The region stored through `region_left` and `region_right`; the last loop looks backwards too.
  pub store_region : Binsearch → ℕ × ℕ
  unfolding down_to
  store_region s =
      if not s.any_matches then (s.left, s.left - 1) else (down_to (s.left + 1) s.right, s.right)

  -- after the loop
  after_loop : Option Binsearch → Option (ℕ × ℕ)
  unfolding store_region
  after_loop none = none
  after_loop (some s) = some (store_region s)

  unfoldable pub stab_binsearch : ℕ → ℕ → ℕ → ℕ → Option (ℕ × ℕ)
  unfolding search_loop after_loop
  stab_binsearch f left right addr = after_loop (
      search_loop f (record {
        l = left;
        r = right;
        any_matches = false;
        addr = addr;
        left = left;
        right = right;
      }))
