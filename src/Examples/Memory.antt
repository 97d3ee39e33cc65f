-- ===== src/Examples/Memory.antt =====
-- Pages and mappings of the small machine.
use challenge.Base.{◌≡◌, refl, none, some, [], ◌∷◌, arith}
use challenge.Base.Run.{ok}
use challenge.Pmap.Pages.{Pmap, page_free}
use challenge.Pmap.FreeList.Alloc.{IsFreeList, Allocated}
use challenge.Pmap.FreeList.Free.{page_free-alloc}
use challenge.Pmap.Mapping.Edit.{Mapped}
use challenge.Pmap.Mapping.Insert.{Inserted, Recounted, page_insert-replaced}
use challenge.Pmap.Access.{user_mem_check}
use challenge.Pmap.Access.Check.{Checked, user_mem_check_lem, user_mem_check_wraps}
use challenge.Examples.{machine, machine-IsFreeList, machine-TablesInMemory}

page_free-alloc_example :
    (pm' pm'' : Pmap) × (page_free 20 machine ≡ ok tt pm')
    × IsFreeList pm' (20 ∷ 10 ∷ 11 ∷ 12 ∷ [])
    × Allocated 0 pm' 20 (10 ∷ 11 ∷ 12 ∷ []) pm''
page_free-alloc_example =
    page_free-alloc 0 machine 20 (10 ∷ 11 ∷ 12 ∷ []) machine-IsFreeList (record {
      below = omega arith;
      away = (omega arith, (omega arith, (omega arith, tt)));
      unreferenced = refl;
      unlinked = refl;
    })

stack-Mapped : Mapped machine 2 0xeebf_f000 3 5
stack-Mapped = record {
  table = record { present = refl; entry = refl; below = omega arith; apart = omega arith };
  present = refl;
  page = refl;
  below = omega arith;
}

page_insert-replaced_example :
    (pm' : Pmap) × Inserted (some (some 2)) 2 0xeebf_f000 3 20 7 machine pm'
    × Recounted 20 5 machine pm'
page_insert-replaced_example =
    page_insert-replaced (some (some 2)) 20 7 stack-Mapped (omega arith) (omega arith) (omega arith)
      refl

user_mem_check_lem_example :
    Checked
      (user_mem_check 2 0xeebf_fff0 8 6 machine)
      machine
      2
      0xeebf_fff0
      6
      0xeebf_f000
      0xeec0_0000
user_mem_check_lem_example =
    user_mem_check_lem machine 2 0xeebf_fff0 8 6 machine-TablesInMemory (omega arith)

user_mem_check_wraps_example : user_mem_check 2 0xffff_fff0 0x20 6 machine ≡ ok none machine
user_mem_check_wraps_example =
    user_mem_check_wraps machine 2 0xffff_fff0 0x20 6 (omega arith) (omega arith) (omega arith)
