-- ===== src/PageWalk/Tests.antt =====
-- The theorems on walk_pg_table.c at a small kernel whose one process maps a 4K and a 2M page.
use yu.Prelude.{
  ◌⊎◌, none, ℕ, ◌+◌, ◌-◌, ◌*◌, ◌^◌, ◌≡◌, ◌↔◌, refl, true, Option, none, some, ◌==◌, ltb,
  if◌then◌else◌, arith,
}
use yu.PageWalk.{Kernel, Task, slot, init_dummy}
use yu.PageWalk.Spec.{index, leaf, large_leaf, resolve_entry, resolve}
use yu.PageWalk.Astray.{Entry, next_load}
use yu.PageWalk.Endings.{Ending, mapping, walk-Ending}
use yu.PageWalk.Walk.{DirectMap, HasRoot, report, Reports, walk-small, walk-huge}
use yu.PageWalk.Content.{loads, content-small}

-- Indices 1, 2, 3 and 4, and offset 16.
abbrev small_address : ℕ
small_address = 2 ^ 39 + 2 * 2 ^ 30 + 3 * 2 ^ 21 + 4 * 2 ^ 12 + 16

-- In the 2M page at index 5 of the same table.
abbrev huge_address : ℕ
huge_address = 2 ^ 39 + 2 * 2 ^ 30 + 5 * 2 ^ 21 + 7 * 2 ^ 12 + 16

abbrev memory : ℕ → Option ℕ
memory a =
    if a == 0x1000 + 8
    then some 0x2003
    else if a == 0x2000 + 16
    then some 0x3003
    else if a == 0x3000 + 24
    then some 0x4003
    else if a == 0x3000 + 40
    then some 0x400083
    else if a == 0x4000 + 32
    then some 0x5003
    else if a == 0x5000 + 128
    then some 77
    else if a == 0x400000 + 128
    then some 78
    else none

abbrev base : ℕ
base = 0xffff_8880_0000_0000

abbrev init_task : Task
init_task = record { mm = some (record { pgd = base + 0x1000 }) }

abbrev kernel : Kernel
kernel = record {
  page_offset_base = base;
  find_task = λ pid. if pid == 1 then some init_task else none;
  read = λ a. if ltb a base then none else memory (a - base);
}

kernel-DirectMap : DirectMap kernel memory
kernel-DirectMap a w h = ground arith

kernel-HasRoot : HasRoot kernel 1 0x1000
kernel-HasRoot = refl

small_mapped : resolve memory 3 small_address 0x1000 ≡ some (leaf 0 0x5000 0)
unfolding resolve resolve_entry
small_mapped = refl

huge_mapped : resolve memory 3 huge_address 0x1000 ≡ some (leaf 1 0x400000 0)
unfolding resolve resolve_entry large_leaf
huge_mapped = refl

small_content : kernel.read (slot (base + 0x5000) 16) ≡ some 77
unfolding slot
small_content = refl

huge_content : kernel.read (slot (base + 0x400000) 16) ≡ some 78
unfolding slot
huge_content = refl

walk-small_example :
    Reports (init_dummy kernel small_address 1) 5 (base + 0x5000) 16 (slot (base + 0x5000) 16) 77
walk-small_example =
    walk-small kernel memory kernel-DirectMap small_address 1 0x1000 kernel-HasRoot 0x5000 0 77
      small_mapped small_content

walk-huge_example :
    Reports
      (init_dummy kernel huge_address 1)
      0x400
      (base + 0x400000)
      (7 * 2 ^ 12 + 16)
      (slot (base + 0x400000) 16)
      78
walk-huge_example =
    walk-huge kernel memory kernel-DirectMap huge_address 1 0x1000 kernel-HasRoot 0x400000 0 78
      huge_mapped huge_content

content_loaded :
    ((report (init_dummy kernel small_address 1).calls).loaded ≡ some (base + 0x5010))
    ↔ (◌≡◌ {A = ℕ} 16 0)
content_loaded =
    content-small kernel memory kernel-DirectMap small_address 1 0x1000 kernel-HasRoot 0x5000 0 77
      small_mapped small_content

-- The same address in a 1G page: the entry at index 2 of the second table is large.
abbrev giant_memory : ℕ → Option ℕ
giant_memory a = if a == 0x2000 + 16 then some 0x40000083 else memory a

abbrev giant_kernel : Kernel
giant_kernel = record kernel { read = λ a. if ltb a base then none else giant_memory (a - base) }

giant_kernel-DirectMap : DirectMap giant_kernel giant_memory
giant_kernel-DirectMap a w h = ground arith

walk-Ending_example :
    (giant_memory (0x1000 + 8 * index 3 small_address) ≡ none)
    ⊎ ((l : ℕ) × (e : ℕ) × Entry giant_memory small_address 0x1000 l e
        × (x : Ending giant_memory small_address l e) × (resolve giant_memory 3 small_address 0x1000
            ≡ mapping x)
        × (loads
              (next_load giant_kernel small_address l e)
              (init_dummy giant_kernel small_address 1).calls
            ≡ true))
walk-Ending_example =
    walk-Ending giant_kernel giant_memory giant_kernel-DirectMap small_address 1 0x1000 refl
