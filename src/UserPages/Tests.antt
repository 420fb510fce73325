-- ===== src/UserPages/Tests.antt =====
-- The two programs and the module at a small kernel: process 7 maps a 4K page.
use yu.Prelude.{ℕ, ◌+◌, ◌-◌, ◌*◌, ◌^◌, refl, Option, none, some, ◌==◌, ltb, if◌then◌else◌, arith}
use yu.PageWalk.{Kernel, Task}
use yu.PageWalk.Spec.{resolve_entry, resolve}
use yu.PageWalk.Walk.{DirectMap}
use yu.UserPages.{Answers, userpage_main}
use yu.UserPages.Walked.{Shows, Confirmed, Resident, stored, printed, userpage_main-walked}

abbrev memory : ℕ → Option ℕ
memory a =
    if a == 0x1000 + 8
    then some 0x2003
    else if a == 0x2000 + 16
    then some 0x3003
    else if a == 0x3000 + 24
    then some 0x4003
    else if a == 0x4000 + 32
    then some 0x5003
    else if a == 0x5000
    then some 0xbeaf_beaf_beaf_beaf
    else none

abbrev base : ℕ
base = 0xffff_8880_0000_0000

abbrev task : Task
task = record { mm = some (record { pgd = base + 0x1000 }) }

abbrev kernel : Kernel
kernel = record {
  page_offset_base = base;
  find_task = λ pid. if pid == 7 then some task else none;
  read = λ a. if ltb a base then none else memory (a - base);
}

kernel-DirectMap : DirectMap kernel memory
kernel-DirectMap a w h = ground arith

abbrev small : Answers
small = record { mmap_returns = 2 ^ 39 + 2 * 2 ^ 30 + 3 * 2 ^ 21 + 4 * 2 ^ 12; getpid_returns = 7 }

small-Resident : Resident memory 0x1000 0 (stored (userpage_main small).calls)
unfolding userpage_main resolve resolve_entry
small-Resident = ((0x5000, refl, refl), tt)

userpage_main-walked_example :
    Shows (userpage_main small) 7 small.mmap_returns 0xbeaf_beaf_beaf_beaf
    × Confirmed kernel (printed (userpage_main small).calls)
userpage_main-walked_example =
    userpage_main-walked kernel memory kernel-DirectMap 0x1000 small (ground arith) refl refl
      small-Resident
