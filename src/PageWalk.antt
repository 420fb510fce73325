-- ===== src/PageWalk.antt =====
-- pagetable_walking/walk_pg_table.c: a module that walks the four levels of the page table of a
-- process, from its `pgd`, for one virtual address, and prints what it meets.
pub mod Spec
pub mod Fields
pub mod Walk
pub mod Content
pub mod Astray
pub mod Endings
mod Tests
use yu.Prelude.{
  ℕ, ◌+◌, ◌*◌, ◌/◌, ◌%◌, ◌^◌, bit_and, Bool, not, Option, none, some, ◌==◌, if◌then◌else◌,
}
use yu.Prelude.Int.{ℤ, pos}
use yu.Prelude.Trace.{Run, ◌>>=◌, ◌>>◌, pure, call, ask, oops, run, after, and_then, done, fault}

pub record Mm : Type 0 where
  pub pgd : ℕ

-- A kernel thread has no `mm`.
pub record Task : Type 0 where
  pub mm : Option Mm

-- What the module takes from the running kernel: the start of the direct mapping, the task with a
-- process number, and the `unsigned long` at a virtual address (`none` where an access faults).
pub record Kernel : Type 0 where
  pub page_offset_base : ℕ
  pub find_task : ℕ → Option Task
  pub read : ℕ → Option ℕ

-- What a run does: look the task up, load a word, print a line. The reads of one table entry are
-- one load, since nothing in between writes it.
pub data Event : Type 0 where
  get_pid_task : ℕ → Event
  load : ℕ → Event
  say_vaddr say_pgd say_page_offset : ℕ → Event
  say_pgd_table say_pgd_index say_pud_table say_pud_index : ℕ → Event
  say_pmd_table say_pmd_index say_pte_table say_pte_index : ℕ → Event
  say_huge : Event
  say_pfn say_page say_offset say_content : ℕ → Event

unfoldable pub is_huge_entry : ℕ → Bool
is_huge_entry attr = not (bit_and attr (1 * 2 ^ 7) == 0)

unfoldable pub pgd_index : ℕ → ℕ
pgd_index vaddr = bit_and (vaddr / 2 ^ 39) 0x1ff

unfoldable pub pud_index : ℕ → ℕ
pud_index vaddr = bit_and (vaddr / 2 ^ 30) 0x1ff

unfoldable pub pmd_index : ℕ → ℕ
pmd_index vaddr = bit_and (vaddr / 2 ^ 21) 0x1ff

unfoldable pub pte_index : ℕ → ℕ
pte_index vaddr = bit_and (vaddr / 2 ^ 12) 0x1ff

unfoldable pub page_offset : ℕ → ℕ
page_offset vaddr = bit_and vaddr 0xfff

-- `p + i` for a pointer to an eight-byte word.
unfoldable pub slot : ℕ → ℕ → ℕ
slot p i = (p + 8 * i) % 2 ^ 64

-- `page_offset_base + (e & 0xffffffffff000)`, the virtual address of what an entry points to.
unfoldable pub target : Kernel → ℕ → ℕ
target k e = (k.page_offset_base + bit_and e 0xf_ffff_ffff_f000) % 2 ^ 64

unfoldable pub attribute : ℕ → ℕ
attribute e = bit_and e 0xfff

unfoldable pub entry_pfn : ℕ → ℕ
entry_pfn e = bit_and (e / 2 ^ 12) 0xff_ffff_ffff

deref : {A : Type 0} → Option A → Run Event A
deref none = oops
deref (some a) = pure a

load_word : Kernel → ℕ → Run Event ℕ
unfolding deref
load_word k a = call (load a) >> deref (k.read a)

-- The branch for a 2M page: it prints 21 bits of offset, and reads at 12 bits of it.
huge_page : Kernel → ℕ → ℕ → Run Event ℤ
unfolding load_word target entry_pfn page_offset slot
huge_page k vaddr pmd_entry = do
  call say_huge
  call (say_pfn (entry_pfn pmd_entry))
  call (say_page (target k pmd_entry))
  call (say_offset (bit_and vaddr 0x1fffff))
  content ← load_word k (slot (target k pmd_entry) (page_offset vaddr))
  call (say_content content)
  pure (pos 0)

small_page : Kernel → ℕ → ℕ → Run Event ℤ
unfolding load_word target entry_pfn page_offset slot
small_page k vaddr pte_table = do
  entry ← load_word k (slot pte_table (pte_index vaddr))
  call (say_pfn (entry_pfn entry))
  call (say_page (target k entry))
  call (say_offset (page_offset vaddr))
  content ← load_word k (slot (target k entry) (page_offset vaddr))
  call (say_content content)
  pure (pos 0)

walk_tables : Kernel → ℕ → ℕ → Run Event ℤ
unfolding load_word small_page huge_page target slot
walk_tables k vaddr pgd_table = do
  call (say_pgd_table pgd_table)
  call (say_pgd_index (pgd_index vaddr))
  pgd_entry ← load_word k (slot pgd_table (pgd_index vaddr))
  call (say_pud_table (target k pgd_entry))
  call (say_pud_index (pud_index vaddr))
  pud_entry ← load_word k (slot (target k pgd_entry) (pud_index vaddr))
  call (say_pmd_table (target k pud_entry))
  call (say_pmd_index (pmd_index vaddr))
  pmd_entry ← load_word k (slot (target k pud_entry) (pmd_index vaddr))
  call (say_pte_table (target k pmd_entry))
  call (say_pte_index (pte_index vaddr))
  if is_huge_entry (attribute pmd_entry)
      then huge_page k vaddr pmd_entry
      else small_page k vaddr (target k pmd_entry)

-- `init_dummy` with the module parameters `vaddr` and `pid`. A missing task, and a task with no
-- `mm`, are dereferenced all the same.
pub init_dummy : Kernel → ℕ → ℕ → Run Event ℤ
unfolding deref walk_tables
init_dummy k vaddr pid = do
  task ← ask (get_pid_task pid) (k.find_task pid)
  systemd ← deref task
  mm ← deref systemd.mm
  call (say_vaddr vaddr)
  call (say_pgd mm.pgd)
  call (say_page_offset k.page_offset_base)
  walk_tables k vaddr mm.pgd
