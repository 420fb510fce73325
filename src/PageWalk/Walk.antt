-- ===== src/PageWalk/Walk.antt =====
-- The walk of walk_pg_table.c against the translation of `PageWalk.Spec`.
mod Inversion
use Inversion.{Steps, resolve-small, resolve-huge}
use yu.Prelude.{
  ℕ, ◌+◌, ◌*◌, ◌/◌, ◌%◌, ◌^◌, ◌<◌, ◌≤◌, ◌≡◌, ◌↔◌, refl, sym, ap, ◌∙◌, bit_and, Option, none, some,
  true, false, List, [], ◌∷◌, arith,
}
use yu.Prelude.Int.{ℤ, pos}
use yu.Prelude.Trace.{Run, done, fault, run}
use yu.PageWalk.{
  Kernel, Task, Mm, Event, get_pid_task, load, say_vaddr, say_pgd, say_page_offset, say_pgd_table,
  say_pgd_index, say_pud_table, say_pud_index, say_pmd_table, say_pmd_index, say_pte_table,
  say_pte_index, say_huge, say_pfn, say_page, say_offset, say_content, slot, target, attribute,
  is_huge_entry, pgd_index, pud_index, pmd_index, pte_index, page_offset, entry_pfn, init_dummy,
}
use yu.Prelude.Bits.{bit_and_mask}
use yu.PageWalk.Spec.{Leaf, leaf, index, frame_of, is_large, resolve}
use yu.PageWalk.Fields.{
  pgd_index_lem, pud_index_lem, pmd_index_lem, pte_index_lem, page_offset_lem, entry_pfn_lem,
  target_lem, is_huge_entry-attribute,
}

-- The kernel maps the physical memory `phys` from `page_offset_base` on.
abbrev pub DirectMap : Kernel → (ℕ → Option ℕ) → Type 0
DirectMap k phys = (a w : ℕ) → phys a ≡ some w → k.read ((k.page_offset_base + a) % 2 ^ 64) ≡ some w

-- The process `pid` has its page table at the physical address `root`.
abbrev pub HasRoot : Kernel → ℕ → ℕ → Type 0
HasRoot k pid root =
    k.find_task pid
    ≡ some (record { mm = some (record { pgd = (k.page_offset_base + root) % 2 ^ 64 }) })

-- What the lines of a run say last of the page and of its content, and the address that it loads
-- last.
pub record Report : Type 0 where
  pub pfn : Option ℕ
  pub page : Option ℕ
  pub offset : Option ℕ
  pub loaded : Option ℕ
  pub content : Option ℕ

abbrev nothing : Report
nothing = record { pfn = none; page = none; offset = none; loaded = none; content = none }

abbrev note : Report → Event → Report
note r (say_pfn n) = record r { pfn = some n }
note r (say_page n) = record r { page = some n }
note r (say_offset n) = record r { offset = some n }
note r (load a) = record r { loaded = some a }
note r (say_content n) = record r { content = some n }
note r _ = r

abbrev report_from : Report → List Event → Report
report_from r [] = r
report_from r (e ∷ es) = report_from (note r e) es

abbrev pub report : List Event → Report
report es = report_from nothing es

slot-target :
    (k : Kernel) (e i : ℕ)
    → slot (target k e) i ≡ (k.page_offset_base + (frame_of e + 8 * i)) % 2 ^ 64
unfolding slot
slot-target k e i = omega (arith, target_lem k e)

slot_root : (b r i : ℕ) → slot ((b + r) % 2 ^ 64) i ≡ (b + (r + 8 * i)) % 2 ^ 64
unfolding slot
slot_root b r i = omega arith

module _ (k : Kernel) (phys : ℕ → Option ℕ) (mapped : DirectMap k phys) where
  pub read_root :
      (v root : ℕ) {w : ℕ}
      → phys (root + 8 * index 3 v) ≡ some w
      → k.read (slot ((k.page_offset_base + root) % 2 ^ 64) (pgd_index v)) ≡ some w
  read_root v root h =
      rw (slot_root k.page_offset_base root (pgd_index v), pgd_index_lem v) (mapped _ _ h)

  pub read_pud :
      (v e : ℕ) {w : ℕ}
      → phys (frame_of e + 8 * index 2 v) ≡ some w
      → k.read (slot (target k e) (pud_index v)) ≡ some w
  read_pud v e h = rw (slot-target k e (pud_index v), pud_index_lem v) (mapped _ _ h)

  pub read_pmd :
      (v e : ℕ) {w : ℕ}
      → phys (frame_of e + 8 * index 1 v) ≡ some w
      → k.read (slot (target k e) (pmd_index v)) ≡ some w
  read_pmd v e h = rw (slot-target k e (pmd_index v), pmd_index_lem v) (mapped _ _ h)

  pub read_pte :
      (v e : ℕ) {w : ℕ}
      → phys (frame_of e + 8 * index 0 v) ≡ some w
      → k.read (slot (target k e) (pte_index v)) ≡ some w
  read_pte v e h = rw (slot-target k e (pte_index v), pte_index_lem v) (mapped _ _ h)

-- A run that ends with 0, says of the page and of the content what is given, and loads the content
-- from `loaded`.
pub record Reports (r : Run Event ℤ) (pfn page offset loaded content : ℕ) : Type 0 where
  pub ended : r.outcome ≡ done (pos 0)
  pub lines : report r.calls ≡ record {
    pfn = some pfn;
    page = some page;
    offset = some offset;
    loaded = some loaded;
    content = some content;
  }

module _ (k : Kernel) (phys : ℕ → Option ℕ) (mapped : DirectMap k phys) (v pid root : ℕ)
    (rooted : HasRoot k pid root) where
  -- The kernel maps the physical memory from `page_offset_base` on and finds the process, whose
  -- page table is at `root`. For an address that the processor maps by a 4K page, where the word at
  -- eight times the offset in the page can be read, the module ends with 0, reports the page frame
  -- number, the address of the page and the offset, and reports that word as the content.
  pub walk-small :
      (f p c : ℕ)
      → resolve phys 3 v root ≡ some (leaf 0 f p)
      → k.read (slot ((k.page_offset_base + f) % 2 ^ 64) (v % 2 ^ 12)) ≡ some c
      → Reports
          (init_dummy k v pid)
          (f / 2 ^ 12)
          ((k.page_offset_base + f) % 2 ^ 64)
          (v % 2 ^ 12)
          (slot ((k.page_offset_base + f) % 2 ^ 64) (v % 2 ^ 12))
          c
  unfolding init_dummy
  walk-small f p c h content =
      let (s, small, e, at0, fe) = resolve-small phys v root f p h in
      let page : target k e ≡ (k.page_offset_base + f) % 2 ^ 64 = omega (arith, target_lem k e) in
      let pfn : entry_pfn e ≡ f / 2 ^ 12 = omega (arith, entry_pfn_lem e) in
      rw
        (
          rooted,
          read_root k phys mapped v root s.at_pgd,
          read_pud k phys mapped v s.pgd_entry s.at_pud,
          read_pmd k phys mapped v s.pud_entry s.at_pmd,
          is_huge_entry-attribute s.pmd_entry,
          small,
          read_pte k phys mapped v s.pmd_entry at0,
          page,
          pfn,
          page_offset_lem v,
          content,
        )
        (record { ended = refl; lines = refl })

  -- The kernel maps the physical memory from `page_offset_base` on and finds the process, whose
  -- page table is at `root`. For an address that the processor maps by a 2M page, where the word at
  -- eight times twelve bits of the offset, from the page with the PAT bit of the entry left in, can
  -- be read, the module ends with 0, reports the frame and the address of the page, both with that
  -- bit left in, and the 21 bits of offset, and reports that word as the content.
  pub walk-huge :
      (f p c : ℕ)
      → resolve phys 3 v root ≡ some (leaf 1 f p)
      → k.read (slot ((k.page_offset_base + f + 4096 * p) % 2 ^ 64) (v % 2 ^ 12)) ≡ some c
      → Reports
          (init_dummy k v pid)
          (f / 2 ^ 12 + p)
          ((k.page_offset_base + f + 4096 * p) % 2 ^ 64)
          (v % 2 ^ 21)
          (slot ((k.page_offset_base + f + 4096 * p) % 2 ^ 64) (v % 2 ^ 12))
          c
  unfolding init_dummy
  walk-huge f p c h content =
      let (s, large, fe) = resolve-huge phys v root f p h in
      let e = s.pmd_entry in
      let page : target k e ≡ (k.page_offset_base + f + 4096 * p) % 2 ^ 64 =
        omega (arith, target_lem k e) in
      let pfn : entry_pfn e ≡ f / 2 ^ 12 + p = omega (arith, entry_pfn_lem e) in
      rw
        (
          rooted,
          read_root k phys mapped v root s.at_pgd,
          read_pud k phys mapped v s.pgd_entry s.at_pud,
          read_pmd k phys mapped v s.pud_entry s.at_pmd,
          is_huge_entry-attribute e,
          large,
          page,
          pfn,
          page_offset_lem v,
          bit_and_mask 21 v,
          content,
        )
        (record { ended = refl; lines = refl })
