-- ===== src/PageWalk/Spec.antt =====
-- The translation that an x86-64 processor makes, written apart from the code: by recursion on the
-- levels, over physical memory, with division and remainder for the fields of an entry.
use yu.Prelude.{
  ℕ, zero, suc, ◌+◌, ◌-◌, ◌*◌, ◌/◌, ◌%◌, ◌^◌, Bool, ◌&&◌, Option, none, some, ◌==◌, ltb,
  if◌then◌else◌,
}

-- A mapping: its level (0 for 4K, 1 for 2M, 2 for 1G), the physical address of its first byte,
-- and its PAT bit, which lies at bit 12 of the entry of a large page.
pub record Leaf : Type 0 where
  pub level : ℕ
  pub frame : ℕ
  pub pat : ℕ

abbrev pub leaf : ℕ → ℕ → ℕ → Leaf
leaf l f p = record { level = l; frame = f; pat = p }

-- The index into the table of a level, and the first bit above the offset of a page there.
abbrev pub shift : ℕ → ℕ
shift level = 9 * level + 12

abbrev pub index : ℕ → ℕ → ℕ
index level vaddr = vaddr / 2 ^ shift level % 512

-- Bits 12 to 51 of an entry, as an address.
abbrev pub frame_of : ℕ → ℕ
frame_of e = e / 2 ^ 12 % 2 ^ 40 * 2 ^ 12

abbrev pub is_present : ℕ → Bool
is_present e = e % 2 == 1

abbrev pub is_large : ℕ → Bool
is_large e = e / 2 ^ 7 % 2 == 1

-- A large page: the bits between the PAT bit and the frame are reserved, and must be 0.
unfoldable pub large_leaf : ℕ → ℕ → Option Leaf
large_leaf level e =
    if frame_of e / 2 ^ 13 % 2 ^ (9 * level - 1) == 0
    then some
        (leaf level (frame_of e / 2 ^ shift level * 2 ^ shift level) (frame_of e / 2 ^ 12 % 2))
    else none

-- What an entry of a level maps; `next` resolves in the table that it points to.
unfoldable pub resolve_entry : ℕ → ℕ → (ℕ → Option Leaf) → Option Leaf
resolve_entry zero e next = if is_present e then some (leaf 0 (frame_of e) 0) else none
resolve_entry (suc l) e next =
    if is_present e
    then if is_large e && ltb l 2 then large_leaf (suc l) e else next (frame_of e)
    else none

-- `none` where the address is not mapped.
unfoldable pub resolve : (ℕ → Option ℕ) → ℕ → ℕ → ℕ → Option Leaf
resolve phys zero vaddr table = elim (phys (table + 8 * index 0 vaddr)) [
  | none ↦ none
  | some e ↦ resolve_entry 0 e (λ t. none)
]
resolve phys (suc l) vaddr table = elim (phys (table + 8 * index (suc l) vaddr)) [
  | none ↦ none
  | some e ↦ resolve_entry (suc l) e (λ t. resolve phys l vaddr t)
]
