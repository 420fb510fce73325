-- ===== src/PageWalk/Fields.antt =====
-- The masks and shifts of walk_pg_table.c as the fields of an address and of an entry.
use yu.Prelude.{ℕ, ◌+◌, ◌*◌, ◌/◌, ◌%◌, ◌^◌, ◌<◌, ◌≡◌, ap, ◌∙◌, bit_and, arith}
use yu.Prelude.Bits.{bit_and_mask, bit_and_shift}
use yu.PageWalk.{
  Kernel, is_huge_entry, pgd_index, pud_index, pmd_index, pte_index, page_offset, target, attribute,
  entry_pfn,
}
use yu.PageWalk.Spec.{index, frame_of, is_large}

pub pgd_index_lem : (v : ℕ) → pgd_index v ≡ index 3 v
unfolding pgd_index
pgd_index_lem v = bit_and_mask 9 (v / 2 ^ 39)

pub pud_index_lem : (v : ℕ) → pud_index v ≡ index 2 v
unfolding pud_index
pud_index_lem v = bit_and_mask 9 (v / 2 ^ 30)

pub pmd_index_lem : (v : ℕ) → pmd_index v ≡ index 1 v
unfolding pmd_index
pmd_index_lem v = bit_and_mask 9 (v / 2 ^ 21)

pub pte_index_lem : (v : ℕ) → pte_index v ≡ index 0 v
unfolding pte_index
pte_index_lem v = bit_and_mask 9 (v / 2 ^ 12)

pub page_offset_lem : (v : ℕ) → page_offset v ≡ v % 2 ^ 12
unfolding page_offset
page_offset_lem v = bit_and_mask 12 v

pub entry_pfn_lem : (e : ℕ) → entry_pfn e ≡ e / 2 ^ 12 % 2 ^ 40
unfolding entry_pfn
entry_pfn_lem e = bit_and_mask 40 (e / 2 ^ 12)

frame_mask : (e : ℕ) → bit_and e 0xf_ffff_ffff_f000 ≡ frame_of e
frame_mask e =
    bit_and_shift 12 e 0xff_ffff_ffff ∙ ap (λ t. t * 2 ^ 12) (bit_and_mask 40 (e / 2 ^ 12))

pub target_lem : (k : Kernel) (e : ℕ) → target k e ≡ (k.page_offset_base + frame_of e) % 2 ^ 64
unfolding target
target_lem k e = ap (λ t. (k.page_offset_base + t) % 2 ^ 64) (frame_mask e)

-- Bit 7 of the twelve attribute bits is bit 7 of the entry.
pub is_huge_entry-attribute : (e : ℕ) → is_huge_entry (attribute e) ≡ is_large e
unfolding is_huge_entry attribute
is_huge_entry-attribute e =
    ground (
      arith,
      bit_and_mask 12 e,
      bit_and_shift 7 (e % 2 ^ 12) 1,
      bit_and_mask 1 (e % 2 ^ 12 / 2 ^ 7),
    )

-- The four indices and the offset of a 48-bit address are its digits: put back in their places,
-- they are the address.
pub split_address :
    (v : ℕ)
    → v < 2 ^ 48
    → pgd_index v * 2 ^ 39
        + pud_index v * 2 ^ 30
        + pmd_index v * 2 ^ 21
        + pte_index v * 2 ^ 12
        + page_offset v
      ≡ v
split_address v h =
    omega
      (arith, pgd_index_lem v, pud_index_lem v, pmd_index_lem v, pte_index_lem v, page_offset_lem v)
