-- ===== src/PageWalk/Astray.antt =====
-- The entries at which a translation ends and the module goes on: an entry that is not present, and
-- the entry of a 1G page.
use yu.Prelude.{
  ℕ, zero, suc, ◌+◌, ◌*◌, ◌≡◌, ◌≤◌, ◌⊎◌, inl, inr, refl, ◌∙◌, true, false, ◌&&◌, ltb, Option, none,
  some, if◌then◌else◌, Option-cases, Bool-cases, arith,
}
use yu.PageWalk.{
  Kernel, slot, target, deref, load_word, small_page, huge_page, pud_index, pmd_index, pte_index,
  page_offset, init_dummy,
}
use yu.PageWalk.Fields.{is_huge_entry-attribute}
use yu.PageWalk.Spec.{
  Leaf, index, frame_of, is_present, is_large, large_leaf, resolve, resolve_entry,
}
use yu.PageWalk.Walk.{DirectMap, HasRoot, read_root, read_pud, read_pmd, read_pte}
use yu.PageWalk.Content.{loads}

-- The entry that the translation of `v` reads at a level, from `root` on.
pub data Entry (phys : ℕ → Option ℕ) (v root : ℕ) : ℕ → ℕ → Type 0 where
  top : {e : ℕ} → phys (root + 8 * index 3 v) ≡ some e → Entry phys v root 3 e
  below :
      {l d e : ℕ}
      → Entry phys v root (suc l) d
      → is_present d ≡ true
      → (is_large d && ltb l 2) ≡ false
      → phys (frame_of d + 8 * index l v) ≡ some e
      → Entry phys v root l e

Entry-le : {phys : ℕ → Option ℕ} {v root l e : ℕ} → Entry phys v root l e → l ≤ 3
Entry-le (top at) = omega arith
Entry-le (below up here small at) = omega (arith, Entry-le up)

-- What the translation makes of an entry.
abbrev pub from_entry : (ℕ → Option ℕ) → ℕ → ℕ → ℕ → Option Leaf
from_entry phys v zero e = resolve_entry 0 e (λ t. none)
from_entry phys v (suc l) e = resolve_entry (suc l) e (λ t. resolve phys l v t)

module _ (phys : ℕ → Option ℕ) (v root : ℕ) where
  resolve_read :
      (l t e : ℕ) → phys (t + 8 * index l v) ≡ some e → resolve phys l v t ≡ from_entry phys v l e
  unfolding resolve
  resolve_read zero t e at = rw (resolve, at) refl
  resolve_read (suc l) t e at = rw (resolve, at) refl

  entry_next :
      (l d : ℕ)
      → is_present d ≡ true
      → (is_large d && ltb l 2) ≡ false
      → from_entry phys v (suc l) d ≡ resolve phys l v (frame_of d)
  unfolding resolve_entry
  entry_next l d here small = rw (here, small) refl

  pub resolve-Entry :
      {l e : ℕ} → Entry phys v root l e → resolve phys 3 v root ≡ from_entry phys v l e
  resolve-Entry (top {e = e} at) = resolve_read 3 root e at
  resolve-Entry (below {l = l} {d = d} {e = e} up here small at) =
      resolve-Entry up ∙ (entry_next l d here small ∙ resolve_read l (frame_of d) e at)

-- Where it ends.
end_of :
    (phys : ℕ → Option ℕ) (v e l : ℕ)
    → (is_present e ≡ false) ⊎ ((l ≡ 2) × (is_large e ≡ true))
    → from_entry phys v l e ≡ (if is_present e then large_leaf 2 e else none)
unfolding resolve_entry
end_of phys v e zero (inl gone) = rw gone refl
end_of phys v e (suc l) (inl gone) = rw gone refl
end_of phys v e l (inr (two, large)) = rw (two, large) refl

-- What the module loads next after an entry: an entry of the next table, or the content.
abbrev pub next_load : Kernel → ℕ → ℕ → ℕ → ℕ
next_load k v zero e = slot (target k e) (page_offset v)
next_load k v (suc zero) e = slot (target k e) (if is_large e then page_offset v else pte_index v)
next_load k v (suc (suc zero)) e = slot (target k e) (pmd_index v)
next_load k v (suc (suc (suc l))) e = slot (target k e) (pud_index v)

module _ (k : Kernel) (phys : ℕ → Option ℕ) (mapped : DirectMap k phys) (v pid root : ℕ)
    (rooted : HasRoot k pid root) where
  loads-pgd :
      (e : ℕ)
      → phys (root + 8 * index 3 v) ≡ some e
      → loads (next_load k v 3 e) (init_dummy k v pid).calls ≡ true
  unfolding init_dummy load_word deref small_page huge_page
  loads-pgd e at3 =
      rw (rooted, read_root k phys mapped v root at3)
        (ground (arith, Option-cases (k.read (next_load k v 3 e))))

  loads-pud :
      (d e : ℕ)
      → phys (root + 8 * index 3 v) ≡ some d
      → phys (frame_of d + 8 * index 2 v) ≡ some e
      → loads (next_load k v 2 e) (init_dummy k v pid).calls ≡ true
  unfolding init_dummy load_word deref small_page huge_page
  loads-pud d e at3 at2 =
      rw (rooted, read_root k phys mapped v root at3, read_pud k phys mapped v d at2)
        (ground (arith, Option-cases (k.read (next_load k v 2 e))))

  loads-pmd :
      (c d e : ℕ)
      → phys (root + 8 * index 3 v) ≡ some c
      → phys (frame_of c + 8 * index 2 v) ≡ some d
      → phys (frame_of d + 8 * index 1 v) ≡ some e
      → loads (next_load k v 1 e) (init_dummy k v pid).calls ≡ true
  unfolding init_dummy load_word deref small_page huge_page
  loads-pmd c d e at3 at2 at1 =
      rw
        (
          rooted,
          read_root k phys mapped v root at3,
          read_pud k phys mapped v c at2,
          read_pmd k phys mapped v d at1,
          is_huge_entry-attribute e,
        )
        (elim (Bool-cases (is_large e)) [
          | inl h ↦ rw h (ground (arith, Option-cases (k.read (slot (target k e) (page_offset v)))))
          | inr h ↦ rw h (ground (arith, Option-cases (k.read (slot (target k e) (pte_index v)))))
        ])

  loads-pte :
      (b c d e : ℕ)
      → phys (root + 8 * index 3 v) ≡ some b
      → phys (frame_of b + 8 * index 2 v) ≡ some c
      → phys (frame_of c + 8 * index 1 v) ≡ some d
      → is_large d ≡ false
      → phys (frame_of d + 8 * index 0 v) ≡ some e
      → loads (next_load k v 0 e) (init_dummy k v pid).calls ≡ true
  unfolding init_dummy load_word deref small_page huge_page
  loads-pte b c d e at3 at2 at1 small at0 =
      rw
        (
          rooted,
          read_root k phys mapped v root at3,
          read_pud k phys mapped v b at2,
          read_pmd k phys mapped v c at1,
          is_huge_entry-attribute d,
          small,
          read_pte k phys mapped v d at0,
        )
        (ground (arith, Option-cases (k.read (next_load k v 0 e))))

  pub loads-Entry :
      {l e : ℕ}
      → Entry phys v root l e
      → loads (next_load k v l e) (init_dummy k v pid).calls ≡ true
  loads-Entry (top {e = e} at3) = loads-pgd e at3
  loads-Entry (below {e = e} (top {e = d} at3) p s at2) = loads-pud d e at3 at2
  loads-Entry (below {e = e} (below {e = d} (top {e = c} at3) p s at2) q t at1) =
      loads-pmd c d e at3 at2 at1
  loads-Entry
        (below {e = e}
          (below {e = d} (below {e = c} (top {e = b} at3) p s at2) q t at1)
          r
          small
          at0) =
      loads-pte b c d e at3 at2 at1 (ground (arith, small)) at0
  loads-Entry (below (below (below (below u a b c) p s at2) q t at1) r small at0) =
      absurd (omega (arith, Entry-le u))

  -- The kernel maps the physical memory from `page_offset_base` on and finds the process, whose
  -- page table is at `root`. The translation reads an entry that is not present, at any of the four
  -- levels, or the entry of a 1G page. There it ends, without a mapping or, if the reserved bits
  -- are 0, with that page; and yet the module goes on to load from what the address bits of the
  -- entry name, as if it were the next table, or a page.
  pub walk-astray :
      (l e : ℕ)
      → Entry phys v root l e
      → (is_present e ≡ false) ⊎ ((l ≡ 2) × (is_large e ≡ true))
      → (resolve phys 3 v root ≡ (if is_present e then large_leaf 2 e else none))
        × (loads (next_load k v l e) (init_dummy k v pid).calls ≡ true)
  walk-astray l e read ends =
      (resolve-Entry phys v root read ∙ end_of phys v e l ends, loads-Entry read)

  -- In the top table in particular.
  pub walk-absent :
      (e : ℕ)
      → phys (root + 8 * index 3 v) ≡ some e
      → is_present e ≡ false
      → (resolve phys 3 v root ≡ none)
        × (loads (slot (target k e) (pud_index v)) (init_dummy k v pid).calls ≡ true)
  walk-absent e at absent =
      let (resolved, loaded) = walk-astray 3 e (top at) (inl absent) in
      (resolved ∙ rw absent refl, loaded)
