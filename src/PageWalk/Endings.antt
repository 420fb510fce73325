-- ===== src/PageWalk/Endings.antt =====
-- Every way in which a translation can end, and what the module does behind it.
use yu.Prelude.{
  ℕ, zero, suc, ◌+◌, ◌*◌, ◌≡◌, ◌⊎◌, inl, inr, refl, ◌∙◌, true, false, ◌&&◌, ltb, Option, none, some,
  Option-cases, Bool-cases,
}
use yu.PageWalk.{Kernel, init_dummy}
use yu.PageWalk.Spec.{
  Leaf, leaf, index, frame_of, is_present, is_large, large_leaf, resolve, resolve_entry,
}
use yu.PageWalk.Walk.{DirectMap, HasRoot}
use yu.PageWalk.Content.{loads}
use yu.PageWalk.Astray.{Entry, top, below, from_entry, resolve-Entry, next_load, loads-Entry}

-- Why an entry of a level is the last that the translation reads: it is not present, it maps a page
-- of 4K or a larger one, or there is no memory where the next one would be.
pub data Ending (phys : ℕ → Option ℕ) (v : ℕ) : ℕ → ℕ → Type 0 where
  absent : {l e : ℕ} → is_present e ≡ false → Ending phys v l e
  page : {e : ℕ} → is_present e ≡ true → Ending phys v 0 e
  large : {l e : ℕ} → is_present e ≡ true → (is_large e && ltb l 2) ≡ true → Ending phys v (suc l) e
  unread :
      {l e : ℕ}
      → is_present e ≡ true
      → (is_large e && ltb l 2) ≡ false
      → phys (frame_of e + 8 * index l v) ≡ none
      → Ending phys v (suc l) e

-- The mapping that such an entry makes.
abbrev pub mapping : {phys : ℕ → Option ℕ} {v l e : ℕ} → Ending phys v l e → Option Leaf
mapping (absent gone) = none
mapping (page {e} here) = some (leaf 0 (frame_of e) 0)
mapping (large {l} {e} here big) = large_leaf (suc l) e
mapping (unread here small missing) = none

from_entry-mapping :
    {phys : ℕ → Option ℕ} {v l e : ℕ} (x : Ending phys v l e) → from_entry phys v l e ≡ mapping x
unfolding resolve_entry resolve
from_entry-mapping {l = zero} (absent gone) = rw gone refl
from_entry-mapping {l = suc l} (absent gone) = rw gone refl
from_entry-mapping (page here) = rw here refl
from_entry-mapping (large here big) = rw (here, big) refl
from_entry-mapping (unread {l = zero} here small missing) =
    rw (here, small) (rw (resolve, missing) refl)
from_entry-mapping (unread {l = suc l} here small missing) =
    rw (here, small) (rw (resolve, missing) refl)

-- From any entry the translation comes to a last one.
last_entry :
    (phys : ℕ → Option ℕ) (v root l e : ℕ)
    → Entry phys v root l e
    → (m : ℕ) × (d : ℕ) × Entry phys v root m d × Ending phys v m d
last_entry phys v root zero e x = elim (Bool-cases (is_present e)) [
  | inl here ↦ (zero, e, x, page here)
  | inr gone ↦ (zero, e, x, absent gone)
]
last_entry phys v root (suc l) e x = elim (Bool-cases (is_present e)) [
  | inr gone ↦ (suc l, e, x, absent gone)
  | inl here ↦ elim (Bool-cases (is_large e && ltb l 2)) [
    | inl big ↦ (suc l, e, x, large here big)
    | inr small ↦ elim (Option-cases (phys (frame_of e + 8 * index l v))) [
      | inl missing ↦ (suc l, e, x, unread here small missing)
      | inr (d, at) ↦ last_entry phys v root l d (below x here small at)
    ]
  ]
]

module _ (k : Kernel) (phys : ℕ → Option ℕ) (mapped : DirectMap k phys) (v pid root : ℕ)
    (rooted : HasRoot k pid root) where
  -- The kernel maps the physical memory from `page_offset_base` on and finds the process, whose
  -- page table is at `root`. For every address, there is no memory at its entry of the top table,
  -- or there is a last entry that its translation reads: one that is not present, that maps a page
  -- of any size, or that names a table with no memory at the next entry. The translation is then
  -- what this entry makes it; and whichever of these it is, the module goes on to load from what
  -- the address bits of the entry name.
  pub walk-Ending :
      (phys (root + 8 * index 3 v) ≡ none)
      ⊎ ((l : ℕ) × (e : ℕ) × Entry phys v root l e
          × (x : Ending phys v l e) × (resolve phys 3 v root ≡ mapping x)
          × (loads (next_load k v l e) (init_dummy k v pid).calls ≡ true))
  walk-Ending = elim (Option-cases (phys (root + 8 * index 3 v))) [
    | inl missing ↦ inl missing
    | inr (e, at) ↦
        let (m, d, entry, x) = last_entry phys v root 3 e (top at) in
        inr (
          m,
          d,
          entry,
          x,
          resolve-Entry phys v root entry ∙ from_entry-mapping x,
          loads-Entry k phys mapped v pid root rooted entry,
        )
  ]
