-- ===== src/PageWalk/Walk/Inversion.antt =====
-- The table entries that a translation has gone through.
use yu.Prelude.{
  ℕ, suc, ◌+◌, ◌*◌, ◌/◌, ◌%◌, ◌^◌, ◌≤◌, ◌≡◌, ap, ◌⊎◌, inl, inr, true, false, ◌&&◌, Option, none,
  some, ltb, Option-cases, none-ne-some, ◌-◌, arith,
}
use yu.PageWalk.Spec.{Leaf, leaf, index, frame_of, is_large, large_leaf, resolve_entry, resolve}

-- The entries of the three upper tables on the way to a page.
pub record Steps (phys : ℕ → Option ℕ) (v root : ℕ) : Type 0 where
  pub pgd_entry : ℕ
  pub pud_entry : ℕ
  pub pmd_entry : ℕ
  pub at_pgd : phys (root + 8 * index 3 v) ≡ some pgd_entry
  pub at_pud : phys (frame_of pgd_entry + 8 * index 2 v) ≡ some pud_entry
  pub at_pmd : phys (frame_of pud_entry + 8 * index 1 v) ≡ some pmd_entry

-- What a large page's entry says of its mapping.
pub record IsLargeLeaf (level e : ℕ) (x : Leaf) : Type 0 where
  pub at_level : x.level ≡ level
  pub reserved : frame_of e / 2 ^ 13 % 2 ^ (9 * level - 1) ≡ 0
  pub frame : x.frame ≡ frame_of e / 2 ^ (9 * level + 12) * 2 ^ (9 * level + 12)
  pub pat : x.pat ≡ frame_of e / 2 ^ 12 % 2

large_leaf-IsLargeLeaf :
    (level e : ℕ) {x : Leaf} → large_leaf level e ≡ some x → IsLargeLeaf level e x
unfolding large_leaf
large_leaf-IsLargeLeaf level e h = ground arith

resolve_entry-cases :
    (l e : ℕ) (next : ℕ → Option Leaf) {x : Leaf}
    → resolve_entry (suc l) e next ≡ some x
    → ((is_large e ≡ true) × (ltb l 2 ≡ true) × (large_leaf (suc l) e ≡ some x))
      ⊎ (((is_large e && ltb l 2) ≡ false) × (next (frame_of e) ≡ some x))
unfolding resolve_entry
resolve_entry-cases l e next h = ground arith

resolve_entry-last :
    (e : ℕ) {x : Leaf} → resolve_entry 0 e (λ u. none) ≡ some x → x ≡ leaf 0 (frame_of e) 0
unfolding resolve_entry
resolve_entry-last e h = ground arith

module _ (phys : ℕ → Option ℕ) (v : ℕ) where
  resolve-at :
      (l t : ℕ) {x : Leaf}
      → resolve phys (suc l) v t ≡ some x
      → (e : ℕ) × (phys (t + 8 * index (suc l) v) ≡ some e)
        × (resolve_entry (suc l) e (λ u. resolve phys l v u) ≡ some x)
  unfolding resolve
  resolve-at l t h = elim (Option-cases (phys (t + 8 * index (suc l) v))) [
    | inl e ↦ none-ne-some (rw (e, resolve) at h)
    | inr (w, e) ↦ (w, e, rw (e, resolve) at h)
  ]

  resolve-last :
      (t : ℕ) {x : Leaf}
      → resolve phys 0 v t ≡ some x
      → (e : ℕ) × (phys (t + 8 * index 0 v) ≡ some e) × (x ≡ leaf 0 (frame_of e) 0)
  unfolding resolve resolve_entry
  resolve-last t h = elim (Option-cases (phys (t + 8 * index 0 v))) [
    | inl e ↦ none-ne-some (rw (e, resolve) at h)
    | inr (w, e) ↦ let k = resolve_entry-last w (rw (e, resolve) at h) in (w, e, k)
  ]

  -- A mapping of 4K or 2M has an entry in each of the three upper tables.
  resolve-pmd :
      (root : ℕ) {x : Leaf}
      → x.level ≤ 1
      → resolve phys 3 v root ≡ some x
      → (s : Steps phys v root) × (resolve_entry 1 s.pmd_entry (λ u. resolve phys 0 v u) ≡ some x)
  resolve-pmd root low h =
      let (e3, at3, r3) = resolve-at 2 root h in
      elim (resolve_entry-cases 2 e3 _ r3) [
        | inl big ↦ absurd (omega (arith, large_leaf-IsLargeLeaf 3 e3 big.2))
        | inr (_, r2) ↦
            let (e2, at2, s2) = resolve-at 1 _ r2 in
            elim (resolve_entry-cases 1 e2 _ s2) [
              | inl (_, _, big) ↦ absurd (omega (arith, large_leaf-IsLargeLeaf 2 e2 big))
              | inr (_, r1) ↦
                  let (e1, at1, s1) = resolve-at 0 _ r1 in
                  (
                    record {
                      pgd_entry = e3;
                      pud_entry = e2;
                      pmd_entry = e1;
                      at_pgd = at3;
                      at_pud = at2;
                      at_pmd = at1;
                    },
                    s1,
                  )
            ]
      ]

  -- A mapping of 4K: the size bit of the third entry is clear, and the fourth has the frame.
  pub resolve-small :
      (root f p : ℕ)
      → resolve phys 3 v root ≡ some (leaf 0 f p)
      → (s : Steps phys v root) × (is_large s.pmd_entry ≡ false)
        × (e : ℕ) × (phys (frame_of s.pmd_entry + 8 * index 0 v) ≡ some e)
        × (f ≡ frame_of e)
  resolve-small root f p h =
      let (s, r1) = resolve-pmd root (omega arith) h in
      elim (resolve_entry-cases 0 s.pmd_entry _ r1) [
        | inl big ↦ absurd (omega (arith, (large_leaf-IsLargeLeaf 1 s.pmd_entry big.2).at_level))
        | inr (small, r0) ↦
            let (e, at0, q) = resolve-last _ r0 in
            (s, ground arith, e, at0, ap (λ (l : Leaf). l.frame) q)
      ]

  -- A mapping of 2M: the size bit of the third entry is set, and it has the frame.
  pub resolve-huge :
      (root f p : ℕ)
      → resolve phys 3 v root ≡ some (leaf 1 f p)
      → (s : Steps phys v root) × (is_large s.pmd_entry ≡ true)
        × (frame_of s.pmd_entry ≡ f + 4096 * p)
  resolve-huge root f p h =
      let (s, r1) = resolve-pmd root (omega arith) h in
      elim (resolve_entry-cases 0 s.pmd_entry _ r1) [
        | inl (large, _, big) ↦
            let l = large_leaf-IsLargeLeaf 1 s.pmd_entry big in
            (s, large, omega (arith, l.reserved, l.frame, l.pat))
        | inr (_, r0) ↦
            let (e, at0, q) = resolve-last _ r0 in
            absurd (omega (arith, ap (λ (l : Leaf). l.level) q))
      ]
