-- ===== src/PageWalk/Content.antt =====
-- Which word the module prints as the content of an address, and what it does on the way to an
-- address that is not mapped.
use yu.Prelude.{
  ℕ, ◌+◌, ◌*◌, ◌%◌, ◌^◌, ◌<◌, ◌≡◌, ◌↔◌, ◌⊎◌, inl, inr, ap, ◌∙◌, Bool, false, ◌||◌, Option, none,
  some, List, [], ◌∷◌, ◌==◌, arith,
}
use yu.Prelude.Trace.{run, fault}
use yu.PageWalk.{Kernel, Event, get_pid_task, load, slot, init_dummy}
use yu.PageWalk.Spec.{leaf, resolve}
use yu.PageWalk.Walk.{DirectMap, HasRoot, Report, report, walk-small, walk-huge}

abbrev pub loads : ℕ → List Event → Bool
loads a [] = false
loads a (load b ∷ es) = a == b || loads a es
loads a (_ ∷ es) = loads a es

scaled_offset :
    (base f o : ℕ)
    → o < 2 ^ 12
    → (slot ((base + f) % 2 ^ 64) o ≡ (base + (f + o)) % 2 ^ 64) ↔ (o ≡ 0)
unfolding slot
scaled_offset base f o h = (λ e. omega arith, λ e. omega arith)

scaled_huge_offset :
    (base f v : ℕ)
    → (slot ((base + f) % 2 ^ 64) (v % 2 ^ 12) ≡ (base + (f + v % 2 ^ 21)) % 2 ^ 64)
      ↔ (v % 2 ^ 21 ≡ 0)
unfolding slot
scaled_huge_offset base f v = (λ e. omega arith, λ e. omega arith)

-- An option that is known, against another value.
some_iff : {P : Type 0} {o : Option ℕ} {a b : ℕ} → o ≡ some a → (a ≡ b) ↔ P → (o ≡ some b) ↔ P
some_iff q s = (λ e. s.0 (cc), λ e. q ∙ ap some (s.1 e))

module _ (k : Kernel) (phys : ℕ → Option ℕ) (mapped : DirectMap k phys) (v pid root : ℕ)
    (rooted : HasRoot k pid root) where
  -- The kernel maps the physical memory from `page_offset_base` on and finds the process, whose
  -- page table is at `root`. In a 4K page, where the word at eight times the offset can be read,
  -- the module loads its content from the address itself exactly when the address is the start of
  -- its page: the offset is added to a pointer to `long`, so it counts words.
  pub content-small :
      (f p c : ℕ)
      → resolve phys 3 v root ≡ some (leaf 0 f p)
      → k.read (slot ((k.page_offset_base + f) % 2 ^ 64) (v % 2 ^ 12)) ≡ some c
      → ((report (init_dummy k v pid).calls).loaded
          ≡ some ((k.page_offset_base + (f + v % 2 ^ 12)) % 2 ^ 64))
        ↔ (v % 2 ^ 12 ≡ 0)
  content-small f p c h content =
      let l = (walk-small k phys mapped v pid root rooted f p c h content).lines in
      some_iff (ap (λ (r : Report). r.loaded) l)
        (scaled_offset k.page_offset_base f (v % 2 ^ 12) (omega arith))

  -- In a 2M page it does so exactly when the address is the start of the 2M page: besides, only
  -- twelve of the 21 bits of the offset are used.
  pub content-huge :
      (f c : ℕ)
      → resolve phys 3 v root ≡ some (leaf 1 f 0)
      → k.read (slot ((k.page_offset_base + f) % 2 ^ 64) (v % 2 ^ 12)) ≡ some c
      → ((report (init_dummy k v pid).calls).loaded
          ≡ some ((k.page_offset_base + (f + v % 2 ^ 21)) % 2 ^ 64))
        ↔ (v % 2 ^ 21 ≡ 0)
  content-huge f c h content =
      let z : k.page_offset_base + f + 4096 * 0 ≡ k.page_offset_base + f = omega arith in
      let l = (walk-huge k phys mapped v pid root rooted f 0 c h (rw z content)).lines in
      some_iff (ap (λ (r : Report). r.loaded) l ∙ ap (λ t. some (slot (t % 2 ^ 64) (v % 2 ^ 12))) z)
        (scaled_huge_offset k.page_offset_base f v)

-- With no such process, and with a kernel thread, the module dereferences a null pointer before it
-- prints a line.
pub init_dummy-fault :
    (k : Kernel) (v pid : ℕ)
    → (k.find_task pid ≡ none) ⊎ (k.find_task pid ≡ some (record { mm = none }))
    → init_dummy k v pid ≡ run (get_pid_task pid ∷ []) fault
unfolding init_dummy
init_dummy-fault k v pid (inl h) = rw h
init_dummy-fault k v pid (inr h) = rw h
