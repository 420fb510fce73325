-- ===== src/Livepatch/Readers/Races.antt =====
-- What the readers of lpm.c do alone, and what two of them can do to one another.
use yu.Prelude.{
  ℕ, zero, suc, ◌+◌, ◌*◌, ◌%◌, ◌^◌, ◌<◌, ◌≡◌, refl, ap, ◌∙◌, some, List, [], ◌∷◌, ◌++◌, ltb,
  Bool-cases, inl, inr, arith,
}
use yu.Prelude.Int.{pos}
use yu.Prelude.Trace.{done}
use yu.Livepatch.{
  State, Event, kmalloc, seq_printf_patched, say_kmalloc, klp_shadow_alloc, say_shadow, advance,
  livepatch_cmdline_proc_show,
}
use yu.Livepatch.Show.{advance-end, kfrees}
use yu.Livepatch.Readers.{
  Point, at_kmalloc, at_eptr, at_loop, at_shadow_free, returned, reader_step, first, second,
  Addresses, World, world, Trace, tag, by_first, by_second, Execution, finish, first_steps,
  second_steps,
}

-- The loop of the first reader, while the second one stands still.
loop_alone :
    (a : Addresses) (fuel eptr n : ℕ) (s : State) (q : Point) (tr : Trace) (w : World)
    → advance fuel eptr s.ptr ≡ some n
    → Execution a (world (record s { ptr = n }) at_shadow_free q) tr w
    → Execution a (world s (at_loop eptr) q) tr w
unfolding advance reader_step
loop_alone a zero eptr n s q tr w e x = absurd (ground arith)
loop_alone a (suc fuel) eptr n s q tr w e x = elim (Bool-cases (ltb s.ptr eptr)) [
  | inl more ↦
      let s' : State = record s { ptr = (s.ptr + 8) % 2 ^ 64 } in
      first_steps {s' = s'} {p' = at_loop eptr} (rw more refl)
        (loop_alone a fuel eptr n s' q tr w (ground (arith, e)) x)
  | inr over ↦
      first_steps {s' = record s { ptr = n }} {p' = at_shadow_free} (ground (arith, e, over)) x
]

-- The calls of a reader up to its loop.
abbrev until_loop : ℕ → ℕ → List Event
until_loop memory shadow =
    kmalloc 16
    ∷ seq_printf_patched
    ∷ say_kmalloc memory
    ∷ klp_shadow_alloc memory 0xccccc 8
    ∷ say_shadow shadow
    ∷ []

module _ (a : Addresses) (s : State) (h : a.memory first + 320 < 2 ^ 64) where
  abbrev m : ℕ
  m = a.memory first

  abbrev end : ℕ
  end = (m + 328) % 2 ^ 64

  loop_ends : advance 42 ((m + 8 * 40) % 2 ^ 64) m ≡ some end
  loop_ends =
      let bound : (m + 8 * 40) % 2 ^ 64 ≡ m + 320 = omega arith in
      let last : (m + 320 + 8) % 2 ^ 64 ≡ end = omega arith in
      rw bound (advance-end 40 42 (m + 320) m (omega arith) (omega arith) h ∙ ap some last)

  -- The first reader runs up to the end of its loop.
  first_loops :
      (q : Point) (tr : Trace) (w : World)
      → Execution a (world (record s { ptr = end; shadow = a.shadow first }) at_shadow_free q) tr w
      → Execution a (world s at_kmalloc q) (tag first (until_loop m (a.shadow first)) ++ tr) w
  unfolding reader_step
  first_loops q tr w x = first_steps refl (
      first_steps refl (
        first_steps refl
          (first_steps refl (first_steps refl (loop_alone a 42 _ end _ q tr w loop_ends x)))))

  -- One reader, whose object lies with 320 bytes from its start below the end of the address space,
  -- can make alone, step by step, the calls of `livepatch_cmdline_proc_show`, which returns 0, and it
  -- leaves in the shared pointers what that leaves.
  pub reader_alone :
      let r = livepatch_cmdline_proc_show (a.memory first) (a.shadow first) s in
      (s' : State) × (r.outcome ≡ done (s', pos 0))
      × Execution a
          (world s at_kmalloc at_kmalloc)
          (tag first r.calls)
          (world s' returned at_kmalloc)
  unfolding livepatch_cmdline_proc_show reader_step
  reader_alone = rw loop_ends (
    _,
    refl,
    first_loops at_kmalloc _ _ (first_steps refl (first_steps refl (first_steps refl finish))),
  )

  -- The object of the first of two readers lies, with 320 bytes from its start, below the end of the
  -- address space. Then there is an order of their steps in which the
  -- first returns and has given `kfree` the object of the second, which has made no call but the one
  -- that allocated it, and is still to use it.
  pub readers_race :
      (tr : Trace) × (w : World) × Execution a (world s at_kmalloc at_kmalloc) tr w
      × (kfrees (by_first tr) ≡ a.memory second ∷ [])
      × (by_second tr ≡ kmalloc 16 ∷ [])
      × (w.first_at ≡ returned)
      × (w.second_at ≡ at_eptr)
  unfolding reader_step
  readers_race = (
    _,
    _,
    first_loops at_kmalloc _ _
        (first_steps refl (second_steps refl (first_steps refl (first_steps refl finish)))),
    refl,
    refl,
    refl,
    refl,
  )
