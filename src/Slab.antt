-- ===== src/Slab.antt =====
-- kmods/slabtest/slabtest.c: fills a slab cache with a thousand objects when it is loaded, and frees
-- them when it is unloaded.
pub mod Init
pub mod Cleanup
pub mod Outcomes
mod Tests
use yu.Prelude.{ℕ, zero, suc, ◌+◌, Bool, true, false, List, [], ◌∷◌, ◌==◌, if◌then◌else◌}
use yu.Prelude.Int.{ℤ, pos, negsuc}
use yu.Prelude.Trace.{Run, ◌>>=◌, ◌>>◌, pure, call, ask, oops, run, after, and_then, done, fault}
use yu.KernelList.{KernelList}

-- A `struct to_free_ptr`: its own address, and its field `ptr`.
pub record ToFreePtr : Type 0 where
  pub address : ℕ
  pub ptr : ℕ

-- What the allocators return: 0 is a null pointer, and the loops ask with their index.
pub record Answers : Type 0 where
  pub kmem_cache_create : ℕ
  pub kmem_cache_zalloc : ℕ → ℕ
  pub kmalloc : ℕ → ℕ

-- The allocations are recorded with what they return.
pub data Event : Type 0 where
  say_init : Event
  kmem_cache_create : ℕ → Event
  say_init_failed : Event
  kmem_cache_zalloc : ℕ → ℕ → Event
  say_alloc : ℕ → ℕ → Event
  kmalloc : ℕ → Event
  say_cleanup : Event
  say_freeing : ℕ → ℕ → Event
  kmem_cache_free : ℕ → ℕ → Event
  kfree : ℕ → Event
  kmem_cache_destroy : ℕ → Event

abbrev pub enomem : ℤ
enomem = negsuc 11

module _ (list : KernelList ToFreePtr) where
  open list use {Head, list_add, entries}

  pub record State : Type 0 where
    pub slabtest_cache : ℕ
    pub slabtest_buf : ℕ
    pub to_free : Head

  -- The rest of the loop from index `i` on, with `left` rounds left. The new node is written to, so
  -- a null pointer faults.
  pub init_loop : ℕ → ℕ → Answers → State → Run Event (State × ℤ)
  init_loop zero i a s = pure (s, pos 0)
  init_loop (suc left) i a s =
      let buf = a.kmem_cache_zalloc i in
      let node = a.kmalloc i in
      let rest = init_loop left (i + 1) a (record s {
        slabtest_buf = buf;
        to_free = list_add (record { address = node; ptr = buf }) s.to_free;
      }) in
      do
        call (kmem_cache_zalloc s.slabtest_cache buf)
        if buf == 0
            then (do call say_init_failed; pure (record s { slabtest_buf = buf }, enomem))
            else (do call (say_alloc i buf); call (kmalloc node); if node == 0 then oops else rest)

  pub slabtest_init : Answers → State → Run Event (State × ℤ)
  slabtest_init a s = do
    call say_init
    call (kmem_cache_create a.kmem_cache_create)
    if a.kmem_cache_create == 0
        then (do call say_init_failed; pure (record s { slabtest_cache = 0 }, enomem))
        else init_loop 1000 0 a (record s { slabtest_cache = a.kmem_cache_create })

  -- The loop over the list, which hands each entry to both allocators. The list itself stays.
  free_loop : ℕ → ℕ → List ToFreePtr → Run Event (Unit {0})
  free_loop cache i [] = pure tt
  free_loop cache i (entry ∷ rest) = do
    call (say_freeing i entry.ptr)
    call (kmem_cache_free cache entry.ptr)
    call (kfree entry.address)
    free_loop cache (i + 1) rest

  free_objs : State → Run Event (Unit {0})
  free_objs s = free_loop s.slabtest_cache 0 (entries s.to_free)

  pub slabtest_cleanup : State → Run Event (Unit {0})
  unfolding free_objs
  slabtest_cleanup s = do call say_cleanup; free_objs s; call (kmem_cache_destroy s.slabtest_cache)
