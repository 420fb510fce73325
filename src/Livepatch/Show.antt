-- ===== src/Livepatch/Show.antt =====
-- Which object the patched function of lpm.c frees.
use yu.Prelude.Calls.{collect}
use yu.Prelude.{ℕ, zero, suc, ◌+◌, ◌*◌, ◌%◌, ◌^◌, ◌<◌, ◌≡◌, ◌≢◌, refl, some, List, [], ◌∷◌, arith}
use yu.Prelude.Int.{pos}
use yu.Prelude.Trace.{done}
use yu.Livepatch.{
  State, Event, klp_shadow_alloc, klp_shadow_free, kfree, advance, livepatch_cmdline_proc_show,
}

-- The pointer ends one word behind the bound.
pub advance-end :
    (n fuel eptr ptr : ℕ)
    → n < fuel
    → eptr ≡ ptr + 8 * n
    → eptr < 2 ^ 64
    → advance fuel eptr ptr ≡ some ((eptr + 8) % 2 ^ 64)
unfolding advance
advance-end n zero eptr ptr h e b = absurd (omega arith)
advance-end zero (suc fuel) eptr ptr h e b = ground arith
advance-end (suc n) (suc fuel) eptr ptr h e b =
    ground (arith, advance-end n fuel eptr ((ptr + 8) % 2 ^ 64))

abbrev pub kfrees_by : Event → List ℕ
kfrees_by (kfree p) = p ∷ []
kfrees_by _ = []

abbrev pub kfrees : List Event → List ℕ
kfrees = collect kfrees_by

abbrev pub shadow_allocs_by : Event → List ℕ
shadow_allocs_by (klp_shadow_alloc p id size) = p ∷ []
shadow_allocs_by _ = []

abbrev pub shadow_allocs : List Event → List ℕ
shadow_allocs = collect shadow_allocs_by

abbrev pub shadow_frees_by : Event → List ℕ
shadow_frees_by (klp_shadow_free p id) = p ∷ []
shadow_frees_by _ = []

abbrev pub shadow_frees : List Event → List ℕ
shadow_frees = collect shadow_frees_by

-- For an object that lies, with 320 bytes from its start, below the end of the address space, the
-- loop ends, and the function returns 0. But it moves the pointer that it then frees: the address
-- given to `kfree` and to `klp_shadow_free` lies 328 bytes behind the object, modulo 2 ^ 64, and is
-- never its own; its shadow was made for the object itself.
pub livepatch_cmdline_proc_show-kfree :
    (memory shadow : ℕ) (s : State)
    → memory + 320 < 2 ^ 64
    → let r = livepatch_cmdline_proc_show memory shadow s in
      let last = (memory + 328) % 2 ^ 64 in
      (r.outcome ≡ done (record s { ptr = last; shadow = shadow }, pos 0))
      × (kfrees r.calls ≡ last ∷ [])
      × (shadow_frees r.calls ≡ last ∷ [])
      × (shadow_allocs r.calls ≡ memory ∷ [])
      × (last ≢ memory)
unfolding livepatch_cmdline_proc_show
livepatch_cmdline_proc_show-kfree memory shadow s h =
    let bound : (memory + 8 * 40) % 2 ^ 64 ≡ memory + 320 = omega arith in
    let last : (memory + 320 + 8) % 2 ^ 64 ≡ (memory + 328) % 2 ^ 64 = omega arith in
    rw (bound, advance-end 40 42 (memory + 320) memory (omega arith) (omega arith) h, last)
      (refl, refl, refl, refl, omega arith)
