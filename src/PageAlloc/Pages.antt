-- ===== src/PageAlloc/Pages.antt =====
-- What the two modules that allocate pages hold, and what they show of it.
use yu.Prelude.Update.{==_refl}
use yu.Prelude.{
  ◌⊎◌, inl, inr, Bool-cases, ◌||◌, ℕ, ◌≡◌, refl, true, false, List, [], ◌∷◌, ◌==◌, if◌then◌else◌,
  arith,
}
use yu.Prelude.Int.{ℤ, pos, is_zero, is_negative}
use yu.Prelude.Trace.{done, fault}
use yu.Prelude.Calls.{collect}
use yu.PageAlloc.{Event, get_free_pages, vmalloc, free_pages, vfree, say_word}
use yu.PageAlloc.Debug
use yu.PageAlloc.Walked

-- The addresses of the pages and of the areas that are allocated after the calls; a call that returns
-- null allocates nothing.
pub record Held : Type 0 where
  pub pages : List ℕ
  pub areas : List ℕ

abbrev pub without : ℕ → List ℕ → List ℕ
without p [] = []
without p (q ∷ qs) = if q == p then qs else q ∷ without p qs

abbrev pub hold : Held → List Event → Held
hold h [] = h
hold h (get_free_pages order p ∷ es) =
    hold (if p == 0 then h else record h { pages = p ∷ h.pages }) es
hold h (vmalloc size p ∷ es) = hold (if p == 0 then h else record h { areas = p ∷ h.areas }) es
hold h (free_pages p order ∷ es) = hold (record h { pages = without p h.pages }) es
hold h (vfree p ∷ es) = hold (record h { areas = without p h.areas }) es
hold h (_ ∷ es) = hold h es

abbrev pub none_held : Held
none_held = record { pages = []; areas = [] }

-- The words that are shown, with their addresses.
abbrev pub words_by : Event → List (ℕ × ℕ)
words_by (say_word a v) = (a, v) ∷ []
words_by _ = []

abbrev pub words : List Event → List (ℕ × ℕ)
words = collect words_by

-- Whatever the allocator answers, `init_dummy` of kmods/deubg_pagealloc ends, with 0 exactly if it
-- holds its pages, and never with a negative number, by which a module refuses to be loaded; and
-- `exit_dummy` then leaves nothing held.
pub debug_pages :
    (page : ℕ)
    → (ret : ℤ) × ((Debug.init_dummy page).outcome ≡ done (page, ret))
      × (is_negative ret ≡ false)
      × (hold none_held (Debug.init_dummy page).calls
          ≡ (if is_zero ret then record { pages = page ∷ []; areas = [] } else none_held))
      × (hold (hold none_held (Debug.init_dummy page).calls) (Debug.exit_dummy page).calls
          ≡ none_held)
unfolding Debug.init_dummy Debug.exit_dummy
debug_pages page =
    ((if page == 0 then pos 1 else pos 0), ground arith, ground arith, ground arith, ground arith)

-- What `init_dummy` of pagetable_walking/debug_pa.c leaves, with its two allocations.
pub record Shows (page area : ℕ) (s s' : Walked.State) : Type 0 where
  ended : (Walked.init_dummy page area s).outcome ≡ done (s', pos 0)
  shows : words (Walked.init_dummy page area s).calls ≡ (page, 0xBADBEAF) ∷ (area, 0xFAEBDAB) ∷ []
  holds :
      hold none_held (Walked.init_dummy page area s).calls
      ≡ record { pages = page ∷ []; areas = area ∷ [] }
  gives_back :
      hold (hold none_held (Walked.init_dummy page area s).calls) (Walked.exit_dummy s').calls
      ≡ none_held

walked_granted :
    (page area : ℕ) (s : Walked.State)
    → (page == 0) ≡ false
    → (area == 0) ≡ false
    → (s' : Walked.State) × Shows page area s s'
unfolding Walked.init_dummy Walked.exit_dummy Walked.store
walked_granted page area s hp ha =
    let stored : ℕ → ℕ =
      λ b. if b == area then 0xFAEBDAB else if b == page then 0xBADBEAF else s.memory b in
    (
      record { p = page; vp = area; memory = stored },
      record {
        ended = simp (hp, ha) refl;
        shows = simp (hp, ha, ==_refl page, ==_refl area) refl;
        holds = simp (hp, ha) refl;
        gives_back = simp (hp, ha, ==_refl page, ==_refl area) refl;
      },
    )

walked_fault :
    (page area : ℕ) (s : Walked.State)
    → ((page == 0) || (area == 0)) ≡ true
    → (Walked.init_dummy page area s).outcome ≡ fault
unfolding Walked.init_dummy Walked.store
walked_fault page area s h = ground arith

-- Whatever the two allocations of pagetable_walking/debug_pa.c return: if one of them is null,
-- `init_dummy` faults; and if neither is, it ends with 0 and shows in each the word that it has
-- written there, holds the two, and `exit_dummy` then leaves nothing held.
pub walked_pages :
    (page area : ℕ) (s : Walked.State)
    → ((((page == 0) || (area == 0)) ≡ true) × ((Walked.init_dummy page area s).outcome ≡ fault))
      ⊎ ((((page == 0) || (area == 0)) ≡ false) × ((s' : Walked.State) × Shows page area s s'))
walked_pages page area s = elim (Bool-cases ((page == 0) || (area == 0))) [
  | inl null ↦ inl (null, walked_fault page area s null)
  | inr granted ↦ inr (granted, walked_granted page area s (ground arith) (ground arith))
]
