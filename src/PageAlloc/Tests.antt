-- ===== src/PageAlloc/Tests.antt =====
-- Runs of the two modules that allocate pages.
use yu.Prelude.{◌≡◌, ◌⊎◌, ◌||◌, ◌==◌, true, false}
use yu.Prelude.Trace.{fault}
use yu.PageAlloc.Walked
use yu.PageAlloc.Pages.{walked_pages, Shows}

abbrev unloaded : Walked.State
unloaded = record { p = 0; vp = 0; memory = λ a. 0 }

walked_pages_example :
    (((16384 == 0) || (40960 == 0)) ≡ true)
      × ((Walked.init_dummy 16384 40960 unloaded).outcome ≡ fault)
    ⊎ ((((16384 == 0) || (40960 == 0)) ≡ false)
        × ((s' : Walked.State) × Shows 16384 40960 unloaded s'))
walked_pages_example = walked_pages 16384 40960 unloaded
