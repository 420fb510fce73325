-- ===== src/HungTask/Tests.antt =====
-- Runs of hung_task.c, with a plain mutex and timer.
use yu.Prelude.{◌+◌, ◌≤◌, ◌≡◌, refl, true, false, none}
use yu.Prelude.Int.{pos}
use yu.KernelSync.{plain_sync}
use yu.HungTask.{TestData}
use yu.HungTask.Time.{World, Reach, loading, returned, delay}
use yu.HungTask.Hang.{init_hangs, init_returns}

abbrev fresh : TestData plain_sync
fresh = record { dead_lock = false; hrtimer_release_mutex = none }

abbrev hanging :
    (v : World plain_sync) × Reach plain_sync
      (record { test_data = fresh; now = 5; phase = loading })
      v
    × (v.phase ≡ returned 5 (pos 0))
    × (v.now ≡ 5 + delay)
hanging = init_returns plain_sync fresh 5

abbrev hung : World plain_sync
hung = hanging.0

init_hangs_example :
    (pos 0 ≡ pos 0)
    × (5 + delay ≤ hung.now)
    × (hung.test_data.dead_lock ≡ true)
    × (hung.test_data.hrtimer_release_mutex ≡ none)
init_hangs_example = init_hangs plain_sync fresh 5 5 hung (pos 0) refl hanging.1 hanging.2
