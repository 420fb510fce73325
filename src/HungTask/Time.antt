-- ===== src/HungTask/Time.antt =====
-- The loading of hung_task.c in time: its timer, its mutex and the clock.
use yu.Prelude.{ℕ, ◌+◌, ◌≤◌, ◌≡◌, false, some}
use yu.Prelude.Int.{ℤ}
use yu.Prelude.Trace.{done}
use yu.KernelSync.{KernelSync}
use yu.HungTask.{
  HrtimerRestart, norestart, restart, TestData, test_hrtimer_free_mutex_func, init_until_lock,
  init_from_lock,
}

-- Where the initialisation stands: `blocked t` since it has started its timer at `t`.
pub data Phase : Type 0 where
  loading : Phase
  blocked : ℕ → Phase
  returned : ℕ → ℤ → Phase

-- The time of the alarm, in nanoseconds.
abbrev pub delay : ℕ
delay = 20000000000

module _ (sync : KernelSync) where
  open sync use {Mutex, Timer, is_locked, expires, expired}

  pub record World : Type 0 where
    pub test_data : TestData sync
    pub now : ℕ
    pub phase : Phase

  abbrev pub after_alarm : TestData sync → HrtimerRestart → TestData sync
  after_alarm td norestart = record td { hrtimer_release_mutex = expired td.hrtimer_release_mutex }
  after_alarm td restart = td

  -- A timer calls its function at its time or later, and `mutex_lock` comes back when the mutex is
  -- free.
  pub data Step : World → World → Type 0 where
    start :
        {td td' : TestData sync} {t : ℕ}
        → (init_until_lock sync t td).outcome ≡ done td'
        → Step
            (record { test_data = td; now = t; phase = loading })
            (record { test_data = td'; now = t; phase = blocked t })
    tick :
        {td : TestData sync} {t : ℕ} {p : Phase}
        → Step
            (record { test_data = td; now = t; phase = p })
            (record { test_data = td; now = t + 1; phase = p })
    alarm :
        {td td' : TestData sync} {t e : ℕ} {p : Phase} {r : HrtimerRestart}
        → expires td.hrtimer_release_mutex ≡ some e
        → e ≤ t
        → (test_hrtimer_free_mutex_func sync td).outcome ≡ done (td', r)
        → Step
            (record { test_data = td; now = t; phase = p })
            (record { test_data = after_alarm td' r; now = t; phase = p })
    acquire :
        {td td' : TestData sync} {t from : ℕ} {r : ℤ}
        → is_locked td.dead_lock ≡ false
        → (init_from_lock sync td).outcome ≡ done (td', r)
        → Step
            (record { test_data = td; now = t; phase = blocked from })
            (record { test_data = td'; now = t; phase = returned from r })

  infixl 5 ◌then◌
  pub data Reach (w : World) : World → Type 0 where
    here : Reach w w
    ◌then◌ : {v u : World} → Reach w v → Step v u → Reach w u
