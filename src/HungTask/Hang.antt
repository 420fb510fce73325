-- ===== src/HungTask/Hang.antt =====
-- How long the initialisation of hung_task.c hangs.
use mathlib.Core.Path.{subst}
use yu.Prelude.{
  ℕ, ◌+◌, ◌≤◌, ◌≡◌, refl, sym, ap, ◌∙◌, ◌⊎◌, inl, inr, Bool, true, false, none, some, none-ne-some,
  zero, suc, arith,
}
use yu.Prelude.Int.{ℤ, pos}
use yu.Prelude.Trace.{Outcome, done, fault}
use yu.KernelSync.{KernelSync}
use yu.HungTask.{
  HrtimerRestart, TestData, test_hrtimer_free_mutex_func, init_until_lock, init_from_lock,
}
use yu.HungTask.Time.{
  Phase, loading, blocked, returned, delay, World, after_alarm, Step, start, tick, alarm, acquire,
  Reach, here, ◌then◌,
}

module _ (sync : KernelSync) where
  open sync use {
    Mutex, Timer, is_locked, expires, expired, is_locked-mutex_init, is_locked-mutex_lock,
    is_locked-mutex_unlock, expires-hrtimer_start, expires-expired, ktime_set_lem,
  }

  -- The mutex is held and the timer runs until `e`; or the alarm has been, and the mutex is free or
  -- not.
  Armed : TestData sync → ℕ → Type 0
  Armed td e = (is_locked td.dead_lock ≡ true) × (expires td.hrtimer_release_mutex ≡ some e)

  Rung : TestData sync → ℕ → ℕ → Bool → Type 0
  Rung td e now locked =
      (is_locked td.dead_lock ≡ locked) × (expires td.hrtimer_release_mutex ≡ none) × (e ≤ now)

  Placed : TestData sync → ℕ → Phase → Type 0
  Placed td now loading = expires td.hrtimer_release_mutex ≡ none
  Placed td now (blocked t) = Armed td (t + delay) ⊎ Rung td (t + delay) now false
  Placed td now (returned t r) = (r ≡ pos 0) × Rung td (t + delay) now true

  IsSound : (World sync) → Type 0
  IsSound w = Placed w.test_data w.now w.phase

  -- What the functions of the module leave, by the laws.
  Same : {A : Type 0} → (TestData sync → A → Type 0) → Outcome (TestData sync × A) → Type 0
  Same P (done (td, a)) = P td a
  Same P fault = Unit {0}

  ArmedAt : ℕ → Outcome (TestData sync) → Type 0
  ArmedAt t (done td) = Armed td (t + delay)
  ArmedAt t fault = Unit {0}

  started :
      (td td' : TestData sync) (t : ℕ)
      → (init_until_lock sync t td).outcome ≡ done td'
      → Armed td' (t + delay)
  unfolding init_until_lock Armed ArmedAt
  started td td' t e = subst (ArmedAt t) e (
    is_locked-mutex_lock _,
    expires-hrtimer_start _ t _ ∙ ap (λ d. some (t + d)) (ktime_set_lem 20 0),
  )

  rang :
      (td td' : TestData sync) (r : HrtimerRestart)
      → (test_hrtimer_free_mutex_func sync td).outcome ≡ done (td', r)
      → (is_locked (after_alarm sync td' r).dead_lock ≡ false)
        × (expires (after_alarm sync td' r).hrtimer_release_mutex ≡ none)
  unfolding test_hrtimer_free_mutex_func Same
  rang td td' r e =
      subst
        (Same (λ d q.
          (is_locked (after_alarm sync d q).dead_lock ≡ false)
          × (expires (after_alarm sync d q).hrtimer_release_mutex ≡ none)))
        e (is_locked-mutex_unlock _, expires-expired _)

  acquired :
      (td td' : TestData sync) (r : ℤ)
      → expires td.hrtimer_release_mutex ≡ none
      → (init_from_lock sync td).outcome ≡ done (td', r)
      → (r ≡ pos 0) × (is_locked td'.dead_lock ≡ true) × (expires td'.hrtimer_release_mutex ≡ none)
  unfolding init_from_lock Same
  acquired td td' r idle e =
      subst
        (Same (λ d q.
          (q ≡ pos 0) × (is_locked d.dead_lock ≡ true) × (expires d.hrtimer_release_mutex ≡ none)))
        e (refl, is_locked-mutex_lock _, idle)

  clash : {b : Bool} → b ≡ true → b ≡ false → ⊥
  clash h k = cc

  Step-IsSound : {w v : (World sync)} → Step sync w v → IsSound w → IsSound v
  unfolding IsSound Placed Armed Rung
  Step-IsSound (start {td} {td'} {t} e) h = inl (started td td' t e)
  Step-IsSound (tick {td} {t} {p = loading}) h = h
  Step-IsSound (tick {td} {t} {p = blocked from}) (inl h) = inl h
  Step-IsSound (tick {td} {t} {p = blocked from}) (inr h) = inr (h.0, h.1, omega (arith, h.2))
  Step-IsSound (tick {td} {t} {p = returned from r}) h = (h.0, (h.1.0, h.1.1, omega (arith, h.1.2)))
  Step-IsSound (alarm {td} {td'} {t} {e} {p = loading} ex le o) h = none-ne-some (sym h ∙ ex)
  Step-IsSound (alarm {td} {td'} {t} {e} {p = blocked from} {r} ex le o) (inl h) =
      let end = rang td td' r o in
      let joined : some (from + delay) ≡ some e = sym h.1 ∙ ex in
      let same : from + delay ≡ e = cc in inr (end.0, end.1, omega (arith, same, le))
  Step-IsSound (alarm {td} {td'} {t} {e} {p = blocked from} {r} ex le o) (inr h) =
      none-ne-some (sym h.1 ∙ ex)
  Step-IsSound (alarm {td} {td'} {t} {e} {p = returned from z} ex le o) h =
      none-ne-some (sym h.1.1 ∙ ex)
  Step-IsSound (acquire {td} {td'} {t} {from} {r} free o) (inl h) = absurd (clash h.0 free)
  Step-IsSound (acquire {td} {td'} {t} {from} {r} free o) (inr h) =
      let end = acquired td td' r h.1 o in (end.0, (end.1, end.2, h.2))

  Reach-IsSound : {w v : (World sync)} → Reach sync w v → IsSound w → IsSound v
  Reach-IsSound here h = h
  Reach-IsSound (r then st) h = Step-IsSound st (Reach-IsSound r h)

  -- From a module that is loaded at `t` with its timer not active: once `init_hung_task_test`, started
  -- at `t'`, has returned, it has returned 0, and 20 seconds at least have passed since it started;
  -- it holds the mutex again, and the timer is not active.
  pub init_hangs :
      (td : TestData sync) (t t' : ℕ) (v : (World sync)) (r : ℤ)
      → expires td.hrtimer_release_mutex ≡ none
      → Reach sync (record { test_data = td; now = t; phase = loading }) v
      → v.phase ≡ returned t' r
      → (r ≡ pos 0)
        × (t' + delay ≤ v.now)
        × (is_locked v.test_data.dead_lock ≡ true)
        × (expires v.test_data.hrtimer_release_mutex ≡ none)
  unfolding IsSound Placed Rung
  init_hangs td t t' v r idle reach back =
      let sound : Placed v.test_data v.now (returned t' r) =
        subst (Placed v.test_data v.now) back (Reach-IsSound reach idle) in
      (sound.0, sound.1.2, sound.1.0, sound.1.1)

  ticks :
      {w : (World sync)} {td : TestData sync} {t : ℕ} {p : Phase} (k : ℕ)
      → Reach sync w (record { test_data = td; now = t; phase = p })
      → Reach sync w (record { test_data = td; now = t + k; phase = p })
  ticks {w} {td} {t} {p} zero r =
      subst (λ n. Reach sync w (record { test_data = td; now = n; phase = p })) (omega arith) r
  ticks {w} {td} {t} {p} (suc k) r =
      subst (λ n. Reach sync w (record { test_data = td; now = n; phase = p })) (omega arith)
        (ticks k r then tick)

  -- And it can return, 20 seconds after its start.
  pub init_returns :
      (td : TestData sync) (t : ℕ)
      → (v : (World sync)) × Reach sync (record { test_data = td; now = t; phase = loading }) v
        × (v.phase ≡ returned t (pos 0))
        × (v.now ≡ t + delay)
  unfolding init_until_lock init_from_lock test_hrtimer_free_mutex_func
  init_returns td t =
      let armed : TestData sync = record {
        dead_lock = sync.mutex_lock sync.mutex_init;
        hrtimer_release_mutex = sync.hrtimer_start sync.hrtimer_init t (sync.ktime_set 20 0);
      } in
      let timer : expires armed.hrtimer_release_mutex ≡ some (t + delay) =
        expires-hrtimer_start _ t _ ∙ ap (λ d. some (t + d)) (ktime_set_lem 20 0) in
      (
        _,
        ticks delay (here then start {td = td} {t = t} refl)
            then alarm timer (omega arith) refl
            then acquire (is_locked-mutex_unlock _) refl,
        refl,
        refl,
      )
