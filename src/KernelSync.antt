-- ===== src/KernelSync.antt =====
-- What the modules use of the kernel's `struct mutex`, `struct hrtimer` and `ktime_set`, which are not
-- part of this repository.
use yu.Prelude.{ℕ, ◌+◌, ◌*◌, ◌≡◌, refl, Bool, true, false, Option, none, some}

-- `expires` is the time at which an active timer calls its function, and `expired` a timer whose
-- function has been called and has not restarted it.
pub record KernelSync : Type 1 where
  pub Mutex : Type 0
  pub mutex_init : Mutex
  pub mutex_lock : Mutex → Mutex
  pub mutex_unlock : Mutex → Mutex
  pub is_locked : Mutex → Bool
  pub Timer : Type 0
  pub hrtimer_init : Timer
  pub hrtimer_start : Timer → ℕ → ℕ → Timer
  pub expired : Timer → Timer
  pub expires : Timer → Option ℕ
  pub ktime_set : ℕ → ℕ → ℕ
  pub is_locked-mutex_init : is_locked mutex_init ≡ false
  pub is_locked-mutex_lock : (m : Mutex) → is_locked (mutex_lock m) ≡ true
  pub is_locked-mutex_unlock : (m : Mutex) → is_locked (mutex_unlock m) ≡ false
  pub expires-hrtimer_init : expires hrtimer_init ≡ none
  pub expires-hrtimer_start :
      (t : Timer) (now delay : ℕ) → expires (hrtimer_start t now delay) ≡ some (now + delay)
  pub expires-expired : (t : Timer) → expires (expired t) ≡ none
  pub ktime_set_lem : (secs nsecs : ℕ) → ktime_set secs nsecs ≡ secs * 1000000000 + nsecs

-- The laws can be met.
abbrev pub plain_sync : KernelSync
plain_sync = record {
  Mutex = Bool;
  mutex_init = false;
  mutex_lock = λ m. true;
  mutex_unlock = λ m. false;
  is_locked = λ m. m;
  Timer = Option ℕ;
  hrtimer_init = none;
  hrtimer_start = λ t now delay. some (now + delay);
  expired = λ t. none;
  expires = λ t. t;
  ktime_set = λ secs nsecs. secs * 1000000000 + nsecs;
  is_locked-mutex_init = refl;
  is_locked-mutex_lock = λ m. refl;
  is_locked-mutex_unlock = λ m. refl;
  expires-hrtimer_init = refl;
  expires-hrtimer_start = λ t now delay. refl;
  expires-expired = λ t. refl;
  ktime_set_lem = λ secs nsecs. refl;
}
