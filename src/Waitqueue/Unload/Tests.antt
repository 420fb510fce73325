-- ===== src/Waitqueue/Unload/Tests.antt =====
-- A run of waitqueue.c with its eighty threads.
use yu.Prelude.{ℕ, suc, ◌≡◌, ◌⊎◌, refl, true, [], ◌==◌, arith}
use yu.Waitqueue.{wait_queue_test_thread, start_waitqueue_test, start_loop, init_module_until_wait}
use yu.Waitqueue.Tests.{lists, fresh, plenty, plenty-Noded}
use yu.Waitqueue.Threads.{adds, removes}
use yu.Waitqueue.Unload.{World, Reach, here, exited, load_and_unload, start}
use yu.Waitqueue.Unload.Calls.{elem, to_create}
use yu.Waitqueue.Unload.Loads.{AreDistinct}
use yu.Waitqueue.Unload.Exits.{threads_exited}
use yu.Waitqueue.Unload.Ends.{unload_ends}

plenty-AreDistinct : AreDistinct plenty
plenty-AreDistinct i j p e f = ground arith

unload_ends_example : (v : World) × Reach (start lists plenty fresh) v × (v.left ≡ [])
unload_ends_example =
    unload_ends lists plenty fresh (start lists plenty fresh) refl (plenty-Noded 80 0)
      plenty-AreDistinct here

abbrev unloading : (v : World) × Reach (start lists plenty fresh) v × (v.left ≡ [])
unloading =
    unload_ends lists plenty fresh (start lists plenty fresh) refl (plenty-Noded 80 0)
      plenty-AreDistinct here

created_first : elem 500 (to_create (load_and_unload lists plenty fresh).calls) ≡ true
unfolding load_and_unload init_module_until_wait start_waitqueue_test start_loop
created_first = refl

threads_exited_example :
    (i : ℕ) × (unloading.0.threads 500 ≡ exited i)
    × ((unloading.0.made 500 ≡ [])
        ⊎ ((k : ℕ) × (unloading.0.made 500
              ≡ (wait_queue_test_thread (suc k) i (λ j. j == k)).calls)))
    × (adds (unloading.0.made 500) ≡ removes (unloading.0.made 500))
threads_exited_example =
    threads_exited lists plenty fresh unloading.0 500 refl (plenty-Noded 80 0) unloading.1
      unloading.2 created_first
