-- ===== src/Waitqueue/Tests.antt =====
-- Runs of waitqueue.c over plain lists.
use yu.Prelude.{
  ℕ, zero, suc, ◌+◌, ◌≡◌, refl, ◌⊎◌, inl, inr, true, false, none, some, [], if◌then◌else◌, arith,
}
use yu.Prelude.Int.{pos}
use yu.Prelude.Trace.{done}
use yu.KernelList.{KernelList, plain_list}
use yu.Waitqueue.{
  WaitThread, Answers, State, start_waitqueue_test, start_loop, init_module_until_wait,
  init_module_after_wait, my_workqueue_handler, cleanup_module,
}
use yu.Waitqueue.Stop.{
  created, nodes, stopped, woken, freed, endings, one_by_one, Noded, cleanup_module-start,
}
use yu.Waitqueue.Load.{
  waiting, unloaded, returned, scheduled, finished, World, start, sleep, handle, wake, Reach, here,
  ◌then◌, loaded,
}
use yu.Waitqueue.Waits.{init_module_waits}
use yu.Waitqueue.Endings.{init_module_endings}

abbrev pub lists : KernelList WaitThread
lists = plain_list WaitThread

abbrev pub fresh : State lists
fresh = record { finish_test = 0; stop = 0; wait_threads_list = [] }

abbrev pub plenty : Answers
plenty = record { kthread_create = λ i. some (i + 500); kmalloc = λ i. i + 1 }

pub plenty-Noded : (k i : ℕ) → Noded k i plenty
plenty-Noded zero i = tt
plenty-Noded (suc k) i = (inr (ground arith), plenty-Noded k (i + 1))

cleanup_module-start_example :
    (s' : State lists) × ((start_waitqueue_test lists plenty fresh).outcome ≡ done s')
    × ((cleanup_module lists s').outcome ≡ done (record s' { finish_test = 1 }))
    × (stopped (cleanup_module lists s').calls
        ≡ created [] (start_waitqueue_test lists plenty fresh).calls)
    × (woken (cleanup_module lists s').calls ≡ stopped (cleanup_module lists s').calls)
    × (freed (cleanup_module lists s').calls
        ≡ nodes [] (start_waitqueue_test lists plenty fresh).calls)
    × (endings (cleanup_module lists s').calls
        ≡ one_by_one
            (created [] (start_waitqueue_test lists plenty fresh).calls)
            (nodes [] (start_waitqueue_test lists plenty fresh).calls))
cleanup_module-start_example = cleanup_module-start lists plenty fresh refl (plenty-Noded 80 0)

-- No thread can be created: the module loads nevertheless.
abbrev refused : Answers
refused = record plenty { kthread_create = λ i. none }

-- The module sleeps, and no thread could be created.
abbrev asleep : World lists
asleep = record {
  memory = fresh;
  phase = waiting;
  work = scheduled;
  signalled = false;
  awake = false;
}

asleep_Reach : Reach lists refused (loaded lists fresh) asleep
unfolding init_module_until_wait start_waitqueue_test start_loop
asleep_Reach = here then start refl then sleep (ground arith)

refused-Noded : (k i : ℕ) → Noded k i refused
refused-Noded zero i = tt
refused-Noded (suc k) i = (inl refl, refused-Noded k (i + 1))

init_module_endings_example :
    ((v : World lists) × Reach lists refused asleep v
      × (v.phase ≡ returned (pos 0))
      × (v.signalled ≡ false)
      × (v.work ≡ finished))
    × ((v : World lists) × Reach lists refused (loaded lists fresh) v
        × (v.phase ≡ unloaded)
        × (v.work ≡ scheduled))
init_module_endings_example =
    init_module_endings lists refused fresh asleep (refused-Noded 80 0) asleep_Reach refl

abbrev told : World lists
told = record {
  memory = record fresh { stop = 1 };
  phase = returned (pos 0);
  work = finished;
  signalled = false;
  awake = true;
}

told_Reach : Reach lists refused (loaded lists fresh) told
unfolding init_module_until_wait start_waitqueue_test start_loop init_module_after_wait
    my_workqueue_handler
told_Reach = here then start refl then sleep (ground arith) then handle refl then wake refl refl

init_module_waits_example :
    (pos 0 ≡ pos 0) × ((told.signalled ≡ true) ⊎ ((told.work ≡ finished) × (told.memory.stop ≡ 1)))
init_module_waits_example = init_module_waits lists refused fresh told (pos 0) refl told_Reach refl
