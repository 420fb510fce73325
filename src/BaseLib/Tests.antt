-- ===== src/BaseLib/Tests.antt =====
-- Runs of base_lib.c, test_clobber.c and kinfo.c on a system with two processes.
use yu.Prelude.{◌-◌, ◌^◌, ◌≡◌, refl, List, [], ◌∷◌, arith}
use yu.Prelude.Int.{pos}
use yu.Prelude.Trace.{run, done}
use yu.BaseLib.{
  Task, rcu_read_lock, rcu_read_unlock, print_task, init_kinfo, printing_cpu_info,
  test_dump_tasklist, kinfo_init,
}
use yu.BaseLib.Dump.{test_dump_tasklist-shown}

abbrev systemd : Task
systemd = record { comm = "systemd"; pid = 1; threads = 1 }

abbrev kthreadd : Task
kthreadd = record { comm = "kthreadd"; pid = 2; threads = 1 }

abbrev tasks : List Task
tasks = systemd ∷ kthreadd ∷ []

kinfo_init_loads : kinfo_init ≡ run (init_kinfo ∷ printing_cpu_info ∷ []) (done (pos 0))
unfolding kinfo_init
kinfo_init_loads = refl

-- A count of 0 still prints one process.
test_dump_tasklist-shown_example :
    test_dump_tasklist tasks (pos 0) 0
    ≡ run (rcu_read_lock ∷ print_task systemd ∷ rcu_read_unlock ∷ []) (done (2 ^ 64 - 1))
test_dump_tasklist-shown_example = test_dump_tasklist-shown tasks (pos 0) 0 (omega arith)
