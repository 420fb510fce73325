-- ===== src/Lib.antt =====
-- The kernel modules and test programs of the repository, modelled and verified: small, separate
-- programs, most of them modules for the Linux kernel, each of which exercises one part of it.
--
-- The parts and their files. Paths are from the repository's root.
--   PageWalk   pagetable_walking/walk_pg_table.c. `init_dummy` finds the page table of a process and
--              `walk_tables` goes through its four levels; `huge_page` and `small_page` are its two
--              endings. `PageWalk.Spec` is the processor's translation, written apart from the code.
--   UserPages  pagetable_walking/userpage.c and pagetable_walking/userhugepage.c, whose `main` is
--              `userpage_main` and `userhugepage_main`. `UserPages.Walked` puts them together with
--              the walker, which is meant to look at the page that they map.
--   BaseLib    kmods/base_lib/base_lib.c, which exports `test_dump_tasklist` and
--              `test_dump_cpulist`, and its clients kmods/base_lib/test_clobber.c
--              (`init_clobber`) and kmods/kinfo/kinfo.c (`kinfo_init`). The variable `depends` of
--              base_lib.c is used by Pita (`Pita.Depends`).
--   Status     stattests/pid_status.c and the macros of stattests/stat_tests.h and stattests/debug.h:
--              `show_one_info`, `show_all_info` and `thread_func`. `Status.Text` has `fgets` and `strstr`, and
--              `Status.Lines` a description of lines that does without a buffer. `Status.Threads`
--              has `init_pid_env`, `thread_func_preempt` and `main`, and `Status.Threads.Process` the
--              orders in which the three threads make their calls, as a step relation.
--   Netlink    kmods/netlink/nl.c: `nl_data_ready` answers a message by `sendnlmsg`, on the socket
--              that `netlink_init` creates and `netlink_exit` releases. `Netlink.Client` is
--              kmods/netlink/unl.c, the program that sends such a message and prints the answers.
--              `Netlink.Session` runs the two together, in a kernel that delivers to the client what
--              is sent on the socket of the module to the port that the client has bound.
--              `Netlink.Lifetime` is the module from its loading to its unloading, with the messages
--              that come in between, as a step relation, each message handled whole.
--              `Netlink.Overlap` takes the handlers apart at their rounds, for any number of them at
--              a time, also while the socket is being assigned, and `Netlink.Overlap.Greetings`
--              puts the client together with one of them.
--   Livepatch  kmods/livepatch/lpm.c: `livepatch_init`, `livepatch_exit`, and the function that the
--              patch puts in place, `livepatch_cmdline_proc_show`. `Livepatch.Tables` has the tables
--              `funcs`, `objs` and `patch`, and the core that knows a function by its name.
--              `Livepatch.Readers` takes that function apart at its
--              accesses to the global pointers, for two readers at a time.
--   Slab       kmods/slabtest/slabtest.c: `slabtest_init` and `slabtest_cleanup`.
--   Waitqueue  kmods/waitqueue_bookmark/waitqueue.c: `init_module`, in its halves before and behind
--              the wait, the work item `my_workqueue_handler`, the threads
--              `wait_queue_test_thread`, and `cleanup_module`. `Waitqueue.Load` has the orders in
--              which the work item, a signal and the unloading come, as a step relation, and
--              `Waitqueue.Unload` those of the eighty threads and the thread that loads and
--              unloads the module.
--   Kprobes    kmods/kprobes: kretprobe_example.c, kprobe_example.c and jprobe_example.c, one child
--              module for each, with the names of their functions. `Kprobes.Kretprobe.Pool` has the
--              pool of instances from which the core serves the return probe. `Kprobes.Hits` has the
--              life of kprobe_example.c, with its handlers called in any order, each whole.
--   HungTask   kmods/hung_task/hung_task.c: `init_hung_task_test` up to and from the second call of
--              `mutex_lock`, the function of its timer, and `exit_hung_task_test`.
--              `HungTask.Time` has the passing of time, as a step relation.
--   Pita       kmods/event_mod/pita.c and the event of kmods/event_mod/trace.h: `pita_init`,
--              `pita_exit`, `test_open`, `test_read`, `test_write` and their table
--              `test_fops`. `Pita.Uses` is the life of the module with the uses of its file.
--   PageAlloc  kmods/deubg_pagealloc/debug_pa.c (`PageAlloc.Debug`) and
--              pagetable_walking/debug_pa.c (`PageAlloc.Walked`), under the names of the code.
--   Ding       dbus/dbus-ding-send.c: `main` up to its loop, and `send_ding`, which the loop calls.
--   Hello      dbus/hello.c: `main`.
--   SmallModules
--              kmods/sched_warn/warn_mod.c (`SmallModules.SchedWarn`), kmods/warn_mod/warn_mod.c
--              (`SmallModules.WarnMod`) and kmods/percpu/percpu.c (`SmallModules.Percpu`), under the
--              names of the code.
-- The programs meet in four places: the netlink client and its module, the user pages and the page
-- table walker, the task list library and its clients, and the variable `depends`. Each program is
-- modelled on its own, with what it may receive, and those that meet are then put together.
--
-- How the code is modelled. A function that calls the kernel or the C library is a `Run`: the calls
-- that it makes, in order, with its result, or a fault where C leaves the behaviour undefined, such
-- as a store through a null pointer or past the end of a buffer. What a call returns is an argument
-- of the model, in a record `Answers` where there are several, or a function of the round in a loop.
-- The variables of a module are a record `State`. The kernel's lists, times, mutexes and timers are
-- the interfaces KernelList, KernelTime and KernelSync, each with an instance that meets its laws; so
-- are the live patching core (`Livepatch.Tables.Core`) and GLib's loop (`Ding.Ticks.Timeouts`).
-- Machine numbers are natural numbers whose wrap-around is written out; `int` is `ℤ`, for the counts
-- that the code keeps far from the ends of their range.
--
-- Bounds and fuel. The loops over lists and the loops with a fixed count (two answers, three looks at
-- a status file, eighty threads, a thousand objects) are structural. The loop of `show_one_info` has
-- one round more than the file has bytes, and each round takes a byte. The loop of
-- `livepatch_cmdline_proc_show` has fuel for 42 tests and makes 41. The receiving loop of the client,
-- the loop of a thread of waitqueue.c and the loop of `exit_hung_task_test` have no bound in the code:
-- they take the number of rounds as an argument, and return `none` when it is used up, for which any
-- number is enough that is larger than the rounds before the event they wait for.
--
-- What is not modelled. kmods/kmemleak_extra/kmemleak_extra.c and stattests/tmp.c are not whole
-- C programs: the one has errors of syntax and undeclared variables, the other starts and ends
-- in the middle of a function. The headers below memo/compile are copies of Qt's. Accesses of
-- two processors to one variable at a time are outside the model, but for the two readers of
-- lpm.c and the handlers of nl.c. A thread of pid_status.c that faults makes no further call,
-- and what the other threads would do then is not modelled. CPU_ALLOC gives the bytes that
-- CPU_ALLOC_SIZE names; what is behind the first CPU_ZERO of `main` is translated but not reached.
pub mod Prelude
pub mod KernelList
pub mod PageWalk
pub mod UserPages
pub mod BaseLib
pub mod Status
pub mod Netlink
pub mod Livepatch
pub mod Slab
pub mod Waitqueue
pub mod KernelTime
pub mod Kprobes
pub mod KernelSync
pub mod Hello
pub mod HungTask
pub mod Pita
pub mod PageAlloc
pub mod Ding
pub mod SmallModules
