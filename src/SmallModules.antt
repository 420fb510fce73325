-- ===== src/SmallModules.antt =====
-- Three small kernel modules: kmods/sched_warn/warn_mod.c, kmods/warn_mod/warn_mod.c and
-- kmods/percpu/percpu.c.
pub mod SchedWarn
pub mod WarnMod
pub mod Percpu
mod Tests
