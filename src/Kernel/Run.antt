-- ===== src/Kernel/Run.antt =====
-- How the kernel leaves an environment: `env_run` of scheduler/kern/env.c and `sched_halt` of
-- scheduler/kern/sched.c.
pub mod Switch
use features_operating_syste.Prelude.{
  ℕ, zero, suc, ◌+◌, ◌%◌, ◌^◌, Bool, false, ◌||◌, none, some, if◌then◌else◌, update,
}
use features_operating_syste.Kernel.Types.{
  nenv, Status, is_runnable, is_running, is_dying, Env, CpuStatus, Kernel, Control,
}

-- A write to `envs[i]`.
abbrev pub con_env : Kernel → ℕ → Env → Kernel
con_env k i e = record k { envs = update k.envs i e }

-- `envs[i].ejecuciones++`
abbrev pub contar : Kernel → ℕ → Kernel
contar k i = let e = k.envs i in con_env k i (record e { ejecuciones = e.ejecuciones + 1 })

-- `if (curenv && curenv->env_status == ENV_RUNNING) curenv->env_status = ENV_RUNNABLE;`
abbrev pub desalojar : Kernel → Kernel
desalojar k = elim k.curenv [
  | none ↦ k
  | some c ↦
      let e = k.envs c in
      if is_running e.env_status
      then con_env k c (record e { env_status = Status.env_runnable })
      else k
]

-- The assignments of `env_run` from `curenv = env` on.
unfoldable pub conmutar : Kernel → ℕ → ℕ → Kernel
conmutar k i pgdir =
    let e = k.envs i in
    record k {
      envs = update k.envs i (record e {
        env_status = Status.env_running;
        env_runs = (e.env_runs + 1) % 2 ^ 32;
        env_cpunum = k.cpunum;
      });
      curenv = some i;
      kernel_locked = false;
      cr3 = pgdir;
    }

-- Without a page directory `PADDR` panics.
unfoldable pub env_run : Kernel → ℕ → Control
unfolding conmutar
env_run k i = elim (k.envs i).env_pgdir [
  | none ↦ Control.fault
  | some pgdir ↦ Control.context_switch (conmutar (desalojar k) i pgdir)
]

-- The test of the first loop of `sched_halt`.
abbrev pub esta_activo : Env → Bool
esta_activo e = is_runnable e.env_status || is_running e.env_status || is_dying e.env_status

-- Whether the loop breaks, from index `i` with `n` indices left.
unfoldable pub hay_activo_desde : (ℕ → Env) → ℕ → ℕ → Bool
hay_activo_desde envs i zero = false
hay_activo_desde envs i (suc n) = esta_activo (envs i) || hay_activo_desde envs (i + 1) n

unfoldable pub sched_halt : Kernel → Control
sched_halt k =
    if hay_activo_desde k.envs 0 nenv
    then Control.halted (record k {
      curenv = none;
      cr3 = k.mem.kern_pgdir;
      cpu_status = CpuStatus.cpu_halted;
      kernel_locked = false;
    })
    else Control.monitor k
