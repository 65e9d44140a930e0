-- ===== src/Kernel/Run/Switch.antt =====
-- What `env_run` of env.c and `sched_halt` of sched.c do.
use features_operating_syste.Prelude.{
  ℕ, ◌+◌, ◌%◌, ◌^◌, ◌≡◌, ◌≢◌, refl, Option, none, some, Bool, false, ◌==◌, if◌then◌else◌, arith,
}
use features_operating_syste.Kernel.Types.{Status, is_running, Env, Kernel, Control}
use features_operating_syste.Kernel.Run.{env_run, conmutar, desalojar}

-- Whether `j` is the current environment.
abbrev pub es_actual : Option ℕ → ℕ → Bool
es_actual none j = false
es_actual (some c) j = c == j

-- An environment once the current one has been descheduled.
abbrev pub descansa : Bool → Env → Env
descansa b e =
    if b
    then if is_running e.env_status then record e { env_status = Status.env_runnable } else e
    else e

-- The state in which user mode is entered in environment `i`.
pub record Corre (k : Kernel) (i pgdir : ℕ) (r : Kernel) : Type 0 where
  pub actual : r.curenv ≡ some i
  pub elegido : r.envs i ≡ record (k.envs i) {
    env_status = Status.env_running;
    env_runs = ((k.envs i).env_runs + 1) % 2 ^ 32;
    env_cpunum = k.cpunum;
  }
  pub otros : (j : ℕ) → j ≢ i → r.envs j ≡ descansa (es_actual k.curenv j) (k.envs j)
  pub directorio : r.cr3 ≡ pgdir
  pub colas : r.mlfq_scheduler ≡ k.mlfq_scheduler
  pub memoria : r.mem ≡ k.mem
  pub sin_cerrojo : r.kernel_locked ≡ false

conmutar-Corre : (k : Kernel) (i pgdir : ℕ) → Corre k i pgdir (conmutar (desalojar k) i pgdir)
unfolding conmutar
conmutar-Corre k i pgdir = record {
  actual = refl;
  elegido = ground arith;
  otros = λ j ne. ground arith;
  directorio = refl;
  colas = ground arith;
  memoria = ground arith;
  sin_cerrojo = refl;
}

-- `env_run` of an environment with a page directory enters user mode in it: it is the current and
-- running one, on this CPU, with its directory loaded, counted, and the kernel unlocked. The one that
-- ran before becomes runnable, and no other slot and no queue changes.
pub env_run-Corre :
    (k : Kernel) (i pgdir : ℕ)
    → (k.envs i).env_pgdir ≡ some pgdir
    → (r : Kernel) × (env_run k i ≡ Control.context_switch r) × Corre k i pgdir r
env_run-Corre k i pgdir e =
    (conmutar (desalojar k) i pgdir, entra k i pgdir e, conmutar-Corre k i pgdir)
  where
    entra :
        (k : Kernel) (i pgdir : ℕ)
        → (k.envs i).env_pgdir ≡ some pgdir
        → env_run k i ≡ Control.context_switch (conmutar (desalojar k) i pgdir)
    entra k i pgdir e = unfold env_run in ground arith
