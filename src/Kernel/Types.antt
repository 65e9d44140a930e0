-- ===== src/Kernel/Types.antt =====
-- The kernel's data: scheduler/inc/env.h, inc/trap.h, inc/error.h, kern/sched.h, kern/cpu.h, and the
-- page bookkeeping of inc/memlayout.h. A pointer into `envs` or `pages` is the index that it stands
-- for, NULL is `none`; `envid_t`, `uint32_t` and addresses are their 32-bit patterns.
use features_operating_syste.Prelude.{ℕ, ◌%◌, Bool, true, false, Option, ℤ, negsuc}

-- NENV
abbrev pub nenv : ℕ
nenv = 1024

-- The index part of an identifier: `envid & (NENV - 1)`.
abbrev pub envx : ℕ → ℕ
envx envid = envid % 1024

-- The values of `env_status`.
pub data Status : Type 0 where
  env_free env_dying env_runnable env_running env_not_runnable : Status

abbrev pub is_free : Status → Bool
is_free Status.env_free = true
is_free _ = false

abbrev pub is_dying : Status → Bool
is_dying Status.env_dying = true
is_dying _ = false

abbrev pub is_runnable : Status → Bool
is_runnable Status.env_runnable = true
is_runnable _ = false

abbrev pub is_running : Status → Bool
is_running Status.env_running = true
is_running _ = false

-- The saved registers that the kernel writes one by one; the others are only copied whole.
pub record Trapframe : Type 0 where
  pub reg_eax : ℕ
  pub other_regs : ℕ → ℕ
  pub tf_es : ℕ
  pub tf_ds : ℕ
  pub tf_eip : ℕ
  pub tf_cs : ℕ
  pub tf_eflags : ℕ
  pub tf_esp : ℕ
  pub tf_ss : ℕ

-- `memset(&e->env_tf, 0, sizeof(e->env_tf))`
abbrev pub zero_trapframe : Trapframe
zero_trapframe = record {
  reg_eax = 0;
  other_regs = λ _. 0;
  tf_es = 0;
  tf_ds = 0;
  tf_eip = 0;
  tf_cs = 0;
  tf_eflags = 0;
  tf_esp = 0;
  tf_ss = 0;
}

-- `struct Env`. `env_type` has a single value and is left out.
pub record Env : Type 0 where
  pub env_tf : Trapframe
  pub env_link : Option ℕ
  pub env_id : ℕ
  pub env_parent_id : ℕ
  pub env_status : Status
  pub env_runs : ℕ  -- uint32_t
  pub env_cpunum : ℕ
  pub env_pgdir : Option ℕ  -- the number of the physical page that holds the directory
  pub env_pgfault_upcall : ℕ
  pub env_ipc_recving : Bool
  pub env_ipc_dstva : ℕ
  pub env_ipc_value : ℕ
  pub env_ipc_from : ℕ
  pub env_ipc_perm : ℕ
  pub cola_actual : ℤ  -- int
  pub ejecuciones : ℕ  -- int, only ever incremented

-- `struct MLFQ_cola`: `envs` is a ring of NENV identifiers; the two counters only grow between
-- resets, and are read modulo NENV. Their signed overflow is undefined in C: they are exact here.
pub record Cola : Type 0 where
  pub envs : ℕ → ℕ
  pub ultimo : ℕ
  pub primero : ℕ

-- `struct MLFQ_scheduler`
pub record MlfqScheduler : Type 0 where
  pub cola_a : Cola
  pub cola_b : Cola
  pub cola_c : Cola
  pub cola_d : Cola
  pub ejecuciones_totales : ℕ

-- A `struct MLFQ_cola *` that is not NULL.
pub data Puntero : Type 0 where
  en_a en_b en_c en_d : Puntero

-- `struct PageInfo`
pub record PageInfo : Type 0 where
  pub pp_link : Option ℕ
  pub pp_ref : ℕ  -- uint16_t

-- The state of pmap.c. Physical memory is its 32-bit words, by page number and word index.
pub record Memory : Type 0 where
  pub npages : ℕ
  pub pages : ℕ → PageInfo
  pub page_free_list : Option ℕ
  pub phys : ℕ → ℕ → ℕ
  pub kern_pgdir : ℕ

-- `cpu_status`
pub data CpuStatus : Type 0 where
  cpu_unused cpu_started cpu_halted : CpuStatus

-- The globals that one CPU works on. `curenv` is `thiscpu->cpu_env`; environments that run on the
-- other CPUs are those whose status is `env_running` and which are not `curenv`.
pub record Kernel : Type 0 where
  pub envs : ℕ → Env
  pub env_free_list : Option ℕ
  pub curenv : Option ℕ
  pub cpunum : ℕ
  pub cpu_status : CpuStatus
  pub kernel_locked : Bool
  pub cr3 : ℕ  -- the number of the page that holds the loaded directory
  pub mlfq_scheduler : MlfqScheduler
  pub runs_del_sched : ℕ
  pub mem : Memory

-- How a kernel function ends that may not return: it enters user mode in `curenv`, it halts the CPU
-- in the `hlt` loop, it stays in the monitor, it faults or panics, or it returns after all.
pub data Control : Type 0 where
  context_switch : Kernel → Control
  halted : Kernel → Control
  monitor : Kernel → Control
  fault : Control
  returned : Kernel → Control

-- The statement after a call is reached only if the call returns.
abbrev pub and_then : Control → (Kernel → Control) → Control
and_then (Control.returned k) f = f k
and_then c f = c

-- Error codes, as the negative `int`s that are returned.
abbrev pub e_bad_env : ℤ
e_bad_env = negsuc 1

abbrev pub e_inval : ℤ
e_inval = negsuc 2

abbrev pub e_no_mem : ℤ
e_no_mem = negsuc 3

abbrev pub e_no_free_env : ℤ
e_no_free_env = negsuc 4

abbrev pub e_ipc_not_recv : ℤ
e_ipc_not_recv = negsuc 6
