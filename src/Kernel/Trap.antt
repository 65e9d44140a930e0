-- ===== src/Kernel/Trap.antt =====
-- `trap`, `trap_dispatch` and `page_fault_handler` of scheduler/kern/trap.c.
pub mod Stack
use features_operating_syste.Prelude.{
  ℕ, ◌+◌, ◌-◌, ◌%◌, ◌^◌, Bool, true, false, not, ◌&&◌, ◌||◌, Option, none, some, List, [], ◌∷◌, ltb,
  ◌==◌, if◌then◌else◌, ℤ,
}
use features_operating_syste.Kernel.Types.{
  is_dying, is_running, Trapframe, Env, CpuStatus, Memory, Kernel, Control, and_then,
}
use features_operating_syste.Kernel.Run.{con_env, env_run}
use features_operating_syste.Kernel.Sched.{Politica, sched_yield}
use features_operating_syste.Kernel.Env.{env_free, env_destroy}
use features_operating_syste.Kernel.Syscall.{Final}
use features_operating_syste.Kernel.Dispatch.{user_mem_assert, como_palabra, syscall}

-- What the handler gets from the machine: the address in CR2, the console's next character, and the
-- write of words at an address of the loaded address space (`none` is a fault in the kernel).
pub record Maquina : Type 0 where
  pub rcr2 : ℕ
  pub cons_getc : ℤ
  pub escribir : ℕ → ℕ → List ℕ → Memory → Option Memory

-- The frame on the kernel's stack. The registers of `tf_regs` other than EAX are numbered in
-- their order: EDI 0, ESI 1, EBX 4, EDX 5, ECX 6.
pub record Trampa : Type 0 where
  pub trapno : ℕ
  pub err : ℕ
  pub tf : Trapframe

-- UXSTACKTOP - PGSIZE and UXSTACKTOP - 1
abbrev pub exstk : ℕ
exstk = 0xeebff000

abbrev pub exstk_top : ℕ
exstk_top = 0xeebfffff

-- `sizeof(struct UTrapframe)` is 52.
abbrev pub recursiva : ℕ → Bool
recursiva esp = not (ltb esp exstk || ltb exstk_top esp)

-- Where the frame of a fault is put for a stack pointer.
abbrev pub destino : ℕ → ℕ
destino esp = if recursiva esp then esp - 4 - 52 else exstk_top - 52

-- The fields of `struct UTrapframe` as words.
abbrev pub utrapframe : ℕ → Trampa → Trapframe → List ℕ
utrapframe fault_va t tf =
    fault_va
    ∷ t.err
    ∷ tf.other_regs 0
    ∷ tf.other_regs 1
    ∷ tf.other_regs 2
    ∷ tf.other_regs 3
    ∷ tf.other_regs 4
    ∷ tf.other_regs 5
    ∷ tf.other_regs 6
    ∷ tf.reg_eax
    ∷ tf.tf_eip
    ∷ tf.tf_eflags
    ∷ tf.tf_esp
    ∷ []

-- The word 0 of a recursive fault, and then the frame.
unfoldable pub escribir_marco : Maquina → Kernel → ℕ → List ℕ → Option Memory
escribir_marco q k esp marco =
    elim (if recursiva esp then q.escribir k.cr3 (esp - 4) (0 ∷ []) k.mem else some k.mem) [
      | none ↦ none
      | some m ↦ q.escribir k.cr3 (destino esp) marco m
    ]

-- `page_fault_handler` from `user_mem_assert` on, for the current environment `c`.
unfoldable pub subir_fallo : Maquina → Trampa → Kernel → ℕ → Control
unfolding escribir_marco
subir_fallo q t k c =
    let e = k.envs c in
    let tf = e.env_tf in
    let tmp = destino tf.tf_esp in
    elim (escribir_marco q k tf.tf_esp (utrapframe q.rcr2 t tf)) [
      | none ↦ Control.fault
      | some m ↦
          if ltb tmp exstk || ltb exstk_top tmp
          then Control.fault
          else env_run
              (con_env (record k { mem = m }) c
                (record e { env_tf = record tf { tf_esp = tmp; tf_eip = e.env_pgfault_upcall } }))
              c
    ]

-- A fault of the kernel panics; `tf` is `curenv->env_tf` for one of user mode. PTE_U | PTE_W is 6.
unfoldable pub page_fault_handler : Politica → Maquina → Trampa → Kernel → Control
unfolding user_mem_assert subir_fallo
page_fault_handler politica q t k = if t.tf.tf_cs % 4 == 0 then Control.fault else elim k.curenv [
  | none ↦ Control.fault
  | some c ↦
      if (k.envs c).env_pgfault_upcall == 0
      then env_destroy politica k c
      else and_then (user_mem_assert politica k c exstk 4096 6) λ k1. subir_fallo q t k1 c
]

-- `tf->tf_regs.reg_eax = …`, where the frame is that of a slot; nothing reads the kernel's own.
abbrev pub con_eax : Option ℕ → ℕ → Kernel → Kernel
con_eax none r k = k
con_eax (some c) r k =
    let e = k.envs c in
    let tf = e.env_tf in con_env k c (record e { env_tf = record tf { reg_eax = r } })

-- `donde` is the slot whose frame is handled, or none in the kernel. The monitor only prints. GD_KT is 8.
unfoldable pub trap_dispatch : Politica → Maquina → Option ℕ → Trampa → Kernel → Control
unfolding page_fault_handler syscall
trap_dispatch politica q donde t k =
    let tf = t.tf in
    let r = tf.other_regs in
    if t.trapno == 3
    then Control.returned k
    else if t.trapno == 14
    then page_fault_handler politica q t k
    else if t.trapno == 48
    then (elim (syscall politica q.cons_getc k tf.reg_eax (r 5) (r 6) (r 4) (r 0) (r 1)) [
      | Final.devuelve z k1 ↦ Control.returned (con_eax donde (como_palabra z) k1)
      | Final.no_vuelve c ↦ c
    ])
    else if t.trapno == 39
    then Control.returned k
    else if t.trapno == 32
    then sched_yield politica k
    else if tf.tf_cs == 8
    then Control.fault
    else elim k.curenv [ none ↦ Control.fault | some c ↦ env_destroy politica k c ]

-- The end of `trap`.
unfoldable pub volver : Politica → Kernel → Control
volver politica k = elim k.curenv [
  | none ↦ sched_yield politica k
  | some c ↦ if is_running (k.envs c).env_status then env_run k c else sched_yield politica k
]

-- `trap` in user mode from `assert(curenv)` on. Behind `sched_yield` the NULL `curenv` would be read.
unfoldable pub trap_usuario : Politica → Maquina → Trampa → Kernel → Control
unfolding trap_dispatch volver
trap_usuario politica q t k = elim k.curenv [
  | none ↦ Control.fault
  | some c ↦
      let e = k.envs c in
      if is_dying e.env_status
      then (elim (env_free k c) [
        | none ↦ Control.fault
        | some k1 ↦ and_then (sched_yield politica (record k1 { curenv = none })) λ _. Control.fault
      ])
      else and_then (trap_dispatch politica q (some c) t (con_env k c (record e { env_tf = t.tf })))
          (volver politica)
]

abbrev pub es_halted : CpuStatus → Bool
es_halted CpuStatus.cpu_halted = true
es_halted s = false

-- No CPU has called `panic`, and interrupts are off.
unfoldable pub trap : Politica → Maquina → Trampa → Kernel → Control
unfolding trap_usuario
trap politica q t k =
    let k1 = record k {
      cpu_status = CpuStatus.cpu_started;
      kernel_locked = es_halted k.cpu_status || k.kernel_locked;
    } in
    if t.tf.tf_cs % 4 == 3
    then trap_usuario politica q t (record k1 { kernel_locked = true })
    else and_then (trap_dispatch politica q none t k1) (volver politica)
