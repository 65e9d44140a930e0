-- ===== src/Kernel/Syscall.antt =====
-- The system calls of scheduler/kern/syscall.c on environments and their priorities. `none` is a
-- fault of the kernel.
pub mod Priority
pub mod Lowering
use features_operating_syste.Prelude.{
  ℕ, Bool, true, false, not, ◌&&◌, ◌||◌, Option, none, some, ltb, ◌==◌, if◌then◌else◌, ℤ, pos,
  negsuc, ltb_ℤ, eqb_ℤ,
}
use features_operating_syste.Kernel.Types.{Status, Trapframe, Env, Kernel, Control, e_inval}
use features_operating_syste.Kernel.Queue.{sched_eliminar_env, sched_agregar_env}
use features_operating_syste.Kernel.Run.{con_env}
use features_operating_syste.Kernel.Sched.{Politica, sched_yield}
use features_operating_syste.Kernel.Env.{es_curenv, envid2env, env_alloc, env_destroy}

-- What a system call returns to its caller, with the state.
abbrev pub Retorno : Type 0
Retorno = Option (ℤ × Kernel)

abbrev pub es_cero : ℤ → Bool
es_cero (pos n) = n == 0
es_cero (negsuc n) = false

-- `if ((r = envid2env(envid, &env, checkperm))) return error;` and then the rest for slot `env`.
unfoldable pub con_envid : Kernel → ℕ → Bool → (ℤ → Retorno) → (ℕ → Retorno) → Retorno
con_envid k envid checkperm fallo resto = elim (envid2env k envid checkperm) [
  | none ↦ none
  | some (r, env) ↦ if es_cero r then elim env [ none ↦ none | some i ↦ resto i ] else fallo r
]

unfoldable pub sys_getenvid : Kernel → Option ℕ
sys_getenvid k = elim k.curenv [ none ↦ none | some c ↦ some (k.envs c).env_id ]

-- A system call that may end in `sched_yield`.
pub data Final : Type 0 where
  devuelve : ℤ → Kernel → Final
  no_vuelve : Control → Final

abbrev pub tras : Control → Final
tras (Control.returned k) = devuelve (pos 0) k
tras c = no_vuelve c

unfoldable pub sys_env_destroy : Politica → Kernel → ℕ → Final
sys_env_destroy politica k envid = elim (envid2env k envid true) [
  | none ↦ no_vuelve Control.fault
  | some (negsuc r, _) ↦ devuelve (negsuc r) k
  | some (pos r, none) ↦ no_vuelve Control.fault
  | some (pos r, some i) ↦ tras (env_destroy politica k i)
]

unfoldable pub sys_yield : Politica → Kernel → Control
sys_yield politica k = sched_yield politica k

-- The new slot after `env_alloc`: not runnable, and with the caller's registers but for the result.
unfoldable pub como_hijo : Kernel → ℕ → ℕ → Kernel
como_hijo k c i =
    let e = k.envs i in
    let tf = (k.envs c).env_tf in
    con_env k i
      (record e { env_status = Status.env_not_runnable; env_tf = record tf { reg_eax = 0 } })

-- The identifier of the child is returned as a 32-bit pattern below 2^31.
unfoldable pub sys_exofork : Kernel → Retorno
unfolding como_hijo
sys_exofork k = elim k.curenv [
  | none ↦ none
  | some c ↦ elim (env_alloc k (k.envs c).env_id) [
    | none ↦ none
    | some (r, none, k1) ↦ some (r, k1)
    | some (r, some i, k1) ↦ let k2 = como_hijo k1 c i in some (pos (k2.envs i).env_id, k2)
  ]
]

-- ENV_RUNNABLE is 2 and ENV_NOT_RUNNABLE is 4.
abbrev pub estado_de : ℤ → Option Status
estado_de s =
    if eqb_ℤ s (pos 2)
    then some Status.env_runnable
    else if eqb_ℤ s (pos 4)
    then some Status.env_not_runnable
    else none

unfoldable pub sys_env_set_status : Kernel → ℕ → ℤ → Retorno
unfolding con_envid
sys_env_set_status k envid status = elim (estado_de status) [
  | none ↦ some (e_inval, k)
  | some s ↦
      con_envid k envid true (λ r. some (r, k))
        λ i. let e = k.envs i in some (pos 0, con_env k i (record e { env_status = s }))
]

unfoldable pub sys_env_obtener_prioridad : Kernel → ℕ → Retorno
unfolding con_envid
sys_env_obtener_prioridad k env_id =
    con_envid k env_id false (λ r. some (r, k)) λ i. some ((k.envs i).cola_actual, k)

-- The three assignments that change the priority.
unfoldable pub cambiar_cola : Kernel → ℕ → ℤ → Retorno
cambiar_cola k i prioridad = elim (sched_eliminar_env k (k.envs i).env_id) [
  | none ↦ none
  | some k1 ↦ elim (sched_agregar_env k1 (k1.envs i).env_id prioridad) [
    | none ↦ none
    | some k2 ↦
        let e = k2.envs i in some (prioridad, con_env k2 i (record e { cola_actual = prioridad }))
  ]
]

-- `env != curenv && env->env_parent_id != curenv->env_id`; NULL is read only behind `&&`.
unfoldable pub ajeno : Kernel → ℕ → Option Bool
ajeno k i = if es_curenv k.curenv i then some false else elim k.curenv [
  | none ↦ none
  | some c ↦ some (not ((k.envs i).env_parent_id == (k.envs c).env_id))
]

-- `sys_env_asignar_prioridad` behind `envid2env`.
unfoldable pub asignar_en : Kernel → ℤ → ℕ → Retorno
unfolding cambiar_cola ajeno
asignar_en k prioridad i = elim (ajeno k i) [
  | none ↦ none
  | some true ↦ some (negsuc 0, k)
  | some false ↦
      if eqb_ℤ (k.envs i).cola_actual prioridad
      then some (prioridad, k)
      else if ltb_ℤ prioridad (k.envs i).cola_actual
      then some (negsuc 0, k)
      else cambiar_cola k i prioridad
]

unfoldable pub sys_env_asignar_prioridad : Kernel → ℕ → ℤ → Retorno
unfolding con_envid asignar_en
sys_env_asignar_prioridad k env_id prioridad =
    if ltb_ℤ prioridad (pos 0) || ltb_ℤ (pos 3) prioridad
    then some (negsuc 0, k)
    else con_envid k env_id false (λ r. some (negsuc 0, k)) (asignar_en k prioridad)
