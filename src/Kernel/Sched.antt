-- ===== src/Kernel/Sched.antt =====
-- The two policies of scheduler/kern/sched.c and `sched_yield`.
pub mod Choice
pub mod RoundRobin
pub mod Fairness
pub mod Yield
pub mod Mlfq
pub mod Dispatch
use features_operating_syste.Prelude.{
  ℕ, zero, suc, ◌+◌, ◌-◌, ◌%◌, Option, none, some, leb, if◌then◌else◌, pos,
}
use features_operating_syste.Kernel.Types.{
  nenv, envx, is_runnable, is_running, Env, Cola, Puntero, Kernel, Control, and_then,
}
use features_operating_syste.Kernel.Queue.{
  cola_numero, cola_de, con_cola, sched_borrar_env, sched_agregar_env, promover_colas,
}
use features_operating_syste.Kernel.Run.{contar, env_run, sched_halt}

-- `curenv ? ENVX(curenv->env_id) + 1 : 0`
abbrev pub index_inicial : Kernel → ℕ
index_inicial k = elim k.curenv [ none ↦ 0 | some c ↦ envx (k.envs c).env_id + 1 ]

-- What `round_robin` does behind its loop.
unfoldable pub seguir_actual : Kernel → Control
seguir_actual k = elim k.curenv [
  | none ↦ Control.returned k
  | some c ↦ if is_running (k.envs c).env_status then env_run (contar k c) c else Control.returned k
]

-- The loop of `round_robin` at `i`, with `n` rounds left.
unfoldable pub ronda_desde : Kernel → ℕ → ℕ → ℕ → Control
ronda_desde k inicial i zero = seguir_actual k
ronda_desde k inicial i (suc n) =
    let resto = ronda_desde k inicial (i + 1) n in
    let actual = (inicial + i) % nenv in
    if is_runnable (k.envs actual).env_status then env_run (contar k actual) actual else resto

unfoldable pub round_robin : Kernel → Control
round_robin k = ronda_desde k (index_inicial k) 0 nenv

-- The loop of `tiene_entornos_ejecutables`; `none` is the result -1.
unfoldable pub ejecutables_desde : (ℕ → Env) → Cola → ℕ → ℕ → ℕ → Option ℕ
ejecutables_desde envs q posicion_cola i zero = none
ejecutables_desde envs q posicion_cola i (suc n) =
    let resto = ejecutables_desde envs q posicion_cola (i + 1) n in
    if is_runnable (envs (envx (q.envs (i % nenv)))).env_status then some posicion_cola else resto

unfoldable pub tiene_entornos_ejecutables : (ℕ → Env) → Cola → ℕ → Option ℕ
tiene_entornos_ejecutables envs q posicion_cola =
    ejecutables_desde envs q posicion_cola q.primero (q.ultimo - q.primero)

-- The loop of `obtener_cola_mejor_prioridad` at queue `i`, with `n` queues left. The result is the
-- number returned with the pointer stored; `none` is -1, and nothing stored.
unfoldable pub mejor_desde : Kernel → ℕ → ℕ → Option (ℕ × Puntero)
mejor_desde k i zero = none
mejor_desde k i (suc n) =
    let resto = mejor_desde k (i + 1) n in
    let cola_local = cola_numero i in
    elim (tiene_entornos_ejecutables k.envs (cola_de k cola_local) i) [
      | none ↦ resto
      | some _ ↦ some (i, cola_local)
    ]

-- COLAS_MAXIMAS
abbrev pub colas_maximas : ℕ
colas_maximas = 4

unfoldable pub obtener_cola_mejor_prioridad : Kernel → Option (ℕ × Puntero)
obtener_cola_mejor_prioridad k = mejor_desde k 0 colas_maximas

-- `numero_cola >= COLAS_MAXIMAS - 1 ? COLAS_MAXIMAS - 1 : numero_cola + 1`
abbrev pub nuevo_numero_cola : ℕ → ℕ
nuevo_numero_cola n = if leb 3 n then 3 else n + 1

-- `mlfq_scheduler.ejecuciones_totales++`
abbrev pub contar_total : Kernel → Kernel
contar_total k =
    let s = k.mlfq_scheduler in
    record k { mlfq_scheduler = record s { ejecuciones_totales = s.ejecuciones_totales + 1 } }

-- The body of the loop of `prioridad_MLFQ` for a runnable entry at index `i` of the queue.
unfoldable pub despachar : Kernel → Puntero → ℕ → ℕ → Control
despachar k p numero_cola i =
    let q = cola_de k p in
    let siguiente = q.envs (i % nenv) in
    let k1 = con_cola k p (sched_borrar_env q (i % nenv)) in
    elim (sched_agregar_env k1 siguiente (pos (nuevo_numero_cola numero_cola))) [
      | none ↦ Control.fault
      | some k2 ↦ env_run (contar (contar_total k2) (envx siguiente)) (envx siguiente)
    ]

unfoldable pub correr_desde : Kernel → Puntero → ℕ → ℕ → ℕ → Control
correr_desde k p numero_cola i zero = Control.returned k
correr_desde k p numero_cola i (suc n) =
    let resto = correr_desde k p numero_cola (i + 1) n in
    let siguiente = (cola_de k p).envs (i % nenv) in
    if is_runnable (k.envs (envx siguiente)).env_status then despachar k p numero_cola i else resto

-- `prioridad_MLFQ` when no queue has a runnable environment.
unfoldable pub sin_ejecutables : Kernel → Control
sin_ejecutables k = elim k.curenv [
  | none ↦ sched_halt k
  | some c ↦
      if is_running (k.envs c).env_status
      then env_run (contar (contar_total k) c) c
      else sched_halt k
]

unfoldable pub prioridad_mlfq : Kernel → Control
prioridad_mlfq k = elim (obtener_cola_mejor_prioridad k) [
  | none ↦ sin_ejecutables k
  | some (numero_cola, p) ↦
      let q = cola_de k p in correr_desde k p numero_cola q.primero (q.ultimo - q.primero)
]

-- MAX_EJECUCIONES_MLFQ
abbrev pub max_ejecuciones_mlfq : ℕ
max_ejecuciones_mlfq = 50

-- `promover_colas(); mlfq_scheduler.ejecuciones_totales = 0;` every 50 executions.
unfoldable pub promover_si_toca : Kernel → Option Kernel
promover_si_toca k =
    if leb max_ejecuciones_mlfq k.mlfq_scheduler.ejecuciones_totales
    then elim (promover_colas k) [
      | none ↦ none
      | some k' ↦
          let s = k'.mlfq_scheduler in
          some (record k' { mlfq_scheduler = record s { ejecuciones_totales = 0 } })
    ]
    else some k

-- SCHED_ROUND_ROBIN or SCHED_PRIORITIES: the GNUmakefile defines one of the two.
pub data Politica : Type 0 where
  sched_round_robin sched_priorities : Politica

unfoldable pub planificar : Politica → Kernel → Control
planificar Politica.sched_round_robin k = round_robin k
planificar Politica.sched_priorities k = elim (promover_si_toca k) [
  | none ↦ Control.fault
  | some k' ↦ prioridad_mlfq k'
]

unfoldable pub sched_yield : Politica → Kernel → Control
sched_yield politica k =
    and_then (planificar politica (record k { runs_del_sched = k.runs_del_sched + 1 })) sched_halt
