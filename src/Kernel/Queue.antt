-- ===== src/Kernel/Queue.antt =====
-- The queue operations of scheduler/kern/sched.c. `none` is the fault of a NULL queue pointer, or a
-- loop that is still running when its fuel is spent.
pub mod Window
pub mod Remove
pub mod Move
pub mod Transfer
pub mod Promote
use features_operating_syste.Prelude.{
  ℕ, zero, suc, ◌+◌, ◌-◌, ◌%◌, Option, none, some, ltb, ◌==◌, if◌then◌else◌, update, ℤ, pos, negsuc,
}
use features_operating_syste.Kernel.Types.{
  nenv, envx, Cola, MlfqScheduler, Puntero, en_a, en_b, en_c, en_d, Kernel,
}

-- The `switch` of `obtener_cola`.
abbrev pub cola_numero : ℕ → Puntero
cola_numero n = if n == 0 then en_a else if n == 1 then en_b else if n == 2 then en_c else en_d

unfoldable pub obtener_cola : ℤ → Option Puntero
obtener_cola (negsuc n) = none
obtener_cola (pos n) = some (cola_numero n)

-- What the pointer points at.
abbrev pub leer : MlfqScheduler → Puntero → Cola
leer s en_a = s.cola_a
leer s en_b = s.cola_b
leer s en_c = s.cola_c
leer s en_d = s.cola_d

-- A write through the pointer.
abbrev pub escribir : MlfqScheduler → Puntero → Cola → MlfqScheduler
escribir s en_a q = record s { cola_a = q }
escribir s en_b q = record s { cola_b = q }
escribir s en_c q = record s { cola_c = q }
escribir s en_d q = record s { cola_d = q }

abbrev pub cola_de : Kernel → Puntero → Cola
cola_de k p = leer k.mlfq_scheduler p

abbrev pub con_cola : Kernel → Puntero → Cola → Kernel
con_cola k p q = record k { mlfq_scheduler = escribir k.mlfq_scheduler p q }

-- `cola->envs[cola->ultimo % NENV] = env_id; cola->ultimo++`
unfoldable pub encolar : ℕ → Cola → Cola
encolar env_id q = record q { envs = update q.envs (q.ultimo % nenv) env_id; ultimo = q.ultimo + 1 }

-- `sched_agregar_env` once the pointer is known not to be NULL.
unfoldable pub agregar_en : Puntero → Kernel → ℕ → ℤ → Kernel
agregar_en p k env_id valor_cola =
    let e = k.envs (envx env_id) in
    let k' = record k {
      envs = update k.envs (envx env_id) (record e { cola_actual = valor_cola });
    } in
    con_cola k' p (encolar env_id (cola_de k' p))

unfoldable pub sched_agregar_env : Kernel → ℕ → ℤ → Option Kernel
unfolding obtener_cola agregar_en
sched_agregar_env k env_id valor_cola = elim (obtener_cola valor_cola) [
  | none ↦ none
  | some p ↦ some (agregar_en p k env_id valor_cola)
]

-- `posicion` is an index into the ring.
unfoldable pub sched_borrar_env : Cola → ℕ → Cola
sched_borrar_env q posicion =
    if posicion == q.primero
    then record q { primero = q.primero + 1 }
    else let primero = q.envs (q.primero % nenv) in
      let objetivo = q.envs posicion in
      let auxiliar = primero in
      record q {
        envs = update (update q.envs (q.primero % nenv) objetivo) posicion auxiliar;
        primero = q.primero + 1;
      }

-- The loop of `sched_eliminar_env` from index `i`, with `n` indices left before `ultimo`.
unfoldable pub eliminar_desde : ℕ → Cola → ℕ → ℕ → Cola
eliminar_desde env_id q i zero = q
eliminar_desde env_id q i (suc n) =
    let resto = eliminar_desde env_id q (i + 1) n in
    if q.envs (i % nenv) == env_id then sched_borrar_env q (i % nenv) else resto

abbrev pub eliminar_de : ℕ → Cola → Cola
eliminar_de env_id q = eliminar_desde env_id q q.primero (q.ultimo - q.primero)

unfoldable pub sched_eliminar_env : Kernel → ℕ → Option Kernel
unfolding obtener_cola
sched_eliminar_env k env_id = elim (obtener_cola (k.envs (envx env_id)).cola_actual) [
  | none ↦ none
  | some p ↦ some (con_cola k p (eliminar_de env_id (cola_de k p)))
]

abbrev pub vaciar : Cola → Cola
vaciar q = record q { primero = 0; ultimo = 0 }

unfoldable pub vaciar_colas : Kernel → Kernel
vaciar_colas k =
    let s = k.mlfq_scheduler in
    record k {
      mlfq_scheduler = record s {
        cola_b = vaciar s.cola_b;
        cola_c = vaciar s.cola_c;
        cola_d = vaciar s.cola_d;
      };
    }

-- The loop of `promover_cola`. Its bound is read anew in every round, since `sched_agregar_env`
-- writes the queues.
unfoldable pub promover_desde : ℕ → Puntero → ℕ → Kernel → Option Kernel
promover_desde zero p i k = none
promover_desde (suc fuel) p i k =
    let q = cola_de k p in
    let ronda : Option Kernel = elim (sched_agregar_env k (q.envs (i % nenv)) (pos 0)) [
      | none ↦ none
      | some k' ↦ promover_desde fuel p (i + 1) k'
    ] in
    if ltb i q.ultimo then ronda else some k

-- The fuel lets the loop test its condition once more than there are entries.
unfoldable pub promover_cola : Puntero → Kernel → Option Kernel
promover_cola p k = let q = cola_de k p in promover_desde (q.ultimo - q.primero + 1) p q.primero k

infixl 5 ◌>>=◌
abbrev pub ◌>>=◌ : Option Kernel → (Kernel → Option Kernel) → Option Kernel
none >>= f = none
some k >>= f = f k

unfoldable pub promover_colas : Kernel → Option Kernel
promover_colas k0 = do
  k1 ← promover_cola en_b k0
  k2 ← promover_cola en_c k1
  k3 ← promover_cola en_d k2
  some (vaciar_colas k3)
