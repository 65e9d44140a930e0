-- ===== src/Kernel/Syscall/Priority.antt =====
-- What a process can do to priorities through the system calls.
use features_operating_syste.Prelude.{
  ℕ, ◌≡◌, ◌≢◌, ◌||◌, refl, sym, ◌∙◌, ap, none, some, Option, ℤ, pos, negsuc, arith, ltb_ℤ, eqb_ℤ,
  inl, inr, true, false, Option-cases, Bool-cases,
}
use features_operating_syste.Kernel.Types.{envx, Kernel, Puntero}
use features_operating_syste.Kernel.Queue.{
  obtener_cola, cola_de, con_cola, eliminar_de, encolar, agregar_en, sched_eliminar_env,
  sched_agregar_env, leer, escribir,
}
use features_operating_syste.Kernel.Run.{con_env}
use features_operating_syste.Kernel.Env.{envid2env}
use features_operating_syste.Kernel.Env.Lookup.{Permitido, envid2env_sound}
use features_operating_syste.Kernel.Syscall.{
  con_envid, cambiar_cola, ajeno, asignar_en, es_cero, sys_env_asignar_prioridad,
}

-- The queues and slots after a change of priority from queue `p` to queue `p'`.
pub record Cambiado (k : Kernel) (i : ℕ) (prioridad : ℤ) (r : Kernel) : Type 0 where
  pub nueva : (r.envs i).cola_actual ≡ prioridad
  pub no_mejora : ltb_ℤ prioridad (k.envs i).cola_actual ≡ false
  pub otros : (j : ℕ) → j ≢ i → r.envs j ≡ k.envs j
  pub mismo_estado : (r.envs i).env_status ≡ (k.envs i).env_status
  pub origen : Puntero
  pub es_origen : obtener_cola (k.envs i).cola_actual ≡ some origen
  pub destino : Puntero
  pub es_destino : obtener_cola prioridad ≡ some destino
  pub colas : r.mlfq_scheduler ≡ (
      let s =
        escribir k.mlfq_scheduler origen
          (eliminar_de (k.envs i).env_id (leer k.mlfq_scheduler origen)) in
      escribir s destino (encolar (k.envs i).env_id (leer s destino)))

sched_eliminar_lem :
    (k : Kernel) (id : ℕ) {p : Puntero}
    → obtener_cola (k.envs (envx id)).cola_actual ≡ some p
    → sched_eliminar_env k id ≡ some (con_cola k p (eliminar_de id (cola_de k p)))
unfolding sched_eliminar_env
sched_eliminar_lem k id e = rw (e, sched_eliminar_env)

sched_eliminar_null :
    (k : Kernel) (id : ℕ)
    → obtener_cola (k.envs (envx id)).cola_actual ≡ none
    → sched_eliminar_env k id ≡ none
unfolding sched_eliminar_env
sched_eliminar_null k id e = rw (e, sched_eliminar_env)

-- The state of `cambiar_cola` when both pointers are valid.
abbrev pub cambiado : Kernel → ℕ → ℤ → Puntero → Puntero → Kernel
cambiado k i prioridad p p' =
    let id = (k.envs i).env_id in
    let k2 = agregar_en p' (con_cola k p (eliminar_de id (cola_de k p))) id prioridad in
    let e = k2.envs i in con_env k2 i (record e { cola_actual = prioridad })

pub cambiado-Cambiado :
    (k : Kernel) (i : ℕ) (prioridad : ℤ) (p p' : Puntero)
    → envx (k.envs i).env_id ≡ i
    → obtener_cola (k.envs i).cola_actual ≡ some p
    → obtener_cola prioridad ≡ some p'
    → ltb_ℤ prioridad (k.envs i).cola_actual ≡ false
    → Cambiado k i prioridad (cambiado k i prioridad p p')
unfolding agregar_en
cambiado-Cambiado k i prioridad p p' propio es es' peor = record {
  nueva = ground arith;
  no_mejora = peor;
  otros = λ j ne. ground arith;
  mismo_estado = ground arith;
  origen = p;
  es_origen = es;
  destino = p';
  es_destino = es';
  colas = refl;
}

pub cambiar_cola_ok :
    (k : Kernel) (i : ℕ) (prioridad : ℤ) {p p' : Puntero}
    → envx (k.envs i).env_id ≡ i
    → obtener_cola (k.envs i).cola_actual ≡ some p
    → obtener_cola prioridad ≡ some p'
    → cambiar_cola k i prioridad ≡ some (prioridad, cambiado k i prioridad p p')
unfolding cambiar_cola sched_agregar_env
cambiar_cola_ok k i prioridad {p} propio es es' =
    rw (sched_eliminar_lem k (k.envs i).env_id {p = p} (rw propio es), cambiar_cola)
      (rw (es', sched_agregar_env))

cambiar_cola_null :
    (k : Kernel) (i : ℕ) (prioridad : ℤ)
    → envx (k.envs i).env_id ≡ i
    → obtener_cola (k.envs i).cola_actual ≡ none
    → cambiar_cola k i prioridad ≡ none
unfolding cambiar_cola
cambiar_cola_null k i prioridad propio es =
    rw (sched_eliminar_null k (k.envs i).env_id (rw propio es), cambiar_cola)

cambiar_cola_negativa :
    (k : Kernel) (i : ℕ) (prioridad : ℤ) {p : Puntero}
    → envx (k.envs i).env_id ≡ i
    → obtener_cola (k.envs i).cola_actual ≡ some p
    → obtener_cola prioridad ≡ none
    → cambiar_cola k i prioridad ≡ none
unfolding cambiar_cola sched_agregar_env
cambiar_cola_negativa k i prioridad {p} propio es es' =
    rw (sched_eliminar_lem k (k.envs i).env_id {p = p} (rw propio es), cambiar_cola)
      (rw (es', sched_agregar_env))

-- The outcomes of an assignment that got past `envid2env`.
pub data Asignado (k : Kernel) (i : ℕ) (prioridad : ℤ) : Option (ℤ × Kernel) → Type 0 where
  rechazado : {o : Option (ℤ × Kernel)} → o ≡ some (negsuc 0, k) → Asignado k i prioridad o
  ya_tenia :
      {o : Option (ℤ × Kernel)}
      → Permitido k i
      → eqb_ℤ (k.envs i).cola_actual prioridad ≡ true
      → o ≡ some (prioridad, k)
      → Asignado k i prioridad o
  cambiada :
      {o : Option (ℤ × Kernel)} (r : Kernel)
      → Permitido k i
      → Cambiado k i prioridad r
      → o ≡ some (prioridad, r)
      → Asignado k i prioridad o
  fallo : {o : Option (ℤ × Kernel)} → o ≡ none → Asignado k i prioridad o

cambiar_cola-Asignado :
    (k : Kernel) (i : ℕ) (prioridad : ℤ)
    → Permitido k i
    → envx (k.envs i).env_id ≡ i
    → ltb_ℤ prioridad (k.envs i).cola_actual ≡ false
    → Asignado k i prioridad (cambiar_cola k i prioridad)
cambiar_cola-Asignado k i prioridad permiso propio peor =
    elim (Option-cases (obtener_cola (k.envs i).cola_actual)) [
      | inl null ↦ Asignado.fallo (cambiar_cola_null k i prioridad propio null)
      | inr (p, es) ↦ elim (Option-cases (obtener_cola prioridad)) [
        | inl null ↦ Asignado.fallo (cambiar_cola_negativa k i prioridad propio es null)
        | inr (p', es') ↦
            Asignado.cambiada (cambiado k i prioridad p p') permiso
              (cambiado-Cambiado k i prioridad p p' propio es es' peor)
              (cambiar_cola_ok k i prioridad propio es es')
      ]
    ]

ajeno-Permitido : (k : Kernel) (i : ℕ) → ajeno k i ≡ some false → Permitido k i
unfolding ajeno
ajeno-Permitido k i h = elim (Option-cases k.curenv) [
  | inl nadie ↦ ground arith
  | inr (c, e) ↦ ground arith
]

asignar_en-Asignado :
    (k : Kernel) (prioridad : ℤ) (i : ℕ)
    → envx (k.envs i).env_id ≡ i
    → Asignado k i prioridad (asignar_en k prioridad i)
unfolding asignar_en
asignar_en-Asignado k prioridad i propio = elim (Option-cases (ajeno k i)) [
  | inl null ↦ Asignado.fallo (rw (null, asignar_en))
  | inr (true, es) ↦ Asignado.rechazado (ground arith)
  | inr (false, es) ↦ elim (Bool-cases (eqb_ℤ (k.envs i).cola_actual prioridad)) [
    | inl mismo ↦ Asignado.ya_tenia (ajeno-Permitido k i es) mismo (ground arith)
    | inr otro ↦ elim (Bool-cases (ltb_ℤ prioridad (k.envs i).cola_actual)) [
      | inl mejor ↦ Asignado.rechazado (ground arith)
      | inr peor ↦
          rw (es, otro, peor, asignar_en)
            (cambiar_cola-Asignado k i prioridad (ajeno-Permitido k i es) propio peor)
    ]
  ]
]

-- What `con_envid` does with each result of `envid2env`.
con_envid-Asignado :
    (k : Kernel) (env_id : ℕ) (prioridad : ℤ) (o : Option (ℤ × Option ℕ))
    → env_id ≢ 0
    → envid2env k env_id false ≡ o
    → Asignado k
        (envx env_id)
        prioridad
        (con_envid k env_id false (λ r. some (negsuc 0, k)) (asignar_en k prioridad))
unfolding con_envid
con_envid-Asignado k env_id prioridad none ne e = Asignado.fallo (rw (e, con_envid))
con_envid-Asignado k env_id prioridad (some (r, none)) ne e = elim (Bool-cases (es_cero r)) [
  | inl cero ↦ Asignado.fallo (rw (e, con_envid) (rw cero))
  | inr error ↦ Asignado.rechazado (rw (e, con_envid) (rw error))
]
con_envid-Asignado k env_id prioridad (some (r, some i)) ne e = elim (Bool-cases (es_cero r)) [
  | inl cero ↦
      let v = envid2env_sound k env_id false ne e in
      let propio : envx (k.envs i).env_id ≡ i = ap envx v.2 ∙ sym v.1 in
      rw (e, con_envid) (rw (cero, ← v.1) (asignar_en-Asignado k prioridad i propio))
  | inr error ↦ Asignado.rechazado (rw (e, con_envid) (rw error))
]

-- An assignment of priority to an identifier other than 0 either is refused with -1 and changes
-- nothing, or finds the priority already set, or lowers it (its number grows or stays) and moves the
-- identifier to the end of the new queue, no other slot changing. The last two need the caller to be
-- the environment itself or its parent. The remaining outcome is a fault.
sys_env_asignar_prioridad-Asignado :
    (k : Kernel) (env_id : ℕ) (prioridad : ℤ)
    → env_id ≢ 0
    → Asignado k (envx env_id) prioridad (sys_env_asignar_prioridad k env_id prioridad)
unfolding sys_env_asignar_prioridad
sys_env_asignar_prioridad-Asignado k env_id prioridad ne =
    elim (Bool-cases (ltb_ℤ prioridad (pos 0) || ltb_ℤ (pos 3) prioridad)) [
      | inl fuera ↦ Asignado.rechazado (rw fuera)
      | inr dentro ↦
          rw dentro (con_envid-Asignado k env_id prioridad (envid2env k env_id false) ne refl)
    ]
