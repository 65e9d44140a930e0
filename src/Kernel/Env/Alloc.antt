-- ===== src/Kernel/Env/Alloc.antt =====
-- What a successful `env_alloc` has done.
use features_operating_syste.Prelude.{
  ℕ, ◌^◌, ◌<◌, ◌≡◌, ◌≢◌, refl, ◌∙◌, ap, none, some, Option, ℤ, pos, arith, Option-cases, inl, inr,
  false,
}
use features_operating_syste.Kernel.Types.{Status, Puntero, Kernel, e_no_free_env, e_no_mem, Memory}
use features_operating_syste.Kernel.Queue.{
  obtener_cola, agregar_en, sched_agregar_env, encolar, cola_de, escribir,
}
use features_operating_syste.Kernel.Env.{
  envid2env, env_alloc, env_setup_vm, directorio_nuevo, env_nuevo, cola_del_padre, nuevo_env_id,
}
use features_operating_syste.Kernel.Env.Lookup.{nuevo_env_id_lem}
use features_operating_syste.Kernel.Run.{con_env}

-- The new environment, its slot, and the queue that it joined, in the state that is left.
pub record Creado (k : Kernel) (parent_id i : ℕ) (r : Kernel) : Type 0 where
  pub estaba_libre : k.env_free_list ≡ some i
  pub siguiente_libre : r.env_free_list ≡ (k.envs i).env_link
  pub identificador : (r.envs i).env_id ≡ nuevo_env_id (k.envs i).env_id i
  pub padre : (r.envs i).env_parent_id ≡ parent_id
  pub ejecutable : (r.envs i).env_status ≡ Status.env_runnable
  pub sin_ejecuciones : (r.envs i).ejecuciones ≡ 0
  pub directorio : (p : ℕ) × ((r.envs i).env_pgdir ≡ some p)
  pub actual : r.curenv ≡ k.curenv
  pub otros : (j : ℕ) → j ≢ i → r.envs j ≡ k.envs j
  pub prioridad : ℤ
  pub es_prioridad : (r.envs i).cola_actual ≡ prioridad
  pub puntero : Puntero
  pub es_puntero : obtener_cola prioridad ≡ some puntero
  pub colas :
      r.mlfq_scheduler
      ≡ escribir k.mlfq_scheduler puntero
          (encolar (nuevo_env_id (k.envs i).env_id i) (cola_de k puntero))

-- The state before `sched_agregar_env`, once the directory page is `p` and memory is `m`.
abbrev pub antes_de_encolar : Kernel → ℕ → ℕ → ℕ → Memory → Kernel
antes_de_encolar k parent_id i p m =
    let e = k.envs i in
    let k1 = con_env (record k { mem = m }) i (record e { env_pgdir = some p }) in
    let k2 = con_env k1 i (env_nuevo i parent_id (k1.envs i)) in
    record k2 { env_free_list = (k2.envs i).env_link }

-- Its own identifier leads `sched_agregar_env` back to the slot.
pub mismo_env_id :
    (k : Kernel) (parent_id i d : ℕ) (m : Memory)
    → ((antes_de_encolar k parent_id i d m).envs i).env_id ≡ nuevo_env_id (k.envs i).env_id i
unfolding env_nuevo
mismo_env_id k parent_id i d m = ground arith

pub agregar_en-Creado :
    (k : Kernel) (parent_id i d : ℕ) (m : Memory) (p : Puntero) (v : ℤ)
    → (k.envs i).env_id < 2 ^ 31
    → i < 1024
    → k.env_free_list ≡ some i
    → obtener_cola v ≡ some p
    → Creado k parent_id i
        (agregar_en p (antes_de_encolar k parent_id i d m) (nuevo_env_id (k.envs i).env_id i) v)
unfolding agregar_en env_nuevo
agregar_en-Creado k parent_id i d m p v b l libre es = record {
  estaba_libre = libre;
  siguiente_libre = ground arith;
  identificador = ground (arith, nuevo_env_id_lem (k.envs i).env_id i b l);
  padre = ground (arith, nuevo_env_id_lem (k.envs i).env_id i b l);
  ejecutable = ground (arith, nuevo_env_id_lem (k.envs i).env_id i b l);
  sin_ejecuciones = ground (arith, nuevo_env_id_lem (k.envs i).env_id i b l);
  directorio = (d, ground (arith, nuevo_env_id_lem (k.envs i).env_id i b l));
  actual = refl;
  otros = λ j ne. ground (arith, nuevo_env_id_lem (k.envs i).env_id i b l);
  prioridad = v;
  es_prioridad = ground (arith, nuevo_env_id_lem (k.envs i).env_id i b l);
  puntero = p;
  es_puntero = es;
  colas = refl;
}

-- The slot that `env_alloc` will take is a slot, and its identifier is not negative.
abbrev pub LibreValida : Kernel → Type 0
LibreValida k = (i : ℕ) → k.env_free_list ≡ some i → (i < 1024) × ((k.envs i).env_id < 2 ^ 31)

-- The priority that the new environment inherits.
abbrev heredada : Kernel → ℕ → ℤ
heredada k parent_id = cola_del_padre k (envid2env k parent_id false)

pub env_alloc_encola :
    (k : Kernel) (parent_id i d : ℕ) (m : Memory) {p : Puntero}
    → let kk = antes_de_encolar k parent_id i d m in
      k.env_free_list ≡ some i
      → directorio_nuevo k.mem ≡ some (some d, m)
      → obtener_cola (heredada kk parent_id) ≡ some p
      → env_alloc k parent_id
        ≡ some (pos 0, some i, agregar_en p kk (kk.envs i).env_id (heredada kk parent_id))
unfolding env_alloc env_setup_vm sched_agregar_env
env_alloc_encola k parent_id i d m libre dir es =
    rw (libre, env_alloc) (rw (dir, env_setup_vm) (rw (es, sched_agregar_env)))

env_alloc_null :
    (k : Kernel) (parent_id i d : ℕ) (m : Memory)
    → k.env_free_list ≡ some i
    → directorio_nuevo k.mem ≡ some (some d, m)
    → obtener_cola (heredada (antes_de_encolar k parent_id i d m) parent_id) ≡ none
    → env_alloc k parent_id ≡ none
unfolding env_alloc env_setup_vm sched_agregar_env
env_alloc_null k parent_id i d m libre dir es =
    rw (libre, env_alloc) (rw (dir, env_setup_vm) (rw (es, sched_agregar_env)))

env_alloc_sin_memoria :
    (k : Kernel) (parent_id i : ℕ) (m : Memory)
    → k.env_free_list ≡ some i
    → directorio_nuevo k.mem ≡ some (none, m)
    → env_alloc k parent_id ≡ some (e_no_mem, none, record k { mem = m })
unfolding env_alloc env_setup_vm
env_alloc_sin_memoria k parent_id i m libre dir = ground arith

env_alloc_panic :
    (k : Kernel) (parent_id i : ℕ)
    → k.env_free_list ≡ some i
    → directorio_nuevo k.mem ≡ none
    → env_alloc k parent_id ≡ none
unfolding env_alloc env_setup_vm
env_alloc_panic k parent_id i libre dir = rw (libre, env_alloc) (rw (dir, env_setup_vm))

env_alloc_llena :
    (k : Kernel) (parent_id : ℕ)
    → k.env_free_list ≡ none
    → env_alloc k parent_id ≡ some (e_no_free_env, none, k)
unfolding env_alloc
env_alloc_llena k parent_id libre = ground arith

-- The outcomes of `env_alloc` that are no fault: a new environment, or an error that leaves the
-- slots and the queues alone.
pub data Alojado (k : Kernel) (parent_id : ℕ) : Option (ℤ × Option ℕ × Kernel) → Type 0 where
  creado :
      {o : Option (ℤ × Option ℕ × Kernel)} (i : ℕ) (r : Kernel)
      → o ≡ some (pos 0, some i, r)
      → Creado k parent_id i r
      → Alojado k parent_id o
  sin_memoria :
      {o : Option (ℤ × Option ℕ × Kernel)} (m : Memory)
      → o ≡ some (e_no_mem, none, record k { mem = m })
      → Alojado k parent_id o
  sin_libres :
      {o : Option (ℤ × Option ℕ × Kernel)}
      → k.env_free_list ≡ none
      → o ≡ some (e_no_free_env, none, k)
      → Alojado k parent_id o
  fallo : {o : Option (ℤ × Option ℕ × Kernel)} → o ≡ none → Alojado k parent_id o

alojar_en :
    (k : Kernel) (parent_id i d : ℕ) (m : Memory)
    → LibreValida k
    → k.env_free_list ≡ some i
    → directorio_nuevo k.mem ≡ some (some d, m)
    → Alojado k parent_id (env_alloc k parent_id)
alojar_en k parent_id i d m v libre dir =
    let kk = antes_de_encolar k parent_id i d m in
    elim (Option-cases (obtener_cola (heredada kk parent_id))) [
      | inl null ↦ Alojado.fallo (env_alloc_null k parent_id i d m libre dir null)
      | inr (p, es) ↦
          Alojado.creado i
            (agregar_en p kk (nuevo_env_id (k.envs i).env_id i) (heredada kk parent_id))
            (env_alloc_encola k parent_id i d m libre dir es
              ∙ ap (λ x. some (pos 0, some i, agregar_en p kk x (heredada kk parent_id)))
                  (mismo_env_id k parent_id i d m))
            (agregar_en-Creado k parent_id i d m p (heredada kk parent_id) (v i libre).1
              (v i libre).0 libre es)
    ]

-- `env_alloc` creates an environment in the first free slot, fails with -E_NO_FREE_ENV exactly when
-- there is none or with -E_NO_MEM, or the kernel panics.
pub env_alloc-Alojado :
    (k : Kernel) (parent_id : ℕ) → LibreValida k → Alojado k parent_id (env_alloc k parent_id)
env_alloc-Alojado k parent_id v = elim (Option-cases k.env_free_list) [
  | inl llena ↦ Alojado.sin_libres llena (env_alloc_llena k parent_id llena)
  | inr (i, libre) ↦ elim (Option-cases (directorio_nuevo k.mem)) [
    | inl mal ↦ Alojado.fallo (env_alloc_panic k parent_id i libre mal)
    | inr ((none, m), dir) ↦ Alojado.sin_memoria m (env_alloc_sin_memoria k parent_id i m libre dir)
    | inr ((some d, m), dir) ↦ alojar_en k parent_id i d m v libre dir
  ]
]
