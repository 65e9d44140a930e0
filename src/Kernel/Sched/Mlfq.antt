-- ===== src/Kernel/Sched/Mlfq.antt =====
-- The decision of `prioridad_MLFQ`: whom it runs, and that it does not come back.
use native.Mathlib.Decide.{dec_lt}
use features_operating_syste.Prelude.{
  ℕ, ◌-◌, ◌<◌, ◌≡◌, ◌≢◌, refl, ◌∙◌, Option, none, some, arith, true, false, Option-cases, inl, inr,
  subst, sym,
}
use features_operating_syste.Kernel.Types.{envx, is_running, Puntero, Kernel, Control}
use features_operating_syste.Kernel.Queue.{cola_numero, cola_de, sched_agregar_env}
use features_operating_syste.Kernel.Queue.Move.{Caben}
use features_operating_syste.Kernel.Run.{env_run, sched_halt, contar}
use features_operating_syste.Kernel.Sched.{
  despachar, correr_desde, obtener_cola_mejor_prioridad, prioridad_mlfq, sin_ejecutables,
  contar_total,
}
use features_operating_syste.Kernel.Sched.Choice.{
  candidato, Eleccion, obtener_cola_mejor_prioridad-Eleccion, correr_desde-Parada,
}
use features_operating_syste.Kernel.Sched.Dispatch.{Despachado, despachar-Despachado}

-- The first entry that can run, in the queue of the smallest number that has one.
pub record Elegido (k : Kernel) (n id : ℕ) : Type 0 where
  pub es_cola : n < 4
  pub primero : candidato k n ≡ some id
  pub nadie_antes : (m : ℕ) → m < n → candidato k m ≡ none

distinto : {o : Option ℕ} {id : ℕ} → o ≡ none → o ≡ some id → ⊥
distinto a b = cc

-- The choice is determined by what `Eleccion` says of it.
Elegido-unico :
    {k : Kernel} {n id : ℕ} (o : Option (ℕ × Puntero))
    → Elegido k n id
    → Eleccion k o
    → o ≡ some (n, cola_numero n)
Elegido-unico {k} {n} none g e = absurd (distinto (e n g.es_cola) g.primero)
Elegido-unico {k} {n} (some (m, p)) g (lt, es, (id', hay), antes) = elim (dec_lt m n) [
  | yes l ↦ absurd (distinto (g.nadie_antes m l) hay)
  | no l ↦ elim (dec_lt n m) [
    | yes l' ↦ absurd (distinto (antes n l') g.primero)
    | no l' ↦ let igual : m ≡ n = omega arith in rw (es, igual)
  ]
]

prioridad_mlfq-Elegido :
    {n id : ℕ} (k : Kernel)
    → Elegido k n id
    → let q = cola_de k (cola_numero n) in
      prioridad_mlfq k ≡ correr_desde k (cola_numero n) n q.primero (q.ultimo - q.primero)
unfolding prioridad_mlfq
prioridad_mlfq-Elegido k g = rw (
  Elegido-unico (obtener_cola_mejor_prioridad k) g (obtener_cola_mejor_prioridad-Eleccion k),
  prioridad_mlfq,
)

-- Where the queues are well formed and fit into a ring, some queue has a runnable entry, and the
-- first such of the best queue has a directory, `prioridad_MLFQ` enters user mode in this entry,
-- counts the execution and takes the entry once out of its queue and puts it at the end of the
-- queue below (of the same queue for the last one). The other queues are untouched, no other
-- identifier comes or goes, and the queues still fit into a ring.
pub prioridad_mlfq-Despachado :
    {n id pgdir : ℕ} (k : Kernel)
    → Caben k.mlfq_scheduler
    → Elegido k n id
    → (k.envs (envx id)).env_pgdir ≡ some pgdir
    → (r : Kernel) × (prioridad_mlfq k ≡ Control.context_switch r) × Despachado k n id r
prioridad_mlfq-Despachado {n} {id} {pgdir} k c g pg =
    let q = cola_de k (cola_numero n) in
    let v = correr_desde-Parada k (cola_numero n) n q.primero (q.ultimo - q.primero) g.primero in
    let (r, entra, d) =
      despachar-Despachado k n v.en pgdir g.es_cola c v.desde (omega (arith, v.hasta, v.desde))
        (rw v.es_id pg) in
    (r, prioridad_mlfq-Elegido k g ∙ v.despacha ∙ entra, subst (λ x. Despachado k n x r) v.es_id d)

-- No entry of any queue can run.
abbrev pub NadieEspera : Kernel → Type 0
NadieEspera k = (m : ℕ) → m < 4 → candidato k m ≡ none

ninguna_cola : (k : Kernel) (o : Option (ℕ × Puntero)) → NadieEspera k → Eleccion k o → o ≡ none
ninguna_cola k none h e = refl
ninguna_cola k (some (m, p)) h (lt, es, (id', hay), antes) = absurd (distinto (h m lt) hay)

prioridad_mlfq-sin_ejecutables : (k : Kernel) → NadieEspera k → prioridad_mlfq k ≡ sin_ejecutables k
unfolding prioridad_mlfq
prioridad_mlfq-sin_ejecutables k h = rw (
  ninguna_cola k (obtener_cola_mejor_prioridad k) h (obtener_cola_mejor_prioridad-Eleccion k),
  prioridad_mlfq,
)

-- With no runnable entry, the current environment goes on if it is running, and otherwise the CPU
-- halts.
pub prioridad_mlfq_ociosa :
    (k : Kernel)
    → NadieEspera k
    → ((c : ℕ)
        → k.curenv ≡ some c
        → is_running (k.envs c).env_status ≡ true
        → prioridad_mlfq k ≡ env_run (contar (contar_total k) c) c)
      × (((c : ℕ) → k.curenv ≡ some c → is_running (k.envs c).env_status ≡ false)
          → prioridad_mlfq k ≡ sched_halt k)
unfolding sin_ejecutables
prioridad_mlfq_ociosa k h = (
  λ c e r. prioridad_mlfq-sin_ejecutables k h ∙ ground arith,
  λ parado. prioridad_mlfq-sin_ejecutables k h ∙ elim (Option-cases k.curenv) [
    | inl nadie ↦ ground arith
    | inr (c, e) ↦ ground (arith, parado c e)
  ],
)

env_run_no_vuelve : (k r : Kernel) (i : ℕ) → env_run k i ≢ Control.returned r
unfolding env_run
env_run_no_vuelve k r i = ground arith

sched_halt_no_vuelve : (k r : Kernel) → sched_halt k ≢ Control.returned r
unfolding sched_halt
sched_halt_no_vuelve k r = ground arith

despachar_no_vuelve :
    (k r : Kernel) (p : Puntero) (n i : ℕ) → despachar k p n i ≢ Control.returned r
unfolding despachar sched_agregar_env
despachar_no_vuelve k r p n i e = env_run_no_vuelve _ r _ e

sin_ejecutables_no_vuelve : (k r : Kernel) → sin_ejecutables k ≢ Control.returned r
unfolding sin_ejecutables
sin_ejecutables_no_vuelve k r = elim (Option-cases k.curenv) [
  | inl nadie ↦ ground (arith, sched_halt_no_vuelve k r)
  | inr (c, e) ↦
      ground (arith, sched_halt_no_vuelve k r, env_run_no_vuelve (contar (contar_total k) c) r c)
]

prioridad_no_vuelve :
    (k r : Kernel) (o : Option (ℕ × Puntero))
    → o ≡ obtener_cola_mejor_prioridad k
    → Eleccion k o
    → prioridad_mlfq k ≢ Control.returned r
unfolding prioridad_mlfq
prioridad_no_vuelve k r none es e v =
    sin_ejecutables_no_vuelve k r (sym (rw (← es, prioridad_mlfq)) ∙ v)
prioridad_no_vuelve k r (some (n, p)) es (lt, igual, (id, hay), antes) v =
    let q = cola_de k (cola_numero n) in
    let parada = correr_desde-Parada k (cola_numero n) n q.primero (q.ultimo - q.primero) hay in
    despachar_no_vuelve k r (cola_numero n) n parada.en
      (sym (rw (← es, igual, prioridad_mlfq) parada.despacha) ∙ v)

-- `prioridad_MLFQ` never returns to `sched_yield`, in any state.
pub prioridad_mlfq_no_vuelve : (k r : Kernel) → prioridad_mlfq k ≢ Control.returned r
prioridad_mlfq_no_vuelve k r =
    prioridad_no_vuelve k r (obtener_cola_mejor_prioridad k) refl
      (obtener_cola_mejor_prioridad-Eleccion k)
