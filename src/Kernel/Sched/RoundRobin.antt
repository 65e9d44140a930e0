-- ===== src/Kernel/Sched/RoundRobin.antt =====
-- The turn that `round_robin` gives, the halt of `sched_halt`, and the promotion that `sched_yield`
-- makes every 50 executions.
use native.Mathlib.Decide.{dec_lt}
use features_operating_syste.Prelude.{
  ℕ, zero, suc, ◌+◌, ◌%◌, ◌≤◌, ◌<◌, ◌≡◌, refl, ◌∙◌, none, some, true, false, arith, Bool-cases, inl,
  inr,
}
use features_operating_syste.Kernel.Types.{is_runnable, CpuStatus, Env, Kernel, Control}
use features_operating_syste.Kernel.Queue.Move.{Caben}
use features_operating_syste.Kernel.Queue.Promote.{Promovido, promover_colas-Promovido}
use features_operating_syste.Kernel.Run.{contar, env_run, esta_activo, hay_activo_desde, sched_halt}
use features_operating_syste.Kernel.Sched.{
  index_inicial, seguir_actual, ronda_desde, round_robin, promover_si_toca,
}

-- The slot that the loop of `round_robin` looks at in its round `i`.
abbrev pub ranura : Kernel → ℕ → ℕ
ranura k i = (index_inicial k + i) % 1024

abbrev pub CorreEn : Kernel → ℕ → Type 0
CorreEn k i = is_runnable (k.envs (ranura k i)).env_status ≡ true

abbrev pub EsperaEn : Kernel → ℕ → Type 0
EsperaEn k i = is_runnable (k.envs (ranura k i)).env_status ≡ false

ronda_para :
    (k : Kernel) (i n : ℕ)
    → CorreEn k i
    → ronda_desde k (index_inicial k) i (suc n) ≡ env_run (contar k (ranura k i)) (ranura k i)
unfolding ronda_desde
ronda_para k i n h = ground arith

ronda_sigue :
    (k : Kernel) (i n : ℕ)
    → EsperaEn k i
    → ronda_desde k (index_inicial k) i (suc n) ≡ ronda_desde k (index_inicial k) (i + 1) n
unfolding ronda_desde
ronda_sigue k i n h = ground arith

ronda_desde_turno :
    (k : Kernel) (t i n : ℕ)
    → i ≤ t
    → t < i + n
    → CorreEn k t
    → ((m : ℕ) → m < t → EsperaEn k m)
    → ronda_desde k (index_inicial k) i n ≡ env_run (contar k (ranura k t)) (ranura k t)
ronda_desde_turno k t i zero lo hi h antes = absurd (omega arith)
ronda_desde_turno k t i (suc n) lo hi h antes = elim (dec_lt i t) [
  | yes l ↦
      ronda_sigue k i n (antes i l)
      ∙ ronda_desde_turno k t (i + 1) n (omega arith) (omega arith) h antes
  | no l ↦ let igual : i ≡ t = omega arith in rw igual (ronda_para k t n h)
]

-- Where the slot of round `t` is runnable and those of the rounds before are not, `round_robin` runs
-- it, with its execution counted; the rounds go round the array from behind the current slot.
pub round_robin_turno :
    (k : Kernel) (t : ℕ)
    → t < 1024
    → CorreEn k t
    → ((m : ℕ) → m < t → EsperaEn k m)
    → round_robin k ≡ env_run (contar k (ranura k t)) (ranura k t)
unfolding round_robin
round_robin_turno k t l h antes = ronda_desde_turno k t 0 1024 (omega arith) l h antes

ronda_desde_vacia :
    (k : Kernel) (i n : ℕ)
    → i + n ≡ 1024
    → ((m : ℕ) → m < 1024 → EsperaEn k m)
    → ronda_desde k (index_inicial k) i n ≡ seguir_actual k
ronda_desde_vacia k i zero e h = unfold ronda_desde in refl
ronda_desde_vacia k i (suc n) e h =
    ronda_sigue k i n (h i (omega arith)) ∙ ronda_desde_vacia k (i + 1) n (omega arith) h

-- With no runnable slot it goes on with the current environment, or returns.
pub round_robin_vacio :
    (k : Kernel) → ((m : ℕ) → m < 1024 → EsperaEn k m) → round_robin k ≡ seguir_actual k
unfolding round_robin
round_robin_vacio k h = ronda_desde_vacia k 0 1024 refl h

hay_activo_desde_falso :
    (envs : ℕ → Env) (i n j : ℕ)
    → hay_activo_desde envs i n ≡ false
    → i ≤ j
    → j < i + n
    → esta_activo (envs j) ≡ false
unfolding hay_activo_desde
hay_activo_desde_falso envs i zero j h lo hi = absurd (omega arith)
hay_activo_desde_falso envs i (suc n) j h lo hi = elim (dec_lt i j) [
  | yes l ↦ hay_activo_desde_falso envs (i + 1) n j (ground arith) (omega arith) (omega arith)
  | no l ↦ let igual : i ≡ j = omega arith in rw igual at (primero envs i n h)
]
  where
    primero :
        (envs : ℕ → Env) (i n : ℕ)
        → hay_activo_desde envs i (suc n) ≡ false
        → esta_activo (envs i) ≡ false
    primero envs i n h = unfold hay_activo_desde in ground arith

hay_activo_desde_vacio :
    (envs : ℕ → Env) (i n : ℕ)
    → ((j : ℕ) → j < i + n → esta_activo (envs j) ≡ false)
    → hay_activo_desde envs i n ≡ false
unfolding hay_activo_desde
hay_activo_desde_vacio envs i zero h = refl
hay_activo_desde_vacio envs i (suc n) h =
    rw (h i (omega arith)) (hay_activo_desde_vacio envs (i + 1) n (λ j l. h j (omega arith)))

hay_activo_en :
    (envs : ℕ → Env) (j : ℕ)
    → j < 1024
    → esta_activo (envs j) ≡ true
    → hay_activo_desde envs 0 1024 ≡ true
hay_activo_en envs j l a = elim (Bool-cases (hay_activo_desde envs 0 1024)) [
  | inl hay ↦ hay
  | inr no_hay ↦ cc (a, hay_activo_desde_falso envs 0 1024 j no_hay (omega arith) l)
]

-- `sched_halt` stays in the monitor exactly if no slot is runnable, running or dying; otherwise the
-- CPU halts with no current environment, the kernel's page directory loaded and the kernel unlocked.
pub sched_halt_lem :
    (k : Kernel)
    → (((j : ℕ) → j < 1024 → esta_activo (k.envs j) ≡ false) → sched_halt k ≡ Control.monitor k)
      × ((j : ℕ)
          → j < 1024
          → esta_activo (k.envs j) ≡ true
          → sched_halt k
            ≡ Control.halted (record k {
              curenv = none;
              cr3 = k.mem.kern_pgdir;
              cpu_status = CpuStatus.cpu_halted;
              kernel_locked = false;
            }))
unfolding sched_halt
sched_halt_lem k =
    (λ h. rw (hay_activo_desde_vacio k.envs 0 1024 h), λ j l a. rw (hay_activo_en k.envs j l a))

-- Below 50 executions `sched_yield` leaves the queues alone; from 50 on it promotes every
-- identifier to the first queue and starts counting anew.
pub promover_si_toca_lem :
    (k : Kernel)
    → Caben k.mlfq_scheduler
    → (k.mlfq_scheduler.ejecuciones_totales < 50 → promover_si_toca k ≡ some k)
      × (50 ≤ k.mlfq_scheduler.ejecuciones_totales
          → (r : Kernel) × (promover_si_toca k ≡ some r)
            × Promovido k r
            × (r.mlfq_scheduler.ejecuciones_totales ≡ 0))
unfolding promover_si_toca
promover_si_toca_lem k c = (
  λ l. ground arith,
  λ l.
      let (r, vuelve, p) = promover_colas-Promovido k c in
      let s = r.mlfq_scheduler in
      (
        record r { mlfq_scheduler = record s { ejecuciones_totales = 0 } },
        ground (arith, vuelve),
        sin_total k r p,
        refl,
      ),
)
  where
    sin_total :
        (k r : Kernel)
        → Promovido k r
        → let s = r.mlfq_scheduler in
          Promovido k (record r { mlfq_scheduler = record s { ejecuciones_totales = 0 } })
    sin_total k r p = record {
      todas_en_a = p.todas_en_a;
      a_valida = p.a_valida;
      b_vacia = p.b_vacia;
      c_vacia = p.c_vacia;
      d_vacia = p.d_vacia;
      prioridad = p.prioridad;
    }
