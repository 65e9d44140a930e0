-- ===== src/Kernel/Sched/Choice.antt =====
-- Which queue `obtener_cola_mejor_prioridad` takes, and which of its entries `prioridad_MLFQ` runs.
use mathlib.Core.Option
use native.Mathlib.Decide.{dec_lt}
use features_operating_syste.Prelude.{
  ℕ, zero, suc, ◌+◌, ◌-◌, ◌%◌, ◌≤◌, ◌<◌, ◌≡◌, refl, ◌∙◌, Option, none, some, List, [], ◌∷◌, true,
  false, if◌then◌else◌, arith, Bool-cases, Option-cases, inl, inr,
}
use features_operating_syste.Kernel.Types.{envx, is_runnable, Env, Cola, Puntero, Kernel}
use features_operating_syste.Kernel.Queue.{cola_numero, cola_de}
use features_operating_syste.Kernel.Queue.Window.{ventana, contenido}
use features_operating_syste.Kernel.Sched.{
  ejecutables_desde, tiene_entornos_ejecutables, mejor_desde, obtener_cola_mejor_prioridad,
  correr_desde, despachar,
}

-- The first identifier of a list whose slot holds a runnable environment.
abbrev pub primer_ejecutable : (ℕ → Env) → List ℕ → Option ℕ
primer_ejecutable envs [] = none
primer_ejecutable envs (x ∷ xs) =
    if is_runnable (envs (envx x)).env_status then some x else primer_ejecutable envs xs

-- The first runnable entry of queue number `n`.
abbrev pub candidato : Kernel → ℕ → Option ℕ
candidato k n = primer_ejecutable k.envs (contenido (cola_de k (cola_numero n)))

ejecutables_desde_lem :
    (envs : ℕ → Env) (q : Cola) (m i n : ℕ)
    → ejecutables_desde envs q m i n
      ≡ Option.map (λ _. m) (primer_ejecutable envs (ventana q.envs i n))
unfolding ejecutables_desde
ejecutables_desde_lem envs q m i zero = refl
ejecutables_desde_lem envs q m i (suc n) = ground (arith, ejecutables_desde_lem envs q m (i + 1) n)

-- `tiene_entornos_ejecutables` gives back the queue's number exactly if an entry is runnable.
pub tiene_entornos_ejecutables_lem :
    (envs : ℕ → Env) (q : Cola) (m : ℕ)
    → tiene_entornos_ejecutables envs q m
      ≡ Option.map (λ _. m) (primer_ejecutable envs (contenido q))
unfolding tiene_entornos_ejecutables
tiene_entornos_ejecutables_lem envs q m =
    ejecutables_desde_lem envs q m q.primero (q.ultimo - q.primero)

-- What the choice of a queue means. With no queue, no entry of any is runnable. Otherwise the queue
-- has a runnable entry, and no queue of a smaller number has one.
abbrev pub Eleccion : Kernel → Option (ℕ × Puntero) → Type 0
Eleccion k none = (m : ℕ) → m < 4 → candidato k m ≡ none
Eleccion k (some (n, p)) =
    (n < 4)
    × (p ≡ cola_numero n)
    × ((id : ℕ) × (candidato k n ≡ some id))
    × ((m : ℕ) → m < n → candidato k m ≡ none)

mejor_desde_sigue :
    (k : Kernel) (i n : ℕ)
    → candidato k i ≡ none
    → mejor_desde k i (suc n) ≡ mejor_desde k (i + 1) n
unfolding mejor_desde
mejor_desde_sigue k i n e =
    ground (arith, tiene_entornos_ejecutables_lem k.envs (cola_de k (cola_numero i)) i)

mejor_desde_toma :
    (k : Kernel) (i n : ℕ) {id : ℕ}
    → candidato k i ≡ some id
    → mejor_desde k i (suc n) ≡ some (i, cola_numero i)
unfolding mejor_desde
mejor_desde_toma k i n e =
    ground (arith, tiene_entornos_ejecutables_lem k.envs (cola_de k (cola_numero i)) i)

sin_candidato_hasta :
    (k : Kernel) (i : ℕ)
    → ((m : ℕ) → m < i → candidato k m ≡ none)
    → candidato k i ≡ none
    → (m : ℕ) → m < i + 1
    → candidato k m ≡ none
sin_candidato_hasta k i antes e m h = elim (dec_lt m i) [
  | yes l ↦ antes m l
  | no l ↦ let igual : m ≡ i = omega arith in rw igual e
]

mejor_desde_lem :
    (k : Kernel) (i n : ℕ)
    → i + n ≡ 4
    → ((m : ℕ) → m < i → candidato k m ≡ none)
    → Eleccion k (mejor_desde k i n)
mejor_desde_lem k i zero e antes = unfold mejor_desde in λ m h. antes m (omega arith)
mejor_desde_lem k i (suc n) e antes = elim (Option-cases (candidato k i)) [
  | inl nadie ↦
      rw (mejor_desde_sigue k i n nadie)
        (mejor_desde_lem k (i + 1) n (omega arith) (sin_candidato_hasta k i antes nadie))
  | inr (id, hay) ↦ rw (mejor_desde_toma k i n hay) (omega arith, refl, (id, hay), antes)
]

-- `obtener_cola_mejor_prioridad` finds the queue of the smallest number with a runnable entry.
pub obtener_cola_mejor_prioridad-Eleccion :
    (k : Kernel) → Eleccion k (obtener_cola_mejor_prioridad k)
unfolding obtener_cola_mejor_prioridad
obtener_cola_mejor_prioridad-Eleccion k = mejor_desde_lem k 0 4 refl (λ m h. absurd (omega arith))

-- The entry that the loop of `prioridad_MLFQ` stops at.
pub record Parada (k : Kernel) (p : Puntero) (numero i n id : ℕ) : Type 0 where
  pub en : ℕ
  pub desde : i ≤ en
  pub hasta : en < i + n
  pub es_id : (cola_de k p).envs (en % 1024) ≡ id
  pub ejecutable : is_runnable (k.envs (envx id)).env_status ≡ true
  pub despacha : correr_desde k p numero i n ≡ despachar k p numero en

correr_desde_para :
    (k : Kernel) (p : Puntero) (numero i n : ℕ)
    → is_runnable (k.envs (envx ((cola_de k p).envs (i % 1024)))).env_status ≡ true
    → correr_desde k p numero i (suc n) ≡ despachar k p numero i
unfolding correr_desde
correr_desde_para k p numero i n e = ground arith

correr_desde_sigue :
    (k : Kernel) (p : Puntero) (numero i n : ℕ)
    → is_runnable (k.envs (envx ((cola_de k p).envs (i % 1024)))).env_status ≡ false
    → correr_desde k p numero i (suc n) ≡ correr_desde k p numero (i + 1) n
unfolding correr_desde
correr_desde_sigue k p numero i n e = ground arith

pub correr_desde-Parada :
    (k : Kernel) (p : Puntero) (numero i n : ℕ) {id : ℕ}
    → primer_ejecutable k.envs (ventana (cola_de k p).envs i n) ≡ some id
    → Parada k p numero i n id
correr_desde-Parada k p numero i zero e = cc
correr_desde-Parada k p numero i (suc n) {id} e =
    elim (Bool-cases (is_runnable (k.envs (envx ((cola_de k p).envs (i % 1024)))).env_status)) [
      | inl corre ↦ record {
        en = i;
        desde = omega arith;
        hasta = omega arith;
        es_id = ground arith;
        ejecutable = ground arith;
        despacha = correr_desde_para k p numero i n corre;
      }
      | inr espera ↦
          let r = correr_desde-Parada k p numero (i + 1) n {id = id} (ground arith) in
          record {
            en = r.en;
            desde = omega arith;
            hasta = omega arith;
            es_id = r.es_id;
            ejecutable = r.ejecutable;
            despacha = correr_desde_sigue k p numero i n espera ∙ r.despacha;
          }
    ]
