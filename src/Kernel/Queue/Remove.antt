-- ===== src/Kernel/Queue/Remove.antt =====
-- `encolar` (the ring part of `sched_agregar_env`), `sched_borrar_env` and the loop of
-- `sched_eliminar_env`, in terms of the identifiers that the ring holds.
use features_operating_syste.Prelude.{
  ℕ, zero, suc, ◌+◌, ◌-◌, ◌%◌, ◌≤◌, ◌<◌, ◌≡◌, refl, ap, [], ◌∷◌, ◌++◌, ◌==◌, update, count,
  Bool-cases, inl, inr, arith, ==→eq,
}
use features_operating_syste.Kernel.Types.{Cola}
use features_operating_syste.Kernel.Queue.{encolar, sched_borrar_env, eliminar_desde, eliminar_de}
use features_operating_syste.Kernel.Queue.Window.{
  ventana, contenido, IsCola, ventana-snoc, ventana-update_out, uno, count-ventana-update,
}

-- Adding to a queue that is not full appends the identifier, and the queue stays well formed.
pub contenido-encolar :
    (env_id : ℕ) (q : Cola)
    → IsCola q
    → q.ultimo < q.primero + 1024
    → (contenido (encolar env_id q) ≡ contenido q ++ (env_id ∷ [])) × IsCola (encolar env_id q)
unfolding encolar
contenido-encolar env_id q v libre = (entradas, omega arith)
  where
    n : ℕ
    n = q.ultimo - q.primero

    tras : ℕ → ℕ
    tras = update q.envs (q.ultimo % 1024) env_id

    nueva : tras ((q.primero + n) % 1024) ≡ env_id
    nueva = ground arith

    entradas : ventana tras q.primero (q.ultimo + 1 - q.primero) ≡ contenido q ++ (env_id ∷ [])
    entradas = ground (
      arith,
      ap (ventana tras q.primero) (largo q.ultimo q.primero v.ordenada),
      ventana-snoc tras q.primero n,
      ventana-update_out q.envs env_id q.primero n q.ultimo,
      nueva,
    )
      where
        largo : (u p : ℕ) → p ≤ u → u + 1 - p ≡ suc (u - p)
        largo u p h = omega arith

-- A window with an entry begins with it.
ventana_pos :
    (f : ℕ → ℕ) (p u : ℕ)
    → p < u
    → ventana f p (u - p) ≡ f (p % 1024) ∷ ventana f (p + 1) (u - (p + 1))
ventana_pos f p u h = ap (ventana f p) largo
  where
    largo : u - p ≡ suc (u - (p + 1))
    largo = omega arith

mismo_indice : (u p : ℕ) → u % 1024 ≡ p → u % 1024 ≡ p % 1024
mismo_indice u p e = omega arith

-- Removing the entry of counter `u` takes its identifier away once, and the others stay.
pub count-sched_borrar_env :
    (q : Cola) (u y : ℕ)
    → IsCola q
    → q.primero ≤ u
    → u < q.ultimo
    → count y (contenido (sched_borrar_env q (u % 1024))) + uno y (q.envs (u % 1024))
      ≡ count y (contenido q)
unfolding sched_borrar_env
count-sched_borrar_env q u y v h l = elim (Bool-cases (u % 1024 == q.primero)) [
  | inl e ↦ rw e (
      ground (
        arith,
        ventana_pos q.envs q.primero q.ultimo,
        ap q.envs (mismo_indice u q.primero (==→eq _ _ e)),
      ))
  | inr d ↦ rw d (
      ground (
        arith,
        ventana_pos intercambio q.primero q.ultimo,
        count-ventana-update q.envs (q.envs (u % 1024)) y q.primero n q.primero,
        count-ventana-update paso (q.envs (q.primero % 1024)) y q.primero n u,
      ))
]
  where
    n : ℕ
    n = q.ultimo - q.primero

    paso : ℕ → ℕ
    paso = update q.envs (q.primero % 1024) (q.envs (u % 1024))

    intercambio : ℕ → ℕ
    intercambio = update paso (u % 1024) (q.envs (q.primero % 1024))

-- What removing one `id` has done to the queue.
pub record Quitado (env_id : ℕ) (q r : Cola) : Type 0 where
  pub menos_uno : (y : ℕ) → count y (contenido r) + uno y env_id ≡ count y (contenido q)
  pub primero_sube : r.primero ≡ q.primero + 1
  pub ultimo_igual : r.ultimo ≡ q.ultimo

pub primero-sched_borrar_env : (q : Cola) (j : ℕ) → (sched_borrar_env q j).primero ≡ q.primero + 1
unfolding sched_borrar_env
primero-sched_borrar_env q j = ground arith

pub ultimo-sched_borrar_env : (q : Cola) (j : ℕ) → (sched_borrar_env q j).ultimo ≡ q.ultimo
unfolding sched_borrar_env
ultimo-sched_borrar_env q j = ground arith

sched_borrar_env-Quitado :
    (env_id : ℕ) (q : Cola) (u : ℕ)
    → IsCola q
    → q.primero ≤ u
    → u < q.ultimo
    → q.envs (u % 1024) ≡ env_id
    → Quitado env_id q (sched_borrar_env q (u % 1024))
sched_borrar_env-Quitado env_id q u v h l e = record {
  menos_uno = λ y. ground (arith, count-sched_borrar_env q u y);
  primero_sube = primero-sched_borrar_env q (u % 1024);
  ultimo_igual = ultimo-sched_borrar_env q (u % 1024);
}

-- The loop from counter `i`: it removes the identifier if it stands there, else changes nothing.
eliminar_desde-Quitado :
    (env_id : ℕ) (q : Cola) (i n : ℕ)
    → IsCola q
    → q.primero ≤ i
    → i + n ≡ q.ultimo
    → 0 < count env_id (ventana q.envs i n)
    → Quitado env_id q (eliminar_desde env_id q i n)
unfolding eliminar_desde
eliminar_desde-Quitado env_id q i zero v h l c = absurd (omega arith)
eliminar_desde-Quitado env_id q i (suc n) v h l c =
    elim (Bool-cases (q.envs (i % 1024) == env_id)) [
      | inl e ↦ rw e (sched_borrar_env-Quitado env_id q i v h (omega arith) (==→eq _ _ e))
      | inr d ↦
          rw d
            (eliminar_desde-Quitado env_id q (i + 1) n v (omega arith) (omega arith) (ground arith))
    ]

eliminar_desde_absent :
    (env_id : ℕ) (q : Cola) (i n : ℕ)
    → count env_id (ventana q.envs i n) ≡ 0
    → eliminar_desde env_id q i n ≡ q
unfolding eliminar_desde
eliminar_desde_absent env_id q i zero c = refl
eliminar_desde_absent env_id q i (suc n) c =
    ground (arith, eliminar_desde_absent env_id q (i + 1) n)

-- Where the queue is well formed and the identifier stands in it, the loop of `sched_eliminar_env`
-- takes exactly one occurrence of it away and moves only the front of the queue.
pub eliminar_de-Quitado :
    (env_id : ℕ) (q : Cola)
    → IsCola q
    → 0 < count env_id (contenido q)
    → Quitado env_id q (eliminar_de env_id q)
eliminar_de-Quitado env_id q v c =
    eliminar_desde-Quitado env_id q q.primero (q.ultimo - q.primero) v (omega arith) (omega arith) c

pub eliminar_de_absent :
    (env_id : ℕ) (q : Cola) → count env_id (contenido q) ≡ 0 → eliminar_de env_id q ≡ q
eliminar_de_absent env_id q c = eliminar_desde_absent env_id q q.primero (q.ultimo - q.primero) c
