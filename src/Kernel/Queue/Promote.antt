-- ===== src/Kernel/Queue/Promote.antt =====
-- `promover_cola` and `promover_colas`: with room in the first queue every identifier of the others
-- moves there, in order, and the others are empty.
use features_operating_syste.Prelude.{
  ℕ, zero, suc, ◌+◌, ◌≤◌, ◌≡◌, refl, ◌∙◌, some, List, [], ◌∷◌, ◌++◌, Bool, false, ◌||◌, ◌==◌,
  if◌then◌else◌, arith, pos, lt→ltb, le→ltb, append_assoc, append-nil, length, length-append, ◌-◌,
  ◌%◌, ◌<◌,
}
use native.Mathlib.Numerals.{add-one}
use features_operating_syste.Kernel.Types.{envx, Cola, Kernel, Puntero, en_a, en_b, en_c, en_d}
use features_operating_syste.Kernel.Queue.{
  agregar_en, encolar, sched_agregar_env, promover_desde, promover_cola, promover_colas,
  vaciar_colas, cola_de,
}
use features_operating_syste.Kernel.Queue.Window.{ventana, contenido, IsCola, length-contenido}
use features_operating_syste.Kernel.Queue.Move.{Caben}
use features_operating_syste.Kernel.Queue.Remove.{contenido-encolar}

-- The loop of `promover_cola` on the state, one `sched_agregar_env` after another.
pub agregar_todos : List ℕ → Kernel → Kernel
agregar_todos [] k = k
agregar_todos (x ∷ xs) k = agregar_todos xs (agregar_en en_a k x (pos 0))

-- The queues that promotion reads.
pub data Baja : Puntero → Type 0 where
  baja_b : Baja en_b
  baja_c : Baja en_c
  baja_d : Baja en_d

agregar_en-otras :
    {p : Puntero} (k : Kernel) (x : ℕ)
    → Baja p
    → cola_de (agregar_en en_a k x (pos 0)) p ≡ cola_de k p
unfolding agregar_en
agregar_en-otras k x baja_b = refl
agregar_en-otras k x baja_c = refl
agregar_en-otras k x baja_d = refl

-- The loop runs to its end with the fuel it is given.
promover_desde_lem :
    {p : Puntero} (k : Kernel) (q : Cola) (i n : ℕ)
    → Baja p
    → cola_de k p ≡ q
    → i + n ≡ q.ultimo
    → promover_desde (suc n) p i k ≡ some (agregar_todos (ventana q.envs i n) k)
unfolding promover_desde agregar_todos sched_agregar_env
promover_desde_lem {p} k q i zero b e h = rw (e, le→ltb i q.ultimo (omega arith))
promover_desde_lem {p} k q i (suc n) b e h =
    rw (e, lt→ltb i q.ultimo (omega arith))
      (promover_desde_lem (agregar_en en_a k (q.envs (i % 1024)) (pos 0)) q (i + 1) n b
        (agregar_en-otras k (q.envs (i % 1024)) b ∙ e) (omega arith))

-- `promover_cola` returns, and has added every identifier of its queue to the first queue.
promover_cola_lem :
    {p : Puntero} (k : Kernel)
    → Baja p
    → IsCola (cola_de k p)
    → promover_cola p k ≡ some (agregar_todos (contenido (cola_de k p)) k)
unfolding promover_cola
promover_cola_lem {p} k b v = rw add-one (
    promover_desde_lem k (cola_de k p) (cola_de k p).primero
      ((cola_de k p).ultimo - (cola_de k p).primero) b refl (omega arith))

-- Whether one of the identifiers names the slot `j`.
abbrev pub nombra : ℕ → List ℕ → Bool
nombra j [] = false
nombra j (x ∷ xs) = envx x == j || nombra j xs

-- The effect of `agregar_todos`, when the identifiers fit.
record Agregado (xs : List ℕ) (k r : Kernel) : Type 0 where
  en_orden : contenido (cola_de r en_a) ≡ contenido (cola_de k en_a) ++ xs
  valida : IsCola (cola_de r en_a)
  b_igual : cola_de r en_b ≡ cola_de k en_b
  c_igual : cola_de r en_c ≡ cola_de k en_c
  d_igual : cola_de r en_d ≡ cola_de k en_d
  prioridad :
      (j : ℕ) → (r.envs j).cola_actual ≡ (if nombra j xs then pos 0 else (k.envs j).cola_actual)

agregar_en-Agregado :
    (x : ℕ) (k : Kernel)
    → IsCola (cola_de k en_a)
    → suc (length (contenido (cola_de k en_a))) ≤ 1024
    → Agregado (x ∷ []) k (agregar_en en_a k x (pos 0))
unfolding agregar_en
agregar_en-Agregado x k v h = record {
  en_orden = (anadida k x v (omega (arith, length-contenido (cola_de k en_a)))).0;
  valida = (anadida k x v (omega (arith, length-contenido (cola_de k en_a)))).1;
  b_igual = refl;
  c_igual = refl;
  d_igual = refl;
  prioridad = λ j. ground arith;
}
  where
    anadida :
        (k : Kernel) (x : ℕ)
        → IsCola (cola_de k en_a)
        → (cola_de k en_a).ultimo < (cola_de k en_a).primero + 1024
        → (contenido (encolar x (cola_de k en_a)) ≡ contenido (cola_de k en_a) ++ (x ∷ []))
          × IsCola (encolar x (cola_de k en_a))
    anadida k x v h = contenido-encolar x (cola_de k en_a) v h

agregar_todos-Agregado :
    (xs : List ℕ) (k : Kernel)
    → IsCola (cola_de k en_a)
    → length (contenido (cola_de k en_a)) + length xs ≤ 1024
    → Agregado xs k (agregar_todos xs k)
unfolding agregar_todos
agregar_todos-Agregado [] k v h = record {
  en_orden = rw append-nil;
  valida = v;
  b_igual = refl;
  c_igual = refl;
  d_igual = refl;
  prioridad = λ j. refl;
}
agregar_todos-Agregado (x ∷ xs) k v h = juntar uno_mas (
    agregar_todos-Agregado xs (agregar_en en_a k x (pos 0)) uno_mas.valida
      (rw (uno_mas.en_orden) (omega (arith, length-append (contenido (cola_de k en_a)) (x ∷ [])))))
  where
    uno_mas : Agregado (x ∷ []) k (agregar_en en_a k x (pos 0))
    uno_mas = agregar_en-Agregado x k v (omega arith)

    juntar : {r s : Kernel} → Agregado (x ∷ []) k r → Agregado xs r s → Agregado (x ∷ xs) k s
    juntar a b = record {
      en_orden = b.en_orden ∙ rw (a.en_orden, append_assoc);
      valida = b.valida;
      b_igual = b.b_igual ∙ a.b_igual;
      c_igual = b.c_igual ∙ a.c_igual;
      d_igual = b.d_igual ∙ a.d_igual;
      prioridad = λ j. ground (arith, a.prioridad j, b.prioridad j);
    }

-- The identifiers below the first queue, in the order in which they are promoted.
abbrev pub bajas : Kernel → List ℕ
bajas k = contenido (cola_de k en_b) ++ (contenido (cola_de k en_c) ++ contenido (cola_de k en_d))

agregar_todos-append :
    (xs ys : List ℕ) (k : Kernel)
    → agregar_todos ys (agregar_todos xs k) ≡ agregar_todos (xs ++ ys) k
unfolding agregar_todos
agregar_todos-append [] ys k = refl
agregar_todos-append (x ∷ xs) ys k = agregar_todos-append xs ys (agregar_en en_a k x (pos 0))

agregar_todos-otras :
    {p : Puntero} (xs : List ℕ) (k : Kernel) → Baja p → cola_de (agregar_todos xs k) p ≡ cola_de k p
unfolding agregar_todos
agregar_todos-otras [] k b = refl
agregar_todos-otras (x ∷ xs) k b =
    agregar_todos-otras xs (agregar_en en_a k x (pos 0)) b ∙ agregar_en-otras k x b

-- One promotion behind another, on the state that the earlier ones left.
promover_tras :
    {p : Puntero} (xs : List ℕ) (k : Kernel)
    → Baja p
    → IsCola (cola_de k p)
    → promover_cola p (agregar_todos xs k) ≡ some (agregar_todos (xs ++ contenido (cola_de k p)) k)
promover_tras {p} xs k b v =
    promover_cola_lem (agregar_todos xs k) b (rw (agregar_todos-otras xs k b) v)
    ∙ rw (agregar_todos-otras xs k b, agregar_todos-append xs (contenido (cola_de k p)) k)

promover_colas_lem :
    (k : Kernel)
    → Caben k.mlfq_scheduler
    → promover_colas k ≡ some (vaciar_colas (agregar_todos (bajas k) k))
unfolding promover_colas
promover_colas_lem k h = rw (
  promover_cola_lem k baja_b h.b_valida,
  promover_tras (contenido (cola_de k en_b)) k baja_c h.c_valida,
  promover_tras (contenido (cola_de k en_b) ++ contenido (cola_de k en_c)) k baja_d h.d_valida,
  append_assoc,
)

-- The state after a promotion: the first queue holds all identifiers, its own first and then those
-- of the second, third and fourth in that order; the others are empty; every promoted environment
-- has priority 0, and the priorities of the rest are unchanged.
pub record Promovido (k r : Kernel) : Type 0 where
  pub todas_en_a : contenido (cola_de r en_a) ≡ contenido (cola_de k en_a) ++ bajas k
  pub a_valida : IsCola (cola_de r en_a)
  pub b_vacia : contenido (cola_de r en_b) ≡ []
  pub c_vacia : contenido (cola_de r en_c) ≡ []
  pub d_vacia : contenido (cola_de r en_d) ≡ []
  pub prioridad :
      (j : ℕ)
      → (r.envs j).cola_actual ≡ (if nombra j (bajas k) then pos 0 else (k.envs j).cola_actual)

vaciar_colas-Promovido : (k r : Kernel) → Agregado (bajas k) k r → Promovido k (vaciar_colas r)
unfolding vaciar_colas
vaciar_colas-Promovido k r a = record {
  todas_en_a = a.en_orden;
  a_valida = a.valida;
  b_vacia = refl;
  c_vacia = refl;
  d_vacia = refl;
  prioridad = a.prioridad;
}

-- Where the queues are well formed and all identifiers fit into one ring, `promover_colas` returns:
-- the first queue then holds its own entries and behind them those of the second, third and fourth
-- in their order, the others are empty, the promoted environments have priority 0, and the other
-- priorities stay.
pub promover_colas-Promovido :
    (k : Kernel)
    → Caben k.mlfq_scheduler
    → (r : Kernel) × (promover_colas k ≡ some r) × Promovido k r
promover_colas-Promovido k h = (
  vaciar_colas (agregar_todos (bajas k) k),
  promover_colas_lem k h,
  vaciar_colas-Promovido k (agregar_todos (bajas k) k) (
      agregar_todos-Agregado (bajas k) k h.a_valida (
        omega (
          arith,
          h.total,
          length-contenido (cola_de k en_a),
          length-contenido (cola_de k en_b),
          length-contenido (cola_de k en_c),
          length-contenido (cola_de k en_d),
          length-append (contenido (cola_de k en_b))
              (contenido (cola_de k en_c) ++ contenido (cola_de k en_d)),
          length-append (contenido (cola_de k en_c)) (contenido (cola_de k en_d)),
        ))),
)
