-- ===== src/Kernel/Queue/Move.antt =====
-- Moving one identifier to the end of the next queue, as `prioridad_MLFQ` does: `sched_borrar_env`
-- on its queue, then the ring part of `sched_agregar_env` on the queue below.
use features_operating_syste.Prelude.{
  ℕ, suc, ◌+◌, ◌%◌, ◌≤◌, ◌<◌, ◌≡◌, [], ◌∷◌, arith, count, count-append,
}
use features_operating_syste.Kernel.Types.{Cola, MlfqScheduler, Puntero, en_a, en_b, en_c, en_d}
use features_operating_syste.Kernel.Queue.{encolar, sched_borrar_env, leer, escribir}
use features_operating_syste.Kernel.Queue.Window.{contenido, ocupacion, IsCola, uno}
use features_operating_syste.Kernel.Queue.Remove.{
  contenido-encolar, count-sched_borrar_env, primero-sched_borrar_env, ultimo-sched_borrar_env,
}

-- The queue that an environment goes to when it has run from the first.
pub data Siguiente : Puntero → Puntero → Type 0 where
  a_b : Siguiente en_a en_b
  b_c : Siguiente en_b en_c
  c_d : Siguiente en_c en_d
  d_d : Siguiente en_d en_d

-- How often an identifier stands in the four queues together.
abbrev pub presencias : ℕ → MlfqScheduler → ℕ
presencias y s =
    count y (contenido s.cola_a)
    + count y (contenido s.cola_b)
    + count y (contenido s.cola_c)
    + count y (contenido s.cola_d)

-- The four queues are well formed, and together they hold no more than one ring can.
pub record Caben (s : MlfqScheduler) : Type 0 where
  pub a_valida : IsCola s.cola_a
  pub b_valida : IsCola s.cola_b
  pub c_valida : IsCola s.cola_c
  pub d_valida : IsCola s.cola_d
  pub total :
      ocupacion s.cola_a + ocupacion s.cola_b + ocupacion s.cola_c + ocupacion s.cola_d ≤ 1024

abbrev pub mover : MlfqScheduler → Puntero → Puntero → ℕ → MlfqScheduler
mover s p p' j =
    let id = (leer s p).envs j in
    let s1 = escribir s p (sched_borrar_env (leer s p) j) in
    escribir s1 p' (encolar id (leer s1 p'))

-- What the removal and the addition do to one queue each.
pub record Borrada (u : ℕ) (q r : Cola) : Type 0 where
  pub valida : IsCola r
  pub una_menos : suc (ocupacion r) ≡ ocupacion q
  pub cuenta : (y : ℕ) → count y (contenido r) + uno y (q.envs (u % 1024)) ≡ count y (contenido q)

pub sched_borrar_env-Borrada :
    (u : ℕ) (q : Cola)
    → IsCola q
    → q.primero ≤ u
    → u < q.ultimo
    → Borrada u q (sched_borrar_env q (u % 1024))
sched_borrar_env-Borrada u q v h l = record {
  valida =
      omega (arith, primero-sched_borrar_env q (u % 1024), ultimo-sched_borrar_env q (u % 1024));
  una_menos =
      omega (arith, primero-sched_borrar_env q (u % 1024), ultimo-sched_borrar_env q (u % 1024));
  cuenta = λ y. count-sched_borrar_env q u y v h l;
}

record Anadida (id : ℕ) (q r : Cola) : Type 0 where
  valida : IsCola r
  una_mas : ocupacion r ≡ suc (ocupacion q)
  cuenta : (y : ℕ) → count y (contenido r) ≡ count y (contenido q) + uno y id

encolar-Anadida : (id : ℕ) (q : Cola) → IsCola q → ocupacion q < 1024 → Anadida id q (encolar id q)
encolar-Anadida id q v l = record {
  valida = (contenido-encolar id q v (omega arith)).1;
  una_mas = unfold encolar in omega arith;
  cuenta = λ y.
      rw (contenido-encolar id q v (omega arith)).0
        (ground (arith, count-append y (contenido q) (id ∷ [])));
}

-- What moving an entry leaves: the queues are well formed and as full as before, and every
-- identifier stands in them as often as before.
pub record Movida (s r : MlfqScheduler) : Type 0 where
  pub caben : Caben r
  pub conserva : (y : ℕ) → presencias y r ≡ presencias y s

pub mover-Movida :
    {p p' : Puntero} (s : MlfqScheduler) (u : ℕ)
    → Siguiente p p'
    → Caben s
    → (leer s p).primero ≤ u
    → u < (leer s p).ultimo
    → Movida s (mover s p p' (u % 1024))
mover-Movida s u a_b c h l =
    let b = sched_borrar_env-Borrada u s.cola_a c.a_valida h l in
    let a = encolar-Anadida (s.cola_a.envs (u % 1024)) s.cola_b c.b_valida (omega arith) in
    record { caben = omega arith; conserva = λ y. omega (arith, b.cuenta y, a.cuenta y) }
mover-Movida s u b_c c h l =
    let b = sched_borrar_env-Borrada u s.cola_b c.b_valida h l in
    let a = encolar-Anadida (s.cola_b.envs (u % 1024)) s.cola_c c.c_valida (omega arith) in
    record { caben = omega arith; conserva = λ y. omega (arith, b.cuenta y, a.cuenta y) }
mover-Movida s u c_d c h l =
    let b = sched_borrar_env-Borrada u s.cola_c c.c_valida h l in
    let a = encolar-Anadida (s.cola_c.envs (u % 1024)) s.cola_d c.d_valida (omega arith) in
    record { caben = omega arith; conserva = λ y. omega (arith, b.cuenta y, a.cuenta y) }
mover-Movida s u d_d c h l =
    let b = sched_borrar_env-Borrada u s.cola_d c.d_valida h l in
    let a =
      encolar-Anadida (s.cola_d.envs (u % 1024)) (sched_borrar_env s.cola_d (u % 1024)) b.valida
        (omega arith) in
    record { caben = omega arith; conserva = λ y. omega (arith, b.cuenta y, a.cuenta y) }
