-- ===== src/Kernel/Sched/Dispatch.antt =====
-- What one decision of `prioridad_MLFQ` does to the environments and the queues.
use features_operating_syste.Prelude.{
  ℕ, zero, suc, ◌+◌, ◌%◌, ◌≤◌, ◌<◌, ◌≡◌, ◌≢◌, refl, ◌∙◌, some, arith, pos, ◌==◌, ap, ne→==, ==_refl,
  if◌then◌else◌,
}
use features_operating_syste.Kernel.Types.{
  envx, Status, Cola, MlfqScheduler, Puntero, en_a, en_b, en_c, en_d, Kernel, Control,
}
use features_operating_syste.Kernel.Queue.{
  cola_numero, cola_de, con_cola, agregar_en, sched_agregar_env, sched_borrar_env, leer, escribir,
}
use features_operating_syste.Kernel.Queue.Move.{
  Siguiente, a_b, b_c, c_d, d_d, Caben, Movida, mover, mover-Movida,
}
use features_operating_syste.Kernel.Queue.Transfer.{
  Trasladado, Trasladado-totales, mover-Trasladado,
}
use features_operating_syste.Kernel.Run.{contar, env_run}
use features_operating_syste.Kernel.Run.Switch.{es_actual, descansa, Corre, env_run-Corre}
use features_operating_syste.Kernel.Sched.{contar_total, nuevo_numero_cola, despachar}

Siguiente-cola_numero :
    (n : ℕ) → n < 4 → Siguiente (cola_numero n) (cola_numero (nuevo_numero_cola n))
Siguiente-cola_numero zero h = a_b
Siguiente-cola_numero (suc zero) h = b_c
Siguiente-cola_numero (suc (suc zero)) h = c_d
Siguiente-cola_numero (suc (suc (suc zero))) h = d_d
Siguiente-cola_numero (suc (suc (suc (suc n)))) h = absurd (omega arith)

-- The state after `sched_borrar_env` and `sched_agregar_env`, and the two counts.
abbrev degradado : Kernel → ℕ → ℕ → Kernel
degradado k n u =
    let p = cola_numero n in
    let q = cola_de k p in
    let id = q.envs (u % 1024) in
    let k1 = con_cola k p (sched_borrar_env q (u % 1024)) in
    let m = nuevo_numero_cola n in
    contar (contar_total (agregar_en (cola_numero m) k1 id (pos m))) (envx id)

despachar_lem :
    (k : Kernel) (n u : ℕ)
    → let id = (cola_de k (cola_numero n)).envs (u % 1024) in
      despachar k (cola_numero n) n u ≡ env_run (degradado k n u) (envx id)
unfolding despachar sched_agregar_env
despachar_lem k n u = refl

degradado-mover :
    (k : Kernel) (n u : ℕ)
    → let r =
        mover k.mlfq_scheduler (cola_numero n) (cola_numero (nuevo_numero_cola n)) (u % 1024) in
      (degradado k n u).mlfq_scheduler
      ≡ record r { ejecuciones_totales = r.ejecuciones_totales + 1 }
unfolding agregar_en
degradado-mover k n u = refl

escribir-totales :
    (s : MlfqScheduler) (p : Puntero) (q : Cola)
    → (escribir s p q).ejecuciones_totales ≡ s.ejecuciones_totales
escribir-totales s en_a q = refl
escribir-totales s en_b q = refl
escribir-totales s en_c q = refl
escribir-totales s en_d q = refl

mover-totales :
    (s : MlfqScheduler) (p p' : Puntero) (j : ℕ)
    → (mover s p p' j).ejecuciones_totales ≡ s.ejecuciones_totales
mover-totales s p p' j =
    escribir-totales (escribir s p (sched_borrar_env (leer s p) j)) p' _
    ∙ escribir-totales s p (sched_borrar_env (leer s p) j)

Movida-totales :
    {s r : MlfqScheduler} (t : ℕ) → Movida s r → Movida s (record r { ejecuciones_totales = t })
Movida-totales t m = record { caben = omega (arith, m.caben); conserva = m.conserva }

-- The slots of `degradado`: only the chosen one changes, in its priority and its count.
degradado-envs :
    (k : Kernel) (n u j : ℕ)
    → let id = (cola_de k (cola_numero n)).envs (u % 1024) in
      let e = k.envs j in
      (degradado k n u).envs j ≡ (
        if j == envx id
        then record e { cola_actual = pos (nuevo_numero_cola n); ejecuciones = e.ejecuciones + 1 }
        else e)
unfolding agregar_en
degradado-envs k n u j = ground arith

degradado-actual : (k : Kernel) (n u : ℕ) → (degradado k n u).curenv ≡ k.curenv
unfolding agregar_en
degradado-actual k n u = refl

-- What `prioridad_MLFQ` has done when it enters user mode in the environment of `id`, which it
-- found in queue `n`.
pub record Despachado (k : Kernel) (n id : ℕ) (r : Kernel) : Type 0 where
  pub actual : r.curenv ≡ some (envx id)
  pub corre : (r.envs (envx id)).env_status ≡ Status.env_running
  pub prioridad : (r.envs (envx id)).cola_actual ≡ pos (nuevo_numero_cola n)
  pub cuenta : (r.envs (envx id)).ejecuciones ≡ (k.envs (envx id)).ejecuciones + 1
  pub otros : (j : ℕ) → j ≢ envx id → r.envs j ≡ descansa (es_actual k.curenv j) (k.envs j)
  pub total : r.mlfq_scheduler.ejecuciones_totales ≡ k.mlfq_scheduler.ejecuciones_totales + 1
  pub siguiente : Siguiente (cola_numero n) (cola_numero (nuevo_numero_cola n))
  pub colas :
      Trasladado id
        (cola_numero n)
        (cola_numero (nuevo_numero_cola n))
        k.mlfq_scheduler
        r.mlfq_scheduler
  pub conserva : Movida k.mlfq_scheduler r.mlfq_scheduler

degradado-otros :
    (k : Kernel) (n u j : ℕ)
    → j ≢ envx ((cola_de k (cola_numero n)).envs (u % 1024))
    → (degradado k n u).envs j ≡ k.envs j
degradado-otros k n u j ne = degradado-envs k n u j ∙ rw (ne→== _ _ ne)

degradado-elegido :
    (k : Kernel) (n u : ℕ)
    → let id = (cola_de k (cola_numero n)).envs (u % 1024) in
      let e = k.envs (envx id) in
      (degradado k n u).envs (envx id)
      ≡ record e { cola_actual = pos (nuevo_numero_cola n); ejecuciones = e.ejecuciones + 1 }
degradado-elegido k n u =
    let id = (cola_de k (cola_numero n)).envs (u % 1024) in
    degradado-envs k n u (envx id) ∙ rw (==_refl (envx id))

-- The switch to the chosen environment, seen from the state before the decision.
Corre-Despachado :
    (k : Kernel) (n u pgdir : ℕ) (r : Kernel)
    → n < 4
    → Caben k.mlfq_scheduler
    → (cola_de k (cola_numero n)).primero ≤ u
    → u < (cola_de k (cola_numero n)).ultimo
    → let id = (cola_de k (cola_numero n)).envs (u % 1024) in
      Corre (degradado k n u) (envx id) pgdir r → Despachado k n id r
Corre-Despachado k n u pgdir r h c lo hi v = record {
  actual = v.actual;
  corre = ap (λ e. e.env_status) v.elegido;
  prioridad =
      ap (λ e. e.cola_actual) (v.elegido) ∙ ap (λ e. e.cola_actual) (degradado-elegido k n u);
  cuenta = ap (λ e. e.ejecuciones) (v.elegido) ∙ ap (λ e. e.ejecuciones) (degradado-elegido k n u);
  otros = λ j ne.
      v.otros j ne
      ∙ rw (degradado-actual k n u)
          (ap (descansa (es_actual k.curenv j)) (degradado-otros k n u j ne));
  total =
      ap (λ s. s.ejecuciones_totales) (v.colas ∙ degradado-mover k n u)
      ∙ ap (λ (t : ℕ). t + 1) (mover-totales k.mlfq_scheduler _ _ (u % 1024));
  siguiente = Siguiente-cola_numero n h;
  colas =
      rw (v.colas ∙ degradado-mover k n u)
        (Trasladado-totales _ (mover-Trasladado k.mlfq_scheduler u c lo hi));
  conserva =
      rw (v.colas ∙ degradado-mover k n u)
        (Movida-totales _ (mover-Movida k.mlfq_scheduler u (Siguiente-cola_numero n h) c lo hi));
}

pub despachar-Despachado :
    (k : Kernel) (n u pgdir : ℕ)
    → n < 4
    → Caben k.mlfq_scheduler
    → (cola_de k (cola_numero n)).primero ≤ u
    → u < (cola_de k (cola_numero n)).ultimo
    → let id = (cola_de k (cola_numero n)).envs (u % 1024) in
      (k.envs (envx id)).env_pgdir ≡ some pgdir
      → (r : Kernel) × (despachar k (cola_numero n) n u ≡ Control.context_switch r)
        × Despachado k n id r
despachar-Despachado k n u pgdir h c lo hi pg =
    let id = (cola_de k (cola_numero n)).envs (u % 1024) in
    let (r, entra, v) =
      env_run-Corre (degradado k n u) (envx id) pgdir
        (ap (λ e. e.env_pgdir) (degradado-elegido k n u) ∙ pg) in
    (r, despachar_lem k n u ∙ entra, Corre-Despachado k n u pgdir r h c lo hi v)
