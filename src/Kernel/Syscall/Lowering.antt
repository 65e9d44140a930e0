-- ===== src/Kernel/Syscall/Lowering.antt =====
-- The calls of `sys_env_asignar_prioridad` that succeed.
use features_operating_syste.Prelude.{
  ℕ, ◌≤◌, ◌<◌, ◌≡◌, ◌≢◌, inl, inr, refl, ap, ◌∙◌, false, some, pos, ltb, ltb_ℤ, eqb_ℤ, arith,
  ==_refl, ne→==, le→ltb, sym, subst, count,
}
use features_operating_syste.Kernel.Types.{envx, is_free, Kernel}
use features_operating_syste.Kernel.Queue.{
  obtener_cola, cola_numero, cola_de, encolar, eliminar_de, leer, escribir, agregar_en,
}
use features_operating_syste.Kernel.Queue.Window.{contenido}
use features_operating_syste.Kernel.Queue.Move.{Caben}
use features_operating_syste.Kernel.Queue.Transfer.{Trasladado, eliminar_de-Trasladado}
use features_operating_syste.Kernel.Env.{envid2env}
use features_operating_syste.Kernel.Env.Lookup.{Permitido}
use features_operating_syste.Kernel.Syscall.{
  con_envid, ajeno, asignar_en, sys_env_asignar_prioridad,
}
use features_operating_syste.Kernel.Syscall.Priority.{
  Cambiado, cambiado, cambiar_cola_ok, cambiado-Cambiado,
}

Permitido-ajeno : (k : Kernel) (i : ℕ) → Permitido k i → ajeno k i ≡ some false
unfolding ajeno
Permitido-ajeno k i (inl e) = rw (ajeno, e, ==_refl i) refl
Permitido-ajeno k i (inr (c, e, p)) = ground arith

-- The numbers of queues that are not one.
distintas : (m n : ℕ) → m < n → n ≤ 3 → cola_numero m ≢ cola_numero n
distintas m n h l e = ground arith

pub hallado :
    (k : Kernel) (env_id : ℕ)
    → env_id ≢ 0
    → (k.envs (envx env_id)).env_id ≡ env_id
    → is_free (k.envs (envx env_id)).env_status ≡ false
    → envid2env k env_id false ≡ some (pos 0, some (envx env_id))
unfolding envid2env
hallado k env_id ne propio uso = ground arith

-- Where the identifier is that of a live environment of priority `m`, the caller is this environment
-- or its parent, `n` is a lower priority (`m < n ≤ 3`), the queues are well formed and fit into a
-- ring, and queue `m` holds the identifier, `sys_env_asignar_prioridad` returns `n`, the
-- environment has priority `n`, and the identifier has left queue `m` once and stands at the end of
-- queue `n`, behind all that was there; the two other queues and all other slots stay.
pub sys_env_asignar_prioridad-Cambiado :
    (k : Kernel) (env_id m n : ℕ)
    → env_id ≢ 0
    → (k.envs (envx env_id)).env_id ≡ env_id
    → is_free (k.envs (envx env_id)).env_status ≡ false
    → Permitido k (envx env_id)
    → (k.envs (envx env_id)).cola_actual ≡ pos m
    → m < n
    → n ≤ 3
    → Caben k.mlfq_scheduler
    → 0 < count env_id (contenido (cola_de k (cola_numero m)))
    → (r : Kernel) × (sys_env_asignar_prioridad k env_id (pos n) ≡ some (pos n, r))
      × Cambiado k (envx env_id) (pos n) r
      × (cola_numero m ≢ cola_numero n)
      × Trasladado env_id (cola_numero m) (cola_numero n) k.mlfq_scheduler r.mlfq_scheduler
unfolding sys_env_asignar_prioridad con_envid asignar_en obtener_cola agregar_en
sys_env_asignar_prioridad-Cambiado k env_id m n ne propio uso permiso prior peor cabe caben esta =
    let i = envx env_id in
    let no_negativa : ltb n 0 ≡ false = le→ltb n 0 (omega arith) in
    let mismo : envx (k.envs i).env_id ≡ i = ap envx propio in
    let origen : obtener_cola (k.envs i).cola_actual ≡ some (cola_numero m) =
      ap obtener_cola prior in
    let sube : ltb_ℤ (pos n) (k.envs i).cola_actual ≡ false =
      ap (ltb_ℤ (pos n)) prior ∙ le→ltb n m (omega arith) in
    let otra : eqb_ℤ (k.envs i).cola_actual (pos n) ≡ false =
      ap (λ z. eqb_ℤ z (pos n)) prior ∙ ne→== m n (omega arith) in
    (
      cambiado k i (pos n) (cola_numero m) (cola_numero n),
      rw
          (
            sys_env_asignar_prioridad,
            no_negativa,
            le→ltb 3 n cabe,
            con_envid,
            hallado k env_id ne propio uso,
            asignar_en,
            Permitido-ajeno k i permiso,
            otra,
            sube,
          )
          (cambiar_cola_ok k i (pos n) mismo origen refl),
      cambiado-Cambiado k i (pos n) (cola_numero m) (cola_numero n) mismo origen refl sube,
      distintas m n peor cabe,
      subst
          (λ x.
            let s1 =
              escribir k.mlfq_scheduler (cola_numero m)
                (eliminar_de x (leer k.mlfq_scheduler (cola_numero m))) in
            Trasladado env_id (cola_numero m) (cola_numero n) k.mlfq_scheduler
              (escribir s1 (cola_numero n) (encolar x (leer s1 (cola_numero n)))))
          (sym propio)
          (eliminar_de-Trasladado env_id (cola_numero m) (cola_numero n) k.mlfq_scheduler caben
            esta),
    )
