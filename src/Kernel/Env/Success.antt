-- ===== src/Kernel/Env/Success.antt =====
-- When `env_alloc` of scheduler/kern/env.c succeeds.
use features_operating_syste.Prelude.{
  ℕ, ◌+◌, ◌%◌, ◌^◌, ◌<◌, ◌≡◌, refl, ap, ◌∙◌, true, false, Option, none, some, ℤ, pos, arith, inl,
  inr, Bool-cases, ==_refl, ◌==◌, update, sym, subst, ==→eq, ◌≢◌, ◌⊎◌, Option-cases,
}
use features_operating_syste.Kernel.Types.{envx, is_free, e_bad_env, Memory, Puntero, Kernel}
use features_operating_syste.Kernel.Memory.{◌>>=◌, page_alloc, page2pa}
use features_operating_syste.Kernel.Env.{
  pdx_uvpt, env_nuevo, nuevo_env_id, directorio_nuevo, envid2env, env_alloc, cola_del_padre,
}
use features_operating_syste.Kernel.Env.Alloc.{
  Creado, LibreValida, antes_de_encolar, env_alloc_encola, agregar_en-Creado, mismo_env_id,
}
use features_operating_syste.Kernel.Queue.{
  agregar_en, cola_numero, obtener_cola, escribir, encolar, cola_de,
}
use features_operating_syste.Kernel.Queue.Transfer.{Sobra, AlFinal, encolar-AlFinal}
use features_operating_syste.Kernel.Env.Lookup.{envid2env_stale, nuevo_env_id_lem}

-- Memory without its first free page `p`, which is cleared.
abbrev tomada : ℕ → Memory → Memory
tomada p m =
    let i = m.pages p in
    record m {
      pages = update m.pages p (record i { pp_link = none });
      page_free_list = i.pp_link;
      phys = update m.phys p (λ _. 0);
    }

page_alloc_hay :
    (m : Memory) {p : ℕ}
    → m.page_free_list ≡ some p
    → p < m.npages
    → page_alloc true m ≡ some (some p, tomada p m)
unfolding page_alloc
page_alloc_hay m {p} libre existe = ground arith

-- Memory once the page `p` holds a directory.
abbrev con_directorio : ℕ → Memory → Memory
con_directorio p m =
    let s1 = tomada p m in
    let i = s1.pages p in
    record s1 {
      pages = update s1.pages p (record i { pp_ref = (i.pp_ref + 1) % 65536 });
      phys =
          let f = update s1.phys p (s1.phys s1.kern_pgdir) in
          update f p (update (f p) pdx_uvpt (page2pa p + 5));
    }

directorio_nuevo_hay :
    (m : Memory) {p : ℕ}
    → m.page_free_list ≡ some p
    → p < m.npages
    → directorio_nuevo m ≡ some (some p, con_directorio p m)
unfolding directorio_nuevo
directorio_nuevo_hay m {p} libre existe =
    rw (directorio_nuevo, ◌>>=◌, page_alloc_hay m libre existe) refl

-- No priority is negative, so that every one has a queue.
abbrev pub Prioridades : Kernel → Type 0
Prioridades k = (j : ℕ) → (n : ℕ) × ((k.envs j).cola_actual ≡ pos n)

cola_del_padre-Prioridades :
    (k : Kernel) (o : Option (ℤ × Option ℕ))
    → Prioridades k
    → (n : ℕ) × (cola_del_padre k o ≡ pos n)
cola_del_padre-Prioridades k none h = (0, refl)
cola_del_padre-Prioridades k (some (r, none)) h = (0, refl)
cola_del_padre-Prioridades k (some (r, some p)) h = h p

-- The priority `v` that the new environment of slot `i` is to get: that of the live environment that
-- `parent_id` names, 0 naming the current one; without such an environment, 0. Only an identifier
-- that is the new one itself names slot `i`.
pub data DelPadre (k : Kernel) (parent_id i : ℕ) (v : ℤ) : Type 0 where
  del_actual :
      (c : ℕ)
      → parent_id ≡ 0
      → k.curenv ≡ some c
      → v ≡ (k.envs c).cola_actual
      → DelPadre k parent_id i v
  sin_actual : parent_id ≡ 0 → k.curenv ≡ none → v ≡ pos 0 → DelPadre k parent_id i v
  del_vivo :
      parent_id ≢ 0
      → envx parent_id ≢ i
      → (k.envs (envx parent_id)).env_id ≡ parent_id
      → is_free (k.envs (envx parent_id)).env_status ≡ false
      → v ≡ (k.envs (envx parent_id)).cola_actual
      → DelPadre k parent_id i v
  sin_padre :
      parent_id ≢ 0
      → envx parent_id ≢ i
      → ((k.envs (envx parent_id)).env_id ≢ parent_id)
        ⊎ (is_free (k.envs (envx parent_id)).env_status ≡ true)
      → v ≡ pos 0
      → DelPadre k parent_id i v
  de_si_mismo :
      parent_id ≡ nuevo_env_id (k.envs i).env_id i
      → v ≡ (k.envs i).cola_actual
      → DelPadre k parent_id i v
  ya_no_vive :
      parent_id ≢ 0
      → envx parent_id ≡ i
      → parent_id ≢ nuevo_env_id (k.envs i).env_id i
      → v ≡ pos 0
      → DelPadre k parent_id i v

antes_de_encolar-cola :
    (k : Kernel) (parent_id i d : ℕ) (m : Memory) (j : ℕ)
    → ((antes_de_encolar k parent_id i d m).envs j).cola_actual ≡ (k.envs j).cola_actual
unfolding env_nuevo
antes_de_encolar-cola k parent_id i d m j = elim (Bool-cases (j == i)) [
  | inl e ↦ rw (e, ==_refl i) (ap (λ x. (k.envs x).cola_actual) (sym (==→eq j i e)))
  | inr e ↦ rw e refl
]

antes_de_encolar-otro :
    (k : Kernel) (parent_id i d : ℕ) (m : Memory) (j : ℕ)
    → j ≢ i
    → (antes_de_encolar k parent_id i d m).envs j ≡ k.envs j
antes_de_encolar-otro k parent_id i d m j ne = ground arith

antes_de_encolar-vivo :
    (k : Kernel) (parent_id i d : ℕ) (m : Memory)
    → is_free ((antes_de_encolar k parent_id i d m).envs i).env_status ≡ false
unfolding env_nuevo
antes_de_encolar-vivo k parent_id i d m = ground arith

envid2env-actual :
    (k : Kernel) (envid : ℕ) → envid ≡ 0 → envid2env k envid false ≡ some (pos 0, k.curenv)
unfolding envid2env
envid2env-actual k envid e = ground arith

envid2env-vivo :
    (k : Kernel) (envid : ℕ)
    → envid ≢ 0
    → (k.envs (envx envid)).env_id ≡ envid
    → is_free (k.envs (envx envid)).env_status ≡ false
    → envid2env k envid false ≡ some (pos 0, some (envx envid))
unfolding envid2env
envid2env-vivo k envid ne propio uso = ground arith

envid2env_libre :
    (k : Kernel) (envid : ℕ)
    → envid ≢ 0
    → is_free (k.envs (envx envid)).env_status ≡ true
    → envid2env k envid false ≡ some (e_bad_env, none)
unfolding envid2env
envid2env_libre k envid ne libre = ground arith

module _ (k : Kernel) (parent_id i d : ℕ) (m : Memory) where
  abbrev kk : Kernel
  kk = antes_de_encolar k parent_id i d m

  abbrev hereda : ℤ
  hereda = cola_del_padre kk (envid2env kk parent_id false)

  -- What `envid2env` found, as a priority.
  hereda_cola :
      {r : ℤ} {j : ℕ}
      → envid2env kk parent_id false ≡ some (r, some j)
      → hereda ≡ (k.envs j).cola_actual
  hereda_cola {r} {j} e = ap (cola_del_padre kk) e ∙ antes_de_encolar-cola k parent_id i d m j

  hereda_nada : {r : ℤ} → envid2env kk parent_id false ≡ some (r, none) → hereda ≡ pos 0
  hereda_nada e = ap (cola_del_padre kk) e

  actual-DelPadre : parent_id ≡ 0 → DelPadre k parent_id i hereda
  actual-DelPadre cero = elim (Option-cases k.curenv) [
    | inl nadie ↦
        DelPadre.sin_actual cero nadie
          (hereda_nada (envid2env-actual kk parent_id cero ∙ ap (λ o. some (pos 0, o)) nadie))
    | inr (c, e) ↦
        DelPadre.del_actual c cero e
          (hereda_cola (envid2env-actual kk parent_id cero ∙ ap (λ o. some (pos 0, o)) e))
  ]

  -- The parent's slot is the one that was taken.
  mismo-DelPadre : parent_id ≢ 0 → envx parent_id ≡ i → DelPadre k parent_id i hereda
  mismo-DelPadre ne mismo =
      let nuevo = mismo_env_id k parent_id i d m in
      let suyo : (kk.envs (envx parent_id)).env_id ≡ nuevo_env_id (k.envs i).env_id i =
        ap (λ j. (kk.envs j).env_id) mismo ∙ nuevo in
      elim (Bool-cases (parent_id == nuevo_env_id (k.envs i).env_id i)) [
        | inl e ↦
            let igual = ==→eq _ _ e in
            DelPadre.de_si_mismo igual (
              hereda_cola (
                envid2env-vivo kk parent_id ne (suyo ∙ sym igual) (
                  ap (λ j. is_free (kk.envs j).env_status) mismo
                  ∙ antes_de_encolar-vivo k parent_id i d m))
              ∙ ap (λ j. (k.envs j).cola_actual) mismo)
        | inr e ↦
            let otro : parent_id ≢ nuevo_env_id (k.envs i).env_id i = ground arith in
            DelPadre.ya_no_vive ne mismo otro
              (hereda_nada (envid2env_stale kk parent_id false ne (λ h. otro (sym h ∙ suyo))))
      ]

  otro-DelPadre : parent_id ≢ 0 → envx parent_id ≢ i → DelPadre k parent_id i hereda
  otro-DelPadre ne otro =
      let j = envx parent_id in
      let igual = antes_de_encolar-otro k parent_id i d m j otro in
      elim (Bool-cases (is_free (k.envs j).env_status)) [
        | inl libre ↦ DelPadre.sin_padre ne otro (inr libre) (
            hereda_nada
              (envid2env_libre kk parent_id ne (ap (λ x. is_free x.env_status) igual ∙ libre)))
        | inr vivo ↦ elim (Bool-cases ((k.envs j).env_id == parent_id)) [
          | inl e ↦
              let propio = ==→eq _ _ e in
              DelPadre.del_vivo ne otro propio vivo (
                hereda_cola (
                  envid2env-vivo kk parent_id ne (ap (λ x. x.env_id) igual ∙ propio)
                    (ap (λ x. is_free x.env_status) igual ∙ vivo)))
          | inr e ↦
              let ajeno : (k.envs j).env_id ≢ parent_id = ground arith in
              DelPadre.sin_padre ne otro (inl ajeno) (
                hereda_nada (
                  envid2env_stale kk parent_id false ne
                    (λ h. ajeno (sym (ap (λ x. x.env_id) igual) ∙ h))))
        ]
      ]

  hereda-DelPadre : DelPadre k parent_id i hereda
  hereda-DelPadre = elim (Bool-cases (parent_id == 0)) [
    | inl e ↦ actual-DelPadre (==→eq _ _ e)
    | inr e ↦ elim (Bool-cases (envx parent_id == i)) [
      | inl mismo ↦ mismo-DelPadre (ground arith) (==→eq _ _ mismo)
      | inr otro ↦ otro-DelPadre (ground arith) (ground arith)
    ]
  ]

antes_de_encolar-Prioridades :
    (k : Kernel) (parent_id i d : ℕ) (m : Memory)
    → Prioridades k
    → Prioridades (antes_de_encolar k parent_id i d m)
unfolding env_nuevo
antes_de_encolar-Prioridades k parent_id i d m h j = elim (Bool-cases (j == i)) [
  | inl e ↦ rw (e, ==_refl i) (h i)
  | inr e ↦ rw e (h j)
]

-- The priority that the slot keeps.
agregada :
    (k : Kernel) (parent_id i d : ℕ) (m : Memory) (q : Puntero) (v : ℤ)
    → (k.envs i).env_id < 2 ^ 31
    → i < 1024
    → let id = nuevo_env_id (k.envs i).env_id i in
      let r = agregar_en q (antes_de_encolar k parent_id i d m) id v in
      ((r.envs i).cola_actual ≡ v)
      × (r.mlfq_scheduler ≡ escribir k.mlfq_scheduler q (encolar id (cola_de k q)))
unfolding agregar_en
agregada k parent_id i d m q v b l =
    (ground (arith, nuevo_env_id_lem (k.envs i).env_id i b l), refl)

-- Where a slot `i` and a page are free, no priority is negative and the queues fit into a ring with
-- room for one more, `env_alloc` succeeds in slot `i`: a runnable environment with a new identifier
-- and no executions. Its priority is that of the live environment that `parent_id` names (of the
-- current one for 0), or 0 without one, and its identifier has been added at the end of the queue of
-- this priority; the other queues and the other slots stay.
pub env_alloc_hay :
    (k : Kernel) (parent_id : ℕ) {i p : ℕ}
    → LibreValida k
    → k.env_free_list ≡ some i
    → k.mem.page_free_list ≡ some p
    → p < k.mem.npages
    → Prioridades k
    → Sobra k.mlfq_scheduler
    → (r : Kernel) × (env_alloc k parent_id ≡ some (pos 0, some i, r))
      × Creado k parent_id i r
      × DelPadre k parent_id i (r.envs i).cola_actual
      × (n : ℕ) × ((r.envs i).cola_actual ≡ pos n)
      × AlFinal (r.envs i).env_id (cola_numero n) k.mlfq_scheduler r.mlfq_scheduler
unfolding obtener_cola
env_alloc_hay k parent_id {i} {p} v libre pagina existe h sobra =
    let m = con_directorio p k.mem in
    let dir = directorio_nuevo_hay k.mem pagina existe in
    let kk = antes_de_encolar k parent_id i p m in
    let (n, es) =
      cola_del_padre-Prioridades kk (envid2env kk parent_id false)
        (antes_de_encolar-Prioridades k parent_id i p m h) in
    let cola : obtener_cola (cola_del_padre kk (envid2env kk parent_id false))
        ≡ some (cola_numero n) =
      ap obtener_cola es in
    let prioridad = cola_del_padre kk (envid2env kk parent_id false) in
    let id = nuevo_env_id (k.envs i).env_id i in
    let creado =
      agregar_en-Creado k parent_id i p m (cola_numero n) prioridad (v i libre).1 (v i libre).0
        libre cola in
    let (suya, colas) =
      agregada k parent_id i p m (cola_numero n) prioridad (v i libre).1 (v i libre).0 in
    (
      agregar_en (cola_numero n) kk id prioridad,
      env_alloc_encola k parent_id i p m libre dir cola
          ∙ ap (λ x. some (pos 0, some i, agregar_en (cola_numero n) kk x prioridad))
              (mismo_env_id k parent_id i p m),
      creado,
      subst (DelPadre k parent_id i) (sym suya) (hereda-DelPadre k parent_id i p m),
      n,
      suya ∙ es,
      subst
          (λ x.
            AlFinal x (cola_numero n) k.mlfq_scheduler
              (agregar_en (cola_numero n) kk id prioridad).mlfq_scheduler)
          (sym creado.identificador)
          (subst (AlFinal id (cola_numero n) k.mlfq_scheduler) (sym colas)
            (encolar-AlFinal id (cola_numero n) k.mlfq_scheduler sobra)),
    )
