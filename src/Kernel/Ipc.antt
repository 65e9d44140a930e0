-- ===== src/Kernel/Ipc.antt =====
-- Message passing: `sys_ipc_try_send` and `sys_ipc_recv` of scheduler/kern/syscall.c.
use Prim.Native.Nat.{bit_and, bit_or}
use features_operating_syste.Prelude.{
  ℕ, ◌%◌, ◌≤◌, ◌≡◌, ◌≢◌, refl, ◌∙◌, true, false, not, ◌&&◌, none, some, leb, ◌==◌, if◌then◌else◌, ℤ,
  pos, ltb_ℤ, arith, ==_refl, ne→==,
}
use features_operating_syste.Kernel.Types.{
  envx, is_free, Status, Kernel, Control, and_then, e_inval, e_ipc_not_recv,
}
use features_operating_syste.Kernel.Memory.{M, ◌>>=◌, pure}
use features_operating_syste.Kernel.Run.{con_env}
use features_operating_syste.Kernel.Sched.{Politica, sched_yield}
use features_operating_syste.Kernel.Syscall.{Retorno, Final, con_envid}
use features_operating_syste.Kernel.Syscall.Lowering.{hallado}
use features_operating_syste.Kernel.Pages.{
  utop, mala_va, env_page_alloc, env_page_map, page_lookup_pte,
}

-- The assignments from the label `bail` on, for the current environment `c`.
abbrev pub entregado : Kernel → ℕ → ℕ → ℕ → Kernel
entregado k c i value =
    let e = k.envs i in
    let tf = e.env_tf in
    con_env k i (record e {
      env_ipc_from = (k.envs c).env_id;
      env_ipc_recving = false;
      env_ipc_value = value;
      env_tf = record tf { reg_eax = 0 };
      env_status = Status.env_runnable;
    })

unfoldable pub entregar : Kernel → ℕ → ℕ → Retorno
entregar k i value = elim k.curenv [ none ↦ none | some c ↦ some (pos 0, entregado k c i value) ]

-- `env_page_alloc` and then `env_page_map` to the receiver's address, unless one of them fails.
unfoldable pub pasar_pagina : ℕ → ℕ → ℕ → ℕ → ℕ → M ℤ
pasar_pagina src srcva dst dstva perm = env_page_alloc dst dstva perm >>= λ r.
    if ltb_ℤ r (pos 0) then pure r else env_page_map src srcva dst dstva perm

-- The part with a page, for a sender's directory `src` and a receiver `i`. Without an entry `srcpte`
-- is never set, and is read all the same: `none`.
unfoldable pub enviar_pagina : Kernel → ℕ → ℕ → ℕ → ℕ → ℕ → Retorno
unfolding entregar pasar_pagina
enviar_pagina k src i value srcva perm =
    let e = k.envs i in
    let con_permisos = bit_or perm 5 in
    elim (page_lookup_pte src srcva k.mem) [
      | none ↦ none
      | some (none, m) ↦ none
      | some (some (p, w), m) ↦
          if not (w == 0) && (bit_and w 1 == 0)
          then some (e_inval, k)
          else if not (bit_and perm 2 == 0) && (bit_and w 2 == 0)
          then some (e_inval, k)
          else if e.env_ipc_dstva == 0
          then entregar k i value
          else elim e.env_pgdir [
            | none ↦ none
            | some dst ↦ elim (pasar_pagina src srcva dst e.env_ipc_dstva con_permisos m) [
              | none ↦ none
              | some (r, m') ↦
                  let k' = record k { mem = m' } in
                  if ltb_ℤ r (pos 0)
                  then some (r, k')
                  else entregar (con_env k' i (record e { env_ipc_perm = con_permisos })) i value
            ]
          ]
    ]

unfoldable pub enviar : Kernel → ℕ → ℕ → ℕ → ℕ → Retorno
unfolding enviar_pagina entregar
enviar k value srcva perm i =
    let e = k.envs i in
    if not e.env_ipc_recving
    then some (e_ipc_not_recv, k)
    else if leb utop srcva
    then entregar (con_env k i (record e { env_ipc_perm = 0 })) i value
    else if not (srcva % 4096 == 0)
    then some (e_inval, k)
    else elim k.curenv [
      | none ↦ none
      | some c ↦ elim (k.envs c).env_pgdir [
        | none ↦ none
        | some src ↦ enviar_pagina k src i value srcva perm
      ]
    ]

unfoldable pub sys_ipc_try_send : Kernel → ℕ → ℕ → ℕ → ℕ → Retorno
unfolding con_envid enviar
sys_ipc_try_send k envid value srcva perm =
    con_envid k envid false (λ r. some (r, k)) (enviar k value srcva perm)

-- `sched_yield` does not return; if it did, the `panic` behind it would stop the kernel.
unfoldable pub sys_ipc_recv : Politica → Kernel → ℕ → Final
sys_ipc_recv politica k dstva = elim k.curenv [
  | none ↦ Final.no_vuelve Control.fault
  | some c ↦
      let e = k.envs c in
      if mala_va dstva
      then Final.devuelve e_inval (con_env k c (record e { env_ipc_recving = true }))
      else Final.no_vuelve (
          and_then
            (sched_yield politica (
              con_env k c (record e {
                env_ipc_recving = true;
                env_ipc_dstva = dstva;
                env_status = Status.env_not_runnable;
              })))
            (λ _. Control.fault))
]

-- What a message without a page leaves: the receiver has the value and the sender's identifier, is
-- no longer receiving, and can run, its call returning 0; the rest is as before.
pub record Recibido (k : Kernel) (c i value : ℕ) (r : Kernel) : Type 0 where
  pub valor : (r.envs i).env_ipc_value ≡ value
  pub remitente : (r.envs i).env_ipc_from ≡ (k.envs c).env_id
  pub no_recibe : (r.envs i).env_ipc_recving ≡ false
  pub sin_pagina : (r.envs i).env_ipc_perm ≡ 0
  pub despierto : (r.envs i).env_status ≡ Status.env_runnable
  pub devuelve_cero : (r.envs i).env_tf.reg_eax ≡ 0
  pub otros : (j : ℕ) → j ≢ i → r.envs j ≡ k.envs j
  pub colas : r.mlfq_scheduler ≡ k.mlfq_scheduler
  pub memoria : r.mem ≡ k.mem

entregar_lem :
    (k : Kernel) (i value : ℕ) {c : ℕ}
    → k.curenv ≡ some c
    → entregar k i value ≡ some (pos 0, entregado k c i value)
unfolding entregar
entregar_lem k i value h = ground arith

enviar_lem :
    (k : Kernel) (value srcva perm i : ℕ)
    → (k.envs i).env_ipc_recving ≡ true
    → leb utop srcva ≡ true
    → let e = k.envs i in
      enviar k value srcva perm i ≡ entregar (con_env k i (record e { env_ipc_perm = 0 })) i value
unfolding enviar
enviar_lem k value srcva perm i h l = ground arith

-- Where the identifier is that of a live environment other than the sender's that waits for a
-- message, and `srcva` is not below UTOP, `sys_ipc_try_send` returns 0 and leaves `Recibido`.
pub sys_ipc_try_send-Recibido :
    (k : Kernel) (envid value srcva perm : ℕ) {c : ℕ}
    → envid ≢ 0
    → (k.envs (envx envid)).env_id ≡ envid
    → is_free (k.envs (envx envid)).env_status ≡ false
    → (k.envs (envx envid)).env_ipc_recving ≡ true
    → utop ≤ srcva
    → k.curenv ≡ some c
    → c ≢ envx envid
    → (r : Kernel) × (sys_ipc_try_send k envid value srcva perm ≡ some (pos 0, r))
      × Recibido k c (envx envid) value r
unfolding sys_ipc_try_send con_envid
sys_ipc_try_send-Recibido k envid value srcva perm {c} ne propio uso espera alta actual otro =
    let i = envx envid in
    let alto : leb utop srcva ≡ true = ground arith in
    let e = k.envs i in
    let k1 = con_env k i (record e { env_ipc_perm = 0 }) in
    (
      entregado k1 c i value,
      rw (sys_ipc_try_send, con_envid, hallado k envid ne propio uso)
          (enviar_lem k value srcva perm i espera alto ∙ entregar_lem k1 i value actual),
      record {
        valor = rw (==_refl i) refl;
        remitente = rw (==_refl i, ne→== c i otro) refl;
        no_recibe = rw (==_refl i) refl;
        sin_pagina = rw (==_refl i) refl;
        despierto = rw (==_refl i) refl;
        devuelve_cero = rw (==_refl i) refl;
        otros = λ j ne. rw (ne→== j i ne) refl;
        colas = refl;
        memoria = refl;
      },
    )
