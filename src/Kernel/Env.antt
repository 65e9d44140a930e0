-- ===== src/Kernel/Env.antt =====
-- The environments of scheduler/kern/env.c. `none` is a fault or a panic of the kernel.
pub mod Lookup
pub mod Alloc
pub mod Free
pub mod Stale
pub mod Success
use features_operating_syste.Prelude.{
  ℕ, zero, suc, ◌+◌, ◌-◌, ◌*◌, ◌%◌, ◌^◌, Bool, true, false, not, ◌&&◌, ◌||◌, Option, none, some,
  ltb, leb, ◌==◌, if◌then◌else◌, update, ℤ, pos, negsuc,
}
use features_operating_syste.Kernel.Types.{
  nenv, envx, Status, is_free, is_running, zero_trapframe, Env, Memory, Kernel, Control, and_then,
  e_bad_env, e_no_mem, e_no_free_env,
}
use features_operating_syste.Kernel.Queue.{sched_agregar_env}
use features_operating_syste.Kernel.Memory.{
  M, ◌>>=◌, ◌>>◌, pure, page2pa, pa2page, page_alloc, page_decref, page_remove, incref,
  leer_palabra, escribir_palabra,
}
use features_operating_syste.Kernel.Run.{con_env}
use features_operating_syste.Kernel.Sched.{Politica, sched_yield}

-- `e == curenv`
abbrev pub es_curenv : Option ℕ → ℕ → Bool
es_curenv none i = false
es_curenv (some c) i = c == i

-- What is returned, and what is stored in `*env_store`. Only the test of the permission reads
-- through `curenv`, and faults where it is NULL.
unfoldable pub envid2env : Kernel → ℕ → Bool → Option (ℤ × Option ℕ)
envid2env k envid checkperm =
    let i = envx envid in
    let e = k.envs i in
    if envid == 0
    then some (pos 0, k.curenv)
    else if is_free e.env_status || not (e.env_id == envid)
    then some (e_bad_env, none)
    else if checkperm && not (es_curenv k.curenv i)
    then elim k.curenv [
      | none ↦ none
      | some c ↦
          if not (e.env_parent_id == (k.envs c).env_id)
          then some (e_bad_env, none)
          else some (pos 0, some i)
    ]
    else some (pos 0, some i)

-- The loop of `env_init` from slot `i`, with `n` slots left.
unfoldable pub env_init_desde : (ℕ → Env) → ℕ → ℕ → ℕ → Env
env_init_desde envs i zero = envs
env_init_desde envs i (suc n) =
    let e = envs i in
    env_init_desde
      (update envs i
        (record e { env_id = 0; env_status = Status.env_free; env_link = some (i + 1) }))
      (i + 1) n

-- `env_init_percpu` loads segment registers only.
unfoldable pub env_init : Kernel → Kernel
unfolding env_init_desde
env_init k =
    let envs = env_init_desde k.envs 0 nenv in
    let ultimo = envs (nenv - 1) in
    record k {
      envs = update envs (nenv - 1) (record ultimo { env_link = none });
      env_free_list = some 0;
    }

-- `memcpy(e->env_pgdir, kern_pgdir, PGSIZE)`
abbrev copiar_pagina : ℕ → M (Unit {0})
copiar_pagina p s = some (tt, record s { phys = update s.phys p (s.phys s.kern_pgdir) })

-- PDX(UVPT); the entry holds the directory's own address with PTE_P and PTE_U.
abbrev pub pdx_uvpt : ℕ
pdx_uvpt = 957

-- The memory part of `env_setup_vm`: the page of the new directory, or NULL.
unfoldable pub directorio_nuevo : M (Option ℕ)
unfolding page_alloc
directorio_nuevo = do
  page ← page_alloc true
  elim page [
    | none ↦ pure none
    | some p ↦ do
      copiar_pagina p
      incref p
      escribir_palabra p pdx_uvpt (page2pa p + 5)
      pure (some p)
  ]

-- The result code and the state, in which slot `i` has its directory.
unfoldable pub env_setup_vm : Kernel → ℕ → Option (ℤ × Kernel)
env_setup_vm k i = elim (directorio_nuevo k.mem) [
  | none ↦ none
  | some (none, m) ↦ some (e_no_mem, record k { mem = m })
  | some (some p, m) ↦
      let e = k.envs i in
      some (pos 0, con_env (record k { mem = m }) i (record e { env_pgdir = some p }))
]

-- `(e->env_id + (1 << ENVGENSHIFT)) & ~(NENV - 1)` on 32 bits, made positive, with the slot's index
-- put into the ten bits that are clear.
unfoldable pub nuevo_env_id : ℕ → ℕ → ℕ
nuevo_env_id env_id i =
    let g = (env_id + 4096) % 2 ^ 32 in
    let generation = g - g % 1024 in
    if (generation == 0) || leb (2 ^ 31) generation then 4096 + i else generation + i

-- The assignments of `env_alloc` to the slot that it takes.
unfoldable pub env_nuevo : ℕ → ℕ → Env → Env
unfolding nuevo_env_id
env_nuevo i parent_id e =
    let tf = zero_trapframe in
    record e {
      env_id = nuevo_env_id e.env_id i;
      env_parent_id = parent_id;
      env_status = Status.env_runnable;
      env_runs = 0;
      env_tf = record tf {
        tf_ds = 0x23;
        tf_es = 0x23;
        tf_ss = 0x23;
        tf_esp = 0xeebfe000;
        tf_cs = 0x1b;
        tf_eflags = 0x200;
      };
      env_pgfault_upcall = 0;
      env_ipc_recving = false;
      ejecuciones = 0;
    }

-- `padre ? padre->cola_actual : 0`, where `envid2env` stored `padre`.
abbrev pub cola_del_padre : Kernel → Option (ℤ × Option ℕ) → ℤ
cola_del_padre k none = pos 0
cola_del_padre k (some (r, none)) = pos 0
cola_del_padre k (some (r, some p)) = (k.envs p).cola_actual

-- The result code and the slot that `*newenv_store` gets.
unfoldable pub env_alloc : Kernel → ℕ → Option (ℤ × Option ℕ × Kernel)
env_alloc k parent_id = elim k.env_free_list [
  | none ↦ some (e_no_free_env, none, k)
  | some i ↦ elim (env_setup_vm k i) [
    | none ↦ none
    | some (negsuc r, k1) ↦ some (negsuc r, none, k1)
    | some (pos r, k1) ↦
        let k2 = con_env k1 i (env_nuevo i parent_id (k1.envs i)) in
        let k3 = record k2 { env_free_list = (k2.envs i).env_link } in
        let padre = envid2env k3 parent_id false in
        elim (sched_agregar_env k3 (k3.envs i).env_id (cola_del_padre k3 padre)) [
          | none ↦ none
          | some k4 ↦ some (pos 0, some i, k4)
        ]
  ]
]

-- The inner loop of `env_free` over one page table, from entry `pteno` with `n` entries left.
unfoldable pub soltar_paginas : ℕ → ℕ → ℕ → ℕ → ℕ → M (Unit {0})
soltar_paginas pgdir pt pdeno pteno zero = pure tt
soltar_paginas pgdir pt pdeno pteno (suc n) = do
  w ← leer_palabra pt pteno
  if w % 2 == 1 then page_remove pgdir (pdeno * 2 ^ 22 + pteno * 2 ^ 12) else pure tt
  soltar_paginas pgdir pt pdeno (pteno + 1) n

-- The body of the outer loop for an entry that is present.
unfoldable pub soltar_tabla : ℕ → ℕ → ℕ → M (Unit {0})
unfolding soltar_paginas
soltar_tabla pgdir pdeno pde = do
  pt ← pa2page pde
  soltar_paginas pgdir pt pdeno 0 1024
  escribir_palabra pgdir pdeno 0
  page_decref pt

-- The outer loop, from directory entry `pdeno` with `n` entries left.
unfoldable pub soltar_tablas : ℕ → ℕ → ℕ → M (Unit {0})
unfolding soltar_tabla
soltar_tablas pgdir pdeno zero = pure tt
soltar_tablas pgdir pdeno (suc n) = do
  pde ← leer_palabra pgdir pdeno
  if pde % 2 == 1 then soltar_tabla pgdir pdeno pde else pure tt
  soltar_tablas pgdir (pdeno + 1) n

-- PDX(UTOP)
abbrev pub pdx_utop : ℕ
pdx_utop = 955

-- All that `env_free` does to memory, for a directory at page `pgdir`.
unfoldable pub soltar_memoria : ℕ → M (Unit {0})
unfolding soltar_tablas
soltar_memoria pgdir = do soltar_tablas pgdir 0 pdx_utop; p ← pa2page (page2pa pgdir); page_decref p

-- The assignments of `env_free` once memory is `m`.
unfoldable pub liberar : Kernel → ℕ → Memory → Kernel
liberar k i m =
    let e = k.envs i in
    record k {
      envs =
          update k.envs i (record e {
            env_pgdir = none;
            env_status = Status.env_free;
            env_link = k.env_free_list;
          });
      env_free_list = some i;
      cr3 = if es_curenv k.curenv i then k.mem.kern_pgdir else k.cr3;
      mem = m;
    }

unfoldable pub env_free : Kernel → ℕ → Option Kernel
unfolding soltar_memoria liberar
env_free k i = elim (k.envs i).env_pgdir [
  | none ↦ none
  | some pgdir ↦ elim (soltar_memoria pgdir k.mem) [
    | none ↦ none
    | some (_, m) ↦ some (liberar k i m)
  ]
]

unfoldable pub env_destroy : Politica → Kernel → ℕ → Control
env_destroy politica k i =
    let e = k.envs i in
    if is_running e.env_status && not (es_curenv k.curenv i)
    then Control.returned (con_env k i (record e { env_status = Status.env_dying }))
    else elim (env_free k i) [
      | none ↦ Control.fault
      | some k1 ↦
          if es_curenv k1.curenv i
          then sched_yield politica (record k1 { curenv = none })
          else Control.returned k1
    ]
