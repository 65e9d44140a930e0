-- ===== src/Kernel/Tests.antt =====
-- Runs of the kernel's operations on a small system.
use features_operating_syste.Prelude.{
  ℕ, suc, List, [], ◌∷◌, ◌+◌, ◌<◌, ◌≤◌, sym, ◌∙◌, ◌≡◌, ◌≢◌, ◌⊎◌, inl, inr, refl, true, false, none,
  some, ◌==◌, if◌then◌else◌, Bool-cases, ℤ, update, pos, arith,
}
use features_operating_syste.Kernel.Ipc.{Recibido, sys_ipc_try_send, sys_ipc_try_send-Recibido}
use features_operating_syste.Kernel.Sched.Yield.{contado, sched_yield-Promovido}
use features_operating_syste.Kernel.Sched.{Politica, sched_yield}
use features_operating_syste.Kernel.Types.{
  envx, Status, is_free, zero_trapframe, Env, Cola, en_b, en_d, MlfqScheduler, Memory, CpuStatus,
  Kernel, Control, e_bad_env,
}
use features_operating_syste.Kernel.Queue.{
  obtener_cola, cola_numero, encolar, agregar_en, sched_agregar_env, eliminar_de, promover_colas,
}
use features_operating_syste.Kernel.Queue.Move.{Caben}
use features_operating_syste.Kernel.Queue.Remove.{Quitado, eliminar_de-Quitado}
use features_operating_syste.Kernel.Queue.Promote.{Promovido, promover_colas-Promovido}
use features_operating_syste.Kernel.Memory.{pa2page, page_alloc, page_free, page_decref}
use features_operating_syste.Kernel.Trap.{Maquina, Trampa}
use features_operating_syste.Kernel.Trap.Stack.{Lectura}
use features_operating_syste.Kernel.Run.{contar, env_run}
use features_operating_syste.Kernel.Run.Switch.{Corre, env_run-Corre}
use features_operating_syste.Kernel.Sched.{round_robin, prioridad_mlfq}
use features_operating_syste.Kernel.Sched.Dispatch.{Despachado}
use features_operating_syste.Kernel.Sched.Mlfq.{Elegido, prioridad_mlfq-Despachado}
use features_operating_syste.Kernel.Sched.RoundRobin.{round_robin_turno}
use features_operating_syste.Kernel.Sched.Fairness.{distancia, Espera, Pasado, round_robin-Pasado}
use features_operating_syste.Kernel.Env.{
  envid2env, directorio_nuevo, env_setup_vm, nuevo_env_id, env_nuevo, env_alloc, soltar_tablas,
  soltar_memoria, liberar, env_free,
}
use features_operating_syste.Kernel.Env.Lookup.{Permitido, envid2env_sound}
use features_operating_syste.Kernel.Env.Alloc.{Creado, LibreValida}
use features_operating_syste.Kernel.Env.Free.{Liberado, env_free-Liberado}
use features_operating_syste.Kernel.Env.Stale.{
  env_alloc-Creado, env_alloc-envid2env, agregadas, quitadas, Ciclos, Ciclos-agregadas,
}
use features_operating_syste.Kernel.Env.Success.{Prioridades, DelPadre, env_alloc_hay}
use features_operating_syste.Kernel.Queue.Transfer.{Trasladado, Sobra, AlFinal}
use features_operating_syste.Kernel.Syscall.{sys_env_asignar_prioridad}
use features_operating_syste.Kernel.Syscall.Priority.{Cambiado}
use features_operating_syste.Kernel.Syscall.Lowering.{sys_env_asignar_prioridad-Cambiado}

-- A slot whose directory is the page `id`.
abbrev entorno : ℕ → Status → ℤ → Env
entorno id estado cola = record {
  env_tf = zero_trapframe;
  env_link = none;
  env_id = id;
  env_parent_id = 4096;
  env_status = estado;
  env_runs = 0;
  env_cpunum = 0;
  env_pgdir = some 9;
  env_pgfault_upcall = 0;
  env_ipc_recving = false;
  env_ipc_dstva = 0;
  env_ipc_value = 0;
  env_ipc_from = 0;
  env_ipc_perm = 0;
  cola_actual = cola;
  ejecuciones = 0;
}

-- Slot 0 runs, 1 and 2 can run, 3 was in use before, and the others never were.
abbrev entornos : ℕ → Env
entornos i =
    if i == 0
    then entorno 4096 Status.env_running (pos 0)
    else if i == 1
    then entorno 4097 Status.env_runnable (pos 1)
    else if i == 2
    then entorno 4098 Status.env_runnable (pos 2)
    else entorno (if i == 3 then 4099 else 0) Status.env_free (pos 0)

abbrev cola_con : ℕ → ℕ → Cola
cola_con id n = record { envs = λ _. id; ultimo = 5 + n; primero = 5 }

abbrev planificador : MlfqScheduler
planificador = record {
  cola_a = cola_con 0 0;
  cola_b = cola_con 4097 1;
  cola_c = cola_con 4098 1;
  cola_d = cola_con 0 0;
  ejecuciones_totales = 50;
}

abbrev memoria : Memory
memoria = record {
  npages = 64;
  pages = λ p. record { pp_link = some (suc p); pp_ref = 0 };
  page_free_list = some 7;
  phys = λ _ _. 0;
  kern_pgdir = 1;
}

abbrev sistema : Kernel
sistema = record {
  envs = entornos;
  env_free_list = some 3;
  curenv = some 0;
  cpunum = 0;
  cpu_status = CpuStatus.cpu_started;
  kernel_locked = true;
  cr3 = 9;
  mlfq_scheduler = planificador;
  runs_del_sched = 0;
  mem = memoria;
}

sistema-Caben : Caben planificador
sistema-Caben = record {
  a_valida = record { ordenada = omega arith; acotada = omega arith };
  b_valida = record { ordenada = omega arith; acotada = omega arith };
  c_valida = record { ordenada = omega arith; acotada = omega arith };
  d_valida = record { ordenada = omega arith; acotada = omega arith };
  total = omega arith;
}

sistema-Elegido : Elegido sistema 1 4097
sistema-Elegido = record {
  es_cola = omega arith;
  primero = refl;
  nadie_antes = λ m h. let e : m ≡ 0 = omega arith in rw e refl;
}

sistema-LibreValida : LibreValida sistema
sistema-LibreValida i e = let h : 3 ≡ i = ground arith in rw (← h) (omega arith, omega arith)

sistema-Prioridades : Prioridades sistema
sistema-Prioridades j = elim (Bool-cases (j == 0)) [
  | inl a ↦ rw a (0, refl)
  | inr a ↦ elim (Bool-cases (j == 1)) [
    | inl b ↦ rw (a, b) (1, refl)
    | inr b ↦ elim (Bool-cases (j == 2)) [
      | inl c ↦ rw (a, b, c) (2, refl)
      | inr c ↦ rw (a, b, c) (0, refl)
    ]
  ]
]

prioridad_mlfq-Despachado_example :
    (r : Kernel) × (prioridad_mlfq sistema ≡ Control.context_switch r) × Despachado sistema 1 4097 r
prioridad_mlfq-Despachado_example =
    prioridad_mlfq-Despachado {n = 1} {id = 4097} {pgdir = 9} sistema sistema-Caben sistema-Elegido
      refl

promover_colas-Promovido_example :
    (r : Kernel) × (promover_colas sistema ≡ some r) × Promovido sistema r
promover_colas-Promovido_example = promover_colas-Promovido sistema sistema-Caben

sistema-Sobra : Sobra planificador
sistema-Sobra = record { caben = sistema-Caben; libre = omega arith }

env_alloc_hay_example :
    (r : Kernel) × (env_alloc sistema 4096 ≡ some (pos 0, some 3, r))
    × Creado sistema 4096 3 r
    × DelPadre sistema 4096 3 (r.envs 3).cola_actual
    × (n : ℕ) × ((r.envs 3).cola_actual ≡ pos n)
    × AlFinal (r.envs 3).env_id (cola_numero n) planificador r.mlfq_scheduler
env_alloc_hay_example =
    env_alloc_hay sistema 4096 sistema-LibreValida refl refl (omega arith) sistema-Prioridades
      sistema-Sobra

-- The system once slot 3 is taken.
toma : (r : Kernel) × (env_alloc sistema 4096 ≡ some (pos 0, some 3, r))
toma =
    let c =
      env_alloc_hay sistema 4096 sistema-LibreValida refl refl (omega arith) sistema-Prioridades
        sistema-Sobra in
    (c.0, c.1)

env_alloc-envid2env_example : envid2env toma.0 4099 true ≡ some (e_bad_env, none)
env_alloc-envid2env_example =
    env_alloc-envid2env sistema 4096 true sistema-LibreValida toma.1 (omega arith) refl

hallado_uno : envid2env sistema 4097 true ≡ some (pos 0, some 1)
unfolding envid2env
hallado_uno = refl

envid2env_sound_example :
    (pos 0 ≡ pos 0)
    × (1 ≡ envx 4097)
    × ((sistema.envs 1).env_id ≡ 4097)
    × (is_free (sistema.envs 1).env_status ≡ false)
    × ((true ≡ false) ⊎ Permitido sistema 1)
envid2env_sound_example = envid2env_sound sistema 4097 true (omega arith) hallado_uno

sys_env_asignar_prioridad-Cambiado_example :
    (r : Kernel) × (sys_env_asignar_prioridad sistema 4097 (pos 3) ≡ some (pos 3, r))
    × Cambiado sistema 1 (pos 3) r
    × (en_b ≢ en_d)
    × Trasladado 4097 en_b en_d planificador r.mlfq_scheduler
sys_env_asignar_prioridad-Cambiado_example =
    sys_env_asignar_prioridad-Cambiado sistema 4097 1 3 (omega arith) refl refl
      (inr (0, refl, refl)) refl (omega arith) (omega arith) sistema-Caben (omega arith)

eliminar_de-Quitado_example : Quitado 4097 (cola_con 4097 1) (eliminar_de 4097 (cola_con 4097 1))
eliminar_de-Quitado_example =
    eliminar_de-Quitado 4097 (cola_con 4097 1) (sistema-Caben.b_valida) (omega arith)

-- Slot 1 freed; its directory has no tables.
liberado : (r : Kernel) × (env_free sistema 1 ≡ some r)
unfolding env_free soltar_memoria soltar_tablas pa2page page_decref page_free
liberado = (_, refl)

env_free-Liberado_example : Liberado sistema 1 liberado.0
env_free-Liberado_example = env_free-Liberado sistema 1 liberado.1

-- Slot 3 taken and freed again.
ciclo :
    (s : Kernel) × (t : Kernel) × (env_alloc sistema 4096 ≡ some (pos 0, some 3, s))
    × (env_free s 3 ≡ some t)
unfolding env_free soltar_memoria soltar_tablas pa2page page_decref page_free env_alloc env_setup_vm
    directorio_nuevo page_alloc env_nuevo nuevo_env_id envid2env sched_agregar_env obtener_cola
    agregar_en encolar liberar
ciclo = (_, _, refl, refl)

Ciclos-agregadas_example :
    (agregadas ciclo.1.mlfq_scheduler ≡ agregadas planificador + 1)
    × (quitadas ciclo.1.mlfq_scheduler ≡ quitadas planificador)
Ciclos-agregadas_example =
    Ciclos-agregadas (Ciclos.otro 4096 3 ciclo.0 Ciclos.ninguno sistema-LibreValida ciclo.2 ciclo.3)

env_alloc-Creado_example : Creado sistema 4096 3 ciclo.0
env_alloc-Creado_example = env_alloc-Creado sistema 4096 sistema-LibreValida ciclo.2

-- Slot 1 waits for a message.
abbrev en_espera : Kernel
en_espera =
    let e = entorno 4097 Status.env_not_runnable (pos 1) in
    record sistema { envs = update entornos 1 (record e { env_ipc_recving = true }) }

sys_ipc_try_send-Recibido_example :
    (r : Kernel) × (sys_ipc_try_send en_espera 4097 42 0xeec00000 0 ≡ some (pos 0, r))
    × Recibido en_espera 0 1 42 r
sys_ipc_try_send-Recibido_example =
    sys_ipc_try_send-Recibido en_espera 4097 42 0xeec00000 0 (omega arith) refl refl refl
      (omega arith) refl (omega arith)

sched_yield-Promovido_example :
    (r : Kernel) × (sched_yield Politica.sched_priorities sistema ≡ prioridad_mlfq r)
    × Promovido (contado sistema) r
    × (r.mlfq_scheduler.ejecuciones_totales ≡ 0)
sched_yield-Promovido_example = sched_yield-Promovido sistema sistema-Caben (omega arith)

abbrev sistema_fresco : Kernel
sistema_fresco =
    let s = planificador in record sistema { mlfq_scheduler = record s { ejecuciones_totales = 7 } }

sistema_fresco-Caben : Caben sistema_fresco.mlfq_scheduler
sistema_fresco-Caben = record {
  a_valida = sistema-Caben.a_valida;
  b_valida = sistema-Caben.b_valida;
  c_valida = sistema-Caben.c_valida;
  d_valida = sistema-Caben.d_valida;
  total = omega arith;
}

sistema_propio : (c : ℕ) → sistema.curenv ≡ some c → envx (entornos c).env_id ≡ c
sistema_propio c e = let h : 0 ≡ c = ground arith in rw (← h) refl

sistema_dirs : (i : ℕ) → (entornos i).env_pgdir ≡ some 9
sistema_dirs i = ground arith

sistema-Espera : Espera 2 sistema
sistema-Espera = record {
  es_ranura = omega arith;
  ejecutable = refl;
  propio = sistema_propio;
  directorios = λ i h e. (9, sistema_dirs i);
}

-- The state in which slot 1 enters user mode.
corrida :
    (r : Kernel) × (env_run (contar sistema 1) 1 ≡ Control.context_switch r)
    × Corre (contar sistema 1) 1 9 r
corrida = env_run-Corre (contar sistema 1) 1 9 refl

-- The kernel is entered again from slot 1.
abbrev otra_vez : Kernel
otra_vez = record sistema { curenv = some 1 }

otra_vez-Espera : Espera 2 otra_vez
otra_vez-Espera = record {
  es_ranura = omega arith;
  ejecutable = refl;
  propio = λ c e. let h : 1 ≡ c = ground arith in rw (← h) refl;
  directorios = λ i h e. (9, sistema_dirs i);
}

un_turno : Pasado 2 1 sistema
un_turno =
    let (r, e, c) = corrida in
    Pasado.turno r otra_vez
      (round_robin_turno sistema 0 (omega arith) refl (λ m h. ground arith) ∙ e)
      (λ h. let u : some 1 ≡ some 2 = sym c.actual ∙ h in absurd (cc)) (sym c.actual)
      otra_vez-Espera Pasado.ninguno

round_robin-Pasado_example :
    ((r : Kernel) × (round_robin sistema ≡ Control.context_switch r))
    × (1 ≤ distancia sistema 2)
    × (distancia sistema 2 < 1024)
round_robin-Pasado_example = round_robin-Pasado 2 1 sistema sistema-Espera un_turno

-- Every address is mapped to page 9, with the bits PTE_P, PTE_W and PTE_U.
abbrev memoria_usuario : Memory
memoria_usuario = record memoria { phys = λ _ _. 0x9007 }

-- Slot 0 has an upcall, and its stack pointer is on the exception page.
abbrev con_upcall : Kernel
con_upcall = record sistema {
  mem = memoria_usuario;
  envs = λ i.
      let e = entornos i in
      let tf = zero_trapframe in
      record e {
        env_pgfault_upcall = 0x800020;
        env_tf = record tf { tf_cs = 27; tf_esp = 0xeebfff00 };
      };
}

-- A machine that keeps the words of the exception page by their address, on page 63.
abbrev con_palabra : ℕ → ℕ → Memory → Memory
con_palabra a w m = record m { phys = update m.phys 63 (update (m.phys 63) a w) }

abbrev con_palabras : ℕ → List ℕ → Memory → Memory
con_palabras a [] m = m
con_palabras a (w ∷ ws) m = con_palabras (a + 4) ws (con_palabra a w m)

abbrev maquina : Maquina
maquina = record {
  rcr2 = 0x1000;
  cons_getc = pos 0;
  escribir = λ cr3 a ws m. some (con_palabras a ws m);
}

abbrev lectura : Lectura
lectura cr3 a m = m.phys 63 a

abbrev fallo_de_pagina : Trampa
fallo_de_pagina = record {
  trapno = 14;
  err = 6;
  tf = let tf = zero_trapframe in record tf { tf_cs = 27; tf_esp = 0xeebfff00 };
}
