-- ===== src/Kernel/Trap/Stack.antt =====
-- The exception stack that `page_fault_handler` of scheduler/kern/trap.c fills.
use features_operating_syste.Prelude.{ℕ, ◌+◌, ◌-◌, ◌*◌, length, ◌≤◌, ◌≡◌, ◌⊎◌, some, List, [], ◌∷◌}
use features_operating_syste.Kernel.Types.{Memory, Kernel}
use features_operating_syste.Kernel.Run.{con_env}
use features_operating_syste.Kernel.Trap.{Maquina, Trampa, exstk, exstk_top, destino}

-- How words are read in a loaded address space: what stands at an address in a memory.
abbrev pub Lectura : Type 0
Lectura = ℕ → ℕ → Memory → ℕ

-- The words stand one behind the other from the address on.
abbrev pub EnMemoria : Lectura → ℕ → ℕ → List ℕ → Memory → Type 0
EnMemoria leer cr3 a [] m = Unit {0}
EnMemoria leer cr3 a (w ∷ ws) m = (leer cr3 a m ≡ w) × EnMemoria leer cr3 (a + 4) ws m

-- What a fault that is passed to user mode leaves: the environment runs its upcall, its stack pointer
-- is at the frame, which stands inside the exception page and holds the faulting address, the error,
-- the eight registers and the instruction pointer, flags and stack pointer of the fault; if it was on
-- that page already, the frame stands below what was in use, with one word 0 between.
pub record Subido (q : Maquina) (leer : Lectura) (t : Trampa) (k : Kernel) (c : ℕ) (r : Kernel)
    : Type 0 where
  pub marco :
      let tf = (k.envs c).env_tf in
      EnMemoria leer k.cr3
        (r.envs c).env_tf.tf_esp
        (q.rcr2
          ∷ t.err
          ∷ tf.other_regs 0
          ∷ tf.other_regs 1
          ∷ tf.other_regs 2
          ∷ tf.other_regs 3
          ∷ tf.other_regs 4
          ∷ tf.other_regs 5
          ∷ tf.other_regs 6
          ∷ tf.reg_eax
          ∷ tf.tf_eip
          ∷ tf.tf_eflags
          ∷ tf.tf_esp
          ∷ [])
        r.mem
  pub palabra :
      exstk ≤ (k.envs c).env_tf.tf_esp
      → (k.envs c).env_tf.tf_esp ≤ exstk_top
      → leer k.cr3 ((k.envs c).env_tf.tf_esp - 4) r.mem ≡ 0
  pub actual : r.curenv ≡ some c
  pub upcall : (r.envs c).env_tf.tf_eip ≡ (k.envs c).env_pgfault_upcall
  pub en_pagina : exstk ≤ (r.envs c).env_tf.tf_esp
  pub cabe : (r.envs c).env_tf.tf_esp + 52 ≤ exstk_top
  pub debajo :
      exstk ≤ (k.envs c).env_tf.tf_esp
      → (k.envs c).env_tf.tf_esp ≤ exstk_top
      → (r.envs c).env_tf.tf_esp + 56 ≡ (k.envs c).env_tf.tf_esp

-- The writes that lie inside the exception page succeed; what was written is read there, and all
-- words beside it as before.
pub record Escribe (q : Maquina) (leer : Lectura) (cr3 : ℕ) : Type 0 where
  pub escribe :
      (a : ℕ) (ws : List ℕ) (m : Memory)
      → exstk ≤ a
      → a + 4 * length ws ≤ exstk_top + 1
      → (m' : Memory) × (q.escribir cr3 a ws m ≡ some m')
  pub lee :
      (a : ℕ) (ws : List ℕ) (m m' : Memory)
      → q.escribir cr3 a ws m ≡ some m'
      → EnMemoria leer cr3 a ws m'
  pub queda :
      (a : ℕ) (ws : List ℕ) (m m' : Memory) (b : ℕ)
      → q.escribir cr3 a ws m ≡ some m'
      → (b + 4 ≤ a) ⊎ (a + 4 * length ws ≤ b)
      → leer cr3 b m' ≡ leer cr3 b m

-- The frame has room: a stack pointer on the exception page has 56 bytes below it there.
abbrev Holgada : ℕ → Type 0
Holgada esp = exstk ≤ esp → exstk + 56 ≤ esp

-- The state from which the upcall is entered.
abbrev subido : Trampa → Kernel → ℕ → Memory → Kernel
subido t k c m =
    let e = k.envs c in
    let tf = e.env_tf in
    con_env (record k { mem = m }) c
      (record e {
        env_tf = record tf { tf_esp = destino tf.tf_esp; tf_eip = e.env_pgfault_upcall };
      })
