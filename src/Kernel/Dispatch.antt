-- ===== src/Kernel/Dispatch.antt =====
-- `syscall` of scheduler/kern/syscall.c, with the calls that check user memory, and
-- `user_mem_assert` of scheduler/kern/pmap.c.
use Prim.Native.Nat.{bit_or}
use features_operating_syste.Prelude.{
  ℕ, ◌-◌, ◌%◌, ◌^◌, true, none, some, ltb, ◌==◌, if◌then◌else◌, ℤ, pos, negsuc, ltb_ℤ,
}
use features_operating_syste.Kernel.Types.{Kernel, Control, and_then, e_inval}
use features_operating_syste.Kernel.Run.{con_env}
use features_operating_syste.Kernel.Sched.{Politica}
use features_operating_syste.Kernel.Env.{envid2env, env_destroy}
use features_operating_syste.Kernel.Syscall.{
  Retorno, Final, tras, sys_getenvid, sys_env_destroy, sys_yield, sys_exofork, sys_env_set_status,
  sys_env_obtener_prioridad, sys_env_asignar_prioridad,
}
use features_operating_syste.Kernel.Pages.{
  user_mem_check, sys_page_alloc, sys_page_map, sys_page_unmap,
}
use features_operating_syste.Kernel.Ipc.{sys_ipc_try_send, sys_ipc_recv}

-- It returns when the range may be used, and also when another environment was destroyed.
unfoldable pub user_mem_assert : Politica → Kernel → ℕ → ℕ → ℕ → ℕ → Control
unfolding user_mem_check
user_mem_assert politica k env va len perm = elim (k.envs env).env_pgdir [
  | none ↦ Control.fault
  | some pgdir ↦ elim (user_mem_check pgdir va len (bit_or perm 4) k.mem) [
    | none ↦ Control.fault
    | some ((r, _), m) ↦
        let k1 = record k { mem = m } in
        if ltb_ℤ r (pos 0) then env_destroy politica k1 env else Control.returned k1
  ]
]

-- The printing is left out. PTE_P | PTE_W | PTE_U is 7.
unfoldable pub sys_cputs : Politica → Kernel → ℕ → ℕ → Final
unfolding user_mem_assert
sys_cputs politica k s len = elim k.curenv [
  | none ↦ Final.no_vuelve Control.fault
  | some c ↦ tras (user_mem_assert politica k c s len 7)
]

-- PTE_P | PTE_U is 5.
unfoldable pub sys_env_set_pgfault_upcall : Politica → Kernel → ℕ → ℕ → Final
unfolding user_mem_assert
sys_env_set_pgfault_upcall politica k envid func = elim (envid2env k envid true) [
  | none ↦ Final.no_vuelve Control.fault
  | some (negsuc r, _) ↦ Final.devuelve (negsuc r) k
  | some (pos r, none) ↦ Final.no_vuelve Control.fault
  | some (pos r, some i) ↦ tras (
      and_then (user_mem_assert politica k i func 4096 5) λ k1.
        let e = k1.envs i in
        Control.returned (con_env k1 i (record e { env_pgfault_upcall = func })))
]

abbrev pub de_retorno : Retorno → Final
de_retorno none = Final.no_vuelve Control.fault
de_retorno (some (r, k)) = Final.devuelve r k

-- A word as an `int`, and back.
abbrev pub como_int : ℕ → ℤ
como_int n = if ltb n (2 ^ 31) then pos n else negsuc (2 ^ 32 - 1 - n)

abbrev pub como_palabra : ℤ → ℕ
como_palabra (pos n) = n % 2 ^ 32
como_palabra (negsuc n) = 2 ^ 32 - 1 - n % 2 ^ 32

-- The cases by number; `cgetc` is what `cons_getc` gives. A `sys_yield` that returned would go on in
-- the case behind it.
unfoldable pub syscall : Politica → ℤ → Kernel → ℕ → ℕ → ℕ → ℕ → ℕ → ℕ → Final
unfolding sys_cputs sys_env_set_pgfault_upcall
syscall politica cgetc k n a1 a2 a3 a4 a5 =
    if n == 0
    then sys_cputs politica k a1 a2
    else if n == 1
    then Final.devuelve cgetc k
    else if n == 2
    then (elim (sys_getenvid k) [
      | none ↦ Final.no_vuelve Control.fault
      | some id ↦ Final.devuelve (como_int id) k
    ])
    else if n == 3
    then sys_env_destroy politica k a1
    else if n == 4
    then de_retorno (sys_page_alloc k a1 a2 a3)
    else if n == 5
    then de_retorno (sys_page_map k a1 a2 a3 a4 a5)
    else if n == 6
    then de_retorno (sys_page_unmap k a1 a2)
    else if n == 7
    then de_retorno (sys_exofork k)
    else if n == 8
    then de_retorno (sys_env_set_status k a1 (como_int a2))
    else if n == 9
    then sys_env_set_pgfault_upcall politica k a1 a2
    else if n == 10
    then (elim (sys_yield politica k) [
      | Control.returned k1 ↦ de_retorno (sys_env_obtener_prioridad k1 a1)
      | c ↦ Final.no_vuelve c
    ])
    else if n == 11
    then de_retorno (sys_ipc_try_send k a1 a2 a3 a4)
    else if n == 12
    then sys_ipc_recv politica k a1
    else if n == 13
    then de_retorno (sys_env_obtener_prioridad k a1)
    else if n == 14
    then de_retorno (sys_env_asignar_prioridad k a1 (como_int a2))
    else Final.devuelve e_inval k
