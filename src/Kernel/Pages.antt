-- ===== src/Kernel/Pages.antt =====
-- The initialisation and the checks of user memory in scheduler/kern/pmap.c, and the system calls on
-- pages of scheduler/kern/syscall.c.
use Prim.Native.Nat.{bit_and, bit_or}
use features_operating_syste.Prelude.{
  ℕ, zero, suc, ◌+◌, ◌-◌, ◌/◌, ◌%◌, ◌^◌, Bool, true, false, not, ◌&&◌, ◌||◌, Option, none, some,
  ltb, leb, ◌==◌, if◌then◌else◌, ℤ, pos, negsuc, ltb_ℤ,
}
use features_operating_syste.Kernel.Types.{Memory, Kernel, e_inval, e_no_mem}
use features_operating_syste.Kernel.Memory.{
  M, ◌>>=◌, ◌>>◌, pure, con_pagina, pa2page, page_alloc, leer_palabra, pgdir_walk, page_insert,
  page_remove,
}
use features_operating_syste.Kernel.Syscall.{Retorno, con_envid}

-- `continue` in the loop of `page_init`; `fin` is PGNUM(PADDR(boot_alloc(0))).
abbrev pub reservada : ℕ → ℕ → Bool
reservada fin i = (i == 0) || (i == 7) || (leb 160 i && ltb i 256) || (leb 256 i && ltb i fin)

-- The loop of `page_init` from page `i`, with `n` pages left.
unfoldable pub page_init_desde : ℕ → ℕ → ℕ → Memory → Memory
page_init_desde fin i zero s = s
page_init_desde fin i (suc n) s =
    let p = s.pages i in
    let vacia = con_pagina s i (record p { pp_link = none }) in
    let s1 = con_pagina s i (record p { pp_link = s.page_free_list; pp_ref = 0 }) in
    let libre = record s1 { page_free_list = some i } in
    page_init_desde fin (i + 1) n (if reservada fin i then vacia else libre)

unfoldable pub page_init : ℕ → Memory → Memory
unfolding page_init_desde
page_init fin s = page_init_desde fin 0 s.npages s

-- UTOP
abbrev pub utop : ℕ
utop = 0xeec00000

-- ROUNDDOWN and ROUNDUP to PGSIZE, on 32 bits
abbrev pub rounddown : ℕ → ℕ
rounddown a = a - a % 4096

abbrev pub roundup : ℕ → ℕ
roundup a = rounddown ((a + 4095) % 2 ^ 32)

abbrev pub e_fault : ℤ
e_fault = negsuc 5

-- The loop of `user_mem_check` from `va`, with `n` pages left: the result with the address that is
-- stored in `user_mem_check_addr`.
unfoldable pub user_mem_check_desde : ℕ → ℕ → ℕ → ℕ → ℕ → M (ℤ × Option ℕ)
user_mem_check_desde pgdir va_lo perm va zero = pure (pos 0, none)
user_mem_check_desde pgdir va_lo perm va (suc n) =
    let mal : M (ℤ × Option ℕ) = pure (e_fault, some (if ltb va_lo va then va else va_lo)) in
    let resto = user_mem_check_desde pgdir va_lo perm (va + 4096) n in
    pgdir_walk pgdir va false >>= λ pte. elim pte [
      | none ↦ mal
      | some (t, i) ↦ leer_palabra t i >>= λ w.
          if bit_and w (bit_or perm 1) == bit_or perm 1 then resto else mal
    ]

unfoldable pub user_mem_check : ℕ → ℕ → ℕ → ℕ → M (ℤ × Option ℕ)
unfolding user_mem_check_desde
user_mem_check pgdir va len perm =
    let va_hi = roundup ((va + len) % 2 ^ 32) in
    if ltb utop va_hi
    then pure (e_fault, some va)
    else user_mem_check_desde pgdir va perm (rounddown va) ((va_hi - rounddown va) / 4096)

-- `perm & ~PTE_SYSCALL`
abbrev pub fuera_de_syscall : ℕ → ℕ
fuera_de_syscall perm = bit_and perm 0xfffff1f8

-- `pte` is the word that the pointer leads to, or `none` for NULL.
unfoldable pub check_perm : ℕ → Option ℕ → ℤ
check_perm perm pte =
    if not (fuera_de_syscall perm == 0)
    then e_inval
    else if (bit_and perm 1 == 0) || (bit_and perm 4 == 0)
    then e_inval
    else elim pte [
      | none ↦ pos 0
      | some w ↦
          if not (w == 0) && (bit_and w 1 == 0)
          then e_inval
          else if not (bit_and perm 2 == 0) && (bit_and w 2 == 0)
          then e_inval
          else pos 0
    ]

unfoldable pub env_page_alloc : ℕ → ℕ → ℕ → M ℤ
unfolding check_perm
env_page_alloc pgdir va perm =
    let err = check_perm perm none in
    if ltb_ℤ err (pos 0)
    then pure err
    else page_alloc true >>= λ page. elim page [
      | none ↦ pure e_no_mem
      | some p ↦ page_insert pgdir p va perm
    ]

-- `page_lookup` with a place for the entry: the page and the entry's word. With no page nothing is
-- stored there.
unfoldable pub page_lookup_pte : ℕ → ℕ → M (Option (ℕ × ℕ))
page_lookup_pte pgdir va = pgdir_walk pgdir va false >>= λ pte. elim pte [
  | none ↦ pure none
  | some (t, i) ↦ leer_palabra t i >>= λ w.
      if w == 0 then pure none else (pa2page w >>= λ p. pure (some (p, w)))
]

-- The test is `(perm & PTE_W) & ~(PTE_W & *srcpte)`.
unfoldable pub env_page_map : ℕ → ℕ → ℕ → ℕ → ℕ → M ℤ
unfolding page_lookup_pte
env_page_map src srcva dst dstva perm = page_lookup_pte src srcva >>= λ page. elim page [
  | none ↦ pure e_inval
  | some (p, w) ↦
      if not (bit_and (bit_and perm 2) (2 ^ 32 - 1 - bit_and 2 w) == 0)
      then pure e_inval
      else page_insert dst p dstva perm
]

-- A function on memory that is given the directory of slot `i`; a NULL directory faults.
abbrev pub en_directorio : Kernel → ℕ → (ℕ → M ℤ) → Retorno
en_directorio k i f = elim (k.envs i).env_pgdir [
  | none ↦ none
  | some d ↦ elim (f d k.mem) [ none ↦ none | some (r, m) ↦ some (r, record k { mem = m }) ]
]

-- `va >= UTOP || va % PGSIZE`
abbrev pub mala_va : ℕ → Bool
mala_va va = leb utop va || not (va % 4096 == 0)

unfoldable pub sys_page_alloc : Kernel → ℕ → ℕ → ℕ → Retorno
unfolding con_envid
sys_page_alloc k envid va perm =
    if mala_va va
    then some (e_inval, k)
    else con_envid k envid true (λ r. some (r, k))
        λ i. en_directorio k i λ d. env_page_alloc d va (bit_or perm 5)

unfoldable pub sys_page_map : Kernel → ℕ → ℕ → ℕ → ℕ → ℕ → Retorno
unfolding con_envid
sys_page_map k srcenvid srcva dstenvid dstva perm =
    if mala_va srcva || mala_va dstva
    then some (e_inval, k)
    else con_envid k srcenvid true (λ r. some (r, k))
        λ i.
          con_envid k dstenvid true (λ r. some (r, k))
            λ j. en_directorio k i λ src. λ s. elim (k.envs j).env_pgdir [
              | none ↦ none
              | some dst ↦ env_page_map src srcva dst dstva (bit_or 5 perm) s
            ]

unfoldable pub sys_page_unmap : Kernel → ℕ → ℕ → Retorno
unfolding con_envid
sys_page_unmap k envid va =
    if mala_va va
    then some (e_inval, k)
    else con_envid k envid true (λ r. some (r, k))
        λ i. en_directorio k i λ d. page_remove d va >> pure (pos 0)
