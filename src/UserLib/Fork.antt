-- ===== src/UserLib/Fork.antt =====
-- scheduler/lib/fork.c and scheduler/lib/pgfault.c.
use Prim.Native.Nat.{bit_and, bit_or}
use features_operating_syste.Prelude.{
  ℕ, zero, suc, ◌+◌, ◌*◌, ◌/◌, Bool, not, ◌||◌, ◌==◌, if◌then◌else◌, ℤ, pos, ltb_ℤ, eqb_ℤ,
}
use features_operating_syste.Kernel.Dispatch.{como_palabra}
use features_operating_syste.Kernel.Pages.{utop, rounddown}
use features_operating_syste.UserLib.Calls.{Usuario}

-- What an environment reads: its page directory and its page table entries by page, the entry point of
-- its upcalls, and whether it has a handler.
pub record Vista : Type 0 where
  pub uvpd : ℕ → ℕ
  pub uvpt : ℕ → ℕ
  pub env_pgfault_upcall : ℕ
  pub pgfault_upcall : ℕ
  pub con_handler : Bool

-- PTE_COW, PTE_PCD | PTE_PWT, PFTEMP, UTEMP, and UXSTACKTOP - PGSIZE
abbrev pub pte_cow : ℕ
pte_cow = 0x800

abbrev pub pte_io : ℕ
pte_io = 0x18

abbrev pub pftemp : ℕ
pftemp = 0x7ff000

abbrev pub utemp : ℕ
utemp = 0x400000

abbrev pub exstk : ℕ
exstk = 0xeebff000

-- `!(w & PTE_P) || !(w & PTE_U)`
abbrev pub sin_usuario : ℕ → Bool
sin_usuario w = (bit_and w 1 == 0) || (bit_and w 4 == 0)

-- `if (r < 0) panic(…)`
abbrev pub o_panic : {A : Type 0} → Usuario A → ℤ → Usuario A
o_panic k r = if ltb_ℤ r (pos 0) then Usuario.panic else k

-- The handler for a fault at `addr` with the error `err`. (`!` gives 0 or 1.) FEC_WR is 2.
unfoldable pub pgfault : {A : Type 0} → Vista → ℕ → ℕ → Usuario A → Usuario A
pgfault v addr err k =
    let fault_pte = v.uvpt (addr / 4096) in
    let no_cow = if bit_and fault_pte pte_cow == 0 then 1 else 0 in
    if not (bit_and (bit_and err 2) no_cow == 0)
    then Usuario.panic
    else Usuario.sys_page_alloc 0 pftemp 7 (
        o_panic (
          Usuario.memmove pftemp (rounddown addr) 4096 (
            Usuario.sys_page_map 0 pftemp 0 (rounddown addr) 7
              (o_panic (Usuario.sys_page_unmap 0 pftemp (o_panic k))))))

-- The permissions that `duppage` begins with.
abbrev pub permisos : ℕ → ℕ
permisos pte = if bit_and pte pte_io == 0 then 5 else 29

-- `(pte & PTE_W) || (pte & PTE_COW)`
abbrev pub escribible : ℕ → Bool
escribible pte = not (bit_and pte 2 == 0) || not (bit_and pte pte_cow == 0)

unfoldable pub duppage : {A : Type 0} → Vista → ℕ → ℕ → Usuario A → Usuario A
duppage v envid pn k =
    let addr = pn * 4096 in
    let pte = v.uvpt pn in
    let perm = permisos pte in
    if sin_usuario pte
    then Usuario.panic
    else if escribible pte
    then Usuario.sys_page_map 0 addr envid addr (bit_or perm pte_cow)
        (o_panic (Usuario.sys_page_map 0 addr 0 addr (bit_or perm pte_cow) (o_panic k)))
    else Usuario.sys_page_map 0 addr envid addr perm (o_panic k)

-- PTE_SYSCALL is 0xe07.
unfoldable pub dup_or_share : {A : Type 0} → Vista → ℕ → ℕ → ℕ → Usuario A → Usuario A
dup_or_share v envid pnum perm k =
    let addr = pnum * 4096 in
    let pte = v.uvpt pnum in
    let filtrado = bit_and (bit_and perm (bit_and pte 2)) 0xe07 in
    let con_io = if bit_and pte pte_io == 0 then filtrado else bit_or filtrado pte_io in
    if bit_and pte 1 == 0
    then k
    else if (bit_and pte 2 == 0) || not (bit_and pte pte_io == 0)
    then Usuario.sys_page_map 0 addr envid addr con_io (o_panic k)
    else Usuario.sys_page_alloc envid addr con_io (
        o_panic (
          Usuario.sys_page_map envid addr 0 utemp con_io (
            o_panic
              (Usuario.memmove utemp addr 4096 (Usuario.sys_page_unmap 0 utemp (o_panic k))))))

-- The loop of `fork_v0` at page `pnum`, with `n` pages left.
unfoldable pub fork_v0_desde : {A : Type 0} → Vista → ℕ → ℕ → ℕ → Usuario A → Usuario A
unfolding dup_or_share
fork_v0_desde v envid pnum zero k = k
fork_v0_desde v envid pnum (suc n) k =
    let resto = fork_v0_desde v envid (pnum + 1) n k in
    if sin_usuario (v.uvpd (pnum / 1024)) then resto else dup_or_share v envid pnum 7 resto

-- What follows `sys_exofork`: a failure, the child, and the parent.
abbrev pub tras_exofork : (ℕ → Usuario ℤ) → ℤ → Usuario ℤ
tras_exofork padre envid =
    if ltb_ℤ envid (pos 0)
    then Usuario.panic
    else if eqb_ℤ envid (pos 0)
    then Usuario.sys_getenvid (λ id. Usuario.devuelve (pos 0))
    else padre (como_palabra envid)

-- ENV_RUNNABLE is 2.
unfoldable pub fork_v0 : Vista → Usuario ℤ
unfolding fork_v0_desde
fork_v0 v = Usuario.sys_exofork (
    tras_exofork λ envid.
      fork_v0_desde v envid 0 (utop / 4096)
        (Usuario.sys_env_set_status envid 2 (o_panic (Usuario.devuelve (pos envid)))))

-- What `set_pgfault_handler` calls, and then what follows; a failure is passed over.
unfoldable pub set_pgfault_handler : {A : Type 0} → Vista → Usuario A → Usuario A
set_pgfault_handler v k =
    if v.con_handler
    then k
    else Usuario.sys_page_alloc 0 exstk 7 λ r.
      if ltb_ℤ r (pos 0) then k else Usuario.sys_env_set_pgfault_upcall 0 v.pgfault_upcall λ r'. k

-- `continue` in the loop of `fork`.
abbrev pub saltada : Vista → ℕ → Bool
saltada v pnum =
    (pnum == exstk / 4096) || sin_usuario (v.uvpd (pnum / 1024)) || sin_usuario (v.uvpt pnum)

unfoldable pub fork_desde : {A : Type 0} → Vista → ℕ → ℕ → ℕ → Usuario A → Usuario A
unfolding duppage
fork_desde v envid pnum zero k = k
fork_desde v envid pnum (suc n) k =
    let resto = fork_desde v envid (pnum + 1) n k in
    if saltada v pnum then resto else duppage v envid pnum resto

-- `fork` behind its loop.
abbrev pub terminar : Vista → ℕ → Usuario ℤ
terminar v envid = Usuario.sys_page_alloc envid exstk 7 (
    o_panic (
      Usuario.sys_env_set_pgfault_upcall envid v.env_pgfault_upcall
        (o_panic (Usuario.sys_env_set_status envid 2 (o_panic (Usuario.devuelve (pos envid)))))))

unfoldable pub fork : Vista → Usuario ℤ
unfolding set_pgfault_handler fork_desde
fork v = set_pgfault_handler v (
    Usuario.sys_exofork
      (tras_exofork λ envid. fork_desde v envid 0 (utop / 4096) (terminar v envid)))
