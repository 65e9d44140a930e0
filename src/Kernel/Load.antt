-- ===== src/Kernel/Load.antt =====
-- The loader of scheduler/kern/env.c: `region_alloc`, `load_icode` and `env_create`.
use features_operating_syste.Prelude.{
  ℕ, zero, suc, ◌+◌, ◌-◌, ◌/◌, ◌%◌, ◌^◌, false, not, Option, none, some, List, [], ◌∷◌, ltb, ◌==◌,
  if◌then◌else◌, pos, ltb_ℤ, replicate,
}
use features_operating_syste.Kernel.Types.{Memory, Kernel}
use features_operating_syste.Kernel.Memory.{M, ◌>>=◌, pure, panic, page_alloc, page_insert}
use features_operating_syste.Kernel.Run.{con_env}
use features_operating_syste.Kernel.Env.{env_alloc}
use features_operating_syste.Kernel.Syscall.{es_cero}
use features_operating_syste.Kernel.Pages.{utop, rounddown, roundup}

-- A program header, with the `p_filesz` bytes of the binary at `p_offset`.
pub record Proghdr : Type 0 where
  pub p_type : ℕ
  pub p_va : ℕ
  pub p_memsz : ℕ
  pub contenido : List ℕ

pub record Elf : Type 0 where
  pub e_magic : ℕ
  pub e_entry : ℕ
  pub segmentos : List Proghdr

-- The write of bytes at an address, with the page directory that is loaded: `none` is a fault.
abbrev pub Escritura : Type 0
Escritura = ℕ → ℕ → List ℕ → Memory → Option Memory

-- The loop of `region_alloc` at `va`, with `n` pages left. PTE_U | PTE_W is 6.
unfoldable pub region_alloc_desde : ℕ → ℕ → ℕ → M (Unit {0})
region_alloc_desde pgdir va zero = pure tt
region_alloc_desde pgdir va (suc n) =
    let resto = region_alloc_desde pgdir (va + 4096) n in
    page_alloc false >>= λ p. elim p [
      | none ↦ panic
      | some pp ↦ page_insert pgdir pp va 6 >>= λ r. if es_cero r then resto else panic
    ]

unfoldable pub region_alloc : ℕ → ℕ → ℕ → M (Unit {0})
unfolding region_alloc_desde
region_alloc pgdir va len =
    let va_lo = rounddown va in
    let va_hi = roundup ((va + len) % 2 ^ 32) in
    if ltb utop va_hi then panic else region_alloc_desde pgdir va_lo ((va_hi - va_lo) / 4096)

-- ELF_MAGIC, ELF_PROG_LOAD, and USTACKTOP - PGSIZE
abbrev pub elf_magic : ℕ
elf_magic = 0x464c457f

abbrev pub elf_prog_load : ℕ
elf_prog_load = 1

abbrev pub pila_usuario : ℕ
pila_usuario = 0xeebfd000

-- A write, as a function on memory.
abbrev pub escribir_en : Escritura → ℕ → ℕ → List ℕ → M (Unit {0})
escribir_en escribir pgdir va bytes s = elim (escribir pgdir va bytes s) [
  | none ↦ none
  | some s' ↦ some (tt, s')
]

-- One round of the loop of `load_icode`.
unfoldable pub cargar_segmento : Escritura → ℕ → Proghdr → M (Unit {0})
unfolding region_alloc
cargar_segmento escribir pgdir ph =
    if not (ph.p_type == elf_prog_load)
    then pure tt
    else region_alloc pgdir ph.p_va ph.p_memsz >>= λ _.
        (escribir_en escribir pgdir ph.p_va (replicate ph.p_memsz 0) >>= λ _.
        escribir_en escribir pgdir ph.p_va ph.contenido)

unfoldable pub cargar_segmentos : Escritura → ℕ → List Proghdr → M (Unit {0})
unfolding cargar_segmento
cargar_segmentos escribir pgdir [] = pure tt
cargar_segmentos escribir pgdir (ph ∷ resto) =
    cargar_segmento escribir pgdir ph >>= λ _. cargar_segmentos escribir pgdir resto

-- In the end the kernel's page directory is loaded.
unfoldable pub load_icode : Escritura → Kernel → ℕ → Elf → Option Kernel
unfolding cargar_segmentos region_alloc
load_icode escribir k i elf =
    let e = k.envs i in
    let tf = e.env_tf in
    if not (elf.e_magic == elf_magic) then none else elim e.env_pgdir [
      | none ↦ none
      | some pgdir ↦
          let cargar = cargar_segmentos escribir pgdir elf.segmentos >>= λ _.
          region_alloc pgdir pila_usuario 4096 in
          elim (cargar k.mem) [
            | none ↦ none
            | some (_, m) ↦
                let k1 = record k { mem = m; cr3 = m.kern_pgdir } in
                some (con_env k1 i (record e { env_tf = record tf { tf_eip = elf.e_entry } }))
          ]
    ]

-- A failure of `env_alloc` panics, and a NULL environment would be read.
unfoldable pub env_create : Escritura → Kernel → Elf → Option Kernel
unfolding load_icode
env_create escribir k elf = elim (env_alloc k 0) [
  | none ↦ none
  | some (r, none, k1) ↦ none
  | some (r, some i, k1) ↦ if ltb_ℤ r (pos 0) then none else load_icode escribir k1 i elf
]
