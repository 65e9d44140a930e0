-- ===== src/UserLib/Sharing/Result.antt =====
-- What `fork` of scheduler/lib/fork.c has done when the child can run, and what it returns.
use features_operating_syste.Prelude.{
  ℕ, zero, suc, Option, none, some, ◌%◌, ◌^◌, ◌<◌, ◌+◌, ◌/◌, ◌≡◌, refl, ◌∙◌, false, [], pos, ltb_ℤ,
  eqb_ℤ, arith, Bool-cases, inl, inr,
}
use features_operating_syste.Kernel.Pages.{utop}
use features_operating_syste.UserLib.Calls.{Usuario}
use features_operating_syste.UserLib.Fork.{
  Vista, sin_usuario, escribible, duppage, tras_exofork, set_pgfault_handler, saltada, fork_desde,
  terminar, fork,
}
use features_operating_syste.UserLib.Sharing.{
  AlActivar, Completo, presente, tras_exofork-AlActivar, set_pgfault_handler-AlActivar,
}

-- What is returned when every call succeeds and `hijo` is the child's identifier.
unfoldable pub resultado : {A : Type 0} → ℕ → Usuario A → Option A
resultado hijo (Usuario.devuelve a) = some a
resultado hijo (Usuario.sys_exofork k) = resultado hijo (k (pos hijo))
resultado hijo (Usuario.sys_getenvid k) = resultado hijo (k (pos hijo))
resultado hijo (Usuario.sys_page_alloc id va perm k) = resultado hijo (k (pos 0))
resultado hijo (Usuario.sys_page_map id va id' va' perm k) = resultado hijo (k (pos 0))
resultado hijo (Usuario.sys_page_unmap id va k) = resultado hijo (k (pos 0))
resultado hijo (Usuario.sys_env_set_pgfault_upcall id f k) = resultado hijo (k (pos 0))
resultado hijo (Usuario.sys_env_set_status id s k) = resultado hijo (k (pos 0))
resultado hijo (Usuario.memmove a b n k) = resultado hijo k
resultado hijo Usuario.panic = none

duppage-resultado :
    {A : Type 0} (hijo : ℕ) (v : Vista) (envid pn : ℕ) (k : Usuario A)
    → sin_usuario (v.uvpt pn) ≡ false
    → resultado hijo (duppage v envid pn k) ≡ resultado hijo k
unfolding duppage resultado
duppage-resultado hijo v envid pn k u = elim (Bool-cases (escribible (v.uvpt pn))) [
  | inl e ↦ rw (u, e) refl
  | inr e ↦ rw (u, e) refl
]

fork_desde-resultado :
    {A : Type 0} (hijo : ℕ) (v : Vista) (envid pn n : ℕ) (k : Usuario A)
    → resultado hijo (fork_desde v envid pn n k) ≡ resultado hijo k
unfolding fork_desde
fork_desde-resultado hijo v envid pn zero k = refl
fork_desde-resultado hijo v envid pn (suc n) k =
    let resto = fork_desde v envid (pn + 1) n k in
    elim (Bool-cases (saltada v pn)) [
      | inl e ↦ rw e (fork_desde-resultado hijo v envid (pn + 1) n k)
      | inr e ↦ rw e (
          duppage-resultado hijo v envid pn resto (presente v pn e)
          ∙ fork_desde-resultado hijo v envid (pn + 1) n k)
    ]

tras_exofork-resultado :
    (v : Vista) (hijo : ℕ)
    → 0 < hijo
    → hijo < 2 ^ 32
    → resultado hijo
        (tras_exofork (λ envid. fork_desde v envid 0 (utop / 4096) (terminar v envid)) (pos hijo))
      ≡ some (pos hijo)
unfolding resultado
tras_exofork-resultado v hijo lo hi =
    let bien : ltb_ℤ (pos hijo) (pos 0) ≡ false = ground arith in
    let padre : eqb_ℤ (pos hijo) (pos 0) ≡ false = ground arith in
    let mismo : hijo % 2 ^ 32 ≡ hijo = omega arith in
    rw (bien, padre, mismo) (fork_desde-resultado hijo v hijo 0 (utop / 4096) (terminar v hijo))

set_pgfault_handler-resultado :
    {A : Type 0} (hijo : ℕ) (v : Vista) (k : Usuario A)
    → resultado hijo (set_pgfault_handler v k) ≡ resultado hijo k
unfolding set_pgfault_handler resultado
set_pgfault_handler-resultado hijo v k = elim (Bool-cases v.con_handler) [
  | inl e ↦ rw e refl
  | inr e ↦ rw e refl
]

-- For every answer of the kernel to every call, `fork` makes the child runnable only when all of this
-- has succeeded: every page below UTOP that the directory and the table give to user mode, but for the
-- exception stack, is shared with the child, those with PTE_W or PTE_COW with copying on a write in both
-- environments, the others for reading, and no page with the permission to write; the child has an exception stack of its own; and it has the parent's entry
-- point for faults. Where no call fails, `fork` returns the child's identifier `hijo`, a word that is not 0.
pub fork-Completo :
    (v : Vista) (hijo : ℕ)
    → 0 < hijo
    → hijo < 2 ^ 32
    → AlActivar (Completo v) [] (fork v) × (resultado hijo (fork v) ≡ some (pos hijo))
unfolding fork AlActivar
fork-Completo v hijo lo hi = (
  set_pgfault_handler-AlActivar (Completo v) v _ (λ l r. tras_exofork-AlActivar v l r),
  fork_resultado v hijo lo hi,
)
  where
    fork_resultado :
        (v : Vista) (hijo : ℕ)
        → 0 < hijo
        → hijo < 2 ^ 32
        → resultado hijo (fork v) ≡ some (pos hijo)
    fork_resultado v hijo lo hi =
        unfold fork resultado in
        set_pgfault_handler-resultado hijo v _ ∙ tras_exofork-resultado v hijo lo hi
