-- ===== src/UserLib/Calls.antt =====
-- The system calls that a user environment makes through the stubs of scheduler/lib/syscall.c, as a tree:
-- every call has what follows for each answer. Addresses and identifiers are words.
use features_operating_syste.Prelude.{ℕ, ℤ}

-- An environment that may return a value of `A`.
pub data Usuario (A : Type 0) : Type 0 where
  devuelve : A → Usuario A
  sys_exofork : (ℤ → Usuario A) → Usuario A
  sys_getenvid : (ℤ → Usuario A) → Usuario A
  -- environment, address and permissions
  sys_page_alloc : ℕ → ℕ → ℕ → (ℤ → Usuario A) → Usuario A
  -- source, its address, destination, its address, and permissions
  sys_page_map : ℕ → ℕ → ℕ → ℕ → ℕ → (ℤ → Usuario A) → Usuario A
  sys_page_unmap : ℕ → ℕ → (ℤ → Usuario A) → Usuario A
  sys_env_set_pgfault_upcall : ℕ → ℕ → (ℤ → Usuario A) → Usuario A
  sys_env_set_status : ℕ → ℕ → (ℤ → Usuario A) → Usuario A
  -- destination, source and length
  memmove : ℕ → ℕ → ℕ → Usuario A → Usuario A
  panic : Usuario A
