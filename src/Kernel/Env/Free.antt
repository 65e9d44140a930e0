-- ===== src/Kernel/Env/Free.antt =====
-- `env_free`, `env_destroy`, and what becomes of the identifiers of freed environments.
use features_operating_syste.Prelude.{
  ℕ, ◌≡◌, ◌≢◌, refl, ap, none, some, ◌⊎◌, update, ==_refl, ne→==, Option-cases, inl, inr,
}
use features_operating_syste.Kernel.Types.{Status, Env, Kernel, Memory}
use features_operating_syste.Kernel.Env.{env_free, liberar, soltar_memoria}

-- The state that a successful `env_free` leaves.
pub record Liberado (k : Kernel) (i : ℕ) (r : Kernel) : Type 0 where
  pub libre : (r.envs i).env_status ≡ Status.env_free
  pub enlace : (r.envs i).env_link ≡ k.env_free_list
  pub cabeza : r.env_free_list ≡ some i
  pub sin_directorio : (r.envs i).env_pgdir ≡ none
  pub mismo_id : (r.envs i).env_id ≡ (k.envs i).env_id
  pub otros : (j : ℕ) → j ≢ i → r.envs j ≡ k.envs j
  pub actual : r.curenv ≡ k.curenv
  pub colas : r.mlfq_scheduler ≡ k.mlfq_scheduler

liberar-Liberado : (k : Kernel) (i : ℕ) (m : Memory) → Liberado k i (liberar k i m)
unfolding liberar
liberar-Liberado k i m = record {
  libre = ap (λ e. e.env_status) (propia k.envs i _);
  enlace = ap (λ e. e.env_link) (propia k.envs i _);
  cabeza = refl;
  sin_directorio = ap (λ e. e.env_pgdir) (propia k.envs i _);
  mismo_id = ap (λ e. e.env_id) (propia k.envs i _);
  otros = λ j ne. rw (ne→== j i ne);
  actual = refl;
  colas = refl;
}
  where
    propia : (f : ℕ → Env) (i : ℕ) (e : Env) → update f i e i ≡ e
    propia f i e = rw (==_refl i)

-- `env_free` fails, or frees the slot for some memory.
env_free-liberar :
    (k : Kernel) (i : ℕ)
    → (env_free k i ≡ none) ⊎ ((m : Memory) × (env_free k i ≡ some (liberar k i m)))
unfolding env_free
env_free-liberar k i = elim (Option-cases (k.envs i).env_pgdir) [
  | inl nada ↦ inl (rw (nada, env_free))
  | inr (d, e) ↦ elim (Option-cases (soltar_memoria d k.mem)) [
    | inl mal ↦ inl (rw (e, env_free) (rw mal))
    | inr ((u, m), bien) ↦ inr (m, rw (e, env_free) (rw bien))
  ]
]

-- An `env_free` that does not panic puts the slot at the front of the free list and changes no other slot. It leaves every
-- scheduler queue as it is: the identifier of the freed environment stays in its queue.
pub env_free-Liberado : (k : Kernel) (i : ℕ) {r : Kernel} → env_free k i ≡ some r → Liberado k i r
env_free-Liberado k i {r} h = elim (env_free-liberar k i) [
  | inl mal ↦ absurd (cc)
  | inr (m, bien) ↦
      let igual : r ≡ liberar k i m = cc (h, bien) in rw igual (liberar-Liberado k i m)
]
