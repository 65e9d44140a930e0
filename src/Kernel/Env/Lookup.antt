-- ===== src/Kernel/Env/Lookup.antt =====
-- `envid2env`, and the identifiers that `env_alloc` makes.
use features_operating_syste.Prelude.{
  ℕ, ◌^◌, ◌<◌, ◌≡◌, ◌≢◌, ◌⊎◌, inl, inr, Bool, true, false, none, some, Option, ℤ, pos, arith,
  Option-cases,
}
use features_operating_syste.Kernel.Types.{envx, is_free, Kernel, e_bad_env}
use features_operating_syste.Kernel.Env.{envid2env, nuevo_env_id, es_curenv}

-- What the caller may do to slot `i`: it is the caller, or a child of the caller.
abbrev pub Permitido : Kernel → ℕ → Type 0
Permitido k i =
    (k.curenv ≡ some i)
    ⊎ ((c : ℕ) × (k.curenv ≡ some c) × ((k.envs i).env_parent_id ≡ (k.envs c).env_id))

es_curenv→eq : (o : Option ℕ) (i : ℕ) → es_curenv o i ≡ true → o ≡ some i
es_curenv→eq none i h = cc
es_curenv→eq (some c) i h = ground arith

-- A slot that `envid2env` gives for an identifier other than 0 is the one that the identifier names:
-- it is in use, it has exactly this identifier, and either the permission is not tested, or the
-- caller is the environment itself or its parent.
pub envid2env_sound :
    (k : Kernel) (envid : ℕ) (checkperm : Bool) {r : ℤ} {i : ℕ}
    → envid ≢ 0
    → envid2env k envid checkperm ≡ some (r, some i)
    → (r ≡ pos 0)
      × (i ≡ envx envid)
      × ((k.envs i).env_id ≡ envid)
      × (is_free (k.envs i).env_status ≡ false)
      × ((checkperm ≡ false) ⊎ Permitido k i)
unfolding envid2env
envid2env_sound k envid checkperm {r} {i} ne h = elim (Option-cases k.curenv) [
  | inl nadie ↦ ground arith
  | inr (c, e) ↦ ground arith
]

-- An identifier other than 0 that its slot does not carry is refused with -E_BAD_ENV.
pub envid2env_stale :
    (k : Kernel) (envid : ℕ) (checkperm : Bool)
    → envid ≢ 0
    → (k.envs (envx envid)).env_id ≢ envid
    → envid2env k envid checkperm ≡ some (e_bad_env, none)
unfolding envid2env
envid2env_stale k envid checkperm ne stale = ground arith

-- For a slot below 1024 with an identifier below 2^31, the new identifier is positive as an `int`, names the slot, and is not the
-- identifier that the slot had before.
pub nuevo_env_id_lem :
    (env_id i : ℕ)
    → env_id < 2 ^ 31
    → i < 1024
    → let n = nuevo_env_id env_id i in (envx n ≡ i) × (0 < n) × (n < 2 ^ 31) × (n ≢ env_id)
unfolding nuevo_env_id
nuevo_env_id_lem env_id i h l = ground arith
