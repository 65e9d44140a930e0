-- ===== src/Kernel/Env/Stale.antt =====
-- Environments that come and go: what `env_alloc` and `env_free` together leave in the queues.
use features_operating_syste.Prelude.{
  ℕ, zero, suc, ◌+◌, ◌≡◌, ◌≢◌, sym, ◌∙◌, none, some, Option, ℤ, pos, arith, Bool,
}
use features_operating_syste.Kernel.Types.{
  envx, MlfqScheduler, Puntero, en_a, en_b, en_c, en_d, Kernel, e_bad_env,
}
use features_operating_syste.Kernel.Queue.{encolar, escribir, leer}
use features_operating_syste.Kernel.Env.{envid2env, env_alloc, env_free}
use features_operating_syste.Kernel.Env.Alloc.{Alojado, Creado, LibreValida, env_alloc-Alojado}
use features_operating_syste.Kernel.Env.Free.{env_free-Liberado}
use features_operating_syste.Kernel.Env.Lookup.{envid2env_stale, nuevo_env_id_lem}

Alojado-Creado :
    {o : Option (ℤ × Option ℕ × Kernel)} (k : Kernel) (parent_id i : ℕ) (r : Kernel)
    → o ≡ some (pos 0, some i, r)
    → Alojado k parent_id o
    → Creado k parent_id i r
Alojado-Creado k parent_id i r e (Alojado.creado j s es c) =
    let mismo : s ≡ r = cc (e, es) in let igual : j ≡ i = cc (e, es) in rw (← mismo, ← igual) c
Alojado-Creado k parent_id i r e (Alojado.sin_memoria m es) = absurd (cc (e, es))
Alojado-Creado k parent_id i r e (Alojado.sin_libres l es) = absurd (cc (e, es))
Alojado-Creado k parent_id i r e (Alojado.fallo es) = absurd (cc (e, es))

-- A successful `env_alloc` takes the first free slot and makes it a runnable environment with a new
-- identifier and no executions; the queue of its priority gains this identifier at the end, and
-- nothing else of the slots or queues changes.
pub env_alloc-Creado :
    (k : Kernel) (parent_id : ℕ) {i : ℕ} {r : Kernel}
    → LibreValida k
    → env_alloc k parent_id ≡ some (pos 0, some i, r)
    → Creado k parent_id i r
env_alloc-Creado k parent_id {i} {r} v e =
    Alojado-Creado k parent_id i r e (env_alloc-Alojado k parent_id v)

-- Where the slot to be taken is valid and carries an identifier other than 0 of its own, `envid2env`
-- refuses this identifier with -E_BAD_ENV, with and without the check of permissions, once
-- `env_alloc` has taken the slot.
pub env_alloc-envid2env :
    (k : Kernel) (parent_id : ℕ) (checkperm : Bool) {i : ℕ} {r : Kernel}
    → LibreValida k
    → env_alloc k parent_id ≡ some (pos 0, some i, r)
    → (k.envs i).env_id ≢ 0
    → envx (k.envs i).env_id ≡ i
    → envid2env r (k.envs i).env_id checkperm ≡ some (e_bad_env, none)
env_alloc-envid2env k parent_id checkperm {i} {r} v e ne propio =
    let c = env_alloc-Creado k parent_id v e in
    envid2env_stale r (k.envs i).env_id checkperm ne (
      rw propio (λ igual.
        (nuevo_env_id_lem (k.envs i).env_id i (v i c.estaba_libre).1 (v i c.estaba_libre).0).3
          (sym c.identificador ∙ igual)))

-- The entries ever added to the four queues, and the entries taken out, since their last reset.
abbrev pub agregadas : MlfqScheduler → ℕ
agregadas s = s.cola_a.ultimo + s.cola_b.ultimo + s.cola_c.ultimo + s.cola_d.ultimo

abbrev pub quitadas : MlfqScheduler → ℕ
quitadas s = s.cola_a.primero + s.cola_b.primero + s.cola_c.primero + s.cola_d.primero

-- `n` times an environment is created and freed again.
pub data Ciclos (k : Kernel) : ℕ → Kernel → Type 0 where
  ninguno : Ciclos k zero k
  otro :
      {n : ℕ} {r t : Kernel} (parent_id i : ℕ) (s : Kernel)
      → Ciclos k n r
      → LibreValida r
      → env_alloc r parent_id ≡ some (pos 0, some i, s)
      → env_free s i ≡ some t
      → Ciclos k (suc n) t

encolar-cuentas :
    (s : MlfqScheduler) (p : Puntero) (id : ℕ)
    → let r = escribir s p (encolar id (leer s p)) in
      (agregadas r ≡ suc (agregadas s)) × (quitadas r ≡ quitadas s)
unfolding encolar
encolar-cuentas s en_a id = omega arith
encolar-cuentas s en_b id = omega arith
encolar-cuentas s en_c id = omega arith
encolar-cuentas s en_d id = omega arith

-- Freed environments never leave the queues: after `n` rounds of a successful `env_alloc` and an
-- `env_free` of the same slot, the queues have had `n` more entries added and none taken out.
pub Ciclos-agregadas :
    {k r : Kernel} {n : ℕ}
    → Ciclos k n r
    → (agregadas r.mlfq_scheduler ≡ agregadas k.mlfq_scheduler + n)
      × (quitadas r.mlfq_scheduler ≡ quitadas k.mlfq_scheduler)
Ciclos-agregadas ninguno = omega arith
Ciclos-agregadas (otro {r = r} parent_id i s antes v creado libre) =
    let c = env_alloc-Creado r parent_id v creado in
    let l = env_free-Liberado s i libre in
    rw (l.colas, c.colas)
      (omega (arith, Ciclos-agregadas antes, encolar-cuentas r.mlfq_scheduler c.puntero _))
