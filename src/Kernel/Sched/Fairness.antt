-- ===== src/Kernel/Sched/Fairness.antt =====
-- The turns that `round_robin` of scheduler/kern/sched.c gives in a row.
use features_operating_syste.Prelude.{
  ℕ, zero, suc, ◌+◌, ◌-◌, ◌%◌, ◌≤◌, ◌<◌, ◌≡◌, ◌≢◌, sym, ◌∙◌, ap, some, Bool, true, false, arith,
  Bool-cases, Option-cases, inl, inr,
}
use features_operating_syste.Kernel.Types.{envx, is_runnable, Kernel, Control}
use features_operating_syste.Kernel.Run.{contar}
use features_operating_syste.Kernel.Run.Switch.{env_run-Corre}
use features_operating_syste.Kernel.Sched.{index_inicial, round_robin}
use features_operating_syste.Kernel.Sched.RoundRobin.{ranura, round_robin_turno}

-- How many slots the search of `round_robin` passes before slot `j`.
abbrev pub distancia : Kernel → ℕ → ℕ
distancia k j = (j + 1024 - index_inicial k) % 1024

-- Slot `j` waits for a turn: it is runnable, the identifier of the current environment names its
-- slot, and what is runnable has a page directory.
pub record Espera (j : ℕ) (k : Kernel) : Type 0 where
  pub es_ranura : j < 1024
  pub ejecutable : is_runnable (k.envs j).env_status ≡ true
  pub propio : (c : ℕ) → k.curenv ≡ some c → envx (k.envs c).env_id ≡ c
  pub directorios :
      (i : ℕ)
      → i < 1024
      → is_runnable (k.envs i).env_status ≡ true
      → (pgdir : ℕ) × ((k.envs i).env_pgdir ≡ some pgdir)

-- The first place where a test holds.
primera :
    (f : ℕ → Bool) (t : ℕ)
    → f t ≡ true
    → (m : ℕ) × (m ≤ t) × (f m ≡ true) × ((i : ℕ) → i < m → f i ≡ false)
primera f zero h = (0, omega arith, h, λ i l. absurd (omega (arith, l)))
primera f (suc t) h = elim (Bool-cases (f 0)) [
  | inl ya ↦ (0, omega arith, ya, λ i l. absurd (omega (arith, l)))
  | inr no_ya ↦
      let (m, le, hay, antes) = primera (λ i. f (suc i)) t h in
      (suc m, omega (arith, le), hay, todos m no_ya antes)
]
  where
    todos :
        (m : ℕ)
        → f 0 ≡ false
        → ((i : ℕ) → i < m → f (suc i) ≡ false)
        → (i : ℕ) → i < suc m
        → f i ≡ false
    todos m no_ya antes zero l = no_ya
    todos m no_ya antes (suc i) l = antes i (omega (arith, l))

index_inicial_cota : (k : Kernel) → index_inicial k ≤ 1024
index_inicial_cota k = elim (Option-cases k.curenv) [
  | inl e ↦ rw e (omega arith)
  | inr (c, e) ↦ rw e (omega arith)
]

distancia_da :
    (inicial j : ℕ)
    → inicial ≤ 1024
    → j < 1024
    → (inicial + ((j + 1024 - inicial) % 1024)) % 1024 ≡ j
distancia_da inicial j h l = omega (arith, h, l)

distancia_baja :
    (inicial j t : ℕ)
    → inicial ≤ 1024
    → j < 1024
    → t ≤ (j + 1024 - inicial) % 1024
    → (inicial + t) % 1024 ≢ j
    → (j + 1024 - ((inicial + t) % 1024 + 1)) % 1024 < (j + 1024 - inicial) % 1024
distancia_baja inicial j t h l cerca otro = omega (arith, h, l, cerca, otro)

-- The turn that is given while slot `j` waits.
record Turno (j : ℕ) (k : Kernel) : Type 0 where
  pub lugar : ℕ
  pub cerca : lugar ≤ distancia k j
  pub r : Kernel
  pub corre : round_robin k ≡ Control.context_switch r
  pub actual : r.curenv ≡ some (ranura k lugar)

dar-Turno : (j : ℕ) (k : Kernel) → Espera j k → Turno j k
dar-Turno j k v =
    let llega : ranura k (distancia k j) ≡ j =
      distancia_da (index_inicial k) j (index_inicial_cota k) v.es_ranura in
    let f : ℕ → Bool = λ i. is_runnable (k.envs (ranura k i)).env_status in
    let (m, cerca, hay, antes) =
      primera f (distancia k j)
        (ap (λ s. is_runnable (k.envs s).env_status) llega ∙ v.ejecutable) in
    let s = ranura k m in
    let (pgdir, dir) = v.directorios s (omega arith) hay in
    let (r, entra, corre) = env_run-Corre (contar k s) s pgdir (mismo_directorio k s pgdir dir) in
    record {
      lugar = m;
      cerca = cerca;
      r = r;
      corre = round_robin_turno k m (omega (arith, cerca)) hay antes ∙ entra;
      actual = corre.actual;
    }
  where
    mismo_directorio :
        (k : Kernel) (s pgdir : ℕ)
        → (k.envs s).env_pgdir ≡ some pgdir
        → ((contar k s).envs s).env_pgdir ≡ some pgdir
    mismo_directorio k s pgdir e = ground arith

-- `n` turns in a row that all go to others: after each, the kernel is entered again from the
-- environment that got the turn, and slot `j` still waits.
pub data Pasado (j : ℕ) : ℕ → Kernel → Type 0 where
  ninguno : {k : Kernel} → Pasado j 0 k
  turno :
      {n : ℕ} {k : Kernel} (r k' : Kernel)
      → round_robin k ≡ Control.context_switch r
      → r.curenv ≢ some j
      → k'.curenv ≡ r.curenv
      → Espera j k'
      → Pasado j n k'
      → Pasado j (suc n) k

-- The control that enters user mode says in which state.
misma_vuelta : (r r' : Kernel) → Control.context_switch r ≡ Control.context_switch r' → r ≡ r'
misma_vuelta r r' e = cc

index_inicial-actual :
    (k : Kernel) (s j : ℕ) → Espera j k → s < 1024 → k.curenv ≡ some s → index_inicial k ≡ s + 1
index_inicial-actual k s j v l e = rw e (omega (arith, v.propio s e))

distancia-turno :
    (j : ℕ) (k r k' : Kernel)
    → Espera j k
    → round_robin k ≡ Control.context_switch r
    → r.curenv ≢ some j
    → k'.curenv ≡ r.curenv
    → Espera j k'
    → distancia k' j < distancia k j
distancia-turno j k r k' v entra otro vuelve v' =
    let t = dar-Turno j k v in
    let misma : t.r ≡ r = misma_vuelta t.r r (sym t.corre ∙ entra) in
    let s = ranura k t.lugar in
    let en_s : k'.curenv ≡ some s = vuelve ∙ ap (λ x. x.curenv) (sym misma) ∙ t.actual in
    let no_j : s ≢ j = λ e. otro (sym vuelve ∙ en_s ∙ ap some e) in
    let inicio : index_inicial k' ≡ s + 1 = index_inicial-actual k' s j v' (omega arith) en_s in
    rw inicio
      (distancia_baja (index_inicial k) j t.lugar (index_inicial_cota k) v.es_ranura t.cerca no_j)

-- While an environment waits, `round_robin` enters user mode in some environment, and it passes the
-- waiting one over at most as many times in a row as there are slots between the current one and it,
-- which is less than 1,024. (Waiting: its slot is runnable at every turn, the identifier of the
-- current environment names its slot, what is runnable has a page directory, and the kernel is entered again from the environment
-- that got the turn.)
pub round_robin-Pasado :
    (j n : ℕ) (k : Kernel)
    → Espera j k
    → Pasado j n k
    → ((r : Kernel) × (round_robin k ≡ Control.context_switch r))
      × (n ≤ distancia k j)
      × (distancia k j < 1024)
round_robin-Pasado j n k v p =
    let t = dar-Turno j k v in ((t.r, t.corre), cuenta j n k v p, omega arith)
  where
    cuenta : (j n : ℕ) (k : Kernel) → Espera j k → Pasado j n k → n ≤ distancia k j
    cuenta j n k v Pasado.ninguno = omega arith
    cuenta j (suc n) k v (Pasado.turno r k' entra otro vuelve v' p) =
        let menos = distancia-turno j k r k' v entra otro vuelve v' in
        omega (arith, menos, cuenta j n k' v' p)
