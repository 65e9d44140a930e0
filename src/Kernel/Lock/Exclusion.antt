-- ===== src/Kernel/Lock/Exclusion.antt =====
-- The lock of scheduler/kern/spinlock.c is held by one processor at a time.
use features_operating_syste.Prelude.{
  ℕ, ◌≡◌, refl, subst, true, false, Option, none, some, List, [], ◌∷◌, ◌==◌, arith, Bool-cases, inl,
  inr,
}
use features_operating_syste.Kernel.Lock.{
  Lugar, Maquina, es_de, paso_en, paso, spin_initlock, pasos,
}
use features_operating_syste.Kernel.Lock.Holder.{
  Sana, abrir-Sana, ajeno, anotar-Sana, borrar-Sana, cerrado_de, con_cerrojo, duenno-es,
  duenno_tras, en_panico, esperar-Sana, mover-Sana, suyo, tomado, tomar-Sana,
}

paso_en-Sana :
    (i : ℕ) (p : Lugar) (m : Maquina) (o : Option ℕ)
    → m.lugar i ≡ p
    → Sana m o
    → Sana (paso_en i p m) (duenno_tras i p o)
unfolding paso_en
paso_en-Sana i Lugar.fuera m o e v =
    mover-Sana i Lugar.lee_locked m o (rw e refl) (rw e refl) refl v
paso_en-Sana i Lugar.lee_locked m o e v = elim (Bool-cases (m.cerrojo.locked == 0)) [
  | inl b ↦ rw b (mover-Sana i Lugar.gira m o (rw e refl) (rw e refl) refl v)
  | inr b ↦ rw b (mover-Sana i Lugar.lee_cpu m o (rw e refl) (rw e refl) refl v)
]
paso_en-Sana i Lugar.lee_cpu m o e v =
    let otro : es_de m.cerrojo.cpu i ≡ false = ajeno i m o (rw e refl) v in
    rw otro (mover-Sana i Lugar.gira m o (rw e refl) (rw e refl) refl v)
paso_en-Sana i Lugar.gira m none e v =
    let abierto : (m.cerrojo.locked == 0) ≡ true = ground (arith, v.cerrado) in
    rw abierto (tomar-Sana i m v)
paso_en-Sana i Lugar.gira m (some k) e v =
    let cerrado : (m.cerrojo.locked == 0) ≡ false = ground (arith, v.cerrado) in
    rw cerrado (esperar-Sana i k m e v)
paso_en-Sana i Lugar.anota m o e v =
    let propio = duenno-es i m o (rw e refl) v in
    rw propio (anotar-Sana i m e (subst (Sana m) propio v))
paso_en-Sana i Lugar.dentro m o e v =
    mover-Sana i Lugar.suelta_locked m o (rw e refl) (rw e refl) refl v
paso_en-Sana i Lugar.suelta_locked m o e v =
    let propio = duenno-es i m o (rw e refl) v in
    let cerrado : (m.cerrojo.locked == 0) ≡ false =
      cerrado_de o (m.cerrojo.locked) propio v.cerrado in
    rw cerrado (mover-Sana i Lugar.suelta_cpu m o (rw e refl) (rw e refl) refl v)
paso_en-Sana i Lugar.suelta_cpu m o e v =
    let propio = duenno-es i m o (rw e refl) v in
    let suyo : es_de m.cerrojo.cpu i ≡ true = suyo i m e (subst (Sana m) propio v) in
    rw suyo (mover-Sana i Lugar.borra m o (rw e refl) (rw e refl) refl v)
paso_en-Sana i Lugar.borra m o e v =
    let propio = duenno-es i m o (rw e refl) v in
    rw propio (borrar-Sana i m e (subst (Sana m) propio v))
paso_en-Sana i Lugar.abre m o e v =
    abrir-Sana i m e (subst (Sana m) (duenno-es i m o (rw e refl) v) v)
paso_en-Sana i Lugar.panico m o e v = v

-- Some processor, or none, holds the lock.
abbrev Bien : Maquina → Type 0
Bien m = (o : Option ℕ) × Sana m o

pasos-Bien : (orden : List ℕ) (m : Maquina) → Bien m → Bien (pasos orden m)
unfolding pasos
pasos-Bien [] m v = v
pasos-Bien (i ∷ orden) m (o, v) =
    pasos-Bien orden (paso i m) (duenno_tras i (m.lugar i) o, paso_en-Sana i (m.lugar i) m o refl v)

-- In whatever order the processors, however many there are, make their steps from the start on, where each
-- takes and releases the lock in turn: there is one processor at most, and it is the only one, that stands
-- between the `xchg` of `spin_lock` that succeeds and that of `spin_unlock`; `locked` is 1 if there is
-- one and 0 if not; and no processor ever panics on a check of `holding`.
pub pasos_exclusion :
    (orden : List ℕ)
    → (o : Option ℕ) × ((i : ℕ) → con_cerrojo ((pasos orden spin_initlock).lugar i) ≡ es_de o i)
      × ((pasos orden spin_initlock).cerrojo.locked ≡ tomado o)
      × ((i : ℕ) → en_panico ((pasos orden spin_initlock).lugar i) ≡ false)
pasos_exclusion orden =
    let (o, v) =
      pasos-Bien orden spin_initlock (
        none,
        record { unico = λ i. refl; sin_panico = λ i. refl; cerrado = refl; duenno = refl },
      ) in
    (o, v.unico, v.cerrado, v.sin_panico)
