-- ===== src/Kernel/Lock/Holder.antt =====
-- The processor that holds the lock of scheduler/kern/spinlock.c, and what its steps keep.
use features_operating_syste.Prelude.{
  ℕ, ◌≡◌, refl, ◌∙◌, Bool, true, false, Option, none, some, ◌⊎◌, ◌==◌, if◌then◌else◌, update, arith,
  Bool-cases,
}
use features_operating_syste.Kernel.Lock.{Lugar, Maquina, es_de, ir}

-- The places from the successful `xchg` of `spin_lock` to the `xchg` of `spin_unlock`.
abbrev pub con_cerrojo : Lugar → Bool
con_cerrojo Lugar.fuera = false
con_cerrojo Lugar.lee_locked = false
con_cerrojo Lugar.lee_cpu = false
con_cerrojo Lugar.gira = false
con_cerrojo Lugar.anota = true
con_cerrojo Lugar.dentro = true
con_cerrojo Lugar.suelta_locked = true
con_cerrojo Lugar.suelta_cpu = true
con_cerrojo Lugar.borra = true
con_cerrojo Lugar.abre = true
con_cerrojo Lugar.panico = false

abbrev pub en_panico : Lugar → Bool
en_panico Lugar.fuera = false
en_panico Lugar.lee_locked = false
en_panico Lugar.lee_cpu = false
en_panico Lugar.gira = false
en_panico Lugar.anota = false
en_panico Lugar.dentro = false
en_panico Lugar.suelta_locked = false
en_panico Lugar.suelta_cpu = false
en_panico Lugar.borra = false
en_panico Lugar.abre = false
en_panico Lugar.panico = true

-- The places at which `cpu` names the processor.
abbrev pub firmado : Lugar → Bool
firmado Lugar.fuera = false
firmado Lugar.lee_locked = false
firmado Lugar.lee_cpu = false
firmado Lugar.gira = false
firmado Lugar.anota = false
firmado Lugar.dentro = true
firmado Lugar.suelta_locked = true
firmado Lugar.suelta_cpu = true
firmado Lugar.borra = true
firmado Lugar.abre = false
firmado Lugar.panico = false

abbrev pub tomado : Option ℕ → ℕ
tomado none = 0
tomado (some j) = 1

abbrev pub firma : Option ℕ → (ℕ → Lugar) → Option ℕ
firma none lugar = none
firma (some j) lugar = if firmado (lugar j) then some j else none

-- Processor `o`, or none, holds the lock.
pub record Sana (m : Maquina) (o : Option ℕ) : Type 0 where
  pub unico : (i : ℕ) → con_cerrojo (m.lugar i) ≡ es_de o i
  pub sin_panico : (i : ℕ) → en_panico (m.lugar i) ≡ false
  pub cerrado : m.cerrojo.locked ≡ tomado o
  pub duenno : m.cerrojo.cpu ≡ firma o m.lugar

-- The holder after the step.
abbrev pub duenno_tras : ℕ → Lugar → Option ℕ → Option ℕ
duenno_tras i Lugar.fuera o = o
duenno_tras i Lugar.lee_locked o = o
duenno_tras i Lugar.lee_cpu o = o
duenno_tras i Lugar.gira none = some i
duenno_tras i Lugar.gira (some j) = some j
duenno_tras i Lugar.anota o = o
duenno_tras i Lugar.dentro o = o
duenno_tras i Lugar.suelta_locked o = o
duenno_tras i Lugar.suelta_cpu o = o
duenno_tras i Lugar.borra o = o
duenno_tras i Lugar.abre o = none
duenno_tras i Lugar.panico o = o

-- A processor that moves between places of one kind.
pub mover-Sana :
    (i : ℕ) (q : Lugar) (m : Maquina) (o : Option ℕ)
    → con_cerrojo q ≡ con_cerrojo (m.lugar i)
    → firmado q ≡ firmado (m.lugar i)
    → en_panico q ≡ false
    → Sana m o
    → Sana (ir i q m) o
mover-Sana i q m none c f e v = record {
  unico = λ j. ground (arith, c, v.unico i, v.unico j);
  sin_panico = λ j. ground (arith, e, v.sin_panico j);
  cerrado = v.cerrado;
  duenno = v.duenno;
}
mover-Sana i q m (some k) c f e v = record {
  unico = λ j. ground (arith, c, v.unico i, v.unico j);
  sin_panico = λ j. ground (arith, e, v.sin_panico j);
  cerrado = v.cerrado;
  duenno = v.duenno ∙ misma_firma (Bool-cases (k == i));
}
  where
    misma_firma :
        ((k == i) ≡ true) ⊎ ((k == i) ≡ false)
        → firma (some k) m.lugar ≡ firma (some k) (update m.lugar i q)
    misma_firma d = ground (arith, f, d)

-- A processor that stands where the lock is held is the holder.
pub duenno-es :
    (i : ℕ) (m : Maquina) (o : Option ℕ) → con_cerrojo (m.lugar i) ≡ true → Sana m o → o ≡ some i
duenno-es i m none c v = ground (arith, c, v.unico i)
duenno-es i m (some k) c v = ground (arith, c, v.unico i)

-- `cpu` does not name a processor that does not hold the lock.
pub ajeno :
    (i : ℕ) (m : Maquina) (o : Option ℕ)
    → con_cerrojo (m.lugar i) ≡ false
    → Sana m o
    → es_de m.cerrojo.cpu i ≡ false
ajeno i m none c v = rw v.duenno refl
ajeno i m (some k) c v = ground (arith, c, v.duenno, v.unico i)

pub tomar-Sana :
    (i : ℕ) (m : Maquina)
    → Sana m none
    → Sana
        (ir i Lugar.anota (record m { cerrojo = record { locked = 1; cpu = m.cerrojo.cpu } }))
        (some i)
tomar-Sana i m v = record {
  unico = λ j. ground (arith, v.unico j);
  sin_panico = λ j. ground (arith, v.sin_panico j);
  cerrado = refl;
  duenno = ground (arith, v.duenno);
}

pub anotar-Sana :
    (i : ℕ) (m : Maquina)
    → m.lugar i ≡ Lugar.anota
    → Sana m (some i)
    → Sana
        (ir i Lugar.dentro
          (record m { cerrojo = record { locked = m.cerrojo.locked; cpu = some i } }))
        (some i)
anotar-Sana i m e v = record {
  unico = λ j. ground (arith, e, v.unico i, v.unico j);
  sin_panico = λ j. ground (arith, v.sin_panico j);
  cerrado = v.cerrado;
  duenno = ground arith;
}

pub borrar-Sana :
    (i : ℕ) (m : Maquina)
    → m.lugar i ≡ Lugar.borra
    → Sana m (some i)
    → Sana
        (ir i Lugar.abre (record m { cerrojo = record { locked = m.cerrojo.locked; cpu = none } }))
        (some i)
borrar-Sana i m e v = record {
  unico = λ j. ground (arith, e, v.unico i, v.unico j);
  sin_panico = λ j. ground (arith, v.sin_panico j);
  cerrado = v.cerrado;
  duenno = ground arith;
}

pub abrir-Sana :
    (i : ℕ) (m : Maquina)
    → m.lugar i ≡ Lugar.abre
    → Sana m (some i)
    → Sana
        (ir i Lugar.fuera (record m { cerrojo = record { locked = 0; cpu = m.cerrojo.cpu } }))
        none
abrir-Sana i m e v = record {
  unico = λ j. ground (arith, e, v.unico i, v.unico j);
  sin_panico = λ j. ground (arith, v.sin_panico j);
  cerrado = refl;
  duenno = v.duenno ∙ rw e refl;
}

-- The failed `xchg` writes what was there.
pub esperar-Sana :
    (i k : ℕ) (m : Maquina)
    → m.lugar i ≡ Lugar.gira
    → Sana m (some k)
    → Sana
        (ir i Lugar.gira (record m { cerrojo = record { locked = 1; cpu = m.cerrojo.cpu } }))
        (some k)
esperar-Sana i k m e v =
    let m' = record m { cerrojo = record { locked = 1; cpu = m.cerrojo.cpu } } in
    let v' : Sana m' (some k) = record {
      unico = λ j. v.unico j;
      sin_panico = λ j. v.sin_panico j;
      cerrado = refl;
      duenno = v.duenno;
    } in
    mover-Sana i Lugar.gira m' (some k) (rw e refl) (rw e refl) refl v'

pub cerrado_de : (o : Option ℕ) (n : ℕ) {i : ℕ} → o ≡ some i → n ≡ tomado o → (n == 0) ≡ false
cerrado_de o n h k = ground (arith, h, k)

pub suyo :
    (i : ℕ) (m : Maquina)
    → m.lugar i ≡ Lugar.suelta_cpu
    → Sana m (some i)
    → es_de m.cerrojo.cpu i ≡ true
suyo i m e v =
    let firma_suya : firma (some i) m.lugar ≡ some i = rw e refl in
    let igual : (i == i) ≡ true = ground arith in rw (v.duenno, firma_suya, igual) refl
