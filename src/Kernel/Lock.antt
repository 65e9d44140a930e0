-- ===== src/Kernel/Lock.antt =====
-- The spin lock of scheduler/kern/spinlock.c, with its checks for debugging, and processors that take and
-- release it. Every access to a field of the lock is a step of its own.
pub mod Holder
pub mod Exclusion
use features_operating_syste.Prelude.{
  ℕ, Bool, true, false, Option, none, some, List, [], ◌∷◌, ◌==◌, if◌then◌else◌, update,
}

-- `struct spinlock`, without its name and the addresses of the callers; `cpu` is NULL, or a processor.
pub record Cerrojo : Type 0 where
  pub locked : ℕ
  pub cpu : Option ℕ

-- Where a processor stands: outside; in `spin_lock`, before the two reads of `holding`, in the loop, and
-- before it sets `cpu`; inside; in `spin_unlock`, before the two reads, before it clears `cpu`, and before
-- it opens the lock; or in a panic.
pub data Lugar : Type 0 where
  fuera lee_locked lee_cpu gira anota dentro suelta_locked suelta_cpu borra abre panico : Lugar

pub record Maquina : Type 0 where
  pub cerrojo : Cerrojo
  pub lugar : ℕ → Lugar

-- `lock->cpu == thiscpu`
abbrev pub es_de : Option ℕ → ℕ → Bool
es_de none i = false
es_de (some j) i = j == i

abbrev pub ir : ℕ → Lugar → Maquina → Maquina
ir i p m = record m { lugar = update m.lugar i p }

-- The next step of processor `i`, which stands at the place that is given. Outside it calls `spin_lock`, and
-- inside `spin_unlock`.
unfoldable pub paso_en : ℕ → Lugar → Maquina → Maquina
paso_en i Lugar.fuera m = ir i Lugar.lee_locked m
paso_en i Lugar.lee_locked m = ir i (if m.cerrojo.locked == 0 then Lugar.gira else Lugar.lee_cpu) m
paso_en i Lugar.lee_cpu m = ir i (if es_de m.cerrojo.cpu i then Lugar.panico else Lugar.gira) m
paso_en i Lugar.gira m =
    ir i (if m.cerrojo.locked == 0 then Lugar.anota else Lugar.gira)
      (record m { cerrojo = record { locked = 1; cpu = m.cerrojo.cpu } })
paso_en i Lugar.anota m =
    ir i Lugar.dentro (record m { cerrojo = record { locked = m.cerrojo.locked; cpu = some i } })
paso_en i Lugar.dentro m = ir i Lugar.suelta_locked m
paso_en i Lugar.suelta_locked m =
    ir i (if m.cerrojo.locked == 0 then Lugar.panico else Lugar.suelta_cpu) m
paso_en i Lugar.suelta_cpu m = ir i (if es_de m.cerrojo.cpu i then Lugar.borra else Lugar.panico) m
paso_en i Lugar.borra m =
    ir i Lugar.abre (record m { cerrojo = record { locked = m.cerrojo.locked; cpu = none } })
paso_en i Lugar.abre m =
    ir i Lugar.fuera (record m { cerrojo = record { locked = 0; cpu = m.cerrojo.cpu } })
paso_en i Lugar.panico m = m

abbrev pub paso : ℕ → Maquina → Maquina
paso i m = paso_en i (m.lugar i) m

-- `__spin_initlock`, and every processor outside.
abbrev pub spin_initlock : Maquina
spin_initlock = record { cerrojo = record { locked = 0; cpu = none }; lugar = λ i. Lugar.fuera }

-- The processors make their steps in this order.
unfoldable pub pasos : List ℕ → Maquina → Maquina
pasos [] m = m
pasos (i ∷ orden) m = pasos orden (paso i m)
