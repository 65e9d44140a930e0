-- ===== src/Kernel/Queue/Window.antt =====
-- The identifiers that a ring of sched.c holds, oldest first, and what a write to one cell does to
-- them.
use features_operating_syste.Prelude.{
  ℕ, zero, suc, ◌+◌, ◌-◌, ◌%◌, ◌≤◌, ◌<◌, ◌≡◌, refl, ap, List, [], ◌∷◌, ◌++◌, ◌==◌, if◌then◌else◌,
  update, length, count, Bool-cases, inl, inr, arith,
}
use features_operating_syste.Kernel.Types.{Cola}

-- The `n` entries from counter `i` on.
abbrev pub ventana : (ℕ → ℕ) → ℕ → ℕ → List ℕ
ventana f i zero = []
ventana f i (suc n) = f (i % 1024) ∷ ventana f (i + 1) n

abbrev pub contenido : Cola → List ℕ
contenido q = ventana q.envs q.primero (q.ultimo - q.primero)

abbrev pub ocupacion : Cola → ℕ
ocupacion q = q.ultimo - q.primero

-- The counters of a queue that has not overflowed.
pub record IsCola (q : Cola) : Type 0 where
  pub ordenada : q.primero ≤ q.ultimo
  pub acotada : q.ultimo ≤ q.primero + 1024

pub length-ventana : (f : ℕ → ℕ) (i n : ℕ) → length (ventana f i n) ≡ n
length-ventana f i zero = refl
length-ventana f i (suc n) = ap suc (length-ventana f (i + 1) n)

pub ventana-snoc :
    (f : ℕ → ℕ) (i n : ℕ) → ventana f i (suc n) ≡ ventana f i n ++ (f ((i + n) % 1024) ∷ [])
ventana-snoc f i zero = ap (λ (k : ℕ). f (k % 1024) ∷ []) (omega arith)
ventana-snoc f i (suc n) =
    ground (arith, ventana-snoc f (i + 1) n, ap (λ (k : ℕ). f (k % 1024)) (same i n))
  where
    same : (i n : ℕ) → i + 1 + n ≡ i + suc n
    same i n = omega arith

-- A write outside the entries changes none of them.
pub ventana-update_out :
    (f : ℕ → ℕ) (v i n u : ℕ)
    → i + n ≤ u
    → u < i + 1024
    → ventana (update f (u % 1024) v) i n ≡ ventana f i n
ventana-update_out f v i zero u h l = refl
ventana-update_out f v i (suc n) u h l = ground (arith, ventana-update_out f v (i + 1) n u)

-- One occurrence of `x`, as a number.
abbrev pub uno : ℕ → ℕ → ℕ
uno y x = if x == y then 1 else 0

-- A write to one of the entries replaces it.
pub count-ventana-update :
    (f : ℕ → ℕ) (v y i n u : ℕ)
    → i ≤ u
    → u < i + n
    → n ≤ 1024
    → count y (ventana (update f (u % 1024) v) i n) + uno y (f (u % 1024))
      ≡ count y (ventana f i n) + uno y v
count-ventana-update f v y i zero u h l b = absurd (omega arith)
count-ventana-update f v y i (suc n) u h l b = elim (Bool-cases (i == u)) [
  | inl e ↦ ground (arith, ventana-update_out_low f v (i + 1) n u)
  | inr d ↦ ground (arith, count-ventana-update f v y (i + 1) n u)
]
  where
    ventana-update_out_low :
        (f : ℕ → ℕ) (v i n u : ℕ)
        → u < i
        → i + n ≤ u + 1024
        → ventana (update f (u % 1024) v) i n ≡ ventana f i n
    ventana-update_out_low f v i zero u h l = refl
    ventana-update_out_low f v i (suc n) u h l =
        ground (arith, ventana-update_out_low f v (i + 1) n u)

pub length-contenido : (q : Cola) → length (contenido q) ≡ ocupacion q
length-contenido q = length-ventana q.envs q.primero (q.ultimo - q.primero)
