-- ===== src/Shell/Parsing/Separators.antt =====
-- Texts without a byte, and how the functions of shell/utils.c cut at one.
use features_operating_syste.Prelude.{
  ℕ, ◌≡◌, refl, ap, false, none, some, List, [], ◌∷◌, ◌++◌, ◌==◌, length, arith, ==→eq, Bool-cases,
  inl, inr,
}
use features_operating_syste.Shell.Text.{sin_espacios, split_line, block_contains}
use features_operating_syste.Shell.Parsing.Words.{comun, Comunes, Palabra, Palabras, unir}

-- No byte is `c`.
abbrev pub Sin : ℕ → List ℕ → Type 0
Sin c [] = Unit {0}
Sin c (x ∷ s) = ((x == c) ≡ false) × Sin c s

pub Sin-append : (c : ℕ) (s t : List ℕ) → Sin c s → Sin c t → Sin c (s ++ t)
Sin-append c [] t v w = w
Sin-append c (x ∷ s) t (v, vs) w = (v, Sin-append c s t vs w)

pub Comunes-Sin : (c : ℕ) (w : List ℕ) → comun c ≡ false → Comunes w → Sin c w
Comunes-Sin c [] h v = tt
Comunes-Sin c (x ∷ w) h (v, vs) = (
  elim (Bool-cases (x == c)) [
    | inl e ↦ let m : x ≡ c = ==→eq x c e in absurd (cc (v, h, ap comun m))
    | inr e ↦ e
  ],
  Comunes-Sin c w h vs,
)

pub Palabra-Sin : (c : ℕ) (w : List ℕ) → comun c ≡ false → Palabra w → Sin c w
Palabra-Sin c [] h v = absurd v
Palabra-Sin c (x ∷ w) h v = Comunes-Sin c (x ∷ w) h v

pub unir-Sin :
    (c : ℕ) (ws : List (List ℕ))
    → comun c ≡ false
    → (b' ' == c) ≡ false
    → Palabras ws
    → Sin c (unir ws)
unir-Sin c [] h k v = tt
unir-Sin c (w ∷ []) h k (v, vs) = Palabra-Sin c w h v
unir-Sin c (w ∷ u ∷ ws) h k (v, vs) =
    Sin-append c w (b' ' ∷ unir (u ∷ ws)) (Palabra-Sin c w h v) (k, unir-Sin c (u ∷ ws) h k vs)

pub block_contains-Sin : (c : ℕ) (s : List ℕ) → Sin c s → block_contains s c ≡ none
unfolding block_contains
block_contains-Sin c [] v = refl
block_contains-Sin c (x ∷ s) (v, vs) = rw (v, block_contains-Sin c s vs)

pub block_contains-corte :
    (c : ℕ) (s t : List ℕ) → Sin c s → block_contains (s ++ (c ∷ t)) c ≡ some (length s)
unfolding block_contains
block_contains-corte c [] t v = ground arith
block_contains-corte c (x ∷ s) t (v, vs) = rw (v, block_contains-corte c s t vs)

pub split_line-corte :
    (c : ℕ) (s t : List ℕ) → Sin c s → split_line (s ++ (c ∷ t)) c ≡ (s, sin_espacios t)
unfolding split_line
split_line-corte c [] t v = ground arith
split_line-corte c (x ∷ s) t (v, vs) = rw (v, split_line-corte c s t vs)

pub split_line-Sin : (c : ℕ) (s : List ℕ) → Sin c s → split_line s c ≡ (s, [])
unfolding split_line
split_line-Sin c [] v = refl
split_line-Sin c (x ∷ s) (v, vs) = rw (v, split_line-Sin c s vs)
