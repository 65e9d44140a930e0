-- ===== src/FileSystem/Directory/Names.antt =====
-- The text of a directory: every name with a '\n' behind it, then a NUL. How the scan of fs.c reads
-- such a text.
use features_operating_syste.Prelude.{
  ℕ, zero, suc, ◌+◌, ◌≡◌, refl, ◌∙◌, ap, false, List, [], ◌∷◌, ◌++◌, append_assoc, ◌==◌, length,
  drop, arith, ◌<◌, le→ltb, some,
}
use features_operating_syste.FileSystem.Types.{cstr}
use features_operating_syste.FileSystem.Directory.{hasta_sep, en_fin, get_next_entry}

abbrev pub formato : List (List ℕ) → List ℕ
formato [] = []
formato (e ∷ es) = e ++ (b'\n' ∷ formato es)

-- No byte of the name is a '\n' or a NUL.
abbrev pub IsNombre : List ℕ → Type 0
IsNombre [] = Unit {0}
IsNombre (x ∷ e) = ((x == b'\n') ≡ false) × ((x == 0) ≡ false) × IsNombre e

abbrev pub Nombres : List (List ℕ) → Type 0
Nombres [] = Unit {0}
Nombres (e ∷ es) = IsNombre e × Nombres es

-- Every name fits into `char buff[1024]` with its NUL.
abbrev pub Cortos : List (List ℕ) → Type 0
Cortos [] = Unit {0}
Cortos (e ∷ es) = (length e < 1024) × Cortos es

-- The block holds the names, and has a NUL behind them.
pub record Guarda (b : List ℕ) (es : List (List ℕ)) : Type 0 where
  pub resto : List ℕ
  pub texto : b ≡ formato es ++ (0 ∷ resto)
  pub nombres : Nombres es

cstr-nombre : (e t : List ℕ) → IsNombre e → cstr (e ++ t) ≡ e ++ cstr t
cstr-nombre [] t v = refl
cstr-nombre (x ∷ e) t (no_nl, no_nul, v) = rw no_nul (ap (◌∷◌ x) (cstr-nombre e t v))

pub cstr-formato :
    (es : List (List ℕ)) (r : List ℕ) → Nombres es → cstr (formato es ++ (0 ∷ r)) ≡ formato es
cstr-formato [] r v = refl
cstr-formato (e ∷ es) r (v, vs) =
    rw (append_assoc, cstr-nombre e (b'\n' ∷ (formato es ++ (0 ∷ r))) v)
      (ap (λ t. e ++ (b'\n' ∷ t)) (cstr-formato es r vs))

pub cstr-Guarda : {b : List ℕ} {es : List (List ℕ)} → Guarda b es → cstr b ≡ formato es
cstr-Guarda {b} {es} g = rw (g.texto) (cstr-formato es g.resto g.nombres)

hasta_sep-nombre : (e t : List ℕ) → IsNombre e → hasta_sep (e ++ (b'\n' ∷ t)) ≡ e
hasta_sep-nombre [] t v = refl
hasta_sep-nombre (x ∷ e) t (no_nl, no_nul, v) =
    rw (no_nl, no_nul) (ap (◌∷◌ x) (hasta_sep-nombre e t v))

en_fin-nombre : (e t : List ℕ) → IsNombre e → en_fin (e ++ (b'\n' ∷ t)) ≡ false
en_fin-nombre [] t v = refl
en_fin-nombre (x ∷ e) t (no_nl, no_nul, v) = no_nul

pub drop-nil : (n : ℕ) → drop {A = ℕ} n [] ≡ []
drop-nil zero = refl
drop-nil (suc n) = refl

pub drop-drop : (n m : ℕ) (xs : List ℕ) → drop (n + m) xs ≡ drop m (drop n xs)
drop-drop zero m xs = let e : zero + m ≡ m = omega arith in rw e refl
drop-drop (suc n) m [] = rw (drop-nil (suc n + m), drop-nil m) refl
drop-drop (suc n) m (x ∷ xs) =
    let e : suc n + m ≡ suc (n + m) = omega arith in rw e (drop-drop n m xs)

drop-nombre : (e t : List ℕ) → drop (length e + 1) (e ++ (b'\n' ∷ t)) ≡ t
drop-nombre [] t = refl
drop-nombre (x ∷ e) t =
    let h : suc (length e) + 1 ≡ suc (length e + 1) = omega arith in rw h (drop-nombre e t)

mas_uno_mas : (n m : ℕ) → n + m + 1 ≡ n + (m + 1)
mas_uno_mas n m = omega arith

-- Where a name and its '\n' stand at the offset, and `buff` has room for the name and a NUL,
-- `get_next_entry` gives the name and moves behind.
pub get_next_entry-nombre :
    (size : ℕ) (content : List ℕ) (offset : ℕ) (buff e t : List ℕ)
    → IsNombre e
    → length e < size
    → drop offset content ≡ e ++ (b'\n' ∷ t)
    → (get_next_entry size content offset buff ≡ some (e, offset + length e + 1))
      × (drop (offset + length e + 1) content ≡ t)
unfolding get_next_entry
get_next_entry-nombre size content offset buff e t v c h = (
  rw (h, en_fin-nombre e t v, hasta_sep-nombre e t v, le→ltb size (length e + 1) (omega arith))
      refl,
  ap (λ k. drop k content) (mas_uno_mas offset (length e))
      ∙ drop-drop offset (length e + 1) content
      ∙ ap (drop (length e + 1)) h
      ∙ drop-nombre e t,
)
