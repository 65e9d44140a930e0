-- ===== src/FileSystem/Content/Blocks.antt =====
-- What `memcpy` and `memset` leave in a block, and a sequence of bytes cut or filled up to a length.
use features_operating_syste.Prelude.{
  ℕ, zero, suc, ◌+◌, ◌-◌, ◌≤◌, ◌≡◌, refl, ap, some, List, [], ◌∷◌, ◌++◌, length, take, drop,
  replicate, arith,
}
use features_operating_syste.FileSystem.Types.{memcpy_at, copiar_en}

-- The first `n` bytes, with zeros for those that are missing.
abbrev pub rellenar : ℕ → List ℕ → List ℕ
rellenar zero xs = []
rellenar (suc n) [] = 0 ∷ rellenar n []
rellenar (suc n) (x ∷ xs) = x ∷ rellenar n xs

pub rellenar-take :
    (n m : ℕ) (xs : List ℕ) → n ≤ m → m ≤ length xs → rellenar n (take m xs) ≡ take n xs
rellenar-take zero m xs h k = refl
rellenar-take (suc n) zero xs h k = ground arith
rellenar-take (suc n) (suc m) [] h k = ground arith
rellenar-take (suc n) (suc m) (x ∷ xs) h k =
    ap (◌∷◌ x) (rellenar-take n m xs (omega arith) (omega arith))

rellenar-nil : (n : ℕ) → rellenar n [] ≡ replicate n 0
rellenar-nil zero = refl
rellenar-nil (suc n) = ap (◌∷◌ 0) (rellenar-nil n)

pub rellenar-replicate :
    (n m : ℕ) (xs : List ℕ)
    → m ≤ n
    → m ≤ length xs
    → rellenar n (take m xs) ≡ take m xs ++ replicate (n - m) 0
rellenar-replicate n zero xs h k = let e : n - 0 ≡ n = omega arith in rw e (rellenar-nil n)
rellenar-replicate n (suc m) [] h k = ground arith
rellenar-replicate zero (suc m) (x ∷ xs) h k = ground arith
rellenar-replicate (suc n) (suc m) (x ∷ xs) h k =
    let e : suc n - suc m ≡ n - m = omega arith in
    rw e (ap (◌∷◌ x) (rellenar-replicate n m xs (omega arith) (omega arith)))

pub take-take : (n m : ℕ) (xs : List ℕ) → n ≤ m → take n (take m xs) ≡ take n xs
take-take zero m xs h = refl
take-take (suc n) zero xs h = ground arith
take-take (suc n) (suc m) [] h = refl
take-take (suc n) (suc m) (x ∷ xs) h = ap (◌∷◌ x) (take-take n m xs (omega arith))

pub length-take : (n : ℕ) (xs : List ℕ) → n ≤ length xs → length (take n xs) ≡ n
length-take zero xs h = refl
length-take (suc n) [] h = ground arith
length-take (suc n) (x ∷ xs) h = ap suc (length-take n xs (omega arith))

-- The result of the write of `s` at `n`.
pub record Copiado (b : List ℕ) (n : ℕ) (s : List ℕ) : Type 0 where
  pub r : List ℕ
  pub paso : memcpy_at b n s ≡ some r
  pub largo : length r ≡ length b
  pub hasta : take (n + length s) r ≡ take n b ++ s

copiar_en-Copiado :
    (s b : List ℕ)
    → length s ≤ length b
    → (r : List ℕ) × (copiar_en s b ≡ some r) × (length r ≡ length b) × (take (length s) r ≡ s)
copiar_en-Copiado [] b h = (b, refl, refl, refl)
copiar_en-Copiado (x ∷ s) [] h = ground arith
copiar_en-Copiado (x ∷ s) (y ∷ b) h =
    let (r, p, l, t) = copiar_en-Copiado s b (omega arith) in
    (x ∷ r, rw p refl, ap suc l, ap (◌∷◌ x) t)

pub memcpy_at-Copiado : (b : List ℕ) (n : ℕ) (s : List ℕ) → n + length s ≤ length b → Copiado b n s
unfolding memcpy_at
memcpy_at-Copiado b zero s h =
    let (r, p, l, t) = copiar_en-Copiado s b (omega arith) in
    let e : 0 + length s ≡ length s = omega arith in
    record { r = r; paso = p; largo = l; hasta = rw e t }
memcpy_at-Copiado [] (suc n) s h = ground arith
memcpy_at-Copiado (x ∷ b) (suc n) s h =
    let m = memcpy_at-Copiado b n s (omega arith) in
    let e : suc n + length s ≡ suc (n + length s) = omega arith in
    record {
      r = x ∷ m.r;
      paso = rw (m.paso) refl;
      largo = ap suc m.largo;
      hasta = rw e (ap (◌∷◌ x) m.hasta);
    }

pub take-all : (n : ℕ) (xs : List ℕ) → length xs ≤ n → take n xs ≡ xs
take-all zero [] h = refl
take-all zero (x ∷ xs) h = ground arith
take-all (suc n) [] h = refl
take-all (suc n) (x ∷ xs) h = ap (◌∷◌ x) (take-all n xs (omega arith))

pub drop-take : (n m : ℕ) (xs : List ℕ) → n ≤ m → drop n (take m xs) ≡ take (m - n) (drop n xs)
drop-take zero m xs h = let e : m - 0 ≡ m = omega arith in rw e refl
drop-take (suc n) zero xs h = ground arith
drop-take (suc n) (suc m) [] h = refl-take (suc m - suc n)
  where
    refl-take : (k : ℕ) → List.[] ≡ take {A = ℕ} k []
    refl-take zero = refl
    refl-take (suc k) = refl
drop-take (suc n) (suc m) (x ∷ xs) h =
    let e : suc m - suc n ≡ m - n = omega arith in rw e (drop-take n m xs (omega arith))

pub length-drop : (n : ℕ) (xs : List ℕ) → n ≤ length xs → length (drop n xs) ≡ length xs - n
length-drop zero xs h = omega arith
length-drop (suc n) [] h = ground arith
length-drop (suc n) (x ∷ xs) h = omega (arith, length-drop n xs (omega arith))

pub drop-rellenar : (n : ℕ) (xs ys : List ℕ) → drop n (rellenar n xs ++ ys) ≡ ys
drop-rellenar zero xs ys = refl
drop-rellenar (suc n) [] ys = drop-rellenar n [] ys
drop-rellenar (suc n) (x ∷ xs) ys = drop-rellenar n xs ys

pub length-rellenar : (n : ℕ) (xs : List ℕ) → length (rellenar n xs) ≡ n
length-rellenar zero xs = refl
length-rellenar (suc n) [] = ap suc (length-rellenar n [])
length-rellenar (suc n) (x ∷ xs) = ap suc (length-rellenar n xs)

pub take-rellenar :
    (k n : ℕ) (xs : List ℕ) → k ≤ n → k ≤ length xs → take k (rellenar n xs) ≡ take k xs
take-rellenar zero n xs h l = refl
take-rellenar (suc k) zero xs h l = ground arith
take-rellenar (suc k) (suc n) [] h l = ground arith
take-rellenar (suc k) (suc n) (x ∷ xs) h l =
    ap (◌∷◌ x) (take-rellenar k n xs (omega arith) (omega arith))
