-- ===== src/FileSystem/Disk/Reload.antt =====
-- A disk file that `fisopfs_destroy` of file_system/fisopfs.c writes, and `fisopfs_init` reads.
use features_operating_syste.Prelude.{
  ◌⊎◌, ℕ, zero, suc, ◌+◌, ◌≤◌, ◌<◌, ◌≡◌, refl, ap, subst, Bool, true, false, Option, none, some,
  List, [], ◌∷◌, ◌++◌, ◌==◌, length, take, drop, take-append, drop-append, ℤ, pos, arith, inl, inr,
}
use features_operating_syste.FileSystem.Types.{Inode, Superblock, Libc}
use features_operating_syste.FileSystem.Disk.{
  Formato, Disco, cuantos, liberado, serialize, deserialize, fisopfs_init, fisopfs_destroy,
}
use features_operating_syste.FileSystem.Disk.Layout.{
  Guardable, Fiel, SinFallos, usados, Todos, imagen, recortado, puesto, poner, Generoso,
}
use features_operating_syste.FileSystem.Disk.Image.{
  escribir-entero, serializar_desde-imagen, deserializar_desde-poner,
}

-- The inode at place `j`.
abbrev pub en : List Inode → ℕ → Option Inode
en [] j = none
en (x ∷ xs) zero = some x
en (x ∷ xs) (suc j) = en xs j

poner-Fuera :
    (s : Superblock) (i : ℕ) (xs : List Inode) (j : ℕ)
    → (j < i) ⊎ (i + length xs ≤ j)
    → ((poner s i xs).inodes j ≡ s.inodes j) × ((poner s i xs).inode_bitmap j ≡ s.inode_bitmap j)
poner-Fuera s i [] j h = (refl, refl)
poner-Fuera s i (x ∷ xs) j h =
    let (f, b) = poner-Fuera (puesto s i x) (i + 1) xs j (ground (arith, h)) in
    let otro : (j == i) ≡ false = ground (arith, h) in (rw (f, otro) refl, rw (b, otro) refl)

poner-En :
    (s : Superblock) (i : ℕ) (xs : List Inode) (j : ℕ) {x : Inode}
    → en xs j ≡ some x
    → ((poner s i xs).inodes (i + j) ≡ recortado x) × ((poner s i xs).inode_bitmap (i + j) ≡ 1)
poner-En s i [] j h = ground (arith, h)
poner-En s i (y ∷ xs) zero {x} h =
    let (f, b) = poner-Fuera (puesto s i y) (i + 1) xs (i + 0) (inl (omega arith)) in
    let mismo : (i + 0 == i) ≡ true = ground arith in
    (rw (f, mismo) (ap recortado (cc h)), rw (b, mismo) refl)
poner-En s i (y ∷ xs) (suc j) {x} h =
    subst
      (λ (k : ℕ).
        ((poner s i (y ∷ xs)).inodes k ≡ recortado x) × ((poner s i (y ∷ xs)).inode_bitmap k ≡ 1))
      (omega arith) (poner-En (puesto s i y) (i + 1) xs j h)

-- The `j`-th inode of the list stands in slot `j`, with its content cut to its size; the slots behind
-- them are as they were.
pub record Restaurado (s : Superblock) (n : ℤ) (xs : List Inode) (r : Superblock) : Type 0 where
  pub cuenta : r.inode_amount ≡ n
  pub vuelven :
      (j : ℕ) {x : Inode} → en xs j ≡ some x → (r.inodes j ≡ recortado x) × (r.inode_bitmap j ≡ 1)
  pub demas :
      (j : ℕ) → length xs ≤ j → (r.inodes j ≡ s.inodes j) × (r.inode_bitmap j ≡ s.inode_bitmap j)

inode_amount-poner :
    (s : Superblock) (i : ℕ) (xs : List Inode) → (poner s i xs).inode_amount ≡ s.inode_amount
inode_amount-poner s i [] = refl
inode_amount-poner s i (x ∷ xs) = inode_amount-poner (puesto s i x) (i + 1) xs

poner-Restaurado :
    (s : Superblock) (n : ℤ) (xs : List Inode)
    → Restaurado s n xs (poner (record s { inode_amount = n }) 0 xs)
poner-Restaurado s n xs = record {
  cuenta = inode_amount-poner (record s { inode_amount = n }) 0 xs;
  vuelven = λ j {x} e.
      let r = poner (record s { inode_amount = n }) 0 xs in
      subst (λ (k : ℕ). (r.inodes k ≡ recortado x) × (r.inode_bitmap k ≡ 1)) (omega arith)
        (poner-En (record s { inode_amount = n }) 0 xs j e);
  demas = λ j h. poner-Fuera (record s { inode_amount = n }) 0 xs j (inr (omega (arith, h)));
}

length-usados : (s : Superblock) (i n : ℕ) → length (usados s i n) ≤ n
length-usados s i zero = omega arith
length-usados s i (suc n) = ground (arith, length-usados s (i + 1) n)

serialize-imagen :
    (f : Formato) (d : Disco) (s : Superblock)
    → SinFallos d
    → cuantos s.inode_amount ≤ 1024
    → Todos Guardable (usados s 0 (cuantos s.inode_amount))
    → serialize f d s
      ≡ some (
        f.guardar_int s.inode_amount ++ imagen f (usados s 0 (cuantos s.inode_amount)),
        liberado s,
      )
unfolding serialize
serialize-imagen f d s v h g =
    let n = s.inode_amount in
    let cab = escribir-entero d 0 [] (f.guardar_int n) v in
    rw
      (
        serialize,
        ap (λ (p : Bool × List ℕ). p.1) cab,
        serializar_desde-imagen f d s 0 (cuantos n) 1 (f.guardar_int n) v (omega (arith, h)) g,
        ap (λ (p : Bool × List ℕ). p.0) cab,
      )
      refl

deserialize-poner :
    (c : Libc) (f : Formato) (d : Disco) (s : Superblock) (a : ℕ) (xs : List Inode)
    → Generoso c
    → Fiel f
    → SinFallos d
    → Todos Guardable xs
    → length xs ≤ a
    → a ≤ 1024
    → deserialize c f d s (f.guardar_int (pos a) ++ imagen f xs)
      ≡ some (poner (record s { inode_amount = pos a }) 0 xs)
unfolding deserialize
deserialize-poner c f d s a xs m l v g k h =
    let cabeza =
      subst (λ (n : ℕ). take n (f.guardar_int (pos a) ++ imagen f xs) ≡ f.guardar_int (pos a))
        (l.int_largo a h) (take-append (f.guardar_int (pos a)) (imagen f xs)) in
    let cola =
      subst (λ (n : ℕ). drop n (f.guardar_int (pos a) ++ imagen f xs) ≡ imagen f xs)
        (l.int_largo a h) (drop-append (f.guardar_int (pos a)) (imagen f xs)) in
    rw
      (
        deserialize,
        v.lee 0,
        cabeza,
        cola,
        l.int_vuelve a h,
        deserializar_desde-poner c f d (record s { inode_amount = pos a }) 0 a 1 xs m l v g k
            (omega (arith, h)),
      )
      refl

-- When every allocation, write and read succeeds, the layout is in bytes and gives back every inode whose
-- values fit the fields of an `inode_t`, the inodes in use are such, and `inode_amount` is at most 1024: `fisopfs_destroy` writes a file from which `fisopfs_init` restores `inode_amount`, and the inodes in
-- use among the first `inode_amount` slots, in their order and from slot 0 on, each with its content cut
-- to its size; the slots behind them are as `fisopfs_init` found them.
pub fisopfs_destroy-init :
    (c : Libc) (f : Formato) (d : Disco) (s inicial : Superblock) (viejo : List ℕ) (a : ℕ)
    → Generoso c
    → Fiel f
    → SinFallos d
    → s.inode_amount ≡ pos a
    → a ≤ 1024
    → Todos Guardable (usados s 0 a)
    → (fichero : List ℕ) × (r : Superblock) × (fisopfs_destroy f d s (some viejo)
        ≡ some (some fichero))
      × (fisopfs_init c f d inicial (some fichero) ≡ some r)
      × Restaurado inicial (pos a) (usados s 0 a) r
unfolding fisopfs_destroy fisopfs_init
fisopfs_destroy-init c f d s inicial viejo a m l v e h g = (
  f.guardar_int (pos a) ++ imagen f (usados s 0 a),
  poner (record inicial { inode_amount = pos a }) 0 (usados s 0 a),
  subst
      (λ (n : ℤ).
        cuantos n ≤ 1024
        → Todos Guardable (usados s 0 (cuantos n))
        → fisopfs_destroy f d s (some viejo)
          ≡ some (some (f.guardar_int n ++ imagen f (usados s 0 (cuantos n)))))
      e (λ h' g'. rw (fisopfs_destroy, serialize-imagen f d s v h' g') refl) h g,
  deserialize-poner c f d inicial a (usados s 0 a) m l v g (length-usados s 0 a) h,
  poner-Restaurado inicial (pos a) (usados s 0 a),
)
