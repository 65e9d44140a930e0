-- ===== src/FileSystem/Lookup.antt =====
-- What `search_inode` and `search_free_inode` of file_system/fs.c find.
use features_operating_syste.Prelude.{
  ℕ, zero, suc, ◌+◌, ◌≤◌, ◌<◌, ◌≡◌, refl, ◌∙◌, ap, Bool, true, false, Option, none, some, List, ltb,
  ◌==◌, arith, ==→eq, ==→ne, ltb→lt, Bool-cases, inl, inr,
}
use features_operating_syste.FileSystem.Types.{Superblock, inodes_amount}
use features_operating_syste.FileSystem.Inodes.{
  ocupa, search_inode_desde, search_inode, search_free_desde, search_free_inode,
}

search_inode_desde-igual :
    (s t : Superblock) (path : List ℕ) (i n : ℕ)
    → s.inode_bitmap ≡ t.inode_bitmap
    → ((j : ℕ) → (s.inodes j).path ≡ (t.inodes j).path)
    → search_inode_desde s path i n ≡ search_inode_desde t path i n
unfolding search_inode_desde
search_inode_desde-igual s t path i zero m p = refl
search_inode_desde-igual s t path i (suc n) m p =
    let mapa : s.inode_bitmap i ≡ t.inode_bitmap i = ap (λ f. f i) m in
    rw (mapa, p i, search_inode_desde-igual s t path (i + 1) n m p) refl

-- The slots in use and the paths decide the search.
pub search_inode-igual :
    (s t : Superblock) (path : List ℕ)
    → s.inode_bitmap ≡ t.inode_bitmap
    → ((j : ℕ) → (s.inodes j).path ≡ (t.inodes j).path)
    → search_inode s path ≡ search_inode t path
unfolding search_inode
search_inode-igual s t path m p = search_inode_desde-igual s t path 0 inodes_amount m p

-- The answer of a search over the slots below `n` from `i`: the first one that passes the test.
abbrev pub Primero : (ℕ → Bool) → ℕ → ℕ → Option ℕ → Type 0
Primero test i n none = (j : ℕ) → i ≤ j → j < i + n → test j ≡ false
Primero test i n (some k) =
    (i ≤ k) × (k < i + n) × (test k ≡ true) × ((j : ℕ) → i ≤ j → j < k → test j ≡ false)

hallado_aqui : (test : ℕ → Bool) (i n : ℕ) → test i ≡ true → Primero test i (suc n) (some i)
hallado_aqui test i n h = (omega arith, omega arith, h, λ j a b. ground arith)

hallado_despues :
    (test : ℕ → Bool) (i n : ℕ) (o : Option ℕ)
    → test i ≡ false
    → Primero test (i + 1) n o
    → Primero test i (suc n) o
hallado_despues test i n none h p = λ j a b. elim (Bool-cases (j == i)) [
  | inl e ↦ ap test (==→eq j i e) ∙ h
  | inr e ↦ p j (omega (arith, ==→ne j i e)) (omega arith)
]
hallado_despues test i n (some k) h (a, b, c, p) = (
  omega arith,
  omega arith,
  c,
  λ j x y. elim (Bool-cases (j == i)) [
    | inl e ↦ ap test (==→eq j i e) ∙ h
    | inr e ↦ p j (omega (arith, ==→ne j i e)) y
  ],
)

search_inode_desde-Primero :
    (s : Superblock) (path : List ℕ) (i n : ℕ)
    → Primero (ocupa s path) i n (search_inode_desde s path i n)
unfolding search_inode_desde
search_inode_desde-Primero s path i zero = λ j a b. ground arith
search_inode_desde-Primero s path i (suc n) = elim (Bool-cases (ocupa s path i)) [
  | inl e ↦ rw e (hallado_aqui (ocupa s path) i n e)
  | inr e ↦ rw e (
      hallado_despues (ocupa s path) i n (search_inode_desde s path (i + 1) n) e
        (search_inode_desde-Primero s path (i + 1) n))
]

-- `search_inode` gives the first of the 1024 slots that is in use and carries the path, and ERROR
-- only where no slot is so.
pub search_inode-Primero :
    (s : Superblock) (path : List ℕ) → Primero (ocupa s path) 0 inodes_amount (search_inode s path)
unfolding search_inode
search_inode-Primero s path = search_inode_desde-Primero s path 0 inodes_amount

-- The slot is free.
abbrev pub libre : Superblock → ℕ → Bool
libre s i = s.inode_bitmap i == 0

search_free_desde-Primero :
    (s : Superblock) (i n : ℕ) → Primero (libre s) i n (search_free_desde s i n)
unfolding search_free_desde
search_free_desde-Primero s i zero = λ j a b. ground arith
search_free_desde-Primero s i (suc n) = elim (Bool-cases (libre s i)) [
  | inl e ↦ rw e (hallado_aqui (libre s) i n e)
  | inr e ↦ rw e (
      hallado_despues (libre s) i n (search_free_desde s (i + 1) n) e
        (search_free_desde-Primero s (i + 1) n))
]

-- `search_free_inode` gives the first free slot of the 1024, and ERROR only where all are in use.
pub search_free_inode-Primero :
    (s : Superblock) → Primero (libre s) 0 inodes_amount (search_free_inode s)
unfolding search_free_inode
search_free_inode-Primero s = search_free_desde-Primero s 0 inodes_amount

search_inode_desde-ocupa :
    (s t : Superblock) (path : List ℕ) (i n : ℕ)
    → ((j : ℕ) → ocupa s path j ≡ ocupa t path j)
    → search_inode_desde s path i n ≡ search_inode_desde t path i n
unfolding search_inode_desde
search_inode_desde-ocupa s t path i zero h = refl
search_inode_desde-ocupa s t path i (suc n) h =
    rw (search_inode_desde, h i, search_inode_desde-ocupa s t path (i + 1) n h) refl

-- Two superblocks in which the same slots pass the test find the same.
pub search_inode-ocupa :
    (s t : Superblock) (path : List ℕ)
    → ((j : ℕ) → ocupa s path j ≡ ocupa t path j)
    → search_inode s path ≡ search_inode t path
unfolding search_inode
search_inode-ocupa s t path h = search_inode_desde-ocupa s t path 0 inodes_amount h

pub imposible {ℓ} : {A : Type ℓ} {b : Bool} → b ≡ true → b ≡ false → A
imposible {b = true} h k = ground arith
imposible {b = false} h k = ground arith

-- There is only one first slot.
pub Primero-unico :
    (test : ℕ → Bool) (i n : ℕ) (o o' : Option ℕ)
    → Primero test i n o
    → Primero test i n o'
    → o ≡ o'
Primero-unico test i n none none p q = refl
Primero-unico test i n none (some k) p (a, b, c, q) = imposible c (p k a b)
Primero-unico test i n (some k) none (a, b, c, p) q = imposible c (q k a b)
Primero-unico test i n (some k) (some m) (a, b, c, p) (a', b', c', q) =
    elim (Bool-cases (ltb k m)) [
      | inl h ↦ imposible c (q k a (ltb→lt k m h))
      | inr h ↦ elim (Bool-cases (ltb m k)) [
        | inl h' ↦ imposible c' (p m a' (ltb→lt m k h'))
        | inr h' ↦ ap some (ground arith)
      ]
    ]
