-- ===== src/FileSystem/Creation.antt =====
-- What a later `search_inode` finds after `create_inode`.
use features_operating_syste.Prelude.{
  ℕ, ◌<◌, ◌≡◌, ◌≢◌, refl, sym, ◌∙◌, ap, subst, true, false, none, some, List, [], ◌∷◌, leb, ◌==◌,
  update, length, arith, ==→eq, ==→ne, ne→==, ==_refl, Bool-cases, inl, inr, pos,
}
use features_operating_syste.FileSystem.Types.{
  InodeType, Superblock, Libc, str_eq, inodes_amount, initial_content_length, max_path,
}
use features_operating_syste.FileSystem.Inodes.{
  ocupa, search_inode, search_free_inode, inode_nuevo, mas_uno, create_inode,
}
use features_operating_syste.FileSystem.Lookup.{
  Primero, Primero-unico, search_inode-Primero, search_free_inode-Primero, search_inode-ocupa,
}

pub str_eq_refl : (s : List ℕ) → str_eq s s ≡ true
str_eq_refl [] = refl
str_eq_refl (x ∷ s) = rw (==_refl x) (str_eq_refl s)

-- The superblock that a successful `create_inode` leaves.
pub record Creado (c : Libc) (s s' : Superblock) (path : List ℕ) (i : ℕ) : Type 0 where
  pub encontrado : search_inode s' path ≡ some i
  pub demas : (q : List ℕ) → str_eq path q ≡ false → search_inode s' q ≡ search_inode s q
  pub otros : (j : ℕ) → j ≢ i → s'.inodes j ≡ s.inodes j
  pub libre : s.inode_bitmap i ≡ 0
  pub vacio : (s'.inodes i).size ≡ 0
  pub cantidad : s'.inode_amount ≡ mas_uno s.inode_amount

module _ (c : Libc) (s : Superblock) (path : List ℕ) (mode : ℕ) (type : InodeType) (i : ℕ)
    (block : List ℕ) (l : search_free_inode s ≡ some i) where
  abbrev nuevo : Superblock
  nuevo = record s {
    inodes = update s.inodes i (inode_nuevo c path mode type block);
    inode_bitmap = update s.inode_bitmap i 1;
    inode_amount = mas_uno s.inode_amount;
  }

  ocupa_otro : (q : List ℕ) (j : ℕ) → j ≢ i → ocupa nuevo q j ≡ ocupa s q j
  ocupa_otro q j ne = rw (ne→== j i ne) refl

  ocupa-nuevo : (q : List ℕ) → ocupa nuevo q i ≡ str_eq path q
  ocupa-nuevo q = rw (==_refl i) refl

  era_libre : Primero (λ j. s.inode_bitmap j == 0) 0 inodes_amount (some i)
  era_libre =
      subst (Primero (λ j. s.inode_bitmap j == 0) 0 inodes_amount) l (search_free_inode-Primero s)

  no_ocupaba : (q : List ℕ) → ocupa s q i ≡ false
  no_ocupaba q = let (a, b, t, p) = era_libre in rw t refl

  queda : search_inode s path ≡ none → search_inode nuevo path ≡ some i
  queda h =
      let nadie : Primero (ocupa s path) 0 inodes_amount none =
        subst (Primero (ocupa s path) 0 inodes_amount) h (search_inode-Primero s path) in
      let (a, b, t, p) = era_libre in
      Primero-unico (ocupa nuevo path) 0 inodes_amount (search_inode nuevo path) (some i)
        (search_inode-Primero nuevo path)
        (
          a,
          b,
          ocupa-nuevo path ∙ str_eq_refl path,
          λ j x y. ocupa_otro path j (omega arith) ∙ nadie j x (omega arith),
        )

  siguen : (q : List ℕ) → str_eq path q ≡ false → search_inode nuevo q ≡ search_inode s q
  siguen q ne = search_inode-ocupa nuevo s q (λ j. elim (Bool-cases (j == i)) [
    | inl e ↦
        ap (ocupa nuevo q) (==→eq j i e)
        ∙ ocupa-nuevo q
        ∙ ne
        ∙ sym (no_ocupaba q)
        ∙ ap (ocupa s q) (sym (==→eq j i e))
    | inr e ↦ ocupa_otro q j (==→ne j i e)
  ])

-- Where the path is shorter than 256 bytes and not there yet, `i` is the first free slot and memory
-- is there, `create_inode` returns `i`; a later search finds the path in slot `i`, and every other
-- path as before; the other inodes stay, the new one is empty, and the number of inodes is one more.
pub create_inode-Creado :
    (c : Libc) (s : Superblock) (path : List ℕ) (mode : ℕ) (type : InodeType) {i : ℕ}
    {block : List ℕ}
    → length path < max_path
    → search_inode s path ≡ none
    → search_free_inode s ≡ some i
    → c.calloc initial_content_length ≡ some block
    → (s' : Superblock) × (create_inode c s path mode type ≡ (pos i, s')) × Creado c s s' path i
unfolding create_inode
create_inode-Creado c s path mode type {i} {block} h ausente l k =
    let corto : leb max_path (length path) ≡ false = ground arith in
    (
      nuevo c s path mode type i block l,
      rw (create_inode, corto, l, k) refl,
      record {
        encontrado = queda c s path mode type i block l ausente;
        demas = siguen c s path mode type i block l;
        otros = λ j ne. rw (ne→== j i ne) refl;
        libre =
            let (a, b, t, p) = era_libre c s path mode type i block l in
            ==→eq (s.inode_bitmap i) 0 t;
        vacio = rw (==_refl i) refl;
        cantidad = refl;
      },
    )
