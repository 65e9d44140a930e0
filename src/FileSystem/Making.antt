-- ===== src/FileSystem/Making.antt =====
-- `fisopfs_mkdir` and `fisopfs_create` with the listing of the parent directory, and without one.
use features_operating_syste.Prelude.{
  ℕ, ◌+◌, ◌<◌, ◌≡◌, ◌≢◌, refl, sym, ◌∙◌, ap, subst, true, false, ◌&&◌, none, some, List, [], ◌∷◌,
  ◌++◌, ◌==◌, length, drop, arith, zero, suc, ◌≤◌, ==→eq, ne→==, ==_refl, Bool-cases, inl, inr, pos,
}
use features_operating_syste.FileSystem.Types.{
  InodeType, Superblock, Libc, is_file, str_eq, inodes_amount, initial_content_length, max_path,
}
use features_operating_syste.FileSystem.Inodes.{
  ocupa, search_inode, search_free_inode, ultima_barra, ruta_del_padre, get_parent, nombre,
  agregar_a, add_dentry_to_parent_dir, con_inode,
}
use features_operating_syste.FileSystem.Operations.{crear, anotar_creado, fisopfs_readdir}
use features_operating_syste.FileSystem.Lookup.{Primero, search_inode-Primero, search_inode-igual}
use features_operating_syste.FileSystem.Creation.{create_inode-Creado}
use features_operating_syste.FileSystem.Directory.Names.{formato, IsNombre, Cortos}
use features_operating_syste.FileSystem.Directory.Refine.{fisopfs_readdir-Guarda}
use features_operating_syste.FileSystem.Directory.Adding.{
  Directorio, add_dentry_to_content-Agregado,
}

str_eq-eq : (s t : List ℕ) → str_eq s t ≡ true → s ≡ t
str_eq-eq [] [] h = refl
str_eq-eq [] (y ∷ t) h = ground arith
str_eq-eq (x ∷ s) [] h = ground arith
str_eq-eq (x ∷ s) (y ∷ t) h = elim (Bool-cases (x == y)) [
  | inl e ↦
      ap (λ z. z ∷ s) (==→eq x y e)
      ∙ ap (◌∷◌ y) (str_eq-eq s t (sym (ap (λ z. z && str_eq s t) e) ∙ h))
  | inr e ↦ ground arith
]

-- A path that is found and one that is not differ.
distintos :
    (s : Superblock) (p q : List ℕ) {i : ℕ}
    → search_inode s p ≡ none
    → search_inode s q ≡ some i
    → str_eq p q ≡ false
distintos s p q {i} h k = elim (Bool-cases (str_eq p q)) [
  | inl e ↦ ground (arith, sym h ∙ ap (search_inode s) (str_eq-eq p q e) ∙ k)
  | inr e ↦ e
]

-- The slot of a path that is found is in use.
search_inode-en_uso :
    (s : Superblock) (q : List ℕ) {i : ℕ} → search_inode s q ≡ some i → s.inode_bitmap i ≢ 0
search_inode-en_uso s q {i} h =
    let (a, b, t, p) = subst (Primero (ocupa s q) 0 inodes_amount) h (search_inode-Primero s q) in
    λ z. ground arith

-- Where the path is shorter than 256 bytes, longer than one and not there yet, its parent's path is
-- another one that is not there either, a slot is free and memory is there, `fisopfs_mkdir` and
-- `fisopfs_create` return 0, and the path is found from then on.
pub crear_huerfano :
    (type : InodeType) (c : Libc) (s : Superblock) (path : List ℕ) (mode : ℕ) {i barra : ℕ}
    {block : List ℕ}
    → length path < max_path
    → length path ≢ 1
    → search_inode s path ≡ none
    → search_free_inode s ≡ some i
    → c.calloc initial_content_length ≡ some block
    → ultima_barra path ≡ some barra
    → search_inode s (ruta_del_padre path barra) ≡ none
    → str_eq path (ruta_del_padre path barra) ≡ false
    → (s' : Superblock) × (crear type c s path mode ≡ some (pos 0, s'))
      × (search_inode s' path ≡ some i)
unfolding crear add_dentry_to_parent_dir get_parent
crear_huerfano type c s path mode {i} {barra} h uno ausente l k u n d =
    let (s', creado, v) = create_inode-Creado c s path mode type h ausente l k in
    (
      s',
      ap (anotar_creado c path) creado
          ∙ rw
              (
                anotar_creado,
                add_dentry_to_parent_dir,
                get_parent,
                ne→== (length path) 1 uno,
                u,
                v.demas (ruta_del_padre path barra) d,
                n,
              )
              refl,
      v.encontrado,
    )

con_inode-path :
    (s : Superblock) (p : ℕ) (b : List ℕ) (n : ℕ) (j : ℕ)
    → ((con_inode s p (record (s.inodes p) { content = some b; size = n })).inodes j).path
      ≡ (s.inodes j).path
con_inode-path s p b n j = elim (Bool-cases (j == p)) [
  | inl e ↦ rw (e, ==→eq j p e) refl
  | inr e ↦ rw e refl
]

module _ (c : Libc) (s s' : Superblock) (path : List ℕ) (barra p : ℕ) (b : List ℕ)
    (es : List (List ℕ)) where
  -- The parent directory after the new name was added.
  abbrev Anotado : Type 0
  Anotado =
      (s'' : Superblock) × (add_dentry_to_parent_dir c s' path ≡ some (pos 0, s''))
      × (fisopfs_readdir s'' (ruta_del_padre path barra) 0
          ≡ some (pos 0, (b'.' ∷ []) ∷ (b'.' ∷ b'.' ∷ []) ∷ es ++ (drop (barra + 1) path ∷ [])))

  anotado :
      {r : List ℕ}
      → length path ≢ 1
      → ultima_barra path ≡ some barra
      → search_inode s' (ruta_del_padre path barra) ≡ some p
      → is_file (s'.inodes p).type ≡ false
      → (s'.inodes p).content ≡ some b
      → Directorio b (s'.inodes p).size es
      → IsNombre (drop (barra + 1) path)
      → Cortos (es ++ (drop (barra + 1) path ∷ []))
      → length (formato es) + length (drop (barra + 1) path) + 1 ≢ (s'.inodes p).size
      → c.realloc b
          ((s'.inodes p).size + (length (drop (barra + 1) path) + 1) + initial_content_length)
        ≡ some r
      → Anotado
  unfolding add_dentry_to_parent_dir get_parent nombre agregar_a
  anotado uno u f t k g w cs ne e =
      let d = drop (barra + 1) path in
      let (b', size', paso, g') =
        add_dentry_to_content-Agregado c b (s'.inodes p).size es d g w ne e in
      let s'' = con_inode s' p (record (s'.inodes p) { content = some b'; size = size' }) in
      (
        s'',
        rw
            (
              add_dentry_to_parent_dir,
              get_parent,
              ne→== (length path) 1 uno,
              u,
              f,
              t,
              nombre,
              u,
              agregar_a,
              k,
              paso,
            )
            refl,
        fisopfs_readdir-Guarda s'' (ruta_del_padre path barra)
            (search_inode-igual s'' s' (ruta_del_padre path barra) refl
                (con_inode-path s' p b' size')
              ∙ f)
            (rw (==_refl p) t) (rw (==_refl p) refl) g'.guarda cs,
      )

length-drop_le : (n : ℕ) (xs : List ℕ) → length (drop n xs) ≤ length xs
length-drop_le zero xs = omega arith
length-drop_le (suc n) [] = omega arith
length-drop_le (suc n) (x ∷ xs) = omega (arith, length-drop_le n xs)

nombre_corto :
    (path : List ℕ) (barra : ℕ) → length path < max_path → length (drop (barra + 1) path) < 1024
nombre_corto path barra h = omega (arith, length-drop_le (barra + 1) path)

Cortos-agregado :
    (es : List (List ℕ)) (d : List ℕ) → Cortos es → length d < 1024 → Cortos (es ++ (d ∷ []))
Cortos-agregado [] d cs h = (h, tt)
Cortos-agregado (e ∷ es) d (c, cs) h = (c, Cortos-agregado es d cs h)

-- Where the path is shorter than 256 bytes, longer than one and not there yet, its parent (the path
-- up to the last slash) is a directory that holds `es`, each of them shorter than 1024 bytes, the text with the new name does not end
-- exactly at the directory's size, the name has no '\n' and no NUL, a slot is free and memory is
-- there, `fisopfs_mkdir` and `fisopfs_create` return 0, and `fisopfs_readdir` of the parent then
-- lists ".", "..", `es` and the new name behind them.
pub fisopfs_readdir-crear :
    (type : InodeType) (c : Libc) (s : Superblock) (path : List ℕ) (mode : ℕ) {i barra p : ℕ}
    {block b r : List ℕ} {es : List (List ℕ)}
    → length path < max_path
    → length path ≢ 1
    → search_inode s path ≡ none
    → search_free_inode s ≡ some i
    → c.calloc initial_content_length ≡ some block
    → ultima_barra path ≡ some barra
    → search_inode s (ruta_del_padre path barra) ≡ some p
    → is_file (s.inodes p).type ≡ false
    → (s.inodes p).content ≡ some b
    → Directorio b (s.inodes p).size es
    → IsNombre (drop (barra + 1) path)
    → Cortos es
    → length (formato es) + length (drop (barra + 1) path) + 1 ≢ (s.inodes p).size
    → c.realloc b
        ((s.inodes p).size + (length (drop (barra + 1) path) + 1) + initial_content_length)
      ≡ some r
    → (s' : Superblock) × (crear type c s path mode ≡ some (pos 0, s'))
      × (fisopfs_readdir s' (ruta_del_padre path barra) 0
          ≡ some (pos 0, (b'.' ∷ []) ∷ (b'.' ∷ b'.' ∷ []) ∷ es ++ (drop (barra + 1) path ∷ [])))
unfolding crear
fisopfs_readdir-crear type c s path mode {i} {barra} {p} {block} {b} {r} {es} h uno ausente l k u f
      t x g w cs ne e =
    let padre = ruta_del_padre path barra in
    let (s', creado, v) = create_inode-Creado c s path mode type h ausente l k in
    let distinto : p ≢ i = λ q. search_inode-en_uso s padre f (ap s.inode_bitmap q ∙ v.libre) in
    let mismo : s'.inodes p ≡ s.inodes p = v.otros p distinto in
    let (s'', paso, lista) =
      anotado c s s' path barra p b es uno u (v.demas padre (distintos s path padre ausente f) ∙ f)
        (ap (λ n. is_file n.type) mismo ∙ t) (ap (λ n. n.content) mismo ∙ x)
        (subst (λ n. Directorio b n.size es) (sym mismo) g) w
        (Cortos-agregado es (drop (barra + 1) path) cs (nombre_corto path barra h))
        (subst (λ n. length (formato es) + length (drop (barra + 1) path) + 1 ≢ n.size) (sym mismo)
          ne)
        (subst
          (λ n.
            c.realloc b (n.size + (length (drop (barra + 1) path) + 1) + initial_content_length)
            ≡ some r)
          (sym mismo) e) in
    (s'', ap (anotar_creado c path) creado ∙ rw (anotar_creado, paso) refl, lista)
