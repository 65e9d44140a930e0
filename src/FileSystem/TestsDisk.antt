-- ===== src/FileSystem/TestsDisk.antt =====
-- A run of `fisopfs_destroy` and `fisopfs_init` on a small tree.
use native.Mathlib.Nat.{div-add-mod', pow-succ'}
use features_operating_syste.Prelude.{
  ℕ, ◌+◌, ◌-◌, ◌*◌, ◌/◌, ◌%◌, ◌^◌, ◌<◌, ◌≡◌, refl, sym, subst, ◌∙◌, append_assoc, append-nil, take,
  drop, take-append, drop-append, ap, zero, suc, false, none, some, List, [], ◌∷◌, ◌++◌,
  if◌then◌else◌, ◌==◌, length, replicate, length-append, length-replicate, pos, arith,
}
use features_operating_syste.FileSystem.Types.{InodeType, is_file, Inode, Superblock, cstr}
use features_operating_syste.FileSystem.Disk.{
  Formato, Disco, cuantos, fisopfs_init, fisopfs_destroy,
}
use features_operating_syste.FileSystem.Disk.Layout.{SinNul, Bytes, Guardable, Fiel, usados}
use features_operating_syste.FileSystem.Disk.Reload.{Restaurado, fisopfs_destroy-init}
use features_operating_syste.FileSystem.Tests.{libc, arbol}

-- The low `n` bytes of a number, the lowest first.
abbrev bytes_le : ℕ → ℕ → List ℕ
bytes_le zero v = []
bytes_le (suc n) v = v % 256 ∷ bytes_le n (v / 256)

-- The number in the first `n` bytes.
abbrev valor : ℕ → List ℕ → ℕ
valor zero b = 0
valor (suc n) [] = 0
valor (suc n) (x ∷ b) = x + 256 * valor n b

-- Fields one behind the other: the width of each in bytes, and its value.
abbrev Campos : Type 0
Campos = List (ℕ × ℕ)

abbrev poner_campos : Campos → List ℕ
poner_campos [] = []
poner_campos ((n, v) ∷ cs) = bytes_le n v ++ poner_campos cs

abbrev leer_campos : List ℕ → List ℕ → List ℕ
leer_campos [] b = []
leer_campos (n ∷ ns) b = valor n b ∷ leer_campos ns (drop n b)

abbrev anchos_de : Campos → List ℕ
anchos_de [] = []
anchos_de ((n, v) ∷ cs) = n ∷ anchos_de cs

abbrev valores_de : Campos → List ℕ
valores_de [] = []
valores_de ((n, v) ∷ cs) = v ∷ valores_de cs

abbrev Caben : Campos → Type 0
Caben [] = Unit {0}
Caben ((n, v) ∷ cs) = (v < 256 ^ n) × Caben cs

drop-bytes_le : (n v : ℕ) (r : List ℕ) → drop n (bytes_le n v ++ r) ≡ r
drop-bytes_le zero v r = refl
drop-bytes_le (suc n) v r = drop-bytes_le n (v / 256) r

valor-bytes_le : (n v : ℕ) (r : List ℕ) → v < 256 ^ n → valor n (bytes_le n v ++ r) ≡ v
valor-bytes_le zero v r h = omega (arith, h)
valor-bytes_le (suc n) v r h =
    let menor : v / 256 < 256 ^ n = omega (arith, h, pow-succ' 256 n, div-add-mod' v 256) in
    omega (arith, valor-bytes_le n (v / 256) r menor, div-add-mod' v 256)

leer_campos-poner_campos :
    (cs : Campos) (r : List ℕ)
    → Caben cs
    → leer_campos (anchos_de cs) (poner_campos cs ++ r) ≡ valores_de cs
leer_campos-poner_campos [] r h = refl
leer_campos-poner_campos ((n, v) ∷ cs) r (h, hs) =
    rw
      (
        append_assoc (bytes_le n v) (poner_campos cs) r,
        valor-bytes_le n v (poner_campos cs ++ r) h,
        drop-bytes_le n v (poner_campos cs ++ r),
        leer_campos-poner_campos cs r hs,
      )
      refl

length-bytes_le : (n v : ℕ) → length (bytes_le n v) ≡ n
length-bytes_le zero v = refl
length-bytes_le (suc n) v = ap suc (length-bytes_le n (v / 256))

bytes_le-Bytes : (n v : ℕ) → Bytes (bytes_le n v)
bytes_le-Bytes zero v = tt
bytes_le-Bytes (suc n) v = (omega arith, bytes_le-Bytes n (v / 256))

append-Bytes : (a b : List ℕ) → Bytes a → Bytes b → Bytes (a ++ b)
append-Bytes [] b h k = k
append-Bytes (x ∷ a) b (l, h) k = (l, append-Bytes a b h k)

poner_campos-Bytes : (cs : Campos) → Bytes (poner_campos cs)
poner_campos-Bytes [] = tt
poner_campos-Bytes ((n, v) ∷ cs) =
    append-Bytes (bytes_le n v) (poner_campos cs) (bytes_le-Bytes n v) (poner_campos-Bytes cs)

replicate-Bytes : (n : ℕ) → Bytes (replicate n 0)
replicate-Bytes zero = tt
replicate-Bytes (suc n) = (omega arith, replicate-Bytes n)

-- The fields of `inode_t` behind the path on a 64-bit machine: the pointer, the size, the type, three
-- times, the group, the owner, the permissions, and four bytes of padding.
abbrev campos : Inode → Campos
campos x =
    (8, 0)
    ∷ (4, x.size)
    ∷ (4, if is_file x.type then 0 else 1)
    ∷ (8, x.last_access)
    ∷ (8, x.last_modification)
    ∷ (8, x.creation_time)
    ∷ (4, x.group)
    ∷ (4, x.owner)
    ∷ (4, x.permissions)
    ∷ (4, 0)
    ∷ []

abbrev anchos : List ℕ
anchos = 8 ∷ 4 ∷ 4 ∷ 8 ∷ 8 ∷ 8 ∷ 4 ∷ 4 ∷ 4 ∷ 4 ∷ []

abbrev de_campos : Inode → List ℕ → List ℕ → Inode
de_campos viejo ruta (p ∷ size ∷ tipo ∷ la ∷ lm ∷ ct ∷ grupo ∷ dueno ∷ permisos ∷ relleno) =
    record {
      path = ruta;
      content = none;
      size = size;
      type = if tipo == 0 then InodeType.inode_file else InodeType.inode_dir;
      last_access = la;
      last_modification = lm;
      creation_time = ct;
      group = grupo;
      owner = dueno;
      permissions = permisos;
    }
de_campos viejo ruta valores = viejo

abbrev ruta_de : Inode → List ℕ
ruta_de x = x.path ++ replicate (256 - length x.path) 0

-- The layout in bytes, the lowest first: the path in 256 bytes, and the other fields.
abbrev plano : Formato
plano = record {
  sizeof_inode = 312;
  guardar = λ x. ruta_de x ++ poner_campos (campos x);
  cargar = λ viejo b. de_campos viejo (cstr (take 256 b)) (leer_campos anchos (drop 256 b));
  guardar_int = λ n. bytes_le 4 (cuantos n);
  cargar_int = λ b. pos (valor 4 b);
}

cstr-relleno : (l : List ℕ) (n : ℕ) → SinNul l → 0 < n → cstr (l ++ replicate n 0) ≡ l
cstr-relleno [] zero h p = ground (arith, p)
cstr-relleno [] (suc n) h p = refl
cstr-relleno (x ∷ l) n (hx, h) p = rw hx (ap (◌∷◌ x) (cstr-relleno l n h p))

tipo-vuelve :
    (t : InodeType)
    → (if (if is_file t then 0 else 1) == 0 then InodeType.inode_file else InodeType.inode_dir) ≡ t
tipo-vuelve InodeType.inode_file = refl
tipo-vuelve InodeType.inode_dir = refl

length-ruta_de : (x : Inode) → Guardable x → length (ruta_de x) ≡ 256
length-ruta_de x g = omega (
  arith,
  g.ruta_corta,
  length-append x.path (replicate (256 - length x.path) 0),
  length-replicate {A = ℕ} (256 - length x.path) 0,
)

campos-Caben : (x : Inode) → Guardable x → Caben (campos x)
campos-Caben x g = (omega arith, (omega (arith, g.size_int), (tipo_cabe x.type, tiempos)))
  where
    tipo_cabe : (t : InodeType) → (if is_file t then 0 else 1) < 256 ^ 4
    tipo_cabe InodeType.inode_file = omega arith
    tipo_cabe InodeType.inode_dir = omega arith

    duenos : Caben ((4, x.group) ∷ (4, x.owner) ∷ (4, x.permissions) ∷ (4, 0) ∷ [])
    duenos = (
      omega (arith, g.grupo),
      (omega (arith, g.usuario), (omega (arith, g.modo), (omega arith, tt))),
    )

    tiempos : Caben (
        (8, x.last_access)
        ∷ (8, x.last_modification)
        ∷ (8, x.creation_time)
        ∷ (4, x.group)
        ∷ (4, x.owner)
        ∷ (4, x.permissions)
        ∷ (4, 0)
        ∷ [])
    tiempos = (
      omega (arith, g.acceso),
      (omega (arith, g.modificacion), (omega (arith, g.creacion), duenos)),
    )

plano-vuelve :
    (viejo x : Inode)
    → Guardable x
    → plano.cargar viejo (plano.guardar x) ≡ record x { content = none }
plano-vuelve viejo x g =
    let largo = length-ruta_de x g in
    let C = poner_campos (campos x) in
    let cabeza : take 256 (ruta_de x ++ C) ≡ ruta_de x =
      subst (λ (n : ℕ). take n (ruta_de x ++ C) ≡ ruta_de x) largo (take-append (ruta_de x) C) in
    let cola : drop 256 (ruta_de x ++ C) ≡ C =
      subst (λ (n : ℕ). drop n (ruta_de x ++ C) ≡ C) largo (drop-append (ruta_de x) C) in
    let ruta : cstr (take 256 (ruta_de x ++ C)) ≡ x.path =
      ap cstr cabeza
      ∙ cstr-relleno x.path (256 - length x.path) g.ruta_texto (omega (arith, g.ruta_corta)) in
    let numeros : leer_campos anchos (drop 256 (ruta_de x ++ C)) ≡ valores_de (campos x) =
      ap (leer_campos anchos) (cola ∙ sym (append-nil C))
      ∙ leer_campos-poner_campos (campos x) [] (campos-Caben x g) in
    ap (λ l. de_campos viejo l (leer_campos anchos (drop 256 (ruta_de x ++ C)))) ruta
    ∙ ap (de_campos viejo x.path) numeros
    ∙ ap (λ t. record x { content = none; type = t }) (tipo-vuelve x.type)

plano-Fiel : Fiel plano
plano-Fiel = record {
  con_bytes = omega arith;
  largo =
      λ x g. omega (arith, length-ruta_de x g, length-append (ruta_de x) (poner_campos (campos x)));
  son_bytes = λ x g.
      append-Bytes (ruta_de x) (poner_campos (campos x))
        (append-Bytes x.path (replicate (256 - length x.path) 0) g.ruta_bytes
          (replicate-Bytes (256 - length x.path)))
        (poner_campos-Bytes (campos x));
  vuelve = plano-vuelve;
  int_largo = λ n h. refl;
  int_bytes = λ n h. bytes_le-Bytes 4 n;
  int_vuelve = λ n h.
      ap pos
        (ap (valor 4) (sym (append-nil (bytes_le 4 n))) ∙ valor-bytes_le 4 n [] (omega (arith, h)));
}

abbrev disco : Disco
disco = record { write = λ llamada n. some n; read_falla = λ llamada. false }

-- The tree of two inodes, read into a table whose slots hold the root's inode.
fisopfs_destroy-init_example :
    (fichero : List ℕ) × (r : Superblock) × (fisopfs_destroy plano disco arbol (some [])
      ≡ some (some fichero))
    × (fisopfs_init libc plano disco (record arbol { inode_bitmap = λ i. 0 }) (some fichero)
        ≡ some r)
    × Restaurado (record arbol { inode_bitmap = λ i. 0 }) (pos 2) (usados arbol 0 2) r
fisopfs_destroy-init_example =
    fisopfs_destroy-init libc plano disco arbol (record arbol { inode_bitmap = λ i. 0 }) [] 2
      (λ n. (replicate n 0, refl)) plano-Fiel (record { escribe = λ k n. refl; lee = λ k. refl })
      refl (omega arith)
      (
        record {
          ruta_corta = omega arith;
          ruta_texto = (refl, tt);
          ruta_bytes = (omega arith, tt);
          acceso = omega arith;
          modificacion = omega arith;
          creacion = omega arith;
          grupo = omega arith;
          usuario = omega arith;
          modo = omega arith;
          size_int = omega arith;
          bloque = b'a' ∷ b'\n' ∷ 0 ∷ [];
          hay_bloque = refl;
          bastante = omega arith;
        },
        (
          record {
            ruta_corta = omega arith;
            ruta_texto = (refl, (refl, tt));
            ruta_bytes = (omega arith, (omega arith, tt));
            acceso = omega arith;
            modificacion = omega arith;
            creacion = omega arith;
            grupo = omega arith;
            usuario = omega arith;
            modo = omega arith;
            size_int = omega arith;
            bloque = 1 ∷ 2 ∷ 3 ∷ 4 ∷ [];
            hay_bloque = refl;
            bastante = omega arith;
          },
          tt,
        ),
      )
