-- ===== src/FileSystem/Disk/Layout.antt =====
-- What `serialize` of file_system/fs.c writes, and what `deserialize` makes of it: the layout that the
-- round trip asks for, and the inodes that come back.
use features_operating_syste.Prelude.{
  ℕ, zero, suc, ◌+◌, ◌^◌, ◌≤◌, ◌<◌, ◌≡◌, false, none, some, List, [], ◌∷◌, ◌++◌, ◌==◌,
  if◌then◌else◌, update, length, take, pos,
}
use features_operating_syste.FileSystem.Types.{Inode, Superblock, Libc}
use features_operating_syste.FileSystem.Disk.{Formato, Disco}

abbrev pub SinNul : List ℕ → Type 0
SinNul [] = Unit {0}
SinNul (x ∷ l) = ((x == 0) ≡ false) × SinNul l

-- Every cell is a byte.
abbrev pub Bytes : List ℕ → Type 0
Bytes [] = Unit {0}
Bytes (x ∷ l) = (x < 256) × Bytes l

-- An inode whose values fit the fields of an `inode_t`, with a block of `size` bytes at least.
pub record Guardable (x : Inode) : Type 0 where
  pub ruta_corta : length x.path < 256
  pub ruta_texto : SinNul x.path
  pub ruta_bytes : Bytes x.path
  pub acceso : x.last_access < 2 ^ 63
  pub modificacion : x.last_modification < 2 ^ 63
  pub creacion : x.creation_time < 2 ^ 63
  pub grupo : x.group < 2 ^ 32
  pub usuario : x.owner < 2 ^ 32
  pub modo : x.permissions < 2 ^ 32
  pub size_int : x.size < 2 ^ 31
  pub bloque : List ℕ
  pub hay_bloque : x.content ≡ some bloque
  pub bastante : x.size ≤ length bloque

-- A layout in bytes from which the values come back, up to the pointer.
pub record Fiel (f : Formato) : Type 0 where
  pub con_bytes : 0 < f.sizeof_inode
  pub largo : (x : Inode) → Guardable x → length (f.guardar x) ≡ f.sizeof_inode
  pub son_bytes : (x : Inode) → Guardable x → Bytes (f.guardar x)
  pub vuelve :
      (viejo x : Inode) → Guardable x → f.cargar viejo (f.guardar x) ≡ record x { content = none }
  pub int_largo : (n : ℕ) → n ≤ 1024 → length (f.guardar_int (pos n)) ≡ 4
  pub int_bytes : (n : ℕ) → n ≤ 1024 → Bytes (f.guardar_int (pos n))
  pub int_vuelve : (n : ℕ) → n ≤ 1024 → f.cargar_int (f.guardar_int (pos n)) ≡ pos n

-- Every call succeeds, and every write is whole.
pub record SinFallos (d : Disco) : Type 0 where
  pub escribe : (k n : ℕ) → d.write k n ≡ some n
  pub lee : (k : ℕ) → d.read_falla k ≡ false

-- The inodes in use from slot `i` on, of `n` slots.
abbrev pub usados : Superblock → ℕ → ℕ → List Inode
usados s i zero = []
usados s i (suc n) =
    let resto = usados s (i + 1) n in if s.inode_bitmap i == 1 then s.inodes i ∷ resto else resto

abbrev pub Todos : (Inode → Type 0) → List Inode → Type 0
Todos P [] = Unit {0}
Todos P (x ∷ xs) = P x × Todos P xs

-- The content up to the size.
abbrev pub datos : Inode → List ℕ
datos x = elim x.content [ none ↦ [] | some b ↦ take x.size b ]

abbrev pub imagen : Formato → List Inode → List ℕ
imagen f [] = []
imagen f (x ∷ xs) = f.guardar x ++ (datos x ++ imagen f xs)

-- An inode whose block ends with its size.
abbrev pub recortado : Inode → Inode
recortado x = record x { content = some (datos x) }

abbrev pub puesto : Superblock → ℕ → Inode → Superblock
puesto s i x = record s {
  inodes = update s.inodes i (recortado x);
  inode_bitmap = update s.inode_bitmap i 1;
}

-- The inodes in the slots from `i` on.
abbrev pub poner : Superblock → ℕ → List Inode → Superblock
poner s i [] = s
poner s i (x ∷ xs) = poner (puesto s i x) (i + 1) xs

-- Every `calloc` succeeds.
abbrev pub Generoso : Libc → Type 0
Generoso c = (n : ℕ) → (b : List ℕ) × (c.calloc n ≡ some b)
