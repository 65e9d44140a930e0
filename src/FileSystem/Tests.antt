-- ===== src/FileSystem/Tests.antt =====
-- Runs of the file system's operations on a small tree.
use features_operating_syste.Prelude.{
  ℕ, ◌+◌, ◌≡◌, refl, ap, sym, ◌∙◌, none, some, List, [], ◌∷◌, if◌then◌else◌, ◌==◌, length, take,
  replicate, pos, arith, ltb,
}
use features_operating_syste.FileSystem.Types.{InodeType, Inode, Superblock, Libc}
use features_operating_syste.FileSystem.Inodes.{search_inode, search_free_inode, ruta_del_padre}
use features_operating_syste.FileSystem.Directory.{add_dentry_to_content}
use features_operating_syste.FileSystem.Directory.Refine.{fisopfs_readdir-Guarda}
use features_operating_syste.FileSystem.Directory.Adding.{
  Directorio, Agregado, add_dentry_to_content-Agregado, add_dentry_to_content_desborda,
}
use features_operating_syste.FileSystem.Operations.{
  fisopfs_readdir, fisopfs_read, crear, fisopfs_write,
}
use features_operating_syste.FileSystem.Content.{Escrito, fisopfs_write-Escrito}
use features_operating_syste.FileSystem.Content.Blocks.{rellenar, length-rellenar, take-rellenar}
use features_operating_syste.FileSystem.Reading.{fisopfs_read_pasado, fisopfs_read-fisopfs_write}
use features_operating_syste.FileSystem.Making.{crear_huerfano, fisopfs_readdir-crear}

pub some-inj : {a b : List ℕ} → some a ≡ some b → a ≡ b
some-inj {a} h = ap (λ o. elim o [ none ↦ a | some x ↦ x ]) h

-- A C library that always has memory, and fills what `realloc` adds with zeros.
abbrev pub libc : Libc
libc = record {
  calloc = λ n. some (replicate n 0);
  realloc = λ b n. some (rellenar n b);
  time = λ n. 100 + n;
  getgid = 7;
  getuid = 8;
  calloc_zeroed = λ n h. sym (some-inj h);
  realloc_length = λ b n h. ap length (sym (some-inj h)) ∙ length-rellenar n b;
  realloc_keeps = λ b n h k l m.
      ap (take k) (sym (some-inj h)) ∙ take-rellenar k n b (omega arith) (omega arith);
}

abbrev pub inode_de : List ℕ → InodeType → List ℕ → Inode
inode_de path type content = record {
  path = path;
  content = some content;
  size = 3;
  type = type;
  last_access = 0;
  last_modification = 0;
  creation_time = 0;
  group = 0;
  owner = 0;
  permissions = 0;
}

-- The root directory with the entry `a`, and the file "/a" of three bytes.
abbrev pub arbol : Superblock
arbol = record {
  inodes = λ i.
      if i == 0
      then inode_de (b'/' ∷ []) InodeType.inode_dir (b'a' ∷ b'\n' ∷ 0 ∷ [])
      else inode_de (b'/' ∷ b'a' ∷ []) InodeType.inode_file (1 ∷ 2 ∷ 3 ∷ 4 ∷ []);
  inode_bitmap = λ i. if ltb i 2 then 1 else 0;
  inode_amount = pos 2;
}

raiz_Directorio : Directorio (b'a' ∷ b'\n' ∷ 0 ∷ []) 3 ((b'a' ∷ []) ∷ [])
raiz_Directorio = record {
  guarda = record { resto = []; texto = refl; nombres = ((refl, refl, tt), tt) };
  ocupado = omega arith;
  cabe = omega arith;
}

raiz_hallada : search_inode arbol (b'/' ∷ []) ≡ some 0
unfolding search_inode
raiz_hallada = refl

a_hallado : search_inode arbol (b'/' ∷ b'a' ∷ []) ≡ some 1
unfolding search_inode
a_hallado = refl

b_ausente : search_inode arbol (b'/' ∷ b'b' ∷ []) ≡ none
unfolding search_inode
b_ausente = refl

dos_libre : search_free_inode arbol ≡ some 2
unfolding search_free_inode
dos_libre = refl

fisopfs_readdir-crear_example :
    (s : Superblock) × (crear InodeType.inode_file libc arbol (b'/' ∷ b'b' ∷ []) 0o644
      ≡ some (pos 0, s))
    × (fisopfs_readdir s (b'/' ∷ []) 0
        ≡ some (pos 0, (b'.' ∷ []) ∷ (b'.' ∷ b'.' ∷ []) ∷ (b'a' ∷ []) ∷ (b'b' ∷ []) ∷ []))
unfolding ruta_del_padre
fisopfs_readdir-crear_example =
    fisopfs_readdir-crear InodeType.inode_file libc arbol (b'/' ∷ b'b' ∷ []) 0o644 (omega arith)
      (omega arith) b_ausente dos_libre refl refl raiz_hallada refl refl raiz_Directorio
      (refl, refl, tt) (omega arith, tt) (omega arith) refl

fisopfs_write-Escrito_example :
    (s : Superblock) × (fisopfs_write libc arbol (b'/' ∷ b'a' ∷ []) (8 ∷ 9 ∷ []) 5
      ≡ some (pos 2, s))
    × Escrito libc arbol s 1 5 (8 ∷ 9 ∷ [])
fisopfs_write-Escrito_example =
    fisopfs_write-Escrito libc arbol (b'/' ∷ b'a' ∷ []) (8 ∷ 9 ∷ []) 5 a_hallado refl (omega arith)
      refl (omega arith)

fisopfs_read-fisopfs_write_example :
    (s : Superblock) × (s' : Superblock) × (fisopfs_write libc arbol
        (b'/' ∷ b'a' ∷ [])
        (8 ∷ 9 ∷ [])
        5
      ≡ some (pos 2, s))
    × (fisopfs_read libc s (b'/' ∷ b'a' ∷ []) 2 5 ≡ some (pos 2, 8 ∷ 9 ∷ [], s'))
fisopfs_read-fisopfs_write_example =
    fisopfs_read-fisopfs_write libc libc arbol (b'/' ∷ b'a' ∷ []) (8 ∷ 9 ∷ []) 5 a_hallado refl
      (omega arith) refl (omega arith)

add_dentry_to_content-Agregado_example :
    Agregado libc (b'a' ∷ b'\n' ∷ 0 ∷ []) 3 ((b'a' ∷ []) ∷ []) (b'b' ∷ [])
add_dentry_to_content-Agregado_example =
    add_dentry_to_content-Agregado libc (b'a' ∷ b'\n' ∷ 0 ∷ []) 3 ((b'a' ∷ []) ∷ []) (b'b' ∷ [])
      raiz_Directorio (refl, refl, tt) (omega arith) refl

-- Four bytes that hold `a`, and that a second name of one byte would fill without its NUL.
justo_Directorio : Directorio (b'a' ∷ b'\n' ∷ 0 ∷ 0 ∷ []) 4 ((b'a' ∷ []) ∷ [])
justo_Directorio = record {
  guarda = record { resto = 0 ∷ []; texto = refl; nombres = ((refl, refl, tt), tt) };
  ocupado = omega arith;
  cabe = omega arith;
}

add_dentry_to_content_desborda_example :
    add_dentry_to_content libc (b'a' ∷ b'\n' ∷ 0 ∷ 0 ∷ []) 4 (b'b' ∷ []) ≡ none
add_dentry_to_content_desborda_example =
    add_dentry_to_content_desborda libc (b'a' ∷ b'\n' ∷ 0 ∷ 0 ∷ []) ((b'a' ∷ []) ∷ []) (b'b' ∷ [])
      justo_Directorio (refl, refl, tt) refl

fisopfs_readdir-Guarda_example :
    fisopfs_readdir arbol (b'/' ∷ []) 0
    ≡ some (pos 0, (b'.' ∷ []) ∷ (b'.' ∷ b'.' ∷ []) ∷ (b'a' ∷ []) ∷ [])
fisopfs_readdir-Guarda_example =
    fisopfs_readdir-Guarda arbol (b'/' ∷ []) raiz_hallada refl refl raiz_Directorio.guarda
      (omega arith, tt)

-- "/c/b", whose parent is not there.
abbrev suelto : List ℕ
suelto = b'/' ∷ b'c' ∷ b'/' ∷ b'b' ∷ []

suelto_ausente : search_inode arbol suelto ≡ none
unfolding search_inode
suelto_ausente = refl

padre_ausente : search_inode arbol (ruta_del_padre suelto 2) ≡ none
unfolding search_inode ruta_del_padre
padre_ausente = refl

crear_huerfano_example :
    (s : Superblock) × (crear InodeType.inode_dir libc arbol suelto 0o755 ≡ some (pos 0, s))
    × (search_inode s suelto ≡ some 2)
unfolding ruta_del_padre
crear_huerfano_example =
    crear_huerfano InodeType.inode_dir libc arbol suelto 0o755 (omega arith) (omega arith)
      suelto_ausente dos_libre refl refl padre_ausente refl

fisopfs_read_pasado_example : fisopfs_read libc arbol (b'/' ∷ b'a' ∷ []) 1 4 ≡ none
fisopfs_read_pasado_example =
    fisopfs_read_pasado libc arbol (b'/' ∷ b'a' ∷ []) 1 4 a_hallado refl (omega arith) (omega arith)
      (omega arith)
