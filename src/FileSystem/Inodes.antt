-- ===== src/FileSystem/Inodes.antt =====
-- The inode table of file_system/fs.c.
use features_operating_syste.Prelude.{
  ℕ, zero, suc, ◌+◌, Bool, not, ◌&&◌, Option, none, some, List, [], ◌∷◌, leb, ◌==◌, if◌then◌else◌,
  update, length, take, drop, ℤ, pos, negsuc,
}
use features_operating_syste.FileSystem.Types.{
  inodes_amount, max_path, initial_content_length, InodeType, Inode, Superblock, Libc, str_eq, cstr,
  e_nomem, e_notdir, e_nospc, e_nametoolong, is_file,
}
use features_operating_syste.FileSystem.Directory.{add_dentry_to_content, copiar_entradas}

-- The loop test of `search_inode` fails: the slot is in use and carries the path.
abbrev pub ocupa : Superblock → List ℕ → ℕ → Bool
ocupa s path i = not (s.inode_bitmap i == 0) && str_eq (s.inodes i).path path

unfoldable pub search_inode_desde : Superblock → List ℕ → ℕ → ℕ → Option ℕ
search_inode_desde s path i zero = none
search_inode_desde s path i (suc n) =
    let resto = search_inode_desde s path (i + 1) n in if ocupa s path i then some i else resto

-- `none` is ERROR.
unfoldable pub search_inode : Superblock → List ℕ → Option ℕ
unfolding search_inode_desde
search_inode s path = search_inode_desde s path 0 inodes_amount

unfoldable pub search_free_desde : Superblock → ℕ → ℕ → Option ℕ
search_free_desde s i zero = none
search_free_desde s i (suc n) =
    let resto = search_free_desde s (i + 1) n in if s.inode_bitmap i == 0 then some i else resto

unfoldable pub search_free_inode : Superblock → Option ℕ
unfolding search_free_desde
search_free_inode s = search_free_desde s 0 inodes_amount

abbrev pub mas_uno : ℤ → ℤ
mas_uno (pos n) = pos (n + 1)
mas_uno (negsuc zero) = pos 0
mas_uno (negsuc (suc n)) = negsuc n

abbrev pub menos_uno : ℤ → ℤ
menos_uno (pos zero) = negsuc 0
menos_uno (pos (suc n)) = pos n
menos_uno (negsuc n) = negsuc (suc n)

abbrev pub con_inode : Superblock → ℕ → Inode → Superblock
con_inode s i f = record s { inodes = update s.inodes i f }

-- The inode that `create_inode` fills in; `content[0] = '\0'` writes a byte that `calloc` cleared.
abbrev pub inode_nuevo : Libc → List ℕ → ℕ → InodeType → List ℕ → Inode
inode_nuevo c path mode type block = record {
  path = path;
  content = some block;
  size = 0;
  type = type;
  last_access = c.time 0;
  last_modification = c.time 1;
  creation_time = c.time 2;
  group = c.getgid;
  owner = c.getuid;
  permissions = mode;
}

-- The index of the new inode or an error, with the superblock. Without memory the slot has the path
-- and NULL already, and stays free.
unfoldable pub create_inode : Libc → Superblock → List ℕ → ℕ → InodeType → ℤ × Superblock
unfolding search_free_inode
create_inode c s path mode type =
    if leb max_path (length path) then (e_nametoolong, s) else elim (search_free_inode s) [
      | none ↦ (e_nospc, s)
      | some i ↦
          let viejo = s.inodes i in
          elim (c.calloc initial_content_length) [
            | none ↦ (e_nomem, con_inode s i (record viejo { path = path; content = none }))
            | some block ↦ (
              pos i,
              record s {
                inodes = update s.inodes i (inode_nuevo c path mode type block);
                inode_bitmap = update s.inode_bitmap i 1;
                inode_amount = mas_uno s.inode_amount;
              },
            )
          ]
    ]

-- `strrchr(s, '/') - s`
abbrev pub ultima_barra : List ℕ → Option ℕ
ultima_barra [] = none
ultima_barra (x ∷ s) = elim (ultima_barra s) [
  | none ↦ if x == b'/' then some 0 else none
  | some n ↦ some (n + 1)
]

-- The path of the parent directory, from the last slash; the root has none.
unfoldable pub ruta_del_padre : List ℕ → ℕ → List ℕ
ruta_del_padre path barra = take (if barra == 0 then 1 else barra) path

-- The parent's index; `some none` is NULL with -ENOENT, and `none` the arithmetic on a NULL slash.
unfoldable pub get_parent : Superblock → List ℕ → Option (Option ℕ)
unfolding search_inode ruta_del_padre
get_parent s path = if length path == 1 then some none else elim (ultima_barra path) [
  | none ↦ none
  | some barra ↦ some (search_inode s (ruta_del_padre path barra))
]

-- The name behind the last slash.
unfoldable pub nombre : List ℕ → Option (List ℕ)
nombre path = elim (ultima_barra path) [ none ↦ none | some n ↦ some (drop (n + 1) path) ]

-- `add_dentry_to_content(&inode->content, &inode->size, dentry)`
unfoldable pub agregar_a : Libc → Superblock → ℕ → List ℕ → Option Superblock
agregar_a c s i dentry =
    let f = s.inodes i in
    elim f.content [
      | none ↦ none
      | some b ↦ elim (add_dentry_to_content c b f.size dentry) [
        | none ↦ none
        | some (b', n) ↦ some (con_inode s i (record f { content = some b'; size = n }))
      ]
    ]

-- Without a parent the result is `-ERROR`, which is 1.
unfoldable pub add_dentry_to_parent_dir : Libc → Superblock → List ℕ → Option (ℤ × Superblock)
unfolding get_parent nombre agregar_a
add_dentry_to_parent_dir c s path = elim (get_parent s path) [
  | none ↦ none
  | some none ↦ some (pos 1, s)
  | some (some i) ↦ if is_file (s.inodes i).type then some (e_notdir, s) else elim (nombre path) [
    | none ↦ none
    | some dentry ↦ elim (agregar_a c s i dentry) [ none ↦ none | some s' ↦ some (pos 0, s') ]
  ]
]

-- The part of `remove_inode` behind its checks: the parent `i` keeps all entries but `dir_entry`.
unfoldable pub quitar_de : Libc → Superblock → ℕ → List ℕ → List ℕ → Option Superblock
quitar_de c s i dir_entry new_content =
    let f = s.inodes i in
    elim f.content [
      | none ↦ none
      | some b ↦ elim (copiar_entradas (length (cstr b) + 1) c b dir_entry 0 new_content f.size) [
        | none ↦ none
        | some (b', n) ↦ some (record s {
          inodes = update s.inodes i (record f { content = some b'; size = n });
          inode_amount = menos_uno s.inode_amount;
        })
      ]
    ]

-- The slot is freed first; without a parent, a name or memory the rest is skipped. (The block of a
-- removed inode is freed and not read again.)
unfoldable pub remove_inode : Libc → Superblock → List ℕ → ℕ → Option Superblock
unfolding get_parent nombre quitar_de
remove_inode c s0 path inode_index =
    let s = record s0 { inode_bitmap = update s0.inode_bitmap inode_index 0 } in
    elim (get_parent s path) [
      | none ↦ none
      | some none ↦ some s
      | some (some i) ↦ elim (nombre path) [
        | none ↦ some s
        | some dir_entry ↦ elim (c.calloc (s.inodes i).size) [
          | none ↦ some s
          | some new_content ↦ quitar_de c s i dir_entry new_content
        ]
      ]
    ]
