-- ===== src/FileSystem/Operations.antt =====
-- The FUSE operations of file_system/fisopfs.c. `none` is an access outside a block.
use features_operating_syste.Prelude.{
  ℕ, zero, suc, ◌+◌, ◌-◌, ◌%◌, ◌^◌, not, Option, none, some, List, [], ◌∷◌, ◌++◌, ltb, leb, ◌==◌,
  if◌then◌else◌, length, take, drop, replicate, ℤ, pos, negsuc,
}
use features_operating_syste.FileSystem.Types.{
  InodeType, Inode, Superblock, Libc, is_file, cstr, memcpy_at, initial_content_length, e_noent,
  e_nomem, e_notdir, e_isdir, e_notempty,
}
use features_operating_syste.FileSystem.Directory.{get_next_entry}
use features_operating_syste.FileSystem.Inodes.{
  search_inode, create_inode, add_dentry_to_parent_dir, remove_inode, con_inode,
}

-- `struct stat`, the fields that are set.
pub record Stat : Type 0 where
  pub st_nlink : ℕ
  pub st_uid : ℕ
  pub st_gid : ℕ
  pub st_size : ℕ
  pub st_atime : ℕ
  pub st_mtime : ℕ
  pub st_ctime : ℕ
  pub st_mode : ℕ

-- The path up to its first '\n'.
abbrev pub hasta_nl : List ℕ → List ℕ
hasta_nl [] = []
hasta_nl (x ∷ s) = if x == b'\n' then [] else x ∷ hasta_nl s

abbrev pub stat_de : Inode → Stat
stat_de f = record {
  st_nlink = if is_file f.type then 1 else 2;
  st_uid = f.owner;
  st_gid = f.group;
  st_size = f.size;
  st_atime = f.last_access;
  st_mtime = f.last_modification;
  st_ctime = f.creation_time;
  st_mode = if is_file f.type then 0o100644 else 0o40755;
}

-- `strcpy` into `path_copy[MAX_PATH]` wants a path below that length.
unfoldable pub fisopfs_getattr : Superblock → List ℕ → Option (ℤ × Option Stat)
fisopfs_getattr s path =
    if leb 256 (length path) then none else elim (search_inode s (hasta_nl path)) [
      | none ↦ some (e_noent, none)
      | some i ↦ some (pos 0, some (stat_de (s.inodes i)))
    ]

-- The entries that the loop of `fisopfs_readdir` hands to `filler`, from `offset`. `none` is an
-- entry that does not fit into `char buff[1024]`, or no fuel left.
unfoldable pub listar_desde : ℕ → List ℕ → ℕ → Option (List (List ℕ))
unfolding get_next_entry
listar_desde zero content offset = none
listar_desde (suc fuel) content offset =
    let ronda : Option (List (List ℕ)) = elim (get_next_entry 1024 content offset []) [
      | none ↦ none
      | some (buff, siguiente) ↦ elim (listar_desde fuel content siguiente) [
        | none ↦ none
        | some es ↦ some (buff ∷ es)
      ]
    ] in
    if ltb offset (length (cstr content)) then ronda else some []

-- The result with the names handed to `filler`. The new access time goes into a copy of the inode,
-- so the superblock stays.
unfoldable pub fisopfs_readdir : Superblock → List ℕ → ℕ → Option (ℤ × List (List ℕ))
unfolding listar_desde
fisopfs_readdir s path offset =
    let punto = b'.' ∷ [] in
    let puntos = punto ∷ (b'.' ∷ punto) ∷ [] in
    elim (search_inode s path) [
      | none ↦ some (e_noent, puntos)
      | some i ↦
          if is_file (s.inodes i).type then some (e_notdir, puntos) else elim (s.inodes i).content [
            | none ↦ none
            | some b ↦ elim (listar_desde (length (cstr b) + 1) b offset) [
              | none ↦ none
              | some es ↦ some (pos 0, puntos ++ es)
            ]
          ]
    ]

-- NULL is a block of no bytes.
abbrev pub bloque : Inode → List ℕ
bloque f = elim f.content [ none ↦ [] | some b ↦ b ]

-- `size_t` is 64 bits wide.
abbrev pub u64 : ℕ → ℕ
u64 n = n % 2 ^ 64

-- The size after the two adjustments; the second changes no unsigned number.
abbrev pub tamano_leido : ℕ → ℕ → ℕ → ℕ
tamano_leido file_size size offset =
    if ltb file_size (u64 (offset + size)) then u64 (2 ^ 64 + file_size - offset) else size

-- `memcpy(buffer, content + offset, size)`
abbrev pub leer_bloque : List ℕ → ℕ → ℕ → Option (List ℕ)
leer_bloque b offset size =
    if leb (offset + size) (length b) then some (take size (drop offset b)) else none

-- The number of bytes, the bytes and the superblock. The number is exact where it fits an `int`.
unfoldable pub fisopfs_read : Libc → Superblock → List ℕ → ℕ → ℕ → Option (ℤ × List ℕ × Superblock)
fisopfs_read c s path size offset = elim (search_inode s path) [
  | none ↦ some (e_noent, [], s)
  | some i ↦
      let f = s.inodes i in
      if not (is_file f.type)
      then some (e_isdir, [], s)
      else let n = tamano_leido f.size size offset in
        elim (leer_bloque (bloque f) offset n) [
          | none ↦ none
          | some bytes ↦ some (pos n, bytes, con_inode s i (record f { last_access = c.time 0 }))
        ]
]

unfoldable pub fisopfs_unlink : Libc → Superblock → List ℕ → Option (ℤ × Superblock)
fisopfs_unlink c s path = elim (search_inode s path) [
  | none ↦ some (e_noent, s)
  | some i ↦
      if not (is_file (s.inodes i).type)
      then some (e_isdir, s)
      else elim (remove_inode c s path i) [ none ↦ none | some s' ↦ some (pos 0, s') ]
]

abbrev pub si_no_error : ℤ × Superblock → ℤ × Superblock
si_no_error (pos r, s) = (pos 0, s)
si_no_error (negsuc r, s) = (negsuc r, s)

-- What `fisopfs_mkdir` and `fisopfs_create` do with the result of `create_inode`.
abbrev pub anotar_creado : Libc → List ℕ → ℤ × Superblock → Option (ℤ × Superblock)
anotar_creado c path (negsuc r, s) = some (negsuc r, s)
anotar_creado c path (pos r, s) = elim (add_dentry_to_parent_dir c s path) [
  | none ↦ none
  | some rs ↦ some (si_no_error rs)
]

-- The common body of `fisopfs_mkdir` and `fisopfs_create`.
unfoldable pub crear : InodeType → Libc → Superblock → List ℕ → ℕ → Option (ℤ × Superblock)
crear type c s path mode = anotar_creado c path (create_inode c s path mode type)

unfoldable pub fisopfs_mkdir : Libc → Superblock → List ℕ → ℕ → Option (ℤ × Superblock)
unfolding crear
fisopfs_mkdir = crear InodeType.inode_dir

unfoldable pub fisopfs_create : Libc → Superblock → List ℕ → ℕ → Option (ℤ × Superblock)
unfolding crear
fisopfs_create = crear InodeType.inode_file

unfoldable pub fisopfs_utimens : Superblock → List ℕ → ℕ → ℕ → ℤ × Superblock
fisopfs_utimens s path atime mtime = elim (search_inode s path) [
  | none ↦ (e_noent, s)
  | some i ↦
      let f = s.inodes i in
      (pos 0, con_inode s i (record f { last_access = atime; last_modification = mtime }))
]

unfoldable pub fisopfs_rmdir : Libc → Superblock → List ℕ → Option (ℤ × Superblock)
fisopfs_rmdir c s path = elim (search_inode s path) [
  | none ↦ some (e_noent, s)
  | some i ↦ if is_file (s.inodes i).type then some (e_notdir, s) else elim (s.inodes i).content [
    | none ↦ none
    | some b ↦
        if ltb 0 (length (cstr b))
        then some (e_notempty, s)
        else elim (remove_inode c s path i) [ none ↦ none | some s' ↦ some (pos 0, s') ]
  ]
]

-- The block after `realloc` and `memset`; `some none` is a failed `realloc`.
unfoldable pub ampliar : Libc → Inode → ℕ → ℕ → Option (Option (List ℕ))
ampliar c f offset size =
    if ltb f.size (offset + size)
    then elim (c.realloc (bloque f) (offset + size)) [
      | none ↦ some none
      | some b ↦
          if ltb f.size offset
          then elim (memcpy_at b f.size (replicate (offset - f.size) 0)) [
            | none ↦ none
            | some b' ↦ some (some b')
          ]
          else some (some b)
    ]
    else some (some (bloque f))

-- The new size is exact where it fits an `int`.
unfoldable pub fisopfs_write : Libc → Superblock → List ℕ → List ℕ → ℕ → Option (ℤ × Superblock)
unfolding ampliar
fisopfs_write c s path buffer offset = elim (search_inode s path) [
  | none ↦ some (e_noent, s)
  | some i ↦
      let f = s.inodes i in
      if not (is_file f.type)
      then some (e_isdir, s)
      else elim (ampliar c f offset (length buffer)) [
        | none ↦ none
        | some none ↦ some (e_nomem, s)
        | some (some b) ↦ elim (memcpy_at b offset buffer) [
          | none ↦ none
          | some b' ↦ some (
            pos (length buffer),
            con_inode s i (record f {
              content = some b';
              size = offset + length buffer;
              last_modification = c.time 0;
            }),
          )
        ]
      ]
]

-- A `size` of 0 gives the file a fresh block and the length of that block.
unfoldable pub fisopfs_truncate : Libc → Superblock → List ℕ → ℕ → Option (ℤ × Superblock)
fisopfs_truncate c s path size = elim (search_inode s path) [
  | none ↦ some (e_noent, s)
  | some i ↦
      let f = s.inodes i in
      if not (is_file f.type)
      then some (e_isdir, s)
      else if size == 0
      then some (
        pos 0,
        con_inode s i (record f {
          content = c.calloc initial_content_length;
          size = initial_content_length;
          last_modification = c.time 0;
        }),
      )
      else elim (c.realloc (bloque f) size) [
        | none ↦ some (e_nomem, con_inode s i (record f { content = none }))
        | some b ↦ elim (if ltb size f.size then memcpy_at b size (0 ∷ []) else some b) [
          | none ↦ none
          | some b' ↦ some (
            pos 0,
            con_inode s i
                (record f { content = some b'; size = size; last_modification = c.time 0 }),
          )
        ]
      ]
]

-- The root directory that `fisopfs_init` makes when there is no file to load.
unfoldable pub raiz_nueva : Libc → Superblock → ℤ × Superblock
raiz_nueva c s = create_inode c s (b'/' ∷ []) 0o40755 InodeType.inode_dir
