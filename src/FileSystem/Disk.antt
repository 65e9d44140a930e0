-- ===== src/FileSystem/Disk.antt =====
-- `serialize` and `deserialize` of file_system/fs.c, and what `fisopfs_init` and `fisopfs_destroy` of
-- file_system/fisopfs.c do with them. The disk file is the list of its bytes.
pub mod Layout
pub mod Image
pub mod Reload
use features_operating_syste.Prelude.{
  ℕ, zero, suc, ◌+◌, ◌≤◌, ◌<◌, ◌≡◌, Bool, true, false, not, ◌&&◌, ◌||◌, Option, none, some, List,
  [], ◌∷◌, ◌++◌, ltb, leb, ◌==◌, if◌then◌else◌, update, length, take, drop, ℤ, pos, negsuc,
}
use features_operating_syste.FileSystem.Types.{inodes_amount, Inode, Superblock, Libc, memcpy_at}
use features_operating_syste.FileSystem.Inodes.{con_inode}
use features_operating_syste.FileSystem.Operations.{raiz_nueva}

-- How the compiler lays out an `int` and an `inode_t`: the bytes of a value, and the value that a variable
-- has when its first bytes are replaced (an `int` that was 0). A pointer that is read back leads nowhere.
pub record Formato : Type 0 where
  pub sizeof_inode : ℕ
  pub guardar : Inode → List ℕ
  pub cargar : Inode → List ℕ → Inode
  pub guardar_int : ℤ → List ℕ
  pub cargar_int : List ℕ → ℤ

-- How the system answers to the `n`-th `write` and the `n`-th `read` of a run: how many bytes are
-- written, and whether a read fails. A read that does not fail gives what is asked for, up to the end.
pub record Disco : Type 0 where
  pub write : ℕ → ℕ → Option ℕ
  pub read_falla : ℕ → Bool

-- Whether the write fails, and the file.
abbrev pub escrito : List ℕ → List ℕ → Option ℕ → Bool × List ℕ
escrito fichero bytes none = (true, fichero)
escrito fichero bytes (some k) = (false, fichero ++ take k bytes)

abbrev pub escribir : Disco → ℕ → List ℕ → List ℕ → Bool × List ℕ
escribir d llamada fichero bytes = escrito fichero bytes (d.write llamada (length bytes))

-- `write(fp, inode->content, inode->size)`; `none` is a read behind the block. NULL is refused.
unfoldable pub escribir_contenido : Disco → ℕ → List ℕ → Inode → Option (Bool × List ℕ)
escribir_contenido d llamada fichero f = elim f.content [
  | none ↦ some (not (f.size == 0), fichero)
  | some b ↦
      if ltb (length b) f.size then none else some (escribir d llamada fichero (take f.size b))
]

-- The loop of `serialize` at slot `i`, with `n` slots left: whether there was an error, and the file.
unfoldable pub serializar_desde :
    Formato → Disco → Superblock → ℕ → ℕ → ℕ → List ℕ → Option (Bool × List ℕ)
unfolding escribir_contenido
serializar_desde f d s i zero llamada fichero = some (false, fichero)
serializar_desde f d s i (suc n) llamada fichero =
    let (e1, f1) = escribir d llamada fichero (f.guardar (s.inodes i)) in
    let usado = s.inode_bitmap i == 1 in
    elim (if usado
      then escribir_contenido d (llamada + 1) f1 (s.inodes i)
      else some (false, fichero)) [
        | none ↦ none
        | some (e2, f2) ↦
            let resto =
              serializar_desde f d s (i + 1) n (if usado then llamada + 2 else llamada) f2 in
            if leb inodes_amount i
            then none
            else if usado && (e1 || e2)
            then some (true, f2)
            else resto
      ]

abbrev pub cuantos : ℤ → ℕ
cuantos (pos n) = n
cuantos (negsuc n) = 0

-- The contents that `serialize` frees.
abbrev pub liberado : Superblock → Superblock
liberado s = record s {
  inodes = λ i.
      let f = s.inodes i in
      if ltb i (cuantos s.inode_amount) && (s.inode_bitmap i == 1)
      then record f { content = none }
      else f;
}

-- The file, which is empty at first, and the superblock; `none` is an access outside an array.
unfoldable pub serialize : Formato → Disco → Superblock → Option (List ℕ × Superblock)
unfolding serializar_desde
serialize f d s =
    let (e, cabeza) = escribir d 0 [] (f.guardar_int s.inode_amount) in
    elim (serializar_desde f d s 0 (cuantos s.inode_amount) 1 cabeza) [
      | none ↦ if e then some (cabeza, s) else none
      | some (error, fichero) ↦
          if e then some (cabeza, s) else some (fichero, if error then s else liberado s)
    ]

-- How the loop of `deserialize` ends: whether with an error, and at which slot.
abbrev pub Carga : Type 0
Carga = Option (Bool × ℕ × Superblock)

abbrev pub es_vacia : List ℕ → Bool
es_vacia [] = true
es_vacia (x ∷ l) = false

-- The content of the inode that was read into slot `i`, with what follows.
unfoldable pub cargar_contenido :
    Libc → Disco → ℕ → Superblock → ℕ → Inode → List ℕ → (Superblock → List ℕ → Carga) → Carga
cargar_contenido c d llamada s i f resto sigue = elim (c.calloc f.size) [
  | none ↦ some (true, i, con_inode s i (record f { content = none }))
  | some b ↦
      if d.read_falla llamada
      then some (true, i, con_inode s i (record f { content = some b }))
      else elim (memcpy_at b 0 (take f.size resto)) [
        | none ↦ none
        | some b' ↦
            let s' = con_inode s i (record f { content = some b' }) in
            sigue (record s' { inode_bitmap = update s.inode_bitmap i 1 }) (drop f.size resto)
      ]
]

-- The loop of `deserialize` at slot `i`, with `n` inodes left.
unfoldable pub deserializar_desde : Libc → Formato → Disco → ℕ → ℕ → ℕ → Superblock → List ℕ → Carga
unfolding cargar_contenido
deserializar_desde c f d i zero llamada s fichero = some (false, i, s)
deserializar_desde c f d i (suc n) llamada s fichero =
    let bytes = take f.sizeof_inode fichero in
    let leido =
      cargar_contenido c d (llamada + 1) s i (f.cargar (s.inodes i) bytes)
        (drop f.sizeof_inode fichero)
        (λ s' resto. deserializar_desde c f d (i + 1) n (llamada + 2) s' resto) in
    if leb inodes_amount i
    then none
    else if d.read_falla llamada
    then some (true, i, s)
    else if es_vacia bytes
    then some (false, i, s)
    else leido

-- What an error leaves: the contents that were read are freed, and the count is 0.
abbrev pub carga_fallida : ℕ → Superblock → Superblock
carga_fallida i s = record s {
  inodes = λ j. let f = s.inodes j in if ltb j i then record f { content = none } else f;
  inode_amount = pos 0;
}

unfoldable pub deserialize : Libc → Formato → Disco → Superblock → List ℕ → Option Superblock
unfolding deserializar_desde
deserialize c f d s fichero =
    let amount = f.cargar_int (take 4 fichero) in
    let s1 = record s { inode_amount = amount } in
    if d.read_falla 0
    then some s
    else elim (deserializar_desde c f d 0 (cuantos amount) 1 s1 (drop 4 fichero)) [
      | none ↦ none
      | some (error, i, s2) ↦ some (if error then carga_fallida i s2 else s2)
    ]

-- `fisopfs_init`: without a file there is a new root directory, and the file is made, empty.
unfoldable pub fisopfs_init :
    Libc → Formato → Disco → Superblock → Option (List ℕ) → Option Superblock
unfolding deserialize
fisopfs_init c f d s none = let (r, s') = raiz_nueva c s in some s'
fisopfs_init c f d s (some fichero) = deserialize c f d s fichero

-- `fisopfs_destroy`, with the disk file; it is not made if it is not there.
unfoldable pub fisopfs_destroy :
    Formato → Disco → Superblock → Option (List ℕ) → Option (Option (List ℕ))
unfolding serialize
fisopfs_destroy f d s none = some none
fisopfs_destroy f d s (some viejo) = elim (serialize f d s) [
  | none ↦ none
  | some (fichero, s') ↦ some (some fichero)
]
