-- ===== src/FileSystem/Directory.antt =====
-- The contents of directories: `get_next_entry` and `add_dentry_to_content` of file_system/fs.c, and
-- the loop of `remove_inode` that copies all entries but one.
pub mod Names
pub mod Refine
pub mod Adding
use features_operating_syste.Prelude.{
  ℕ, zero, suc, ◌+◌, ◌-◌, Bool, true, false, not, ◌&&◌, ◌||◌, Option, none, some, List, [], ◌∷◌,
  ◌++◌, ltb, ◌==◌, if◌then◌else◌, length, drop, leb,
}
use features_operating_syste.FileSystem.Types.{
  Libc, cstr, str_eq, memcpy_at, initial_content_length,
}

-- The bytes up to a '\n' or a NUL.
abbrev pub hasta_sep : List ℕ → List ℕ
hasta_sep [] = []
hasta_sep (x ∷ b) = if (x == b'\n') || (x == 0) then [] else x ∷ hasta_sep b

-- `content[aux] == '\0' && i == 0` at the first byte.
abbrev pub en_fin : List ℕ → Bool
en_fin [] = true
en_fin (x ∷ b) = x == 0

-- The entry at `offset` and the offset behind it, for a `buff` of `size` bytes; at the end of the
-- string `buff` and the offset stay. `none` is a write behind the end of `buff`.
unfoldable pub get_next_entry : ℕ → List ℕ → ℕ → List ℕ → Option (List ℕ × ℕ)
get_next_entry size content offset buff =
    let r = drop offset content in
    if en_fin r
    then some (buff, offset)
    else if ltb size (length (hasta_sep r) + 1)
    then none
    else some (hasta_sep r, offset + length (hasta_sep r) + 1)

-- `add_dentry_to_content` puts the '\n' and a NUL into the caller's `dentry`, which is then a byte
-- longer than the string that it was: whether an array of `size` bytes has room for this.
unfoldable pub cabe_dentry : ℕ → List ℕ → Bool
cabe_dentry size dentry = leb (length dentry + 2) size

-- The block and the size that are left. `none` is a write outside the block. A failed `realloc`
-- leaves both as they were. What is written is the block; for the caller's own array, see
-- `cabe_dentry`.
unfoldable pub add_dentry_to_content : Libc → List ℕ → ℕ → List ℕ → Option (List ℕ × ℕ)
add_dentry_to_content c content content_size dentry =
    let linea = dentry ++ (b'\n' ∷ []) in
    let dentry_size = length linea in
    let content_length = length (cstr content) in
    let new_size = content_size + dentry_size + initial_content_length in
    if ltb content_size (content_length + dentry_size)
    then elim (c.realloc content new_size) [
      | none ↦ some (content, content_size)
      | some b ↦ elim (memcpy_at b content_length (linea ++ (0 ∷ []))) [
        | none ↦ none
        | some r ↦ some (r, new_size)
      ]
    ]
    else elim (memcpy_at content content_length (linea ++ (0 ∷ []))) [
      | none ↦ none
      | some r ↦ some (r, content_size)
    ]

-- The loop of `remove_inode` over the parent's content from `offset`; the fuel is the number of
-- bytes left and one more, since every round moves on by a byte at least. `buff` has `MAX_PATH + 1`
-- bytes; an entry without room in it is `none`.
unfoldable pub copiar_entradas : ℕ → Libc → List ℕ → List ℕ → ℕ → List ℕ → ℕ → Option (List ℕ × ℕ)
copiar_entradas zero c content dir_entry offset new_content new_size = none
copiar_entradas (suc fuel) c content dir_entry offset new_content new_size =
    let ronda : Option (List ℕ × ℕ) = elim (get_next_entry 257 content offset []) [
      | none ↦ none
      | some (buff, siguiente) ↦
          let sin_ella = copiar_entradas fuel c content dir_entry siguiente new_content new_size in
          let con_ella : Option (List ℕ × ℕ) =
            elim (add_dentry_to_content c new_content new_size buff) [
              | none ↦ none
              | some (b, n) ↦ copiar_entradas fuel c content dir_entry siguiente b n
            ] in
          if str_eq buff dir_entry
          then sin_ella
          else if cabe_dentry 257 buff
          then con_ella
          else none
    ] in
    if ltb offset (length (cstr content)) then ronda else some (new_content, new_size)
