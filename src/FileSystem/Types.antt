-- ===== src/FileSystem/Types.antt =====
-- The data of file_system/fs.h, C strings and heap blocks, and what the C library gives the file
-- system. A block from `malloc` is the list of its bytes; a C string is the bytes before its NUL.
use features_operating_syste.Prelude.{
  ℕ, zero, suc, ◌<◌, ◌≡◌, Bool, true, false, ◌&&◌, Option, none, some, List, [], ◌∷◌, ◌==◌,
  if◌then◌else◌, length, take, replicate, ℤ, negsuc,
}

-- INODES_AMOUNT
abbrev pub inodes_amount : ℕ
inodes_amount = 1024

-- MAX_PATH
abbrev pub max_path : ℕ
max_path = 256

-- INITIAL_CONTENT_LENGTH
abbrev pub initial_content_length : ℕ
initial_content_length = 1024

pub data InodeType : Type 0 where
  inode_file inode_dir : InodeType

abbrev pub is_file : InodeType → Bool
is_file InodeType.inode_file = true
is_file InodeType.inode_dir = false

-- `inode_t`; `content` is NULL, or a block.
pub record Inode : Type 0 where
  pub path : List ℕ
  pub content : Option (List ℕ)
  pub size : ℕ  -- int
  pub type : InodeType
  pub last_access : ℕ
  pub last_modification : ℕ
  pub creation_time : ℕ
  pub group : ℕ
  pub owner : ℕ
  pub permissions : ℕ

-- `superblock_t`
pub record Superblock : Type 0 where
  pub inodes : ℕ → Inode
  pub inode_bitmap : ℕ → ℕ
  pub inode_amount : ℤ

-- The C library, for the time of one operation. `time` is by the number of the call; an allocation
-- may fail, and the bytes that `realloc` adds are whatever it found.
pub record Libc : Type 0 where
  pub calloc : ℕ → Option (List ℕ)
  pub realloc : List ℕ → ℕ → Option (List ℕ)
  pub time : ℕ → ℕ
  pub getgid : ℕ
  pub getuid : ℕ
  pub calloc_zeroed : (n : ℕ) {b : List ℕ} → calloc n ≡ some b → b ≡ replicate n 0
  pub realloc_length : (b : List ℕ) (n : ℕ) {r : List ℕ} → realloc b n ≡ some r → length r ≡ n
  pub realloc_keeps :
      (b : List ℕ) (n : ℕ) {r : List ℕ}
      → realloc b n ≡ some r
      → (k : ℕ) → k < suc n
      → k < suc (length b)
      → take k r ≡ take k b

-- `strcmp(s, t) == 0`
abbrev pub str_eq : List ℕ → List ℕ → Bool
str_eq [] [] = true
str_eq [] (y ∷ t) = false
str_eq (x ∷ s) [] = false
str_eq (x ∷ s) (y ∷ t) = (x == y) && str_eq s t

-- The C string that begins a block. A block with no NUL would be read on past its end.
abbrev pub cstr : List ℕ → List ℕ
cstr [] = []
cstr (x ∷ b) = if x == 0 then [] else x ∷ cstr b

-- The write of `bytes` at `offset` into a block; `none` if a byte falls outside.
abbrev pub copiar_en : List ℕ → List ℕ → Option (List ℕ)
copiar_en [] b = some b
copiar_en (x ∷ s) [] = none
copiar_en (x ∷ s) (y ∷ b) = elim (copiar_en s b) [ none ↦ none | some r ↦ some (x ∷ r) ]

unfoldable pub memcpy_at : List ℕ → ℕ → List ℕ → Option (List ℕ)
memcpy_at b zero s = copiar_en s b
memcpy_at [] (suc n) [] = some []
memcpy_at [] (suc n) (x ∷ s) = none
memcpy_at (x ∷ b) (suc n) s = elim (memcpy_at b n s) [ none ↦ none | some r ↦ some (x ∷ r) ]

-- Negative error numbers, as they are returned.
abbrev pub e_noent : ℤ
e_noent = negsuc 1

abbrev pub e_nomem : ℤ
e_nomem = negsuc 11

abbrev pub e_notdir : ℤ
e_notdir = negsuc 19

abbrev pub e_isdir : ℤ
e_isdir = negsuc 20

abbrev pub e_nospc : ℤ
e_nospc = negsuc 27

abbrev pub e_nametoolong : ℤ
e_nametoolong = negsuc 35

abbrev pub e_notempty : ℤ
e_notempty = negsuc 38
