-- ===== src/FileSystem/Reading.antt =====
-- What `fisopfs_read` gives for a file as a sequence of bytes, and after `fisopfs_write`.
use features_operating_syste.Prelude.{
  ℕ, ◌+◌, ◌-◌, ◌%◌, ◌^◌, ◌≤◌, ◌<◌, ◌≡◌, refl, sym, ◌∙◌, ap, true, false, none, some, List, ltb, leb,
  ◌==◌, length, take, drop, pos, arith, lt→ltb, le→ltb, ltb→lt, ==→eq, ==→ne, subst, Bool-cases,
  inl, inr,
}
use features_operating_syste.FileSystem.Types.{Inode, Superblock, Libc, is_file}
use features_operating_syste.FileSystem.Inodes.{search_inode, con_inode}
use features_operating_syste.FileSystem.Operations.{
  bloque, tamano_leido, leer_bloque, fisopfs_read, fisopfs_write,
}
use features_operating_syste.FileSystem.Lookup.{search_inode-igual}
use features_operating_syste.FileSystem.Content.{datos, Cabe, Escrito, fisopfs_write-Escrito}
use features_operating_syste.FileSystem.Content.Blocks.{
  drop-rellenar, take-take, length-take, take-all, drop-take, length-drop,
}

tamano_corto :
    (n size offset : ℕ)
    → offset ≤ n
    → n < 2 ^ 64
    → n < offset + size
    → offset + size < 2 ^ 64
    → tamano_leido n size offset ≡ n - offset
tamano_corto n size offset h k l m =
    let a : (offset + size) % 2 ^ 64 ≡ offset + size = omega arith in
    let b : (2 ^ 64 + n - offset) % 2 ^ 64 ≡ n - offset = omega arith in
    rw (a, lt→ltb n (offset + size) l) b

tamano_entero :
    (n size offset : ℕ) → offset + size ≤ n → n < 2 ^ 64 → tamano_leido n size offset ≡ size
tamano_entero n size offset h k =
    let a : (offset + size) % 2 ^ 64 ≡ offset + size = omega arith in
    rw (a, le→ltb n (offset + size) h) refl

-- The bytes that a read of `size` at `offset` gives.
abbrev pub leidos : Inode → ℕ → ℕ → List ℕ
leidos f offset size = take size (drop offset (datos f))

leer_bloque-leidos :
    (f : Inode) (size offset : ℕ)
    → Cabe f
    → offset ≤ f.size
    → f.size < 2 ^ 64
    → offset + size < 2 ^ 64
    → (leer_bloque (bloque f) offset (tamano_leido f.size size offset)
        ≡ some (leidos f offset size))
      × (tamano_leido f.size size offset ≡ length (leidos f offset size))
leer_bloque-leidos f size offset k o n l = elim (Bool-cases (ltb f.size (offset + size))) [
  | inl e ↦
      let paso = tamano_corto f.size size offset o n (ltb→lt f.size (offset + size) e) l in
      let fin : leb (offset + (f.size - offset)) (length (bloque f)) ≡ true = ground arith in
      let todo : leidos f offset size ≡ take (f.size - offset) (drop offset (bloque f)) =
        ap (take size) (drop-take offset f.size (bloque f) o)
        ∙ take-all size (take (f.size - offset) (drop offset (bloque f)))
            (omega (arith, largo_resto, ltb→lt f.size (offset + size) e)) in
      (
        ap (leer_bloque (bloque f) offset) paso ∙ rw fin (ap some (sym todo)),
        paso ∙ sym largo_resto ∙ ap length (sym todo),
      )
  | inr e ↦
      let dentro : offset + size ≤ f.size = ground arith in
      let paso = tamano_entero f.size size offset dentro n in
      let fin : leb (offset + size) (length (bloque f)) ≡ true = ground arith in
      let todo : leidos f offset size ≡ take size (drop offset (bloque f)) =
        ap (take size) (drop-take offset f.size (bloque f) o)
        ∙ take-take size (f.size - offset) (drop offset (bloque f)) (omega arith) in
      let cabe : size ≤ length (drop offset (bloque f)) =
        omega (arith, length-drop offset (bloque f) (omega arith)) in
      (
        ap (leer_bloque (bloque f) offset) paso ∙ rw fin (ap some (sym todo)),
        paso ∙ sym (length-take size (drop offset (bloque f)) cabe) ∙ ap length (sym todo),
      )
]
  where
    largo_resto : length (take (f.size - offset) (drop offset (bloque f))) ≡ f.size - offset
    largo_resto =
        length-take (f.size - offset) (drop offset (bloque f))
          (omega (arith, length-drop offset (bloque f) (omega arith)))

-- Where the path is a file whose bytes fit into its block, and the offset is not behind the end of
-- the file, whose size fits an `int`, `fisopfs_read` gives the bytes of the file from the offset, at most
-- `size`, with their number, and changes nothing but the access time.
pub fisopfs_read-leidos :
    (c : Libc) (s : Superblock) (path : List ℕ) (size offset : ℕ) {i : ℕ}
    → search_inode s path ≡ some i
    → is_file (s.inodes i).type ≡ true
    → Cabe (s.inodes i)
    → offset ≤ (s.inodes i).size
    → (s.inodes i).size < 2 ^ 31
    → offset + size < 2 ^ 64
    → fisopfs_read c s path size offset
      ≡ some (
        pos (length (leidos (s.inodes i) offset size)),
        leidos (s.inodes i) offset size,
        con_inode s i (record (s.inodes i) { last_access = c.time 0 }),
      )
unfolding fisopfs_read
fisopfs_read-leidos c s path size offset {i} h t k o n l =
    let (a, b) = leer_bloque-leidos (s.inodes i) size offset k o (omega arith) l in
    rw (fisopfs_read, h, t, a, b) refl

-- The write leaves the paths and the slots in use as they were.
search_inode-Escrito :
    (c : Libc) (s s' : Superblock) (path : List ℕ) (i offset : ℕ) (buffer : List ℕ)
    → Escrito c s s' i offset buffer
    → search_inode s' path ≡ search_inode s path
search_inode-Escrito c s s' path i offset buffer w = search_inode-igual s' s path w.mapa caminos
  where
    caminos : (j : ℕ) → (s'.inodes j).path ≡ (s.inodes j).path
    caminos j = elim (Bool-cases (j == i)) [
      | inl e ↦ subst (λ k. (s'.inodes k).path ≡ (s.inodes k).path) (sym (==→eq j i e)) w.igual_path
      | inr e ↦ ap (λ f. f.path) (w.otros j (==→ne j i e))
    ]

-- Where `fisopfs_write` has a file whose bytes fit into its block, memory, and an end that fits an `int`, a
-- `fisopfs_read` of as many bytes at the same offset gives back the buffer.
pub fisopfs_read-fisopfs_write :
    (c c' : Libc) (s : Superblock) (path buffer : List ℕ) (offset : ℕ) {i : ℕ} {r : List ℕ}
    → search_inode s path ≡ some i
    → is_file (s.inodes i).type ≡ true
    → Cabe (s.inodes i)
    → c.realloc (bloque (s.inodes i)) (offset + length buffer) ≡ some r
    → offset + length buffer < 2 ^ 31
    → (s' : Superblock) × (s'' : Superblock) × (fisopfs_write c s path buffer offset
        ≡ some (pos (length buffer), s'))
      × (fisopfs_read c' s' path (length buffer) offset ≡ some (pos (length buffer), buffer, s''))
fisopfs_read-fisopfs_write c c' s path buffer offset {i} h t k e l =
    let (s', escrito, w) = fisopfs_write-Escrito c s path buffer offset h t k e l in
    let mismos : leidos (s'.inodes i) offset (length buffer) ≡ buffer =
      ap (λ d. take (length buffer) (drop offset d)) w.bytes
      ∙ ap (take (length buffer)) (drop-rellenar offset (datos (s.inodes i)) buffer)
      ∙ take-all (length buffer) buffer (omega arith) in
    let leido =
      fisopfs_read-leidos c' s' path (length buffer) offset
        (search_inode-Escrito c s s' path i offset buffer w ∙ h) (ap is_file w.igual_tipo ∙ t)
        w.cabe (omega (arith, w.tamano)) (omega (arith, w.tamano)) (omega arith) in
    let s'' = con_inode s' i (record (s'.inodes i) { last_access = c'.time 0 }) in
    (s', s'', escrito, leido ∙ ap (λ d. some (pos (length d), d, s'')) mismos)

tamano_pasado :
    (n size offset : ℕ)
    → n < offset
    → offset + size < 2 ^ 64
    → tamano_leido n size offset ≡ 2 ^ 64 + n - offset
tamano_pasado n size offset h l =
    let a : (offset + size) % 2 ^ 64 ≡ offset + size = omega arith in
    let b : (2 ^ 64 + n - offset) % 2 ^ 64 ≡ 2 ^ 64 + n - offset = omega arith in
    rw (a, lt→ltb n (offset + size) (omega arith)) b

leer_bloque_pasado :
    (f : Inode) (size offset : ℕ)
    → f.size < offset
    → offset + size < 2 ^ 64
    → length (bloque f) < 2 ^ 64
    → leer_bloque (bloque f) offset (tamano_leido f.size size offset) ≡ none
leer_bloque_pasado f size offset h l b =
    let fuera : leb (offset + (2 ^ 64 + f.size - offset)) (length (bloque f)) ≡ false =
      ground arith in
    ap (leer_bloque (bloque f) offset) (tamano_pasado f.size size offset h l) ∙ rw fuera refl

-- Where the offset is behind the end of a file (sizes below 2^64), `fisopfs_read` reads outside the
-- block, whatever `size` it is asked for.
pub fisopfs_read_pasado :
    (c : Libc) (s : Superblock) (path : List ℕ) (size offset : ℕ) {i : ℕ}
    → search_inode s path ≡ some i
    → is_file (s.inodes i).type ≡ true
    → (s.inodes i).size < offset
    → offset + size < 2 ^ 64
    → length (bloque (s.inodes i)) < 2 ^ 64
    → fisopfs_read c s path size offset ≡ none
unfolding fisopfs_read
fisopfs_read_pasado c s path size offset {i} h t o l b =
    rw (fisopfs_read, h, t, leer_bloque_pasado (s.inodes i) size offset o l b) refl
