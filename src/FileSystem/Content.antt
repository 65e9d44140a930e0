-- ===== src/FileSystem/Content.antt =====
-- Files as sequences of bytes: what `fisopfs_write`, `fisopfs_read` and `fisopfs_truncate` do to the
-- first `size` bytes of a block.
pub mod Blocks
use features_operating_syste.Prelude.{
  ℕ, zero, suc, ◌+◌, ◌-◌, ◌%◌, ◌^◌, ◌≤◌, ◌<◌, ◌≡◌, refl, sym, ◌∙◌, ap, Bool, true, false, not,
  Option, none, some, List, [], ◌∷◌, ◌++◌, append-nil, ltb, leb, ◌==◌, if◌then◌else◌, update,
  length, take, drop, replicate, ℤ, pos, arith, lt→ltb, le→ltb, ltb→lt, ==_refl, ne→==, ◌≢◌,
  length-replicate, Bool-cases, inl, inr,
}
use features_operating_syste.FileSystem.Types.{Inode, Superblock, Libc, is_file, memcpy_at}
use features_operating_syste.FileSystem.Inodes.{search_inode, con_inode}
use features_operating_syste.FileSystem.Operations.{
  bloque, u64, tamano_leido, leer_bloque, fisopfs_read, ampliar, fisopfs_write,
}
use features_operating_syste.FileSystem.Content.Blocks.{
  rellenar, rellenar-take, rellenar-replicate, Copiado, memcpy_at-Copiado, take-take, length-take,
}

-- The bytes of a file.
abbrev pub datos : Inode → List ℕ
datos f = take f.size (bloque f)

-- The block is at least as long as the file.
abbrev pub Cabe : Inode → Type 0
Cabe f = f.size ≤ length (bloque f)

-- The block that `ampliar` leaves for `size` bytes at `offset`.
pub record Ampliado (c : Libc) (f : Inode) (offset size : ℕ) : Type 0 where
  pub b : List ℕ
  pub paso : ampliar c f offset size ≡ some (some b)
  pub cabe : offset + size ≤ length b
  pub antes : take offset b ≡ rellenar offset (datos f)

module _ (c : Libc) (f : Inode) (offset size : ℕ) (k : Cabe f) where
  amplia_nada : ltb f.size (offset + size) ≡ false → Ampliado c f offset size
  unfolding ampliar
  amplia_nada e = record {
    b = bloque f;
    paso = rw e refl;
    cabe = ground arith;
    antes = sym (rellenar-take offset f.size (bloque f) (ground arith) k);
  }

  module _ (r : List ℕ) (h : c.realloc (bloque f) (offset + size) ≡ some r)
      (crece : ltb f.size (offset + size) ≡ true) where
    amplia_junto : ltb f.size offset ≡ false → Ampliado c f offset size
    unfolding ampliar
    amplia_junto e =
        let largo : length r ≡ offset + size = c.realloc_length (bloque f) (offset + size) h in
        let dentro : offset ≤ f.size = ground arith in
        record {
          b = r;
          paso = rw (crece, h, e) refl;
          cabe = omega arith;
          antes =
              c.realloc_keeps (bloque f) (offset + size) h offset (omega arith) (omega arith)
              ∙ sym (rellenar-take offset f.size (bloque f) dentro k);
        }

    amplia_hueco : ltb f.size offset ≡ true → Ampliado c f offset size
    unfolding ampliar
    amplia_hueco e =
        let largo : length r ≡ offset + size = c.realloc_length (bloque f) (offset + size) h in
        let fuera : f.size < offset = ltb→lt f.size offset e in
        let ceros : length (replicate {A = ℕ} (offset - f.size) 0) ≡ offset - f.size =
          length-replicate {A = ℕ} (offset - f.size) 0 in
        let m = memcpy_at-Copiado r f.size (replicate {A = ℕ} (offset - f.size) 0) (omega arith) in
        let hasta : f.size + length (replicate {A = ℕ} (offset - f.size) 0) ≡ offset =
          omega arith in
        let igual : take f.size r ≡ datos f =
          c.realloc_keeps (bloque f) (offset + size) h f.size (omega arith) (omega arith) in
        record {
          b = m.r;
          paso = rw (crece, h, e, m.paso) refl;
          cabe = omega (arith, m.largo);
          antes =
              ap (λ n. take n m.r) (sym hasta)
              ∙ m.hasta
              ∙ ap (λ t. t ++ replicate (offset - f.size) 0) igual
              ∙ sym (rellenar-replicate offset f.size (bloque f) (omega arith) k);
        }

  ampliar-Ampliado :
      (r : List ℕ) → c.realloc (bloque f) (offset + size) ≡ some r → Ampliado c f offset size
  ampliar-Ampliado r h = elim (Bool-cases (ltb f.size (offset + size))) [
    | inl crece ↦ elim (Bool-cases (ltb f.size offset)) [
      | inl e ↦ amplia_hueco r h crece e
      | inr e ↦ amplia_junto r h crece e
    ]
    | inr e ↦ amplia_nada e
  ]

-- What a write to the file `f` leaves: the bytes before the offset, with zeros for those behind the
-- old end, then the buffer, which ends the file.
pub record Escrito (c : Libc) (s s' : Superblock) (i : ℕ) (offset : ℕ) (buffer : List ℕ)
    : Type 0 where
  pub bytes : datos (s'.inodes i) ≡ rellenar offset (datos (s.inodes i)) ++ buffer
  pub tamano : (s'.inodes i).size ≡ offset + length buffer
  pub cabe : Cabe (s'.inodes i)
  pub igual_tipo : (s'.inodes i).type ≡ (s.inodes i).type
  pub igual_path : (s'.inodes i).path ≡ (s.inodes i).path
  pub otros : (j : ℕ) → j ≢ i → s'.inodes j ≡ s.inodes j
  pub mapa : s'.inode_bitmap ≡ s.inode_bitmap
  pub fecha : (s'.inodes i).last_modification ≡ c.time 0

-- Where the path is a file whose bytes fit into its block, `realloc` gives a block, and the new end
-- fits an `int`, `fisopfs_write` returns the length of the buffer and leaves `Escrito`.
pub fisopfs_write-Escrito :
    (c : Libc) (s : Superblock) (path buffer : List ℕ) (offset : ℕ) {i : ℕ} {r : List ℕ}
    → search_inode s path ≡ some i
    → is_file (s.inodes i).type ≡ true
    → Cabe (s.inodes i)
    → c.realloc (bloque (s.inodes i)) (offset + length buffer) ≡ some r
    → offset + length buffer < 2 ^ 31
    → (s' : Superblock) × (fisopfs_write c s path buffer offset ≡ some (pos (length buffer), s'))
      × Escrito c s s' i offset buffer
unfolding fisopfs_write
fisopfs_write-Escrito c s path buffer offset {i} {r} h t k e l =
    let a = ampliar-Ampliado c (s.inodes i) offset (length buffer) k r e in
    let m = memcpy_at-Copiado a.b offset buffer a.cabe in
    let mismo = ==_refl i in
    (
      con_inode s i (record (s.inodes i) {
        content = some m.r;
        size = offset + length buffer;
        last_modification = c.time 0;
      }),
      rw (fisopfs_write, h, t, a.paso, m.paso) refl,
      record {
        bytes = rw mismo (m.hasta ∙ ap (λ p. p ++ buffer) a.antes);
        tamano = rw mismo refl;
        cabe = rw mismo (omega (arith, m.largo, a.cabe));
        igual_tipo = rw mismo refl;
        igual_path = rw mismo refl;
        otros = λ j ne. rw (ne→== j i ne) refl;
        mapa = refl;
        fecha = rw mismo refl;
      },
    )
