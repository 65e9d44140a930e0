-- ===== src/FileSystem/Directory/Refine.antt =====
-- A directory as a list of names: what `fisopfs_readdir` hands out.
use features_operating_syste.Prelude.{
  ℕ, zero, suc, ◌+◌, ◌<◌, ◌≡◌, refl, ◌∙◌, ap, false, some, List, [], ◌∷◌, ◌++◌, append_assoc,
  length, drop, length-append, arith, pos, lt→ltb, le→ltb,
}
use features_operating_syste.FileSystem.Types.{cstr, is_file, Superblock}
use features_operating_syste.FileSystem.Directory.Names.{
  formato, Nombres, Cortos, Guarda, cstr-Guarda, get_next_entry-nombre,
}
use features_operating_syste.FileSystem.Operations.{listar_desde, fisopfs_readdir}
use features_operating_syste.FileSystem.Inodes.{search_inode}

-- From an offset with exactly `formato es` behind it, enough fuel lists `es`.
listar_desde-formato :
    (content : List ℕ) (fuel offset : ℕ) (es : List (List ℕ)) (r : List ℕ)
    → Nombres es
    → Cortos es
    → drop offset content ≡ formato es ++ (0 ∷ r)
    → length (cstr content) ≡ offset + length (formato es)
    → length (formato es) < fuel
    → listar_desde fuel content offset ≡ some es
unfolding listar_desde
listar_desde-formato content zero offset es r v c h l k = ground arith
listar_desde-formato content (suc fuel) offset [] r v c h l k =
    rw (le→ltb offset (length (cstr content)) (omega arith)) refl
listar_desde-formato content (suc fuel) offset (e ∷ es) r (v, vs) (c, cs) h l k =
    let corte : drop offset content ≡ e ++ (b'\n' ∷ (formato es ++ (0 ∷ r))) =
      h ∙ append_assoc e (b'\n' ∷ formato es) (0 ∷ r) in
    let largo : length (e ++ (b'\n' ∷ formato es)) ≡ length e + suc (length (formato es)) =
      length-append e (b'\n' ∷ formato es) in
    let paso = get_next_entry-nombre 1024 content offset [] e (formato es ++ (0 ∷ r)) v c corte in
    rw
      (
        paso.0,
        lt→ltb offset (length (cstr content)) (omega arith),
        listar_desde-formato content fuel (offset + length e + 1) es r vs cs (paso.1) (omega arith)
            (omega arith),
      )
      refl

-- For the path of a directory whose block holds the names `es`, each shorter than 1024 bytes,
-- `fisopfs_readdir` from offset 0 succeeds and hands out ".", ".." and exactly `es`, each once and in order.
pub fisopfs_readdir-Guarda :
    (s : Superblock) (path : List ℕ) {i : ℕ} {b : List ℕ} {es : List (List ℕ)}
    → search_inode s path ≡ some i
    → is_file (s.inodes i).type ≡ false
    → (s.inodes i).content ≡ some b
    → Guarda b es
    → Cortos es
    → fisopfs_readdir s path 0 ≡ some (pos 0, (b'.' ∷ []) ∷ (b'.' ∷ b'.' ∷ []) ∷ es)
unfolding fisopfs_readdir
fisopfs_readdir-Guarda s path {b = b} {es = es} h d t g cs =
    let l : length (cstr b) ≡ 0 + length (formato es) = omega (arith, ap length (cstr-Guarda g)) in
    rw
      (
        fisopfs_readdir,
        h,
        d,
        t,
        listar_desde-formato b (length (cstr b) + 1) 0 es g.resto g.nombres cs g.texto l
            (omega arith),
      )
      refl
