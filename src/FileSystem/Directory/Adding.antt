-- ===== src/FileSystem/Directory/Adding.antt =====
-- `add_dentry_to_content` on a directory as a list of names.
use features_operating_syste.Prelude.{
  ℕ, zero, suc, ◌+◌, ◌≤◌, ◌<◌, ◌≡◌, ◌≢◌, refl, sym, ◌∙◌, ap, none, some, List, [], ◌∷◌, ◌++◌,
  append_assoc, ltb, length, take, drop, length-append, arith, lt→ltb, le→ltb, ltb→lt, Bool-cases,
  inl, inr,
}
use features_operating_syste.FileSystem.Types.{
  Libc, cstr, memcpy_at, initial_content_length, copiar_en,
}
use features_operating_syste.FileSystem.Directory.{add_dentry_to_content}
use features_operating_syste.FileSystem.Directory.Names.{
  formato, IsNombre, Nombres, Guarda, cstr-Guarda,
}
use features_operating_syste.FileSystem.Content.Blocks.{Copiado, memcpy_at-Copiado}

-- The block of `size` counted bytes holds the names.
pub record Directorio (b : List ℕ) (size : ℕ) (es : List (List ℕ)) : Type 0 where
  pub guarda : Guarda b es
  pub ocupado : length (formato es) ≤ size
  pub cabe : size ≤ length b

abbrev linea : List ℕ → List ℕ
linea d = d ++ (b'\n' ∷ [])

formato-append :
    (es : List (List ℕ)) (d : List ℕ) → formato (es ++ (d ∷ [])) ≡ formato es ++ linea d
formato-append [] d = refl
formato-append (e ∷ es) d =
    ap (λ t. e ++ (b'\n' ∷ t)) (formato-append es d)
    ∙ sym (append_assoc e (b'\n' ∷ formato es) (linea d))

Nombres-append :
    (es : List (List ℕ)) (d : List ℕ) → Nombres es → IsNombre d → Nombres (es ++ (d ∷ []))
Nombres-append [] d v w = (w, tt)
Nombres-append (e ∷ es) d (v, vs) w = (v, Nombres-append es d vs w)

take-drop : (n : ℕ) (xs : List ℕ) → take n xs ++ drop n xs ≡ xs
take-drop zero xs = refl
take-drop (suc n) [] = refl
take-drop (suc n) (x ∷ xs) = ap (◌∷◌ x) (take-drop n xs)

take-append : (xs ys : List ℕ) → take (length xs) (xs ++ ys) ≡ xs
take-append [] ys = refl
take-append (x ∷ xs) ys = ap (◌∷◌ x) (take-append xs ys)

-- A block that begins with the names of a directory gets one more.
Guarda-Copiado :
    (b : List ℕ) (es : List (List ℕ)) (d : List ℕ)
    → Nombres es
    → IsNombre d
    → take (length (formato es)) b ≡ formato es
    → (m : Copiado b (length (formato es)) (linea d ++ (0 ∷ []))) → Guarda m.r (es ++ (d ∷ []))
Guarda-Copiado b es d v w t m =
    let k = length (formato es) + length (linea d ++ (0 ∷ [])) in
    record {
      resto = drop k m.r;
      texto =
          sym (take-drop k m.r)
          ∙ ap (λ x. x ++ drop k m.r)
              (m.hasta
                ∙ ap (λ x. x ++ (linea d ++ (0 ∷ []))) t
                ∙ sym (append_assoc (formato es) (linea d) (0 ∷ []))
                ∙ ap (λ x. x ++ (0 ∷ [])) (sym (formato-append es d)))
          ∙ append_assoc (formato (es ++ (d ∷ []))) (0 ∷ []) (drop k m.r);
      nombres = Nombres-append es d v w;
    }

length-linea : (d : List ℕ) → length (linea d ++ (0 ∷ [])) ≡ length d + 2
length-linea d = omega (arith, length-append (linea d) (0 ∷ []), length-append d (b'\n' ∷ []))

-- What an added name leaves.
abbrev pub Agregado : Libc → List ℕ → ℕ → List (List ℕ) → List ℕ → Type 0
Agregado c b size es d =
    (b' : List ℕ) × (size' : ℕ) × (add_dentry_to_content c b size d ≡ some (b', size'))
    × Directorio b' size' (es ++ (d ∷ []))

module _ (c : Libc) (b : List ℕ) (size : ℕ) (es : List (List ℕ)) (d : List ℕ)
    (g : Directorio b size es) (w : IsNombre d) where
  prefijo : take (length (formato es)) b ≡ formato es
  prefijo =
      ap (take (length (formato es))) (g.guarda.texto)
      ∙ take-append (formato es) (0 ∷ g.guarda.resto)

  usado : length (cstr b) ≡ length (formato es)
  usado = ap length (cstr-Guarda g.guarda)

  linea_larga : length (linea d) ≡ length d + 1
  linea_larga = length-append d (b'\n' ∷ [])

  total : length (formato (es ++ (d ∷ []))) ≡ length (formato es) + length d + 1
  total =
      omega
        (arith, ap length (formato-append es d), length-append (formato es) (linea d), linea_larga)

  escribe_dentro : length (formato es) + length d + 1 < size → Agregado c b size es d
  unfolding add_dentry_to_content
  escribe_dentro h =
      let m =
        memcpy_at-Copiado b (length (formato es)) (linea d ++ (0 ∷ []))
          (omega (arith, length-linea d, g.cabe, h)) in
      (
        m.r,
        size,
        rw
            (
              add_dentry_to_content,
              usado,
              linea_larga,
              le→ltb size (length (formato es) + (length d + 1)) (omega arith),
              m.paso,
            )
            refl,
        record {
          guarda = Guarda-Copiado b es d g.guarda.nombres w prefijo m;
          ocupado = omega (arith, total);
          cabe = omega (arith, m.largo, g.cabe);
        },
      )

  module _ (r : List ℕ)
      (e : c.realloc b (size + (length d + 1) + initial_content_length) ≡ some r) where
    escribe_fuera : size < length (formato es) + length d + 1 → Agregado c b size es d
    unfolding add_dentry_to_content
    escribe_fuera h =
        let nuevo = size + (length d + 1) + initial_content_length in
        let largo : length r ≡ size + (length d + 1) + 1024 = c.realloc_length b nuevo e in
        let cabe_b : length (formato es) < suc (length b) = omega (arith, g.ocupado, g.cabe) in
        let igual =
          c.realloc_keeps b nuevo e (length (formato es)) (omega (arith, g.ocupado)) cabe_b in
        let m =
          memcpy_at-Copiado r (length (formato es)) (linea d ++ (0 ∷ []))
            (omega (arith, length-linea d, g.ocupado, largo)) in
        (
          m.r,
          nuevo,
          rw
              (
                add_dentry_to_content,
                usado,
                linea_larga,
                lt→ltb size (length (formato es) + (length d + 1)) (omega arith),
                e,
                usado,
                m.paso,
                linea_larga,
              )
              refl,
          record {
            guarda = Guarda-Copiado r es d g.guarda.nombres w (igual ∙ prefijo) m;
            ocupado = omega (arith, total, g.ocupado);
            cabe = omega (arith, m.largo, largo);
          },
        )

-- Where a block holds the names `es` in `size` bytes, `d` is a name, the new text (without its NUL)
-- does not end exactly at `size`, and `realloc` gives a block, `add_dentry_to_content` stays inside
-- the block and leaves one that holds `es` and then `d`.
pub add_dentry_to_content-Agregado :
    (c : Libc) (b : List ℕ) (size : ℕ) (es : List (List ℕ)) (d : List ℕ) {r : List ℕ}
    → Directorio b size es
    → IsNombre d
    → length (formato es) + length d + 1 ≢ size
    → c.realloc b (size + (length d + 1) + initial_content_length) ≡ some r
    → Agregado c b size es d
add_dentry_to_content-Agregado c b size es d {r} g w ne e =
    elim (Bool-cases (ltb size (length (formato es) + length d + 1))) [
      | inl h ↦
          escribe_fuera c b size es d g w r e (ltb→lt size (length (formato es) + length d + 1) h)
      | inr h ↦ escribe_dentro c b size es d g w (ground arith)
    ]

memcpy_at_fuera :
    (b s : List ℕ) (n : ℕ) → n < length b → length b < n + length s → memcpy_at b n s ≡ none
unfolding memcpy_at
memcpy_at_fuera [] s n h k = ground arith
memcpy_at_fuera (x ∷ b) s zero h k = copia (x ∷ b) s (omega arith)
  where
    copia : (b s : List ℕ) → length b < length s → copiar_en s b ≡ none
    copia b [] h = ground arith
    copia [] (x ∷ s) h = refl
    copia (y ∷ b) (x ∷ s) h = rw (copia b s (omega arith)) refl
memcpy_at_fuera (x ∷ b) s (suc n) h k = rw (memcpy_at_fuera b s n (omega arith) (omega arith)) refl

-- Where the text with the new name (without its NUL) ends exactly at `size`, and the block is that
-- long, `add_dentry_to_content` writes outside the block.
pub add_dentry_to_content_desborda :
    (c : Libc) (b : List ℕ) (es : List (List ℕ)) (d : List ℕ)
    → Directorio b (length b) es
    → IsNombre d
    → length (formato es) + length d + 1 ≡ length b
    → add_dentry_to_content c b (length b) d ≡ none
unfolding add_dentry_to_content
add_dentry_to_content_desborda c b es d g w h =
    let no_cabe =
      memcpy_at_fuera b (linea d ++ (0 ∷ [])) (length (formato es)) (omega arith)
        (omega (arith, length-linea d)) in
    rw
      (
        add_dentry_to_content,
        usado c b (length b) es d g w,
        linea_larga c b (length b) es d g w,
        le→ltb (length b) (length (formato es) + (length d + 1)) (omega arith),
        no_cabe,
      )
      refl
