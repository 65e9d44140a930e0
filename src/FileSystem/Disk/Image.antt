-- ===== src/FileSystem/Disk/Image.antt =====
-- The loops of `serialize` and `deserialize` of file_system/fs.c, over the image of a list of inodes.
use features_operating_syste.Prelude.{
  ℕ, zero, suc, ◌+◌, ◌≤◌, ◌<◌, ◌≡◌, refl, ap, subst, Bool, false, none, some, List, [], ◌∷◌, ◌++◌,
  append_assoc, append-nil, ltb, leb, ◌==◌, if◌then◌else◌, length, take, drop, length-replicate,
  take-length, take-append, drop-append, length-take, arith, Bool-cases, inl, inr,
}
use features_operating_syste.FileSystem.Types.{
  inodes_amount, Inode, Superblock, Libc, memcpy_at, copiar_en,
}
use features_operating_syste.FileSystem.Disk.{
  Formato, Disco, escribir, escribir_contenido, serializar_desde, Carga, es_vacia, cargar_contenido,
  deserializar_desde,
}
use features_operating_syste.FileSystem.Disk.Layout.{
  Guardable, Fiel, SinFallos, usados, Todos, datos, imagen, puesto, poner, Generoso,
}

pub escribir-entero :
    (d : Disco) (k : ℕ) (fichero bytes : List ℕ)
    → SinFallos d
    → escribir d k fichero bytes ≡ (false, fichero ++ bytes)
escribir-entero d k fichero bytes v = rw (v.escribe k (length bytes), take-length bytes) refl

pub escribir_contenido-entero :
    (d : Disco) (k : ℕ) (fichero : List ℕ) (x : Inode)
    → SinFallos d
    → Guardable x
    → escribir_contenido d k fichero x ≡ some (false, fichero ++ datos x)
unfolding escribir_contenido
escribir_contenido-entero d k fichero x v g =
    let cabe : ltb (length g.bloque) x.size ≡ false = ground (arith, g.bastante) in
    rw (escribir_contenido, g.hay_bloque, cabe)
      (ap some (escribir-entero d k fichero (take x.size g.bloque) v))

pub serializar_desde-imagen :
    (f : Formato) (d : Disco) (s : Superblock) (i n llamada : ℕ) (fichero : List ℕ)
    → SinFallos d
    → i + n ≤ 1024
    → Todos Guardable (usados s i n)
    → serializar_desde f d s i n llamada fichero ≡ some (false, fichero ++ imagen f (usados s i n))
unfolding serializar_desde
serializar_desde-imagen f d s i zero llamada fichero v h g = rw (append-nil fichero) refl
serializar_desde-imagen f d s i (suc n) llamada fichero v h g =
    let x = s.inodes i in
    let resto = usados s (i + 1) n in
    let dentro : leb inodes_amount i ≡ false = ground (arith, h) in
    elim (Bool-cases (s.inode_bitmap i == 1)) [
      | inl e ↦
          let (gx, gs) =
            subst (λ (b : Bool). Todos Guardable (if b then x ∷ resto else resto)) e g in
          let cab = escribir-entero d llamada fichero (f.guardar x) v in
          let f1 : List ℕ = (escribir d llamada fichero (f.guardar x)).1 in
          rw
            (
              serializar_desde,
              e,
              escribir_contenido-entero d (llamada + 1) f1 x v gx,
              dentro,
              ap (λ (p : Bool × List ℕ). p.0) cab,
              e,
              serializar_desde-imagen f d s (i + 1) n (llamada + 2) (f1 ++ datos x) v
                  (omega (arith, h)) gs,
              ap (λ (p : Bool × List ℕ). p.1) cab,
            )
            (ap (λ (l : List ℕ). some (false, l))
              (cc (
                append_assoc (fichero ++ f.guardar x) (datos x) (imagen f resto),
                append_assoc fichero (f.guardar x) (datos x ++ imagen f resto),
              )))
      | inr e ↦
          let gs = subst (λ (b : Bool). Todos Guardable (if b then x ∷ resto else resto)) e g in
          rw (serializar_desde, e, dentro, e)
            (serializar_desde-imagen f d s (i + 1) n llamada fichero v (omega (arith, h)) gs)
    ]

copiar_en-entero : (l b : List ℕ) → length b ≡ length l → copiar_en l b ≡ some l
copiar_en-entero [] [] h = refl
copiar_en-entero [] (y ∷ b) h = ground (arith, h)
copiar_en-entero (x ∷ l) [] h = ground (arith, h)
copiar_en-entero (x ∷ l) (y ∷ b) h = rw (copiar_en-entero l b (omega (arith, h))) refl

length-datos : (x : Inode) → Guardable x → length (datos x) ≡ x.size
length-datos x g = rw g.hay_bloque (length-take x.size g.bloque g.bastante)

-- The inode of slot `i`, of which `fichero` holds the content next.
cargar_contenido-datos :
    (c : Libc) (d : Disco) (llamada : ℕ) (s : Superblock) (i : ℕ) (x : Inode) (resto : List ℕ)
    (sigue : Superblock → List ℕ → Carga)
    → Generoso c
    → SinFallos d
    → Guardable x
    → cargar_contenido c d llamada s i (record x { content = none }) (datos x ++ resto) sigue
      ≡ sigue (puesto s i x) resto
unfolding cargar_contenido memcpy_at
cargar_contenido-datos c d llamada s i x resto sigue m v g =
    let (b, hb) = m x.size in
    let lleno =
      copiar_en-entero (datos x) b (
        rw (c.calloc_zeroed x.size hb, length-replicate {A = ℕ} x.size 0, length-datos x g) refl) in
    let cabeza =
      subst (λ (n : ℕ). take n (datos x ++ resto) ≡ datos x) (length-datos x g)
        (take-append (datos x) resto) in
    let cola =
      subst (λ (n : ℕ). drop n (datos x ++ resto) ≡ resto) (length-datos x g)
        (drop-append (datos x) resto) in
    rw (cargar_contenido, hb, v.lee llamada, memcpy_at, cabeza, lleno, cola) refl

-- The bytes of an inode that fits are not none.
no_vacia : (l : List ℕ) (n : ℕ) → length l ≡ n → 0 < n → es_vacia l ≡ false
no_vacia [] n h p = ground (arith, h)
no_vacia (x ∷ l) n h p = refl

take_nil : (n : ℕ) → take {A = ℕ} n [] ≡ []
take_nil zero = refl
take_nil (suc n) = refl

pub deserializar_desde-poner :
    (c : Libc) (f : Formato) (d : Disco) (s : Superblock) (i n llamada : ℕ) (xs : List Inode)
    → Generoso c
    → Fiel f
    → SinFallos d
    → Todos Guardable xs
    → length xs ≤ n
    → i + n ≤ 1024
    → deserializar_desde c f d i n llamada s (imagen f xs)
      ≡ some (false, i + length xs, poner s i xs)
unfolding deserializar_desde
deserializar_desde-poner c f d s i zero llamada [] m l v g k h =
    ap (λ (j : ℕ). some (false, j, s)) (omega arith)
deserializar_desde-poner c f d s i zero llamada (x ∷ xs) m l v g k h = ground (arith, k)
deserializar_desde-poner c f d s i (suc n) llamada [] m l v g k h =
    let dentro : leb inodes_amount i ≡ false = ground (arith, h) in
    rw (deserializar_desde, dentro, v.lee llamada, take_nil f.sizeof_inode)
      (ap (λ (j : ℕ). some (false, j, s)) (omega arith))
deserializar_desde-poner c f d s i (suc n) llamada (x ∷ xs) m l v (gx, gs) k h =
    let dentro : leb inodes_amount i ≡ false = ground (arith, h) in
    let resto = datos x ++ imagen f xs in
    let bytes =
      subst (λ (n : ℕ). take n (f.guardar x ++ resto) ≡ f.guardar x) (l.largo x gx)
        (take-append (f.guardar x) resto) in
    let cola =
      subst (λ (n : ℕ). drop n (f.guardar x ++ resto) ≡ resto) (l.largo x gx)
        (drop-append (f.guardar x) resto) in
    rw
      (
        deserializar_desde,
        dentro,
        v.lee llamada,
        bytes,
        no_vacia (f.guardar x) f.sizeof_inode (l.largo x gx) l.con_bytes,
        cola,
        l.vuelve (s.inodes i) x gx,
        cargar_contenido-datos c d (llamada + 1) s i x (imagen f xs)
            (λ s' r. deserializar_desde c f d (i + 1) n (llamada + 2) s' r) m v gx,
        deserializar_desde-poner c f d (puesto s i x) (i + 1) n (llamada + 2) xs m l v gs
            (omega (arith, k)) (omega (arith, h)),
      )
      (ap (λ (j : ℕ). some (false, j, poner (puesto s i x) (i + 1) xs)) (omega arith))
