-- ===== src/UserLib/Format/Buffer.antt =====
-- `sprintputch` and `vsnprintf` of scheduler/lib/printfmt.c, on memory by address; NULL is 0.
use features_operating_syste.Prelude.{
  ℕ, zero, suc, ◌+◌, ◌-◌, ◌%◌, ◌≤◌, ◌<◌, ◌≡◌, ◌⊎◌, refl, ap, subst, ◌∙◌, true, false, ◌||◌, Option,
  none, some, List, [], ◌∷◌, length, take, map, ltb, ◌==◌, if◌then◌else◌, update, ℤ, pos, negsuc,
  arith, inl,
}
use features_operating_syste.UserLib.Format.Numbers.{Argumento}
use features_operating_syste.UserLib.Format.Run.{vprintfmt}
use features_operating_syste.UserLib.Format.Any.{volcar, texto, vprintfmt-volcar}

-- `struct sprintbuf`, with the memory.
pub record Sprintbuf : Type 0 where
  pub memoria : ℕ → ℕ
  pub buf : ℕ
  pub ebuf : ℕ
  pub cnt : ℕ

abbrev pub sprintputch : ℕ → Sprintbuf → Sprintbuf
sprintputch ch b =
    if ltb b.buf b.ebuf
    then record {
      memoria = update b.memoria b.buf (ch % 256);
      buf = b.buf + 1;
      ebuf = b.ebuf;
      cnt = b.cnt + 1;
    }
    else record b { cnt = b.cnt + 1 }

-- What is returned, and the memory; `none` is an argument that is not there, or is of another type.
unfoldable pub vsnprintf : (ℕ → ℕ) → ℕ → ℤ → List ℕ → List Argumento → Option (ℤ × (ℕ → ℕ))
vsnprintf memoria buf (negsuc n) fmt args = some (negsuc 2, memoria)
vsnprintf memoria buf (pos n) fmt args =
    let lleno =
      vprintfmt sprintputch fmt args
        (record { memoria = memoria; buf = buf; ebuf = buf + n - 1; cnt = 0 }) in
    if (buf == 0) || ltb n 1
    then some (negsuc 2, memoria)
    else elim lleno [ none ↦ none | some b ↦ some (pos b.cnt, update b.memoria b.buf 0) ]

-- The characters as bytes, from address `a` on.
abbrev pub copiados : (ℕ → ℕ) → ℕ → List ℕ → ℕ → ℕ
copiados m a [] = m
copiados m a (x ∷ l) = copiados (update m a (x % 256)) (a + 1) l

abbrev pub leidos : (ℕ → ℕ) → ℕ → ℕ → List ℕ
leidos m a zero = []
leidos m a (suc n) = m a ∷ leidos m (a + 1) n

copiados-fuera :
    (m : ℕ → ℕ) (a : ℕ) (l : List ℕ) (i : ℕ) → (i < a) ⊎ (a + length l ≤ i) → copiados m a l i ≡ m i
copiados-fuera m a [] i h = refl
copiados-fuera m a (x ∷ l) i h =
    let otra : (i == a) ≡ false = ground (arith, h) in
    copiados-fuera (update m a (x % 256)) (a + 1) l i (ground (arith, h)) ∙ rw otra refl

leidos-copiados :
    (m : ℕ → ℕ) (a : ℕ) (l : List ℕ)
    → leidos (copiados m a l) a (length l) ≡ map (λ (x : ℕ). x % 256) l
leidos-copiados m a [] = refl
leidos-copiados m a (x ∷ l) =
    let mismo : (a == a) ≡ true = ground arith in
    rw
      (
        copiados-fuera (update m a (x % 256)) (a + 1) l a (inl (omega arith)),
        mismo,
        leidos-copiados (update m a (x % 256)) (a + 1) l,
      )
      refl

-- A write behind them changes none.
pub leidos-update : (m : ℕ → ℕ) (a n i v : ℕ) → a + n ≤ i → leidos (update m i v) a n ≡ leidos m a n
leidos-update m a zero i v h = refl
leidos-update m a (suc n) i v h =
    ground (arith, h, leidos-update m (a + 1) n i v (omega (arith, h)))

volcar-sprintputch :
    (l : List ℕ) (m : ℕ → ℕ) (a k cnt : ℕ)
    → volcar sprintputch l (record { memoria = m; buf = a; ebuf = a + k; cnt = cnt }) ≡ record {
      memoria = copiados m a (take k l);
      buf = a + length (take k l);
      ebuf = a + k;
      cnt = cnt + length l;
    }
volcar-sprintputch [] m a zero cnt = ground arith
volcar-sprintputch [] m a (suc k) cnt = ground arith
volcar-sprintputch (x ∷ l) m a zero cnt =
    let lleno : ltb a (a + 0) ≡ false = ground arith in
    rw lleno (volcar-sprintputch l m a zero (cnt + 1) ∙ ground arith)
volcar-sprintputch (x ∷ l) m a (suc k) cnt =
    let cabe : ltb a (a + suc k) ≡ true = ground arith in
    let e : a + 1 + k ≡ a + suc k = omega arith in
    let ih = volcar-sprintputch l (update m a (x % 256)) (a + 1) k (cnt + 1) in
    rw cabe (
      subst
        (λ (n : ℕ).
          volcar sprintputch l
            (record { memoria = update m a (x % 256); buf = a + 1; ebuf = n; cnt = cnt + 1 })
          ≡ record {
            memoria = copiados (update m a (x % 256)) (a + 1) (take k l);
            buf = a + 1 + length (take k l);
            ebuf = n;
            cnt = cnt + 1 + length l;
          })
        e ih
      ∙ ground arith)

-- The first `n - 1` characters stand in the buffer, as bytes, with a NUL behind them; no byte outside the
-- buffer's `n` is changed.
pub record Impreso (m : ℕ → ℕ) (buf n : ℕ) (l : List ℕ) (m' : ℕ → ℕ) : Type 0 where
  pub escritos : leidos m' buf (length (take (n - 1) l)) ≡ map (λ (x : ℕ). x % 256) (take (n - 1) l)
  pub nul : m' (buf + length (take (n - 1) l)) ≡ 0
  pub fuera : (i : ℕ) → (i < buf) ⊎ (buf + n ≤ i) → m' i ≡ m i

length-take_le : (k : ℕ) (l : List ℕ) → length (take k l) ≤ k
length-take_le zero l = omega arith
length-take_le (suc k) [] = omega arith
length-take_le (suc k) (x ∷ l) = omega (arith, length-take_le k l)

copiados-Impreso :
    (m : ℕ → ℕ) (buf n : ℕ) (l : List ℕ)
    → 1 ≤ n
    → Impreso m buf n l (update (copiados m buf (take (n - 1) l)) (buf + length (take (n - 1) l)) 0)
copiados-Impreso m buf n l h =
    let t = take (n - 1) l in
    let fin = buf + length t in
    let corto = length-take_le (n - 1) l in
    record {
      escritos =
          leidos-update (copiados m buf t) buf (length t) fin 0 (omega arith)
          ∙ leidos-copiados m buf t;
      nul = ground arith;
      fuera = λ i d.
          let otra : (i == fin) ≡ false = ground (arith, d, corto, h) in
          rw otra (copiados-fuera m buf t i (ground (arith, d, corto, h)));
    }

-- For a buffer of `n` bytes, `n` at least 1, that is not NULL, and a format and arguments that print a text:
-- `vsnprintf` writes the first `n - 1` characters of the text to the buffer and a NUL behind them, no other
-- byte outside the buffer, and returns the length of the whole text.
pub vsnprintf-Impreso :
    (m : ℕ → ℕ) (buf n : ℕ) (fmt : List ℕ) (args : List Argumento) {l : List ℕ}
    → texto fmt args ≡ some l
    → (buf == 0) ≡ false
    → 1 ≤ n
    → (m' : ℕ → ℕ) × (vsnprintf m buf (pos n) fmt args ≡ some (pos (length l), m'))
      × Impreso m buf n l m'
unfolding vsnprintf
vsnprintf-Impreso m buf n fmt args {l} e b h =
    let grande : ltb n 1 ≡ false = ground (arith, h) in
    let fin : buf + n - 1 ≡ buf + (n - 1) = omega (arith, h) in
    (
      update (copiados m buf (take (n - 1) l)) (buf + length (take (n - 1) l)) 0,
      rw
          (
            vsnprintf,
            b,
            grande,
            fin,
            vprintfmt-volcar sprintputch fmt args
                (record { memoria = m; buf = buf; ebuf = buf + (n - 1); cnt = 0 }) e,
            volcar-sprintputch l m buf (n - 1) 0,
          )
          (ap
            (λ (c : ℕ).
              some
                (pos c, update (copiados m buf (take (n - 1) l)) (buf + length (take (n - 1) l)) 0))
            (omega arith)),
      copiados-Impreso m buf n l h,
    )
