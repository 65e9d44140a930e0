-- ===== src/UserLib/Format/Fuel.antt =====
-- The loops of `vprintfmt` of scheduler/lib/printfmt.c move on over the format, so that they end.
use features_operating_syste.Prelude.{
  ℕ, zero, suc, ◌+◌, ◌-◌, ◌*◌, ◌≤◌, ◌<◌, ◌≡◌, refl, Bool, true, false, Option, none, some, List, [],
  ◌∷◌, ◌==◌, if◌then◌else◌, length, arith, Bool-cases, inl, inr,
}
use features_operating_syste.UserLib.Format.Numbers.{Argumento}
use features_operating_syste.UserLib.Format.Orders.{
  Opciones, sin_opciones, Orden, Paso, es_cifra, numero, va_palabra, estrella, bandera, leer_orden,
}
use features_operating_syste.UserLib.Format.Run.{
  va_cadena, Sigue, con_resto, caso_c, caso_e, caso_s, ejecutar, paso, vprintfmt_con,
}

numero-corto : (v : ℕ) (fmt : List ℕ) → length (numero v fmt).1 ≤ length fmt
unfolding numero
numero-corto v [] = omega arith
numero-corto v (c ∷ fmt) = elim (Bool-cases (es_cifra c)) [
  | inl e ↦ rw e (omega (arith, numero-corto (v * 10 + (c - b'0')) fmt))
  | inr e ↦ rw e (omega arith)
]

-- The text that is left is not longer than `n`.
abbrev pub CortoPaso : ℕ → Paso → Type 0
CortoPaso n (Paso.otra o fmt args) = length fmt ≤ n
CortoPaso n Paso.falta = Unit {0}
CortoPaso n Paso.conversion = Unit {0}

CortoPaso-si :
    (n : ℕ) (b : Bool) (x y : Paso)
    → CortoPaso n x
    → CortoPaso n y
    → CortoPaso n (if b then x else y)
CortoPaso-si n true x y p q = p
CortoPaso-si n false x y p q = q

estrella-CortoPaso :
    (o : Opciones) (fmt : List ℕ) (v : Option (ℕ × List Argumento))
    → CortoPaso (length fmt) (estrella o fmt v)
estrella-CortoPaso o fmt none = tt
estrella-CortoPaso o fmt (some (w, args)) = omega arith

pub bandera-CortoPaso :
    (c : ℕ) (o : Opciones) (fmt : List ℕ) (args : List Argumento)
    → CortoPaso (length fmt) (bandera c o fmt args)
unfolding bandera
bandera-CortoPaso c o fmt args =
    let n = length fmt in
    let igual : length fmt ≤ length fmt = omega arith in
    CortoPaso-si n (c == b'-') _ _ igual (
      CortoPaso-si n (c == b'0') _ _ igual (
        CortoPaso-si n (es_cifra c) _ _ (numero-corto (c - b'0') fmt) (
          CortoPaso-si n (c == b'*') _ _ (estrella-CortoPaso o fmt (va_palabra args)) (
            CortoPaso-si n (c == b'.') _ _ igual
              (CortoPaso-si n (c == b'#') _ _ igual (CortoPaso-si n (c == b'l') _ _ igual tt))))))

abbrev pub CortoOrden : ℕ → Option Orden → Type 0
CortoOrden n none = Unit {0}
CortoOrden n (some k) = length k.resto ≤ n

pub leer_orden-CortoOrden :
    (n : ℕ) (o : Opciones) (fmt : List ℕ) (args : List Argumento) (m : ℕ)
    → length fmt ≤ m
    → CortoOrden m (leer_orden n o fmt args)
unfolding leer_orden
leer_orden-CortoOrden zero o fmt args m h = tt
leer_orden-CortoOrden (suc n) o [] args m h = omega arith
leer_orden-CortoOrden (suc n) o (c ∷ fmt) args m h =
    otra (λ o' fmt' args' h'. leer_orden-CortoOrden n o' fmt' args' m h') (bandera c o fmt args)
      (bandera-CortoPaso c o fmt args)
  where
    otra :
        ((o' : Opciones) (fmt' : List ℕ) (args' : List Argumento)
          → length fmt' ≤ m
          → CortoOrden m (leer_orden n o' fmt' args'))
        → (p : Paso) → CortoPaso (length fmt) p
        → CortoOrden m (elim p [
          | Paso.otra o' fmt' args' ↦ leer_orden n o' fmt' args'
          | Paso.falta ↦ none
          | Paso.conversion ↦ some (record { letra = c; opciones = o; resto = fmt; args = args })
        ])
    otra ih (Paso.otra o' fmt' args') k = ih o' fmt' args' (omega (arith, h, k))
    otra ih Paso.falta k = tt
    otra ih Paso.conversion k = omega (arith, h)

pub leer_orden-igual :
    (n m : ℕ) (o : Opciones) (fmt : List ℕ) (args : List Argumento)
    → length fmt < n
    → length fmt < m
    → leer_orden n o fmt args ≡ leer_orden m o fmt args
unfolding leer_orden
leer_orden-igual zero m o fmt args h k = absurd (omega (arith, h))
leer_orden-igual (suc n) zero o fmt args h k = absurd (omega (arith, k))
leer_orden-igual (suc n) (suc m) o [] args h k = refl
leer_orden-igual (suc n) (suc m) o (c ∷ fmt) args h k =
    otra
      (λ o' fmt' args' h'.
        leer_orden-igual n m o' fmt' args' (omega (arith, h, h')) (omega (arith, k, h')))
      (bandera c o fmt args) (bandera-CortoPaso c o fmt args)
  where
    otra :
        ((o' : Opciones) (fmt' : List ℕ) (args' : List Argumento)
          → length fmt' ≤ length fmt
          → leer_orden n o' fmt' args' ≡ leer_orden m o' fmt' args')
        → (p : Paso) → CortoPaso (length fmt) p
        → elim p as (λ y. Option Orden) [
          | Paso.otra o' fmt' args' ↦ leer_orden n o' fmt' args'
          | Paso.falta ↦ none
          | Paso.conversion ↦ some (record { letra = c; opciones = o; resto = fmt; args = args })
        ]
          ≡ elim p as (λ y. Option Orden) [
            | Paso.otra o' fmt' args' ↦ leer_orden m o' fmt' args'
            | Paso.falta ↦ none
            | Paso.conversion ↦ some (record { letra = c; opciones = o; resto = fmt; args = args })
          ]
    otra ih (Paso.otra o' fmt' args') q = ih o' fmt' args' q
    otra ih Paso.falta q = refl
    otra ih Paso.conversion q = refl

module _ {S : Type 0} (putch : ℕ → S → S) where
  abbrev pub CortoSigue : ℕ → Sigue putch → Type 0
  CortoSigue n none = Unit {0}
  CortoSigue n (some (s, fmt, args)) = length fmt ≤ n

  CortoSigue-si :
      (n : ℕ) (b : Bool) (x y : Sigue putch)
      → CortoSigue n x
      → CortoSigue n y
      → CortoSigue n (if b then x else y)
  CortoSigue-si n true x y p q = p
  CortoSigue-si n false x y p q = q

  con_resto-CortoSigue :
      (n : ℕ) (resto : List ℕ) (x : Option (S × List Argumento))
      → length resto ≤ n
      → CortoSigue n (con_resto putch resto x)
  con_resto-CortoSigue n resto none h = tt
  con_resto-CortoSigue n resto (some (s, args)) h = h

  caso_c-CortoSigue :
      (n : ℕ) (s : S) (resto : List ℕ) (v : Option (ℕ × List Argumento))
      → length resto ≤ n
      → CortoSigue n (caso_c putch s resto v)
  caso_c-CortoSigue n s resto none h = tt
  caso_c-CortoSigue n s resto (some (c, args)) h = h

  caso_e-CortoSigue :
      (n : ℕ) (err : ℕ → S → Option S) (s : S) (resto : List ℕ) (v : Option (ℕ × List Argumento))
      → length resto ≤ n
      → CortoSigue n (caso_e putch err s resto v)
  caso_e-CortoSigue n err s resto none h = tt
  caso_e-CortoSigue n err s resto (some (c, args)) h = con_resto-CortoSigue n resto _ h

  caso_s-CortoSigue :
      (n : ℕ) (o : Opciones) (s : S) (resto : List ℕ)
      (v : Option (Option (List ℕ) × List Argumento))
      → length resto ≤ n
      → CortoSigue n (caso_s putch o s resto v)
  caso_s-CortoSigue n o s resto none h = tt
  caso_s-CortoSigue n o s resto (some (none, args)) h = h
  caso_s-CortoSigue n o s resto (some (some p, args)) h = h

  pub ejecutar-CortoSigue :
      (err : ℕ → S → Option S) (desde : List ℕ) (k : Orden) (s : S)
      → length k.resto ≤ length desde
      → CortoSigue (length desde) (ejecutar putch err desde k s)
  unfolding ejecutar
  ejecutar-CortoSigue err desde k s h =
      let o = k.opciones in
      let c = k.letra in
      let n = length desde in
      let igual : length desde ≤ length desde = omega arith in
      let num = λ (x : Option (S × List Argumento)). con_resto-CortoSigue n k.resto x h in
      CortoSigue-si n (c == b'c') _ _ (caso_c-CortoSigue n s k.resto (va_palabra k.args) h) (
        CortoSigue-si n (c == b'e') _ _ (caso_e-CortoSigue n err s k.resto (va_palabra k.args) h) (
          CortoSigue-si n (c == b's') _ _ (caso_s-CortoSigue n o s k.resto (va_cadena k.args) h) (
            CortoSigue-si n (c == b'd') _ _ (num _) (
              CortoSigue-si n (c == b'u') _ _ (num _) (
                CortoSigue-si n (c == b'o') _ _ (num _) (
                  CortoSigue-si n (c == b'p') _ _ (num _) (
                    CortoSigue-si n (c == b'x') _ _ (num _)
                      (CortoSigue-si n (c == b'%') _ _ h igual))))))))

  paso-CortoSigue :
      (err : ℕ → S → Option S) (c : ℕ) (fmt : List ℕ) (args : List Argumento) (s : S)
      → CortoSigue (length fmt) (paso putch err c fmt args s)
  unfolding paso
  paso-CortoSigue err c fmt args s =
      CortoSigue-si (length fmt) (c == b'%') _ _
        (orden-CortoSigue (leer_orden (suc (length fmt)) sin_opciones fmt args) (
          leer_orden-CortoOrden (suc (length fmt)) sin_opciones fmt args (length fmt)
            (omega arith)))
        (omega arith)
    where
      orden-CortoSigue :
          (k : Option Orden)
          → CortoOrden (length fmt) k
          → CortoSigue (length fmt) (elim k [ none ↦ none | some k' ↦ ejecutar putch err fmt k' s ])
      orden-CortoSigue none h = tt
      orden-CortoSigue (some k') h = ejecutar-CortoSigue err fmt k' s h

  pub vprintfmt_con-igual :
      (err : ℕ → S → Option S) (n m : ℕ) (fmt : List ℕ) (args : List Argumento) (s : S)
      → length fmt < n
      → length fmt < m
      → vprintfmt_con putch err n fmt args s ≡ vprintfmt_con putch err m fmt args s
  unfolding vprintfmt_con
  vprintfmt_con-igual err zero m fmt args s h k = absurd (omega (arith, h))
  vprintfmt_con-igual err (suc n) zero fmt args s h k = absurd (omega (arith, k))
  vprintfmt_con-igual err (suc n) (suc m) [] args s h k = refl
  vprintfmt_con-igual err (suc n) (suc m) (c ∷ fmt) args s h k =
      otra
        (λ fmt' args' s' h'.
          vprintfmt_con-igual err n m fmt' args' s' (omega (arith, h, h')) (omega (arith, k, h')))
        (paso putch err c fmt args s) (paso-CortoSigue err c fmt args s)
    where
      otra :
          ((fmt' : List ℕ) (args' : List Argumento) (s' : S)
            → length fmt' ≤ length fmt
            → vprintfmt_con putch err n fmt' args' s' ≡ vprintfmt_con putch err m fmt' args' s')
          → (x : Sigue putch) → CortoSigue (length fmt) x
          → elim x as (λ y. Option S) [
            | none ↦ none
            | some (s', fmt', args') ↦ vprintfmt_con putch err n fmt' args' s'
          ]
            ≡ elim x as (λ y. Option S) [
              | none ↦ none
              | some (s', fmt', args') ↦ vprintfmt_con putch err m fmt' args' s'
            ]
      otra ih none q = refl
      otra ih (some (s', fmt', args')) q = ih fmt' args' s' q
