-- ===== src/UserLib/Format/Run.antt =====
-- `vprintfmt` of scheduler/lib/printfmt.c.
use features_operating_syste.Prelude.{
  ℕ, zero, suc, ◌-◌, ◌^◌, Bool, true, false, not, ◌&&◌, ◌||◌, Option, none, some, List, [], ◌∷◌,
  ltb, leb, ◌==◌, if◌then◌else◌, length, ℤ, pos, negsuc, ltb_ℤ,
}
use features_operating_syste.UserLib.Format.Errors.{error_string, formato_error_d, formato_s}
use features_operating_syste.UserLib.Strings.{strnlen}
use features_operating_syste.UserLib.Format.Numbers.{
  Argumento, palabra, larga, cadena, extendido, parte_positiva, restar, repetir, printnum,
}
use features_operating_syste.UserLib.Format.Orders.{
  Opciones, sin_opciones, Orden, va_palabra, leer_orden,
}

-- `getuint`
abbrev pub getuint : ℕ → List Argumento → Option (ℕ × List Argumento)
getuint lflag [] = none
getuint lflag (palabra v ∷ args) = if leb 2 lflag then none else some (v, args)
getuint lflag (larga v ∷ args) = if leb 2 lflag then some (v, args) else none
getuint lflag (cadena s ∷ args) = none

-- `getint`, as the sign and the absolute value.
abbrev pub getint : ℕ → List Argumento → Option (Bool × ℕ × List Argumento)
getint lflag [] = none
getint lflag (palabra v ∷ args) =
    if leb 2 lflag
    then none
    else if ltb v (2 ^ 31)
    then some (false, v, args)
    else some (true, 2 ^ 32 - v, args)
getint lflag (larga v ∷ args) =
    if leb 2 lflag
    then if ltb v (2 ^ 63) then some (false, v, args) else some (true, 2 ^ 64 - v, args)
    else none
getint lflag (cadena s ∷ args) = none

abbrev pub va_cadena : List Argumento → Option (Option (List ℕ) × List Argumento)
va_cadena [] = none
va_cadena (palabra v ∷ args) = none
va_cadena (larga v ∷ args) = none
va_cadena (cadena s ∷ args) = some (s, args)

-- `if (err < 0) err = -err;`
abbrev pub valor_absoluto : ℕ → ℕ
valor_absoluto v = if ltb v (2 ^ 31) then v else 2 ^ 32 - v

-- "(null)"
abbrev pub texto_nulo : List ℕ
texto_nulo = b'(' ∷ b'n' ∷ b'u' ∷ b'l' ∷ b'l' ∷ b')' ∷ []

-- The precision as the bound of `strnlen`.
abbrev pub como_size : ℤ → ℕ
como_size (pos n) = n
como_size (negsuc n) = 2 ^ 32 - 1 - n

-- What the loop over a string prints for a `char`.
abbrev pub visible : Bool → ℕ → ℕ
visible altflag x = if altflag && (leb 128 x || ltb x b' ' || ltb b'~' x) then b'?' else extendido x

module _ {S : Type 0} (putch : ℕ → S → S) where
  -- The loop over a string with `precision` characters left, or any number of them; what the width is then.
  unfoldable pub imprimir_cadena : Bool → ℤ → ℤ → List ℕ → S → ℤ × S
  imprimir_cadena altflag precision width [] s = (width, s)
  imprimir_cadena altflag precision width (x ∷ p) s =
      let otra =
        imprimir_cadena altflag (if ltb_ℤ precision (pos 0) then precision else restar precision 1)
          (restar width 1) p (putch (visible altflag x) s) in
      if ltb_ℤ precision (pos 0) || ltb_ℤ (pos 0) precision then otra else (width, s)

  -- The case of %s.
  unfoldable pub imprimir_s : Opciones → List ℕ → S → S
  unfolding imprimir_cadena
  imprimir_s o p s =
      let izquierda = ltb_ℤ (pos 0) o.width && not (o.padc == b'-') in
      let w = restar o.width (strnlen p (como_size o.precision)) in
      let s1 = if izquierda then repetir putch (parte_positiva w) o.padc s else s in
      let w1 = if izquierda then (if ltb_ℤ (pos 0) w then pos 0 else w) else o.width in
      let (w2, s2) = imprimir_cadena o.altflag o.precision w1 p s1 in
      repetir putch (parte_positiva w2) b' ' s2

  -- The label `number`.
  unfoldable pub imprimir_numero :
      Opciones → ℕ → Option (ℕ × List Argumento) → S → Option (S × List Argumento)
  imprimir_numero o base none s = none
  imprimir_numero o base (some (num, args)) s =
      some (printnum putch 64 num base o.width o.padc s, args)

  unfoldable pub imprimir_d :
      Opciones → Option (Bool × ℕ × List Argumento) → S → Option (S × List Argumento)
  unfolding imprimir_numero
  imprimir_d o none s = none
  imprimir_d o (some (negativo, num, args)) s =
      imprimir_numero o 10 (some (num, args)) (if negativo then putch b'-' s else s)

  -- The arguments and the text that are left, behind what was printed.
  abbrev pub Sigue : Type 0
  Sigue = Option (S × List ℕ × List Argumento)

  abbrev pub con_resto : List ℕ → Option (S × List Argumento) → Sigue
  con_resto resto none = none
  con_resto resto (some (s, args)) = some (s, resto, args)

  abbrev pub caso_c : S → List ℕ → Option (ℕ × List Argumento) → Sigue
  caso_c s resto none = none
  caso_c s resto (some (v, args)) = some (putch v s, resto, args)

  abbrev pub con_args : List Argumento → Option S → Option (S × List Argumento)
  con_args args none = none
  con_args args (some s) = some (s, args)

  abbrev pub caso_e : (ℕ → S → Option S) → S → List ℕ → Option (ℕ × List Argumento) → Sigue
  caso_e err s resto none = none
  caso_e err s resto (some (v, args)) = con_resto resto (con_args args (err (valor_absoluto v) s))

  abbrev pub caso_s : Opciones → S → List ℕ → Option (Option (List ℕ) × List Argumento) → Sigue
  caso_s o s resto none = none
  caso_s o s resto (some (none, args)) = some (imprimir_s o texto_nulo s, resto, args)
  caso_s o s resto (some (some p, args)) = some (imprimir_s o p s, resto, args)

  -- The cases of the switch, on what was read. `desde` is the text behind the %, and `err` prints the
  -- argument of %e. Behind a case that is none the text from `desde` on is printed as it is.
  unfoldable pub ejecutar : (ℕ → S → Option S) → List ℕ → Orden → S → Sigue
  unfolding imprimir_numero imprimir_d imprimir_s
  ejecutar err desde k s =
      let o = k.opciones in
      let c = k.letra in
      if c == b'c'
      then caso_c s k.resto (va_palabra k.args)
      else if c == b'e'
      then caso_e err s k.resto (va_palabra k.args)
      else if c == b's'
      then caso_s o s k.resto (va_cadena k.args)
      else if c == b'd'
      then con_resto k.resto (imprimir_d o (getint o.lflag k.args) s)
      else if c == b'u'
      then con_resto k.resto (imprimir_numero o 10 (getuint o.lflag k.args) s)
      else if c == b'o'
      then con_resto k.resto (imprimir_numero o 8 (getuint o.lflag k.args) s)
      else if c == b'p'
      then con_resto k.resto (imprimir_numero o 16 (va_palabra k.args) (putch b'x' (putch b'0' s)))
      else if c == b'x'
      then con_resto k.resto (imprimir_numero o 16 (getuint o.lflag k.args) s)
      else if c == b'%'
      then some (putch b'%' s, k.resto, k.args)
      else some (putch b'%' s, desde, k.args)

  -- One round of the loop, on the character `c` and the text behind it.
  unfoldable pub paso : (ℕ → S → Option S) → ℕ → List ℕ → List Argumento → S → Sigue
  paso err c fmt args s =
      if c == b'%'
      then elim (leer_orden (suc (length fmt)) sin_opciones fmt args) [
        | none ↦ none
        | some k ↦ ejecutar err fmt k s
      ]
      else some (putch c s, fmt, args)

  -- `n` is fuel for one character of the format each.
  unfoldable pub vprintfmt_con : (ℕ → S → Option S) → ℕ → List ℕ → List Argumento → S → Option S
  unfolding paso
  vprintfmt_con err zero fmt args s = none
  vprintfmt_con err (suc n) [] args s = some s
  vprintfmt_con err (suc n) (c ∷ fmt) args s = elim (paso err c fmt args s) [
    | none ↦ none
    | some (s', fmt', args') ↦ vprintfmt_con err n fmt' args' s'
  ]

  -- `printfmt` for %e; these formats have no %e.
  unfoldable pub imprimir_error : ℕ → S → Option S
  unfolding vprintfmt_con
  imprimir_error num s = elim (error_string num) [
    | none ↦
        vprintfmt_con (λ e s'. none) (suc (length formato_error_d)) formato_error_d
          (palabra num ∷ []) s
    | some p ↦
        vprintfmt_con (λ e s'. none) (suc (length formato_s)) formato_s (cadena (some p) ∷ []) s
  ]

  unfoldable pub vprintfmt : List ℕ → List Argumento → S → Option S
  vprintfmt fmt args s = vprintfmt_con imprimir_error (suc (length fmt)) fmt args s
