-- ===== src/UserLib/Format/Orders.antt =====
-- What stands behind a % in a format of scheduler/lib/printfmt.c: flags, width and precision.
use features_operating_syste.Prelude.{
  ℕ, zero, suc, ◌+◌, ◌-◌, ◌*◌, Bool, true, false, ◌&&◌, Option, none, some, List, [], ◌∷◌, leb,
  ◌==◌, if◌then◌else◌, ℤ, pos, negsuc, ltb_ℤ,
}
use features_operating_syste.UserLib.Format.Numbers.{Argumento, palabra, larga, cadena, como_entero}

pub record Opciones : Type 0 where
  pub padc : ℕ
  pub width : ℤ
  pub precision : ℤ
  pub lflag : ℕ
  pub altflag : Bool

abbrev pub sin_opciones : Opciones
sin_opciones = record {
  padc = b' ';
  width = negsuc 0;
  precision = negsuc 0;
  lflag = 0;
  altflag = false;
}

-- The character that says what is to be printed (0 at the end of the format), what the flags say, the
-- text behind it, and the arguments that are left.
pub record Orden : Type 0 where
  pub letra : ℕ
  pub opciones : Opciones
  pub resto : List ℕ
  pub args : List Argumento

-- `process_precision`
abbrev pub process_precision : ℤ → Opciones → Opciones
process_precision v o =
    if ltb_ℤ o.width (pos 0)
    then record o { width = v; precision = negsuc 0 }
    else record o { precision = v }

abbrev pub es_cifra : ℕ → Bool
es_cifra c = leb b'0' c && leb c b'9'

-- The number that begins with the digits read so far, and the text behind it.
unfoldable pub numero : ℕ → List ℕ → ℕ × List ℕ
numero v [] = (v, [])
numero v (c ∷ fmt) =
    let resto = numero (v * 10 + (c - b'0')) fmt in if es_cifra c then resto else (v, c ∷ fmt)

abbrev pub va_palabra : List Argumento → Option (ℕ × List Argumento)
va_palabra [] = none
va_palabra (palabra v ∷ args) = some (v, args)
va_palabra (larga v ∷ args) = none
va_palabra (cadena s ∷ args) = none

-- What a character behind the % does: it is a flag, and there is more to read; or it is none.
pub data Paso : Type 0 where
  otra : Opciones → List ℕ → List Argumento → Paso
  falta conversion : Paso

abbrev pub estrella : Opciones → List ℕ → Option (ℕ × List Argumento) → Paso
estrella o fmt none = Paso.falta
estrella o fmt (some (w, args)) = Paso.otra (process_precision (como_entero w) o) fmt args

-- The labels of the flags; `fmt` is what stands behind `c`. `falta` is an argument that is not there, or is
-- of another type.
unfoldable pub bandera : ℕ → Opciones → List ℕ → List Argumento → Paso
unfolding numero
bandera c o fmt args =
    let (v, fmt') = numero (c - b'0') fmt in
    if c == b'-'
    then Paso.otra (record o { padc = b'-' }) fmt args
    else if c == b'0'
    then Paso.otra (record o { padc = b'0' }) fmt args
    else if es_cifra c
    then Paso.otra (process_precision (pos v) o) fmt' args
    else if c == b'*'
    then estrella o fmt (va_palabra args)
    else if c == b'.'
    then Paso.otra (if ltb_ℤ o.width (pos 0) then record o { width = pos 0 } else o) fmt args
    else if c == b'#'
    then Paso.otra (record o { altflag = true }) fmt args
    else if c == b'l'
    then Paso.otra (record o { lflag = o.lflag + 1 }) fmt args
    else Paso.conversion

-- The loop by `goto reswitch`; `n` is fuel for one flag each.
unfoldable pub leer_orden : ℕ → Opciones → List ℕ → List Argumento → Option Orden
unfolding bandera
leer_orden zero o fmt args = none
leer_orden (suc n) o [] args = some (record { letra = 0; opciones = o; resto = []; args = args })
leer_orden (suc n) o (c ∷ fmt) args = elim (bandera c o fmt args) [
  | Paso.otra o' fmt' args' ↦ leer_orden n o' fmt' args'
  | Paso.falta ↦ none
  | Paso.conversion ↦ some (record { letra = c; opciones = o; resto = fmt; args = args })
]
