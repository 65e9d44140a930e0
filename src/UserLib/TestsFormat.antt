-- ===== src/UserLib/TestsFormat.antt =====
-- Runs of the formatted output and of `readline`.
use features_operating_syste.Prelude.{ℕ, ◌-◌, ◌^◌, ◌≡◌, refl, some, List, [], ◌∷◌, pos, arith, inl}
use features_operating_syste.UserLib.Strings.{strnlen, digitos}
use features_operating_syste.UserLib.Format.Numbers.{
  Argumento, palabra, cadena, restar, repetir, printnum,
}
use features_operating_syste.UserLib.Format.Orders.{Opciones, numero, bandera, leer_orden}
use features_operating_syste.UserLib.Format.Errors.{error_string}
use features_operating_syste.UserLib.Format.Run.{
  imprimir_cadena, imprimir_s, imprimir_numero, imprimir_d, ejecutar, paso, vprintfmt_con,
  imprimir_error, vprintfmt,
}
use features_operating_syste.UserLib.Format.Any.{texto}
use features_operating_syste.UserLib.Format.Buffer.{vsnprintf, Impreso, vsnprintf-Impreso}
use features_operating_syste.UserLib.Format.Lines.{vcprintf, unidos, Cortos, vcprintf-unidos}
use features_operating_syste.UserLib.Format.Digits.{reunir, printnum-digitos}
use features_operating_syste.UserLib.Readline.{readline}
use features_operating_syste.UserLib.Readline.Editing.{Leida, entradas, readline-Leida}
use features_operating_syste.UserLib.Format.Ends.{Lee, Acaba, vprintfmt_termina}

-- "%05d,%s"
abbrev formato : List ℕ
formato = b'%' ∷ b'0' ∷ b'5' ∷ b'd' ∷ b',' ∷ b'%' ∷ b's' ∷ []

-- -42 and "ab"
abbrev args : List Argumento
args = palabra (2 ^ 32 - 42) ∷ cadena (some (b'a' ∷ b'b' ∷ [])) ∷ []

abbrev impreso : List ℕ
impreso = b'-' ∷ b'0' ∷ b'0' ∷ b'0' ∷ b'4' ∷ b'2' ∷ b',' ∷ b'a' ∷ b'b' ∷ []

formato-impreso : texto formato args ≡ some impreso
unfolding vprintfmt vprintfmt_con paso leer_orden bandera numero ejecutar imprimir_d imprimir_numero
    printnum repetir restar imprimir_s imprimir_cadena strnlen
formato-impreso = refl

-- "%-5d" pads with minus signs, on the left.
menos_a_la_izquierda :
    texto (b'%' ∷ b'-' ∷ b'5' ∷ b'd' ∷ []) (palabra 42 ∷ [])
    ≡ some (b'-' ∷ b'-' ∷ b'-' ∷ b'4' ∷ b'2' ∷ [])
unfolding vprintfmt vprintfmt_con paso leer_orden bandera numero ejecutar imprimir_d imprimir_numero
    printnum repetir restar
menos_a_la_izquierda = refl

-- "%e" and "%y"
error_y_otro :
    texto (b'%' ∷ b'e' ∷ b'%' ∷ b'y' ∷ []) (palabra 8 ∷ [])
    ≡ some (
        b'u' ∷ b'n' ∷ b'e' ∷ b'x' ∷ b'p' ∷ b'e' ∷ b'c' ∷ b't' ∷ b'e' ∷ b'd' ∷ b' ' ∷ b'e' ∷ b'n'
        ∷ b'd' ∷ b' ' ∷ b'o' ∷ b'f' ∷ b' ' ∷ b'f' ∷ b'i' ∷ b'l' ∷ b'e' ∷ b'%' ∷ b'y' ∷ [])
unfolding vprintfmt vprintfmt_con paso leer_orden bandera numero ejecutar imprimir_error
    error_string imprimir_s imprimir_cadena strnlen repetir restar
error_y_otro = refl

vsnprintf-Impreso_example :
    (m' : ℕ → ℕ) × (vsnprintf (λ i. 255) 100 (pos 4) formato args ≡ some (pos 9, m'))
    × Impreso (λ i. 255) 100 4 impreso m'
vsnprintf-Impreso_example =
    vsnprintf-Impreso (λ i. 255) 100 4 formato args formato-impreso refl (omega arith)

vcprintf-unidos_example :
    (salida : List (List ℕ)) × (vcprintf (λ i. 0) formato args ≡ some (9, salida))
    × (unidos salida ≡ impreso)
    × Cortos salida
vcprintf-unidos_example = vcprintf-unidos (λ i. 0) formato args formato-impreso

printnum-digitos_example : digitos 16 0 (printnum reunir 64 255 16 (pos 8) b'0' []) ≡ (255, [])
printnum-digitos_example =
    printnum-digitos 255 16 (pos 8) b'0' (omega arith) (omega arith) (omega arith) (inl refl)

vprintfmt_termina_example :
    Acaba reunir (imprimir_error reunir) formato args [] (vprintfmt reunir formato args [])
    × ((o : Opciones) → Lee o formato args (leer_orden 20 o formato args))
    × ((num : ℕ) (s0 : List ℕ) → (s' : List ℕ) × (imprimir_error reunir num s0 ≡ some s'))
    × (vprintfmt_con reunir (imprimir_error reunir) 20 formato args []
        ≡ vprintfmt reunir formato args [])
    × ((o : Opciones) → leer_orden 20 o formato args ≡ leer_orden 8 o formato args)
vprintfmt_termina_example = vprintfmt_termina reunir 20 formato args [] (omega arith)

-- A delete, "ab", a backspace, "c" and a return, with more input behind it.
readline-Leida_example :
    Leida
      (λ i. 7)
      (0x7F ∷ b'a' ∷ b'c' ∷ [])
      (pos b'x' ∷ [])
      (readline
        (b'>' ∷ [])
        (λ i. 7)
        (entradas (0x7F ∷ b'a' ∷ b'b' ∷ 8 ∷ b'c' ∷ []) (pos 13 ∷ pos b'x' ∷ [])))
readline-Leida_example =
    readline-Leida (b'>' ∷ []) (λ i. 7) (0x7F ∷ b'a' ∷ b'b' ∷ 8 ∷ b'c' ∷ []) 13 (pos b'x' ∷ [])
      (refl, (refl, (refl, (refl, (refl, tt))))) refl
