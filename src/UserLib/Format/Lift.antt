-- ===== src/UserLib/Format/Lift.antt =====
-- `vprintfmt` of scheduler/lib/printfmt.c on two states, of which one is an image of the other.
use features_operating_syste.Prelude.{
  ℕ, zero, suc, ◌/◌, ◌%◌, ◌≡◌, refl, ap, ◌∙◌, Bool, true, false, not, ◌&&◌, ◌||◌, Option, none,
  some, List, [], ◌∷◌, leb, ◌==◌, if◌then◌else◌, length, ℤ, pos, ltb_ℤ, Bool-cases, Option-cases,
  inl, inr,
}
use features_operating_syste.UserLib.Strings.{strnlen}
use features_operating_syste.UserLib.Format.Numbers.{
  Argumento, palabra, cadena, parte_positiva, restar, cifra, repetir, printnum,
}
use features_operating_syste.UserLib.Format.Orders.{
  Opciones, sin_opciones, Orden, va_palabra, leer_orden,
}
use features_operating_syste.UserLib.Format.Errors.{error_string, formato_error_d, formato_s}
use features_operating_syste.UserLib.Format.Run.{
  getuint, getint, va_cadena, texto_nulo, como_size, visible, imprimir_cadena, imprimir_s,
  imprimir_numero, imprimir_d, con_resto, con_args, caso_c, caso_e, caso_s, valor_absoluto,
  ejecutar, paso, vprintfmt_con, imprimir_error, vprintfmt,
}

-- A state that is changed by `f` is seen through `h` as one that is changed by `g`.
module _ {S T : Type 0} (f : ℕ → S → S) (g : ℕ → T → T) (h : S → T)
    (hom : (c : ℕ) (s : S) → h (f c s) ≡ g c (h s)) where
  abbrev pub llevar : Option S → Option T
  llevar none = none
  llevar (some s) = some (h s)

  abbrev llevar_args : Option (S × List Argumento) → Option (T × List Argumento)
  llevar_args none = none
  llevar_args (some (s, args)) = some (h s, args)

  abbrev llevar_resto : Option (S × List ℕ × List Argumento) → Option (T × List ℕ × List Argumento)
  llevar_resto none = none
  llevar_resto (some (s, resto, args)) = some (h s, resto, args)

  repetir-h : (n c : ℕ) (s : S) → h (repetir f n c s) ≡ repetir g n c (h s)
  unfolding repetir
  repetir-h zero c s = refl
  repetir-h (suc n) c s = repetir-h n c (f c s) ∙ ap (repetir g n c) (hom c s)

  h-si : (b : Bool) (x y : S) → h (if b then x else y) ≡ (if b then h x else h y)
  h-si true x y = refl
  h-si false x y = refl

  si-si :
      (b : Bool) {x x' y y' : T} → x ≡ x' → y ≡ y' → (if b then x else y) ≡ (if b then x' else y')
  si-si true p q = p
  si-si false p q = q

  printnum-h :
      (n num base : ℕ) (width : ℤ) (padc : ℕ) (s : S)
      → h (printnum f n num base width padc s) ≡ printnum g n num base width padc (h s)
  unfolding printnum
  printnum-h zero num base width padc s = refl
  printnum-h (suc n) num base width padc s =
      let antes = printnum-h n (num / base) base (restar width 1) padc s in
      let relleno = repetir-h (parte_positiva (restar width 1)) padc s in
      hom (cifra (num % base)) _
      ∙ ap (g (cifra (num % base))) (h-si (leb base num) _ _ ∙ si-si (leb base num) antes relleno)

  imprimir_cadena-h :
      (a : Bool) (precision width : ℤ) (l : List ℕ) (s : S)
      → ((imprimir_cadena f a precision width l s).0
          ≡ (imprimir_cadena g a precision width l (h s)).0)
        × (h (imprimir_cadena f a precision width l s).1
            ≡ (imprimir_cadena g a precision width l (h s)).1)
  unfolding imprimir_cadena
  imprimir_cadena-h a precision width [] s = (refl, refl)
  imprimir_cadena-h a precision width (x ∷ l) s =
      let p' = if ltb_ℤ precision (pos 0) then precision else restar precision 1 in
      let (e, q) = imprimir_cadena-h a p' (restar width 1) l (f (visible a x) s) in
      let puesto = hom (visible a x) s in
      elim (Bool-cases (ltb_ℤ precision (pos 0) || ltb_ℤ (pos 0) precision)) [
        | inl b ↦ rw b (
          e ∙ ap (λ (t : T). (imprimir_cadena g a p' (restar width 1) l t).0) puesto,
          q ∙ ap (λ (t : T). (imprimir_cadena g a p' (restar width 1) l t).1) puesto,
        )
        | inr b ↦ rw b (refl, refl)
      ]

  imprimir_s-h :
      (o : Opciones) (p : List ℕ) (s : S) → h (imprimir_s f o p s) ≡ imprimir_s g o p (h s)
  unfolding imprimir_s
  imprimir_s-h o p s =
      let izquierda = ltb_ℤ (pos 0) o.width && not (o.padc == b'-') in
      let w = restar o.width (strnlen p (como_size o.precision)) in
      let w1 : ℤ = if izquierda then (if ltb_ℤ (pos 0) w then pos 0 else w) else o.width in
      let s1 : S = if izquierda then repetir f (parte_positiva w) o.padc s else s in
      let (e, q) = imprimir_cadena-h o.altflag o.precision w1 p s1 in
      let k1 : h s1 ≡ (if izquierda then repetir g (parte_positiva w) o.padc (h s) else h s) =
        h-si izquierda _ _ ∙ si-si izquierda (repetir-h (parte_positiva w) o.padc s) refl in
      let r = imprimir_cadena f o.altflag o.precision w1 p s1 in
      let fuera = λ (t : T).
        let r' = imprimir_cadena g o.altflag o.precision w1 p t in
        repetir g (parte_positiva r'.0) b' ' r'.1 in
      repetir-h (parte_positiva r.0) b' ' r.1
      ∙ ap (λ (z : ℤ). repetir g (parte_positiva z) b' ' (h r.1)) e
      ∙ ap (repetir g (parte_positiva (imprimir_cadena g o.altflag o.precision w1 p (h s1)).0) b' ')
          q
      ∙ ap fuera k1

  imprimir_numero-h :
      (o : Opciones) (base : ℕ) (v : Option (ℕ × List Argumento)) (s : S)
      → llevar_args (imprimir_numero f o base v s) ≡ imprimir_numero g o base v (h s)
  unfolding imprimir_numero
  imprimir_numero-h o base none s = refl
  imprimir_numero-h o base (some (num, args)) s =
      ap (λ (t : T). some (t, args)) (printnum-h 64 num base o.width o.padc s)

  imprimir_d-h :
      (o : Opciones) (v : Option (Bool × ℕ × List Argumento)) (s : S)
      → llevar_args (imprimir_d f o v s) ≡ imprimir_d g o v (h s)
  unfolding imprimir_d
  imprimir_d-h o none s = refl
  imprimir_d-h o (some (negativo, num, args)) s =
      imprimir_numero-h o 10 (some (num, args)) (if negativo then f b'-' s else s)
      ∙ ap (imprimir_numero g o 10 (some (num, args)))
          (h-si negativo _ _ ∙ si-si negativo (hom b'-' s) refl)

  con_resto-h :
      (resto : List ℕ) (x : Option (S × List Argumento)) {y : Option (T × List Argumento)}
      → llevar_args x ≡ y
      → llevar_resto (con_resto f resto x) ≡ con_resto g resto y
  con_resto-h resto x e = con_resto-igual x ∙ ap (con_resto g resto) e
    where
      con_resto-igual :
          (x : Option (S × List Argumento))
          → llevar_resto (con_resto f resto x) ≡ con_resto g resto (llevar_args x)
      con_resto-igual none = refl
      con_resto-igual (some (s, args)) = refl

  caso_c-h :
      (s : S) (resto : List ℕ) (v : Option (ℕ × List Argumento))
      → llevar_resto (caso_c f s resto v) ≡ caso_c g (h s) resto v
  caso_c-h s resto none = refl
  caso_c-h s resto (some (v, args)) = ap (λ (t : T). some (t, resto, args)) (hom v s)

  caso_s-h :
      (o : Opciones) (s : S) (resto : List ℕ) (v : Option (Option (List ℕ) × List Argumento))
      → llevar_resto (caso_s f o s resto v) ≡ caso_s g o (h s) resto v
  caso_s-h o s resto none = refl
  caso_s-h o s resto (some (none, args)) =
      ap (λ (t : T). some (t, resto, args)) (imprimir_s-h o texto_nulo s)
  caso_s-h o s resto (some (some p, args)) =
      ap (λ (t : T). some (t, resto, args)) (imprimir_s-h o p s)

  llevar_resto-si :
      (b : Bool) (x y : Option (S × List ℕ × List Argumento))
      {x' y' : Option (T × List ℕ × List Argumento)}
      → llevar_resto x ≡ x'
      → llevar_resto y ≡ y'
      → llevar_resto (if b then x else y) ≡ (if b then x' else y')
  llevar_resto-si true x y p q = p
  llevar_resto-si false x y p q = q

  module _ (err : ℕ → S → Option S) (err' : ℕ → T → Option T)
      (hom_err : (n : ℕ) (s : S) → llevar (err n s) ≡ err' n (h s)) where
    caso_e-h :
        (s : S) (resto : List ℕ) (v : Option (ℕ × List Argumento))
        → llevar_resto (caso_e f err s resto v) ≡ caso_e g err' (h s) resto v
    caso_e-h s resto none = refl
    caso_e-h s resto (some (v, args)) = con_resto-h resto _ (
        con_args-h (err (valor_absoluto v) s) ∙ ap (con_args g args) (hom_err (valor_absoluto v) s))
      where
        con_args-h : (x : Option S) → llevar_args (con_args f args x) ≡ con_args g args (llevar x)
        con_args-h none = refl
        con_args-h (some s) = refl

    ejecutar-h :
        (desde : List ℕ) (k : Orden) (s : S)
        → llevar_resto (ejecutar f err desde k s) ≡ ejecutar g err' desde k (h s)
    unfolding ejecutar
    ejecutar-h desde k s =
        let o = k.opciones in
        let c = k.letra in
        let num = λ (base : ℕ) (v : Option (ℕ × List Argumento)) (s' : S).
          con_resto-h k.resto _ (imprimir_numero-h o base v s') in
        let cero_x = ap (g b'x') (hom b'0' s) in
        let puntero = con_resto-h k.resto _ (
          imprimir_numero-h o 16 (va_palabra k.args) (f b'x' (f b'0' s))
          ∙ ap (imprimir_numero g o 16 (va_palabra k.args)) (hom b'x' (f b'0' s) ∙ cero_x)) in
        let signo = λ (resto : List ℕ). ap (λ (t : T). some (t, resto, k.args)) (hom b'%' s) in
        let u = getuint o.lflag k.args in
        llevar_resto-si (c == b'c') _ _ (caso_c-h s k.resto (va_palabra k.args)) (
          llevar_resto-si (c == b'e') _ _ (caso_e-h s k.resto (va_palabra k.args)) (
            llevar_resto-si (c == b's') _ _ (caso_s-h o s k.resto (va_cadena k.args)) (
              llevar_resto-si (c == b'd') _ _
                (con_resto-h k.resto _ (imprimir_d-h o (getint o.lflag k.args) s))
                (llevar_resto-si (c == b'u') _ _ (num 10 u s) (
                  llevar_resto-si (c == b'o') _ _ (num 8 u s) (
                    llevar_resto-si (c == b'p') _ _ puntero (
                      llevar_resto-si (c == b'x') _ _ (num 16 u s)
                        (llevar_resto-si (c == b'%') _ _ (signo k.resto) (signo desde)))))))))

    paso-h :
        (c : ℕ) (fmt : List ℕ) (args : List Argumento) (s : S)
        → llevar_resto (paso f err c fmt args s) ≡ paso g err' c fmt args (h s)
    unfolding paso
    paso-h c fmt args s =
        llevar_resto-si (c == b'%') _ _
          (orden-h (leer_orden (suc (length fmt)) sin_opciones fmt args))
          (ap (λ (t : T). some (t, fmt, args)) (hom c s))
      where
        orden-h :
            (k : Option Orden)
            → llevar_resto (elim k [ none ↦ none | some k' ↦ ejecutar f err fmt k' s ])
              ≡ elim k [ none ↦ none | some k' ↦ ejecutar g err' fmt k' (h s) ]
        orden-h none = refl
        orden-h (some k') = ejecutar-h fmt k' s

    vprintfmt_con-h :
        (n : ℕ) (fmt : List ℕ) (args : List Argumento) (s : S)
        → llevar (vprintfmt_con f err n fmt args s) ≡ vprintfmt_con g err' n fmt args (h s)
    unfolding vprintfmt_con
    vprintfmt_con-h zero fmt args s = refl
    vprintfmt_con-h (suc n) [] args s = refl
    vprintfmt_con-h (suc n) (c ∷ fmt) args s =
        otra (λ fmt' args' s'. vprintfmt_con-h n fmt' args' s') (paso f err c fmt args s)
        ∙ ap
            (λ (x : Option (T × List ℕ × List Argumento)). elim x as (λ y. Option T) [
              | none ↦ none
              | some (t, fmt', args') ↦ vprintfmt_con g err' n fmt' args' t
            ])
            (paso-h c fmt args s)
      where
        otra :
            ((fmt' : List ℕ) (args' : List Argumento) (s' : S)
              → llevar (vprintfmt_con f err n fmt' args' s')
                ≡ vprintfmt_con g err' n fmt' args' (h s'))
            → (x : Option (S × List ℕ × List Argumento))
            → llevar (elim x [
              | none ↦ none
              | some (s', fmt', args') ↦ vprintfmt_con f err n fmt' args' s'
            ])
              ≡ elim (llevar_resto x) [
                | none ↦ none
                | some (t, fmt', args') ↦ vprintfmt_con g err' n fmt' args' t
              ]
        otra ih none = refl
        otra ih (some (s', fmt', args')) = ih fmt' args' s'

  imprimir_error-h :
      (num : ℕ) (s : S) → llevar (imprimir_error f num s) ≡ imprimir_error g num (h s)
  unfolding imprimir_error
  imprimir_error-h num s = elim (Option-cases (error_string num)) [
    | inl e ↦
        rw (imprimir_error, e)
          (vprintfmt_con-h (λ n s'. none) (λ n t. none) (λ n s'. refl)
            (suc (length formato_error_d)) formato_error_d (palabra num ∷ []) s)
    | inr (p, e) ↦
        rw (imprimir_error, e)
          (vprintfmt_con-h (λ n s'. none) (λ n t. none) (λ n s'. refl) (suc (length formato_s))
            formato_s (cadena (some p) ∷ []) s)
  ]

  pub vprintfmt-h :
      (fmt : List ℕ) (args : List Argumento) (s : S)
      → llevar (vprintfmt f fmt args s) ≡ vprintfmt g fmt args (h s)
  unfolding vprintfmt
  vprintfmt-h fmt args s =
      vprintfmt_con-h (imprimir_error f) (imprimir_error g) imprimir_error-h (suc (length fmt)) fmt
        args s
