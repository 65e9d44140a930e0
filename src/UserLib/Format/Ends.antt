-- ===== src/UserLib/Format/Ends.antt =====
-- The runs of the two loops of `vprintfmt` of scheduler/lib/printfmt.c, round by round, and that each
-- comes to an end.
use features_operating_syste.Prelude.{
  ℕ, zero, suc, ◌≤◌, ◌<◌, ◌≡◌, refl, true, false, Option, none, some, List, [], ◌∷◌, ◌==◌, length,
  arith, Bool-cases, Option-cases, ltb, ◌^◌, inl, inr, subst, sym,
}
use features_operating_syste.UserLib.Format.Numbers.{Argumento, palabra, cadena}
use features_operating_syste.UserLib.Format.Errors.{error_string, formato_error_d, formato_s}
use features_operating_syste.UserLib.Format.Orders.{
  Opciones, sin_opciones, Orden, Paso, bandera, leer_orden,
}
use features_operating_syste.UserLib.Format.Run.{
  Sigue, ejecutar, paso, vprintfmt_con, imprimir_error, vprintfmt, imprimir_d, imprimir_numero,
  imprimir_s,
}
use features_operating_syste.UserLib.Format.Fuel.{
  CortoPaso, bandera-CortoPaso, CortoOrden, leer_orden-CortoOrden, leer_orden-igual, CortoSigue,
  ejecutar-CortoSigue, vprintfmt_con-igual,
}

-- The rounds that read a directive, without fuel: to the end of the text, to a letter that is no
-- flag, or to a `*` whose argument is missing, the only way to end in none.
pub data Lee : Opciones → List ℕ → List Argumento → Option Orden → Type 0 where
  fin :
      (o : Opciones) (args : List Argumento)
      → Lee o [] args (some (record { letra = 0; opciones = o; resto = []; args = args }))
  falta :
      (o : Opciones) (c : ℕ) (fmt : List ℕ) (args : List Argumento)
      → bandera c o fmt args ≡ Paso.falta
      → Lee o (c ∷ fmt) args none
  conversion :
      (o : Opciones) (c : ℕ) (fmt : List ℕ) (args : List Argumento)
      → bandera c o fmt args ≡ Paso.conversion
      → Lee o (c ∷ fmt) args (some (record { letra = c; opciones = o; resto = fmt; args = args }))
  otra :
      {r : Option Orden} (o : Opciones) (c : ℕ) (fmt : List ℕ) (args : List Argumento)
      (o' : Opciones) (fmt' : List ℕ) (args' : List Argumento)
      → bandera c o fmt args ≡ Paso.otra o' fmt' args'
      → Lee o' fmt' args' r
      → Lee o (c ∷ fmt) args r

leer_orden-Lee :
    (n : ℕ) (o : Opciones) (fmt : List ℕ) (args : List Argumento)
    → length fmt < n
    → Lee o fmt args (leer_orden n o fmt args)
unfolding leer_orden
leer_orden-Lee zero o fmt args h = absurd (omega (arith, h))
leer_orden-Lee (suc n) o [] args h = Lee.fin o args
leer_orden-Lee (suc n) o (c ∷ fmt) args h =
    ronda (λ o' fmt' args' h'. leer_orden-Lee n o' fmt' args' (omega (arith, h, h')))
      (bandera c o fmt args) refl (bandera-CortoPaso c o fmt args)
  where
    ronda :
        ((o' : Opciones) (fmt' : List ℕ) (args' : List Argumento)
          → length fmt' ≤ length fmt
          → Lee o' fmt' args' (leer_orden n o' fmt' args'))
        → (p : Paso) → bandera c o fmt args ≡ p
        → CortoPaso (length fmt) p
        → Lee o (c ∷ fmt) args (elim p [
          | Paso.otra o' fmt' args' ↦ leer_orden n o' fmt' args'
          | Paso.falta ↦ none
          | Paso.conversion ↦ some (record { letra = c; opciones = o; resto = fmt; args = args })
        ])
    ronda ih (Paso.otra o' fmt' args') e q =
        Lee.otra o c fmt args o' fmt' args' e (ih o' fmt' args' q)
    ronda ih Paso.falta e q = Lee.falta o c fmt args e
    ronda ih Paso.conversion e q = Lee.conversion o c fmt args e

module _ {S : Type 0} (putch : ℕ → S → S) (err : ℕ → S → Option S) where
  -- The rounds of the loop over the format, without fuel: to the end of the text, or to a directive
  -- that cannot be read or carried out, the only two ways to end in none.
  pub data Acaba : List ℕ → List Argumento → S → Option S → Type 0 where
    fin : (args : List Argumento) (s : S) → Acaba [] args s (some s)
    letra :
        {r : Option S} (c : ℕ) (fmt : List ℕ) (args : List Argumento) (s : S)
        → (c == b'%') ≡ false
        → Acaba fmt args (putch c s) r
        → Acaba (c ∷ fmt) args s r
    sin_orden :
        (c : ℕ) (fmt : List ℕ) (args : List Argumento) (s : S)
        → (c == b'%') ≡ true
        → Lee sin_opciones fmt args none
        → Acaba (c ∷ fmt) args s none
    fallida :
        (c : ℕ) (fmt : List ℕ) (args : List Argumento) (s : S) (k : Orden)
        → (c == b'%') ≡ true
        → Lee sin_opciones fmt args (some k)
        → ejecutar putch err fmt k s ≡ none
        → Acaba (c ∷ fmt) args s none
    orden :
        {r : Option S} (c : ℕ) (fmt : List ℕ) (args : List Argumento) (s : S) (k : Orden) (s' : S)
        (fmt' : List ℕ) (args' : List Argumento)
        → (c == b'%') ≡ true
        → Lee sin_opciones fmt args (some k)
        → ejecutar putch err fmt k s ≡ some (s', fmt', args')
        → Acaba fmt' args' s' r
        → Acaba (c ∷ fmt) args s r

  -- What the loop does with the result of a round.
  abbrev seguir : ℕ → Sigue putch → Option S
  seguir n none = none
  seguir n (some (s', fmt', args')) = vprintfmt_con putch err n fmt' args' s'

  paso-letra :
      (c : ℕ) (fmt : List ℕ) (args : List Argumento) (s : S)
      → (c == b'%') ≡ false
      → paso putch err c fmt args s ≡ some (putch c s, fmt, args)
  unfolding paso
  paso-letra c fmt args s e = rw e refl

  abbrev hacer : List ℕ → S → Option Orden → Sigue putch
  hacer fmt s none = none
  hacer fmt s (some k) = ejecutar putch err fmt k s

  paso-orden :
      (c : ℕ) (fmt : List ℕ) (args : List Argumento) (s : S)
      → (c == b'%') ≡ true
      → paso putch err c fmt args s
        ≡ hacer fmt s (leer_orden (suc (length fmt)) sin_opciones fmt args)
  unfolding paso
  paso-orden c fmt args s e = rw e refl

  vprintfmt_con-Acaba :
      (n : ℕ) (fmt : List ℕ) (args : List Argumento) (s : S)
      → length fmt < n
      → Acaba fmt args s (vprintfmt_con putch err n fmt args s)
  unfolding vprintfmt_con
  vprintfmt_con-Acaba zero fmt args s h = absurd (omega (arith, h))
  vprintfmt_con-Acaba (suc n) [] args s h = Acaba.fin args s
  vprintfmt_con-Acaba (suc n) (c ∷ fmt) args s h =
      let ih : (fmt' : List ℕ) (args' : List Argumento) (s' : S)
          → length fmt' ≤ length fmt
          → Acaba fmt' args' s' (vprintfmt_con putch err n fmt' args' s') =
        λ fmt' args' s' h'. vprintfmt_con-Acaba n fmt' args' s' (omega (arith, h, h')) in
      elim (Bool-cases (c == b'%')) [
        | inl e ↦
            subst (λ x. Acaba (c ∷ fmt) args s (seguir n x)) (sym (paso-orden c fmt args s e))
              (leida ih e (leer_orden (suc (length fmt)) sin_opciones fmt args)
                (leer_orden-Lee (suc (length fmt)) sin_opciones fmt args (omega arith))
                (leer_orden-CortoOrden (suc (length fmt)) sin_opciones fmt args (length fmt)
                  (omega arith)))
        | inr e ↦
            subst (λ x. Acaba (c ∷ fmt) args s (seguir n x)) (sym (paso-letra c fmt args s e))
              (Acaba.letra c fmt args s e (ih fmt args (putch c s) (omega arith)))
      ]
    where
      hecha :
          ((fmt' : List ℕ) (args' : List Argumento) (s' : S)
            → length fmt' ≤ length fmt
            → Acaba fmt' args' s' (vprintfmt_con putch err n fmt' args' s'))
          → (c == b'%') ≡ true
          → (k : Orden) → Lee sin_opciones fmt args (some k)
          → (x : Sigue putch) → ejecutar putch err fmt k s ≡ x
          → CortoSigue putch (length fmt) x
          → Acaba (c ∷ fmt) args s (seguir n x)
      hecha ih e k l none es q = Acaba.fallida c fmt args s k e l es
      hecha ih e k l (some (s', fmt', args')) es q =
          Acaba.orden c fmt args s k s' fmt' args' e l es (ih fmt' args' s' q)

      leida :
          ((fmt' : List ℕ) (args' : List Argumento) (s' : S)
            → length fmt' ≤ length fmt
            → Acaba fmt' args' s' (vprintfmt_con putch err n fmt' args' s'))
          → (c == b'%') ≡ true
          → (o : Option Orden) → Lee sin_opciones fmt args o
          → CortoOrden (length fmt) o
          → Acaba (c ∷ fmt) args s (seguir n (hacer fmt s o))
      leida ih e none l q = Acaba.sin_orden c fmt args s e l
      leida ih e (some k) l q =
          hecha ih e k l (ejecutar putch err fmt k s) refl (ejecutar-CortoSigue putch err fmt k s q)

error_d_sale :
    {S : Type 0} (putch : ℕ → S → S) (num : ℕ) (s : S)
    → (s' : S) × (vprintfmt_con putch
          (λ e s1. none)
          (suc (length formato_error_d))
          formato_error_d
          (palabra num ∷ [])
          s
        ≡ some s')
unfolding vprintfmt_con paso leer_orden bandera ejecutar imprimir_d imprimir_numero imprimir_s
error_d_sale putch num s = elim (Bool-cases (ltb num (2 ^ 31))) [
  | inl e ↦ rw (e, vprintfmt_con, paso, ejecutar, imprimir_d) (_, refl)
  | inr e ↦ rw (e, vprintfmt_con, paso, ejecutar, imprimir_d) (_, refl)
]

error_s_sale :
    {S : Type 0} (putch : ℕ → S → S) (p : List ℕ) (s : S)
    → (s' : S) × (vprintfmt_con putch
          (λ e s1. none)
          (suc (length formato_s))
          formato_s
          (cadena (some p) ∷ [])
          s
        ≡ some s')
unfolding vprintfmt_con paso leer_orden bandera ejecutar imprimir_d imprimir_numero imprimir_s
error_s_sale putch p s = (_, refl)

-- The message for an error is always printed: its formats have all their arguments.
imprimir_error_sale :
    {S : Type 0} (putch : ℕ → S → S) (num : ℕ) (s : S)
    → (s' : S) × (imprimir_error putch num s ≡ some s')
unfolding imprimir_error
imprimir_error_sale putch num s = elim (Option-cases (error_string num)) [
  | inl e ↦ rw (e, imprimir_error) (error_d_sale putch num s)
  | inr (p, e) ↦ rw (e, imprimir_error) (error_s_sale putch p s)
]

-- The loop of `vprintfmt` comes to its end, and so does its loop over flags, for every format and all
-- arguments: the result is that of finitely many rounds (`Acaba`, `Lee`), which end at the end of the
-- text or at a directive whose argument is missing, and the message for an error of %e is always
-- printed. Any fuel above the length of the text gives the
-- same result.
pub vprintfmt_termina :
    {S : Type 0} (putch : ℕ → S → S) (n : ℕ) (fmt : List ℕ) (args : List Argumento) (s : S)
    → length fmt < n
    → Acaba putch (imprimir_error putch) fmt args s (vprintfmt putch fmt args s)
      × ((o : Opciones) → Lee o fmt args (leer_orden n o fmt args))
      × ((num : ℕ) (s0 : S) → (s' : S) × (imprimir_error putch num s0 ≡ some s'))
      × (vprintfmt_con putch (imprimir_error putch) n fmt args s ≡ vprintfmt putch fmt args s)
      × ((o : Opciones) → leer_orden n o fmt args ≡ leer_orden (suc (length fmt)) o fmt args)
unfolding vprintfmt
vprintfmt_termina putch n fmt args s h = (
  vprintfmt_con-Acaba putch (imprimir_error putch) (suc (length fmt)) fmt args s (omega arith),
  λ o. leer_orden-Lee n o fmt args h,
  imprimir_error_sale putch,
  vprintfmt_con-igual putch (imprimir_error putch) n (suc (length fmt)) fmt args s h (omega arith),
  λ o. leer_orden-igual n (suc (length fmt)) o fmt args h (omega arith),
)
