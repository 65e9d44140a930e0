-- ===== src/UserLib/Format/Any.antt =====
-- `vprintfmt` of scheduler/lib/printfmt.c does with every `putch` the same: it prints one text.
use features_operating_syste.Prelude.{
  ℕ, ◌≡◌, refl, ap, sym, ◌∙◌, Option, none, some, List, [], ◌∷◌, ◌++◌,
}
use features_operating_syste.UserLib.Format.Numbers.{Argumento}
use features_operating_syste.UserLib.Format.Run.{vprintfmt}
use features_operating_syste.UserLib.Format.Lift.{vprintfmt-h}

-- Every character of a text, in order.
abbrev pub volcar : {S : Type 0} → (ℕ → S → S) → List ℕ → S → S
volcar putch [] s = s
volcar putch (c ∷ l) s = volcar putch l (putch c s)

-- The text itself: what a `putch` that collects the characters is given.
abbrev pub texto : List ℕ → List Argumento → Option (List ℕ)
texto fmt args = vprintfmt (λ c l. l ++ (c ∷ [])) fmt args []

volcar-append :
    {S : Type 0} (putch : ℕ → S → S) (l : List ℕ) (c : ℕ) (s : S)
    → volcar putch (l ++ (c ∷ [])) s ≡ putch c (volcar putch l s)
volcar-append putch [] c s = refl
volcar-append putch (x ∷ l) c s = volcar-append putch l c (putch x s)

-- Whatever `putch` does, `vprintfmt` calls it on the characters of one text, in order, which depends on the
-- format and the arguments alone; and it gives a result for every `putch`, or for none.
vprintfmt-texto :
    {S : Type 0} (putch : ℕ → S → S) (fmt : List ℕ) (args : List Argumento) (s : S)
    → vprintfmt putch fmt args s
      ≡ elim (texto fmt args) [ none ↦ none | some l ↦ some (volcar putch l s) ]
vprintfmt-texto putch fmt args s = sym (
    vprintfmt-h (λ c l. l ++ (c ∷ [])) putch (λ l. volcar putch l s)
      (λ c l. volcar-append putch l c s) fmt args [])

pub vprintfmt-volcar :
    {S : Type 0} (putch : ℕ → S → S) (fmt : List ℕ) (args : List Argumento) (s : S) {l : List ℕ}
    → texto fmt args ≡ some l
    → vprintfmt putch fmt args s ≡ some (volcar putch l s)
vprintfmt-volcar {S} putch fmt args s e =
    vprintfmt-texto putch fmt args s
    ∙ ap
        (λ (t : Option (List ℕ)). elim t as (λ x. Option S) [
          | none ↦ none
          | some l ↦ some (volcar putch l s)
        ])
        e
