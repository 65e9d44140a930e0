-- ===== src/Kernel/Console/Print.antt =====
-- `vcprintf` of scheduler/kern/printf.c, on the console of scheduler/kern/console.c.
use features_operating_syste.Prelude.{
  ℕ, ◌+◌, ◌≡◌, ap, ◌∙◌, Option, some, List, [], ◌∷◌, length, arith,
}
use features_operating_syste.UserLib.Format.Numbers.{Argumento}
use features_operating_syste.UserLib.Format.Run.{vprintfmt}
use features_operating_syste.UserLib.Format.Any.{volcar, texto, vprintfmt-volcar}
use features_operating_syste.Kernel.Console.Ports.{Puertos, Equipo}
use features_operating_syste.Kernel.Console.Screen.{cons_putc, cputs}
use features_operating_syste.Kernel.Console.Roll.{Papel, Muestra, imprimir_todo}
use features_operating_syste.Kernel.Console.Paper.{cputs-Muestra}

module _ {D : Type 0} (p : Puertos D) where
  -- `putch`, with the count behind the pointer.
  abbrev pub contar_putch : ℕ → Equipo D × ℕ → Equipo D × ℕ
  contar_putch ch (e, cnt) = (cons_putc p ch e, cnt + 1)

  -- The console, and the count that is returned.
  unfoldable pub vcprintf : List ℕ → List Argumento → Equipo D → Option (Equipo D × ℕ)
  vcprintf fmt args e = vprintfmt contar_putch fmt args (e, 0)

  volcar-cputs :
      (l : List ℕ) (e : Equipo D) (n : ℕ)
      → volcar contar_putch l (e, n) ≡ (cputs p l e, n + length l)
  unfolding cputs
  volcar-cputs [] e n = ap (λ (k : ℕ). (e, k)) (omega arith)
  volcar-cputs (c ∷ l) e n =
      volcar-cputs l (cons_putc p c e) (n + 1)
      ∙ ap (λ (k : ℕ). (cputs p l (cons_putc p c e), k)) (omega arith)

  -- For a format and arguments that print a text, `vcprintf` returns the length of the text, and a screen
  -- that shows a roll of paper then shows the paper with the text printed on it.
  pub vcprintf-Muestra :
      (fmt : List ℕ) (args : List Argumento) (t : Papel) (e : Equipo D) {l : List ℕ}
      → texto fmt args ≡ some l
      → Muestra 2000 t e
      → (e' : Equipo D) × (vcprintf fmt args e ≡ some (e', length l))
        × Muestra 2000 (imprimir_todo l t) e'
  unfolding vcprintf
  vcprintf-Muestra fmt args t e {l} h v = (
    cputs p l e,
    vprintfmt-volcar contar_putch fmt args (e, 0) h
        ∙ ap some (volcar-cputs l e 0)
        ∙ ap (λ (k : ℕ). some (cputs p l e, k)) (omega arith),
    cputs-Muestra p l t e v,
  )
