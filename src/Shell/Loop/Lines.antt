-- ===== src/Shell/Loop/Lines.antt =====
-- How `run_shell` of shell/sh.c takes its input apart into lines.
use features_operating_syste.Prelude.{
  ℕ, ◌<◌, ◌≡◌, false, List, [], ◌∷◌, ◌++◌, ◌==◌, if◌then◌else◌, length, ℤ, pos,
}
use features_operating_syste.Shell.Calls.{Prog}
use features_operating_syste.Shell.Running.{Estado, Macros, run_cmd}
use features_operating_syste.Shell.Types.{Proceso}

-- The lines in turn.
abbrev pub run_lineas : Macros → Proceso → Estado → List (List ℕ) → Prog ℤ
run_lineas m p s [] = Prog.devuelve (pos 0)
run_lineas m p s (l ∷ lineas) =
    run_cmd m p s l λ fin s'.
      let seguir = run_lineas m p s' lineas in if fin then Prog.devuelve (pos 0) else seguir

-- The text of lines, each with its end.
abbrev pub texto_de : List (List ℕ) → List ℕ
texto_de [] = []
texto_de (l ∷ lineas) = l ++ (b'\n' ∷ texto_de lineas)

-- No byte is a line's end.
abbrev pub SinFin : List ℕ → Type 0
SinFin [] = Unit {0}
SinFin (x ∷ s) = ((x == b'\n') ≡ false) × SinFin s

abbrev pub Lineas : List (List ℕ) → Type 0
Lineas [] = Unit {0}
Lineas (l ∷ lineas) = (SinFin l × (length l < 1024)) × Lineas lineas

-- The end of an input: bytes without a line's end behind the last line.
pub record Cola (cola : List ℕ) : Type 0 where
  pub sin_fin : SinFin cola
  pub cabe : length cola < 1025
