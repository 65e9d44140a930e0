-- ===== src/Shell/Loop.antt =====
-- The input of shell/readline.c and the loop of shell/sh.c.
pub mod Lines
use features_operating_syste.Prelude.{
  ℕ, zero, suc, ◌+◌, ◌-◌, ◌≤◌, ◌<◌, ◌≡◌, refl, sym, ◌∙◌, ap, Bool, true, false, Option, none, some,
  List, [], ◌∷◌, ◌++◌, ltb, ◌==◌, if◌then◌else◌, length, length-append, take, ℤ, pos,
}
use features_operating_syste.Shell.Calls.{Prog}
use features_operating_syste.Shell.Running.{Estado, Macros, prmtlen, run_cmd}
use features_operating_syste.Shell.Types.{Proceso}

-- BUFLEN
abbrev pub buflen : ℕ
buflen = 1024

-- What `read_line` gives: NULL, a line and the input behind it, or a write behind the buffer.
pub data Leida : Type 0 where
  fin : Leida
  linea : List ℕ → List ℕ → Leida
  desborda : Leida

abbrev pub con_byte : ℕ → Leida → Leida
con_byte x Leida.fin = Leida.fin
con_byte x (Leida.linea l r) = Leida.linea (x ∷ l) r
con_byte x Leida.desborda = Leida.desborda

-- The loop of `read_line` with `i` bytes read. (The input has no NUL.)
unfoldable pub read_line_desde : ℕ → List ℕ → Leida
read_line_desde i [] = Leida.fin
read_line_desde i (c ∷ entrada) =
    let resto = read_line_desde (suc i) entrada in
    if ltb i buflen
    then (if c == b'\n' then Leida.linea [] entrada else con_byte c resto)
    else Leida.desborda

abbrev pub read_line : List ℕ → Leida
read_line entrada = read_line_desde 0 entrada

-- `run_shell` with `main`'s return; a line takes a byte of the input at least.
unfoldable pub run_shell_desde : ℕ → Macros → Proceso → Estado → List ℕ → Prog ℤ
unfolding read_line_desde run_cmd
run_shell_desde zero m p s entrada = elim (read_line entrada) [
  | Leida.desborda ↦ Prog.fault
  | _ ↦ Prog.devuelve (pos 0)
]
run_shell_desde (suc fuel) m p s entrada = elim (read_line entrada) [
  | Leida.fin ↦ Prog.devuelve (pos 0)
  | Leida.desborda ↦ Prog.fault
  | Leida.linea cmd resto ↦ run_cmd m p s cmd λ fin s'.
      let seguir = run_shell_desde fuel m p s' resto in
      if fin then Prog.devuelve (pos 0) else seguir
]

unfoldable pub run_shell : Macros → Proceso → Estado → List ℕ → Prog ℤ
unfolding run_shell_desde
run_shell m p s entrada = run_shell_desde (length entrada) m p s entrada

-- What `init_shell` does behind the `chdir`.
abbrev pub init_signal_handlers : {A : Type 0} → Prog A → Prog A
init_signal_handlers k = Prog.sigaction λ bien. if bien then k else Prog.exit (pos 1)

unfoldable pub init_shell : {A : Type 0} → Proceso → (Estado → Prog A) → Prog A
init_shell p k = elim (p.getenv (b'H' ∷ b'O' ∷ b'M' ∷ b'E' ∷ [])) [
  | none ↦ init_signal_handlers (k (record { status = pos 0; prompt = [] }))
  | some home ↦ Prog.chdir home λ r. elim r [
    | none ↦ init_signal_handlers (k (record { status = pos 0; prompt = [] }))
    | some cwd ↦
        let prompt = take (prmtlen - 1) (b'(' ∷ (home ++ (b')' ∷ []))) in
        init_signal_handlers (k (record { status = pos 0; prompt = prompt }))
  ]
]

unfoldable pub main : Macros → Proceso → List ℕ → Prog ℤ
unfolding init_shell run_shell
main m p entrada = init_shell p λ s. run_shell m p s entrada
