-- ===== src/Shell/Tests.antt =====
-- Runs of the shell's parser and of the commands that it gives.
use features_operating_syste.Prelude.{
  ℕ, ◌≤◌, ◌≡◌, refl, true, false, none, some, List, [], ◌∷◌, pos, arith, ltb, if◌then◌else◌,
}
use features_operating_syste.Shell.Calls.{Prog}
use features_operating_syste.Shell.Types.{
  ExecType, ExecCmd, Cmd, Resultado, Proceso, exec_cmd_create, maxargs,
}
use features_operating_syste.Shell.Parsing.{parse_line, parse_exec}
use features_operating_syste.Shell.Parsing.Words.{unir}
use features_operating_syste.Shell.Parsing.Bounds.{parse_exec-unir}
use features_operating_syste.Shell.Parsing.Pipes.{
  Orden, escribir_linea, arbol, parse_line-escribir_linea,
}
use features_operating_syste.Shell.Exec.{exec_cmd}
use features_operating_syste.Shell.Running.{Estado, Macros}
use features_operating_syste.Shell.Descriptors.{Descriptor, Tabla, Todos}
use features_operating_syste.Shell.Descriptors.Pipeline.{Conectada}
use features_operating_syste.Shell.Descriptors.Success.{lanzados, conexiones, exec_cmd-conexiones}

abbrev proceso : Proceso
proceso = record {
  getenv = λ s. none;
  decimal = λ z. b'0' ∷ [];
  status = pos 0;
  realloc = λ n. true;
}

-- "a b|c"
linea_pipe :
    parse_line 0 proceso (b'a' ∷ b' ' ∷ b'b' ∷ b'|' ∷ b'c' ∷ [])
    ≡ Resultado.listo (
        Cmd.pipecmd
          (let e = exec_cmd_create (b'a' ∷ b' ' ∷ b'b' ∷ []) in
            Cmd.execcmd (record e { argv = (b'a' ∷ []) ∷ (b'b' ∷ []) ∷ [] }))
          (let e = exec_cmd_create (b'c' ∷ []) in
            Cmd.execcmd (record e { argv = (b'c' ∷ []) ∷ [] })))
unfolding parse_line
linea_pipe = refl

-- "ls -l" and "wc"
abbrev ls : List (List ℕ)
ls = (b'l' ∷ b's' ∷ []) ∷ (b'-' ∷ b'l' ∷ []) ∷ []

abbrev wc : List (List ℕ)
wc = (b'w' ∷ b'c' ∷ []) ∷ []

ls-Orden : Orden ls
ls-Orden = record {
  palabras_comunes = ((refl, (refl, tt)), ((refl, (refl, tt)), tt));
  no_vacia = λ e. absurd (cc);
  caben = omega arith;
}

wc-Orden : Orden wc
wc-Orden = record {
  palabras_comunes = ((refl, (refl, tt)), tt);
  no_vacia = λ e. absurd (cc);
  caben = omega arith;
}

-- 0, 1 and 2 are open.
abbrev abiertos : Tabla
abiertos n = if ltb n 3 then some (Descriptor.heredado n) else none

cerrados : (n : ℕ) → 3 ≤ n → abiertos n ≡ none
cerrados n h = let otro : ltb n 3 ≡ false = ground arith in rw otro refl

-- "wc <b >c" and an equal name for the errors
abbrev redirigido : ExecCmd
redirigido = record {
  type = ExecType.redir;
  scmd = b'w' ∷ b'c' ∷ [];
  argv = wc;
  eargv = [];
  out_file = b'c' ∷ [];
  in_file = b'b' ∷ [];
  err_file = b'c' ∷ [];
}

parse_exec-unir_example :
    let c = exec_cmd_create (unir ls) in
    parse_exec proceso (unir ls)
    ≡ (if ltb 2 maxargs then Resultado.listo (record c { argv = ls }) else Resultado.desborda)
parse_exec-unir_example = parse_exec-unir proceso ls (ls-Orden.palabras_comunes)

parse_line-escribir_linea_example :
    parse_line 0 proceso (escribir_linea (ls ∷ wc ∷ wc ∷ []))
    ≡ Resultado.listo (arbol (ls ∷ wc ∷ wc ∷ []))
parse_line-escribir_linea_example =
    parse_line-escribir_linea 0 proceso ls (wc ∷ wc ∷ []) ls-Orden (wc-Orden, (wc-Orden, tt))

exec_cmd-conexiones_example :
    Todos
      (Conectada 0 abiertos (ls ∷ wc ∷ wc ∷ []))
      0
      abiertos
      (exec_cmd {A = Unit {0}} (arbol (ls ∷ wc ∷ wc ∷ [])) (pos 0) (Prog.exit (pos 0)))
    × (lanzados 3 0 abiertos
          (exec_cmd {A = Unit {0}} (arbol (ls ∷ wc ∷ wc ∷ [])) (pos 0) (Prog.exit (pos 0)))
        ≡ conexiones 0 abiertos (ls ∷ wc ∷ wc ∷ []))
exec_cmd-conexiones_example =
    exec_cmd-conexiones 0 proceso ls (wc ∷ wc ∷ []) (arbol (ls ∷ wc ∷ wc ∷ [])) 3 0 abiertos
      ls-Orden (wc-Orden, (wc-Orden, tt))
      (parse_line-escribir_linea 0 proceso ls (wc ∷ wc ∷ []) ls-Orden (wc-Orden, (wc-Orden, tt)))
      cerrados (λ e. absurd (cc)) (λ e. absurd (cc))

-- The globals and the macros of a run.
abbrev estado : Estado
estado = record { status = pos 0; prompt = [] }

abbrev macros : Macros
macros = record {
  wifexited = λ z. true;
  wexitstatus = λ z. z;
  wifsignaled = λ z. false;
  menos_wtermsig = λ z. z;
  wtermsig_no_es_cero = λ z. false;
  menos_wstopsig = λ z. z;
}
