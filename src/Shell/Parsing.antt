-- ===== src/Shell/Parsing.antt =====
-- The parser of shell/parsing.c. Strings that a function cuts in place are values here: nothing
-- reads the cut part again.
pub mod Words
pub mod Separators
pub mod Pipes
pub mod Bounds
use features_operating_syste.Prelude.{
  ℕ, zero, suc, ◌+◌, ◌-◌, Bool, true, false, not, ◌&&◌, ◌||◌, Option, none, some, List, [], ◌∷◌,
  ◌++◌, ltb, leb, ◌==◌, if◌then◌else◌, length, take, drop,
}
use features_operating_syste.FileSystem.Types.{str_eq}
use features_operating_syste.Shell.Types.{
  maxargs, ExecType, ExecCmd, Cmd, exec_cmd_create, back_cmd_create, pipe_cmd_create, Resultado,
  ◌>>=◌, Proceso,
}
use features_operating_syste.Shell.Text.{split_line, block_contains}

-- The bytes up to a space or the end.
unfoldable pub get_token : List ℕ → List ℕ
get_token [] = []
get_token (x ∷ s) = if x == b' ' then [] else x ∷ get_token s

-- The three cases of the switch; at an index above 1 the argument is dropped.
abbrev pub redirigir_salida : ExecCmd → List ℕ → ℕ → ExecCmd
redirigir_salida c arg zero = record c { type = ExecType.redir; out_file = drop 1 arg }
redirigir_salida c arg (suc zero) =
    let nombre = drop 2 arg in
    record c {
      type = ExecType.redir;
      err_file = if str_eq nombre (b'&' ∷ b'1' ∷ []) then c.out_file else nombre;
    }
redirigir_salida c arg (suc (suc n)) = record c { type = ExecType.redir }

-- `none` is `false`.
unfoldable pub parse_redir_flow : ExecCmd → List ℕ → Option ExecCmd
unfolding block_contains
parse_redir_flow c arg = elim (block_contains arg b'>') [
  | some i ↦ some (redirigir_salida c arg i)
  | none ↦ elim (block_contains arg b'<') [
    | some i ↦ some (record c { type = ExecType.redir; in_file = drop 1 arg })
    | none ↦ none
  ]
]

-- `block_contains(arg, '=') > 0` and `block_contains(arg, '-') < 0`
unfoldable pub es_variable : List ℕ → Bool
unfolding block_contains
es_variable arg = elim (block_contains arg b'=') [
  | none ↦ false
  | some zero ↦ false
  | some (suc i) ↦ elim (block_contains arg b'-') [ none ↦ true | some j ↦ false ]
]

unfoldable pub expand_environ_var : Proceso → List ℕ → Resultado (List ℕ)
expand_environ_var p [] = Resultado.listo []
expand_environ_var p (x ∷ s) =
    if not (x == b'$')
    then Resultado.listo (x ∷ s)
    else if str_eq s (b'?' ∷ [])
    then Resultado.listo (p.decimal p.status)
    else elim (p.getenv s) [
      | none ↦ Resultado.listo []
      | some value ↦
          if ltb (suc (length s)) (length value) && not (p.realloc (length value + 1))
          then Resultado.sale
          else Resultado.listo value
    ]

-- `c->argv[argc++] = tok`, unless the token is empty.
abbrev pub agregar_argumento : ExecCmd → List ℕ → Resultado ExecCmd
agregar_argumento c [] = Resultado.listo c
agregar_argumento c (x ∷ s) =
    if ltb (length c.argv) maxargs
    then Resultado.listo (record c { argv = c.argv ++ ((x ∷ s) ∷ []) })
    else Resultado.desborda

-- The body of the loop of `parse_exec` for one token, `parse_environ_var` included.
unfoldable pub procesar : Proceso → ExecCmd → List ℕ → Resultado ExecCmd
unfolding parse_redir_flow es_variable expand_environ_var
procesar p c tok = elim (parse_redir_flow c tok) [
  | some c' ↦ Resultado.listo c'
  | none ↦
      if es_variable tok
      then (if ltb (length c.eargv) maxargs
          then Resultado.listo (record c { eargv = c.eargv ++ (tok ∷ []) })
          else Resultado.desborda)
      else (expand_environ_var p tok >>= λ t. agregar_argumento c t)
]

-- `c->argv[argc] = NULL`
abbrev pub cerrar_argv : ExecCmd → Resultado ExecCmd
cerrar_argv c = if ltb (length c.argv) maxargs then Resultado.listo c else Resultado.desborda

-- The loop of `parse_exec` on the text from `idx`; every round moves on by a byte at least.
unfoldable pub parse_exec_desde : ℕ → Proceso → ExecCmd → List ℕ → Resultado ExecCmd
unfolding get_token procesar
parse_exec_desde fuel p c [] = cerrar_argv c
parse_exec_desde zero p c (x ∷ s) = Resultado.desborda
parse_exec_desde (suc fuel) p c (x ∷ s) =
    let tok = get_token (x ∷ s) in
    procesar p c tok >>= λ c'. parse_exec_desde fuel p c' (drop (length tok + 1) (x ∷ s))

unfoldable pub parse_exec : Proceso → List ℕ → Resultado ExecCmd
unfolding parse_exec_desde
parse_exec p buf_cmd = parse_exec_desde (length buf_cmd) p (exec_cmd_create buf_cmd) buf_cmd

-- The command behind the '&' is dropped.
unfoldable pub parse_back : Proceso → List ℕ → ℕ → Resultado Cmd
unfolding parse_exec
parse_back p buf_cmd i = parse_exec p (take i buf_cmd) >>= λ e. Resultado.listo (back_cmd_create e)

-- `buf[i - 1] != '>'`, for an `i` of at least 1.
abbrev pub tras_mayor : List ℕ → ℕ → Bool
tras_mayor [] i = false
tras_mayor (x ∷ s) zero = false
tras_mayor (x ∷ s) (suc zero) = x == b'>'
tras_mayor (x ∷ s) (suc (suc i)) = tras_mayor s (suc i)

-- At a '&' that stands first, `buf_cmd[-1]` is a byte before the text, which the parameter gives.
unfoldable pub parse_cmd : ℕ → Proceso → List ℕ → Resultado Cmd
unfolding parse_exec parse_back block_contains
parse_cmd anterior p [] = Resultado.listo Cmd.null
parse_cmd anterior p (x ∷ s) = elim (block_contains (x ∷ s) b'&') [
  | none ↦ parse_exec p (x ∷ s) >>= λ e. Resultado.listo (Cmd.execcmd e)
  | some i ↦
      if (if i == 0 then anterior == b'>' else tras_mayor (x ∷ s) i)
      then (parse_exec p (x ∷ s) >>= λ e. Resultado.listo (Cmd.execcmd e))
      else parse_back p (x ∷ s) i
]

-- `block_contains(right, '|') > 0`
abbrev pub sigue_pipe : List ℕ → Bool
sigue_pipe right = elim (block_contains right b'|') [
  | none ↦ false
  | some zero ↦ false
  | some (suc i) ↦ true
]

-- `parse_line`; the text on the right is shorter than `buf` where it has a '|'. The byte before it is
-- the NUL that `split_line` wrote, or a space.
unfoldable pub parse_line_desde : ℕ → ℕ → Proceso → List ℕ → Resultado Cmd
unfolding parse_cmd split_line block_contains
parse_line_desde zero anterior p buf = Resultado.desborda
parse_line_desde (suc fuel) anterior p buf =
    let (izquierda, right) = split_line buf b'|' in
    let resto : Resultado Cmd = parse_line_desde fuel 0 p right in
    parse_cmd anterior p izquierda >>= λ l.
    ((if sigue_pipe right then resto else parse_cmd 0 p right) >>= λ r.
    Resultado.listo (pipe_cmd_create l r))

unfoldable pub parse_line : ℕ → Proceso → List ℕ → Resultado Cmd
unfolding parse_line_desde
parse_line anterior p buf = parse_line_desde (suc (length buf)) anterior p buf
