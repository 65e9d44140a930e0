-- ===== src/Shell/Running.antt =====
-- The built-in commands of shell/builtin.c, shell/freecmd.c, shell/printstatus.c and `run_cmd` of
-- shell/runcmd.c.
use features_operating_syste.Prelude.{
  ℕ, ◌-◌, Bool, true, false, ◌&&◌, Option, none, some, List, [], ◌∷◌, ◌==◌, if◌then◌else◌, length,
  take, drop, ℤ, pos, eqb_ℤ,
}
use features_operating_syste.FileSystem.Types.{str_eq}
use features_operating_syste.Shell.Calls.{Prog}
use features_operating_syste.Shell.Exec.{exec_cmd}
use features_operating_syste.Shell.Parsing.{parse_line}
use features_operating_syste.Shell.Types.{Cmd, Resultado, Proceso}

-- The globals of the shell. `bg_pgid` is 0 and is written in child processes only.
pub record Estado : Type 0 where
  pub status : ℤ
  pub prompt : List ℕ

-- What the C library reads from a wait status.
pub record Macros : Type 0 where
  pub wifexited : ℤ → Bool
  pub wexitstatus : ℤ → ℤ
  pub wifsignaled : ℤ → Bool
  pub menos_wtermsig : ℤ → ℤ
  pub wtermsig_no_es_cero : ℤ → Bool
  pub menos_wstopsig : ℤ → ℤ

-- "exit", "cd", "cd ", "pwd", "history"
abbrev pub texto_exit : List ℕ
texto_exit = b'e' ∷ b'x' ∷ b'i' ∷ b't' ∷ []

abbrev pub texto_cd : List ℕ
texto_cd = b'c' ∷ b'd' ∷ []

abbrev pub texto_pwd : List ℕ
texto_pwd = b'p' ∷ b'w' ∷ b'd' ∷ []

abbrev pub texto_history : List ℕ
texto_history = b'h' ∷ b'i' ∷ b's' ∷ b't' ∷ b'o' ∷ b'r' ∷ b'y' ∷ []

abbrev pub exit_shell : List ℕ → Bool
exit_shell cmd = str_eq cmd texto_exit

abbrev pub pwd : List ℕ → Bool
pwd cmd = str_eq cmd texto_pwd

abbrev pub history : List ℕ → Bool
history cmd = str_eq cmd texto_history

-- The directory that `cd` changes to: `none` where the line is no `cd`; `some none` is NULL.
unfoldable pub destino_cd : Proceso → List ℕ → Option (Option (List ℕ))
destino_cd p cmd =
    if str_eq cmd texto_cd
    then some (p.getenv (b'H' ∷ b'O' ∷ b'M' ∷ b'E' ∷ []))
    else if str_eq (take 3 cmd) (b'c' ∷ b'd' ∷ b' ' ∷ [])
    then some (some (drop 3 cmd))
    else none

-- `snprintf(prompt, sizeof(prompt), "%s", …)`
abbrev pub prmtlen : ℕ
prmtlen = 1024

-- `cd`, with what follows for a result of 1 and of 0. (`chdir(NULL)` fails.)
unfoldable pub cd : {A : Type 0} → Proceso → Estado → List ℕ → (Estado → Prog A) → Prog A → Prog A
unfolding destino_cd
cd p s cmd hecho no_hecho = elim (destino_cd p cmd) [
  | none ↦ no_hecho
  | some none ↦ no_hecho
  | some (some dir) ↦ Prog.chdir dir λ r. elim r [
    | none ↦ no_hecho
    | some cwd ↦ hecho (record s { prompt = take (prmtlen - 1) cwd })
  ]
]

-- Whether every pointer that `free_command` reads through is valid.
unfoldable pub free_command : Cmd → Bool
free_command Cmd.null = false
free_command (Cmd.pipecmd l r) = free_command l && free_command r
free_command (Cmd.backcmd scmd c) = free_command c
free_command (Cmd.execcmd e) = true

-- The text of a command; that of a pipe is empty.
abbrev pub scmd_de : Cmd → List ℕ
scmd_de Cmd.null = []
scmd_de (Cmd.execcmd e) = e.scmd
scmd_de (Cmd.backcmd s c) = s
scmd_de (Cmd.pipecmd l r) = []

-- The status that `print_status_info` leaves.
unfoldable pub print_status_info : Macros → Cmd → ℤ → ℤ
print_status_info m c status =
    if length (scmd_de c) == 0
    then status
    else if m.wifexited status
    then m.wexitstatus status
    else if m.wifsignaled status
    then m.menos_wtermsig status
    else if m.wtermsig_no_es_cero status
    then m.menos_wstopsig status
    else status

abbrev pub es_back : Cmd → Bool
es_back (Cmd.backcmd s c) = true
es_back c = false

abbrev pub liberar_y_seguir : {A : Type 0} → Cmd → Prog A → Prog A
liberar_y_seguir c k = if free_command c then k else Prog.fault

-- `run_cmd` from the fork on, with what follows in the shell. NULL is read in both processes.
unfoldable pub correr : {A : Type 0} → Macros → Estado → Cmd → (Estado → Prog A) → Prog A
unfolding exec_cmd print_status_info free_command
correr m s Cmd.null k = Prog.fork λ p. Prog.fault
correr m s parsed k = Prog.fork λ p.
    if eqb_ℤ p (pos 0)
    then exec_cmd parsed (pos 0) (Prog.exit (pos 0))
    else if es_back parsed
    then liberar_y_seguir parsed (k s)
    else Prog.waitpid p λ nuevo.
      let status : ℤ = elim nuevo [ none ↦ s.status | some z ↦ z ] in
      liberar_y_seguir parsed (k (record s { status = print_status_info m parsed status }))

-- What follows gets whether the shell ends. The texts of the built-in commands differ from one
-- another, but a `cd` that fails goes on to the parser. (The byte before the line's buffer is taken to
-- be 0.)
unfoldable pub run_cmd :
    {A : Type 0} → Macros → Proceso → Estado → List ℕ → (Bool → Estado → Prog A) → Prog A
unfolding cd correr
run_cmd m p s [] k = k false s
run_cmd m p s (x ∷ cmd) k =
    if history (x ∷ cmd)
    then k false s
    else cd p s (x ∷ cmd) (k false) (
        if exit_shell (x ∷ cmd)
        then k true s
        else if pwd (x ∷ cmd)
        then k false s
        else elim (parse_line 0 (record p { status = s.status }) (x ∷ cmd)) [
          | Resultado.listo parsed ↦ correr m s parsed (k false)
          | Resultado.desborda ↦ Prog.fault
          | Resultado.sale ↦ Prog.exit (pos 1)
        ])
