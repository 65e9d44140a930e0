-- ===== src/Shell/Exec.antt =====
-- `exec_cmd` of shell/exec.c. What follows if it returns is an argument.
use features_operating_syste.Prelude.{
  ℕ, ◌+◌, none, some, List, [], ◌∷◌, if◌then◌else◌, take, drop, ℤ, pos, negsuc, ltb_ℤ, eqb_ℤ,
}
use features_operating_syste.FileSystem.Types.{str_eq}
use features_operating_syste.Shell.Calls.{Modo, Prog}
use features_operating_syste.Shell.Text.{block_contains}
use features_operating_syste.Shell.Types.{ExecType, ExecCmd, Cmd}

-- VALOR_DE_ERROR
abbrev pub valor_de_error : ℤ
valor_de_error = negsuc 0

-- The key is the text before the first '=', and the value the text behind it; a text without '=' is
-- skipped.
unfoldable pub set_environ_vars : {A : Type 0} → List (List ℕ) → Prog A → Prog A
set_environ_vars [] k = k
set_environ_vars (arg ∷ eargv) k = elim (block_contains arg b'=') [
  | none ↦ set_environ_vars eargv k
  | some idx ↦ Prog.setenv (take idx arg) (drop (idx + 1) arg) (set_environ_vars eargv k)
]

unfoldable pub redirect_fd : {A : Type 0} → List ℕ → Modo → ℕ → Prog A → Prog A
redirect_fd file modo fd_to_redirect k = Prog.abrir file modo λ fd.
    if ltb_ℤ fd (pos 0)
    then Prog.exit valor_de_error
    else Prog.dup2 fd fd_to_redirect
        λ r. if ltb_ℤ r (pos 0) then Prog.exit valor_de_error else Prog.close fd k

-- `redirect_stdin`, `redirect_stdout` and `redirect_stderr`: an empty name means no redirection.
unfoldable pub redirigir : {A : Type 0} → List ℕ → Modo → ℕ → Prog A → Prog A
unfolding redirect_fd
redirigir [] modo fd k = k
redirigir (x ∷ file) modo fd k = redirect_fd (x ∷ file) modo fd k

-- The case EXEC.
unfoldable pub ejecutar : {A : Type 0} → ExecCmd → Prog A
unfolding set_environ_vars
ejecutar e = set_environ_vars e.eargv (Prog.execvp e.argv (Prog.exit valor_de_error))

-- The case REDIR, which ends in the case EXEC.
unfoldable pub redirigir_y_ejecutar : {A : Type 0} → ExecCmd → Prog A
unfolding redirigir ejecutar
redirigir_y_ejecutar r = redirigir r.in_file Modo.lectura 0 (
    redirigir r.out_file Modo.escritura 1 (
      if str_eq r.err_file r.out_file
      then Prog.dup2 (pos 1) 2 (λ _. ejecutar r)
      else redirigir r.err_file Modo.escritura 2 (ejecutar r)))

unfoldable pub exec_execcmd : {A : Type 0} → ExecType → ExecCmd → Prog A
unfolding redirigir_y_ejecutar
exec_execcmd ExecType.exec e = ejecutar e
exec_execcmd ExecType.redir e = redirigir_y_ejecutar e

-- The case PIPE, for the processes that the two commands make. A child that comes back from its
-- command goes on behind its branch, as the parent does.
unfoldable pub exec_pipe : {A : Type 0} → (Prog A → Prog A) → (Prog A → Prog A) → Prog A → Prog A
exec_pipe izquierda derecha k = Prog.pipe λ pipefd. elim pipefd [
  | none ↦ Prog.exit valor_de_error
  | some (lec, esc) ↦
      let final = Prog.close lec (Prog.wait (Prog.wait k)) in
      let hijo_2 = Prog.dup2 lec 0 (λ r.
        if ltb_ℤ r (pos 0) then Prog.exit valor_de_error else Prog.close lec (derecha final)) in
      let padre = Prog.close esc (
        Prog.fork λ pid2.
          if ltb_ℤ pid2 (pos 0)
          then Prog.exit valor_de_error
          else if eqb_ℤ pid2 (pos 0)
          then hijo_2
          else final) in
      let hijo_1 = Prog.close lec (
        Prog.dup2 esc 1 (λ r.
          if ltb_ℤ r (pos 0)
          then Prog.exit valor_de_error
          else Prog.close esc (izquierda padre))) in
      Prog.fork λ pid1.
        if ltb_ℤ pid1 (pos 0)
        then Prog.exit valor_de_error
        else if eqb_ℤ pid1 (pos 0)
        then hijo_1
        else padre
]

-- `bg_pgid` is the process's own copy of the global.
unfoldable pub exec_cmd : {A : Type 0} → Cmd → ℤ → Prog A → Prog A
unfolding exec_execcmd exec_pipe
exec_cmd Cmd.null bg_pgid k = Prog.fault
exec_cmd (Cmd.execcmd e) bg_pgid k = exec_execcmd e.type e
exec_cmd (Cmd.backcmd scmd c) bg_pgid k =
    if eqb_ℤ bg_pgid (pos 0)
    then Prog.getpid (λ pid. Prog.setpgid pid (exec_cmd c pid k))
    else Prog.setpgid bg_pgid (exec_cmd c bg_pgid k)
exec_cmd (Cmd.pipecmd l r) bg_pgid k =
    exec_pipe (λ sigue. exec_cmd l bg_pgid sigue) (λ sigue. exec_cmd r bg_pgid sigue) k
