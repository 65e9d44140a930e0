-- ===== src/Shell/Types.antt =====
-- The commands of shell/types.h and their constructors of shell/createcmd.c. A `struct cmd *` is a
-- `Cmd`, with `null` for NULL; a C string is the list of the bytes before its NUL.
use features_operating_syste.Prelude.{ℕ, Bool, ℤ, Option, List, []}

-- MAXARGS
abbrev pub maxargs : ℕ
maxargs = 20

-- EXEC and REDIR, the two types that an `execcmd` can have.
pub data ExecType : Type 0 where
  exec redir : ExecType

-- `struct execcmd`. `argv` is the arguments before the NULL, so that `argc` is its length, and
-- `eargv` likewise. (`pid` is set for a message only.)
pub record ExecCmd : Type 0 where
  pub type : ExecType
  pub scmd : List ℕ
  pub argv : List (List ℕ)
  pub eargv : List (List ℕ)
  pub out_file : List ℕ
  pub in_file : List ℕ
  pub err_file : List ℕ

pub data Cmd : Type 0 where
  null : Cmd
  execcmd : ExecCmd → Cmd
  backcmd : List ℕ → Cmd → Cmd
  pipecmd : Cmd → Cmd → Cmd

-- What `calloc` gives, with the text of the command.
abbrev pub exec_cmd_create : List ℕ → ExecCmd
exec_cmd_create buf_cmd = record {
  type = ExecType.exec;
  scmd = buf_cmd;
  argv = [];
  eargv = [];
  out_file = [];
  in_file = [];
  err_file = [];
}

-- The command that `parse_exec` gave is not NULL.
abbrev pub back_cmd_create : ExecCmd → Cmd
back_cmd_create c = Cmd.backcmd c.scmd (Cmd.execcmd c)

abbrev pub pipe_cmd_create : Cmd → Cmd → Cmd
pipe_cmd_create left Cmd.null = left
pipe_cmd_create left (Cmd.execcmd e) = Cmd.pipecmd left (Cmd.execcmd e)
pipe_cmd_create left (Cmd.backcmd s c) = Cmd.pipecmd left (Cmd.backcmd s c)
pipe_cmd_create left (Cmd.pipecmd l r) = Cmd.pipecmd left (Cmd.pipecmd l r)

-- How parsing ends: with a value, with a write behind the end of an array, or with
-- `exit(EXIT_FAILURE)`.
pub data Resultado (A : Type 0) : Type 0 where
  listo : A → Resultado A
  desborda : Resultado A
  sale : Resultado A

infixl 5 ◌>>=◌
abbrev pub ◌>>=◌ : {A B : Type 0} → Resultado A → (A → Resultado B) → Resultado B
Resultado.listo a >>= f = f a
Resultado.desborda >>= f = Resultado.desborda
Resultado.sale >>= f = Resultado.sale

-- What parsing takes from the process: the environment, the decimal text of an `int`, the last
-- status, and whether `realloc` finds so many bytes.
pub record Proceso : Type 0 where
  pub getenv : List ℕ → Option (List ℕ)
  pub decimal : ℤ → List ℕ
  pub status : ℤ
  pub realloc : ℕ → Bool
