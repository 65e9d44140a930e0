-- ===== src/Shell/Descriptors/Redirect.antt =====
-- Redirections: the case REDIR of `exec_cmd` in shell/exec.c.
use features_operating_syste.Prelude.{
  ℕ, ◌≡◌, true, false, Option, none, some, List, [], ◌∷◌, update, ◌⊎◌, ◌≤◌, take, drop, ◌+◌,
}
use features_operating_syste.FileSystem.Types.{str_eq}
use features_operating_syste.Shell.Calls.{Modo, Prog}
use features_operating_syste.Shell.Types.{ExecCmd}
use features_operating_syste.Shell.Exec.{valor_de_error, set_environ_vars, ejecutar}
use features_operating_syste.Shell.Text.{block_contains}
use features_operating_syste.Shell.Descriptors.{Descriptor, Tabla, Todos}

-- The table with a descriptor redirected to a file, unless the name is empty.
abbrev pub con_archivo : List ℕ → Modo → ℕ → Tabla → Tabla
con_archivo [] modo fd t = t
con_archivo (x ∷ file) modo fd t = update t fd (some (Descriptor.archivo (x ∷ file) modo))

set_environ_vars-Todos :
    {A : Type 0} (Q : List (List ℕ) → Tabla → Type 0) (eargv : List (List ℕ)) (i : ℕ) (t : Tabla)
    (k : Prog A)
    → Todos Q i t k
    → Todos Q i t (set_environ_vars eargv k)
unfolding set_environ_vars Todos
set_environ_vars-Todos Q [] i t k v = v
set_environ_vars-Todos Q (arg ∷ eargv) i t k v =
    let resto = set_environ_vars-Todos Q eargv i t k v in
    elim (block_contains arg b'=')
      as (λ o. Todos Q i t (elim o [
        | none ↦ set_environ_vars eargv k
        | some idx ↦ Prog.setenv (take idx arg) (drop (idx + 1) arg) (set_environ_vars eargv k)
      ])) [ none ↦ resto | some idx ↦ resto ]

pub ejecutar-Todos :
    (A : Type 0) (Q : List (List ℕ) → Tabla → Type 0) (e : ExecCmd) (i : ℕ) (t : Tabla)
    → Q e.argv t
    → Todos Q i t (ejecutar {A = A} e)
unfolding ejecutar Todos
ejecutar-Todos A Q e i t v =
    set_environ_vars-Todos Q e.eargv i t (Prog.execvp e.argv (Prog.exit valor_de_error)) (v, tt)

-- The descriptor for a name: what it was where the name is empty.
abbrev pub o_archivo : List ℕ → Modo → Option Descriptor → Option Descriptor
o_archivo [] modo d = d
o_archivo (x ∷ file) modo d = some (Descriptor.archivo (x ∷ file) modo)

-- What the program of a redirected command starts with.
pub record Redirigido (e : ExecCmd) (t : Tabla) (argv : List (List ℕ)) (t' : Tabla) : Type 0 where
  pub argumentos : argv ≡ e.argv
  pub entrada : t' 0 ≡ o_archivo e.in_file Modo.lectura (t 0)
  pub salida : t' 1 ≡ o_archivo e.out_file Modo.escritura (t 1)
  pub errores_iguales :
      str_eq e.err_file e.out_file ≡ true
      → (t' 2 ≡ o_archivo e.out_file Modo.escritura (t 1)) ⊎ (t' 2 ≡ t 2)
  pub errores_distintos :
      str_eq e.err_file e.out_file ≡ false → t' 2 ≡ o_archivo e.err_file Modo.escritura (t 2)
  pub demas : (n : ℕ) → 3 ≤ n → t' n ≡ t n

module _ (e : ExecCmd) (t : Tabla) where
  abbrev dos : Tabla
  dos = con_archivo e.out_file Modo.escritura 1 (con_archivo e.in_file Modo.lectura 0 t)
