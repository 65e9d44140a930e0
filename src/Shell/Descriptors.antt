-- ===== src/Shell/Descriptors.antt =====
-- What the processes of `exec_cmd` in shell/exec.c have as open descriptors.
pub mod Redirect
pub mod Pipeline
pub mod Success
use features_operating_syste.Prelude.{
  ℕ, suc, Bool, ◌≡◌, ◌≢◌, Option, none, some, List, ℤ, pos, negsuc, update,
}
use features_operating_syste.Shell.Calls.{Modo, Prog}

-- What a descriptor stands for: what it was in the beginning, a file that was opened since, or an end
-- of a pipe that was made since (pipes are numbered).
pub data Descriptor : Type 0 where
  heredado : ℕ → Descriptor
  archivo : List ℕ → Modo → Descriptor
  lector escritor : ℕ → Descriptor

-- The descriptors of a process: `none` is a closed one.
abbrev pub Tabla : Type 0
Tabla = ℕ → Option Descriptor

abbrev pub leer : Tabla → ℤ → Option Descriptor
leer t (pos n) = t n
leer t (negsuc n) = none

abbrev pub cerrar : Tabla → ℤ → Tabla
cerrar t (pos n) = update t n none
cerrar t (negsuc n) = t

-- Every program that a process, or one that it makes, tries to start satisfies `Q` with its
-- arguments and descriptors, and no process faults: for all answers of the system, where `abrir` and
-- `pipe` answer with closed descriptors, `dup2` succeeds for an open one, a number below 0 is a failure, and
-- both sides of a `fork` begin with the same descriptors. `i` pipes were made before.
unfoldable pub Todos : {A : Type 0} → (List (List ℕ) → Tabla → Type 0) → ℕ → Tabla → Prog A → Type 0
Todos Q i t (Prog.devuelve a) = Unit {0}
Todos Q i t (Prog.execvp argv k) = Q argv t × Todos Q i t k
Todos Q i t (Prog.setenv n v k) = Todos Q i t k
Todos Q i t (Prog.abrir file modo k) =
    ((e : ℕ) → Todos Q i t (k (negsuc e)))
    × ((fd : ℕ)
        → t fd ≡ none
        → Todos Q i (update t fd (some (Descriptor.archivo file modo))) (k (pos fd)))
Todos Q i t (Prog.dup2 de a k) =
    ((e : ℕ) → Todos Q i t (k (negsuc e)))
    × ((d : Descriptor) → leer t de ≡ some d → Todos Q i (update t a (some d)) (k (pos a)))
Todos Q i t (Prog.close fd k) = Todos Q i (cerrar t fd) k
Todos Q i t (Prog.pipe k) =
    Todos Q i t (k none)
    × ((r w : ℕ)
        → t r ≡ none
        → t w ≡ none
        → r ≢ w
        → Todos Q (suc i)
            (update (update t r (some (Descriptor.lector i))) w (some (Descriptor.escritor i)))
            (k (some (pos r, pos w))))
Todos Q i t (Prog.fork k) = (pid : ℤ) → Todos Q i t (k pid)
Todos Q i t (Prog.wait k) = Todos Q i t k
Todos Q i t (Prog.waitpid pid k) = (status : Option ℤ) → Todos Q i t (k status)
Todos Q i t (Prog.getpid k) = (pid : ℤ) → Todos Q i t (k pid)
Todos Q i t (Prog.setpgid pid k) = Todos Q i t k
Todos Q i t (Prog.chdir dir k) = (r : Option (List ℕ)) → Todos Q i t (k r)
Todos Q i t (Prog.sigaction k) = (b : Bool) → Todos Q i t (k b)
Todos Q i t (Prog.exit z) = Unit {0}
Todos Q i t Prog.fault = ⊥
