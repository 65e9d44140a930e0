-- ===== src/Shell/Calls.antt =====
-- The system calls that a process makes, as a tree: every call has what follows for each answer.
use features_operating_syste.Prelude.{ℕ, Bool, Option, List, ℤ}

-- O_RDONLY, and O_CREAT | O_WRONLY | O_TRUNC with the mode S_IWUSR | S_IRUSR.
pub data Modo : Type 0 where
  lectura escritura : Modo

-- A process that may return a value of `A`. Messages on the terminal are left out.
pub data Prog (A : Type 0) : Type 0 where
  devuelve : A → Prog A
  -- the program's arguments, and what follows if the call fails
  execvp : List (List ℕ) → Prog A → Prog A
  setenv : List ℕ → List ℕ → Prog A → Prog A
  abrir : List ℕ → Modo → (ℤ → Prog A) → Prog A
  dup2 : ℤ → ℕ → (ℤ → Prog A) → Prog A
  close : ℤ → Prog A → Prog A
  -- the two ends, or a failure
  pipe : (Option (ℤ × ℤ) → Prog A) → Prog A
  fork : (ℤ → Prog A) → Prog A
  wait : Prog A → Prog A
  -- the status, or a failure
  waitpid : ℤ → (Option ℤ → Prog A) → Prog A
  getpid : (ℤ → Prog A) → Prog A
  setpgid : ℤ → Prog A → Prog A
  -- whether it succeeds, and the directory's name then
  chdir : List ℕ → (Option (List ℕ) → Prog A) → Prog A
  -- whether it succeeds
  sigaction : (Bool → Prog A) → Prog A
  exit : ℤ → Prog A
  -- a NULL pointer is read, or an array is left
  fault : Prog A
