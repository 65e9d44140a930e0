-- ===== src/Shell/Descriptors/Success.antt =====
-- The case PIPE of `exec_cmd` in shell/exec.c when no call fails: what is started, and with what.
use features_operating_syste.Prelude.{
  ℕ, suc, ◌+◌, ◌≤◌, ◌≡◌, ◌≢◌, refl, sym, ◌∙◌, ap, true, false, none, some, List, [], ◌∷◌, ◌++◌,
  append-nil, if◌then◌else◌, update, ==_refl, ne→==, ◌==◌, arith, ℤ, pos, ltb_ℤ, eqb_ℤ,
}
use features_operating_syste.Shell.Calls.{Prog}
use features_operating_syste.Shell.Types.{Cmd, Resultado, Proceso}
use features_operating_syste.Shell.Exec.{
  valor_de_error, set_environ_vars, ejecutar, exec_execcmd, exec_pipe, exec_cmd,
}
use features_operating_syste.Shell.Parsing.{parse_line}
use features_operating_syste.Shell.Parsing.Words.{unir}
use features_operating_syste.Shell.Parsing.Pipes.{
  Orden, Ordenes, escribir_linea, simple, arbol, parse_line-escribir_linea,
}
use features_operating_syste.Shell.Descriptors.{Descriptor, Tabla, leer, cerrar, Todos}
use features_operating_syste.Shell.Descriptors.Pipeline.{
  con_pipe, extremos, Conectada, exec_cmd-Conectada,
}

-- What a process and those that it makes start when every call succeeds, in the order in which the
-- processes are made: a new descriptor is the next number `sig`, and a program that is started does
-- not come back.
unfoldable pub lanzados : {A : Type 0} → ℕ → ℕ → Tabla → Prog A → List (List (List ℕ) × Tabla)
lanzados sig i t (Prog.devuelve a) = []
lanzados sig i t (Prog.execvp argv k) = (argv, t) ∷ []
lanzados sig i t (Prog.setenv n v k) = lanzados sig i t k
lanzados sig i t (Prog.abrir file modo k) =
    lanzados (suc sig) i (update t sig (some (Descriptor.archivo file modo))) (k (pos sig))
lanzados sig i t (Prog.dup2 de a k) = lanzados sig i (update t a (leer t de)) (k (pos a))
lanzados sig i t (Prog.close fd k) = lanzados sig i (cerrar t fd) k
lanzados sig i t (Prog.pipe k) =
    lanzados (sig + 2) (suc i) (con_pipe i t sig (suc sig)) (k (some (pos sig, pos (suc sig))))
lanzados sig i t (Prog.fork k) = lanzados sig i t (k (pos 0)) ++ lanzados sig i t (k (pos 1))
lanzados sig i t (Prog.wait k) = lanzados sig i t k
lanzados sig i t (Prog.waitpid pid k) = lanzados sig i t (k (some (pos 0)))
lanzados sig i t (Prog.getpid k) = lanzados sig i t (k (pos 1))
lanzados sig i t (Prog.setpgid pid k) = lanzados sig i t k
lanzados sig i t (Prog.chdir dir k) = lanzados sig i t (k none)
lanzados sig i t (Prog.sigaction k) = lanzados sig i t (k true)
lanzados sig i t (Prog.exit z) = []
lanzados sig i t Prog.fault = []

-- The commands of a line in order, each with the descriptors that it is to have.
abbrev pub conexiones : ℕ → Tabla → List (List (List ℕ)) → List (List (List ℕ) × Tabla)
conexiones i t [] = []
conexiones i t (ws ∷ []) = (ws, t) ∷ []
conexiones i t (ws ∷ vs ∷ os) =
    (ws, update t 1 (some (Descriptor.escritor i)))
    ∷ conexiones (suc i) (update t 0 (some (Descriptor.lector i))) (vs ∷ os)

-- A copy of one end over an open descriptor, with both ends closed at last.
movida :
    (t T : Tabla) (p q a : ℕ) (D : Descriptor)
    → ((n : ℕ) → (n == p) ≡ false → (n == q) ≡ false → T n ≡ t n)
    → t p ≡ none
    → t q ≡ none
    → t a ≢ none
    → p ≢ q
    → T q ≡ some D
    → update (update (update T p none) a (update T p none q)) q none ≡ update t a (some D)
movida t T p q a D fuera cp cq abierto distintos tiene =
    let otro : (q == p) ≡ false = ne→== q p (λ e. distintos (sym e)) in
    let igual : update T p none q ≡ some D = rw otro tiene in
    ap (λ c. update (update (update T p none) a c) q none) igual
    ∙ extremos t T p q a D fuera cp cq abierto

juntar : {A : Type 0} (a b c us vs : List A) → a ≡ us → b ≡ vs → c ≡ [] → a ++ (b ++ c) ≡ us ++ vs
juntar a b c us vs ea eb ec = rw (ea, eb, ec, append-nil) refl

exec_pipe-lanzados :
    {A : Type 0} (izquierda derecha : Prog A → Prog A) (k : Prog A) (sig i : ℕ) (t : Tabla)
    (us vs : List (List (List ℕ) × Tabla))
    → ((n : ℕ) → sig ≤ n → t n ≡ none)
    → t 0 ≢ none
    → t 1 ≢ none
    → ((s j : ℕ) (t' : Tabla) → lanzados s j t' k ≡ [])
    → ((resto : Prog A)
        → lanzados (sig + 2) (suc i) (update t 1 (some (Descriptor.escritor i))) (izquierda resto)
          ≡ us)
    → ((resto : Prog A)
        → ((s j : ℕ) (t' : Tabla) → lanzados s j t' resto ≡ [])
        → lanzados (sig + 2) (suc i) (update t 0 (some (Descriptor.lector i))) (derecha resto) ≡ vs)
    → lanzados sig i t (exec_pipe izquierda derecha k) ≡ us ++ vs
unfolding exec_pipe lanzados
exec_pipe-lanzados izquierda derecha k sig i t us vs libres a0 a1 vk vi vd =
    let r = sig in
    let w = suc sig in
    let T = con_pipe i t r w in
    let distintos : r ≢ w = λ e. omega (arith, e) in
    let cr = libres r (omega arith) in
    let cw = libres w (omega arith) in
    let en_w : T w ≡ some (Descriptor.escritor i) = rw (==_refl w) refl in
    let en_r : T r ≡ some (Descriptor.lector i) = rw (ne→== r w distintos, ==_refl r) refl in
    let final = Prog.close (pos r) (Prog.wait (Prog.wait k)) in
    let vf : (s j : ℕ) (t' : Tabla) → lanzados s j t' final ≡ [] =
      λ s j t'. vk s j (cerrar t' (pos r)) in
    let hijo_2 = Prog.dup2 (pos r) 0 (λ z.
      if ltb_ℤ z (pos 0) then Prog.exit valor_de_error else Prog.close (pos r) (derecha final)) in
    let padre = Prog.close (pos w) (
      Prog.fork λ pid.
        if ltb_ℤ pid (pos 0)
        then Prog.exit valor_de_error
        else if eqb_ℤ pid (pos 0)
        then hijo_2
        else final) in
    juntar _ _ _ us vs
      (ap (λ x. lanzados (sig + 2) (suc i) x (izquierda padre))
          (movida t T r w 1 (Descriptor.escritor i) (λ n e f. rw (f, e) refl) cr cw a1 distintos
            en_w)
        ∙ vi padre)
      (ap (λ x. lanzados (sig + 2) (suc i) x (derecha final))
          (movida t T w r 0 (Descriptor.lector i) (λ n e f. rw (e, f) refl) cw cr a0
            (λ e. distintos (sym e)) en_r)
        ∙ vd final vf)
      (vf (sig + 2) (suc i) (update T w none))

arbol-lanzados :
    (A : Type 0) (ws : List (List ℕ)) (os : List (List (List ℕ))) (bg_pgid : ℤ) (k : Prog A)
    (sig i : ℕ) (t : Tabla)
    → ((n : ℕ) → sig ≤ n → t n ≡ none)
    → t 0 ≢ none
    → t 1 ≢ none
    → ((s j : ℕ) (t' : Tabla) → lanzados s j t' k ≡ [])
    → lanzados sig i t (exec_cmd (arbol (ws ∷ os)) bg_pgid k) ≡ conexiones i t (ws ∷ os)
unfolding exec_cmd exec_execcmd ejecutar set_environ_vars lanzados
arbol-lanzados A ws [] bg_pgid k sig i t libres a0 a1 vk = refl
arbol-lanzados A ws (vs ∷ os) bg_pgid k sig i t libres a0 a1 vk =
    let primero = simple (unir ws ++ (b' ' ∷ [])) ws in
    let t' = update t 0 (some (Descriptor.lector i)) in
    let libres' : (n : ℕ) → sig + 2 ≤ n → t' n ≡ none =
      λ n h. let otro : (n == 0) ≡ false = ground arith in rw otro (libres n (omega arith)) in
    exec_pipe-lanzados (λ resto. exec_cmd primero bg_pgid resto)
      (λ resto. exec_cmd (arbol (vs ∷ os)) bg_pgid resto) k sig i t
      ((ws, update t 1 (some (Descriptor.escritor i))) ∷ []) (conexiones (suc i) t' (vs ∷ os))
      libres a0 a1 vk (λ resto. refl)
      (λ resto vr.
        arbol-lanzados A vs os bg_pgid resto (sig + 2) (suc i) t' libres' (λ e. absurd (cc)) a1 vr)

-- For a line of plain commands with pipes between them, and the command that `parse_line` gives for
-- it. Whatever the system answers to the calls, a process only ever starts one of the line's
-- commands, with its words as arguments and with these descriptors: 0 is the reading end of the pipe
-- before it, 1 the writing end of the pipe behind it, the first and the last command keep the
-- shell's, and all others are the shell's too, so that no process keeps an end of a pipe open beside
-- them; nothing faults. When no call fails, every command is started exactly once, in their order, with
-- these arguments and descriptors. (0 and 1 are open in the shell, from `sig` on its descriptors are
-- closed, and the command is run as `run_cmd` runs it in its child.)
pub exec_cmd-conexiones :
    (anterior : ℕ) (p : Proceso) (ws : List (List ℕ)) (os : List (List (List ℕ))) (c : Cmd)
    (sig i : ℕ) (t : Tabla)
    → Orden ws
    → Ordenes os
    → parse_line anterior p (escribir_linea (ws ∷ os)) ≡ Resultado.listo c
    → ((n : ℕ) → sig ≤ n → t n ≡ none)
    → t 0 ≢ none
    → t 1 ≢ none
    → Todos (Conectada i t (ws ∷ os)) i t (exec_cmd {A = Unit {0}} c (pos 0) (Prog.exit (pos 0)))
      × (lanzados sig i t (exec_cmd {A = Unit {0}} c (pos 0) (Prog.exit (pos 0)))
          ≡ conexiones i t (ws ∷ os))
unfolding lanzados
exec_cmd-conexiones anterior p ws os c sig i t o r leida libres a0 a1 =
    let es_arbol : arbol (ws ∷ os) ≡ c =
      cc (parse_line-escribir_linea anterior p ws os o r, leida) in
    (
      exec_cmd-Conectada anterior p ws os c i t o r leida a0 a1,
      ap (λ c. lanzados sig i t (exec_cmd {A = Unit {0}} c (pos 0) (Prog.exit (pos 0))))
            (sym es_arbol)
          ∙ arbol-lanzados (Unit {0}) ws os (pos 0) (Prog.exit (pos 0)) sig i t libres a0 a1
              (λ s j t'. refl),
    )
