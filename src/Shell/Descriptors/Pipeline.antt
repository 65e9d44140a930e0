-- ===== src/Shell/Descriptors/Pipeline.antt =====
-- Pipes: the case PIPE of `exec_cmd` in shell/exec.c.
use features_operating_syste.Prelude.{
  ℕ, suc, ◌≡◌, ◌≢◌, refl, sym, fun_ext, ◌∙◌, ap, subst, false, none, some, List, [], ◌∷◌, ◌++◌,
  if◌then◌else◌, update, ltb_ℤ, eqb_ℤ, ==_refl, ne→==, ==→eq, ◌==◌, arith, ℤ, pos, negsuc,
  Bool-cases, inl, inr, ◌⊎◌,
}
use features_operating_syste.Shell.Calls.{Prog}
use features_operating_syste.Shell.Types.{Cmd, Resultado, Proceso, exec_cmd_create}
use features_operating_syste.Shell.Exec.{valor_de_error, exec_execcmd, exec_pipe, exec_cmd}
use features_operating_syste.Shell.Parsing.Pipes.{
  Orden, Ordenes, escribir_linea, simple, arbol, parse_line-escribir_linea,
}
use features_operating_syste.Shell.Parsing.Words.{unir}
use features_operating_syste.Shell.Parsing.{parse_line}
use features_operating_syste.Shell.Descriptors.{Descriptor, Tabla, cerrar, Todos}
use features_operating_syste.Shell.Descriptors.Redirect.{ejecutar-Todos}

-- Two closed descriptors that were opened are closed again, with another one changed between.
pub extremos :
    (t T : Tabla) (p q a : ℕ) (d : Descriptor)
    → ((n : ℕ) → (n == p) ≡ false → (n == q) ≡ false → T n ≡ t n)
    → t p ≡ none
    → t q ≡ none
    → t a ≢ none
    → update (update (update T p none) a (some d)) q none ≡ update t a (some d)
extremos t T p q a d fuera cp cq abierto = fun_ext (λ n. punto n)
  where
    ajeno : (n : ℕ) → t n ≡ none → (n == a) ≡ false
    ajeno n h = ne→== n a (λ e. abierto (sym (ap t e) ∙ h))

    punto : (n : ℕ) → update (update (update T p none) a (some d)) q none n ≡ update t a (some d) n
    punto n = elim (Bool-cases (n == q)) [
      | inl e ↦ let h : t n ≡ none = ap t (==→eq n q e) ∙ cq in rw (e, ajeno n h) (sym h)
      | inr e ↦ elim (Bool-cases (n == p)) [
        | inl f ↦ let h : t n ≡ none = ap t (==→eq n p f) ∙ cp in rw (e, f, ajeno n h) (sym h)
        | inr f ↦ rw (e, f, fuera n f e) refl
      ]
    ]

-- The descriptors behind the call of `pipe`.
abbrev pub con_pipe : ℕ → Tabla → ℕ → ℕ → Tabla
con_pipe i t r w = update (update t r (some (Descriptor.lector i))) w (some (Descriptor.escritor i))

-- A copy of one end over an open descriptor, with both ends closed at last.
mover :
    {A : Type 0} (Q : List (List ℕ) → Tabla → Type 0) (i : ℕ) (t T : Tabla) (p q a : ℕ)
    (D : Descriptor) (k : Prog A)
    → ((n : ℕ) → (n == p) ≡ false → (n == q) ≡ false → T n ≡ t n)
    → t p ≡ none
    → t q ≡ none
    → t a ≢ none
    → p ≢ q
    → T q ≡ some D
    → Todos Q i (update t a (some D)) k
    → Todos Q i (update T p none) (
        Prog.dup2
          (pos q)
          a
          (λ r. if ltb_ℤ r (pos 0) then Prog.exit valor_de_error else Prog.close (pos q) k))
unfolding Todos
mover Q i t T p q a D k fuera cp cq abierto distintos tiene v = (
  λ e. tt,
  λ d leido.
      let bien : ltb_ℤ (pos a) (pos 0) ≡ false = ground arith in
      let otro : (q == p) ≡ false = ne→== q p (λ e. distintos (sym e)) in
      let igual : update T p none q ≡ some D = rw otro tiene in
      rw bien (
        subst (λ t'. Todos Q i t' k)
          (sym (extremos t T p q a D fuera cp cq abierto)
            ∙ ap (λ c. update (update (update T p none) a c) q none) (sym igual ∙ leido))
          v),
)

-- What follows a `fork`: a failure, the child, and the parent.
ramas :
    {A : Type 0} (Q : List (List ℕ) → Tabla → Type 0) (i : ℕ) (t : Tabla) (hijo padre : Prog A)
    → Todos Q i t hijo
    → Todos Q i t padre
    → (pid : ℤ)
    → Todos Q i t (
        if ltb_ℤ pid (pos 0)
        then Prog.exit valor_de_error
        else if eqb_ℤ pid (pos 0)
        then hijo
        else padre)
unfolding Todos
ramas Q i t hijo padre vh vp (negsuc n) = tt
ramas Q i t hijo padre vh vp (pos n) =
    let bien : ltb_ℤ (pos n) (pos 0) ≡ false = ground arith in
    rw bien (elim (Bool-cases (n == 0)) [ inl e ↦ rw e vh | inr e ↦ rw e vp ])

-- The two processes of a pipe, for commands of which the first never comes back.
exec_pipe-Todos :
    {A : Type 0} (Q : List (List ℕ) → Tabla → Type 0) (izquierda derecha : Prog A → Prog A)
    (k : Prog A) (i : ℕ) (t : Tabla)
    → t 0 ≢ none
    → t 1 ≢ none
    → ((j : ℕ) (t' : Tabla) → Todos Q j t' k)
    → ((resto : Prog A)
        → Todos Q (suc i) (update t 1 (some (Descriptor.escritor i))) (izquierda resto))
    → ((resto : Prog A)
        → ((j : ℕ) (t' : Tabla) → Todos Q j t' resto)
        → Todos Q (suc i) (update t 0 (some (Descriptor.lector i))) (derecha resto))
    → Todos Q i t (exec_pipe izquierda derecha k)
unfolding exec_pipe Todos
exec_pipe-Todos Q izquierda derecha k i t a0 a1 vk vi vd = (
  tt,
  λ r w cr cw distintos.
      let T = con_pipe i t r w in
      let en_w : T w ≡ some (Descriptor.escritor i) = rw (==_refl w) refl in
      let en_r : T r ≡ some (Descriptor.lector i) = rw (ne→== r w distintos, ==_refl r) refl in
      let final = Prog.close (pos r) (Prog.wait (Prog.wait k)) in
      let vf : (j : ℕ) (t' : Tabla) → Todos Q j t' final = λ j t'. vk j (cerrar t' (pos r)) in
      let hijo_2 = Prog.dup2 (pos r) 0 (λ z.
        if ltb_ℤ z (pos 0) then Prog.exit valor_de_error else Prog.close (pos r) (derecha final)) in
      let padre = Prog.close (pos w) (
        Prog.fork λ pid.
          if ltb_ℤ pid (pos 0)
          then Prog.exit valor_de_error
          else if eqb_ℤ pid (pos 0)
          then hijo_2
          else final) in
      let hijo_1 = Prog.close (pos r) (
        Prog.dup2 (pos w) 1 (λ z.
          if ltb_ℤ z (pos 0)
          then Prog.exit valor_de_error
          else Prog.close (pos w) (izquierda padre))) in
      ramas Q (suc i) T hijo_1 padre
        (mover Q (suc i) t T r w 1 (Descriptor.escritor i) (izquierda padre)
          (λ n e f. rw (f, e) refl) cr cw a1 distintos en_w (vi padre))
        (ramas Q (suc i) (update T w none) hijo_2 final
          (mover Q (suc i) t T w r 0 (Descriptor.lector i) (derecha final) (λ n e f. rw (e, f) refl)
            cw cr a0 (λ e. distintos (sym e)) en_r (vd final vf))
          (vf (suc i) (update T w none))),
)

-- One of the commands of a line, with the descriptors that it is to have: the first reads what the
-- shell reads, the last writes where the shell writes, between two commands there is a pipe, and all other
-- descriptors are the shell's. `i` numbers the next pipe.
abbrev pub Conectada : ℕ → Tabla → List (List (List ℕ)) → List (List ℕ) → Tabla → Type 0
Conectada i t [] argv t' = ⊥
Conectada i t (ws ∷ []) argv t' = (argv ≡ ws) × (t' ≡ t)
Conectada i t (ws ∷ vs ∷ os) argv t' =
    ((argv ≡ ws) × (t' ≡ update t 1 (some (Descriptor.escritor i))))
    ⊎ Conectada (suc i) (update t 0 (some (Descriptor.lector i))) (vs ∷ os) argv t'

simple-Todos :
    (A : Type 0) (Q : List (List ℕ) → Tabla → Type 0) (texto : List ℕ) (ws : List (List ℕ))
    (bg_pgid : ℤ) (k : Prog A) (i : ℕ) (t : Tabla)
    → Q ws t
    → Todos Q i t (exec_cmd (simple texto ws) bg_pgid k)
unfolding exec_cmd exec_execcmd
simple-Todos A Q texto ws bg_pgid k i t v =
    let c = exec_cmd_create texto in ejecutar-Todos A Q (record c { argv = ws }) i t v

-- Whatever holds of the commands of a line holds of all programs that the tree of the line starts.
arbol-Todos :
    (A : Type 0) (Q : List (List ℕ) → Tabla → Type 0) (ws : List (List ℕ))
    (os : List (List (List ℕ))) (bg_pgid : ℤ) (k : Prog A) (i : ℕ) (t : Tabla)
    → t 0 ≢ none
    → t 1 ≢ none
    → ((j : ℕ) (t' : Tabla) → Todos Q j t' k)
    → ((argv : List (List ℕ)) (t' : Tabla) → Conectada i t (ws ∷ os) argv t' → Q argv t')
    → Todos Q i t (exec_cmd (arbol (ws ∷ os)) bg_pgid k)
unfolding exec_cmd
arbol-Todos A Q ws [] bg_pgid k i t a0 a1 vk v =
    simple-Todos A Q (unir ws) ws bg_pgid k i t (v ws t (refl, refl))
arbol-Todos A Q ws (vs ∷ os) bg_pgid k i t a0 a1 vk v =
    let texto = unir ws ++ (b' ' ∷ []) in
    exec_pipe-Todos Q (λ resto. exec_cmd (simple texto ws) bg_pgid resto)
      (λ resto. exec_cmd (arbol (vs ∷ os)) bg_pgid resto) k i t a0 a1 vk
      (λ resto.
        simple-Todos A Q texto ws bg_pgid resto (suc i) (update t 1 (some (Descriptor.escritor i)))
          (v ws (update t 1 (some (Descriptor.escritor i))) (inl (refl, refl))))
      (λ resto vr.
        arbol-Todos A Q vs os bg_pgid resto (suc i) (update t 0 (some (Descriptor.lector i)))
          (λ e. absurd (cc)) a1 vr (λ argv t' h. v argv t' (inr h)))

-- Every program that the command of such a line starts is one of its commands, in its place.
pub exec_cmd-Conectada :
    (anterior : ℕ) (p : Proceso) (ws : List (List ℕ)) (os : List (List (List ℕ))) (c : Cmd) (i : ℕ)
    (t : Tabla)
    → Orden ws
    → Ordenes os
    → parse_line anterior p (escribir_linea (ws ∷ os)) ≡ Resultado.listo c
    → t 0 ≢ none
    → t 1 ≢ none
    → Todos (Conectada i t (ws ∷ os)) i t (exec_cmd {A = Unit {0}} c (pos 0) (Prog.exit (pos 0)))
unfolding Todos
exec_cmd-Conectada anterior p ws os c i t o r leida a0 a1 =
    let es_arbol : arbol (ws ∷ os) ≡ c =
      cc (parse_line-escribir_linea anterior p ws os o r, leida) in
    subst
      (λ c.
        Todos (Conectada i t (ws ∷ os)) i t (exec_cmd {A = Unit {0}} c (pos 0) (Prog.exit (pos 0))))
      es_arbol
      (arbol-Todos (Unit {0}) (Conectada i t (ws ∷ os)) ws os (pos 0) (Prog.exit (pos 0)) i t a0 a1
        (λ j t'. tt) (λ argv t' h. h))
