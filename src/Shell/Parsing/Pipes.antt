-- ===== src/Shell/Parsing/Pipes.antt =====
-- Command lines of plain words and pipes, and the tree that `parse_line` of shell/parsing.c builds.
use features_operating_syste.Prelude.{
  ℕ, zero, suc, ◌≤◌, ◌<◌, ◌≡◌, ◌≢◌, refl, sym, ◌∙◌, ap, subst, append-nil, true, false, some, List,
  [], ◌∷◌, ◌++◌, append_assoc, ◌==◌, length, length-append, arith,
}
use features_operating_syste.Shell.Types.{
  Cmd, exec_cmd_create, pipe_cmd_create, Resultado, ◌>>=◌, Proceso,
}
use features_operating_syste.Shell.Text.{sin_espacios, split_line, block_contains}
use features_operating_syste.Shell.Parsing.{
  parse_exec, parse_cmd, sigue_pipe, parse_line_desde, parse_line,
}
use features_operating_syste.Shell.Parsing.Words.{
  comun, Palabra, Palabras, unir, palabras-unir, palabras-unir_espacio, parse_exec-Palabras,
}
use features_operating_syste.Shell.Parsing.Separators.{
  Sin, Sin-append, block_contains-Sin, block_contains-corte, split_line-Sin, split_line-corte,
  unir-Sin,
}

-- A command of one to 19 plain words.
pub record Orden (ws : List (List ℕ)) : Type 0 where
  pub palabras_comunes : Palabras ws
  pub no_vacia : ws ≢ []
  pub caben : length ws < 20

abbrev pub Ordenes : List (List (List ℕ)) → Type 0
Ordenes [] = Unit {0}
Ordenes (ws ∷ os) = Orden ws × Ordenes os

-- The line as it is typed: words with spaces between them, commands with " | " between them.
abbrev pub escribir_linea : List (List (List ℕ)) → List ℕ
escribir_linea [] = []
escribir_linea (ws ∷ []) = unir ws
escribir_linea (ws ∷ vs ∷ os) = unir ws ++ (b' ' ∷ b'|' ∷ b' ' ∷ escribir_linea (vs ∷ os))

-- The command for a text with these words.
abbrev pub simple : List ℕ → List (List ℕ) → Cmd
simple texto ws = let c = exec_cmd_create texto in Cmd.execcmd (record c { argv = ws })

-- The tree leans to the right.
abbrev pub arbol : List (List (List ℕ)) → Cmd
arbol [] = Cmd.null
arbol (ws ∷ []) = simple (unir ws) ws
arbol (ws ∷ vs ∷ os) = Cmd.pipecmd (simple (unir ws ++ (b' ' ∷ [])) ws) (arbol (vs ∷ os))

-- A text that is not empty and has no '&' is one command.
parse_cmd-Sin :
    (anterior : ℕ) (p : Proceso) (s : List ℕ)
    → s ≢ []
    → Sin b'&' s
    → parse_cmd anterior p s ≡ (parse_exec p s >>= λ e. Resultado.listo (Cmd.execcmd e))
unfolding parse_cmd
parse_cmd-Sin anterior p [] ne v = absurd (ne refl)
parse_cmd-Sin anterior p (x ∷ s) ne v = rw (parse_cmd, block_contains-Sin b'&' (x ∷ s) v) refl

-- A word at the front: the text is not empty and begins with no space.
abbrev Empieza : List ℕ → Type 0
Empieza [] = ⊥
Empieza (x ∷ s) = comun x ≡ true

Palabra-Empieza : (w t : List ℕ) → Palabra w → Empieza (w ++ t)
Palabra-Empieza [] t v = absurd v
Palabra-Empieza (x ∷ w) t (v, vs) = v

unir-Empieza : (ws : List (List ℕ)) (t : List ℕ) → Orden ws → Empieza (unir ws ++ t)
unir-Empieza [] t o = absurd (o.no_vacia refl)
unir-Empieza (w ∷ []) t o = Palabra-Empieza w t (o.palabras_comunes.0)
unir-Empieza (w ∷ u ∷ ws) t o =
    subst Empieza (sym (append_assoc w (b' ' ∷ unir (u ∷ ws)) t))
      (Palabra-Empieza w ((b' ' ∷ unir (u ∷ ws)) ++ t) (o.palabras_comunes.0))

escribir_linea-Empieza :
    (ws : List (List ℕ)) (os : List (List (List ℕ))) → Orden ws → Empieza (escribir_linea (ws ∷ os))
escribir_linea-Empieza ws [] o = subst Empieza (append-nil (unir ws)) (unir-Empieza ws [] o)
escribir_linea-Empieza ws (vs ∷ os) o =
    unir-Empieza ws (b' ' ∷ b'|' ∷ b' ' ∷ escribir_linea (vs ∷ os)) o

Empieza-ne-nil : (s : List ℕ) → Empieza s → s ≢ []
Empieza-ne-nil [] v e = absurd v
Empieza-ne-nil (x ∷ s) v e = absurd (cc)

sin_espacios-Empieza : (s : List ℕ) → Empieza s → sin_espacios (b' ' ∷ s) ≡ s
sin_espacios-Empieza [] v = absurd v
sin_espacios-Empieza (x ∷ s) v = let otro : (x == b' ') ≡ false = ground arith in rw otro refl

-- The left side of a '|' is a command of its own.
parse_cmd-izquierda :
    (anterior : ℕ) (p : Proceso) (ws : List (List ℕ))
    → Orden ws
    → parse_cmd anterior p (unir ws ++ (b' ' ∷ []))
      ≡ Resultado.listo (simple (unir ws ++ (b' ' ∷ [])) ws)
parse_cmd-izquierda anterior p ws o =
    let texto = unir ws ++ (b' ' ∷ []) in
    parse_cmd-Sin anterior p texto (Empieza-ne-nil texto (unir-Empieza ws (b' ' ∷ []) o)) (
      Sin-append b'&' (unir ws) (b' ' ∷ []) (unir-Sin b'&' ws refl refl o.palabras_comunes)
        (refl, tt))
    ∙ ap (λ r. r >>= λ e. Resultado.listo (Cmd.execcmd e))
        (parse_exec-Palabras p texto ws o.palabras_comunes
          (palabras-unir_espacio ws o.palabras_comunes o.no_vacia) o.caben)

-- So is the last command.
parse_cmd-derecha :
    (anterior : ℕ) (p : Proceso) (ws : List (List ℕ))
    → Orden ws
    → parse_cmd anterior p (unir ws) ≡ Resultado.listo (simple (unir ws) ws)
parse_cmd-derecha anterior p ws o =
    parse_cmd-Sin anterior p (unir ws) (Empieza-ne-nil (unir ws) (escribir_linea-Empieza ws [] o))
      (unir-Sin b'&' ws refl refl o.palabras_comunes)
    ∙ ap (λ r. r >>= λ e. Resultado.listo (Cmd.execcmd e))
        (parse_exec-Palabras p (unir ws) ws o.palabras_comunes (palabras-unir ws o.palabras_comunes)
          o.caben)

izquierda-Sin : (ws : List (List ℕ)) → Orden ws → Sin b'|' (unir ws ++ (b' ' ∷ []))
izquierda-Sin ws o =
    Sin-append b'|' (unir ws) (b' ' ∷ []) (unir-Sin b'|' ws refl refl o.palabras_comunes) (refl, tt)

-- A line with a pipe, as the text before the '|' and the text behind it.
escribir_linea-corte :
    (ws vs : List (List ℕ)) (os : List (List (List ℕ)))
    → escribir_linea (ws ∷ vs ∷ os)
      ≡ (unir ws ++ (b' ' ∷ [])) ++ (b'|' ∷ b' ' ∷ escribir_linea (vs ∷ os))
escribir_linea-corte ws vs os =
    sym (append_assoc (unir ws) (b' ' ∷ []) (b'|' ∷ b' ' ∷ escribir_linea (vs ∷ os)))

split_line-escribir_linea :
    (ws vs : List (List ℕ)) (os : List (List (List ℕ)))
    → Orden ws
    → Orden vs
    → split_line (escribir_linea (ws ∷ vs ∷ os)) b'|'
      ≡ (unir ws ++ (b' ' ∷ []), escribir_linea (vs ∷ os))
split_line-escribir_linea ws vs os o o' =
    ap (λ s. split_line s b'|') (escribir_linea-corte ws vs os)
    ∙ split_line-corte b'|' (unir ws ++ (b' ' ∷ [])) (b' ' ∷ escribir_linea (vs ∷ os))
        (izquierda-Sin ws o)
    ∙ ap (λ s. (unir ws ++ (b' ' ∷ []), s))
        (sin_espacios-Empieza (escribir_linea (vs ∷ os)) (escribir_linea-Empieza vs os o'))

sigue_pipe-nil : (ws : List (List ℕ)) → Orden ws → sigue_pipe (unir ws) ≡ false
sigue_pipe-nil ws o =
    rw
      (
        sigue_pipe,
        block_contains-Sin b'|' (unir ws) (unir-Sin b'|' ws refl refl o.palabras_comunes),
      )
      refl

sigue_pipe-cons :
    (ws vs : List (List ℕ)) (os : List (List (List ℕ)))
    → Orden ws
    → sigue_pipe (escribir_linea (ws ∷ vs ∷ os)) ≡ true
sigue_pipe-cons ws vs os o = rw (sigue_pipe, donde) refl
  where
    donde : block_contains (escribir_linea (ws ∷ vs ∷ os)) b'|' ≡ some (suc (length (unir ws)))
    donde =
        ap (λ s. block_contains s b'|') (escribir_linea-corte ws vs os)
        ∙ block_contains-corte b'|' (unir ws ++ (b' ' ∷ [])) (b' ' ∷ escribir_linea (vs ∷ os))
            (izquierda-Sin ws o)
        ∙ ap some (omega (arith, length-append (unir ws) (b' ' ∷ [])))

pipe_cmd_create-arbol :
    (l : Cmd) (ws : List (List ℕ)) (os : List (List (List ℕ)))
    → pipe_cmd_create l (arbol (ws ∷ os)) ≡ Cmd.pipecmd l (arbol (ws ∷ os))
pipe_cmd_create-arbol l ws [] = refl
pipe_cmd_create-arbol l ws (vs ∷ os) = refl

parse_line_desde-arbol :
    (fuel anterior : ℕ) (p : Proceso) (ws vs : List (List ℕ)) (os : List (List (List ℕ)))
    → length os < fuel
    → Orden ws
    → Orden vs
    → Ordenes os
    → parse_line_desde fuel anterior p (escribir_linea (ws ∷ vs ∷ os))
      ≡ Resultado.listo (arbol (ws ∷ vs ∷ os))
unfolding parse_line_desde
parse_line_desde-arbol zero anterior p ws vs os h o o' r = ground arith
parse_line_desde-arbol (suc fuel) anterior p ws vs [] h o o' r =
    rw
      (
        parse_line_desde,
        split_line-escribir_linea ws vs [] o o',
        parse_cmd-izquierda anterior p ws o,
        sigue_pipe-nil vs o',
        parse_cmd-derecha 0 p vs o',
      )
      refl
parse_line_desde-arbol (suc fuel) anterior p ws vs (us ∷ os) h o o' (o'', r) =
    rw
      (
        parse_line_desde,
        split_line-escribir_linea ws vs (us ∷ os) o o',
        parse_cmd-izquierda anterior p ws o,
        sigue_pipe-cons vs us os o',
        parse_line_desde-arbol fuel 0 p vs us os (omega arith) o' o'' r,
      )
      refl

length-escribir_linea :
    (ws : List (List ℕ)) (os : List (List (List ℕ))) → length os ≤ length (escribir_linea (ws ∷ os))
length-escribir_linea ws [] = omega arith
length-escribir_linea ws (vs ∷ os) = omega (
  arith,
  length-append (unir ws) (b' ' ∷ b'|' ∷ b' ' ∷ escribir_linea (vs ∷ os)),
  length-escribir_linea vs os,
)

-- For every line of commands with " | " between them, each of one to 19 plain words with spaces
-- between them, `parse_line` ends and gives the tree of these commands: it leans to the right, each
-- command has exactly its words as arguments, and there is no redirection, no variable and no '&'.
pub parse_line-escribir_linea :
    (anterior : ℕ) (p : Proceso) (ws : List (List ℕ)) (os : List (List (List ℕ)))
    → Orden ws
    → Ordenes os
    → parse_line anterior p (escribir_linea (ws ∷ os)) ≡ Resultado.listo (arbol (ws ∷ os))
unfolding parse_line parse_line_desde parse_cmd
parse_line-escribir_linea anterior p ws [] o r =
    let corte = split_line-Sin b'|' (unir ws) (unir-Sin b'|' ws refl refl o.palabras_comunes) in
    rw (parse_line, parse_line_desde, corte, parse_cmd-derecha anterior p ws o) refl
parse_line-escribir_linea anterior p ws (vs ∷ os) o (o', r) =
    parse_line_desde-arbol (suc (length (escribir_linea (ws ∷ vs ∷ os)))) anterior p ws vs os
      (omega (arith, length-escribir_linea ws (vs ∷ os))) o o' r
