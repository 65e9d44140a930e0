-- ===== src/Shell/Parsing/Words.antt =====
-- A line as a list of words, and what the loop of `parse_exec` in shell/parsing.c makes of them.
use features_operating_syste.Prelude.{
  ℕ, zero, suc, ◌+◌, ◌≤◌, ◌<◌, ◌≡◌, ◌≢◌, refl, sym, ◌∙◌, ap, Bool, true, false, not, ◌&&◌, none,
  List, [], ◌∷◌, ◌++◌, append_assoc, append-nil, ltb, ◌==◌, if◌then◌else◌, length, drop,
  length-append, arith, lt→ltb, ==→eq, Bool-cases, inl, inr,
}
use features_operating_syste.Shell.Types.{ExecCmd, exec_cmd_create, Resultado, ◌>>=◌, Proceso}
use features_operating_syste.Shell.Text.{block_contains}
use features_operating_syste.Shell.Parsing.{
  get_token, procesar, agregar_argumento, cerrar_argv, parse_exec_desde, parse_exec,
  parse_redir_flow, es_variable, expand_environ_var,
}

-- One more byte at the front of the first word.
abbrev pub pegar : ℕ → List (List ℕ) → List (List ℕ)
pegar x [] = (x ∷ []) ∷ []
pegar x (w ∷ ws) = (x ∷ w) ∷ ws

-- The words between the spaces; a space at the end adds none.
abbrev pub palabras : List ℕ → List (List ℕ)
palabras [] = []
palabras (x ∷ s) = if x == b' ' then [] ∷ palabras s else pegar x (palabras s)

palabras-get_token :
    (x : ℕ) (s : List ℕ)
    → palabras (x ∷ s)
      ≡ get_token (x ∷ s) ∷ palabras (drop (length (get_token (x ∷ s)) + 1) (x ∷ s))
unfolding get_token
palabras-get_token x [] = ground arith
palabras-get_token x (y ∷ s) = ground (arith, palabras-get_token y s)

-- All words in turn, and then the NULL behind the arguments.
abbrev pub procesar_todas : Proceso → ExecCmd → List (List ℕ) → Resultado ExecCmd
procesar_todas p c [] = cerrar_argv c
procesar_todas p c (w ∷ ws) = procesar p c w >>= λ c'. procesar_todas p c' ws

length-drop_suc : (n : ℕ) (x : ℕ) (s : List ℕ) → length (drop (n + 1) (x ∷ s)) ≤ length s
length-drop_suc zero x s = ground arith
length-drop_suc (suc n) x [] = ground arith
length-drop_suc (suc n) x (y ∷ s) =
    let e : suc n + 1 ≡ suc (n + 1) = omega arith in rw e (omega (arith, length-drop_suc n y s))

-- A monadic step under equal continuations.
seguir :
    {A B : Type 0} (r : Resultado A) (f g : A → Resultado B)
    → ((a : A) → f a ≡ g a)
    → (r >>= f) ≡ (r >>= g)
seguir (Resultado.listo a) f g h = h a
seguir Resultado.desborda f g h = refl
seguir Resultado.sale f g h = refl

parse_exec_desde-palabras :
    (fuel : ℕ) (p : Proceso) (c : ExecCmd) (s : List ℕ)
    → length s ≤ fuel
    → parse_exec_desde fuel p c s ≡ procesar_todas p c (palabras s)
unfolding parse_exec_desde
parse_exec_desde-palabras fuel p c [] h = refl
parse_exec_desde-palabras zero p c (x ∷ s) h = ground arith
parse_exec_desde-palabras (suc fuel) p c (x ∷ s) h =
    let tok = get_token (x ∷ s) in
    let resto = drop (length tok + 1) (x ∷ s) in
    seguir (procesar p c tok) (λ c'. parse_exec_desde fuel p c' resto)
      (λ c'. procesar_todas p c' (palabras resto))
      (λ c'.
        parse_exec_desde-palabras fuel p c' resto (omega (arith, length-drop_suc (length tok) x s)))
    ∙ ap (procesar_todas p c) (sym (palabras-get_token x s))

-- `parse_exec` handles the words of its text, in order and each once, and ends: the rounds that its
-- loop is given are enough.
pub parse_exec-palabras :
    (p : Proceso) (buf_cmd : List ℕ)
    → parse_exec p buf_cmd ≡ procesar_todas p (exec_cmd_create buf_cmd) (palabras buf_cmd)
unfolding parse_exec
parse_exec-palabras p buf_cmd =
    parse_exec_desde-palabras (length buf_cmd) p (exec_cmd_create buf_cmd) buf_cmd (omega arith)

-- The bytes that the parser gives no meaning to.
abbrev pub comun : ℕ → Bool
comun x =
    not (x == b' ')
    && not (x == b'|')
    && not (x == b'&')
    && not (x == b'<')
    && not (x == b'>')
    && not (x == b'=')
    && not (x == b'$')
    && not (x == 0)

abbrev pub Comunes : List ℕ → Type 0
Comunes [] = Unit {0}
Comunes (x ∷ w) = (comun x ≡ true) × Comunes w

-- A word of such bytes, not empty.
abbrev pub Palabra : List ℕ → Type 0
Palabra [] = ⊥
Palabra (x ∷ w) = (comun x ≡ true) × Comunes w

abbrev pub Palabras : List (List ℕ) → Type 0
Palabras [] = Unit {0}
Palabras (w ∷ ws) = Palabra w × Palabras ws

pub block_contains-Comunes :
    (w : List ℕ) (c : ℕ) → comun c ≡ false → Comunes w → block_contains w c ≡ none
unfolding block_contains
block_contains-Comunes [] c h v = refl
block_contains-Comunes (x ∷ w) c h (v, vs) = elim (Bool-cases (x == c)) [
  | inl e ↦ let m : x ≡ c = ==→eq x c e in absurd (cc (v, h, ap comun m))
  | inr e ↦ rw (e, block_contains-Comunes w c h vs)
]

-- A plain word becomes the next argument.
pub procesar-Palabra :
    (p : Proceso) (c : ExecCmd) (w : List ℕ) → Palabra w → procesar p c w ≡ agregar_argumento c w
unfolding procesar
procesar-Palabra p c [] v = absurd v
procesar-Palabra p c (x ∷ w) v =
    let mayor = block_contains-Comunes (x ∷ w) b'>' refl v in
    let menor = block_contains-Comunes (x ∷ w) b'<' refl v in
    let igual = block_contains-Comunes (x ∷ w) b'=' refl v in
    let peso : (x == b'$') ≡ false = ground arith in
    rw (procesar, parse_redir_flow, mayor, menor, es_variable, igual, expand_environ_var, peso) refl

pub procesar_todas-Palabras :
    (p : Proceso) (c : ExecCmd) (ws : List (List ℕ))
    → Palabras ws
    → length c.argv + length ws < 20
    → procesar_todas p c ws ≡ Resultado.listo (record c { argv = c.argv ++ ws })
procesar_todas-Palabras p c [] v h =
    let cabe : ltb (length c.argv) 20 ≡ true = lt→ltb (length c.argv) 20 (omega arith) in
    rw (cabe, append-nil) refl
procesar_todas-Palabras p c ([] ∷ ws) (v, vs) h = absurd v
procesar_todas-Palabras p c ((x ∷ w) ∷ ws) (v, vs) h =
    let c' = record c { argv = c.argv ++ ((x ∷ w) ∷ []) } in
    let cabe : ltb (length c.argv) 20 ≡ true = lt→ltb (length c.argv) 20 (omega arith) in
    ap (λ r. r >>= λ c'. procesar_todas p c' ws) (procesar-Palabra p c (x ∷ w) v)
    ∙ rw cabe (
        procesar_todas-Palabras p c' ws vs (omega (arith, length-append c.argv ((x ∷ w) ∷ [])))
        ∙ ap (λ a. Resultado.listo (record c { argv = a })) (append_assoc c.argv ((x ∷ w) ∷ []) ws))

-- The words with a space between them.
abbrev pub unir : List (List ℕ) → List ℕ
unir [] = []
unir (w ∷ []) = w
unir (w ∷ v ∷ ws) = w ++ (b' ' ∷ unir (v ∷ ws))

palabras-pegar : (w t : List ℕ) → Comunes w → palabras (w ++ (b' ' ∷ t)) ≡ w ∷ palabras t
palabras-pegar [] t v = refl
palabras-pegar (x ∷ w) t (v, vs) =
    let otro : (x == b' ') ≡ false = ground arith in rw (otro, palabras-pegar w t vs) refl

palabras-Palabra : (w : List ℕ) → Palabra w → palabras w ≡ w ∷ []
palabras-Palabra [] v = absurd v
palabras-Palabra (x ∷ []) (v, vs) = let otro : (x == b' ') ≡ false = ground arith in rw otro refl
palabras-Palabra (x ∷ y ∷ w) (v, vs) =
    let otro : (x == b' ') ≡ false = ground arith in rw (otro, palabras-Palabra (y ∷ w) vs) refl

Palabra-Comunes : (w : List ℕ) → Palabra w → Comunes w
Palabra-Comunes [] v = absurd v
Palabra-Comunes (x ∷ w) v = v

pub palabras-unir : (ws : List (List ℕ)) → Palabras ws → palabras (unir ws) ≡ ws
palabras-unir [] v = refl
palabras-unir (w ∷ []) (v, vs) = palabras-Palabra w v
palabras-unir (w ∷ u ∷ ws) (v, vs) =
    palabras-pegar w (unir (u ∷ ws)) (Palabra-Comunes w v) ∙ ap (◌∷◌ w) (palabras-unir (u ∷ ws) vs)

-- A space behind the last word changes nothing.
pub palabras-unir_espacio :
    (ws : List (List ℕ)) → Palabras ws → ws ≢ [] → palabras (unir ws ++ (b' ' ∷ [])) ≡ ws
palabras-unir_espacio [] v ne = absurd (ne refl)
palabras-unir_espacio (w ∷ []) (v, vs) ne = palabras-pegar w [] (Palabra-Comunes w v)
palabras-unir_espacio (w ∷ u ∷ ws) (v, vs) ne =
    ap palabras (append_assoc w (b' ' ∷ unir (u ∷ ws)) (b' ' ∷ []))
    ∙ palabras-pegar w (unir (u ∷ ws) ++ (b' ' ∷ [])) (Palabra-Comunes w v)
    ∙ ap (◌∷◌ w) (palabras-unir_espacio (u ∷ ws) vs (λ e. absurd (cc)))

-- A text of at most 19 plain words gives the command with these arguments, and with nothing else.
pub parse_exec-Palabras :
    (p : Proceso) (texto : List ℕ) (ws : List (List ℕ))
    → Palabras ws
    → palabras texto ≡ ws
    → length ws < 20
    → let c = exec_cmd_create texto in parse_exec p texto ≡ Resultado.listo (record c { argv = ws })
parse_exec-Palabras p texto ws v e h =
    parse_exec-palabras p texto
    ∙ ap (procesar_todas p (exec_cmd_create texto)) e
    ∙ procesar_todas-Palabras p (exec_cmd_create texto) ws v (omega arith)
