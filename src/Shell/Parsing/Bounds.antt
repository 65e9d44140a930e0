-- ===== src/Shell/Parsing/Bounds.antt =====
-- The array of arguments of `parse_exec` in shell/parsing.c, and how many words it holds.
use features_operating_syste.Prelude.{
  ℕ, ◌+◌, ◌≤◌, ◌≡◌, refl, ◌∙◌, ap, false, List, [], ◌∷◌, ◌++◌, ltb, if◌then◌else◌, length,
  length-append, arith, Bool-cases, inl, inr,
}
use features_operating_syste.Shell.Types.{
  maxargs, ExecCmd, exec_cmd_create, Resultado, ◌>>=◌, Proceso,
}
use features_operating_syste.Shell.Parsing.{agregar_argumento, parse_exec}
use features_operating_syste.Shell.Parsing.Words.{
  Palabras, unir, procesar_todas, procesar-Palabra, palabras-unir, parse_exec-palabras,
  parse_exec-Palabras,
}

-- A word behind a full array.
agregar_argumento-desborda :
    (c : ExecCmd) (x : ℕ) (w : List ℕ)
    → 20 ≤ length c.argv
    → agregar_argumento c (x ∷ w) ≡ Resultado.desborda
agregar_argumento-desborda c x w h =
    let lleno : ltb (length c.argv) 20 ≡ false = ground arith in rw lleno refl

procesar_todas-desborda :
    (p : Proceso) (c : ExecCmd) (ws : List (List ℕ))
    → Palabras ws
    → 20 ≤ length c.argv + length ws
    → procesar_todas p c ws ≡ Resultado.desborda
procesar_todas-desborda p c [] v h =
    let lleno : ltb (length c.argv) 20 ≡ false = ground arith in rw lleno refl
procesar_todas-desborda p c ([] ∷ ws) (v, vs) h = absurd v
procesar_todas-desborda p c ((x ∷ w) ∷ ws) (v, vs) h =
    let c' = record c { argv = c.argv ++ ((x ∷ w) ∷ []) } in
    ap (λ r. r >>= λ c'. procesar_todas p c' ws) (procesar-Palabra p c (x ∷ w) v)
    ∙ elim (Bool-cases (ltb (length c.argv) 20)) [
      | inl cabe ↦
          rw cabe (
            procesar_todas-desborda p c' ws vs (omega (arith, length-append c.argv ((x ∷ w) ∷ []))))
      | inr lleno ↦ rw lleno refl
    ]

-- For a text of plain words with single spaces between them, `parse_exec` ends, and whether it stays
-- inside the array of arguments depends on their number alone: up to 19 words it gives the command
-- with these arguments and nothing else; from 20 words on it writes behind the array's end, the
-- NULL behind the 20th argument included.
pub parse_exec-unir :
    (p : Proceso) (ws : List (List ℕ))
    → Palabras ws
    → let c = exec_cmd_create (unir ws) in
      parse_exec p (unir ws) ≡ (
        if ltb (length ws) maxargs
        then Resultado.listo (record c { argv = ws })
        else Resultado.desborda)
parse_exec-unir p ws v = elim (Bool-cases (ltb (length ws) 20)) [
  | inl cabe ↦ rw cabe (parse_exec-Palabras p (unir ws) ws v (palabras-unir ws v) (ground arith))
  | inr lleno ↦
      let h : 20 ≤ 0 + length ws = ground arith in
      rw lleno (
        parse_exec-palabras p (unir ws)
        ∙ ap (procesar_todas p (exec_cmd_create (unir ws))) (palabras-unir ws v)
        ∙ procesar_todas-desborda p (exec_cmd_create (unir ws)) ws v h)
]
