-- ===== src/Kernel/Console/Paper.antt =====
-- What is printed on the screen of scheduler/kern/console.c, as what is printed on paper.
use features_operating_syste.Prelude.{ℕ, ◌%◌, subst, List, [], ◌∷◌, ◌==◌}
use features_operating_syste.Kernel.Console.Ports.{Puertos, Equipo, serial_putc, lpt_putc}
use features_operating_syste.Kernel.Console.Screen.{
  con_atributo, colocar, subir_filas, mover_cursor, cga_putc_con, cons_putc_con, blanco, tabulador,
  cons_putc, cputs,
}
use features_operating_syste.Kernel.Console.Roll.{
  Muestra, Papel, colocado, colocar-Muestra, correr_papel, correr_papel-si, correr_papel_quieto,
  escribir_papel, imprimir, imprimir_simple, imprimir_todo, otros_puertos, subir_filas-Muestra,
}

module _ {D : Type 0} (p : Puertos D) where
  cons_putc_con-Muestra :
      (tab : Equipo D → Equipo D) (f : Papel → Papel) (c : ℕ) (t : Papel) (e : Equipo D)
      → ((e' : Equipo D) → Muestra 2000 t e' → Muestra 2000 (f t) (tab e'))
      → Muestra 2000 t e
      → Muestra 2000 (correr_papel (colocado f (con_atributo c) t)) (cons_putc_con p tab c e)
  unfolding cons_putc_con cga_putc_con mover_cursor
  cons_putc_con-Muestra tab f c t e w v =
      let e1 = record e { puertos = lpt_putc p c (serial_putc p c e.puertos) } in
      let v1 = otros_puertos t e (lpt_putc p c (serial_putc p c e.puertos)) v in
      let v2 = colocar-Muestra tab f (con_atributo c) t e1 v1 (w e1 v1) in
      let e2 = colocar tab (con_atributo c) e1 in
      let v3 = subir_filas-Muestra (colocado f (con_atributo c) t) e2 v2 in
      otros_puertos (correr_papel (colocado f (con_atributo c) t)) (subir_filas e2) _ v3

  blanco-Muestra :
      (t : Papel) (e : Equipo D)
      → Muestra 2000 t e
      → Muestra 2000 (imprimir_simple 32 t) (blanco p e)
  blanco-Muestra t e v = cons_putc_con-Muestra (λ e'. e') (λ t'. t') 32 t e (λ e' v'. v') v

  abbrev cinco : Papel → Papel
  cinco t =
      imprimir_simple 32
        (imprimir_simple 32 (imprimir_simple 32 (imprimir_simple 32 (imprimir_simple 32 t))))

  tabulador-Muestra :
      (t : Papel) (e : Equipo D) → Muestra 2000 t e → Muestra 2000 (cinco t) (tabulador p e)
  tabulador-Muestra t e v =
      let v1 = blanco-Muestra t e v in
      let v2 = blanco-Muestra _ _ v1 in
      let v3 = blanco-Muestra _ _ v2 in let v4 = blanco-Muestra _ _ v3 in blanco-Muestra _ _ v4

  cons_putc-Muestra :
      (c : ℕ) (t : Papel) (e : Equipo D)
      → Muestra 2000 t e
      → Muestra 2000 (imprimir c t) (cons_putc p c e)
  unfolding cons_putc
  cons_putc-Muestra c t e v =
      let w =
        cons_putc_con-Muestra (tabulador p) cinco c t e (λ e' v'. tabulador-Muestra t e' v') v in
      let h = correr_papel_quieto (cinco t) (tabulador p e) (tabulador-Muestra t e v) in
      subst (λ (r : Papel). Muestra 2000 r (cons_putc p c e))
        (correr_papel-si (con_atributo c % 256 == 9) (cinco t) (escribir_papel (con_atributo c) t)
          h)
        w

  -- A screen that shows the paper shows it after any text: where `cputs` prints the characters one by one
  -- on the screen, the paper has them printed on it, and the screen shows its last 25 rows, with the
  -- cursor at the place of the next character. The cursor is then below 2000.
  pub cputs-Muestra :
      (l : List ℕ) (t : Papel) (e : Equipo D)
      → Muestra 2000 t e
      → Muestra 2000 (imprimir_todo l t) (cputs p l e)
  unfolding cputs
  cputs-Muestra [] t e v = v
  cputs-Muestra (c ∷ l) t e v =
      cputs-Muestra l (imprimir c t) (cons_putc p c e) (cons_putc-Muestra c t e v)
