-- ===== src/Kernel/Console/Roll.antt =====
-- The screen of scheduler/kern/console.c as the lower end of a roll of paper: what is written stays, and
-- the screen shows 25 rows of it.
use features_operating_syste.Prelude.{
  ℕ, ◌+◌, ◌-◌, ◌*◌, ◌/◌, ◌%◌, ◌^◌, ◌≤◌, ◌<◌, ◌≡◌, refl, sym, subst, Bool, true, false, List, [],
  ◌∷◌, ltb, leb, ◌==◌, if◌then◌else◌, update, arith, Bool-cases, inl, inr,
}
use features_operating_syste.Kernel.Console.Ports.{Equipo}
use features_operating_syste.Kernel.Console.Screen.{
  con_atributo, retroceder, retorno, escribir_celda, colocar, subir_filas,
}

-- The cells written so far, the place of the next one, and the first cell that the screen shows.
pub record Papel : Type 0 where
  pub tinta : ℕ → ℕ
  pub lugar : ℕ
  pub borde : ℕ

-- A backspace stops at the edge.
abbrev pub papel_atras : ℕ → Papel → Papel
papel_atras c t =
    if ltb t.borde t.lugar
    then record t {
      lugar = t.lugar - 1;
      tinta = update t.tinta (t.lugar - 1) ((c - c % 256 + 32) % 2 ^ 16);
    }
    else t

-- A character that is no tabulator, with its attribute.
abbrev pub escribir_papel : ℕ → Papel → Papel
escribir_papel c t =
    let b = c % 256 in
    if b == 8
    then papel_atras c t
    else if b == 10
    then record t { lugar = (t.lugar / 80 + 1) * 80 }
    else if b == 13
    then record t { lugar = t.lugar / 80 * 80 }
    else record t { tinta = update t.tinta t.lugar (c % 2 ^ 16); lugar = t.lugar + 1 }

-- The roll moves by a row when the place leaves the screen.
abbrev pub correr_papel : Papel → Papel
correr_papel t = if leb (t.borde + 2000) t.lugar then record t { borde = t.borde + 80 } else t

abbrev pub imprimir_simple : ℕ → Papel → Papel
imprimir_simple c t = correr_papel (escribir_papel (con_atributo c) t)

-- A tabulator is five blanks.
abbrev pub imprimir : ℕ → Papel → Papel
imprimir c t =
    if con_atributo c % 256 == 9
    then imprimir_simple 32
        (imprimir_simple 32 (imprimir_simple 32 (imprimir_simple 32 (imprimir_simple 32 t))))
    else imprimir_simple c t

abbrev pub imprimir_todo : List ℕ → Papel → Papel
imprimir_todo [] t = t
imprimir_todo (c ∷ l) t = imprimir_todo l (imprimir c t)

-- The screen shows the paper from the edge on, the place is less than `n` cells behind it, and there is
-- nothing behind the screen.
pub record Muestra {D : Type 0} (n : ℕ) (t : Papel) (e : Equipo D) : Type 0 where
  pub filas : ℕ
  pub borde_fila : t.borde ≡ filas * 80
  pub aqui : t.lugar ≡ e.crt_pos + t.borde
  pub dentro : e.crt_pos < n
  pub vista : (i : ℕ) → i < 2000 → e.crt_buf i ≡ t.tinta (t.borde + i)
  pub blanca : (i : ℕ) → t.borde + 2000 ≤ i → t.tinta i ≡ 0x0720

-- What a character does, `f` for a tabulator.
abbrev pub colocado : (Papel → Papel) → ℕ → Papel → Papel
colocado f c t = if c % 256 == 9 then f t else escribir_papel c t

pub correr_papel-si :
    (b : Bool) (s t : Papel)
    → correr_papel s ≡ s
    → correr_papel (if b then s else t) ≡ (if b then s else correr_papel t)
correr_papel-si true s t h = h
correr_papel-si false s t h = refl

module _ {D : Type 0} where
  pub subir_filas-Muestra :
      (t : Papel) (e : Equipo D) → Muestra 2080 t e → Muestra 2000 (correr_papel t) (subir_filas e)
  unfolding subir_filas
  subir_filas-Muestra t e v = elim (Bool-cases (leb 2000 e.crt_pos)) [
    | inl q ↦
        let corre : leb (t.borde + 2000) t.lugar ≡ true = ground (arith, q, v.aqui) in
        rw (q, corre)
          (record {
            filas = v.filas + 1;
            borde_fila = omega (arith, v.borde_fila);
            aqui = ground (arith, q, v.aqui);
            dentro = ground (arith, q, v.dentro);
            vista = λ i h. elim (Bool-cases (ltb i 1920)) [
              | inl m ↦
                  let j : t.borde + 80 + i ≡ t.borde + (i + 80) = omega arith in
                  rw (m, j) (v.vista (i + 80) (ground (arith, m)))
              | inr m ↦
                  let k : ltb i 2000 ≡ true = ground (arith, h) in
                  rw (m, k) (sym (v.blanca (t.borde + 80 + i) (ground (arith, m))))
            ];
            blanca = λ i h. v.blanca i (omega (arith, h));
          })
    | inr q ↦
        let queda : leb (t.borde + 2000) t.lugar ≡ false = ground (arith, q, v.aqui) in
        rw (q, queda)
          (record {
            filas = v.filas;
            borde_fila = v.borde_fila;
            aqui = v.aqui;
            dentro = ground (arith, q);
            vista = λ i h. v.vista i h;
            blanca = λ i h. v.blanca i h;
          })
  ]

  escribir_celda-Muestra :
      (c : ℕ) (t : Papel) (e : Equipo D)
      → Muestra 2000 t e
      → Muestra 2080
          (record t { tinta = update t.tinta t.lugar (c % 2 ^ 16); lugar = t.lugar + 1 })
          (escribir_celda c e)
  escribir_celda-Muestra c t e v = record {
    filas = v.filas;
    borde_fila = v.borde_fila;
    aqui = ground (arith, v.aqui, v.dentro);
    dentro = ground (arith, v.aqui, v.dentro);
    vista = λ i h. ground (arith, v.aqui, v.dentro, v.vista i h);
    blanca = λ i h. ground (arith, v.aqui, v.dentro, v.blanca i h);
  }

  holgado : (t : Papel) (e : Equipo D) → Muestra 2000 t e → Muestra 2080 t e
  holgado t e v = record {
    filas = v.filas;
    borde_fila = v.borde_fila;
    aqui = v.aqui;
    dentro = omega (arith, v.dentro);
    vista = λ i h. v.vista i h;
    blanca = λ i h. v.blanca i h;
  }

  retroceder-Muestra :
      (c : ℕ) (t : Papel) (e : Equipo D)
      → Muestra 2000 t e
      → Muestra 2080 (papel_atras c t) (retroceder c e)
  retroceder-Muestra c t e v = elim (Bool-cases (ltb 0 e.crt_pos)) [
    | inl q ↦
        let antes : ltb t.borde t.lugar ≡ true = ground (arith, q, v.aqui) in
        rw (q, antes)
          (record {
            filas = v.filas;
            borde_fila = v.borde_fila;
            aqui = ground (arith, q, v.aqui);
            dentro = ground (arith, q, v.dentro);
            vista = λ i h. ground (arith, q, v.aqui, v.dentro, v.vista i h);
            blanca = λ i h. ground (arith, q, v.aqui, v.dentro, v.blanca i h);
          })
    | inr q ↦
        let borde : ltb t.borde t.lugar ≡ false = ground (arith, q, v.aqui) in
        rw (q, borde) (holgado t e v)
  ]

  retorno-Muestra :
      (t : Papel) (e : Equipo D)
      → Muestra 2080 t e
      → Muestra 2080 (record t { lugar = t.lugar / 80 * 80 }) (retorno e)
  retorno-Muestra t e v = record {
    filas = v.filas;
    borde_fila = v.borde_fila;
    aqui = omega (arith, v.aqui, v.borde_fila);
    dentro = omega (arith, v.dentro);
    vista = λ i h. v.vista i h;
    blanca = λ i h. v.blanca i h;
  }

  bajar-Muestra :
      (t : Papel) (e : Equipo D)
      → Muestra 2000 t e
      → Muestra 2080
          (record t { lugar = (t.lugar / 80 + 1) * 80 })
          (retorno (record e { crt_pos = (e.crt_pos + 80) % 2 ^ 16 }))
  bajar-Muestra t e v =
      let fila : (t.lugar + 80) / 80 * 80 ≡ (t.lugar / 80 + 1) * 80 = omega arith in
      let bajado : Muestra 2080 (record t { lugar = t.lugar + 80 })
          (record e { crt_pos = (e.crt_pos + 80) % 2 ^ 16 }) =
        record {
          filas = v.filas;
          borde_fila = v.borde_fila;
          aqui = omega (arith, v.aqui, v.dentro);
          dentro = omega (arith, v.dentro);
          vista = λ i h. v.vista i h;
          blanca = λ i h. v.blanca i h;
        } in
      subst
        (λ (n : ℕ).
          Muestra 2080 (record t { lugar = n })
            (retorno (record e { crt_pos = (e.crt_pos + 80) % 2 ^ 16 })))
        fila
        (retorno-Muestra (record t { lugar = t.lugar + 80 })
          (record e { crt_pos = (e.crt_pos + 80) % 2 ^ 16 }) bajado)

  pub colocar-Muestra :
      (tab : Equipo D → Equipo D) (f : Papel → Papel) (c : ℕ) (t : Papel) (e : Equipo D)
      → Muestra 2000 t e
      → Muestra 2000 (f t) (tab e)
      → Muestra 2080 (colocado f c t) (colocar tab c e)
  unfolding colocar
  colocar-Muestra tab f c t e v w = elim (Bool-cases (c % 256 == 9)) [
    | inl q ↦
        let n8 : (c % 256 == 8) ≡ false = ground (arith, q) in
        let n10 : (c % 256 == 10) ≡ false = ground (arith, q) in
        let n13 : (c % 256 == 13) ≡ false = ground (arith, q) in
        rw (q, n8, n10, n13) (holgado (f t) (tab e) w)
    | inr n9 ↦ elim (Bool-cases (c % 256 == 8)) [
      | inl q ↦ rw (n9, q) (retroceder-Muestra c t e v)
      | inr n8 ↦ elim (Bool-cases (c % 256 == 10)) [
        | inl q ↦ rw (n9, n8, q) (bajar-Muestra t e v)
        | inr n10 ↦ elim (Bool-cases (c % 256 == 13)) [
          | inl q ↦ rw (n9, n8, n10, q) (retorno-Muestra t e (holgado t e v))
          | inr n13 ↦ rw (n9, n8, n10, n13) (escribir_celda-Muestra c t e v)
        ]
      ]
    ]
  ]

  -- A place on the screen moves no paper.
  pub correr_papel_quieto : (t : Papel) (e : Equipo D) → Muestra 2000 t e → correr_papel t ≡ t
  correr_papel_quieto t e v =
      let queda : leb (t.borde + 2000) t.lugar ≡ false = ground (arith, v.aqui, v.dentro) in
      rw queda refl

  pub otros_puertos :
      (t : Papel) (e : Equipo D) (d : D)
      → Muestra 2000 t e
      → Muestra 2000 t (record e { puertos = d })
  otros_puertos t e d v = record {
    filas = v.filas;
    borde_fila = v.borde_fila;
    aqui = v.aqui;
    dentro = v.dentro;
    vista = λ i h. v.vista i h;
    blanca = λ i h. v.blanca i h;
  }
