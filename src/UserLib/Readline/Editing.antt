-- ===== src/UserLib/Readline/Editing.antt =====
-- The line that `readline` of scheduler/lib/readline.c returns, as a text that is edited.
use features_operating_syste.Prelude.{
  ℕ, zero, suc, ◌+◌, ◌-◌, ◌%◌, ◌≤◌, ◌<◌, ◌≡◌, refl, ap, sym, ◌∙◌, true, false, ◌&&◌, ◌||◌, List, [],
  ◌∷◌, ◌++◌, length, length-append, length-take, take, ltb, leb, ◌==◌, if◌then◌else◌, update, ℤ,
  pos, arith, Bool-cases, inl, inr,
}
use features_operating_syste.UserLib.Format.Buffer.{leidos, leidos-update}
use features_operating_syste.UserLib.Format.Lines.{leidos-escribir}
use features_operating_syste.UserLib.Readline.{
  Linea, Lectura, borra, entra, recibir, readline_desde, readline,
}

-- A backspace or a delete takes the last character, if there is one; another character of at least 32 is
-- put at the end, as long as there are fewer than 1023 (a delete, too, where there is none to take).
abbrev pub editar : ℕ → List ℕ → List ℕ
editar c t =
    if ((c == 8) || (c == 0x7F)) && ltb 0 (length t)
    then take (length t - 1) t
    else if leb b' ' c && ltb (length t) 1023
    then t ++ (c % 256 ∷ [])
    else t

abbrev pub editar_todo : List ℕ → List ℕ → List ℕ
editar_todo [] t = t
editar_todo (c ∷ cs) t = editar_todo cs (editar c t)

-- No character ends the line.
abbrev pub SinFin : List ℕ → Type 0
SinFin [] = Unit {0}
SinFin (c ∷ cs) = (((c == 10) || (c == 13)) ≡ false) × SinFin cs

abbrev pub entradas : List ℕ → List ℤ → List ℤ
entradas [] r = r
entradas (c ∷ cs) r = pos c ∷ entradas cs r

-- The buffer holds the text, which leaves room for a NUL, and its cells behind the 1024 are as they were.
record Guarda (m : ℕ → ℕ) (l : Linea) (t : List ℕ) : Type 0 where
  cuantos : l.indice ≡ length t
  escritos : leidos l.buf 0 (length t) ≡ t
  cabe : length t ≤ 1023
  fuera : (i : ℕ) → 1024 ≤ i → l.buf i ≡ m i

take-leidos : (m : ℕ → ℕ) (a n k : ℕ) → k ≤ n → take k (leidos m a n) ≡ leidos m a k
take-leidos m a n zero h = refl
take-leidos m a zero (suc k) h = absurd (omega (arith, h))
take-leidos m a (suc n) (suc k) h = ap (◌∷◌ (m a)) (take-leidos m (a + 1) n k (omega (arith, h)))

borrar-Guarda :
    (m : ℕ → ℕ) (l : Linea) (t eco : List ℕ)
    → 0 < length t
    → Guarda m l t
    → Guarda m (record l { indice = l.indice - 1; eco = eco }) (take (length t - 1) t)
borrar-Guarda m l t eco h v =
    let k = length t - 1 in
    let largo : length (take k t) ≡ k = length-take k t (omega arith) in
    record {
      cuantos = omega (arith, v.cuantos, largo);
      escritos =
          ap (leidos l.buf 0) largo
          ∙ sym (take-leidos l.buf 0 (length t) k (omega arith))
          ∙ ap (take k) v.escritos;
      cabe = omega (arith, v.cabe, largo);
      fuera = λ i q. v.fuera i q;
    }

entrar-Guarda :
    (m : ℕ → ℕ) (x : ℕ) (l : Linea) (t eco : List ℕ)
    → length t < 1023
    → Guarda m l t
    → Guarda m
        (record { buf = update l.buf l.indice x; indice = l.indice + 1; eco = eco })
        (t ++ (x ∷ []))
entrar-Guarda m x l t eco h v =
    let largo = length-append t (x ∷ []) in
    record {
      cuantos = omega (arith, v.cuantos, largo);
      escritos =
          ap (λ (n : ℕ). leidos (update l.buf n x) 0 (length (t ++ (x ∷ [])))) v.cuantos
          ∙ ap (leidos (update l.buf (length t) x) 0) largo
          ∙ leidos-escribir l.buf (length t) x
          ∙ ap (◌++ (x ∷ [])) v.escritos;
      cabe = omega (arith, largo, h);
      fuera = λ i q. ground (arith, q, v.cuantos, h, v.fuera i);
    }

-- The tests on the index are those on the length of the text.
borra_lem :
    (c : ℕ) (m : ℕ → ℕ) (l : Linea) (t : List ℕ)
    → Guarda m l t
    → borra c l ≡ (((c == 8) || (c == 0x7F)) && ltb 0 (length t))
borra_lem c m l t v = ap (λ (n : ℕ). ((c == 8) || (c == 0x7F)) && ltb 0 n) v.cuantos

entra_lem :
    (c : ℕ) (m : ℕ → ℕ) (l : Linea) (t : List ℕ)
    → Guarda m l t
    → entra c l ≡ (leb b' ' c && ltb (length t) 1023)
entra_lem c m l t v = ap (λ (n : ℕ). leb b' ' c && ltb n 1023) v.cuantos

recibir-Guarda :
    (m : ℕ → ℕ) (c : ℕ) (l : Linea) (t : List ℕ)
    → Guarda m l t
    → Guarda m (recibir c l) (editar c t)
unfolding recibir
recibir-Guarda m c l t v = elim (Bool-cases (((c == 8) || (c == 0x7F)) && ltb 0 (length t))) [
  | inl b ↦
      rw (borra_lem c m l t v, b) (borrar-Guarda m l t (l.eco ++ (8 ∷ [])) (ground (arith, b)) v)
  | inr b ↦ elim (Bool-cases (leb b' ' c && ltb (length t) 1023)) [
    | inl e ↦
        rw (borra_lem c m l t v, b, entra_lem c m l t v, e)
          (entrar-Guarda m (c % 256) l t (l.eco ++ (c ∷ [])) (ground (arith, e)) v)
    | inr e ↦ rw (borra_lem c m l t v, b, entra_lem c m l t v, e) v
  ]
]

-- The line `t`, with a NUL behind it, and the input that is left.
pub record Leida (m : ℕ → ℕ) (t : List ℕ) (resto : List ℤ) (r : Lectura) : Type 0 where
  pub fin : Linea
  pub devuelta : r ≡ Lectura.linea fin resto
  pub texto : leidos fin.buf 0 (length t) ≡ t
  pub nul : fin.buf (length t) ≡ 0
  pub corta : length t ≤ 1023
  pub intacta : (i : ℕ) → 1024 ≤ i → fin.buf i ≡ m i

terminar-Leida :
    (m : ℕ → ℕ) (c : ℕ) (resto : List ℤ) (l : Linea) (t : List ℕ)
    → ((c == 10) || (c == 13)) ≡ true
    → Guarda m l t
    → Leida m t resto (readline_desde (pos c ∷ resto) l)
unfolding readline_desde
terminar-Leida m c resto l t h v = record {
  fin = record l { buf = update l.buf l.indice 0; eco = l.eco ++ (10 ∷ []) };
  devuelta = ground (arith, h);
  texto = leidos-update l.buf 0 (length t) l.indice 0 (omega (arith, v.cuantos)) ∙ v.escritos;
  nul = ground (arith, v.cuantos);
  corta = v.cabe;
  intacta = λ i q. ground (arith, q, v.cuantos, v.cabe, v.fuera i);
}

readline_desde-Leida :
    (m : ℕ → ℕ) (cs : List ℕ) (c : ℕ) (resto : List ℤ) (l : Linea) (t : List ℕ)
    → SinFin cs
    → ((c == 10) || (c == 13)) ≡ true
    → Guarda m l t
    → Leida m (editar_todo cs t) resto (readline_desde (entradas cs (pos c ∷ resto)) l)
unfolding readline_desde
readline_desde-Leida m [] c resto l t s h v = terminar-Leida m c resto l t h v
readline_desde-Leida m (x ∷ cs) c resto l t (hx, s) h v =
    let sigue =
      readline_desde-Leida m cs c resto (recibir x l) (editar x t) s h (recibir-Guarda m x l t v) in
    elim (Bool-cases (borra x l || entra x l)) [ inl e ↦ rw e sigue | inr e ↦ rw (e, hx) sigue ]

-- For an input of characters that do not end a line, one that does, and more: `readline` returns the line that
-- the characters give when they are typed into an empty text (backspaces, and the bound of 1023 included),
-- with a NUL behind it, whatever the prompt and the buffer's old content; it takes no more of the input,
-- and writes nothing behind the buffer's 1024 bytes.
pub readline-Leida :
    (prompt : List ℕ) (m : ℕ → ℕ) (cs : List ℕ) (c : ℕ) (resto : List ℤ)
    → SinFin cs
    → ((c == 10) || (c == 13)) ≡ true
    → Leida m (editar_todo cs []) resto (readline prompt m (entradas cs (pos c ∷ resto)))
unfolding readline
readline-Leida prompt m cs c resto s h =
    readline_desde-Leida m cs c resto (record { buf = m; indice = 0; eco = prompt }) [] s h
      (record { cuantos = refl; escritos = refl; cabe = omega arith; fuera = λ i q. refl })
