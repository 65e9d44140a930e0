-- ===== src/UserLib/Readline.antt =====
-- `readline` of scheduler/lib/readline.c, which the kernel and the user programs share, on the values that
-- `getchar` returns one after the other.
pub mod Editing
use features_operating_syste.Prelude.{
  ℕ, ◌+◌, ◌-◌, ◌%◌, Bool, true, false, ◌&&◌, ◌||◌, List, [], ◌∷◌, ◌++◌, ltb, leb, ◌==◌,
  if◌then◌else◌, update, ℤ, pos, negsuc,
}

-- BUFLEN
abbrev pub buflen : ℕ
buflen = 1024

-- The static buffer, the index of the next character, and what was printed with `cputchar`.
pub record Linea : Type 0 where
  pub buf : ℕ → ℕ
  pub indice : ℕ
  pub eco : List ℕ

-- What is returned: the buffer, with the input that is left; or NULL for an error of `getchar`,
-- whose message is left out. `espera` is no
-- more input, for which `getchar` waits.
pub data Lectura : Type 0 where
  linea : Linea → List ℤ → Lectura
  nulo : ℤ → Linea → Lectura
  espera : Linea → Lectura

-- The tests of the first two cases.
abbrev pub borra : ℕ → Linea → Bool
borra c l = ((c == 8) || (c == 0x7F)) && ltb 0 l.indice

abbrev pub entra : ℕ → Linea → Bool
entra c l = leb b' ' c && ltb l.indice (buflen - 1)

-- A character that does not end the line; it is printed, since `iscons` returns 1.
unfoldable pub recibir : ℕ → Linea → Linea
recibir c l =
    if borra c l
    then record l { indice = l.indice - 1; eco = l.eco ++ (8 ∷ []) }
    else if entra c l
    then record {
      buf = update l.buf l.indice (c % 256);
      indice = l.indice + 1;
      eco = l.eco ++ (c ∷ []);
    }
    else l

unfoldable pub readline_desde : List ℤ → Linea → Lectura
unfolding recibir
readline_desde [] l = Lectura.espera l
readline_desde (negsuc n ∷ cs) l = Lectura.nulo (negsuc n) l
readline_desde (pos c ∷ cs) l =
    let otra = readline_desde cs (recibir c l) in
    if borra c l || entra c l
    then otra
    else if (c == 10) || (c == 13)
    then Lectura.linea (record l { buf = update l.buf l.indice 0; eco = l.eco ++ (10 ∷ []) }) cs
    else otra

-- The prompt is printed first; NULL prints nothing. `buf` is what the last call left in the buffer.
unfoldable pub readline : List ℕ → (ℕ → ℕ) → List ℤ → Lectura
unfolding readline_desde
readline prompt buf cs = readline_desde cs (record { buf = buf; indice = 0; eco = prompt })
