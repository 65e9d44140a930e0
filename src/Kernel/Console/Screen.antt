-- ===== src/Kernel/Console/Screen.antt =====
-- The screen of scheduler/kern/console.c, 25 rows of 80 cells, and the output of a character.
use features_operating_syste.Prelude.{
  ℕ, ◌+◌, ◌-◌, ◌*◌, ◌/◌, ◌%◌, ◌^◌, Bool, List, [], ◌∷◌, ltb, leb, ◌==◌, if◌then◌else◌, update,
}
use features_operating_syste.Kernel.Console.Ports.{Puertos, Equipo, serial_putc, lpt_putc}

-- CRT_COLS
abbrev pub crt_cols : ℕ
crt_cols = 80

-- CRT_SIZE
abbrev pub crt_size : ℕ
crt_size = 2000

-- `if (!(c & ~0xFF)) c |= 0x0700`
abbrev pub con_atributo : ℕ → ℕ
con_atributo c = if ltb c 256 then c + 0x0700 else c

module _ {D : Type 0} where
  abbrev pub retroceder : ℕ → Equipo D → Equipo D
  retroceder c e =
      if ltb 0 e.crt_pos
      then record e {
        crt_pos = e.crt_pos - 1;
        crt_buf = update e.crt_buf (e.crt_pos - 1) ((c - c % 256 + 32) % 2 ^ 16);
      }
      else e

  abbrev pub retorno : Equipo D → Equipo D
  retorno e = record e { crt_pos = e.crt_pos - e.crt_pos % crt_cols }

  abbrev pub escribir_celda : ℕ → Equipo D → Equipo D
  escribir_celda c e = record e {
    crt_buf = update e.crt_buf e.crt_pos (c % 2 ^ 16);
    crt_pos = (e.crt_pos + 1) % 2 ^ 16;
  }

  -- The cases of `cga_putc`, on a character that has its attribute. `tab` is the five calls of `cons_putc`.
  unfoldable pub colocar : (Equipo D → Equipo D) → ℕ → Equipo D → Equipo D
  colocar tab c e =
      let b = c % 256 in
      if b == 8
      then retroceder c e
      else if b == 10
      then retorno (record e { crt_pos = (e.crt_pos + crt_cols) % 2 ^ 16 })
      else if b == 13
      then retorno e
      else if b == 9
      then tab e
      else escribir_celda c e

  -- Behind the last cell the rows move up by one.
  unfoldable pub subir_filas : Equipo D → Equipo D
  subir_filas e =
      if leb crt_size e.crt_pos
      then record e {
        crt_buf = λ i.
            if ltb i (crt_size - crt_cols)
            then e.crt_buf (i + crt_cols)
            else if ltb i crt_size
            then 0x0720
            else e.crt_buf i;
        crt_pos = e.crt_pos - crt_cols;
      }
      else e

module _ {D : Type 0} (p : Puertos D) where
  unfoldable pub mover_cursor : Equipo D → Equipo D
  mover_cursor e =
      let alto = p.outb (e.addr_6845 + 1) (e.crt_pos / 256) (p.outb e.addr_6845 14 e.puertos) in
      let bajo = p.outb (e.addr_6845 + 1) (e.crt_pos % 256) (p.outb e.addr_6845 15 alto) in
      record e { puertos = bajo }

  -- `cga_putc` and `cons_putc` call one another for a tabulator, which is five blanks.
  unfoldable pub cga_putc_con : (Equipo D → Equipo D) → ℕ → Equipo D → Equipo D
  cga_putc_con tab c e = mover_cursor (subir_filas (colocar tab (con_atributo c) e))

  unfoldable pub cons_putc_con : (Equipo D → Equipo D) → ℕ → Equipo D → Equipo D
  unfolding cga_putc_con
  cons_putc_con tab c e =
      cga_putc_con tab c (record e { puertos = lpt_putc p c (serial_putc p c e.puertos) })

  abbrev pub blanco : Equipo D → Equipo D
  blanco e = cons_putc_con (λ e'. e') 32 e

  abbrev pub tabulador : Equipo D → Equipo D
  tabulador e = blanco (blanco (blanco (blanco (blanco e))))

  abbrev pub cga_putc : ℕ → Equipo D → Equipo D
  cga_putc c e = cga_putc_con tabulador c e

  unfoldable pub cons_putc : ℕ → Equipo D → Equipo D
  cons_putc c e = cons_putc_con tabulador c e

  -- `cprintf` of a text without a directive, and any run of `cputchar`.
  unfoldable pub cputs : List ℕ → Equipo D → Equipo D
  cputs [] e = e
  cputs (c ∷ l) e = cputs l (cons_putc c e)

  -- `color`: the memory of the colour screen answers; `mono` is the memory of the other.
  unfoldable pub cga_init : Bool → (ℕ → ℕ) → Equipo D → Equipo D
  cga_init color mono e =
      let base = if color then 0x3D4 else 0x3B4 in
      let (alto, d1) = p.inb (base + 1) (p.outb base 14 e.puertos) in
      let (bajo, d2) = p.inb (base + 1) (p.outb base 15 d1) in
      record e {
        addr_6845 = base;
        crt_buf = if color then e.crt_buf else mono;
        crt_pos = alto * 256 + bajo;
        puertos = d2;
      }
