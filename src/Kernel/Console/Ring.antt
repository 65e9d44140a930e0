-- ===== src/Kernel/Console/Ring.antt =====
-- The ring of input of scheduler/kern/console.c, and the functions that fill and read it.
use features_operating_syste.Prelude.{
  ℕ, zero, suc, ◌+◌, ◌%◌, Option, none, some, ◌==◌, if◌then◌else◌, update,
}
use features_operating_syste.Kernel.Console.Ports.{Puertos, Equipo, serial_proc_data}
use features_operating_syste.Kernel.Console.Keyboard.{kbd_proc_data}

-- CONSBUFSIZE
abbrev pub consbufsize : ℕ
consbufsize = 512

-- `cons`
pub record Cons : Type 0 where
  pub buf : ℕ → ℕ
  pub rpos : ℕ
  pub wpos : ℕ

pub record Consola (D : Type 0) : Type 0 where
  pub cons : Cons
  pub equipo : Equipo D

-- The next index of the ring.
abbrev pub siguiente : ℕ → ℕ
siguiente i = if i + 1 == consbufsize then 0 else i + 1

-- A character that is not 0 is kept, as a byte.
unfoldable pub guardar_caracter : ℕ → Cons → Cons
guardar_caracter c k =
    if c == 0 then k else record k { buf = update k.buf k.wpos (c % 256); wpos = siguiente k.wpos }

-- The loop ends when `proc` has no more data; `none` is no fuel left.
unfoldable pub cons_intr : {S : Type 0} → (S → Option ℕ × S) → ℕ → Cons → S → Option (Cons × S)
cons_intr proc zero k s = none
cons_intr proc (suc n) k s =
    let (c, s') = proc s in
    elim c [ none ↦ some (k, s') | some x ↦ cons_intr proc n (guardar_caracter x k) s' ]

-- The character, 0 if none is waiting.
unfoldable pub sacar_caracter : Cons → ℕ × Cons
sacar_caracter k =
    if k.rpos == k.wpos then (0, k) else (k.buf k.rpos, record k { rpos = siguiente k.rpos })

module _ {D : Type 0} (p : Puertos D) where
  -- The console after a loop of `cons_intr`.
  abbrev pub con_entrada : Option (Cons × Equipo D) → Option (Consola D)
  con_entrada none = none
  con_entrada (some (k, e)) = some (record { cons = k; equipo = e })

  unfoldable pub kbd_intr : ℕ → Consola D → Option (Consola D)
  kbd_intr n c = con_entrada (cons_intr (kbd_proc_data p) n c.cons c.equipo)

  unfoldable pub serial_intr : ℕ → Consola D → Option (Consola D)
  serial_intr n c =
      if c.equipo.serial_exists
      then con_entrada (cons_intr (serial_proc_data p) n c.cons c.equipo)
      else some c

  unfoldable pub cons_getc : ℕ → Consola D → Option (ℕ × Consola D)
  unfolding serial_intr kbd_intr
  cons_getc n c = elim (serial_intr n c) [
    | none ↦ none
    | some c1 ↦ elim (kbd_intr n c1) [
      | none ↦ none
      | some c2 ↦ let (x, k) = sacar_caracter c2.cons in some (x, record c2 { cons = k })
    ]
  ]

  -- `getchar` asks again until there is a character, `m` times at most.
  unfoldable pub getchar : ℕ → ℕ → Consola D → Option (ℕ × Consola D)
  unfolding cons_getc
  getchar n zero c = none
  getchar n (suc m) c = elim (cons_getc n c) [
    | none ↦ none
    | some (x, c') ↦ let otra = getchar n m c' in if x == 0 then otra else some (x, c')
  ]
