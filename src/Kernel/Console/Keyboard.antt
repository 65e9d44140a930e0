-- ===== src/Kernel/Console/Keyboard.antt =====
-- The keyboard of scheduler/kern/console.c: `kbd_proc_data` and the state of the modifier keys.
pub mod Maps
use Prim.Native.Nat.{bit_and}
use features_operating_syste.Prelude.{
  ℕ, ◌+◌, ◌-◌, ◌%◌, Bool, true, false, not, ◌&&◌, ◌||◌, Option, none, some, List, [], ◌∷◌, ltb, leb,
  ◌==◌, if◌then◌else◌,
}
use features_operating_syste.Kernel.Console.Ports.{Puertos, Shift, Equipo}
use features_operating_syste.Kernel.Console.Screen.{cputs}
use features_operating_syste.Kernel.Console.Keyboard.Maps.{normalmap, shiftmap, ctlmap, key_del}

-- `shiftcode[data]` holds the bit.
abbrev pub es_shift : ℕ → Bool
es_shift d = (d == 0x2A) || (d == 0x36)

abbrev pub es_ctl : ℕ → Bool
es_ctl d = (d == 0x1D) || (d == 0x9D)

abbrev pub es_alt : ℕ → Bool
es_alt d = (d == 0x38) || (d == 0xB8)

-- `shift |= shiftcode[data]`
abbrev pub poner_shift : ℕ → Shift → Shift
poner_shift d s = record s {
  shift = s.shift || es_shift d;
  ctl = s.ctl || es_ctl d;
  alt = s.alt || es_alt d;
}

-- `shift &= ~(shiftcode[data] | E0ESC)`
abbrev pub quitar_shift : ℕ → Shift → Shift
quitar_shift d s = record s {
  shift = s.shift && not (es_shift d);
  ctl = s.ctl && not (es_ctl d);
  alt = s.alt && not (es_alt d);
  e0esc = false;
}

-- `shift ^= togglecode[data]`
abbrev pub conmutar : ℕ → Shift → Shift
conmutar d s = record s {
  capslock = if d == 0x3A then not s.capslock else s.capslock;
  numlock = if d == 0x45 then not s.numlock else s.numlock;
  scrolllock = if d == 0x46 then not s.scrolllock else s.scrolllock;
}

-- `charcode[shift & (CTL | SHIFT)][data]`
unfoldable pub charcode : Shift → ℕ → ℕ
charcode s d = if s.ctl then ctlmap d else if s.shift then shiftmap d else normalmap d

-- Under CAPSLOCK a small letter is a capital, and a capital a small one.
unfoldable pub con_capslock : Shift → ℕ → ℕ
con_capslock s c =
    if s.capslock
    then if leb b'a' c && leb c b'z' then c - 32 else if leb b'A' c && leb c b'Z' then c + 32 else c
    else c

-- "Rebooting!\n"
abbrev pub texto_reinicio : List ℕ
texto_reinicio = b'R' ∷ b'e' ∷ b'b' ∷ b'o' ∷ b'o' ∷ b't' ∷ b'i' ∷ b'n' ∷ b'g' ∷ b'!' ∷ b'\n' ∷ []

module _ {D : Type 0} (p : Puertos D) where
  -- A key that is pressed, by its code.
  unfoldable pub tecla_pulsada : ℕ → Equipo D → Option ℕ × Equipo D
  tecla_pulsada d e =
      let s = conmutar d (poner_shift d e.teclas) in
      let c = con_capslock s (charcode s d) in
      let e1 = record e { teclas = s } in
      let e2 = cputs p texto_reinicio e1 in
      if (s.ctl && s.alt) && (c == key_del)
      then (some c, record e2 { puertos = p.outb 0x92 3 e2.puertos })
      else (some c, e1)

  -- What is done with the byte that was read.
  unfoldable pub leer_codigo : ℕ → Equipo D → Option ℕ × Equipo D
  unfolding tecla_pulsada
  leer_codigo d e =
      if d == 0xE0
      then (some 0, record e { teclas = record e.teclas { e0esc = true } })
      else if leb 128 d
      then (
        some 0,
        record e { teclas = quitar_shift (if e.teclas.e0esc then d else d % 128) e.teclas },
      )
      else if e.teclas.e0esc
      then tecla_pulsada (d + 128) (record e { teclas = record e.teclas { e0esc = false } })
      else tecla_pulsada d e

  -- A character, 0 where there is none, and `none` for -1.
  unfoldable pub kbd_proc_data : Equipo D → Option ℕ × Equipo D
  unfolding leer_codigo
  kbd_proc_data e =
      let (stat, d1) = p.inb 0x64 e.puertos in
      let (codigo, d2) = p.inb 0x60 d1 in
      if (bit_and stat 1 == 0) || not (bit_and stat 0x20 == 0)
      then (none, record e { puertos = d1 })
      else leer_codigo codigo (record e { puertos = d2 })
