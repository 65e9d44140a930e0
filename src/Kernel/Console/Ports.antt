-- ===== src/Kernel/Console/Ports.antt =====
-- The serial and the parallel port of scheduler/kern/console.c, and the state that the console keeps
-- besides its ring of input. `D` is the state of the devices behind the ports.
use Prim.Native.Nat.{bit_and}
use features_operating_syste.Prelude.{
  ℕ, zero, suc, ◌%◌, Bool, not, Option, none, some, ◌==◌, if◌then◌else◌,
}

-- `inb` and `outb`
pub record Puertos (D : Type 0) : Type 0 where
  pub inb : ℕ → D → ℕ × D
  pub outb : ℕ → ℕ → D → D

-- The bits of `shift` of `kbd_proc_data`.
pub record Shift : Type 0 where
  pub shift : Bool
  pub ctl : Bool
  pub alt : Bool
  pub capslock : Bool
  pub numlock : Bool
  pub scrolllock : Bool
  pub e0esc : Bool

-- The static variables but `cons`, with what stands in the memory of the screen.
pub record Equipo (D : Type 0) : Type 0 where
  pub serial_exists : Bool
  pub addr_6845 : ℕ
  pub crt_buf : ℕ → ℕ
  pub crt_pos : ℕ
  pub teclas : Shift
  pub puertos : D

module _ {D : Type 0} (p : Puertos D) where
  abbrev pub delay : D → D
  delay d = (p.inb 0x84 (p.inb 0x84 (p.inb 0x84 (p.inb 0x84 d).1).1).1).1

  -- `for (i = 0; !(inb(puerto) & bit) && i < n; i++) delay();`
  unfoldable pub esperar : ℕ → ℕ → ℕ → D → D
  esperar puerto bit zero d = (p.inb puerto d).1
  esperar puerto bit (suc n) d =
      let (v, d1) = p.inb puerto d in
      let resto = esperar puerto bit n (delay d1) in if bit_and v bit == 0 then resto else d1

  -- COM1 + COM_LSR, COM_LSR_TXRDY; COM1 + COM_TX
  unfoldable pub serial_putc : ℕ → D → D
  serial_putc c d = p.outb 0x3F8 (c % 256) (esperar 0x3FD 0x20 12800 d)

  unfoldable pub lpt_putc : ℕ → D → D
  lpt_putc c d =
      p.outb 0x37A 0x08 (p.outb 0x37A 0x0D (p.outb 0x378 (c % 256) (esperar 0x379 0x80 12800 d)))

  -- -1 is `none`.
  unfoldable pub serial_proc_data : Equipo D → Option ℕ × Equipo D
  serial_proc_data e =
      let (estado, d1) = p.inb 0x3FD e.puertos in
      let (c, d2) = p.inb 0x3F8 d1 in
      if bit_and estado 1 == 0
      then (none, record e { puertos = d1 })
      else (some c, record e { puertos = d2 })

  -- The registers of the port, in order; it is there unless the line status reads 0xFF.
  unfoldable pub serial_init : Equipo D → Equipo D
  serial_init e =
      let velocidad =
        p.outb 0x3F9 0 (p.outb 0x3F8 12 (p.outb 0x3FB 0x80 (p.outb 0x3FA 0 e.puertos))) in
      let modo = p.outb 0x3F9 1 (p.outb 0x3FC 0 (p.outb 0x3FB 3 velocidad)) in
      let (estado, d) = p.inb 0x3FD modo in
      record e { serial_exists = not (estado == 0xFF); puertos = (p.inb 0x3F8 (p.inb 0x3FA d).1).1 }
