-- ===== src/Kernel/Console/Init.antt =====
-- `cons_init` of scheduler/kern/console.c, and the interrupt controller of scheduler/kern/picirq.c.
use Prim.Native.Nat.{bit_and}
use features_operating_syste.Prelude.{
  ℕ, zero, suc, ◌+◌, ◌/◌, ◌%◌, ◌^◌, Bool, true, false, Option, none, some, List, [], ◌∷◌, ◌==◌,
  if◌then◌else◌,
}
use features_operating_syste.UserLib.Format.Numbers.{Argumento, palabra}
use features_operating_syste.Kernel.Console.Ports.{Puertos, Equipo, serial_init}
use features_operating_syste.Kernel.Console.Screen.{cga_init}
use features_operating_syste.Kernel.Console.Ring.{Consola, kbd_intr}
use features_operating_syste.Kernel.Console.Print.{vcprintf}

-- The static variables of picirq.c.
pub record Pic : Type 0 where
  pub irq_mask_8259A : ℕ
  pub didinit : Bool

-- As they are at first: all interrupts are masked but IRQ_SLAVE.
abbrev pub pic_inicial : Pic
pic_inicial = record { irq_mask_8259A = 0xFFFB; didinit = false }

-- "enabled interrupts:", " %d", "\n" and "Serial port does not exist!\n"
abbrev pub texto_enabled : List ℕ
texto_enabled =
    b'e' ∷ b'n' ∷ b'a' ∷ b'b' ∷ b'l' ∷ b'e' ∷ b'd' ∷ b' ' ∷ b'i' ∷ b'n' ∷ b't' ∷ b'e' ∷ b'r' ∷ b'r'
    ∷ b'u' ∷ b'p' ∷ b't' ∷ b's' ∷ b':' ∷ []

abbrev pub formato_irq : List ℕ
formato_irq = b' ' ∷ b'%' ∷ b'd' ∷ []

abbrev pub texto_serial : List ℕ
texto_serial =
    b'S' ∷ b'e' ∷ b'r' ∷ b'i' ∷ b'a' ∷ b'l' ∷ b' ' ∷ b'p' ∷ b'o' ∷ b'r' ∷ b't' ∷ b' ' ∷ b'd' ∷ b'o'
    ∷ b'e' ∷ b's' ∷ b' ' ∷ b'n' ∷ b'o' ∷ b't' ∷ b' ' ∷ b'e' ∷ b'x' ∷ b'i' ∷ b's' ∷ b't' ∷ b'!'
    ∷ b'\n' ∷ []

-- The writes of `pic_init`, in order: a port and a value.
abbrev pub ordenes_pic : List (ℕ × ℕ)
ordenes_pic =
    (0x21, 0xFF)
    ∷ (0xA1, 0xFF)
    ∷ (0x20, 0x11)
    ∷ (0x21, 32)
    ∷ (0x21, 4)
    ∷ (0x21, 3)
    ∷ (0xA0, 0x11)
    ∷ (0xA1, 40)
    ∷ (0xA1, 2)
    ∷ (0xA1, 1)
    ∷ (0x20, 0x68)
    ∷ (0x20, 0x0A)
    ∷ (0xA0, 0x68)
    ∷ (0xA0, 0x0A)
    ∷ []

module _ {D : Type 0} (p : Puertos D) where
  abbrev pub outb_todos : List (ℕ × ℕ) → D → D
  outb_todos [] d = d
  outb_todos ((puerto, v) ∷ l) d = outb_todos l (p.outb puerto v d)

  -- `cprintf`; `none` is an argument that is not there.
  abbrev pub cprintf : List ℕ → List Argumento → Equipo D → Option (Equipo D)
  cprintf fmt args e = elim (vcprintf p fmt args e) [ none ↦ none | some (e', cnt) ↦ some e' ]

  -- The interrupts from `i` on, `n` of them, that `mask` lets through.
  unfoldable pub imprimir_irqs : ℕ → ℕ → ℕ → Equipo D → Option (Equipo D)
  imprimir_irqs mask i zero e = some e
  imprimir_irqs mask i (suc n) e =
      elim (if mask / 2 ^ i % 2 == 0 then cprintf formato_irq (palabra i ∷ []) e else some e) [
        | none ↦ none
        | some e' ↦ imprimir_irqs mask (i + 1) n e'
      ]

  -- The list of the interrupts, between its two texts.
  abbrev pub imprimir_lista : ℕ → Equipo D → Option (Equipo D)
  imprimir_lista mask e = elim (cprintf texto_enabled [] e) [
    | none ↦ none
    | some e1 ↦ elim (imprimir_irqs mask 0 16 e1) [
      | none ↦ none
      | some e2 ↦ cprintf (b'\n' ∷ []) [] e2
    ]
  ]

  unfoldable pub irq_setmask_8259A : ℕ → Pic → Equipo D → Option (Pic × Equipo D)
  unfolding imprimir_irqs
  irq_setmask_8259A mask pic e =
      let pic' = record pic { irq_mask_8259A = mask } in
      let e1 = record e {
        puertos = outb_todos ((0x21, mask % 256) ∷ (0xA1, mask / 256) ∷ []) e.puertos;
      } in
      elim (if pic.didinit then imprimir_lista mask e1 else some e) [
        | none ↦ none
        | some e2 ↦ some (pic', e2)
      ]

  unfoldable pub pic_init : Pic → Equipo D → Option (Pic × Equipo D)
  unfolding irq_setmask_8259A
  pic_init pic e =
      let pic1 = record pic { didinit = true } in
      let e1 = record e { puertos = outb_todos ordenes_pic e.puertos } in
      if pic.irq_mask_8259A == 0xFFFF
      then some (pic1, e1)
      else irq_setmask_8259A pic.irq_mask_8259A pic1 e1

  -- Input that waits is read first; `n` is fuel for it.
  unfoldable pub kbd_init : ℕ → Pic → Consola D → Option (Pic × Consola D)
  unfolding kbd_intr irq_setmask_8259A
  kbd_init n pic c = elim (kbd_intr p n c) [
    | none ↦ none
    | some c1 ↦ elim (irq_setmask_8259A (bit_and pic.irq_mask_8259A 0xFFFD) pic c1.equipo) [
      | none ↦ none
      | some (pic', e) ↦ some (pic', record c1 { equipo = e })
    ]
  ]

  unfoldable pub cons_init : Bool → (ℕ → ℕ) → ℕ → Pic → Consola D → Option (Pic × Consola D)
  unfolding kbd_init
  cons_init color mono n pic c =
      elim (kbd_init n pic (record c { equipo = cga_init p color mono c.equipo })) [
        | none ↦ none
        | some (pic', c1) ↦
            let e = serial_init p c1.equipo in
            elim (if e.serial_exists then some e else cprintf texto_serial [] e) [
              | none ↦ none
              | some e1 ↦ some (pic', record c1 { equipo = e1 })
            ]
      ]
