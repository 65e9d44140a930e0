-- ===== src/Kernel/TestsConsole.antt =====
-- Runs of the lock, and of the console: a keyboard that gives the bytes of a list, and a serial port
-- without data.
use features_operating_syste.Prelude.{
  Option, ℕ, ◌-◌, ◌≡◌, refl, true, false, some, List, [], ◌∷◌, ◌==◌, if◌then◌else◌, arith,
}
use features_operating_syste.UserLib.Format.Numbers.{palabra, restar, repetir, printnum}
use features_operating_syste.UserLib.Format.Orders.{numero, bandera, leer_orden}
use features_operating_syste.UserLib.Format.Run.{
  imprimir_numero, imprimir_d, ejecutar, paso, vprintfmt_con, vprintfmt,
}
use features_operating_syste.UserLib.Format.Any.{texto}
use features_operating_syste.Kernel.Console.Print.{vcprintf, vcprintf-Muestra}
use features_operating_syste.Kernel.Lock.{es_de, spin_initlock, pasos}
use features_operating_syste.Kernel.Lock.Holder.{con_cerrojo, en_panico, tomado}
use features_operating_syste.Kernel.Lock.Exclusion.{pasos_exclusion}
use features_operating_syste.Kernel.Console.Ports.{Puertos, Shift, Equipo}
use features_operating_syste.Kernel.Console.Keyboard.Maps.{normalmap}
use features_operating_syste.Kernel.Console.Keyboard.{
  charcode, con_capslock, tecla_pulsada, leer_codigo, kbd_proc_data,
}
use features_operating_syste.Kernel.Console.Screen.{cputs}
use features_operating_syste.Kernel.Console.Ring.{Consola, cons_getc}
use features_operating_syste.Kernel.Console.Fifo.{Contiene, Drena, cons_getc-primero}
use features_operating_syste.Kernel.Console.Typing.{es_letra, charcode-letra}
use features_operating_syste.Kernel.Console.Roll.{Papel, Muestra, imprimir_todo}
use features_operating_syste.Kernel.Console.Paper.{cputs-Muestra}

abbrev leer_puerto : ℕ → List ℕ → ℕ × List ℕ
leer_puerto puerto [] = (if puerto == 0x379 then 0x80 else if puerto == 0x3FD then 0x20 else 0, [])
leer_puerto puerto (x ∷ l) =
    if puerto == 0x64
    then (1, x ∷ l)
    else if puerto == 0x60
    then (x, l)
    else (if puerto == 0x379 then 0x80 else if puerto == 0x3FD then 0x20 else 0, x ∷ l)

abbrev puertos : Puertos (List ℕ)
puertos = record { inb = leer_puerto; outb = λ puerto v d. d }

abbrev sin_teclas : Shift
sin_teclas = record {
  shift = false;
  ctl = false;
  alt = false;
  capslock = false;
  numlock = false;
  scrolllock = false;
  e0esc = false;
}

-- No serial port, an empty screen, and these bytes of the keyboard.
abbrev equipo : List ℕ → Equipo (List ℕ)
equipo l = record {
  serial_exists = false;
  addr_6845 = 0x3D4;
  crt_buf = λ i. 0x0720;
  crt_pos = 0;
  teclas = sin_teclas;
  puertos = l;
}

-- One character, "x", waits in the ring, and the key "a" is pressed and released.
abbrev consola : Consola (List ℕ)
consola = record {
  cons = record { buf = λ i. 120; rpos = 511; wpos = 0 };
  equipo = equipo (0x1E ∷ 0x9E ∷ []);
}

teclado-Drena : Drena (kbd_proc_data puertos) (97 ∷ 0 ∷ []) (equipo (0x1E ∷ 0x9E ∷ [])) (equipo [])
unfolding kbd_proc_data leer_codigo tecla_pulsada charcode con_capslock normalmap
teclado-Drena = Drena.da refl (Drena.da refl (Drena.fin refl))

cons_getc-primero_example :
    (c' : Consola (List ℕ)) × (cons_getc puertos 3 consola ≡ some (120, c'))
    × Contiene c'.cons (97 ∷ [])
    × (c'.equipo ≡ equipo [])
cons_getc-primero_example =
    cons_getc-primero puertos 3 consola (120 ∷ []) [] (97 ∷ 0 ∷ []) {e1 = equipo (0x1E ∷ 0x9E ∷ [])}
      {e2 = equipo []} (refl, refl) teclado-Drena (omega arith) (omega arith) (omega arith)
      (record { dentro = omega arith; caben = omega arith; hasta = refl; celdas = refl })

q_letra : es_letra (normalmap 0x10) ≡ true
unfolding normalmap
q_letra = refl

-- CAPSLOCK and "q".
charcode-letra_example :
    con_capslock
      (record sin_teclas { capslock = true })
      (charcode (record sin_teclas { capslock = true }) 0x10)
    ≡ normalmap 0x10 - 32
charcode-letra_example =
    charcode-letra (record sin_teclas { capslock = true }) 0x10 (omega arith) q_letra

-- An empty roll.
abbrev papel : Papel
papel = record { tinta = λ i. 0x0720; lugar = 0; borde = 0 }

cputs-Muestra_example :
    Muestra 2000
      (imprimir_todo (b'a' ∷ b'\n' ∷ 9 ∷ 8 ∷ []) papel)
      (cputs puertos (b'a' ∷ b'\n' ∷ 9 ∷ 8 ∷ []) (equipo []))
cputs-Muestra_example =
    cputs-Muestra puertos (b'a' ∷ b'\n' ∷ 9 ∷ 8 ∷ []) papel (equipo []) (record {
      filas = 0;
      borde_fila = refl;
      aqui = refl;
      dentro = omega arith;
      vista = λ i h. refl;
      blanca = λ i h. refl;
    })

-- Two processors that take turns: the second waits until the first has released the lock.
abbrev turnos : List ℕ
turnos = 0 ∷ 1 ∷ 0 ∷ 0 ∷ 1 ∷ 1 ∷ 0 ∷ 1 ∷ []

pasos_exclusion_example :
    (o : Option ℕ) × ((i : ℕ) → con_cerrojo ((pasos turnos spin_initlock).lugar i) ≡ es_de o i)
    × ((pasos turnos spin_initlock).cerrojo.locked ≡ tomado o)
    × ((i : ℕ) → en_panico ((pasos turnos spin_initlock).lugar i) ≡ false)
pasos_exclusion_example = pasos_exclusion turnos

siete : texto (b'%' ∷ b'd' ∷ []) (palabra 7 ∷ []) ≡ some (b'7' ∷ [])
unfolding vprintfmt vprintfmt_con paso leer_orden bandera numero ejecutar imprimir_d imprimir_numero
    printnum repetir restar
siete = refl

vcprintf-Muestra_example :
    (e' : Equipo (List ℕ)) × (vcprintf puertos (b'%' ∷ b'd' ∷ []) (palabra 7 ∷ []) (equipo [])
      ≡ some (e', 1))
    × Muestra 2000 (imprimir_todo (b'7' ∷ []) papel) e'
vcprintf-Muestra_example =
    vcprintf-Muestra puertos (b'%' ∷ b'd' ∷ []) (palabra 7 ∷ []) papel (equipo []) siete (record {
      filas = 0;
      borde_fila = refl;
      aqui = refl;
      dentro = omega arith;
      vista = λ i h. refl;
      blanca = λ i h. refl;
    })
