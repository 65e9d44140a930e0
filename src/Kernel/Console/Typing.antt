-- ===== src/Kernel/Console/Typing.antt =====
-- What the keys of scheduler/kern/console.c give: the letters under the modifier keys, and a key that
-- is pressed and released.
use features_operating_syste.Prelude.{
  ℕ, zero, suc, ◌+◌, ◌-◌, ◌<◌, ◌≡◌, refl, ap, subst, Bool, true, false, not, ◌&&◌, ◌||◌, Option,
  some, List, [], ◌∷◌, leb, ◌==◌, if◌then◌else◌, arith,
}
use features_operating_syste.Kernel.Console.Ports.{Puertos, Shift, Equipo}
use features_operating_syste.Kernel.Console.Keyboard.Maps.{normalmap, shiftmap, ctlmap, key_del}
use features_operating_syste.Kernel.Console.Keyboard.{
  es_shift, es_ctl, es_alt, poner_shift, quitar_shift, conmutar, charcode, con_capslock,
  tecla_pulsada, leer_codigo,
}

abbrev pub es_letra : ℕ → Bool
es_letra c = leb b'a' c && leb c b'z'

-- The tables agree at code `d`.
abbrev acorde : ℕ → Bool
acorde d =
    if es_letra (normalmap d)
    then (shiftmap d == normalmap d - 32) && (ctlmap d == normalmap d - 96)
    else true

abbrev todos : (ℕ → Bool) → ℕ → Bool
todos f zero = true
todos f (suc n) = f n && todos f n

todos-en : (f : ℕ → Bool) (n d : ℕ) → todos f n ≡ true → d < n → f d ≡ true
todos-en f zero d h l = absurd (omega (arith, l))
todos-en f (suc n) d h l = ground (arith, h, todos-en f n d)

tablas_acordes : todos acorde 256 ≡ true
unfolding normalmap shiftmap ctlmap
tablas_acordes = refl

tablas-letra :
    (d : ℕ)
    → d < 256
    → es_letra (normalmap d) ≡ true
    → (shiftmap d ≡ normalmap d - 32) × (ctlmap d ≡ normalmap d - 96)
tablas-letra d h l =
    let a = todos-en acorde 256 d tablas_acordes h in
    let b : ((shiftmap d == normalmap d - 32) && (ctlmap d == normalmap d - 96)) ≡ true =
      subst
        (λ (t : Bool).
          (if t then (shiftmap d == normalmap d - 32) && (ctlmap d == normalmap d - 96) else true)
          ≡ true)
        l a in
    (ground (arith, b), ground (arith, b))

-- Of a key whose code is below 256 and that gives a small letter by itself: with CTL held the character is
-- the letter's control character, whatever SHIFT and CAPSLOCK are; without CTL it is the capital when
-- exactly one of SHIFT and CAPSLOCK is on, and else the small letter.
pub charcode-letra :
    (s : Shift) (d : ℕ)
    → d < 256
    → es_letra (normalmap d) ≡ true
    → con_capslock s (charcode s d) ≡ (
        if s.ctl
        then normalmap d - 96
        else if (s.shift && not s.capslock) || (s.capslock && not s.shift)
        then normalmap d - 32
        else normalmap d)
unfolding charcode con_capslock
charcode-letra s d h l = let (m, c) = tablas-letra d h l in ground (arith, m, c, l)

-- No key of the kind of `d` is held.
abbrev pub Suelta : ℕ → Shift → Type 0
Suelta d s =
    ((es_shift d && s.shift) ≡ false)
    × ((es_ctl d && s.ctl) ≡ false)
    × ((es_alt d && s.alt) ≡ false)

conmutar-quitar_shift :
    (d : ℕ) (s : Shift)
    → Suelta d s
    → s.e0esc ≡ false
    → quitar_shift d (conmutar d (poner_shift d s)) ≡ conmutar d s
conmutar-quitar_shift d s (h1, h2, h3) e = ground (arith, h1, h2, h3, e)

module _ {D : Type 0} (p : Puertos D) where
  -- The values that the bytes of the keyboard give, and the console after them.
  abbrev pub leer_codigos : List ℕ → Equipo D → List (Option ℕ) × Equipo D
  leer_codigos [] e = ([], e)
  leer_codigos (d ∷ l) e =
      let (c, e1) = leer_codigo p d e in let (cs, e2) = leer_codigos l e1 in (c ∷ cs, e2)

  -- The character of the key with code `d`.
  abbrev pub caracter : ℕ → Shift → ℕ
  caracter d s = let s' = conmutar d (poner_shift d s) in con_capslock s' (charcode s' d)

  -- Not the keys that start the machine anew.
  abbrev pub SinReinicio : ℕ → Shift → Type 0
  SinReinicio d s =
      (((s.ctl || es_ctl d) && (s.alt || es_alt d)) && (caracter d s == key_del)) ≡ false

  tecla_pulsada_lem :
      (d : ℕ) (e : Equipo D)
      → SinReinicio d e.teclas
      → tecla_pulsada p d e
        ≡ (some (caracter d e.teclas), record e { teclas = conmutar d (poner_shift d e.teclas) })
  unfolding tecla_pulsada
  tecla_pulsada_lem d e r = ground (arith, r)

  pulsar_lem :
      (d : ℕ) (e : Equipo D)
      → d < 128
      → e.teclas.e0esc ≡ false
      → SinReinicio d e.teclas
      → leer_codigo p d e
        ≡ (some (caracter d e.teclas), record e { teclas = conmutar d (poner_shift d e.teclas) })
  unfolding leer_codigo
  pulsar_lem d e h z r = ground (arith, h, z, tecla_pulsada_lem d e r)

  -- The release of a key, by its code.
  soltar_lem :
      (d : ℕ) (s : Shift) (e : Equipo D)
      → d < 128
      → (d == 0x60) ≡ false
      → s.e0esc ≡ false
      → leer_codigo p (d + 128) (record e { teclas = s })
        ≡ (some 0, record e { teclas = quitar_shift d s })
  unfolding leer_codigo
  soltar_lem d s e h x z = ground (arith, h, x, z)

  -- A key with code `d`, other than 0x60, that is pressed and released gives one character, and, where no
  -- key of its kind is held and the machine is not started anew, leaves the modifiers as they were,
  -- but for the lock that the key switches; nothing else of the console changes.
  leer_codigos-tecla :
      (d : ℕ) (e : Equipo D)
      → d < 128
      → (d == 0x60) ≡ false
      → e.teclas.e0esc ≡ false
      → Suelta d e.teclas
      → SinReinicio d e.teclas
      → leer_codigos (d ∷ (d + 128) ∷ []) e
        ≡ (some (caracter d e.teclas) ∷ some 0 ∷ [], record e { teclas = conmutar d e.teclas })
  leer_codigos-tecla d e h x z v r =
      let s = conmutar d (poner_shift d e.teclas) in
      let a = pulsar_lem d e h z r in
      let b = soltar_lem d s e h x z in
      let a0 = ap (λ (q : Option ℕ × Equipo D). q.0) a in
      let a1 = ap (λ (q : Option ℕ × Equipo D). q.1) a in
      let b0 = ap (λ (q : Option ℕ × Equipo D). q.0) b in
      let b1 = ap (λ (q : Option ℕ × Equipo D). q.1) b in
      rw (a1, a0, b0, b1, conmutar-quitar_shift d e.teclas v z) refl
