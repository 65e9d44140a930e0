-- ===== src/UserLib/Format/Digits.antt =====
-- `printnum` of scheduler/lib/printfmt.c and the loop of `strtol` of scheduler/lib/string.c.
use native.Mathlib.Nat.{
  div-add-mod', mod-lt, div-eq_of_lt, pow-succ', mul-le-mul_left, mod-eq_of_lt,
}
use features_operating_syste.Prelude.{
  ℕ, zero, suc, ◌+◌, ◌-◌, ◌*◌, ◌/◌, ◌%◌, ◌^◌, ◌≤◌, ◌<◌, ◌≡◌, ◌⊎◌, refl, ap, sym, ◌∙◌, false, some,
  List, [], ◌∷◌, ◌++◌, append_assoc, append-nil, leb, ℤ, pos, negsuc, arith, Bool-cases, inl, inr,
}
use features_operating_syste.UserLib.Strings.{digito, digitos}
use features_operating_syste.UserLib.Format.Numbers.{
  parte_positiva, restar, cifra, repetir, printnum,
}

-- A `putch` that collects the characters.
abbrev pub reunir : ℕ → List ℕ → List ℕ
reunir c l = l ++ (c ∷ [])

digito-cifra : (d : ℕ) → d < 16 → digito (cifra d) ≡ some d
digito-cifra d h = ground (arith, h)

digitos-cifra :
    (base v d : ℕ) (r : List ℕ)
    → d < base
    → base ≤ 16
    → v * base + d < 2 ^ 32
    → digitos base v (cifra d ∷ r) ≡ digitos base (v * base + d) r
unfolding digitos
digitos-cifra base v d r h b cabe =
    let menor : leb base d ≡ false = ground (arith, h) in
    rw (digitos, digito-cifra d (omega (arith, h, b)), menor)
      (ap (λ (w : ℕ). digitos base w r) (mod-eq_of_lt cabe))

-- Zeros in front.
digitos-repetir :
    (base n : ℕ) (l r : List ℕ)
    → 2 ≤ base
    → base ≤ 16
    → ((r' : List ℕ) → digitos base 0 (l ++ r') ≡ digitos base 0 r')
    → digitos base 0 (repetir reunir n b'0' l ++ r) ≡ digitos base 0 r
unfolding repetir digitos
digitos-repetir base zero l r b b16 h = h r
digitos-repetir base (suc n) l r b b16 h = digitos-repetir base n (l ++ (b'0' ∷ [])) r b b16 (λ r'.
    rw (append_assoc l (b'0' ∷ []) r') (
      h (b'0' ∷ r')
      ∙ digitos-cifra base 0 0 r' (omega (arith, b)) b16 (omega arith)
      ∙ ap (λ (v : ℕ). digitos base v r') (omega arith)))

-- No padding, or zeros.
abbrev pub SinBlancos : ℤ → ℕ → Type 0
SinBlancos width padc = (padc ≡ b'0') ⊎ (parte_positiva width ≤ 1)

restar-uno : (w : ℤ) → parte_positiva (restar w 1) ≡ parte_positiva w - 1
unfolding restar
restar-uno (pos zero) = refl
restar-uno (pos (suc n)) = omega arith
restar-uno (negsuc n) = refl

SinBlancos-restar : (w : ℤ) (padc : ℕ) → SinBlancos w padc → SinBlancos (restar w 1) padc
SinBlancos-restar w padc (inl e) = inl e
SinBlancos-restar w padc (inr h) = inr (omega (arith, h, restar-uno w))

relleno-digitos :
    (base : ℕ) (w : ℤ) (padc : ℕ) (r : List ℕ)
    → 2 ≤ base
    → base ≤ 16
    → SinBlancos w padc
    → digitos base 0 (repetir reunir (parte_positiva (restar w 1)) padc [] ++ r) ≡ digitos base 0 r
unfolding repetir
relleno-digitos base w padc r b b' (inl e) =
    rw e (digitos-repetir base (parte_positiva (restar w 1)) [] r b b' (λ r'. refl))
relleno-digitos base w padc r b b' (inr h) =
    let nada : parte_positiva (restar w 1) ≡ 0 = omega (arith, h, restar-uno w) in rw nada refl

mitad : (n num base : ℕ) → 2 ≤ base → num < 2 ^ suc n → num / base < 2 ^ n
mitad n num base b h =
    omega (arith, h, pow-succ' 2 n, div-add-mod' num base, mul-le-mul_left (num / base) b)

printnum-lee :
    (n num base : ℕ) (w : ℤ) (padc : ℕ) (r : List ℕ)
    → 2 ≤ base
    → base ≤ 16
    → num < 2 ^ n
    → num < 2 ^ 32
    → SinBlancos w padc
    → digitos base 0 (printnum reunir n num base w padc [] ++ r) ≡ digitos base num r
unfolding printnum
printnum-lee zero num base w padc r b b' h cabe s =
    let nulo : 0 ≡ num = omega (arith, h) in ap (λ (v : ℕ). digitos base v r) nulo
printnum-lee (suc n) num base w padc r b b' h cabe s =
    let d = num % base in
    let menos : num / base ≤ num =
      omega (arith, b, div-add-mod' num base, mul-le-mul_left (num / base) b) in
    let s' = SinBlancos-restar w padc s in
    let antes =
      printnum-lee n (num / base) base (restar w 1) padc (cifra d ∷ r) b b' (mitad n num base b h)
        (omega (arith, cabe, menos)) s' in
    let justo : num / base * base + d < 2 ^ 32 = omega (arith, div-add-mod' num base, cabe) in
    let relleno = relleno-digitos base w padc (cifra d ∷ r) b b' s in
    let fin =
      digitos-cifra base (num / base) d r (mod-lt num (omega (arith, b))) b' justo
      ∙ ap (λ (v : ℕ). digitos base v r) (div-add-mod' num base) in
    elim (Bool-cases (leb base num)) [
      | inl e ↦
          rw
            (
              e,
              append_assoc (printnum reunir n (num / base) base (restar w 1) padc []) (cifra d ∷ [])
                  r,
            )
            (antes ∙ fin)
      | inr e ↦
          let cero : 0 ≡ num / base = sym (div-eq_of_lt (ground (arith, e))) in
          rw
            (
              e,
              append_assoc (repetir reunir (parte_positiva (restar w 1)) padc []) (cifra d ∷ []) r,
            )
            (relleno ∙ ap (λ (v : ℕ). digitos base v (cifra d ∷ r)) cero ∙ fin)
    ]

-- For a base from 2 to 16 and a number below 2^31, which a `long` can hold, what `printnum` prints without padding, or padded with
-- zeros, the loop of `strtol` reads as that number, to the end of the text.
pub printnum-digitos :
    (num base : ℕ) (width : ℤ) (padc : ℕ)
    → 2 ≤ base
    → base ≤ 16
    → num < 2 ^ 31
    → SinBlancos width padc
    → digitos base 0 (printnum reunir 64 num base width padc []) ≡ (num, [])
unfolding digitos
printnum-digitos num base width padc b b' h s =
    ap (digitos base 0) (sym (append-nil (printnum reunir 64 num base width padc [])))
    ∙ printnum-lee 64 num base width padc [] b b' (omega (arith, h)) (omega (arith, h)) s
