-- ===== src/UserLib/Format/Numbers.antt =====
-- `printnum` of scheduler/lib/printfmt.c, and the arguments of a call. `S` is what `putdat` points to.
use features_operating_syste.Prelude.{
  ℕ, zero, suc, ◌+◌, ◌-◌, ◌/◌, ◌%◌, ◌^◌, Option, List, ltb, leb, if◌then◌else◌, ℤ, pos, negsuc,
}

-- An argument: a word of 32 bits (`int`, `long` or `void *`), one of 64 bits, or a string, which may be NULL.
pub data Argumento : Type 0 where
  palabra : ℕ → Argumento
  larga : ℕ → Argumento
  cadena : Option (List ℕ) → Argumento

-- The value of a word as an `int`.
abbrev pub como_entero : ℕ → ℤ
como_entero v = if ltb v (2 ^ 31) then pos v else negsuc (2 ^ 32 - 1 - v)

-- A `char` as an `int` in a word.
abbrev pub extendido : ℕ → ℕ
extendido x = if ltb x 128 then x else x + (2 ^ 32 - 256)

-- The positive part.
abbrev pub parte_positiva : ℤ → ℕ
parte_positiva (pos n) = n
parte_positiva (negsuc n) = 0

-- `n - k` for an `int`.
unfoldable pub restar : ℤ → ℕ → ℤ
restar n zero = n
restar (pos zero) (suc k) = negsuc k
restar (pos (suc n)) (suc k) = restar (pos n) k
restar (negsuc n) (suc k) = negsuc (suc (n + k))

-- "0123456789abcdef"
abbrev pub cifra : ℕ → ℕ
cifra d = if ltb d 10 then d + b'0' else d - 10 + b'a'

module _ {S : Type 0} (putch : ℕ → S → S) where
  -- `putch(c, putdat)`, `n` times.
  unfoldable pub repetir : ℕ → ℕ → S → S
  repetir zero c s = s
  repetir (suc n) c s = repetir n c (putch c s)

  -- `while (--width > 0) putch(padc, putdat)` before the first digit. With fuel 0 nothing is printed.
  unfoldable pub printnum : ℕ → ℕ → ℕ → ℤ → ℕ → S → S
  printnum zero num base width padc s = s
  printnum (suc n) num base width padc s =
      let antes = printnum n (num / base) base (restar width 1) padc s in
      let relleno = repetir (parte_positiva (restar width 1)) padc s in
      putch (cifra (num % base)) (if leb base num then antes else relleno)
