-- ===== src/UserLib/Strings.antt =====
-- The functions of scheduler/lib/string.c on strings. A string is the list of the bytes before its NUL,
-- as `unsigned char`s; a position in it is the text from there on.
use features_operating_syste.Prelude.{
  ℕ, zero, suc, ◌+◌, ◌*◌, ◌-◌, ◌%◌, ◌^◌, ◌≤◌, ◌≡◌, refl, ap, Bool, true, false, ◌&&◌, ◌||◌, Option,
  none, some, List, [], ◌∷◌, leb, ltb, ◌==◌, if◌then◌else◌, length, take, ℤ, pos, negsuc, ==_refl,
  arith,
}
use features_operating_syste.UserLib.Blocks.{resta}

abbrev pub strlen : List ℕ → ℕ
strlen s = length s

unfoldable pub strnlen : List ℕ → ℕ → ℕ
strnlen s zero = 0
strnlen [] (suc size) = 0
strnlen (x ∷ s) (suc size) = suc (strnlen s size)

-- The `size` bytes that are written.
unfoldable pub strncpy : List ℕ → ℕ → List ℕ
strncpy src zero = []
strncpy [] (suc size) = 0 ∷ strncpy [] size
strncpy (x ∷ src) (suc size) = x ∷ strncpy src size

-- The text that is written before a NUL; with a size of 0 nothing is written. The length of the text is
-- returned.
unfoldable pub strlcpy : List ℕ → ℕ → Option (List ℕ)
strlcpy src zero = none
strlcpy src (suc size) = some (take size src)

unfoldable pub strcmp : List ℕ → List ℕ → ℤ
strcmp [] [] = pos 0
strcmp [] (y ∷ q) = resta 0 y
strcmp (x ∷ p) [] = resta x 0
strcmp (x ∷ p) (y ∷ q) = let resto = strcmp p q in if x == y then resto else resta x y

unfoldable pub strncmp : List ℕ → List ℕ → ℕ → ℤ
strncmp p q zero = pos 0
strncmp [] [] (suc n) = pos 0
strncmp [] (y ∷ q) (suc n) = resta 0 y
strncmp (x ∷ p) [] (suc n) = resta x 0
strncmp (x ∷ p) (y ∷ q) (suc n) = let resto = strncmp p q n in if x == y then resto else resta x y

-- `none` is a null pointer.
unfoldable pub strchr : List ℕ → ℕ → Option (List ℕ)
strchr [] c = none
strchr (x ∷ s) c = let resto = strchr s c in if x == c then some (x ∷ s) else resto

unfoldable pub strfind : List ℕ → ℕ → List ℕ
strfind [] c = []
strfind (x ∷ s) c = let resto = strfind s c in if x == c then x ∷ s else resto

-- `while (*s == ' ' || *s == '\t') s++;`
unfoldable pub sin_blancos : List ℕ → List ℕ
sin_blancos [] = []
sin_blancos (x ∷ s) =
    let resto = sin_blancos s in if (x == b' ') || (x == b'\t') then resto else x ∷ s

abbrev pub entre : ℕ → ℕ → ℕ → Bool
entre a b x = leb a x && leb x b

-- The value of a digit.
abbrev pub digito : ℕ → Option ℕ
digito x =
    if entre b'0' b'9' x
    then some (x - b'0')
    else if entre b'a' b'z' x
    then some (x - b'a' + 10)
    else if entre b'A' b'Z' x
    then some (x - b'A' + 10)
    else none

-- The loop on digits: `val` as a word of 32 bits, which wraps around, and the text behind them.
unfoldable pub digitos : ℕ → ℕ → List ℕ → ℕ × List ℕ
digitos base val [] = (val, [])
digitos base val (x ∷ s) = elim (digito x) [
  | none ↦ (val, x ∷ s)
  | some dig ↦
      let resto = digitos base ((val * base + dig) % 2 ^ 32) s in
      if leb base dig then (val, x ∷ s) else resto
]

-- The sign, and the text behind it.
abbrev pub signo : List ℕ → Bool × List ℕ
signo [] = (false, [])
signo (x ∷ s) = if x == b'+' then (false, s) else if x == b'-' then (true, s) else (false, x ∷ s)

-- The base that is meant, and the text behind its prefix.
abbrev pub prefijo : ℕ → List ℕ → ℕ × List ℕ
prefijo base [] = (if base == 0 then 10 else base, [])
prefijo base (x ∷ []) =
    if (base == 0) && (x == b'0') then (8, []) else (if base == 0 then 10 else base, x ∷ [])
prefijo base (x ∷ y ∷ s) =
    if ((base == 0) || (base == 16)) && (x == b'0') && (y == b'x')
    then (16, s)
    else if (base == 0) && (x == b'0')
    then (8, y ∷ s)
    else (if base == 0 then 10 else base, x ∷ y ∷ s)

-- A word read as a `long` of 32 bits.
abbrev pub como_long : ℕ → ℤ
como_long n = if ltb n (2 ^ 31) then pos n else negsuc (2 ^ 32 - 1 - n)

-- `neg ? -val : val`
abbrev pub con_signo : Bool → ℕ → ℤ
con_signo false n = como_long n
con_signo true n = como_long ((2 ^ 32 - n) % 2 ^ 32)

-- The number and what `*endptr` is set to.
unfoldable pub strtol : List ℕ → ℕ → ℤ × List ℕ
unfolding sin_blancos digitos
strtol s base =
    let (neg, s1) = signo (sin_blancos s) in
    let (b, s2) = prefijo base s1 in let (val, s3) = digitos b 0 s2 in (con_signo neg val, s3)

-- Equal strings compare as 0.
strcmp-igual : (p : List ℕ) → strcmp p p ≡ pos 0
unfolding strcmp
strcmp-igual [] = refl
strcmp-igual (x ∷ p) = rw (==_refl x) (strcmp-igual p)

take-todo : (src : List ℕ) (n : ℕ) → length src ≤ n → take n src ≡ src
take-todo [] zero h = refl
take-todo [] (suc n) h = refl
take-todo (x ∷ src) zero h = ground arith
take-todo (x ∷ src) (suc n) h = ap (◌∷◌ x) (take-todo src n (omega (arith, h)))

-- The copy of a string with room for its NUL is the string.
strlcpy-entera : (src : List ℕ) (size : ℕ) → length src ≤ size → strlcpy src (suc size) ≡ some src
unfolding strlcpy
strlcpy-entera src size h = ap some (take-todo src size h)
