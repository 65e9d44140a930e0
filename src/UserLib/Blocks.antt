-- ===== src/UserLib/Blocks.antt =====
-- The functions of scheduler/lib/string.c on blocks of memory.
pub mod Overlap
use features_operating_syste.Prelude.{
  ℕ, zero, suc, ◌+◌, ◌*◌, ◌-◌, ◌/◌, ◌%◌, Bool, true, false, ◌&&◌, ltb, leb, ◌==◌, if◌then◌else◌, ℤ,
  pos, negsuc,
}

-- The bytes by address. (A block does not wrap round the address space.)
abbrev pub Bytes : Type 0
Bytes = ℕ → ℕ

abbrev pub en_rango : ℕ → ℕ → ℕ → Bool
en_rango d n a = leb d a && ltb a (d + n)

-- `stosb` and `stosl`, and `movsb` and `movsl`: one step of `w` bytes, which are read before they are
-- written.
abbrev pub stos : ℕ → Bytes → ℕ → ℕ → Bytes
stos w m d c a = if en_rango d w a then c else m a

abbrev pub movs : ℕ → Bytes → ℕ → ℕ → Bytes
movs w m d s a = if en_rango d w a then m (s + (a - d)) else m a

-- `rep` with `cld`: the addresses go up.
unfoldable pub rep_stos : ℕ → ℕ → Bytes → ℕ → ℕ → Bytes
rep_stos w zero m d c = m
rep_stos w (suc n) m d c = rep_stos w n (stos w m d c) (d + w) c

unfoldable pub rep_movs : ℕ → ℕ → Bytes → ℕ → ℕ → Bytes
rep_movs w zero m d s = m
rep_movs w (suc n) m d s = rep_movs w n (movs w m d s) (d + w) (s + w)

-- `rep` with `std`, from the last of `n` steps down; `d` and `s` are the first addresses.
unfoldable pub rep_movs_abajo : ℕ → ℕ → Bytes → ℕ → ℕ → Bytes
rep_movs_abajo w zero m d s = m
rep_movs_abajo w (suc n) m d s = rep_movs_abajo w n (movs w m (d + n * w) (s + n * w)) d s

-- A word of the byte `c & 0xFF` holds this byte four times.
unfoldable pub memset : Bytes → ℕ → ℕ → ℕ → Bytes
unfolding rep_stos
memset m v c n =
    if n == 0
    then m
    else if (v % 4 == 0) && (n % 4 == 0)
    then rep_stos 4 (n / 4) m v (c % 256)
    else rep_stos 1 n m v (c % 256)

-- `(int) s % 4 == 0 && (int) d % 4 == 0 && n % 4 == 0`
abbrev pub alineados : ℕ → ℕ → ℕ → Bool
alineados s d n = (s % 4 == 0) && (d % 4 == 0) && (n % 4 == 0)

-- The destination is inside the source, behind its start.
abbrev pub solapa : ℕ → ℕ → ℕ → Bool
solapa d s n = ltb s d && ltb d (s + n)

unfoldable pub memmove : Bytes → ℕ → ℕ → ℕ → Bytes
unfolding rep_movs rep_movs_abajo
memmove m d s n =
    if solapa d s n
    then (if alineados (s + n) (d + n) n
        then rep_movs_abajo 4 (n / 4) m d s
        else rep_movs_abajo 1 n m d s)
    else (if alineados s d n then rep_movs 4 (n / 4) m d s else rep_movs 1 n m d s)

unfoldable pub memcpy : Bytes → ℕ → ℕ → ℕ → Bytes
unfolding memmove
memcpy m d s n = memmove m d s n

-- The difference of two bytes.
abbrev pub resta : ℕ → ℕ → ℤ
resta a b = if leb b a then pos (a - b) else negsuc (b - a - 1)

unfoldable pub memcmp : Bytes → ℕ → ℕ → ℕ → ℤ
memcmp m v1 v2 zero = pos 0
memcmp m v1 v2 (suc n) =
    let resto = memcmp m (v1 + 1) (v2 + 1) n in if m v1 == m v2 then resto else resta (m v1) (m v2)

unfoldable pub memfind : Bytes → ℕ → ℕ → ℕ → ℕ
memfind m s c zero = s
memfind m s c (suc n) = let resto = memfind m (s + 1) c n in if m s == c % 256 then s else resto
