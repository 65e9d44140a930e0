-- ===== src/Kernel/Console/Keyboard/Maps.antt =====
-- The tables of scan codes of scheduler/kern/console.c. A code that a table does not name gives NO, 0.
use features_operating_syste.Prelude.{
  ℕ, zero, suc, ◌+◌, ◌-◌, ◌%◌, List, [], ◌∷◌, ◌++◌, ltb, ◌==◌, if◌then◌else◌,
}

-- KEY_HOME
abbrev pub key_home : ℕ
key_home = 0xE0

-- KEY_END
abbrev pub key_end : ℕ
key_end = 0xE1

-- KEY_UP
abbrev pub key_up : ℕ
key_up = 0xE2

-- KEY_DN
abbrev pub key_dn : ℕ
key_dn = 0xE3

-- KEY_LF
abbrev pub key_lf : ℕ
key_lf = 0xE4

-- KEY_RT
abbrev pub key_rt : ℕ
key_rt = 0xE5

-- KEY_PGUP
abbrev pub key_pgup : ℕ
key_pgup = 0xE6

-- KEY_PGDN
abbrev pub key_pgdn : ℕ
key_pgdn = 0xE7

-- KEY_INS
abbrev pub key_ins : ℕ
key_ins = 0xE8

-- KEY_DEL
abbrev pub key_del : ℕ
key_del = 0xE9

-- `C(x)`, as a byte
abbrev pub ctrl : ℕ → ℕ
ctrl x = (x + 256 - b'@') % 256

-- The entries that stand in order, and those with an index of their own.
abbrev pub en_orden : List ℕ → ℕ → ℕ
en_orden [] d = 0
en_orden (x ∷ l) zero = x
en_orden (x ∷ l) (suc d) = en_orden l d

abbrev pub en_indice : List (ℕ × ℕ) → ℕ → ℕ
en_indice [] d = 0
en_indice ((i, x) ∷ l) d = if d == i then x else en_indice l d

abbrev pub normal_en_orden : List ℕ
normal_en_orden =
    (0 ∷ 0x1B ∷ b'1' ∷ b'2' ∷ b'3' ∷ b'4' ∷ b'5' ∷ b'6' ∷ [])
    ++ (b'7' ∷ b'8' ∷ b'9' ∷ b'0' ∷ b'-' ∷ b'=' ∷ 8 ∷ 9 ∷ [])
    ++ (b'q' ∷ b'w' ∷ b'e' ∷ b'r' ∷ b't' ∷ b'y' ∷ b'u' ∷ b'i' ∷ [])
    ++ (b'o' ∷ b'p' ∷ b'[' ∷ b']' ∷ b'\n' ∷ 0 ∷ b'a' ∷ b's' ∷ [])
    ++ (b'd' ∷ b'f' ∷ b'g' ∷ b'h' ∷ b'j' ∷ b'k' ∷ b'l' ∷ b';' ∷ [])
    ++ (39 ∷ b'`' ∷ 0 ∷ 92 ∷ b'z' ∷ b'x' ∷ b'c' ∷ b'v' ∷ [])
    ++ (b'b' ∷ b'n' ∷ b'm' ∷ b',' ∷ b'.' ∷ b'/' ∷ 0 ∷ b'*' ∷ [])
    ++ (0 ∷ b' ' ∷ 0 ∷ 0 ∷ 0 ∷ 0 ∷ 0 ∷ 0 ∷ [])
    ++ (0 ∷ 0 ∷ 0 ∷ 0 ∷ 0 ∷ 0 ∷ 0 ∷ b'7' ∷ [])
    ++ (b'8' ∷ b'9' ∷ b'-' ∷ b'4' ∷ b'5' ∷ b'6' ∷ b'+' ∷ b'1' ∷ [])
    ++ (b'2' ∷ b'3' ∷ b'0' ∷ b'.' ∷ 0 ∷ 0 ∷ 0 ∷ 0 ∷ [])

abbrev pub normal_en_indice : List (ℕ × ℕ)
normal_en_indice =
    (0xC7, key_home)
    ∷ (0x9C, b'\n')
    ∷ (0xB5, b'/')
    ∷ (0xC8, key_up)
    ∷ (0xC9, key_pgup)
    ∷ (0xCB, key_lf)
    ∷ (0xCD, key_rt)
    ∷ (0xCF, key_end)
    ∷ (0xD0, key_dn)
    ∷ (0xD1, key_pgdn)
    ∷ (0xD2, key_ins)
    ∷ (0xD3, key_del)
    ∷ []

unfoldable pub normalmap : ℕ → ℕ
normalmap d = if ltb d 88 then en_orden normal_en_orden d else en_indice normal_en_indice d

abbrev pub shift_en_orden : List ℕ
shift_en_orden =
    (0 ∷ 0x1B ∷ b'!' ∷ b'@' ∷ b'#' ∷ b'$' ∷ b'%' ∷ b'^' ∷ [])
    ++ (b'&' ∷ b'*' ∷ b'(' ∷ b')' ∷ b'_' ∷ b'+' ∷ 8 ∷ 9 ∷ [])
    ++ (b'Q' ∷ b'W' ∷ b'E' ∷ b'R' ∷ b'T' ∷ b'Y' ∷ b'U' ∷ b'I' ∷ [])
    ++ (b'O' ∷ b'P' ∷ b'{' ∷ b'}' ∷ b'\n' ∷ 0 ∷ b'A' ∷ b'S' ∷ [])
    ++ (b'D' ∷ b'F' ∷ b'G' ∷ b'H' ∷ b'J' ∷ b'K' ∷ b'L' ∷ b':' ∷ [])
    ++ (34 ∷ b'~' ∷ 0 ∷ b'|' ∷ b'Z' ∷ b'X' ∷ b'C' ∷ b'V' ∷ [])
    ++ (b'B' ∷ b'N' ∷ b'M' ∷ b'<' ∷ b'>' ∷ b'?' ∷ 0 ∷ b'*' ∷ [])
    ++ (0 ∷ b' ' ∷ 0 ∷ 0 ∷ 0 ∷ 0 ∷ 0 ∷ 0 ∷ [])
    ++ (0 ∷ 0 ∷ 0 ∷ 0 ∷ 0 ∷ 0 ∷ 0 ∷ b'7' ∷ [])
    ++ (b'8' ∷ b'9' ∷ b'-' ∷ b'4' ∷ b'5' ∷ b'6' ∷ b'+' ∷ b'1' ∷ [])
    ++ (b'2' ∷ b'3' ∷ b'0' ∷ b'.' ∷ 0 ∷ 0 ∷ 0 ∷ 0 ∷ [])

abbrev pub shift_en_indice : List (ℕ × ℕ)
shift_en_indice =
    (0xC7, key_home)
    ∷ (0x9C, b'\n')
    ∷ (0xB5, b'/')
    ∷ (0xC8, key_up)
    ∷ (0xC9, key_pgup)
    ∷ (0xCB, key_lf)
    ∷ (0xCD, key_rt)
    ∷ (0xCF, key_end)
    ∷ (0xD0, key_dn)
    ∷ (0xD1, key_pgdn)
    ∷ (0xD2, key_ins)
    ∷ (0xD3, key_del)
    ∷ []

unfoldable pub shiftmap : ℕ → ℕ
shiftmap d = if ltb d 88 then en_orden shift_en_orden d else en_indice shift_en_indice d

abbrev pub ctl_en_orden : List ℕ
ctl_en_orden =
    (0 ∷ 0 ∷ 0 ∷ 0 ∷ 0 ∷ 0 ∷ 0 ∷ 0 ∷ [])
    ++ (0 ∷ 0 ∷ 0 ∷ 0 ∷ 0 ∷ 0 ∷ 0 ∷ 0 ∷ [])
    ++ (ctrl b'Q'
        ∷ ctrl b'W'
        ∷ ctrl b'E'
        ∷ ctrl b'R'
        ∷ ctrl b'T'
        ∷ ctrl b'Y'
        ∷ ctrl b'U'
        ∷ ctrl b'I'
        ∷ [])
    ++ (ctrl b'O' ∷ ctrl b'P' ∷ 0 ∷ 0 ∷ 13 ∷ 0 ∷ ctrl b'A' ∷ ctrl b'S' ∷ [])
    ++ (ctrl b'D' ∷ ctrl b'F' ∷ ctrl b'G' ∷ ctrl b'H' ∷ ctrl b'J' ∷ ctrl b'K' ∷ ctrl b'L' ∷ 0 ∷ [])
    ++ (0 ∷ 0 ∷ 0 ∷ ctrl 92 ∷ ctrl b'Z' ∷ ctrl b'X' ∷ ctrl b'C' ∷ ctrl b'V' ∷ [])
    ++ (ctrl b'B' ∷ ctrl b'N' ∷ ctrl b'M' ∷ 0 ∷ 0 ∷ ctrl b'/' ∷ 0 ∷ 0 ∷ [])

abbrev pub ctl_en_indice : List (ℕ × ℕ)
ctl_en_indice =
    (0x97, key_home)
    ∷ (0xB5, ctrl b'/')
    ∷ (0xC8, key_up)
    ∷ (0xC9, key_pgup)
    ∷ (0xCB, key_lf)
    ∷ (0xCD, key_rt)
    ∷ (0xCF, key_end)
    ∷ (0xD0, key_dn)
    ∷ (0xD1, key_pgdn)
    ∷ (0xD2, key_ins)
    ∷ (0xD3, key_del)
    ∷ []

unfoldable pub ctlmap : ℕ → ℕ
ctlmap d = if ltb d 56 then en_orden ctl_en_orden d else en_indice ctl_en_indice d
