-- ===== src/Shell/Text.antt =====
-- The string functions of shell/utils.c.
use features_operating_syste.Prelude.{
  ℕ, suc, Option, none, some, List, [], ◌∷◌, ◌==◌, if◌then◌else◌,
}

-- `while (buf[i] == SPACE) i++`
abbrev pub sin_espacios : List ℕ → List ℕ
sin_espacios [] = []
sin_espacios (x ∷ s) = if x == b' ' then sin_espacios s else x ∷ s

-- The text before the splitter, which is cut there, and the text behind it and its spaces. With no
-- splitter the second text is what stands behind the NUL: an empty string, since `read_line` clears
-- the buffer (for a line of less than BUFLEN - 1 bytes).
unfoldable pub split_line : List ℕ → ℕ → List ℕ × List ℕ
split_line [] splitter = ([], [])
split_line (x ∷ s) splitter =
    let (l, r) = split_line s splitter in if x == splitter then ([], sin_espacios s) else (x ∷ l, r)

-- `none` is -1.
unfoldable pub block_contains : List ℕ → ℕ → Option ℕ
block_contains [] c = none
block_contains (x ∷ s) c =
    let resto = block_contains s c in
    if x == c then some 0 else elim resto [ none ↦ none | some i ↦ some (suc i) ]
