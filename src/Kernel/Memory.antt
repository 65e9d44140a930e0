-- ===== src/Kernel/Memory.antt =====
-- The page functions of scheduler/kern/pmap.c that environments need. A `struct PageInfo *` is the
-- number of its page, and a kernel virtual address of a whole page is the number of that page. A
-- pointer to a table entry is the page of the table with the index in it.
use Prim.Native.Nat.{bit_or}
use features_operating_syste.Prelude.{
  ℕ, ◌+◌, ◌*◌, ◌/◌, ◌%◌, ◌^◌, Bool, true, false, ◌&&◌, Option, none, some, ltb, ◌==◌, if◌then◌else◌,
  update, ℤ, pos,
}
use features_operating_syste.Kernel.Types.{PageInfo, Memory, e_no_mem}

-- A function of pmap.c: `none` is a panic, or a NULL pointer read.
abbrev pub M : Type 0 → Type 0
M A = Memory → Option (A × Memory)

infixl 5 ◌>>=◌ ◌>>◌
abbrev pub ◌>>=◌ : {A B : Type 0} → M A → (A → M B) → M B
◌>>=◌ m f s = elim (m s) [ none ↦ none | some (a, s') ↦ f a s' ]

abbrev pub ◌>>◌ : {A B : Type 0} → M A → M B → M B
m >> k = m >>= λ _. k

abbrev pub pure : {A : Type 0} → A → M A
pure a s = some (a, s)

abbrev pub panic : {A : Type 0} → M A
panic s = none

-- PGNUM(pa), which `KADDR` and `pa2page` check against `npages`.
unfoldable pub pa2page : ℕ → M ℕ
pa2page pa s = let p = pa / 4096 in if ltb p s.npages then some (p, s) else none

-- `page2pa`
abbrev pub page2pa : ℕ → ℕ
page2pa p = p * 4096 % 2 ^ 32

abbrev pub con_pagina : Memory → ℕ → PageInfo → Memory
con_pagina s p i = record s { pages = update s.pages p i }

-- A word of physical memory.
abbrev pub leer_palabra : ℕ → ℕ → M ℕ
leer_palabra p i s = some (s.phys p i, s)

abbrev pub escribir_palabra : ℕ → ℕ → ℕ → M (Unit {0})
escribir_palabra p i w s = some (tt, record s { phys = update s.phys p (update (s.phys p) i w) })

-- `page2kva` panics for a page that is out of range, before `memset` clears it.
unfoldable pub page_alloc : Bool → M (Option ℕ)
page_alloc alloc_zero s = elim s.page_free_list [
  | none ↦ some (none, s)
  | some p ↦
      let i = s.pages p in
      let s1 = con_pagina s p (record i { pp_link = none }) in
      let s2 = record s1 { page_free_list = i.pp_link } in
      if alloc_zero
      then if ltb p s.npages
        then some (some p, record s2 { phys = update s2.phys p (λ _. 0) })
        else none
      else some (some p, s2)
]

abbrev es_null : Option ℕ → Bool
es_null none = true
es_null (some _) = false

unfoldable pub page_free : ℕ → M (Unit {0})
page_free p s =
    let i = s.pages p in
    let s1 = con_pagina s p (record i { pp_link = s.page_free_list }) in
    if (i.pp_ref == 0) && es_null i.pp_link
    then some (tt, record s1 { page_free_list = some p })
    else none

-- `pp_ref` is 16 bits wide.
unfoldable pub page_decref : ℕ → M (Unit {0})
unfolding page_free
page_decref p s =
    let i = s.pages p in
    let r = (i.pp_ref + 65535) % 65536 in
    let s1 = con_pagina s p (record i { pp_ref = r }) in
    if r == 0 then page_free p s1 else some (tt, s1)

abbrev pub incref : ℕ → M (Unit {0})
incref p s =
    let i = s.pages p in some (tt, con_pagina s p (record i { pp_ref = (i.pp_ref + 1) % 65536 }))

-- PDX(va) and PTX(va)
abbrev pub pdx : ℕ → ℕ
pdx va = va / 2 ^ 22 % 1024

abbrev pub ptx : ℕ → ℕ
ptx va = va / 2 ^ 12 % 1024

-- The entry is made of a page address and three bits below it.
unfoldable pub crear_tabla : ℕ → ℕ → M (Unit {0})
unfolding page_alloc
crear_tabla pgdir i = do
  page ← page_alloc true
  elim page [ none ↦ pure tt | some p ↦ incref p >> escribir_palabra pgdir i (page2pa p + 7) ]

unfoldable pub pgdir_walk : ℕ → ℕ → Bool → M (Option (ℕ × ℕ))
unfolding crear_tabla pa2page
pgdir_walk pgdir va create = do
  vacia ← leer_palabra pgdir (pdx va)
  if (vacia == 0) && create then crear_tabla pgdir (pdx va) else pure tt
  pde ← leer_palabra pgdir (pdx va)
  if pde == 0 then pure none else do tabla ← pa2page pde; pure (some (tabla, ptx va))

-- The test is `*pte && PTE_P`: any entry but 0 passes it.
unfoldable pub page_lookup : ℕ → ℕ → M (Option ℕ)
unfolding pgdir_walk pa2page
page_lookup pgdir va = do
  pte ← pgdir_walk pgdir va false
  elim pte [
    | none ↦ pure none
    | some (t, i) ↦ do
      w ← leer_palabra t i
      if w == 0 then pure none else do p ← pa2page w; pure (some p)
  ]

-- `page_decref` of the page that `page_lookup` gave; NULL would be read at address 0.
unfoldable pub soltar : Option ℕ → M (Unit {0})
unfolding page_decref
soltar none = panic
soltar (some p) = page_decref p

unfoldable pub page_remove : ℕ → ℕ → M (Unit {0})
unfolding pgdir_walk page_lookup soltar
page_remove pgdir va = do
  pte ← pgdir_walk pgdir va false
  page_rmv ← page_lookup pgdir va
  elim pte [
    | none ↦ pure tt
    | some (t, i) ↦ do
      w ← leer_palabra t i
      if w == 0 then pure tt else do soltar page_rmv; escribir_palabra t i 0
  ]

unfoldable pub page_insert : ℕ → ℕ → ℕ → ℕ → M ℤ
unfolding pgdir_walk page_remove
page_insert pgdir pp va perm = do
  page_table ← pgdir_walk pgdir va true
  elim page_table [
    | none ↦ pure e_no_mem
    | some (t, i) ↦ do
      incref pp
      page_remove pgdir va
      escribir_palabra t i (bit_or (bit_or (page2pa pp) perm) 1)
      pure (pos 0)
  ]
