-- ===== src/UserLib/Sharing/Pages.antt =====
-- Which pages a child is to share, and how, read off the page tables bit by bit.
use Prim.Native.Nat.{bit_and, bit_or}
use features_operating_syste.Prelude.{
  ℕ, zero, suc, ◌+◌, ◌*◌, ◌/◌, ◌≡◌, ◌≢◌, ◌⊎◌, refl, true, false, List, [], ◌∷◌, ◌++◌, ◌==◌,
  if◌then◌else◌, arith, Bool-cases, ==→eq, inl, inr,
}
use features_operating_syste.UserLib.Fork.{Vista, pte_cow, pte_io, permisos, escribible, saltada}

-- A call that succeeded.
pub data Llamada : Type 0 where
  pagina_nueva : ℕ → ℕ → ℕ → Llamada
  pagina_en : ℕ → ℕ → ℕ → ℕ → ℕ → Llamada
  pagina_fuera : ℕ → ℕ → Llamada
  con_upcall : ℕ → ℕ → Llamada

-- An entry is for user mode: PTE_P is 1 and PTE_U is 4.
abbrev pub DeUsuario : ℕ → Type 0
DeUsuario w = (bit_and w 1 ≢ 0) × (bit_and w 4 ≢ 0)

abbrev pub NoDeUsuario : ℕ → Type 0
NoDeUsuario w = (bit_and w 1 ≡ 0) ⊎ (bit_and w 4 ≡ 0)

-- The permission is `sin`, or `con` where PTE_PCD or PTE_PWT (0x18) is set.
abbrev pub ConIo : ℕ → ℕ → ℕ → ℕ → Type 0
ConIo w sin con perm = ((bit_and w 0x18 ≡ 0) × (perm ≡ sin)) ⊎ ((bit_and w 0x18 ≢ 0) × (perm ≡ con))

-- The calls for page `pn`. Nothing is shared of the exception stack (page 0xeebff), or where the
-- directory or the table has no entry for user mode. A page that can be written (PTE_W, 2) or is to be
-- copied on a write already (PTE_COW, 0x800) gets PTE_P | PTE_U | PTE_COW, first in the child and then
-- in the parent. Any other gets PTE_P | PTE_U in the child.
pub data Compartir (v : Vista) (envid pn : ℕ) : List Llamada → Type 0 where
  pila : pn ≡ 0xeebff → Compartir v envid pn []
  sin_tabla : NoDeUsuario (v.uvpd (pn / 1024)) → Compartir v envid pn []
  sin_pagina : NoDeUsuario (v.uvpt pn) → Compartir v envid pn []
  al_escribir :
      (perm : ℕ)
      → pn ≢ 0xeebff
      → DeUsuario (v.uvpd (pn / 1024))
      → DeUsuario (v.uvpt pn)
      → (bit_and (v.uvpt pn) 2 ≢ 0) ⊎ (bit_and (v.uvpt pn) 0x800 ≢ 0)
      → ConIo (v.uvpt pn) 0x805 0x81d perm
      → Compartir v envid pn (
          Llamada.pagina_en 0 (pn * 4096) envid (pn * 4096) perm
          ∷ Llamada.pagina_en 0 (pn * 4096) 0 (pn * 4096) perm
          ∷ [])
  de_lectura :
      (perm : ℕ)
      → pn ≢ 0xeebff
      → DeUsuario (v.uvpd (pn / 1024))
      → DeUsuario (v.uvpt pn)
      → bit_and (v.uvpt pn) 2 ≡ 0
      → bit_and (v.uvpt pn) 0x800 ≡ 0
      → ConIo (v.uvpt pn) 5 0x1d perm
      → Compartir v envid pn (Llamada.pagina_en 0 (pn * 4096) envid (pn * 4096) perm ∷ [])

-- The calls for `n` pages from `pn` on, in their order.
pub data Compartidas (v : Vista) (envid : ℕ) : ℕ → ℕ → List Llamada → Type 0 where
  ninguna : (pn : ℕ) → Compartidas v envid pn 0 []
  pagina :
      {n : ℕ} {l resto : List Llamada} (pn : ℕ)
      → Compartir v envid pn l
      → Compartidas v envid (pn + 1) n resto
      → Compartidas v envid pn (suc n) (l ++ resto)

-- The calls that `duppage` makes for a page.
abbrev pub compartida : Vista → ℕ → ℕ → List Llamada
compartida v envid pn =
    let addr = pn * 4096 in
    let perm = permisos (v.uvpt pn) in
    if escribible (v.uvpt pn)
    then Llamada.pagina_en 0 addr envid addr (bit_or perm pte_cow)
      ∷ Llamada.pagina_en 0 addr 0 addr (bit_or perm pte_cow)
      ∷ []
    else Llamada.pagina_en 0 addr envid addr perm ∷ []

-- The calls of the loop of `fork`.
unfoldable pub compartidas : Vista → ℕ → ℕ → ℕ → List Llamada
compartidas v envid pn zero = []
compartidas v envid pn (suc n) =
    let resto = compartidas v envid (pn + 1) n in
    if saltada v pn then resto else compartida v envid pn ++ resto

no_cero : (n : ℕ) → (n == 0) ≡ false → n ≢ 0
no_cero n h = ground arith

otra_pagina : (n : ℕ) → (n == 0xeebff) ≡ false → n ≢ 0xeebff
otra_pagina n h = ground arith

module _ (v : Vista) (envid pn : ℕ) (no_pila : pn ≢ 0xeebff)
    (tabla : DeUsuario (v.uvpd (pn / 1024))) (pagina : DeUsuario (v.uvpt pn)) where
  copia :
      (escribible (v.uvpt pn) ≡ true)
      → (bit_and (v.uvpt pn) 2 ≢ 0) ⊎ (bit_and (v.uvpt pn) 0x800 ≢ 0)
      → Compartir v envid pn (compartida v envid pn)
  copia e puede = elim (Bool-cases (bit_and (v.uvpt pn) pte_io == 0)) [
    | inl f ↦
        rw (e, f) (Compartir.al_escribir 0x805 no_pila tabla pagina puede (inl (==→eq _ _ f, refl)))
    | inr f ↦
        rw (e, f) (Compartir.al_escribir 0x81d no_pila tabla pagina puede (inr (no_cero _ f, refl)))
  ]

  compartida-Compartir : Compartir v envid pn (compartida v envid pn)
  compartida-Compartir = elim (Bool-cases (bit_and (v.uvpt pn) 2 == 0)) [
    | inr w ↦ copia (rw w refl) (inl (no_cero _ w))
    | inl w ↦ elim (Bool-cases (bit_and (v.uvpt pn) pte_cow == 0)) [
      | inr c ↦ copia (rw (w, c) refl) (inr (no_cero _ c))
      | inl c ↦
          let no : escribible (v.uvpt pn) ≡ false = rw (w, c) refl in
          elim (Bool-cases (bit_and (v.uvpt pn) pte_io == 0)) [
            | inl f ↦
                rw (no, f)
                  (Compartir.de_lectura 5 no_pila tabla pagina (==→eq _ _ w) (==→eq _ _ c)
                    (inl (==→eq _ _ f, refl)))
            | inr f ↦
                rw (no, f)
                  (Compartir.de_lectura 0x1d no_pila tabla pagina (==→eq _ _ w) (==→eq _ _ c)
                    (inr (no_cero _ f, refl)))
          ]
    ]
  ]

-- The test of the loop of `fork`, bit by bit.
data Prueba (v : Vista) (pn : ℕ) : Type 0 where
  salta : saltada v pn ≡ true → ((envid : ℕ) → Compartir v envid pn []) → Prueba v pn
  sigue :
      saltada v pn ≡ false
      → pn ≢ 0xeebff
      → DeUsuario (v.uvpd (pn / 1024))
      → DeUsuario (v.uvpt pn)
      → Prueba v pn

saltada-Prueba : (v : Vista) (pn : ℕ) → Prueba v pn
saltada-Prueba v pn = elim (Bool-cases (pn == 0xeebff)) [
  | inl p ↦ Prueba.salta (rw p refl) (λ envid. Compartir.pila (==→eq _ _ p))
  | inr p ↦ elim (Bool-cases (bit_and (v.uvpd (pn / 1024)) 1 == 0)) [
    | inl d ↦ Prueba.salta (rw (p, d) refl) (λ envid. Compartir.sin_tabla (inl (==→eq _ _ d)))
    | inr d ↦ elim (Bool-cases (bit_and (v.uvpd (pn / 1024)) 4 == 0)) [
      | inl u ↦ Prueba.salta (rw (p, d, u) refl) (λ envid. Compartir.sin_tabla (inr (==→eq _ _ u)))
      | inr u ↦ elim (Bool-cases (bit_and (v.uvpt pn) 1 == 0)) [
        | inl t ↦
            Prueba.salta (rw (p, d, u, t) refl) (λ envid. Compartir.sin_pagina (inl (==→eq _ _ t)))
        | inr t ↦ elim (Bool-cases (bit_and (v.uvpt pn) 4 == 0)) [
          | inl w ↦
              Prueba.salta (rw (p, d, u, t, w) refl)
                (λ envid. Compartir.sin_pagina (inr (==→eq _ _ w)))
          | inr w ↦
              Prueba.sigue (rw (p, d, u, t, w) refl) (otra_pagina pn p) (no_cero _ d, no_cero _ u)
                (no_cero _ t, no_cero _ w)
        ]
      ]
    ]
  ]
]

pub compartidas-Compartidas :
    (v : Vista) (envid pn n : ℕ) → Compartidas v envid pn n (compartidas v envid pn n)
unfolding compartidas
compartidas-Compartidas v envid pn zero = Compartidas.ninguna pn
compartidas-Compartidas v envid pn (suc n) =
    let resto = compartidas-Compartidas v envid (pn + 1) n in
    elim (saltada-Prueba v pn) [
      | Prueba.salta e s ↦ rw e (Compartidas.pagina pn (s envid) resto)
      | Prueba.sigue e p d t ↦
          rw e (Compartidas.pagina pn (compartida-Compartir v envid pn p d t) resto)
    ]
