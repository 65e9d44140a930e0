-- ===== src/UserLib/Sharing.antt =====
-- What `fork` of scheduler/lib/fork.c has shared when the child can run.
pub mod Pages
pub mod Result
use Prim.Native.Nat.{bit_and, bit_or}
use features_operating_syste.Prelude.{
  ℕ, zero, suc, Option, none, some, ◌%◌, ◌^◌, ◌<◌, ◌+◌, ◌*◌, ◌/◌, ◌≡◌, refl, sym, ◌∙◌, subst,
  append_assoc, append-nil, false, List, [], ◌∷◌, ◌++◌, ◌==◌, if◌then◌else◌, ℤ, pos, negsuc, ltb_ℤ,
  eqb_ℤ, arith, Bool-cases, inl, inr,
}
use features_operating_syste.Kernel.Pages.{utop}
use features_operating_syste.Kernel.Dispatch.{como_palabra}
use features_operating_syste.UserLib.Calls.{Usuario}
use features_operating_syste.UserLib.Sharing.Pages.{
  Llamada, Compartidas, compartida, compartidas, compartidas-Compartidas,
}
use features_operating_syste.UserLib.Fork.{
  Vista, pte_cow, pte_io, exstk, sin_usuario, o_panic, permisos, escribible, duppage, tras_exofork,
  set_pgfault_handler, saltada, fork_desde, terminar, fork,
}

-- At every call that sets the status of an environment, `Q` holds of the environment, the status and
-- the calls that succeeded before: for all answers of the kernel. (A stub gives 0 or a negative
-- number, but for an identifier.)
unfoldable pub AlActivar :
    {A : Type 0} → (ℕ → ℕ → List Llamada → Type 0) → List Llamada → Usuario A → Type 0
AlActivar Q l (Usuario.devuelve a) = Unit {0}
AlActivar Q l (Usuario.sys_exofork k) = (r : ℤ) → AlActivar Q l (k r)
AlActivar Q l (Usuario.sys_getenvid k) = (r : ℤ) → AlActivar Q l (k r)
AlActivar Q l (Usuario.sys_page_alloc id va perm k) =
    ((e : ℕ) → AlActivar Q l (k (negsuc e)))
    × AlActivar Q (l ++ (Llamada.pagina_nueva id va perm ∷ [])) (k (pos 0))
AlActivar Q l (Usuario.sys_page_map id va id' va' perm k) =
    ((e : ℕ) → AlActivar Q l (k (negsuc e)))
    × AlActivar Q (l ++ (Llamada.pagina_en id va id' va' perm ∷ [])) (k (pos 0))
AlActivar Q l (Usuario.sys_page_unmap id va k) =
    ((e : ℕ) → AlActivar Q l (k (negsuc e)))
    × AlActivar Q (l ++ (Llamada.pagina_fuera id va ∷ [])) (k (pos 0))
AlActivar Q l (Usuario.sys_env_set_pgfault_upcall id f k) =
    ((e : ℕ) → AlActivar Q l (k (negsuc e)))
    × AlActivar Q (l ++ (Llamada.con_upcall id f ∷ [])) (k (pos 0))
AlActivar Q l (Usuario.sys_env_set_status id s k) = Q id s l × ((r : ℤ) → AlActivar Q l (k r))
AlActivar Q l (Usuario.memmove a b n k) = AlActivar Q l k
AlActivar Q l Usuario.panic = Unit {0}

-- No sharing call gives the permission to write.
abbrev pub SinEscritura : List Llamada → Type 0
SinEscritura [] = Unit {0}
SinEscritura (Llamada.pagina_en id va id' va' perm ∷ l) = (bit_and perm 2 ≡ 0) × SinEscritura l
SinEscritura (Llamada.pagina_nueva id va perm ∷ l) = SinEscritura l
SinEscritura (Llamada.pagina_fuera id va ∷ l) = SinEscritura l
SinEscritura (Llamada.con_upcall id f ∷ l) = SinEscritura l

compartida-SinEscritura :
    (v : Vista) (envid pn : ℕ) (l : List Llamada)
    → SinEscritura l
    → SinEscritura (compartida v envid pn ++ l)
compartida-SinEscritura v envid pn l s = elim (Bool-cases (escribible (v.uvpt pn))) [
  | inl e ↦ elim (Bool-cases (bit_and (v.uvpt pn) pte_io == 0)) [
    | inl f ↦ rw (e, f) (refl, (refl, s))
    | inr f ↦ rw (e, f) (refl, (refl, s))
  ]
  | inr e ↦ elim (Bool-cases (bit_and (v.uvpt pn) pte_io == 0)) [
    | inl f ↦ rw (e, f) (refl, s)
    | inr f ↦ rw (e, f) (refl, s)
  ]
]

compartidas-SinEscritura : (v : Vista) (envid pn n : ℕ) → SinEscritura (compartidas v envid pn n)
unfolding compartidas
compartidas-SinEscritura v envid pn zero = tt
compartidas-SinEscritura v envid pn (suc n) =
    let resto = compartidas-SinEscritura v envid (pn + 1) n in
    elim (Bool-cases (saltada v pn)) [
      | inl e ↦ rw e resto
      | inr e ↦ rw e (compartida-SinEscritura v envid pn (compartidas v envid (pn + 1) n) resto)
    ]

duppage-AlActivar :
    {A : Type 0} (Q : ℕ → ℕ → List Llamada → Type 0) (v : Vista) (envid pn : ℕ) (l : List Llamada)
    (k : Usuario A)
    → sin_usuario (v.uvpt pn) ≡ false
    → AlActivar Q (l ++ compartida v envid pn) k
    → AlActivar Q l (duppage v envid pn k)
unfolding duppage AlActivar
duppage-AlActivar Q v envid pn l k u h = elim (Bool-cases (escribible (v.uvpt pn))) [
  | inl e ↦
      let h' = rw e at h in
      rw (u, e) ((λ z. tt), ((λ z. tt), subst (λ x. AlActivar Q x k) (sym (append_assoc l _ _)) h'))
  | inr e ↦ let h' = rw e at h in rw (u, e) ((λ z. tt), h')
]

pub presente : (v : Vista) (pn : ℕ) → saltada v pn ≡ false → sin_usuario (v.uvpt pn) ≡ false
presente v pn e = ground arith

fork_desde-AlActivar :
    {A : Type 0} (Q : ℕ → ℕ → List Llamada → Type 0) (v : Vista) (envid pn n : ℕ) (l : List Llamada)
    (k : Usuario A)
    → AlActivar Q (l ++ compartidas v envid pn n) k
    → AlActivar Q l (fork_desde v envid pn n k)
unfolding fork_desde compartidas
fork_desde-AlActivar Q v envid pn zero l k h = subst (λ x. AlActivar Q x k) (append-nil l) h
fork_desde-AlActivar Q v envid pn (suc n) l k h =
    let resto = fork_desde v envid (pn + 1) n k in
    elim (Bool-cases (saltada v pn)) [
      | inl e ↦ let h' = rw e at h in rw e (fork_desde-AlActivar Q v envid (pn + 1) n l k h')
      | inr e ↦
          let h' = rw e at h in
          rw e (
            duppage-AlActivar Q v envid pn l resto (presente v pn e) (
              fork_desde-AlActivar Q v envid (pn + 1) n (l ++ compartida v envid pn) k
                (subst (λ x. AlActivar Q x k) (sym (append_assoc l (compartida v envid pn) _)) h')))
    ]

-- What was done for the child when it is made runnable: the sharing of the parent's pages below UTOP
-- (page 0xeec00), its own
-- exception stack, and its entry point for faults, in this order and behind what the parent did for
-- itself.
pub record Completo (v : Vista) (envid s : ℕ) (l : List Llamada) : Type 0 where
  pub ejecutable : s ≡ 2
  pub antes : List Llamada
  pub paginas : List Llamada
  pub compartidas : Compartidas v envid 0 0xeec00 paginas
  pub sin_escritura : SinEscritura paginas
  pub hecho :
      l
      ≡ antes
        ++ (paginas
            ++ (Llamada.pagina_nueva envid 0xeebff000 7
                ∷ Llamada.con_upcall envid v.env_pgfault_upcall
                ∷ []))

terminar-AlActivar :
    (Q : ℕ → ℕ → List Llamada → Type 0) (v : Vista) (envid : ℕ) (l : List Llamada)
    → Q envid 2 (
        (l ++ (Llamada.pagina_nueva envid exstk 7 ∷ []))
        ++ (Llamada.con_upcall envid v.env_pgfault_upcall ∷ []))
    → AlActivar Q l (terminar v envid)
unfolding AlActivar
terminar-AlActivar Q v envid l h = ((λ z. tt), ((λ z. tt), (h, λ r. final r)))
  where
    final :
        (r : ℤ)
        → AlActivar Q
            ((l ++ (Llamada.pagina_nueva envid exstk 7 ∷ []))
              ++ (Llamada.con_upcall envid v.env_pgfault_upcall ∷ []))
            (o_panic (Usuario.devuelve (pos envid)) r)
    final r = elim (Bool-cases (ltb_ℤ r (pos 0))) [ inl e ↦ rw e tt | inr e ↦ rw e tt ]

padre-AlActivar :
    (v : Vista) (l : List Llamada) (envid : ℕ)
    → AlActivar (Completo v) l (fork_desde v envid 0 (utop / 4096) (terminar v envid))
padre-AlActivar v l envid =
    let C = compartidas v envid 0 (utop / 4096) in
    let nueva = Llamada.pagina_nueva envid exstk 7 in
    let upcall = Llamada.con_upcall envid v.env_pgfault_upcall in
    fork_desde-AlActivar (Completo v) v envid 0 (utop / 4096) l (terminar v envid) (
      terminar-AlActivar (Completo v) v envid (l ++ C) (record {
        ejecutable = refl;
        antes = l;
        paginas = C;
        compartidas = compartidas-Compartidas v envid 0 (utop / 4096);
        hecho =
            append_assoc (l ++ C) (nueva ∷ []) (upcall ∷ [])
            ∙ append_assoc l C (nueva ∷ upcall ∷ []);
        sin_escritura = compartidas-SinEscritura v envid 0 (utop / 4096);
      }))

pub tras_exofork-AlActivar :
    (v : Vista) (l : List Llamada) (r : ℤ)
    → AlActivar
        (Completo v)
        l
        (tras_exofork (λ envid. fork_desde v envid 0 (utop / 4096) (terminar v envid)) r)
unfolding AlActivar
tras_exofork-AlActivar v l r = elim (Bool-cases (ltb_ℤ r (pos 0))) [
  | inl e ↦ rw e tt
  | inr e ↦ elim (Bool-cases (eqb_ℤ r (pos 0))) [
    | inl f ↦ rw (e, f) (λ id. tt)
    | inr f ↦ rw (e, f) (padre-AlActivar v l (como_palabra r))
  ]
]

pub set_pgfault_handler-AlActivar :
    {A : Type 0} (Q : ℕ → ℕ → List Llamada → Type 0) (v : Vista) (k : Usuario A)
    → ((l : List Llamada) → AlActivar Q l k)
    → AlActivar Q [] (set_pgfault_handler v k)
unfolding set_pgfault_handler AlActivar
set_pgfault_handler-AlActivar Q v k h = elim (Bool-cases v.con_handler) [
  | inl e ↦ rw e (h [])
  | inr e ↦ rw e ((λ z. h []), ((λ z. h _), h _))
]
