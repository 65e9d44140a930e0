-- ===== src/UserLib/Blocks/Overlap.antt =====
-- `memmove` of scheduler/lib/string.c on blocks that may overlap.
use features_operating_syste.Prelude.{
  ℕ, zero, suc, ◌+◌, ◌*◌, ◌-◌, ◌/◌, ◌%◌, ◌≤◌, ◌<◌, ◌≡◌, ◌⊎◌, inl, inr, refl, sym, ◌∙◌, ap, true,
  false, if◌then◌else◌, arith, Bool-cases,
}
use features_operating_syste.UserLib.Blocks.{
  Bytes, en_rango, movs, rep_movs, rep_movs_abajo, alineados, solapa, memmove,
}

-- A copy of `n` bytes as one step: every byte is read before any is written.
abbrev pub copia : Bytes → ℕ → ℕ → ℕ → Bytes
copia m d s n a = if en_rango d n a then m (s + (a - d)) else m a

rango_si : (d n a : ℕ) → d ≤ a → a < d + n → en_rango d n a ≡ true
rango_si d n a lo hi = ground arith

rango_no : (d n a : ℕ) → (a < d) ⊎ (d + n ≤ a) → en_rango d n a ≡ false
rango_no d n a (inl h) = ground arith
rango_no d n a (inr h) = ground arith

rango_cotas : (d n a : ℕ) → en_rango d n a ≡ true → (d ≤ a) × (a < d + n)
rango_cotas d n a e = (ground arith, ground arith)

fuera_cotas : (d n a : ℕ) → en_rango d n a ≡ false → (a < d) ⊎ (d + n ≤ a)
fuera_cotas d n a e = ground arith

-- The first step, and then the rest in one.
copia-movs :
    (w t : ℕ) (m : Bytes) (d s a : ℕ)
    → (d ≤ s) ⊎ (s + (t + w) ≤ d)
    → copia (movs w m d s) (d + w) (s + w) t a ≡ copia m d s (t + w) a
copia-movs w t m d s a h = elim (Bool-cases (en_rango (d + w) t a)) [
  | inl e ↦
      let (lo, hi) = rango_cotas (d + w) t a e in
      let todo : en_rango d (t + w) a ≡ true =
        rango_si d (t + w) a (omega (arith, lo)) (omega (arith, hi)) in
      let intacto : en_rango d w (s + w + (a - (d + w))) ≡ false =
        rango_no d w (s + w + (a - (d + w))) (no_pisa w t d s a lo hi h) in
      rw (e, todo, intacto) (ap m (omega (arith, lo)))
  | inr e ↦ elim (Bool-cases (en_rango d w a)) [
    | inl f ↦
        let (lo, hi) = rango_cotas d w a f in
        let todo : en_rango d (t + w) a ≡ true = rango_si d (t + w) a lo (omega (arith, hi)) in
        rw (e, f, todo) refl
    | inr f ↦
        let todo : en_rango d (t + w) a ≡ false =
          rango_no d (t + w) a (juntos w t d a (fuera_cotas (d + w) t a e) (fuera_cotas d w a f)) in
        rw (e, f, todo) refl
  ]
]
  where
    no_pisa :
        (w t d s a : ℕ)
        → d + w ≤ a
        → a < d + w + t
        → (d ≤ s) ⊎ (s + (t + w) ≤ d)
        → (s + w + (a - (d + w)) < d) ⊎ (d + w ≤ s + w + (a - (d + w)))
    no_pisa w t d s a lo hi (inl h) = inr (omega (arith, lo, h))
    no_pisa w t d s a lo hi (inr h) = inl (omega (arith, lo, hi, h))

    juntos :
        (w t d a : ℕ)
        → (a < d + w) ⊎ (d + w + t ≤ a)
        → (a < d) ⊎ (d + w ≤ a)
        → (a < d) ⊎ (d + (t + w) ≤ a)
    juntos w t d a h (inl k) = inl k
    juntos w t d a (inl h) (inr k) = absurd (omega (arith, h, k))
    juntos w t d a (inr h) (inr k) = inr (omega (arith, h))

uno_mas : (n w : ℕ) → suc n * w ≡ n * w + w
uno_mas n w = omega arith

rep_movs-copia :
    (w n : ℕ) (m : Bytes) (d s a : ℕ)
    → (d ≤ s) ⊎ (s + n * w ≤ d)
    → rep_movs w n m d s a ≡ copia m d s (n * w) a
unfolding rep_movs
rep_movs-copia w zero m d s a h =
    let cero : 0 * w ≡ 0 = omega arith in
    let fuera : en_rango d 0 a ≡ false = rango_no d 0 a (omega arith) in rw (cero, fuera) refl
rep_movs-copia w (suc n) m d s a h =
    let h' : (d ≤ s) ⊎ (s + (n * w + w) ≤ d) = rw (uno_mas n w) at h in
    rep_movs-copia w n (movs w m d s) (d + w) (s + w) a (detras n w d s h')
    ∙ copia-movs w (n * w) m d s a h'
    ∙ ap (λ t. copia m d s t a) (sym (uno_mas n w))
  where
    detras :
        (n w d s : ℕ) → (d ≤ s) ⊎ (s + (n * w + w) ≤ d) → (d + w ≤ s + w) ⊎ (s + w + n * w ≤ d + w)
    detras n w d s (inl h) = inl (omega (arith, h))
    detras n w d s (inr h) = inr (omega (arith, h))

-- The last step, and then the rest in one.
copia-movs_abajo :
    (w t : ℕ) (m : Bytes) (d s a : ℕ)
    → s ≤ d
    → copia (movs w m (d + t) (s + t)) d s t a ≡ copia m d s (t + w) a
copia-movs_abajo w t m d s a h = elim (Bool-cases (en_rango d t a)) [
  | inl e ↦
      let (lo, hi) = rango_cotas d t a e in
      let todo : en_rango d (t + w) a ≡ true = rango_si d (t + w) a lo (omega (arith, hi)) in
      let intacto : en_rango (d + t) w (s + (a - d)) ≡ false =
        rango_no (d + t) w (s + (a - d)) (inl (omega (arith, lo, hi, h))) in
      rw (e, todo, intacto) refl
  | inr e ↦ elim (Bool-cases (en_rango (d + t) w a)) [
    | inl f ↦
        let (lo, hi) = rango_cotas (d + t) w a f in
        let todo : en_rango d (t + w) a ≡ true =
          rango_si d (t + w) a (omega (arith, lo)) (omega (arith, hi)) in
        rw (e, f, todo) (ap m (omega (arith, lo)))
    | inr f ↦
        let todo : en_rango d (t + w) a ≡ false =
          rango_no d (t + w) a (juntos w t d a (fuera_cotas d t a e) (fuera_cotas (d + t) w a f)) in
        rw (e, f, todo) refl
  ]
]
  where
    juntos :
        (w t d a : ℕ)
        → (a < d) ⊎ (d + t ≤ a)
        → (a < d + t) ⊎ (d + t + w ≤ a)
        → (a < d) ⊎ (d + (t + w) ≤ a)
    juntos w t d a (inl h) k = inl h
    juntos w t d a (inr h) (inl k) = absurd (omega (arith, h, k))
    juntos w t d a (inr h) (inr k) = inr (omega (arith, k))

rep_movs_abajo-copia :
    (w n : ℕ) (m : Bytes) (d s a : ℕ) → s ≤ d → rep_movs_abajo w n m d s a ≡ copia m d s (n * w) a
unfolding rep_movs_abajo
rep_movs_abajo-copia w zero m d s a h =
    let cero : 0 * w ≡ 0 = omega arith in
    let fuera : en_rango d 0 a ≡ false = rango_no d 0 a (omega arith) in rw (cero, fuera) refl
rep_movs_abajo-copia w (suc n) m d s a h =
    rep_movs_abajo-copia w n (movs w m (d + n * w) (s + n * w)) d s a h
    ∙ copia-movs_abajo w (n * w) m d s a h
    ∙ ap (λ t. copia m d s t a) (sym (uno_mas n w))

alineados_cuartos : (s d n : ℕ) → alineados s d n ≡ true → n / 4 * 4 ≡ n
alineados_cuartos s d n e = let r : n % 4 ≡ 0 = ground arith in omega (arith, r)

-- `memmove` copies as if every byte of the source were read before any is written, wherever the two
-- blocks lie and overlap and however they are aligned: afterwards the destination holds what the source
-- held before, and no other byte changes.
pub memmove-copia : (m : Bytes) (d s n a : ℕ) → memmove m d s n a ≡ copia m d s n a
unfolding memmove
memmove-copia m d s n a = elim (Bool-cases (solapa d s n)) [
  | inl e ↦
      let bajo : s ≤ d = solapa_cota d s n e in
      elim (Bool-cases (alineados (s + n) (d + n) n)) [
        | inl f ↦
            rw (memmove, e, f)
              (rep_movs_abajo-copia 4 (n / 4) m d s a bajo
                ∙ ap (λ t. copia m d s t a) (alineados_cuartos (s + n) (d + n) n f))
        | inr f ↦
            rw (memmove, e, f)
              (rep_movs_abajo-copia 1 n m d s a bajo ∙ ap (λ t. copia m d s t a) (por_uno n))
      ]
  | inr e ↦ elim (Bool-cases (alineados s d n)) [
    | inl f ↦
        rw (memmove, e, f)
          (let q = alineados_cuartos s d n f in
            rep_movs-copia 4 (n / 4) m d s a (ap_cota (n / 4 * 4) n d s q (no_solapa d s n e))
            ∙ ap (λ t. copia m d s t a) q)
    | inr f ↦
        rw (memmove, e, f)
          (rep_movs-copia 1 n m d s a (ap_cota (n * 1) n d s (por_uno n) (no_solapa d s n e))
            ∙ ap (λ t. copia m d s t a) (por_uno n))
  ]
]
  where
    por_uno : (n : ℕ) → n * 1 ≡ n
    por_uno n = omega arith

    solapa_cota : (d s n : ℕ) → solapa d s n ≡ true → s ≤ d
    solapa_cota d s n e = ground arith

    no_solapa : (d s n : ℕ) → solapa d s n ≡ false → (d ≤ s) ⊎ (s + n ≤ d)
    no_solapa d s n e = ground arith

    ap_cota : (t n d s : ℕ) → t ≡ n → (d ≤ s) ⊎ (s + n ≤ d) → (d ≤ s) ⊎ (s + t ≤ d)
    ap_cota t n d s e h = rw e h
