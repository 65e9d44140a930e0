-- ===== src/Kernel/Console/Fifo.antt =====
-- The ring of input of scheduler/kern/console.c as a queue of characters.
use features_operating_syste.Prelude.{
  ℕ, zero, suc, ◌+◌, ◌%◌, ◌≤◌, ◌<◌, ◌≡◌, refl, ap, sym, subst, ◌∙◌, Bool, true, false, Option, none,
  some, List, [], ◌∷◌, ◌++◌, append_assoc, append-nil, length, length-append, ◌==◌, if◌then◌else◌,
  update, arith, Bool-cases, inl, inr,
}
use features_operating_syste.Kernel.Console.Ports.{Puertos, Equipo, serial_proc_data}
use features_operating_syste.Kernel.Console.Keyboard.{kbd_proc_data}
use features_operating_syste.Kernel.Console.Ring.{
  Cons, Consola, siguiente, guardar_caracter, cons_intr, sacar_caracter, kbd_intr, serial_intr,
  cons_getc,
}

-- The `n` characters from index `i` on.
abbrev pub tramo : (ℕ → ℕ) → ℕ → ℕ → List ℕ
tramo f i zero = []
tramo f i (suc n) = f (i % 512) ∷ tramo f (i + 1) n

-- The characters that wait in the ring, oldest first.
pub record Contiene (k : Cons) (l : List ℕ) : Type 0 where
  pub dentro : k.rpos < 512
  pub caben : length l < 512
  pub hasta : k.wpos ≡ (k.rpos + length l) % 512
  pub celdas : tramo k.buf k.rpos (length l) ≡ l

tramo-snoc : (f : ℕ → ℕ) (i n : ℕ) → tramo f i (suc n) ≡ tramo f i n ++ (f ((i + n) % 512) ∷ [])
tramo-snoc f i zero = ap (λ (k : ℕ). f (k % 512) ∷ []) (omega arith)
tramo-snoc f i (suc n) =
    ground (arith, tramo-snoc f (i + 1) n, ap (λ (k : ℕ). f (k % 512)) (igual i n))
  where
    igual : (i n : ℕ) → i + 1 + n ≡ i + suc n
    igual i n = omega arith

-- A write behind the last character changes none of them.
tramo-update :
    (f : ℕ → ℕ) (v i n u : ℕ)
    → i + n ≤ u
    → u < i + 512
    → tramo (update f (u % 512) v) i n ≡ tramo f i n
tramo-update f v i zero u h l = refl
tramo-update f v i (suc n) u h l = ground (arith, tramo-update f v (i + 1) n u)

-- The index is taken modulo the size of the ring.
tramo-mod : (f : ℕ → ℕ) (i j n : ℕ) → i % 512 ≡ j % 512 → tramo f i n ≡ tramo f j n
tramo-mod f i j zero h = refl
tramo-mod f i j (suc n) h = ground (arith, h, tramo-mod f (i + 1) (j + 1) n (omega (arith, h)))

tramo-guardar :
    (f : ℕ → ℕ) (i : ℕ) (l : List ℕ) (u v : ℕ)
    → u ≡ (i + length l) % 512
    → length l < 511
    → tramo f i (length l) ≡ l
    → tramo (update f u v) i (length (l ++ (v ∷ []))) ≡ l ++ (v ∷ [])
tramo-guardar f i l u v hu h e =
    let n : length (l ++ (v ∷ [])) ≡ suc (length l) = omega (arith, length-append l (v ∷ [])) in
    let aqui : ((i + length l) % 512 == (i + length l) % 512) ≡ true = ground arith in
    let f' : ℕ → ℕ = update f ((i + length l) % 512) v in
    rw hu (
      ap (tramo f' i) n
      ∙ tramo-snoc f' i (length l)
      ∙ rw (tramo-update f v i (length l) (i + length l) (omega arith) (omega (arith, h)), e, aqui)
          refl)

guardar_caracter-Contiene :
    (c : ℕ) (k : Cons) (l : List ℕ)
    → (c == 0) ≡ false
    → length l < 511
    → Contiene k l
    → Contiene (guardar_caracter c k) (l ++ (c % 256 ∷ []))
unfolding guardar_caracter
guardar_caracter-Contiene c k l e h v = rw e (record {
  dentro = v.dentro;
  caben = omega (arith, h, length-append l (c % 256 ∷ []));
  hasta = ground (arith, v.hasta, v.dentro, h, length-append l (c % 256 ∷ []));
  celdas = tramo-guardar k.buf k.rpos l k.wpos (c % 256) v.hasta h v.celdas;
})

-- When 511 characters wait, one more character that is not 0 makes the ring look empty: all 512 are lost.
guardar_caracter_desborda :
    (c : ℕ) (k : Cons) (l : List ℕ)
    → (c == 0) ≡ false
    → length l ≡ 511
    → Contiene k l
    → Contiene (guardar_caracter c k) []
unfolding guardar_caracter
guardar_caracter_desborda c k l e h v = rw e (record {
  dentro = v.dentro;
  caben = omega arith;
  hasta = ground (arith, v.hasta, v.dentro, h);
  celdas = refl;
})

abbrev pub primero : List ℕ → ℕ
primero [] = 0
primero (x ∷ l) = x

abbrev pub resto : List ℕ → List ℕ
resto [] = []
resto (x ∷ l) = l

sacar_caracter-Contiene :
    (k : Cons) (l : List ℕ)
    → Contiene k l
    → ((sacar_caracter k).0 ≡ primero l) × Contiene (sacar_caracter k).1 (resto l)
unfolding sacar_caracter
sacar_caracter-Contiene k [] v =
    let igual : (k.rpos == k.wpos) ≡ true = ground (arith, v.hasta, v.dentro) in rw igual (refl, v)
sacar_caracter-Contiene k (x ∷ l) v =
    let distinto : (k.rpos == k.wpos) ≡ false = ground (arith, v.hasta, v.dentro, v.caben) in
    rw distinto (
      subst (λ (j : ℕ). k.buf j ≡ x) (omega (arith, v.dentro)) (ap primero v.celdas),
      record {
        dentro = ground (arith, v.dentro);
        caben = omega (arith, v.caben);
        hasta = ground (arith, v.hasta, v.dentro, v.caben);
        celdas =
            tramo-mod k.buf (siguiente k.rpos) (k.rpos + 1) (length l) (ground (arith, v.dentro))
            ∙ ap resto v.celdas;
      },
    )

-- What the loop of `cons_intr` keeps.
abbrev pub recibidos : List ℕ → List ℕ
recibidos [] = []
recibidos (x ∷ l) = if x == 0 then recibidos l else (x % 256) ∷ recibidos l

recibidos-cons : (x : ℕ) (xs : List ℕ) → recibidos (x ∷ xs) ≡ recibidos (x ∷ []) ++ recibidos xs
recibidos-cons x xs = elim (Bool-cases (x == 0)) [ inl q ↦ rw q refl | inr q ↦ rw q refl ]

recibir-Contiene :
    (x : ℕ) (k : Cons) (l : List ℕ)
    → length l + length (recibidos (x ∷ [])) < 512
    → Contiene k l
    → Contiene (guardar_caracter x k) (l ++ recibidos (x ∷ []))
unfolding guardar_caracter
recibir-Contiene x k l h v = elim (Bool-cases (x == 0)) [
  | inl q ↦ rw (q, append-nil l) v
  | inr q ↦
      let menos : length l < 511 = ground (arith, h, q) in
      subst (λ (r : List ℕ). Contiene (guardar_caracter x k) (l ++ r)) (rw q refl)
        (guardar_caracter-Contiene x k l q menos v)
]

-- `proc` gives these values, one after the other, and then -1.
pub data Drena {S : Type 0} (proc : S → Option ℕ × S) : List ℕ → S → S → Type 0 where
  fin : {s s' : S} → proc s ≡ (none, s') → Drena proc [] s s'
  da :
      {x : ℕ} {l : List ℕ} {s t s' : S}
      → proc s ≡ (some x, t)
      → Drena proc l t s'
      → Drena proc (x ∷ l) s s'

pub cons_intr-Contiene :
    {S : Type 0} (proc : S → Option ℕ × S) (n : ℕ) (k : Cons) (l xs : List ℕ) {s s' : S}
    → Drena proc xs s s'
    → length xs < n
    → length l + length (recibidos xs) < 512
    → Contiene k l
    → (k' : Cons) × (cons_intr proc n k s ≡ some (k', s')) × Contiene k' (l ++ recibidos xs)
unfolding cons_intr
cons_intr-Contiene {S} proc zero k l xs d h b v = absurd (omega (arith, h))
cons_intr-Contiene {S} proc (suc n) k l [] (Drena.fin e) h b v = (
  k,
  rw (cons_intr, ap (λ (r : Option ℕ × S). r.0) e, ap (λ (r : Option ℕ × S). r.1) e) refl,
  rw (append-nil l) v,
)
cons_intr-Contiene {S} proc (suc n) k l (x ∷ xs) {s} {s'} (Drena.da e d) h b v =
    let r = recibidos (x ∷ []) in
    let partes = recibidos-cons x xs in
    let m : length (recibidos (x ∷ xs)) ≡ length r + length (recibidos xs) =
      ap length partes ∙ length-append r (recibidos xs) in
    let (k', c, w) =
      cons_intr-Contiene proc n (guardar_caracter x k) (l ++ r) xs d (omega (arith, h))
        (omega (arith, b, m, length-append l r)) (recibir-Contiene x k l (omega (arith, b, m)) v) in
    (
      k',
      rw (cons_intr, ap (λ (q : Option ℕ × S). q.0) e, ap (λ (q : Option ℕ × S). q.1) e) c,
      subst (Contiene k') (append_assoc l r (recibidos xs) ∙ ap (l ++◌) (sym partes)) w,
    )

-- The serial port gives `xs`; it gives nothing where there is none.
abbrev pub Serie : {D : Type 0} → Puertos D → Bool → List ℕ → Equipo D → Equipo D → Type 0
Serie p true xs e e' = Drena (serial_proc_data p) xs e e'
Serie p false xs e e' = (xs ≡ []) × (e ≡ e')

serial_intr_hay :
    {D : Type 0} (p : Puertos D) (n : ℕ) (c : Consola D) (k : Cons) (e1 : Equipo D)
    → c.equipo.serial_exists ≡ true
    → cons_intr (serial_proc_data p) n c.cons c.equipo ≡ some (k, e1)
    → serial_intr p n c ≡ some (record { cons = k; equipo = e1 })
unfolding serial_intr
serial_intr_hay p n c k e1 q e = ground (arith, q, e)

serial_intr_falta :
    {D : Type 0} (p : Puertos D) (n : ℕ) (c : Consola D) (e1 : Equipo D)
    → c.equipo.serial_exists ≡ false
    → c.equipo ≡ e1
    → serial_intr p n c ≡ some (record { cons = c.cons; equipo = e1 })
unfolding serial_intr
serial_intr_falta {D} p n c e1 q igual =
    subst (λ (e : Equipo D). serial_intr p n c ≡ some (record { cons = c.cons; equipo = e })) igual
      (ground (arith, q))

serial_intr-Contiene :
    {D : Type 0} (p : Puertos D) (n : ℕ) (c : Consola D) (l xs : List ℕ) {e1 : Equipo D}
    → Serie p c.equipo.serial_exists xs c.equipo e1
    → length xs < n
    → length l + length (recibidos xs) < 512
    → Contiene c.cons l
    → (k : Cons) × (serial_intr p n c ≡ some (record { cons = k; equipo = e1 }))
      × Contiene k (l ++ recibidos xs)
unfolding serial_intr
serial_intr-Contiene p n c l xs {e1} d h b v = elim (Bool-cases c.equipo.serial_exists) [
  | inl q ↦
      let (k, e, w) =
        cons_intr-Contiene (serial_proc_data p) n c.cons l xs
          (subst (λ (t : Bool). Serie p t xs c.equipo e1) q d) h b v in
      (k, serial_intr_hay p n c k e1 q e, w)
  | inr q ↦
      let (vacia, igual) = subst (λ (t : Bool). Serie p t xs c.equipo e1) q d in
      (c.cons, serial_intr_falta p n c e1 q igual, rw (vacia, append-nil l) v)
]

-- When the serial port gives `xs` and then the keyboard `ys`, with what waits in the ring fewer than 512
-- characters (zeros are not counted), and there is fuel for each of them, `cons_getc` returns the oldest
-- character of what was waiting, `xs` and `ys` in this order, or 0 when there is none; the ring holds
-- the others, in the same order, and the devices stand as after the last one.
pub cons_getc-primero :
    {D : Type 0} (p : Puertos D) (n : ℕ) (c : Consola D) (l xs ys : List ℕ) {e1 e2 : Equipo D}
    → Serie p c.equipo.serial_exists xs c.equipo e1
    → Drena (kbd_proc_data p) ys e1 e2
    → length xs < n
    → length ys < n
    → length l + length (recibidos xs) + length (recibidos ys) < 512
    → Contiene c.cons l
    → (c' : Consola D) × (cons_getc p n c
        ≡ some (primero ((l ++ recibidos xs) ++ recibidos ys), c'))
      × Contiene c'.cons (resto ((l ++ recibidos xs) ++ recibidos ys))
      × (c'.equipo ≡ e2)
unfolding cons_getc kbd_intr
cons_getc-primero p n c l xs ys {e1} {e2} d1 d2 hx hy b v =
    let (k1, s1, w1) = serial_intr-Contiene p n c l xs d1 hx (omega (arith, b)) v in
    let (k2, s2, w2) =
      cons_intr-Contiene (kbd_proc_data p) n k1 (l ++ recibidos xs) ys d2 hy
        (omega (arith, b, length-append l (recibidos xs))) w1 in
    let (s3, w3) = sacar_caracter-Contiene k2 ((l ++ recibidos xs) ++ recibidos ys) w2 in
    (
      record { cons = (sacar_caracter k2).1; equipo = e2 },
      rw (cons_getc, s1, kbd_intr, s2, s3) refl,
      w3,
      refl,
    )
