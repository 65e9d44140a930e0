-- ===== src/UserLib/Format/Lines.antt =====
-- `vcprintf` of scheduler/lib/printf.c, which collects characters and prints them by `sys_cputs`.
use features_operating_syste.Prelude.{
  ℕ, zero, suc, ◌+◌, ◌%◌, ◌<◌, ◌≡◌, refl, ap, sym, subst, ◌∙◌, true, Option, none, some, List, [],
  ◌∷◌, ◌++◌, append_assoc, append-nil, length, length-append, map, ◌==◌, if◌then◌else◌, update,
  arith, Bool-cases, inl, inr,
}
use features_operating_syste.UserLib.Format.Numbers.{Argumento}
use features_operating_syste.UserLib.Format.Run.{vprintfmt}
use features_operating_syste.UserLib.Format.Any.{volcar, texto, vprintfmt-volcar}
use features_operating_syste.UserLib.Format.Buffer.{leidos, leidos-update}

-- `struct printbuf`, and the texts that `sys_cputs` was called with.
pub record Printbuf : Type 0 where
  pub idx : ℕ
  pub cnt : ℕ
  pub buf : ℕ → ℕ
  pub salida : List (List ℕ)

abbrev pub putch : ℕ → Printbuf → Printbuf
putch ch b =
    let lleno = update b.buf b.idx (ch % 256) in
    if b.idx + 1 == 255
    then record {
      idx = 0;
      cnt = b.cnt + 1;
      buf = lleno;
      salida = b.salida ++ (leidos lleno 0 (b.idx + 1) ∷ []);
    }
    else record { idx = b.idx + 1; cnt = b.cnt + 1; buf = lleno; salida = b.salida }

-- What is returned, and the calls; `resto` is what stood in the buffer.
unfoldable pub vcprintf : (ℕ → ℕ) → List ℕ → List Argumento → Option (ℕ × List (List ℕ))
vcprintf resto fmt args =
    elim (vprintfmt putch fmt args (record { idx = 0; cnt = 0; buf = resto; salida = [] })) [
      | none ↦ none
      | some b ↦ some (b.cnt, b.salida ++ (leidos b.buf 0 b.idx ∷ []))
    ]

abbrev pub unidos : List (List ℕ) → List ℕ
unidos [] = []
unidos (x ∷ xs) = x ++ unidos xs

unidos-snoc : (xs : List (List ℕ)) (x : List ℕ) → unidos (xs ++ (x ∷ [])) ≡ unidos xs ++ x
unidos-snoc [] x = append-nil x
unidos-snoc (y ∷ xs) x = ap (y ++◌) (unidos-snoc xs x) ∙ sym (append_assoc y (unidos xs) x)

leidos-snoc : (m : ℕ → ℕ) (a n : ℕ) → leidos m a (suc n) ≡ leidos m a n ++ (m (a + n) ∷ [])
leidos-snoc m a zero = ap (λ (i : ℕ). m i ∷ []) (omega arith)
leidos-snoc m a (suc n) = ground (arith, leidos-snoc m (a + 1) n, ap m (igual a n))
  where
    igual : (a n : ℕ) → a + 1 + n ≡ a + suc n
    igual a n = omega arith

-- Every text has less than 256 characters.
abbrev pub Cortos : List (List ℕ) → Type 0
Cortos [] = Unit {0}
Cortos (x ∷ xs) = (length x < 256) × Cortos xs

Cortos-snoc :
    (xs : List (List ℕ)) (x : List ℕ) → Cortos xs → length x < 256 → Cortos (xs ++ (x ∷ []))
Cortos-snoc [] x c h = (h, tt)
Cortos-snoc (y ∷ xs) x (hy, c) h = (hy, Cortos-snoc xs x c h)

pub length-leidos : (m : ℕ → ℕ) (a n : ℕ) → length (leidos m a n) ≡ n
length-leidos m a zero = refl
length-leidos m a (suc n) = ap suc (length-leidos m (a + 1) n)

-- What was printed and what waits are the bytes so far.
record Lleva (b : Printbuf) (l : List ℕ) : Type 0 where
  dentro : b.idx < 255
  todo : unidos b.salida ++ leidos b.buf 0 b.idx ≡ l
  cuenta : b.cnt ≡ length l
  cortos : Cortos b.salida

pub leidos-escribir :
    (m : ℕ → ℕ) (n v : ℕ) → leidos (update m n v) 0 (n + 1) ≡ leidos m 0 n ++ (v ∷ [])
leidos-escribir m n v =
    let uno : n + 1 ≡ suc n = omega arith in
    let aqui : (0 + n == n) ≡ true = ground arith in
    rw uno (leidos-snoc (update m n v) 0 n ∙ rw (leidos-update m 0 n n v (omega arith), aqui) refl)

putch-Lleva :
    (ch : ℕ) (b : Printbuf) (l : List ℕ) → Lleva b l → Lleva (putch ch b) (l ++ (ch % 256 ∷ []))
putch-Lleva ch b l v =
    let nuevo = leidos-escribir b.buf b.idx (ch % 256) in
    let junto : unidos b.salida ++ leidos (update b.buf b.idx (ch % 256)) 0 (b.idx + 1)
        ≡ l ++ (ch % 256 ∷ []) =
      ap (unidos b.salida ++◌) nuevo
      ∙ sym (append_assoc (unidos b.salida) (leidos b.buf 0 b.idx) (ch % 256 ∷ []))
      ∙ ap (◌++ (ch % 256 ∷ [])) v.todo in
    elim (Bool-cases (b.idx + 1 == 255)) [
      | inl e ↦ rw e (record {
        dentro = omega arith;
        todo = append-nil _ ∙ unidos-snoc b.salida _ ∙ junto;
        cuenta = omega (arith, v.cuenta, length-append l (ch % 256 ∷ []));
        cortos =
            Cortos-snoc b.salida _ v.cortos (
              omega (arith, v.dentro, length-leidos (update b.buf b.idx (ch % 256)) 0 (b.idx + 1)));
      })
      | inr e ↦ rw e (record {
        dentro = ground (arith, e, v.dentro);
        todo = junto;
        cuenta = omega (arith, v.cuenta, length-append l (ch % 256 ∷ []));
        cortos = v.cortos;
      })
    ]

volcar-Lleva :
    (t : List ℕ) (b : Printbuf) (l : List ℕ)
    → Lleva b l
    → Lleva (volcar putch t b) (l ++ map (λ (x : ℕ). x % 256) t)
volcar-Lleva [] b l v = rw (append-nil l) v
volcar-Lleva (x ∷ t) b l v =
    subst (Lleva (volcar putch t (putch x b)))
      (append_assoc l (x % 256 ∷ []) (map (λ (y : ℕ). y % 256) t))
      (volcar-Lleva t (putch x b) (l ++ (x % 256 ∷ [])) (putch-Lleva x b l v))

-- For a format and arguments that print a text, the texts that `vcprintf` calls `sys_cputs` with are, one
-- behind the other, the bytes of that text; each call has less than 256 of them; and the number of
-- characters is returned.
pub vcprintf-unidos :
    (resto : ℕ → ℕ) (fmt : List ℕ) (args : List Argumento) {l : List ℕ}
    → texto fmt args ≡ some l
    → (salida : List (List ℕ)) × (vcprintf resto fmt args ≡ some (length l, salida))
      × (unidos salida ≡ map (λ (x : ℕ). x % 256) l)
      × Cortos salida
unfolding vcprintf
vcprintf-unidos resto fmt args {l} e =
    let b0 : Printbuf = record { idx = 0; cnt = 0; buf = resto; salida = [] } in
    let b = volcar putch l b0 in
    let v =
      volcar-Lleva l b0 []
        (record { dentro = omega arith; todo = refl; cuenta = refl; cortos = tt }) in
    (
      b.salida ++ (leidos b.buf 0 b.idx ∷ []),
      rw (vcprintf, vprintfmt-volcar putch fmt args b0 e)
          (ap (λ (n : ℕ). some (n, b.salida ++ (leidos b.buf 0 b.idx ∷ [])))
            (v.cuenta ∙ length-map l)),
      unidos-snoc b.salida (leidos b.buf 0 b.idx) ∙ v.todo,
      Cortos-snoc b.salida _ v.cortos (omega (arith, v.dentro, length-leidos b.buf 0 b.idx)),
    )
  where
    length-map : (t : List ℕ) → length (map (λ (x : ℕ). x % 256) t) ≡ length t
    length-map [] = refl
    length-map (x ∷ t) = ap suc (length-map t)
