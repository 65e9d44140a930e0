-- ===== src/Kernel/Queue/Transfer.antt =====
-- One identifier that goes from a queue to the end of a queue, seen in the contents of all four.
use features_operating_syste.Prelude.{
  ℕ, zero, suc, ◌+◌, ◌%◌, ◌≤◌, ◌<◌, ◌≡◌, ◌≢◌, refl, sym, ◌∙◌, ap, List, [], ◌∷◌, ◌++◌, arith, count,
}
use features_operating_syste.Kernel.Types.{Cola, MlfqScheduler, Puntero, en_a, en_b, en_c, en_d}
use features_operating_syste.Kernel.Queue.{encolar, eliminar_de, leer, escribir}
use features_operating_syste.Kernel.Queue.Window.{ventana, contenido, ocupacion, IsCola, uno}
use features_operating_syste.Kernel.Queue.Remove.{contenido-encolar, eliminar_de-Quitado}
use features_operating_syste.Kernel.Queue.Move.{Caben, mover, sched_borrar_env-Borrada}

-- `id` has left queue `p` once and stands at the end of queue `p'`; the other queues are untouched.
-- Where the two queues differ, all else of queue `p'` stays in its order; where they are one queue,
-- the rest of it stands before `id`.
pub record Trasladado (id : ℕ) (p p' : Puntero) (s r : MlfqScheduler) : Type 0 where
  pub resto : List ℕ
  pub sale : (y : ℕ) → count y resto + uno y id ≡ count y (contenido (leer s p))
  pub origen : p ≢ p' → contenido (leer r p) ≡ resto
  pub destino : p ≢ p' → contenido (leer r p') ≡ contenido (leer s p') ++ (id ∷ [])
  pub al_final : p ≡ p' → contenido (leer r p') ≡ resto ++ (id ∷ [])
  pub otras : (z : Puntero) → z ≢ p → z ≢ p' → leer r z ≡ leer s z

leer-escribir : (s : MlfqScheduler) (p : Puntero) (q : Cola) → leer (escribir s p q) p ≡ q
leer-escribir s en_a q = refl
leer-escribir s en_b q = refl
leer-escribir s en_c q = refl
leer-escribir s en_d q = refl

leer-escribir_otra :
    (s : MlfqScheduler) (p : Puntero) (q : Cola) (z : Puntero)
    → z ≢ p
    → leer (escribir s p q) z ≡ leer s z
leer-escribir_otra s en_a q en_a ne = absurd (ne refl)
leer-escribir_otra s en_a q en_b ne = refl
leer-escribir_otra s en_a q en_c ne = refl
leer-escribir_otra s en_a q en_d ne = refl
leer-escribir_otra s en_b q en_a ne = refl
leer-escribir_otra s en_b q en_b ne = absurd (ne refl)
leer-escribir_otra s en_b q en_c ne = refl
leer-escribir_otra s en_b q en_d ne = refl
leer-escribir_otra s en_c q en_a ne = refl
leer-escribir_otra s en_c q en_b ne = refl
leer-escribir_otra s en_c q en_c ne = absurd (ne refl)
leer-escribir_otra s en_c q en_d ne = refl
leer-escribir_otra s en_d q en_a ne = refl
leer-escribir_otra s en_d q en_b ne = refl
leer-escribir_otra s en_d q en_c ne = refl
leer-escribir_otra s en_d q en_d ne = absurd (ne refl)

-- A queue that is well formed and not full.
record Hueco (q : Cola) : Type 0 where
  valida : IsCola q
  libre : ocupacion q < 1024

-- The queues fit into a ring with room for one more.
pub record Sobra (s : MlfqScheduler) : Type 0 where
  pub caben : Caben s
  pub libre :
      ocupacion s.cola_a + ocupacion s.cola_b + ocupacion s.cola_c + ocupacion s.cola_d < 1024

Sobra-escribir :
    (s : MlfqScheduler) (p : Puntero) (q : Cola)
    → Caben s
    → IsCola q
    → suc (ocupacion q) ≡ ocupacion (leer s p)
    → Sobra (escribir s p q)
Sobra-escribir s en_a q c v e = omega arith
Sobra-escribir s en_b q c v e = omega arith
Sobra-escribir s en_c q c v e = omega arith
Sobra-escribir s en_d q c v e = omega arith

Sobra-Hueco : (s : MlfqScheduler) (p : Puntero) → Sobra s → Hueco (leer s p)
Sobra-Hueco s en_a h = omega (arith, h.caben, h.libre)
Sobra-Hueco s en_b h = omega (arith, h.caben, h.libre)
Sobra-Hueco s en_c h = omega (arith, h.caben, h.libre)
Sobra-Hueco s en_d h = omega (arith, h.caben, h.libre)

pub Caben-IsCola : (s : MlfqScheduler) (p : Puntero) → Caben s → IsCola (leer s p)
Caben-IsCola s en_a c = c.a_valida
Caben-IsCola s en_b c = c.b_valida
Caben-IsCola s en_c c = c.c_valida
Caben-IsCola s en_d c = c.d_valida

-- `id` has been added behind the other identifiers of queue `p`; the other queues are untouched.
pub record AlFinal (id : ℕ) (p : Puntero) (s r : MlfqScheduler) : Type 0 where
  pub destino : contenido (leer r p) ≡ contenido (leer s p) ++ (id ∷ [])
  pub otras : (z : Puntero) → z ≢ p → leer r z ≡ leer s z

pub encolar-AlFinal :
    (id : ℕ) (p : Puntero) (s : MlfqScheduler)
    → Sobra s
    → AlFinal id p s (escribir s p (encolar id (leer s p)))
encolar-AlFinal id p s h =
    let v = Sobra-Hueco s p h in
    record {
      destino =
          ap contenido (leer-escribir s p (encolar id (leer s p)))
          ∙ (contenido-encolar id (leer s p) v.valida (omega (arith, v.valida, v.libre))).0;
      otras = leer-escribir_otra s p (encolar id (leer s p));
    }

-- Queue `p` is replaced by `q`, which holds one `id` less, and `id` is added to queue `p'`.
trasladar-Trasladado :
    (id : ℕ) (p p' : Puntero) (s : MlfqScheduler) (q : Cola)
    → Caben s
    → IsCola q
    → suc (ocupacion q) ≡ ocupacion (leer s p)
    → ((y : ℕ) → count y (contenido q) + uno y id ≡ count y (contenido (leer s p)))
    → let s1 = escribir s p q in Trasladado id p p' s (escribir s1 p' (encolar id (leer s1 p')))
trasladar-Trasladado id p p' s q c v menos cuenta =
    let s1 = escribir s p q in
    let r = encolar id (leer s1 p') in
    let h = Sobra-Hueco s1 p' (Sobra-escribir s p q c v menos) in
    let fin : contenido (leer (escribir s1 p' r) p') ≡ contenido (leer s1 p') ++ (id ∷ []) =
      ap contenido (leer-escribir s1 p' r)
      ∙ (contenido-encolar id (leer s1 p') h.valida (omega (arith, h.valida, h.libre))).0 in
    record {
      resto = contenido q;
      sale = cuenta;
      origen =
          λ ne. ap contenido (leer-escribir_otra s1 p' r p ne) ∙ ap contenido (leer-escribir s p q);
      destino = λ ne.
          fin ∙ ap (λ x. contenido x ++ (id ∷ [])) (leer-escribir_otra s p q p' (λ e. ne (sym e)));
      al_final = λ e.
          fin ∙ ap (λ x. contenido x ++ (id ∷ [])) (ap (leer s1) (sym e) ∙ leer-escribir s p q);
      otras = λ z ne ne'. leer-escribir_otra s1 p' r z ne' ∙ leer-escribir_otra s p q z ne;
    }

pub mover-Trasladado :
    {p p' : Puntero} (s : MlfqScheduler) (u : ℕ)
    → Caben s
    → (leer s p).primero ≤ u
    → u < (leer s p).ultimo
    → Trasladado ((leer s p).envs (u % 1024)) p p' s (mover s p p' (u % 1024))
mover-Trasladado {p} {p'} s u c h l =
    let b = sched_borrar_env-Borrada u (leer s p) (Caben-IsCola s p c) h l in
    trasladar-Trasladado ((leer s p).envs (u % 1024)) p p' s _ c b.valida b.una_menos b.cuenta

-- An identifier is only in a window that has entries.
ventana-ocupada : (y : ℕ) (f : ℕ → ℕ) (i n : ℕ) → 0 < count y (ventana f i n) → 0 < n
ventana-ocupada y f i zero h = h
ventana-ocupada y f i (suc n) h = omega arith

pub eliminar_de-Trasladado :
    (id : ℕ) (p p' : Puntero) (s : MlfqScheduler)
    → Caben s
    → 0 < count id (contenido (leer s p))
    → let s1 = escribir s p (eliminar_de id (leer s p)) in
      Trasladado id p p' s (escribir s1 p' (encolar id (leer s1 p')))
eliminar_de-Trasladado id p p' s c esta =
    let v = Caben-IsCola s p c in
    let q = eliminar_de-Quitado id (leer s p) v esta in
    let algo = ventana-ocupada id (leer s p).envs (leer s p).primero (ocupacion (leer s p)) esta in
    trasladar-Trasladado id p p' s _ c
      (record {
        ordenada = omega (arith, q.primero_sube, q.ultimo_igual, algo, v);
        acotada = omega (arith, q.primero_sube, q.ultimo_igual, algo, v);
      })
      (omega (arith, q.primero_sube, q.ultimo_igual, algo, v)) q.menos_uno

leer-totales :
    (r : MlfqScheduler) (t : ℕ) (z : Puntero)
    → leer (record r { ejecuciones_totales = t }) z ≡ leer r z
leer-totales r t en_a = refl
leer-totales r t en_b = refl
leer-totales r t en_c = refl
leer-totales r t en_d = refl

pub Trasladado-totales :
    {id : ℕ} {p p' : Puntero} {s r : MlfqScheduler} (t : ℕ)
    → Trasladado id p p' s r
    → Trasladado id p p' s (record r { ejecuciones_totales = t })
Trasladado-totales {id} {p} {p'} {s} {r} t m = record {
  resto = m.resto;
  sale = m.sale;
  origen = λ ne. ap contenido (leer-totales r t p) ∙ m.origen ne;
  destino = λ ne. ap contenido (leer-totales r t p') ∙ m.destino ne;
  al_final = λ e. ap contenido (leer-totales r t p') ∙ m.al_final e;
  otras = λ z ne ne'. leer-totales r t z ∙ m.otras z ne ne';
}
