-- ===== src/Kernel/Sched/Yield.antt =====
-- `sched_yield` of scheduler/kern/sched.c under the priority policy.
use features_operating_syste.Prelude.{◌+◌, ◌≤◌, ◌<◌, ◌≡◌, ◌≢◌, refl, some}
use features_operating_syste.Kernel.Types.{Kernel, Control, and_then}
use features_operating_syste.Kernel.Queue.Move.{Caben}
use features_operating_syste.Kernel.Queue.Promote.{Promovido}
use features_operating_syste.Kernel.Run.{sched_halt}
use features_operating_syste.Kernel.Sched.{
  Politica, planificar, prioridad_mlfq, promover_si_toca, sched_yield,
}
use features_operating_syste.Kernel.Sched.Mlfq.{prioridad_mlfq_no_vuelve}
use features_operating_syste.Kernel.Sched.RoundRobin.{promover_si_toca_lem}

-- What does not return is the same with a statement behind it.
and_then_no_vuelve :
    (c : Control) (f : Kernel → Control)
    → ((r : Kernel) → c ≢ Control.returned r)
    → and_then c f ≡ c
and_then_no_vuelve (Control.context_switch k) f h = refl
and_then_no_vuelve (Control.halted k) f h = refl
and_then_no_vuelve (Control.monitor k) f h = refl
and_then_no_vuelve Control.fault f h = refl
and_then_no_vuelve (Control.returned k) f h = absurd (h k refl)

abbrev pub contado : Kernel → Kernel
contado k = record k { runs_del_sched = k.runs_del_sched + 1 }

sched_yield_planifica :
    (k r : Kernel)
    → promover_si_toca (contado k) ≡ some r
    → sched_yield Politica.sched_priorities k ≡ prioridad_mlfq r
unfolding sched_yield planificar
sched_yield_planifica k r h =
    rw (sched_yield, planificar, h)
      (and_then_no_vuelve (prioridad_mlfq r) sched_halt (prioridad_mlfq_no_vuelve r))

-- Where the queues are well formed, fit into a ring, and fewer than 50 executions have been counted,
-- `sched_yield` with priorities counts its call and ends as `prioridad_MLFQ` does on these queues.
sched_yield_sin_promover :
    (k : Kernel)
    → Caben k.mlfq_scheduler
    → k.mlfq_scheduler.ejecuciones_totales < 50
    → sched_yield Politica.sched_priorities k ≡ prioridad_mlfq (contado k)
sched_yield_sin_promover k v h =
    sched_yield_planifica k (contado k) ((promover_si_toca_lem (contado k) v).0 h)

-- Where the queues are well formed, fit into a ring, and at least 50 executions have been counted,
-- `sched_yield` with priorities promotes every identifier to the first queue, starts counting anew,
-- and ends as `prioridad_MLFQ` does on the promoted queues.
pub sched_yield-Promovido :
    (k : Kernel)
    → Caben k.mlfq_scheduler
    → 50 ≤ k.mlfq_scheduler.ejecuciones_totales
    → (r : Kernel) × (sched_yield Politica.sched_priorities k ≡ prioridad_mlfq r)
      × Promovido (contado k) r
      × (r.mlfq_scheduler.ejecuciones_totales ≡ 0)
sched_yield-Promovido k v h =
    let (r, e, p, z) = (promover_si_toca_lem (contado k) v).1 h in
    (r, sched_yield_planifica k r e, p, z)
