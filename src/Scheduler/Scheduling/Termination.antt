-- ===== src/Scheduler/Scheduling/Termination.antt =====
-- A call of Scheduler/Scheduling comes to an end.
use beeflow.Prelude.{ℕ, ◌≡◌, refl, some, length, nat_beq, inl, inr, Bool-cases}
use beeflow.Prelude.Result.{Result, ok, err, Result-cases}
use beeflow.Scheduler.CriticalSection.Termination.{executable_task_instances_to_queued_total}
use beeflow.Scheduler.Enqueue.{
  max_tis, enqueued, after_selection, critical_section_enqueue_task_instances,
}
use beeflow.Scheduler.Scheduling.{
  Setting, State, Failure, before_critical, after_critical, critical, then_critical, do_scheduling,
}

critical_total :
    (x : Setting) (s : State) → (r : Result Failure (ℕ × State)) × (critical x s ≡ some r)
unfolding critical after_critical critical_section_enqueue_task_instances after_selection
critical_total x s = elim (Bool-cases (nat_beq x.slots_available 0)) [
  | inl full ↦ (ok (0, s), rw full refl)
  | inr room ↦
      let (r, ran) =
        executable_task_instances_to_queued_total x.world
          (max_tis x.max_tis_per_query x.slots_available) s.db in
      elim (Result-cases r) [
        | inl (out, returned) ↦
            (ok (length out.chosen, record s { db = enqueued out }), rw (room, ran, returned) refl)
        | inr (e, raised) ↦ elim (Bool-cases (x.is_lock_not_available_error e)) [
          | inl busy ↦ (ok (0, s), rw (room, ran, raised, busy) refl)
          | inr other ↦ (err (Failure.database_failure e), rw (room, ran, raised, other) refl)
        ]
      ]
]

-- `_do_scheduling` always comes to an end.
pub do_scheduling_total :
    (x : Setting) (s : State) → (r : Result Failure (ℕ × State)) × (do_scheduling x s ≡ some r)
unfolding do_scheduling then_critical
do_scheduling_total x s = elim (Result-cases (before_critical x s)) [
  | inr (e, raised) ↦ (err e, rw raised refl)
  | inl (committed, returned) ↦
      let (r, ran) = critical_total x committed in (r, rw (returned, ran) refl)
]
