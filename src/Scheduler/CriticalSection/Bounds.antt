-- ===== src/Scheduler/CriticalSection/Bounds.antt =====
-- What the critical section takes stays within the pools, the DAGs, the tasks and the query's limit.
use beeflow.Prelude.{
  ℕ, ◌+◌, ◌≤◌, ◌≡◌, refl, sym, ap, ◌∙◌, true, not, some, List, [], String, arith, string_eq,
  pair_eq, nat_eq, length, filter, length-take-le, All, All-imp, inl, inr, ◌⊎◌, some_inj,
  pair_beq_iff,
}
use beeflow.Prelude.Result.{ok}
use beeflow.Scheduler.Tables.{DagRun, DagModel, Dag, Database, task_of}
use beeflow.Scheduler.Query.{Row, find_dag_model, order_rows, candidates, select}
use beeflow.Scheduler.World.{World}
use beeflow.Scheduler.Examine.{Round, task_concurrency_limit}
use text.Mathlib.TextEquality.{eq_iff}
use beeflow.Scheduler.CriticalSection.{
  pool_slots_free, start_round, Outcome, finish, executable_task_instances_to_queued,
}
use beeflow.Scheduler.Query.Facts.{IsJoined, IsSelected, select-IsSelected}
use beeflow.Scheduler.Concurrency.Counts.{
  active_of_dag, active_of_task, get_concurrency_maps_counts,
}
use beeflow.Scheduler.Examine.Rule.{examine_all_rule}
use beeflow.Scheduler.Examine.Limits.{
  of_dag, of_task, DagWithin, TaskWithin, DagWithin-Rule, TaskWithin-Rule,
}
use beeflow.Scheduler.Examine.Length.{examine_all-length}
use beeflow.Scheduler.CriticalSection.Slots.{used, open_of, balance, examine_all-balance}
use beeflow.Scheduler.CriticalSection.Rounds.{
  table, examined, round, room, loop_rule, loop_once, outcome_cases,
}

-- In every pool, the task instances that a critical section queues take no more slots than the
-- pool has open.
pub chosen_within_pool :
    (w : World) (max_tis : ℕ) (db : Database) (out : Outcome) (name : String)
    → executable_task_instances_to_queued w max_tis db ≡ some (ok out)
    → used name out.chosen ≤ open_of (w.slots_stats db) name
unfolding start_round finish
chosen_within_pool w max_tis db out name e = elim (outcome_cases w max_tis db out e) [
  | inl (idle, _) ↦ rw idle (omega arith)
  | inr (last, ran, settled) ↦
      let kept =
        loop_rule w (room w max_tis db) db (λ s. balance s name ≡ balance (start_round w db) name)
          (λ s p. examine_all-balance w _ s name ∙ p) _ (start_round w db) last refl ran in
      rw settled (omega (arith, kept))
]

round-length :
    (w : World) (max_tis : ℕ) (db : Database) (s : Round)
    → s.executable_tis ≡ []
    → length (round w max_tis db s).executable_tis ≤ max_tis
unfolding select
round-length w max_tis db s p = omega (
  arith,
  ap length p,
  examine_all-length w (examined w max_tis db s) s,
  length-take-le max_tis
      (filter (λ row. not (w.row_locked row.ti)) (order_rows (candidates (table db s) s.starved))),
)

-- A critical section queues at most `max_tis` task instances, and at most as many as there are open
-- slots in all pools together.
pub length-chosen-le :
    (w : World) (max_tis : ℕ) (db : Database) (out : Outcome)
    → executable_task_instances_to_queued w max_tis db ≡ some (ok out)
    → (length out.chosen ≤ max_tis) × (length out.chosen ≤ pool_slots_free (w.slots_stats db))
unfolding finish start_round
length-chosen-le w max_tis db out e = elim (outcome_cases w max_tis db out e) [
  | inl (idle, _) ↦ rw idle (omega arith)
  | inr (last, ran, settled) ↦
      let few : length last.executable_tis ≤ room w max_tis db =
        loop_once w (room w max_tis db) db (λ s. length s.executable_tis ≤ room w max_tis db)
          (λ s p. round-length w (room w max_tis db) db s p) (λ s p. rw p (omega arith)) _
          (start_round w db) last refl ran in
      rw settled (omega (arith, few))
]

-- The rows of a round belong to their DAGs.
examined-IsJoined :
    (w : World) (max_tis : ℕ) (db : Database) (s : Round)
    → All (IsJoined db.dag_runs db.dag_models) (examined w max_tis db s)
examined-IsJoined w max_tis db s =
    All-imp _ _ (λ row (sel : IsSelected w.row_locked (table db s) s.starved row). sel.joined) _
      (select-IsSelected w.row_locked max_tis (table db s) s.starved)

joined_model :
    {runs : List DagRun} {models : List DagModel} {row : Row} {dag_id : String} {model : DagModel}
    → IsJoined runs models row
    → row.ti.dag_id ≡ dag_id
    → find_dag_model models dag_id ≡ some model
    → row.dag_model ≡ model
joined_model {models} j same known =
    some_inj (sym j.found_model ∙ ap (find_dag_model models) same ∙ known)

within :
    (base map_value taken bound : ℕ)
    → (map_value ≡ base + taken) × ((taken ≡ 0) ⊎ (map_value ≤ bound))
    → (taken ≡ 0) ⊎ (base + taken ≤ bound)
within base map_value taken bound (e, inl nothing) = inl nothing
within base map_value taken bound (e, inr le) = inr (omega arith)

-- For every DAG, either nothing of it is queued, or its active task instances, with those that are
-- queued now, are at most its max_active_tasks.
pub chosen_within_dag :
    (w : World) (max_tis : ℕ) (db : Database) (out : Outcome) (dag_id : String) (model : DagModel)
    → executable_task_instances_to_queued w max_tis db ≡ some (ok out)
    → find_dag_model db.dag_models dag_id ≡ some model
    → (of_dag dag_id out.chosen ≡ 0)
      ⊎ (active_of_dag w.in_execution_states db.task_instances dag_id + of_dag dag_id out.chosen
          ≤ model.max_active_tasks)
unfolding start_round finish
chosen_within_dag w max_tis db out dag_id model e known = elim (outcome_cases w max_tis db out e) [
  | inl (idle, _) ↦ inl (rw idle refl)
  | inr (last, ran, settled) ↦
      let base = active_of_dag w.in_execution_states db.task_instances dag_id in
      let bound = model.max_active_tasks in
      let kept : DagWithin base dag_id bound last =
        loop_rule w (room w max_tis db) db (DagWithin base dag_id bound)
          (λ s p.
            examine_all_rule (DagWithin base dag_id bound) w _
              (All-imp _ _
                (λ row (j : IsJoined db.dag_runs db.dag_models row).
                  DagWithin-Rule base dag_id bound w row (λ t.
                    ap (λ (m : DagModel). m.max_active_tasks)
                      (joined_model j ((eq_iff row.ti.dag_id dag_id).0 t) known)))
                _ (examined-IsJoined w (room w max_tis db) db s))
              s p)
          _ (start_round w db) last
          (
            omega (
              arith,
              (get_concurrency_maps_counts w.in_execution_states db.task_instances dag_id
                  (dag_id, dag_id)).0,
            ),
            inl refl,
          )
          ran in
      rw settled (within base _ _ bound kept)
]

-- For a task with a limit of its own, in a DAG that has such limits, either nothing of it is queued,
-- or its active task instances, with those that are queued now, are at most the limit.
pub chosen_within_task :
    (w : World) (max_tis : ℕ) (db : Database) (out : Outcome) (task : String × String)
    (model : DagModel) (dag : Dag) (limit : ℕ)
    → executable_task_instances_to_queued w max_tis db ≡ some (ok out)
    → find_dag_model db.dag_models task.0 ≡ some model
    → model.has_task_concurrency_limits ≡ true
    → w.get_dag task.0 ≡ some dag
    → task_concurrency_limit dag task.1 ≡ some limit
    → (of_task task out.chosen ≡ 0)
      ⊎ (active_of_task w.in_execution_states db.task_instances task + of_task task out.chosen
          ≤ limit)
unfolding start_round finish
chosen_within_task w max_tis db out task model dag limit e known has found limited =
    elim (outcome_cases w max_tis db out e) [
      | inl (idle, _) ↦ inl (rw idle refl)
      | inr (last, ran, settled) ↦
          let base = active_of_task w.in_execution_states db.task_instances task in
          let kept : TaskWithin base task limit last =
            loop_rule w (room w max_tis db) db (TaskWithin base task limit)
              (λ s p.
                examine_all_rule (TaskWithin base task limit) w _
                  (All-imp _ _
                    (λ row (j : IsJoined db.dag_runs db.dag_models row).
                      TaskWithin-Rule base task limit w row (λ t s' below.
                        let same = (pair_beq_iff (task_of row.ti) task).0 t in
                        let same_dag = ap (λ (k : String × String). k.0) same in
                        let same_task = ap (λ (k : String × String). k.1) same in
                        below
                          (ap (λ (m : DagModel). m.has_task_concurrency_limits)
                              (joined_model j same_dag known)
                            ∙ has)
                          dag (ap w.get_dag same_dag ∙ found) limit
                          (ap (task_concurrency_limit dag) same_task ∙ limited)))
                    _ (examined-IsJoined w (room w max_tis db) db s))
                  s p)
              _ (start_round w db) last
              (
                omega (
                  arith,
                  (get_concurrency_maps_counts w.in_execution_states db.task_instances task.0
                      task).1,
                ),
                inl refl,
              )
              ran in
          rw settled (within base _ _ limit kept)
    ]
