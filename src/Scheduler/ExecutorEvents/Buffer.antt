-- ===== src/Scheduler/ExecutorEvents/Buffer.antt =====
-- The event buffer of Scheduler/ExecutorEvents as a dictionary.
use beeflow.Prelude.{
  ℕ, suc, ◌≡◌, refl, sym, ap, ◌∙◌, Bool, true, false, ◌||◌, none, some, [], ◌∷◌, nat_beq_iff,
  string_eq, nat_eq, length, arith, inl, inr, Bool-cases, Option-cases,
}
use text.Mathlib.TextEquality.{eq_iff}
use beeflow.Prelude.Int.{int_eq, int_agrees_iff}
use beeflow.Scheduler.Tables.{TaskInstance}
use beeflow.Scheduler.ExecutorEvents.{
  TaskInstanceKey, key_of, same_primary, same_event, Report, EventBuffer, tis_with_right_state,
  try_number_of, pop, is_reported,
}

-- `key in buffer`
abbrev pub has_key : TaskInstanceKey → EventBuffer → Bool
has_key key [] = false
has_key key ((k, r) ∷ events) = same_event k key || has_key key events

pub same_event-eq : (a b : TaskInstanceKey) → same_event a b ≡ true → a ≡ b
same_event-eq a b h = ground (
  arith,
  eq_iff a.dag_id b.dag_id,
  eq_iff a.task_id b.task_id,
  eq_iff a.run_id b.run_id,
  int_agrees_iff a.map_index b.map_index,
)

-- What `pop` of a key that is there returns, and leaves.
pub pop-has_key :
    (key : TaskInstanceKey) (events : EventBuffer)
    → has_key key events ≡ true
    → (r : Report) × (rest : EventBuffer) × (pop key events ≡ some (r, rest))
      × (suc (length rest) ≡ length events)
      × ((j : TaskInstanceKey) → same_event key j ≡ false → has_key j rest ≡ has_key j events)
unfolding pop
pop-has_key key [] h = cc
pop-has_key key ((k, r) ∷ events) h = elim (Bool-cases (same_event k key)) [
  | inl here ↦ (
    r,
    events,
    rw here refl,
    refl,
    λ j other. rw (same_event-eq k key here) (ground (arith, other)),
  )
  | inr there ↦
      let (r', rest, popped, shorter, others) = pop-has_key key events (ground (arith, there, h)) in
      (
        r',
        (k, r) ∷ rest,
        rw (there, popped) refl,
        ap suc shorter,
        λ j other. ap (λ b. same_event k j || b) (others j other),
      )
]

-- A key whose task instance is reported has a last try number, and it stands in the buffer.
pub try_number_of-has_key :
    (ti : TaskInstance) (events : EventBuffer) (n : ℕ)
    → try_number_of (key_of ti 0) events ≡ some n
    → has_key (key_of ti n) events ≡ true
unfolding try_number_of
try_number_of-has_key ti [] n h = cc
try_number_of-has_key ti ((k, r) ∷ events) n h =
    elim (Option-cases (try_number_of (key_of ti 0) events)) [
      | inl nothing ↦ ground (arith, nothing, h, nat_beq_iff k.try_number n)
      | inr (m, later) ↦ ground (arith, later, h, try_number_of-has_key ti events n)
    ]

none-some : {n : ℕ} → none ≡ some n → ⊥
none-some h = cc

pub is_reported-try_number_of :
    (ti : TaskInstance) (events : EventBuffer)
    → is_reported (tis_with_right_state events) ti ≡ true
    → (n : ℕ) × (try_number_of (key_of ti 0) events ≡ some n)
unfolding is_reported tis_with_right_state try_number_of
is_reported-try_number_of ti [] h = cc
is_reported-try_number_of ti ((k, r) ∷ events) h =
    elim (Option-cases (try_number_of (key_of ti 0) events)) [
      | inr (m, later) ↦ (m, rw later refl)
      | inl nothing ↦ elim (Bool-cases (same_primary k (key_of ti 0))) [
        | inl same ↦ (k.try_number, rw (nothing, same) refl)
        | inr other ↦
            let (n, there) = is_reported-try_number_of ti events (ground (arith, other, h)) in
            absurd (none-some (sym nothing ∙ there))
      ]
    ]
