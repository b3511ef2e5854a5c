-- ===== src/Forwarders/Dms/Batch.antt =====
-- What a batch of the stream comes to in Forwarders/Dms.
use beeflow.Prelude.{
  ◌≡◌, refl, ap, ◌∙◌, Bool, true, false, Option, none, some, List, [], ◌∷◌, ◌++◌, String, string_eq,
  lookup, map, length, count, In, All, All-imp, inl, inr, ◌⊎◌, arith,
}
use beeflow.Prelude.Result.{Result, ok, err, ok_inj, Result-cases, >>=-eq-ok}
use mathlib.Core.Path.{subst}
use beeflow.Events.Json.{Json, Error, Fields, obj, str, entries, get, get-found, value_error}
use beeflow.Events.Pydantic.{Pydantic}
use beeflow.Events.Converter.{convert, is_table, is_task_instance_event}
use beeflow.Events.Converter.TaskTypes.{expected_type, convert_to_task_instance_event_rejects}
use beeflow.Forwarders.Rows.{prepare_input}
use beeflow.Forwarders.Dms.{
  KinesisStreamRecord, EventbridgeInput, as_object, is_delete, convert_row, forward_row,
  forward_parts, to_event_bridge_event, transform_all, keep_some, Entry, to_entry, failed_events,
  Handled, push, handle_records,
}

-- The ids of the failed entries are those of inputs, one for each failure.
failed_events-length :
    (response : List Bool) (xs : List EventbridgeInput)
    → length response ≡ length xs
    → length (failed_events response xs) ≡ count (λ b. b) response
unfolding failed_events
failed_events-length [] xs h = refl
failed_events-length (b ∷ response) [] h = absurd (omega arith)
failed_events-length (true ∷ response) (x ∷ xs) h =
    omega (arith, failed_events-length response xs (omega arith))
failed_events-length (false ∷ response) (x ∷ xs) h =
    omega (arith, failed_events-length response xs (omega arith))

abbrev pub ids : List KinesisStreamRecord → List String
ids events = map (λ e. e.event_id) events

failed_events-In :
    (events : List KinesisStreamRecord) (response : List Bool) (xs : List EventbridgeInput)
    → All (λ x. In x.input.event_id (ids events)) xs
    → All (λ id. In id (ids events)) (failed_events response xs)
unfolding failed_events
failed_events-In events [] xs h = tt
failed_events-In events (b ∷ response) [] h = tt
failed_events-In events (true ∷ response) (x ∷ xs) h =
    (h.0, failed_events-In events response xs h.1)
failed_events-In events (false ∷ response) (x ∷ xs) h = failed_events-In events response xs h.1

forward_row-input :
    (p : Pydantic) (event : KinesisStreamRecord) (d md : Json) (x : EventbridgeInput)
    → forward_row p event d md ≡ ok (some x)
    → x.input ≡ event
unfolding forward_row
forward_row-input p event d md x h = ground arith

forward_parts-input :
    (p : Pydantic) (event : KinesisStreamRecord) (d md : Option Json) (x : EventbridgeInput)
    → forward_parts p event d md ≡ ok (some x)
    → x.input ≡ event
unfolding forward_parts
forward_parts-input p event none md x h = cc
forward_parts-input p event (some d) none x h = cc
forward_parts-input p event (some d) (some md) x h = forward_row-input p event d md x h

transform_all-In :
    (p : Pydantic) (events : List KinesisStreamRecord) (out : List (Option EventbridgeInput))
    → transform_all p events ≡ ok out
    → All (λ x. In x.input.event_id (ids events)) (keep_some out)
unfolding transform_all keep_some to_event_bridge_event
transform_all-In p [] out h =
    subst (λ o. All (λ x. In x.input.event_id (ids [])) (keep_some o)) (ok_inj h) tt
transform_all-In p (event ∷ events) out h =
    let (x, first, h') = >>=-eq-ok (to_event_bridge_event p event) _ h in
    let (xs, rest, h'') = >>=-eq-ok (transform_all p events) _ h' in
    let later =
      All-imp _ (λ y. In y.input.event_id (ids (event ∷ events))) (λ y m. inr m) _
        (transform_all-In p events xs rest) in
    subst (λ o. All (λ y. In y.input.event_id (ids (event ∷ events))) (keep_some o)) (ok_inj h'')
      (cons_kept x xs first later)
  where
    cons_kept :
        (x : Option EventbridgeInput) (xs : List (Option EventbridgeInput))
        → to_event_bridge_event p event ≡ ok x
        → All (λ y. In y.input.event_id (ids (event ∷ events))) (keep_some xs)
        → All (λ y. In y.input.event_id (ids (event ∷ events))) (keep_some (x ∷ xs))
    cons_kept none xs e h = h
    cons_kept (some x) xs e h = (
      inl (ap (λ (r : KinesisStreamRecord). r.event_id) (forward_parts-input p event _ _ x e)),
      h,
    )

-- `put_events` was called once, on `sent`, and the answer has as many failures as are reported; or it
-- was not called, and no failure is reported.
abbrev pub Reports : (List Entry → Result Error (List Bool)) → Handled → Type 0
Reports put_events h =
    ((h.puts ≡ []) × (h.batch_item_failures ≡ []))
    ⊎ ((sent : List Entry) × (response : List Bool) × (h.puts ≡ sent ∷ [])
        × (put_events sent ≡ ok response)
        × (length h.batch_item_failures ≡ count (λ b. b) response))

length-map {ℓ κ} :
    {A : Type ℓ} {B : Type κ} (f : A → B) (xs : List A) → length (map f xs) ≡ length xs
length-map f [] = refl
length-map f (x ∷ xs) = omega (arith, length-map f xs)

push-Reports :
    (put_events : List Entry → Result Error (List Bool)) (busname : String)
    (events : List KinesisStreamRecord) (xs : List EventbridgeInput) (h : Handled)
    → ((sent : List Entry) (response : List Bool)
        → put_events sent ≡ ok response
        → length response ≡ length sent)
    → All (λ x. In x.input.event_id (ids events)) xs
    → push put_events busname xs ≡ ok h
    → All (λ id. In id (ids events)) h.batch_item_failures × Reports put_events h
unfolding push
push-Reports put_events busname events [] h one_each inside pushed =
    subst (λ k. All (λ id. In id (ids events)) k.batch_item_failures × Reports put_events k)
      (ok_inj pushed) (tt, inl (refl, refl))
push-Reports put_events busname events (x ∷ xs) h one_each inside pushed =
    let sent = map (to_entry busname) (x ∷ xs) in
    let (response, answered, built) = >>=-eq-ok (put_events sent) _ pushed in
    let sizes : length response ≡ length (x ∷ xs) =
      one_each sent response answered ∙ length-map (to_entry busname) (x ∷ xs) in
    subst (λ k. All (λ id. In id (ids events)) k.batch_item_failures × Reports put_events k)
      (ok_inj built)
      (
        failed_events-In events response (x ∷ xs) inside,
        inr (sent, response, refl, answered, failed_events-length response (x ∷ xs) sizes),
      )

-- Whatever the handler reports as failed is a record of its batch. It calls `put_events` once, and
-- reports as many failures as the answer has; or it makes no call and reports none. The answer is
-- taken to have an entry for each entry of the call.
pub handle_records-Reports :
    (p : Pydantic) (put_events : List Entry → Result Error (List Bool)) (busname : String)
    (events : List KinesisStreamRecord) (h : Handled)
    → ((sent : List Entry) (response : List Bool)
        → put_events sent ≡ ok response
        → length response ≡ length sent)
    → handle_records p put_events busname events ≡ ok h
    → All (λ id. In id (ids events)) h.batch_item_failures × Reports put_events h
unfolding handle_records
handle_records-Reports p put_events busname events h one_each ran =
    let (out, transformed, pushed) = >>=-eq-ok (transform_all p events) _ ran in
    push-Reports put_events busname events (keep_some out) h one_each
      (transform_all-In p events out transformed) pushed

transform_all_raises :
    (p : Pydantic) (before after : List KinesisStreamRecord) (event : KinesisStreamRecord)
    {e : Error}
    → to_event_bridge_event p event ≡ err e
    → (e' : Error) × (transform_all p (before ++ event ∷ after) ≡ err e')
unfolding transform_all
transform_all_raises p [] after event {e} bad = (e, rw bad refl)
transform_all_raises p (x ∷ before) after event bad =
    let (e', raised) = transform_all_raises p before after event bad in
    elim (Result-cases (to_event_bridge_event p x)) [
      | inl (y, first) ↦ (e', rw (first, raised) refl)
      | inr (e'', first) ↦ (e'', rw first refl)
    ]

forward_row_raises :
    (p : Pydantic) (event : KinesisStreamRecord) (row metadata : Fields)
    → is_delete (lookup "operation" (entries metadata)) ≡ false
    → lookup "table-name" (entries metadata) ≡ some (str "task_instance")
    → expected_type (lookup "state" (prepare_input (entries row))) ≡ none
    → forward_row p event (obj row) (obj metadata) ≡ err value_error
unfolding forward_row as_object get convert_row convert is_task_instance_event is_table
forward_row_raises p event row metadata kept table unmapped =
    rw
      (
        kept,
        get-found "table-name" (entries metadata) table,
        convert_to_task_instance_event_rejects p (prepare_input (entries row)) unmapped,
      )
      refl

-- One row of the table task_instance, no delete, whose state has no event makes the handler raise,
-- wherever it stands in the batch; and it raises the same whatever `put_events` does, and so whatever
-- `put_events` would raise.
pub handle_records_unmapped :
    (p : Pydantic) (busname : String) (before after : List KinesisStreamRecord)
    (event : KinesisStreamRecord) (row metadata : Fields)
    → lookup "data" event.data_as_json ≡ some (obj row)
    → lookup "metadata" event.data_as_json ≡ some (obj metadata)
    → is_delete (lookup "operation" (entries metadata)) ≡ false
    → lookup "table-name" (entries metadata) ≡ some (str "task_instance")
    → expected_type (lookup "state" (prepare_input (entries row))) ≡ none
    → (e : Error) × ((put_events : List Entry → Result Error (List Bool))
        → handle_records p put_events busname (before ++ event ∷ after) ≡ err e)
unfolding handle_records to_event_bridge_event forward_parts
handle_records_unmapped p busname before after event row metadata d md kept table unmapped =
    let bad : to_event_bridge_event p event ≡ err value_error =
      rw (d, md, forward_parts) (forward_row_raises p event row metadata kept table unmapped) in
    let (e, raised) = transform_all_raises p before after event bad in
    (e, λ put_events. rw raised refl)
