-- ===== src/Scheduler/Callbacks/Sent.antt =====
-- Which callbacks Scheduler/Callbacks sends.
use beeflow.Prelude.{
  All, Bool, true, false, ◌≡◌, refl, ap, sym, ◌∙◌, Option, none, some, List, [], ◌∷◌, ◌++◌, inl,
  inr, Bool-cases, string_eq,
}
use beeflow.Prelude.Result.{Result, ok, ok_inj, >>=-eq-ok, ◌>>=◌}
use beeflow.Scheduler.Tables.{DagRun, DagModel, Dag}
use beeflow.Scheduler.Query.{find_dag_model}
use beeflow.Scheduler.Decisions.{DagCallbackRequest}
use beeflow.Scheduler.Callbacks.{
  Callback, dag_callback, sla_callback, CallbackError, Callbacks, sla_request, send_sla_callbacks,
  requested, send_dag_callbacks, send_for, send_all,
}

-- The requests among the callbacks that were sent.
unfoldable pub dag_requests : List Callback → List DagCallbackRequest
dag_requests [] = []
dag_requests (dag_callback request ∷ sent) = request ∷ dag_requests sent
dag_requests (sla_callback request ∷ sent) = dag_requests sent

-- The requests of the tuples whose DAG is found.
abbrev pub request_of : Option Dag → Option DagCallbackRequest → List DagCallbackRequest
request_of (some dag) (some request) = request ∷ []
request_of _ _ = []

unfoldable pub found_requests :
    Callbacks → List (DagRun × Option DagCallbackRequest) → List DagCallbackRequest
found_requests k [] = []
found_requests k ((run, callback) ∷ tuples) =
    request_of (k.get_dag run.dag_id) callback ++ found_requests k tuples

dag_requests-append :
    (xs ys : List Callback) → dag_requests (xs ++ ys) ≡ dag_requests xs ++ dag_requests ys
unfolding dag_requests
dag_requests-append [] ys = refl
dag_requests-append (dag_callback r ∷ xs) ys = ap (λ rs. r ∷ rs) (dag_requests-append xs ys)
dag_requests-append (sla_callback r ∷ xs) ys = dag_requests-append xs ys

sla_request-none :
    (dag : Dag) (model : Option DagModel) (sent : List Callback)
    → sla_request dag model ≡ ok sent
    → dag_requests sent ≡ []
unfolding sla_request dag_requests
sla_request-none dag none sent h = cc
sla_request-none dag (some model) sent h = ap dag_requests (sym (ok_inj h))

send_sla_callbacks-none :
    (k : Callbacks) (models : List DagModel) (dag : Dag) (sent : List Callback)
    → send_sla_callbacks k models dag ≡ ok sent
    → dag_requests sent ≡ []
unfolding send_sla_callbacks dag_requests
send_sla_callbacks-none k models dag sent h =
    let skipped : ◌≡◌ {A = Result CallbackError (List Callback)} (ok []) (ok sent)
        → dag_requests sent ≡ [] =
      λ e. ap dag_requests (sym (ok_inj e)) in
    elim (Bool-cases k.check_slas) [
      | inr f ↦ skipped (rw f at h)
      | inl t ↦ elim (Bool-cases (k.has_sla dag)) [
        | inr f ↦ skipped (rw (t, f) at h)
        | inl t2 ↦ elim (Bool-cases (k.is_periodic dag)) [
          | inr f ↦ skipped (rw (t, t2, f) at h)
          | inl t3 ↦
              sla_request-none dag (find_dag_model models dag.dag_id) sent (rw (t, t2, t3) at h)
        ]
      ]
    ]

its_request :
    (dag : Dag) (callback : Option DagCallbackRequest)
    → dag_requests (requested callback) ≡ request_of (some dag) callback
unfolding dag_requests
its_request dag none = refl
its_request dag (some request) = refl

send_for-requests :
    (k : Callbacks) (models : List DagModel) (found : Option Dag)
    (callback : Option DagCallbackRequest) (sent : List Callback)
    → send_for k models found callback ≡ ok sent
    → dag_requests sent ≡ request_of found callback
unfolding send_for send_dag_callbacks dag_requests
send_for-requests k models none callback sent h = ap dag_requests (sym (ok_inj h))
send_for-requests k models (some dag) callback sent h =
    let (slas, first, last) =
      >>=-eq-ok (send_sla_callbacks k models dag)
        (λ (slas : List Callback). ok (slas ++ requested callback)) h in
    ap dag_requests (sym (ok_inj last))
    ∙ dag_requests-append slas (requested callback)
    ∙ ap (λ l. l ++ dag_requests (requested callback))
        (send_sla_callbacks-none k models dag slas first)
    ∙ its_request dag callback

send_all-sent :
    (k : Callbacks) (models : List DagModel) (tuples : List (DagRun × Option DagCallbackRequest))
    (sent : List Callback)
    → send_all k models tuples ≡ ok sent
    → dag_requests sent ≡ found_requests k tuples
unfolding send_all found_requests dag_requests
send_all-sent k models [] sent h = ap dag_requests (sym (ok_inj h))
send_all-sent k models ((run, callback) ∷ tuples) sent h =
    let found = k.get_dag run.dag_id in
    let (first, here, after) =
      >>=-eq-ok (send_for k models found callback)
        (λ first. send_all k models tuples >>= λ (rest : List Callback). ok (first ++ rest)) h in
    let (rest, there, last) =
      >>=-eq-ok (send_all k models tuples) (λ (rest : List Callback). ok (first ++ rest)) after in
    ap dag_requests (sym (ok_inj last))
    ∙ dag_requests-append first rest
    ∙ ap (λ l. l ++ dag_requests rest) (send_for-requests k models found callback first here)
    ∙ ap (λ l. request_of found callback ++ l) (send_all-sent k models tuples rest there)

abbrev pub is_there : Option DagModel → Bool
is_there none = false
is_there (some model) = true

-- The DAG that is found has a model.
abbrev pub has_model : List DagModel → Option Dag → Bool
has_model models none = true
has_model models (some dag) = is_there (find_dag_model models dag.dag_id)

sla_request_total :
    (dag : Dag) (model : Option DagModel)
    → is_there model ≡ true
    → (sent : List Callback) × (sla_request dag model ≡ ok sent)
unfolding sla_request
sla_request_total dag none h = cc
sla_request_total dag (some model) h = (_, refl)

send_sla_callbacks_total :
    (k : Callbacks) (models : List DagModel) (dag : Dag)
    → has_model models (some dag) ≡ true
    → (sent : List Callback) × (send_sla_callbacks k models dag ≡ ok sent)
unfolding send_sla_callbacks
send_sla_callbacks_total k models dag h = elim (Bool-cases k.check_slas) [
  | inr f ↦ ([], rw f refl)
  | inl t ↦ elim (Bool-cases (k.has_sla dag)) [
    | inr f ↦ ([], rw (t, f) refl)
    | inl t2 ↦ elim (Bool-cases (k.is_periodic dag)) [
      | inr f ↦ ([], rw (t, t2, f) refl)
      | inl t3 ↦
          let (sent, ran) = sla_request_total dag (find_dag_model models dag.dag_id) h in
          (sent, rw (t, t2, t3) ran)
    ]
  ]
]

send_for_total :
    (k : Callbacks) (models : List DagModel) (found : Option Dag)
    (callback : Option DagCallbackRequest)
    → has_model models found ≡ true
    → (sent : List Callback) × (send_for k models found callback ≡ ok sent)
unfolding send_for send_dag_callbacks
send_for_total k models none callback h = ([], refl)
send_for_total k models (some dag) callback h =
    let (slas, ran) = send_sla_callbacks_total k models dag h in
    (slas ++ requested callback, rw ran refl)

send_all_total :
    (k : Callbacks) (models : List DagModel) (tuples : List (DagRun × Option DagCallbackRequest))
    → All
        (λ (t : DagRun × Option DagCallbackRequest). has_model models (k.get_dag t.0.dag_id) ≡ true)
        tuples
    → (sent : List Callback) × (send_all k models tuples ≡ ok sent)
unfolding send_all
send_all_total k models [] h = ([], refl)
send_all_total k models ((run, callback) ∷ tuples) h =
    let (first, here) = send_for_total k models (k.get_dag run.dag_id) callback h.0 in
    let (rest, there) = send_all_total k models tuples h.1 in (first ++ rest, rw (here, there) refl)

-- Where each of the DAGs that is found has a model, the loop over the callbacks returns, and it has sent
-- the requests of the runs whose DAG is found, each once and in the order of the runs, and between them
-- only requests to check SLAs.
pub send_all-requests :
    (k : Callbacks) (models : List DagModel) (tuples : List (DagRun × Option DagCallbackRequest))
    → All
        (λ (t : DagRun × Option DagCallbackRequest). has_model models (k.get_dag t.0.dag_id) ≡ true)
        tuples
    → (sent : List Callback) × (send_all k models tuples ≡ ok sent)
      × (dag_requests sent ≡ found_requests k tuples)
send_all-requests k models tuples h =
    let (sent, ran) = send_all_total k models tuples h in
    (sent, ran, send_all-sent k models tuples sent ran)
