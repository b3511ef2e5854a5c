-- ===== src/Executors/Names.antt =====
-- packages/sfn/name.py (under src/python/beeflow). SHA-256 is a function of the bytes that it is fed;
-- a text is written by its code points, whose UTF-8 bytes are fed one after the other.
use Prim.Native.Char.{code}
use mathlib.Core.List.{append_assoc}
use mathlib.Core.Path.{ap₂}
use beeflow.Prelude.{
  ℕ, zero, suc, ◌+◌, ◌/◌, ◌%◌, ◌≡◌, sym, ap, ◌∙◌, List, [], ◌∷◌, ◌++◌, String, if◌then◌else◌, ltb,
}
use beeflow.Prelude.Int.{ℤ, pos, negsuc}
use beeflow.Events.Models.{TaskInstanceQueued}

abbrev pub codes : String → List ℕ
codes String.[] = []
codes (String.◌∷◌ c s) = code c ∷ codes s

-- The decimal digits of a number, with fuel for one more digit than it can have.
unfoldable pub digits_of : ℕ → ℕ → List ℕ
digits_of zero n = []
digits_of (suc fuel) n =
    let rest = digits_of fuel (n / 10) in
    if ltb n 10 then (48 + n) ∷ [] else rest ++ (48 + n % 10) ∷ []

-- `str(n)`
unfoldable pub str_of_int : ℤ → List ℕ
unfolding digits_of
str_of_int (pos n) = digits_of (suc n) n
str_of_int (negsuc n) = 45 ∷ digits_of (suc (suc n)) (suc n)

-- What the hash is fed.
unfoldable pub fed : TaskInstanceQueued → List ℕ
unfolding str_of_int
fed e =
    codes e.dag_id
    ++ (codes e.task_id
        ++ (codes e.run_id
            ++ (codes e.queued_dttm ++ (str_of_int e.map_index ++ str_of_int e.try_number))))

unfoldable pub from_ti_queued_event : (List ℕ → String) → TaskInstanceQueued → String
unfolding fed
from_ti_queued_event hexdigest e = hexdigest (fed e)

-- The parts are fed with nothing between them. So two events get one name, whatever the hash is, if
-- their run id, time, map index and try number are the same, and the DAG id and the task id are the
-- same when they are written one after the other.
pub from_ti_queued_event_collides :
    (hexdigest : List ℕ → String) (e e' : TaskInstanceQueued)
    → codes e.dag_id ++ codes e.task_id ≡ codes e'.dag_id ++ codes e'.task_id
    → e.run_id ≡ e'.run_id
    → e.queued_dttm ≡ e'.queued_dttm
    → e.map_index ≡ e'.map_index
    → e.try_number ≡ e'.try_number
    → from_ti_queued_event hexdigest e ≡ from_ti_queued_event hexdigest e'
unfolding from_ti_queued_event
from_ti_queued_event_collides hexdigest e e' ids run time index tries = ap hexdigest (
    sym (append_assoc (codes e.dag_id) (codes e.task_id) _)
    ∙ ap₂ ◌++◌ ids (
        ap₂ ◌++◌ (ap codes run)
          (ap₂ ◌++◌ (ap codes time) (ap₂ ◌++◌ (ap str_of_int index) (ap str_of_int tries))))
    ∙ append_assoc (codes e'.dag_id) (codes e'.task_id) _)
