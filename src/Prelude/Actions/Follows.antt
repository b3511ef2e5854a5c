-- ===== src/Prelude/Actions/Follows.antt =====
-- Which calls of services an action makes.
use mathlib.Core.List.{append_assoc, append-nil}
use mathlib.Core.Path.{◌≡◌, refl, sym, ap, ◌∙◌}
use mathlib.Core.List.{List, [], ◌∷◌, ◌++◌, map}
use beeflow.Prelude.Result.{Result, ok, err}
use beeflow.Prelude.Actions.{Action, pass, continue_with, and_then, for_each, try_action}

-- What calls an action has made when it ends: all of a list, or those up to the one that raised.
abbrev pub Made : {C E : Type 0} → List C → List C → Result E (Unit {0}) → List C → Type 0
Made calls before (ok _) after = after ≡ before ++ calls
Made {C} calls before (err _) after =
    (done : List C) × (rest : List C) × (calls ≡ done ++ rest) × (after ≡ before ++ done)

-- A service that records each of its calls, whether it raises or not.
abbrev pub Records : {C S E : Type 0} → (S → List C) → (C → Action S E) → Type 0
Records {C} {S} log services = (call : C) (s : S) → log (services call s).1 ≡ log s ++ call ∷ []

Made-after :
    {C E : Type 0} (r : Result E (Unit {0})) (calls calls' before between after : List C)
    → between ≡ before ++ calls
    → Made calls' between r after
    → Made (calls ++ calls') before r after
Made-after (ok u) calls calls' before between after h m =
    m ∙ ap (λ xs. xs ++ calls') h ∙ append_assoc before calls calls'
Made-after (err e) calls calls' before between after h (done, rest, split, m) = (
  calls ++ done,
  rest,
  ap (λ xs. calls ++ xs) split ∙ sym (append_assoc calls done rest),
  m ∙ ap (λ xs. xs ++ done) h ∙ append_assoc before calls done,
)

module _ {C S E : Type 0} (log : S → List C) where
  -- Whatever the state, the action makes calls of the list.
  pub record Follows (act : Action S E) (calls : List C) : Type 0 where
    pub made : (s : S) → Made calls (log s) (act s).0 (log (act s).1)

  -- The second action's calls may depend on the state that the first one leaves.
  pub continue-Made :
      (next : Action S E) (calls calls' before : List C) (r : Result E (Unit {0}) × S)
      → Made calls' (log r.1) (next r.1).0 (log (next r.1).1)
      → Made calls before r.0 (log r.1)
      → Made (calls ++ calls') before (continue_with next r).0 (log (continue_with next r).1)
  unfolding continue_with
  continue-Made next calls calls' before (ok u, s) after h =
      Made-after (next s).0 calls calls' before (log s) (log (next s).1) h after
  continue-Made next calls calls' before (err e, s) after (done, rest, split, made) =
      (done, rest ++ calls', ap (λ xs. xs ++ calls') split ∙ append_assoc done rest calls', made)

  pub pass-Follows : Follows pass []
  pass-Follows = record { made = λ s. sym (append-nil (log s)) }

  pub and_then-Follows :
      (first next : Action S E) (calls calls' : List C)
      → Follows first calls
      → Follows next calls'
      → Follows (and_then first next) (calls ++ calls')
  unfolding and_then
  and_then-Follows first next calls calls' f g = record {
    made = λ s. continue-Made next calls calls' (log s) (first s) (g.made (first s).1) (f.made s);
  }

  pub for_each-Follows :
      {A : Type 0} (act : A → Action S E) (call : A → C) (xs : List A)
      → ((x : A) → Follows (act x) (call x ∷ []))
      → Follows (for_each act xs) (map call xs)
  unfolding for_each
  for_each-Follows act call [] f = pass-Follows
  for_each-Follows act call (x ∷ xs) f =
      and_then-Follows (act x) (for_each act xs) (call x ∷ []) (map call xs) (f x)
        (for_each-Follows act call xs f)

  call-Made :
      (call : C) (before after : List C) (r : Result E (Unit {0}))
      → after ≡ before ++ call ∷ []
      → Made (call ∷ []) before r after
  call-Made call before after (ok u) h = h
  call-Made call before after (err e) h = (call ∷ [], [], refl, h)

  module _ (services : C → Action S E) (records : Records log services) where
    pub call-Follows : (call : C) → Follows (services call) (call ∷ [])
    call-Follows call = record {
      made = λ s.
          call-Made call (log s) (log (services call s).1) (services call s).0 (records call s);
    }

    pub try-Follows : (call : C) → Follows (try_action (services call)) (call ∷ [])
    unfolding try_action
    try-Follows call = record { made = λ s. records call s }

    pub calls-Follows :
        {A : Type 0} (call : A → C) (xs : List A)
        → Follows (for_each (λ x. services (call x)) xs) (map call xs)
    calls-Follows call xs = for_each-Follows _ call xs (λ x. call-Follows (call x))

    pub one-Follows :
        (call : C) (next : Action S E) (calls : List C)
        → Follows next calls
        → Follows (and_then (services call) next) (call ∷ calls)
    one-Follows call next calls f = and_then-Follows _ next (call ∷ []) calls (call-Follows call) f
