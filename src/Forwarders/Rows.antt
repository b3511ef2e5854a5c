-- ===== src/Forwarders/Rows.antt =====
-- `prepare_input` of lambdas/dms_cdc_forwarder/dms_cdc_forwarder.py (under src/python/beeflow): the
-- texts of the replication service that stand for booleans and for None.
use Prim.Native.Char.{code}
use beeflow.Prelude.{
  ℕ, ◌+◌, ◌≡◌, refl, Bool, true, false, ◌&&◌, ◌||◌, [], ◌∷◌, String, if◌then◌else◌, ◌==◌, string_eq,
  nat_beq, leb, lookup, arith, Bool-cases, inl, inr,
}
use mathlib.Core.Option
use beeflow.Events.Json.{Json, Dict, null, bool, str}

-- `str.lower` at one code point, for the letters of the texts below.
unfoldable pub to_lower : ℕ → ℕ
to_lower c = if leb 65 c && leb c 90 then c + 32 else c

-- `value.lower() == name`, for a `name` in lower case.
unfoldable pub lowers_to : String → String → Bool
unfolding to_lower
lowers_to String.[] String.[] = true
lowers_to (String.◌∷◌ c s) (String.◌∷◌ d t) = nat_beq (to_lower (code c)) (code d) && lowers_to s t
lowers_to _ _ = false

unfoldable pub is_none_text : String → Bool
unfolding lowers_to
is_none_text s =
    lowers_to s "none"
    || lowers_to s "nonetype"
    || lowers_to s "none_type"
    || lowers_to s "null"
    || lowers_to s "nil"

unfoldable pub prepare_value : Json → Json
unfolding is_none_text
prepare_value (str s) =
    if s == "f"
    then bool false
    else if s == "t"
    then bool true
    else if is_none_text s
    then null
    else str s
prepare_value v = v

unfoldable pub prepare_input : Dict → Dict
unfolding prepare_value
prepare_input [] = []
prepare_input ((k, v) ∷ m) = (k, prepare_value v) ∷ prepare_input m

prepare_value_idem : (v : Json) → prepare_value (prepare_value v) ≡ prepare_value v
unfolding prepare_value
prepare_value_idem (str s) = ground arith
prepare_value_idem _ = refl

-- Every key keeps its place and its value is prepared, and a second pass changes nothing.
pub prepare_input_lem :
    (m : Dict) (k : String)
    → (lookup k (prepare_input m) ≡ Option.map prepare_value (lookup k m))
      × (prepare_input (prepare_input m) ≡ prepare_input m)
unfolding prepare_input lookup
prepare_input_lem [] k = (refl, refl)
prepare_input_lem ((j, v) ∷ m) k =
    let rest = prepare_input_lem m k in
    (
      elim (Bool-cases (j == k)) [ inl t ↦ rw t refl | inr f ↦ rw f rest.0 ],
      cc (prepare_value_idem v, rest.1),
    )
