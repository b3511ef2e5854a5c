-- ===== src/Events/Pydantic.antt =====
-- What the event models take from pydantic: the coercion of a value to a field's type, which raises a
-- ValidationError where there is none.
use beeflow.Prelude.{◌≡◌, Bool, String}
use beeflow.Prelude.Int.{ℤ}
use beeflow.Prelude.Result.{Result, ok}
use beeflow.Events.Json.{Json, Error, str, num, bool}

pub record Pydantic : Type 0 where
  pub as_str : Json → Result Error String
  pub as_int : Json → Result Error ℤ
  pub as_bool : Json → Result Error Bool

-- A value that has the field's type already is taken as it is.
pub record IsExact (p : Pydantic) : Type 0 where
  pub str_exact : (s : String) → p.as_str (str s) ≡ ok s
  pub int_exact : (n : ℤ) → p.as_int (num n) ≡ ok n
  pub bool_exact : (b : Bool) → p.as_bool (bool b) ≡ ok b
