-- ===== src/Events/Json.antt =====
-- The JSON values that the Lambda functions exchange, and Python's access to a dictionary of them.
use beeflow.Prelude.{
  ◌≡◌, refl, Bool, true, false, Option, none, some, List, [], ◌∷◌, String, lookup, string_eq,
}
use beeflow.Prelude.Int.{ℤ}
use beeflow.Prelude.Result.{Result, ok, err}

mutual
  pub data Json : Type 0 where
    null : Json
    bool : Bool → Json
    num : ℤ → Json
    str : String → Json
    arr : Items → Json
    obj : Fields → Json

  pub data Items : Type 0 where
    nil : Items
    cons : Json → Items → Items

  pub data Fields : Type 0 where
    end : Fields
    field : String → Json → Fields → Fields

abbrev pub Dict : Type 0
Dict = List (String × Json)

-- The entries of an object, in order.
unfoldable pub entries : Fields → Dict
entries end = []
entries (field k v fs) = (k, v) ∷ entries fs

abbrev pub is_null : Json → Bool
is_null null = true
is_null _ = false

-- `key in d`
abbrev pub is_present : Option Json → Bool
is_present none = false
is_present (some _) = true

pub data Error : Type 0 where
  key_error : String → Error
  type_error value_error validation_error : Error
  -- an exception of a service that is called
  service_error : Error

-- `d[key]`
unfoldable pub get : String → Dict → Result Error Json
get key d = elim (lookup key d) [ none ↦ err (key_error key) | some v ↦ ok v ]

pub get-found : (key : String) (d : Dict) {v : Json} → lookup key d ≡ some v → get key d ≡ ok v
unfolding get
get-found key d h = rw (h, get) refl
