-- ===== src/Permissions/Fixture.antt =====
-- JSON values enough to run the permission handlers: a list of suggestions is a value again.
use claude_code_portal.Prelude.{◌≡◌, refl, ap, List, [], ◌∷◌, Option, none, some}
use claude_code_portal.Permissions.{Suggestions}

pub data Value : Type 0 where
  nil : Value
  cons : Value → Value → Value

abbrev pub to_value : List Value → Value
to_value [] = nil
to_value (x ∷ xs) = cons x (to_value xs)

abbrev pub prepend : Value → Option (List Value) → Option (List Value)
prepend x none = none
prepend x (some xs) = some (x ∷ xs)

abbrev pub from_value : Value → Option (List Value)
from_value nil = some []
from_value (cons x v) = prepend x (from_value v)

pub from_value-to_value : (xs : List Value) → from_value (to_value xs) ≡ some xs
from_value-to_value [] = refl
from_value-to_value (x ∷ xs) = ap (prepend x) (from_value-to_value xs)

abbrev pub json : Suggestions Value
json = record {
  to_value = to_value;
  from_value = from_value;
  from_value-to_value = from_value-to_value;
}
