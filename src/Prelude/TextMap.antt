-- ===== src/Prelude/TextMap.antt =====
-- Maps with text keys as association lists, like `Assoc` for numbers.
use native.Mathlib.Omega.{arith}
use text.Mathlib.TextEquality.{eq_iff}
use text.Mathlib.Text.{◌==◌}
use Prim.Native.String.{String}
use mathlib.Core.Bool.{true}
use mathlib.Core.Option.{Option, none, some}
use mathlib.Core.List.{List, [], ◌∷◌}
use mathlib.Core.Path.{◌≡◌, refl}
use claude_code_portal.Prelude.Tests.{if◌then◌else◌}

abbrev pub remove {ℓ} : {V : Type ℓ} → String → List (String × V) → List (String × V)
remove key [] = []
remove key ((name, value) ∷ rest) =
    if name == key then remove key rest else (name, value) ∷ remove key rest

-- The value is replaced in place, or goes to the end.
abbrev pub insert {ℓ} : {V : Type ℓ} → String → V → List (String × V) → List (String × V)
insert key value [] = (key, value) ∷ []
insert key value ((name, old) ∷ rest) =
    if name == key then (key, value) ∷ rest else (name, old) ∷ insert key value rest

-- The first entry with the key.
abbrev pub lookup {ℓ} : {V : Type ℓ} → String → List (String × V) → Option V
lookup key [] = none
lookup key ((name, value) ∷ rest) = if name == key then some value else lookup key rest

module _ {ℓ} {V : Type ℓ} where
  pub lookup-insert :
      (k j : String) (v : V) (m : List (String × V))
      → lookup j (insert k v m) ≡ (if k == j then some v else lookup j m)
  lookup-insert k j v [] = refl
  lookup-insert k j v ((i, w) ∷ m) =
      ground (arith, eq_iff k j, eq_iff i k, eq_iff i j, lookup-insert k j v m)

  pub lookup-remove :
      (k j : String) (m : List (String × V))
      → lookup j (remove k m) ≡ (if k == j then none else lookup j m)
  lookup-remove k j [] = ground arith
  lookup-remove k j ((i, w) ∷ m) =
      ground (arith, eq_iff k j, eq_iff i k, eq_iff i j, lookup-remove k j m)

pub str_eq_refl : (s : String) → (s == s) ≡ true
str_eq_refl s = (eq_iff s s).1 refl
