-- ===== src/Prelude/Lists.antt =====
-- Lists measured and indexed by native numbers, under the library's names, and `Vec::retain`.
use Prim.Native.Nat.{ℕ, zero, suc, ◌+◌, ◌-◌, ◌≤◌}
use mathlib.Core.Path.{◌≡◌, refl, sym, ap}
use mathlib.Core.Logic.{inl, inr}
use mathlib.Core.Bool.{Bool, true, false}
use mathlib.Core.List.{List, [], ◌∷◌, ◌++◌, map}
use mathlib.Core.Option.{Option, none, some}
use native.Mathlib.Omega.{arith}
use claude_code_portal.Prelude.Tests.{if◌then◌else◌, ltb, leb, ltb→lt, Bool-cases}

module _ {ℓ} {A : Type ℓ} where
  abbrev pub length : List A → ℕ
  length [] = 0
  length (x ∷ xs) = suc (length xs)

  abbrev pub drop : ℕ → List A → List A
  drop zero xs = xs
  drop (suc n) [] = []
  drop (suc n) (x ∷ xs) = drop n xs

  abbrev pub take : ℕ → List A → List A
  take zero xs = []
  take (suc n) [] = []
  take (suc n) (x ∷ xs) = x ∷ take n xs

  abbrev pub get_elem? : List A → ℕ → Option A
  get_elem? [] i = none
  get_elem? (x ∷ xs) zero = some x
  get_elem? (x ∷ xs) (suc i) = get_elem? xs i

  -- `Vec::retain` and `Iterator::filter`.
  abbrev pub retain : (A → Bool) → List A → List A
  retain p [] = []
  retain p (x ∷ xs) = if p x then x ∷ retain p xs else retain p xs

  -- `Iterator::find`.
  abbrev pub find : (A → Bool) → List A → Option A
  find p [] = none
  find p (x ∷ xs) = if p x then some x else find p xs

  abbrev pub any : (A → Bool) → List A → Bool
  any p [] = false
  any p (x ∷ xs) = if p x then true else any p xs

  -- `ORDER BY key ASC`; rows with the same key keep the table's order.
  abbrev pub put_in_order : (A → ℕ) → A → List A → List A
  put_in_order key x [] = x ∷ []
  put_in_order key x (y ∷ ys) = elim (leb (key x) (key y)) [
    | true ↦ x ∷ y ∷ ys
    | false ↦ y ∷ put_in_order key x ys
  ]

  abbrev pub order_by : (A → ℕ) → List A → List A
  order_by key [] = []
  order_by key (x ∷ xs) = put_in_order key x (order_by key xs)

  -- `while len > n { pop_front() }`, for a deque whose front is the head.
  abbrev pub trim_front : ℕ → List A → List A
  trim_front n [] = []
  trim_front n (x ∷ xs) = if ltb n (suc (length xs)) then trim_front n xs else x ∷ xs

module _ {ℓ} {A : Type ℓ} where
  pub length-append : (xs ys : List A) → length (xs ++ ys) ≡ length xs + length ys
  length-append [] ys = omega arith
  length-append (x ∷ xs) ys = omega (arith, length-append xs ys)

  pub length-drop : (n : ℕ) (xs : List A) → length (drop n xs) ≡ length xs - n
  length-drop zero xs = omega arith
  length-drop (suc n) [] = omega arith
  length-drop (suc n) (x ∷ xs) = omega (arith, length-drop n xs)

  pub drop-append : (n : ℕ) (xs ys : List A) → n ≤ length xs → drop n (xs ++ ys) ≡ drop n xs ++ ys
  drop-append zero xs ys h = refl
  drop-append (suc n) [] ys h = absurd (omega arith)
  drop-append (suc n) (x ∷ xs) ys h = drop-append n xs ys (omega arith)

  pub drop_all : (n : ℕ) (xs : List A) → length xs ≤ n → drop n xs ≡ []
  drop_all zero [] h = refl
  drop_all (suc n) [] h = refl
  drop_all zero (x ∷ xs) h = absurd (omega arith)
  drop_all (suc n) (x ∷ xs) h = drop_all n xs (omega arith)

  pub drop-drop : (m n : ℕ) (xs : List A) → drop m (drop n xs) ≡ drop (n + m) xs
  drop-drop m zero xs = ap (λ k. drop k xs) (omega arith)
  drop-drop zero (suc n) [] = ground arith
  drop-drop (suc m) (suc n) [] = sym (drop_all (suc n + suc m) [] (omega arith))
  drop-drop m (suc n) (x ∷ xs) =
      let e : suc n + m ≡ suc (n + m) = omega arith in rw e (drop-drop m n xs)

  pub length-retain-le : (p : A → Bool) (xs : List A) → length (retain p xs) ≤ length xs
  length-retain-le p [] = omega arith
  length-retain-le p (x ∷ xs) = ground (arith, length-retain-le p xs)

  -- The loop drops exactly the surplus.
  pub trim_front-eq-drop : (n : ℕ) (xs : List A) → trim_front n xs ≡ drop (length xs - n) xs
  trim_front-eq-drop n [] = ground arith
  trim_front-eq-drop n (x ∷ xs) = elim (Bool-cases (ltb n (suc (length xs)))) [
    | inl more ↦
        let e : suc (length xs) - n ≡ suc (length xs - n) = omega (arith, ltb→lt n _ more) in
        rw (more, e) (trim_front-eq-drop n xs)
    | inr fits ↦ let e : suc (length xs) - n ≡ 0 = ground arith in rw (fits, e)
  ]

  pub length-trim_front-le : (n : ℕ) (xs : List A) → length (trim_front n xs) ≤ n
  length-trim_front-le n [] = omega arith
  length-trim_front-le n (x ∷ xs) = ground (arith, length-trim_front-le n xs)

pub length-map {ℓ κ} :
    {A : Type ℓ} {B : Type κ} (f : A → B) (xs : List A) → length (map f xs) ≡ length xs
length-map f [] = refl
length-map f (x ∷ xs) = ap suc (length-map f xs)
