-- ===== src/Retention/Ordered.antt =====
-- `ORDER BY` and a filter change places, and the oldest rows are cut off by their ids.
use claude_code_portal.Prelude.{
  ℕ, zero, suc, ◌≤◌, ◌≡◌, refl, sym, ap, ◌∙◌, Bool, true, false, not, List, [], ◌∷◌, map, arith,
  leb, leb→le, ◌==◌, if◌then◌else◌, Bool-cases, inl, inr, length, retain, any, take, drop,
  put_in_order, order_by,
}

module _ {ℓ} {A : Type ℓ} (key : A → ℕ) where
  abbrev AtLeast : ℕ → List A → Type 0
  AtLeast n [] = Unit {0}
  AtLeast n (x ∷ xs) = (n ≤ key x) × AtLeast n xs

  abbrev IsOrdered : List A → Type 0
  IsOrdered [] = Unit {0}
  IsOrdered (x ∷ xs) = AtLeast (key x) xs × IsOrdered xs

  AtLeast-le : (m n : ℕ) (xs : List A) → m ≤ n → AtLeast n xs → AtLeast m xs
  AtLeast-le m n [] h a = tt
  AtLeast-le m n (x ∷ xs) h a = (omega (arith, a.0), AtLeast-le m n xs h a.1)

  AtLeast-put :
      (n : ℕ) (x : A) (xs : List A) → n ≤ key x → AtLeast n xs → AtLeast n (put_in_order key x xs)
  AtLeast-put n x [] h a = (h, tt)
  AtLeast-put n x (y ∷ ys) h a = ground (arith, AtLeast-put n x ys h a.1)

  put_in_order-IsOrdered : (x : A) (xs : List A) → IsOrdered xs → IsOrdered (put_in_order key x xs)
  put_in_order-IsOrdered x [] o = (tt, tt)
  put_in_order-IsOrdered x (y ∷ ys) o = elim (Bool-cases (leb (key x) (key y))) [
    | inl first ↦
        let le = leb→le (key x) (key y) first in
        rw (first, put_in_order) ((le, AtLeast-le (key x) (key y) ys le o.0), o)
    | inr later ↦
        let le : key y ≤ key x = ground arith in
        rw (later, put_in_order) (AtLeast-put (key y) x ys le o.0, put_in_order-IsOrdered x ys o.1)
  ]

  order_by-IsOrdered : (xs : List A) → IsOrdered (order_by key xs)
  order_by-IsOrdered [] = tt
  order_by-IsOrdered (x ∷ xs) = put_in_order-IsOrdered x (order_by key xs) (order_by-IsOrdered xs)

  put_in_order_first : (x : A) (xs : List A) → AtLeast (key x) xs → put_in_order key x xs ≡ x ∷ xs
  put_in_order_first x [] a = refl
  put_in_order_first x (y ∷ ys) a = ground (arith, a.0)

  AtLeast-retain : (p : A → Bool) (n : ℕ) (xs : List A) → AtLeast n xs → AtLeast n (retain p xs)
  AtLeast-retain p n [] a = tt
  AtLeast-retain p n (x ∷ xs) a = ground (arith, AtLeast-retain p n xs a.1)

  put_first :
      (x y : A) (ys : List A)
      → leb (key x) (key y) ≡ true
      → put_in_order key x (y ∷ ys) ≡ x ∷ y ∷ ys
  put_first x y ys h = ground (arith, h)

  put_in_order-retain :
      (p : A → Bool) (x : A) (xs : List A)
      → IsOrdered xs
      → p x ≡ true
      → retain p (put_in_order key x xs) ≡ put_in_order key x (retain p xs)
  put_in_order-retain p x [] o h = rw h refl
  put_in_order-retain p x (y ∷ ys) o h = elim (Bool-cases (leb (key x) (key y))) [
    | inl first ↦
        let le = leb→le (key x) (key y) first in
        let least = AtLeast-le (key x) (key y) ys le o.0 in
        ap (retain p) (put_first x y ys first)
        ∙ ap (λ b. if b then x ∷ retain p (y ∷ ys) else retain p (y ∷ ys)) h
        ∙ sym (
            put_in_order_first x (retain p (y ∷ ys))
              (AtLeast-retain p (key x) (y ∷ ys) (le, least)))
    | inr later ↦ ground (arith, later, put_in_order-retain p x ys o.1 h)
  ]

  put_in_order-retain_out :
      (p : A → Bool) (x : A) (xs : List A)
      → p x ≡ false
      → retain p (put_in_order key x xs) ≡ retain p xs
  put_in_order-retain_out p x [] h = rw h refl
  put_in_order-retain_out p x (y ∷ ys) h = ground (arith, h, put_in_order-retain_out p x ys h)

  pub order_by-retain :
      (p : A → Bool) (xs : List A) → order_by key (retain p xs) ≡ retain p (order_by key xs)
  order_by-retain p [] = refl
  order_by-retain p (x ∷ xs) = elim (Bool-cases (p x)) [
    | inl kept ↦
        ap (λ b. order_by key (if b then x ∷ retain p xs else retain p xs)) kept
        ∙ ap (put_in_order key x) (order_by-retain p xs)
        ∙ sym (put_in_order-retain p x (order_by key xs) (order_by-IsOrdered xs) kept)
    | inr out ↦
        ap (λ b. order_by key (if b then x ∷ retain p xs else retain p xs)) out
        ∙ order_by-retain p xs
        ∙ sym (put_in_order-retain_out p x (order_by key xs) out)
  ]

  length-put : (x : A) (xs : List A) → length (put_in_order key x xs) ≡ suc (length xs)
  length-put x [] = refl
  length-put x (y ∷ ys) = ground (arith, length-put x ys)

  pub length-order_by : (xs : List A) → length (order_by key xs) ≡ length xs
  length-order_by [] = refl
  length-order_by (x ∷ xs) = length-put x (order_by key xs) ∙ ap suc (length-order_by xs)

  module _ (id : A → ℕ) where
    abbrev pub Fresh : ℕ → List A → Type 0
    Fresh i [] = Unit {0}
    Fresh i (x ∷ xs) = ((id x == i) ≡ false) × Fresh i xs

    -- No two rows have the same id.
    abbrev pub IsDistinct : List A → Type 0
    IsDistinct [] = Unit {0}
    IsDistinct (x ∷ xs) = Fresh (id x) xs × IsDistinct xs

    Fresh-put :
        (i : ℕ) (x : A) (xs : List A)
        → (id x == i) ≡ false
        → Fresh i xs
        → Fresh i (put_in_order key x xs)
    Fresh-put i x [] h f = (h, tt)
    Fresh-put i x (y ∷ ys) h f = ground (arith, Fresh-put i x ys h f.1)

    put_in_order-IsDistinct :
        (x : A) (xs : List A) → Fresh (id x) xs → IsDistinct xs → IsDistinct (put_in_order key x xs)
    put_in_order-IsDistinct x [] f d = (tt, tt)
    put_in_order-IsDistinct x (y ∷ ys) f d =
        let apart : (id x == id y) ≡ false = ground (arith, f.0) in
        ground (arith, put_in_order-IsDistinct x ys f.1 d.1, Fresh-put (id y) x ys apart d.0)

    pub Fresh-order_by : (i : ℕ) (xs : List A) → Fresh i xs → Fresh i (order_by key xs)
    Fresh-order_by i [] f = tt
    Fresh-order_by i (x ∷ xs) f = Fresh-put i x (order_by key xs) f.0 (Fresh-order_by i xs f.1)

    pub order_by-IsDistinct : (xs : List A) → IsDistinct xs → IsDistinct (order_by key xs)
    order_by-IsDistinct [] d = tt
    order_by-IsDistinct (x ∷ xs) d =
        put_in_order-IsDistinct x (order_by key xs) (Fresh-order_by (id x) xs d.0)
          (order_by-IsDistinct xs d.1)

    pub Fresh-retain : (p : A → Bool) (i : ℕ) (xs : List A) → Fresh i xs → Fresh i (retain p xs)
    Fresh-retain p i [] f = tt
    Fresh-retain p i (x ∷ xs) f = ground (arith, Fresh-retain p i xs f.1)

    pub retain-IsDistinct : (p : A → Bool) (xs : List A) → IsDistinct xs → IsDistinct (retain p xs)
    retain-IsDistinct p [] d = tt
    retain-IsDistinct p (x ∷ xs) d =
        ground (arith, Fresh-retain p (id x) xs d.0, retain-IsDistinct p xs d.1)

    abbrev pub listed : List ℕ → A → Bool
    listed ids x = any (λ i. i == id x) ids

    retain_none_listed : (xs : List A) → retain (λ x. not (listed [] x)) xs ≡ xs
    retain_none_listed [] = refl
    retain_none_listed (x ∷ xs) = ap (◌∷◌ x) (retain_none_listed xs)

    retain-Fresh :
        (i : ℕ) (ids : List ℕ) (xs : List A)
        → Fresh i xs
        → retain (λ x. not (listed (i ∷ ids) x)) xs ≡ retain (λ x. not (listed ids x)) xs
    retain-Fresh i ids [] f = refl
    retain-Fresh i ids (x ∷ xs) f =
        let apart : (i == id x) ≡ false = ground (arith, f.0) in
        ground (arith, apart, retain-Fresh i ids xs f.1)

    -- Deleting the first rows by their ids leaves the others.
    pub retain-unlisted :
        (k : ℕ) (xs : List A)
        → IsDistinct xs
        → retain (λ x. not (listed (map id (take k xs)) x)) xs ≡ drop k xs
    retain-unlisted zero xs d = retain_none_listed xs
    retain-unlisted (suc k) [] d = refl
    retain-unlisted (suc k) (x ∷ xs) d =
        let ids = map id (take k xs) in
        let gone : not (listed (id x ∷ ids) x) ≡ false = ground arith in
        ap
          (λ b.
            if b
            then x ∷ retain (λ y. not (listed (id x ∷ ids) y)) xs
            else retain (λ y. not (listed (id x ∷ ids) y)) xs)
          gone
        ∙ retain-Fresh (id x) ids xs d.0
        ∙ retain-unlisted k xs d.1
