-- ===== src/ProxySocket/Shuffled.antt =====
-- What the query of backend/src/handlers/websocket/message_handlers.rs gives of a table in any order.
use mathlib.Core.List.{Permᴰ}
use mathlib.Core.List.Permᴰ.{nil, cons, swap, trans}
use claude_code_portal.Prelude.{
  ℕ, ◌≡◌, ◌≢◌, refl, sym, ap, ◌∙◌, Bool, List, [], ◌∷◌, map, inl, inr, arith, some, true, ==_refl,
  Bool-cases, retain, put_in_order, order_by,
}
use mathlib.Core.Path.{subst}
use claude_code_portal.MessageHandlers.{PendingInput}
use claude_code_portal.ProxySocket.{inputs_for, handle_input_ack}

module _ {A : Type 0} (key : A → ℕ) where
  -- No key is `k`.
  abbrev pub Away : ℕ → List A → Type 0
  Away k [] = Unit {0}
  Away k (x ∷ xs) = (key x ≢ k) × Away k xs

  -- No two keys are equal.
  abbrev pub Apart : List A → Type 0
  Apart [] = Unit {0}
  Apart (x ∷ xs) = Away (key x) xs × Apart xs

  Away-perm : {xs ys : List A} → Permᴰ xs ys → (k : ℕ) → Away k xs → Away k ys
  Away-perm nil k h = tt
  Away-perm (cons e d) k h = (subst (λ x. key x ≢ k) e h.0, Away-perm d k h.1)
  Away-perm (swap e f) k h = (subst (λ x. key x ≢ k) f h.1.0, (subst (λ x. key x ≢ k) e h.0, h.1.1))
  Away-perm (trans d e) k h = Away-perm e k (Away-perm d k h)

  Apart-perm : {xs ys : List A} → Permᴰ xs ys → Apart xs → Apart ys
  Apart-perm nil h = tt
  Apart-perm (cons {l₂ = l} e d) h =
      (subst (λ x. Away (key x) l) e (Away-perm d _ h.0), Apart-perm d h.1)
  Apart-perm (swap {l = l} e f) h = (
    (λ same. h.0.0 (ap key f ∙ sym same ∙ sym (ap key e)), subst (λ x. Away (key x) l) f h.1.0),
    (subst (λ x. Away (key x) l) e h.0.1, h.1.1),
  )
  Apart-perm (trans d e) h = Apart-perm e (Apart-perm d h)

  put-put :
      (x y : A) (zs : List A)
      → key y ≢ key x
      → put_in_order key x (put_in_order key y zs) ≡ put_in_order key y (put_in_order key x zs)
  put-put x y [] h = ground (arith, h)
  put-put x y (z ∷ zs) h = ground (arith, h, put-put x y zs h)

  -- Rows with different keys come in one order, whatever order they stand in.
  pub order_by-perm : {xs ys : List A} → Permᴰ xs ys → Apart xs → order_by key xs ≡ order_by key ys
  order_by-perm nil h = refl
  order_by-perm (cons {b = b} {l₁ = l} e d) h =
      ap (λ x. put_in_order key x (order_by key l)) e
      ∙ ap (put_in_order key b) (order_by-perm d h.1)
  order_by-perm (swap {a = a} {b = b} {a' = a'} {l = l} e f) h =
      put-put a b (order_by key l) h.0.0
      ∙ ap (λ x. put_in_order key x (put_in_order key a (order_by key l))) f
      ∙ ap (λ x. put_in_order key a' (put_in_order key x (order_by key l))) e
  order_by-perm (trans d e) h = order_by-perm d h ∙ order_by-perm e (Apart-perm d h)

perm_refl : {A : Type 0} (xs : List A) → Permᴰ xs xs
perm_refl [] = nil
perm_refl (x ∷ xs) = cons refl (perm_refl xs)

module _ {A : Type 0} (p : A → Bool) where
  retain-cons :
      (a : A) (xs ys : List A)
      → Permᴰ (retain p xs) (retain p ys)
      → Permᴰ (retain p (a ∷ xs)) (retain p (a ∷ ys))
  retain-cons a xs ys d = elim (Bool-cases (p a)) [ inl h ↦ rw h (cons refl d) | inr h ↦ rw h d ]

  retain-swap : (a b : A) (xs : List A) → Permᴰ (retain p (a ∷ b ∷ xs)) (retain p (b ∷ a ∷ xs))
  retain-swap a b xs = elim (Bool-cases (p a)) [
    | inl h ↦ elim (Bool-cases (p b)) [
      | inl g ↦ rw (h, g) (swap refl refl)
      | inr g ↦ rw (h, g) (cons refl (perm_refl (retain p xs)))
    ]
    | inr h ↦ elim (Bool-cases (p b)) [
      | inl g ↦ rw (h, g) (cons refl (perm_refl (retain p xs)))
      | inr g ↦ rw (h, g) (perm_refl (retain p xs))
    ]
  ]

  retain-perm : {xs ys : List A} → Permᴰ xs ys → Permᴰ (retain p xs) (retain p ys)
  retain-perm nil = nil
  retain-perm (cons {a = a} {l₁ = xs} {l₂ = ys} e d) =
      subst (λ x. Permᴰ (retain p (a ∷ xs)) (retain p (x ∷ ys))) e
        (retain-cons a xs ys (retain-perm d))
  retain-perm (swap {a = a} {b = b} {a' = a'} {l = xs} e f) =
      subst (λ x. Permᴰ (retain p (a ∷ b ∷ xs)) (retain p (a' ∷ x ∷ xs))) e
        (subst (λ x. Permᴰ (retain p (a ∷ b ∷ xs)) (retain p (x ∷ a ∷ xs))) f (retain-swap a b xs))
  retain-perm (trans d e) = trans (retain-perm d) (retain-perm e)

map-perm : {A B : Type 0} (f : A → B) {xs ys : List A} → Permᴰ xs ys → Permᴰ (map f xs) (map f ys)
map-perm f nil = nil
map-perm f (cons e d) = cons (ap f e) (map-perm f d)
map-perm f (swap e g) = swap (ap f e) (ap f g)
map-perm f (trans d e) = trans (map-perm f d) (map-perm f e)

-- A session's inputs after an acknowledgement, of the same rows in another order.
pub inputs_for-perm :
    (session n : ℕ) {rows table : List (ℕ × PendingInput)}
    → Permᴰ rows table
    → Permᴰ
        (inputs_for session (handle_input_ack rows (some session) true session n))
        (inputs_for session (handle_input_ack table (some session) true session n))
unfolding handle_input_ack
inputs_for-perm session n d =
    rw (==_refl session) (map-perm (λ r. r.1) (retain-perm _ (retain-perm _ d)))
