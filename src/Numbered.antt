-- ===== src/Numbered.antt =====
-- Messages that carry consecutive sequence numbers, for the two output buffers. `entry` builds a
-- buffered message from its number and its content, and `seq` reads the number back.
use claude_code_portal.Prelude.{
  ℕ, zero, suc, ◌+◌, ◌-◌, ◌≤◌, ◌<◌, max, ◌≡◌, refl, ap, inl, inr, List, [], ◌∷◌, ◌++◌, arith, ltb,
  ltb→lt, lt→ltb, Bool-cases, length, drop, retain, drop_all,
}

module _ {C E : Type 0} (entry : ℕ → C → E) where
  abbrev pub numbered : ℕ → List C → List E
  numbered k [] = []
  numbered k (x ∷ xs) = entry k x ∷ numbered (suc k) xs

  pub length-numbered : (k : ℕ) (xs : List C) → length (numbered k xs) ≡ length xs
  length-numbered k [] = refl
  length-numbered k (x ∷ xs) = ap suc (length-numbered (suc k) xs)

  pub numbered-append :
      (k : ℕ) (xs ys : List C)
      → numbered k (xs ++ ys) ≡ numbered k xs ++ numbered (k + length xs) ys
  numbered-append k [] ys = let e : k + 0 ≡ k = omega arith in rw e refl
  numbered-append k (x ∷ xs) ys =
      let e : k + suc (length xs) ≡ suc k + length xs = omega arith in
      rw (numbered-append (suc k) xs ys, e) refl

  pub drop-numbered :
      (n k : ℕ) (xs : List C) → drop n (numbered k xs) ≡ numbered (k + n) (drop n xs)
  drop-numbered zero k xs = let e : k + 0 ≡ k = omega arith in rw e refl
  drop-numbered (suc n) k [] = refl
  drop-numbered (suc n) k (x ∷ xs) =
      let e : k + suc n ≡ suc k + n = omega arith in rw e (drop-numbered n (suc k) xs)

module _ {C E : Type 0} (entry : ℕ → C → E) (seq : E → ℕ)
    (seq-entry : (k : ℕ) (c : C) → seq (entry k c) ≡ k) where
  pub retain-numbered_all :
      (a k : ℕ) (xs : List C)
      → a < k
      → retain (λ e. ltb a (seq e)) (numbered entry k xs) ≡ numbered entry k xs
  retain-numbered_all a k [] h = refl
  retain-numbered_all a k (x ∷ xs) h =
      rw (seq-entry k x, lt→ltb a k h)
        (ap (◌∷◌ (entry k x)) (retain-numbered_all a (suc k) xs (omega arith)))

  -- Keeping the numbers above `a` cuts a numbered run at `a`.
  pub retain-numbered :
      (a k : ℕ) (xs : List C)
      → retain (λ e. ltb a (seq e)) (numbered entry k xs)
        ≡ numbered entry (max k (suc a)) (drop (suc a - k) xs)
  retain-numbered a k [] = rw (drop_all {A = C} (suc a - k) [] (omega arith))
  retain-numbered a k (x ∷ xs) = elim (Bool-cases (ltb a k)) [
    | inl above ↦
        let p : a < k = ltb→lt a k above in
        let e : max k (suc a) ≡ k = omega arith in
        let z : suc a - k ≡ 0 = omega arith in rw (e, z) (retain-numbered_all a k (x ∷ xs) p)
    | inr below ↦
        let p : k ≤ a = ground arith in
        let e : max k (suc a) ≡ max (suc k) (suc a) = omega arith in
        let z : suc a - k ≡ suc (suc a - suc k) = omega arith in
        rw (seq-entry k x, below, e, z) (retain-numbered a (suc k) xs)
  ]
