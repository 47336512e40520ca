-- ===== src/ProxySocket/Inputs.antt =====
-- The inputs that are replayed after an acknowledgement.
use claude_code_portal.Prelude.{
  ℕ, ◌≡◌, ◌≢◌, refl, Bool-cases, inl, inr, put_in_order, order_by, true, false, not, ◌&&◌, List, [],
  ◌∷◌, some, leb, ◌==◌, ==_refl, retain, arith,
}
use claude_code_portal.MessageHandlers.{PendingInput}
use claude_code_portal.ProxySocket.{inputs_for, inputs_of, handle_input_ack}

put_in_order-not_empty :
    (i : PendingInput) (rows : List PendingInput) → put_in_order (λ j. j.seq_num) i rows ≢ []
put_in_order-not_empty i [] e = cc
put_in_order-not_empty i (j ∷ rows) e = elim (Bool-cases (leb i.seq_num j.seq_num)) [
  | inl le ↦ (let f = rw (le, put_in_order) at e in cc)
  | inr gt ↦ (let f = rw (gt, put_in_order) at e in cc)
]

order_by-empty : (rows : List PendingInput) → order_by (λ i. i.seq_num) rows ≡ [] → rows ≡ []
order_by-empty [] e = refl
order_by-empty (i ∷ rows) e = absurd (put_in_order-not_empty i (order_by (λ j. j.seq_num) rows) e)

-- No row is had exactly when no row is there.
pub inputs_of-empty :
    (session : ℕ) (rows : List (ℕ × PendingInput))
    → inputs_of session rows ≡ []
    → inputs_for session rows ≡ []
inputs_of-empty session rows e = order_by-empty (inputs_for session rows) e

pub inputs_for-acked :
    (session n : ℕ) (rows : List (ℕ × PendingInput))
    → inputs_for session (retain (λ r. not ((r.0 == session) && leb r.1.seq_num n)) rows)
      ≡ retain (λ i. not (leb i.seq_num n)) (inputs_for session rows)
inputs_for-acked session n [] = refl
inputs_for-acked session n ((k, i) ∷ rows) = ground (arith, inputs_for-acked session n rows)

inputs_for-other :
    (session other n : ℕ) (rows : List (ℕ × PendingInput))
    → (other == session) ≡ false
    → inputs_for other (retain (λ r. not ((r.0 == session) && leb r.1.seq_num n)) rows)
      ≡ inputs_for other rows
inputs_for-other session other n [] e = refl
inputs_for-other session other n ((k, i) ∷ rows) e =
    ground (arith, e, inputs_for-other session other n rows)

-- An acknowledgement of a session's own input leaves of its inputs exactly those above the number, in
-- the table's order, and all of the other sessions; one that names another session changes nothing.
pub handle_input_ack-inputs_for :
    (rows : List (ℕ × PendingInput)) (session other n : ℕ)
    → (other == session) ≡ false
    → let rows' = handle_input_ack rows (some session) true session n in
      (inputs_for session rows' ≡ retain (λ i. not (leb i.seq_num n)) (inputs_for session rows))
      × (inputs_for other rows' ≡ inputs_for other rows)
      × (handle_input_ack rows (some session) true other n ≡ rows)
unfolding handle_input_ack
handle_input_ack-inputs_for rows session other n e =
    rw (==_refl session, e)
      (inputs_for-acked session n rows, inputs_for-other session other n rows e, refl)
