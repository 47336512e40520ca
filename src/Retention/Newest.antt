-- ===== src/Retention/Newest.antt =====
-- Truncating a session keeps its newest messages and leaves the other sessions alone.
use mathlib.Core.Path.{subst}
use claude_code_portal.Prelude.{
  ℕ, zero, suc, ◌-◌, ◌≡◌, ◌⊎◌, refl, sym, ap, ◌∙◌, Bool, true, false, not, List, [], ◌∷◌, map,
  arith, leb, leb→le, ◌==◌, Bool-cases, inl, inr, length, retain, any, take, drop, order_by,
}
use claude_code_portal.Retention.{
  RetentionConfig, Message, Statements, rows_of, is_in, ids_to_delete, delete_ids,
  truncate_session_messages,
}
use claude_code_portal.Retention.Ordered.{
  Fresh, IsDistinct, listed, order_by-retain, order_by-IsDistinct, retain-IsDistinct,
  retain-unlisted, Fresh-order_by, Fresh-retain,
}

abbrev pub time : Message → ℕ
time r = r.created_at

abbrev pub id_of : Message → ℕ
id_of r = r.id

-- A session's messages, oldest first.
abbrev pub history : ℕ → List Message → List Message
history session rows = order_by time (rows_of session rows)

-- The ids are a primary key.
abbrev pub HasUniqueIds : List Message → Type 0
HasUniqueIds rows = IsDistinct time id_of rows

abbrev pub succeeds : Statements
succeeds = record { counts = true; loads = true; deletes = true }

rows_of-retain :
    (session : ℕ) (p : Message → Bool) (rows : List Message)
    → rows_of session (retain p rows) ≡ retain p (rows_of session rows)
rows_of-retain session p [] = refl
rows_of-retain session p (r ∷ rows) = ground (arith, rows_of-retain session p rows)

-- No row of another session has an id of one of `ys`.
abbrev Apart : ℕ → List Message → List Message → Type 0
Apart session ys [] = Unit {0}
Apart session ys (r ∷ rows) =
    (((r.session_id == session) ≡ true) ⊎ Fresh time id_of r.id ys) × Apart session ys rows

Apart-cons :
    (session : ℕ) (x : Message) (ys rows : List Message)
    → Fresh time id_of x.id rows
    → Apart session ys rows
    → Apart session (x ∷ ys) rows
Apart-cons session x ys [] f a = tt
Apart-cons session x ys (r ∷ rows) f (inl own, a) = (inl own, Apart-cons session x ys rows f.1 a)
Apart-cons session x ys (r ∷ rows) f (inr fresh, a) =
    (inr (ground (arith, f.0), fresh), Apart-cons session x ys rows f.1 a)

rows_of_own :
    (session : ℕ) (r : Message) (rows : List Message)
    → (r.session_id == session) ≡ true
    → rows_of session (r ∷ rows) ≡ r ∷ rows_of session rows
rows_of_own session r rows own = ground (arith, own)

rows_of_other :
    (session : ℕ) (r : Message) (rows : List Message)
    → (r.session_id == session) ≡ false
    → rows_of session (r ∷ rows) ≡ rows_of session rows
rows_of_other session r rows other = ground (arith, other)

retain_all : (rows : List Message) → retain (λ r. not (is_in [] r)) rows ≡ rows
retain_all [] = refl
retain_all (r ∷ rows) = ap (◌∷◌ r) (retain_all rows)

Apart-rows_of :
    (session : ℕ) (rows : List Message)
    → HasUniqueIds rows
    → Apart session (rows_of session rows) rows
Apart-rows_of session [] d = tt
Apart-rows_of session (r ∷ rows) d = elim (Bool-cases (r.session_id == session)) [
  | inl own ↦
      subst (λ ys. Apart session ys (r ∷ rows)) (sym (rows_of_own session r rows own))
        (
          inl own,
          Apart-cons session r (rows_of session rows) rows d.0 (Apart-rows_of session rows d.1),
        )
  | inr other ↦
      subst (λ ys. Apart session ys (r ∷ rows)) (sym (rows_of_other session r rows other))
        (
          inr (Fresh-retain time id_of (λ m. m.session_id == session) r.id rows d.0),
          Apart-rows_of session rows d.1,
        )
]

not_listed :
    (i k : ℕ) (ys : List Message)
    → Fresh time id_of i ys
    → any (λ j. j == i) (map id_of (take k ys)) ≡ false
not_listed i zero ys f = refl
not_listed i (suc k) [] f = refl
not_listed i (suc k) (y ∷ ys) f = ground (arith, f.0, not_listed i k ys f.1)

rows_of-Apart :
    (session other k : ℕ) (ys rows : List Message)
    → (session == other) ≡ false
    → Apart session ys rows
    → rows_of other
        (retain (λ r. not (listed time id_of (map id_of (take k (order_by time ys))) r)) rows)
      ≡ rows_of other rows
rows_of-Apart session other k ys [] e a = refl
rows_of-Apart session other k ys (r ∷ rows) e (inl own, a) =
    let differs : (r.session_id == other) ≡ false = ground (arith, own, e) in
    ground (arith, differs, rows_of-Apart session other k ys rows e a)
rows_of-Apart session other k ys (r ∷ rows) e (inr fresh, a) = ground (
  arith,
  not_listed r.id k (order_by time ys) (Fresh-order_by time id_of r.id ys fresh),
  rows_of-Apart session other k ys rows e a,
)

delete_ids_rows :
    (rows : List Message) (ids : List ℕ)
    → (delete_ids rows true ids).0 ≡ retain (λ r. not (is_in ids r)) rows
unfolding delete_ids
delete_ids_rows rows [] = sym (retain_all rows)
delete_ids_rows rows (i ∷ ids) = refl

-- With the rows' ids unique and every statement successful, truncating a session leaves the newest of its
-- messages, as many as the limit allows, all of them if they are no more than that, and every message
-- of another session.
pub truncate_session_messages_newest :
    (rows : List Message) (session other : ℕ) (config : RetentionConfig)
    → HasUniqueIds rows
    → (session == other) ≡ false
    → let rows' = (truncate_session_messages rows succeeds session config).0 in
      (history session rows'
        ≡ drop
            (length (rows_of session rows) - config.max_messages_per_session)
            (history session rows))
      × (rows_of other rows' ≡ rows_of other rows)
unfolding truncate_session_messages ids_to_delete
truncate_session_messages_newest rows session other config d e =
    elim (Bool-cases (leb (length (rows_of session rows)) config.max_messages_per_session)) [
      | inl fits ↦
          let z : length (rows_of session rows) - config.max_messages_per_session ≡ 0 =
            omega (arith, leb→le _ _ fits) in
          rw (fits, z) (refl, refl)
      | inr more ↦
          let k = length (rows_of session rows) - config.max_messages_per_session in
          let ids = ids_to_delete rows session config in
          let kept = delete_ids_rows rows ids in
          rw more (
            ap (history session) kept
                ∙ ap (order_by time) (rows_of-retain session (λ r. not (is_in ids r)) rows)
                ∙ order_by-retain time (λ r. not (is_in ids r)) (rows_of session rows)
                ∙ retain-unlisted time id_of k (history session rows) (
                    order_by-IsDistinct time id_of (rows_of session rows)
                      (retain-IsDistinct time id_of (λ r. r.session_id == session) rows d)),
            ap (rows_of other) kept
                ∙ rows_of-Apart session other k (rows_of session rows) rows e
                    (Apart-rows_of session rows d),
          )
    ]
