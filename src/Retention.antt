-- ===== src/Retention.antt =====
-- backend/src/handlers/retention.rs: which messages are deleted. The table is a list of rows, times are in
-- nanoseconds since the epoch, and the flags say which statements succeed. The largest number of messages
-- is not negative.
pub mod Ordered
pub mod Newest
mod Tests
use claude_code_portal.Prelude.{
  ℕ, ◌+◌, ◌-◌, ◌*◌, Bool, true, false, not, List, [], ◌∷◌, map, Option, none, some, ltb, leb, ◌==◌,
  if◌then◌else◌, length, retain, any, take, order_by,
}
use claude_code_portal.Protocol.{second}

pub record RetentionConfig : Type 0 where
  pub max_messages_per_session : ℕ
  pub retention_days : ℕ

pub record Message : Type 0 where
  pub id : ℕ
  pub session_id : ℕ
  pub created_at : ℕ

pub record Statements : Type 0 where
  pub counts : Bool
  pub loads : Bool
  pub deletes : Bool

abbrev pub rows_of : ℕ → List Message → List Message
rows_of session rows = retain (λ r. r.session_id == session) rows

abbrev pub is_in : List ℕ → Message → Bool
is_in ids r = any (λ i. i == r.id) ids

-- The ids of the oldest rows, as many as there are too many.
unfoldable pub ids_to_delete : List Message → ℕ → RetentionConfig → List ℕ
ids_to_delete rows session config =
    map (λ r. r.id)
      (take (length (rows_of session rows) - config.max_messages_per_session)
        (order_by (λ r. r.created_at) (rows_of session rows)))

-- The rows, and the number of the deleted ones, or none for an error.
delete_ids : List Message → Bool → List ℕ → List Message × Option ℕ
delete_ids rows deletes [] = (rows, some 0)
delete_ids rows deletes (id ∷ ids) =
    if deletes
    then (
      retain (λ r. not (is_in (id ∷ ids) r)) rows,
      some (length (retain (is_in (id ∷ ids)) rows)),
    )
    else (rows, none)

unfoldable pub truncate_session_messages :
    List Message → Statements → ℕ → RetentionConfig → List Message × Option ℕ
unfolding ids_to_delete delete_ids
truncate_session_messages rows st session config =
    if not st.counts
    then (rows, none)
    else if leb (length (rows_of session rows)) config.max_messages_per_session
    then (rows, some 0)
    else if not st.loads
    then (rows, none)
    else delete_ids rows st.deletes (ids_to_delete rows session config)

unfoldable pub delete_old_messages :
    List Message → Bool → RetentionConfig → ℕ → List Message × Option ℕ
delete_old_messages rows deletes config now =
    let cutoff = now - config.retention_days * (86400 * second) in
    if config.retention_days == 0
    then (rows, some 0)
    else if deletes
    then (
      retain (λ r. not (ltb r.created_at cutoff)) rows,
      some (length (retain (λ r. ltb r.created_at cutoff) rows)),
    )
    else (rows, none)

-- An error counts as 0 and is logged.
abbrev or_none : Option ℕ → ℕ
or_none none = 0
or_none (some n) = n

truncate_each : List Message → (ℕ → Statements) → List ℕ → RetentionConfig → List Message × ℕ
unfolding truncate_session_messages
truncate_each rows st [] config = (rows, 0)
truncate_each rows st (session ∷ sessions) config =
    let (rows', deleted) = truncate_session_messages rows (st session) session config in
    let rest = truncate_each rows' st sessions config in (rest.0, or_none deleted + rest.1)

unfoldable pub run_retention_cleanup :
    List Message → Bool → (ℕ → Statements) → List ℕ → RetentionConfig → ℕ → List Message × ℕ × ℕ
unfolding delete_old_messages truncate_each
run_retention_cleanup rows deletes st pending_session_ids config now =
    let (rows', age_deleted) = delete_old_messages rows deletes config now in
    let (rows'', count_deleted) = truncate_each rows' st pending_session_ids config in
    (rows'', or_none age_deleted, count_deleted)
