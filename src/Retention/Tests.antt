-- ===== src/Retention/Tests.antt =====
-- A session with three messages, of which two may stay.
use claude_code_portal.Prelude.{ℕ, ◌≡◌, refl, true, List, [], ◌∷◌}
use claude_code_portal.Retention.{
  RetentionConfig, Message, rows_of, truncate_session_messages, run_retention_cleanup,
}
use claude_code_portal.Retention.Newest.{history, succeeds, truncate_session_messages_newest}

abbrev message : ℕ → ℕ → ℕ → Message
message id session_id created_at = record {
  id = id;
  session_id = session_id;
  created_at = created_at;
}

abbrev rows : List Message
rows = message 1 7 30 ∷ message 2 8 5 ∷ message 3 7 10 ∷ message 4 7 20 ∷ []

abbrev two : RetentionConfig
two = record { max_messages_per_session = 2; retention_days = 0 }

cleanup_counts :
    (run_retention_cleanup rows true (λ s. succeeds) (7 ∷ 8 ∷ []) two 100).0
    ≡ message 1 7 30 ∷ message 2 8 5 ∷ message 4 7 20 ∷ []
unfolding run_retention_cleanup
cleanup_counts = refl

truncate_session_messages_newest_example :
    let rows' = (truncate_session_messages rows succeeds 7 two).0 in
    (history 7 rows' ≡ message 4 7 20 ∷ message 1 7 30 ∷ [])
    × (rows_of 8 rows' ≡ message 2 8 5 ∷ [])
truncate_session_messages_newest_example =
    truncate_session_messages_newest rows 7 8 two
      ((refl, (refl, (refl, tt))), ((refl, (refl, tt)), ((refl, tt), (tt, tt)))) refl
