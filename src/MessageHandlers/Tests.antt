-- ===== src/MessageHandlers/Tests.antt =====
-- The statements about outputs at a concrete backend. A JSON value is a number here.
use claude_code_portal.Prelude.{
  ℕ, ◌≡◌, refl, Bool, true, [], ◌∷◌, none, some, arith, ◌==◌, if◌then◌else◌,
}
use claude_code_portal.Protocol.{output_ack}
use claude_code_portal.SessionManager.{to_proxy, new}
use claude_code_portal.MessageHandlers.{
  Content, Backend, Tokens, healthy, handle_claude_output, from_type_str, result, unknown,
}
use claude_code_portal.MessageHandlers.Dedup.{handle_claude_output_once}
use claude_code_portal.MessageHandlers.Stored.{texts, handle_each, handle_each-texts}

abbrev json : Content ℕ ℕ
json = record {
  type_of = λ j. if j == 0 then some "user" else none;
  to_string = λ j. if j == 0 then "zero" else "more";
  result_message = λ j. none;
  cost = λ j. none;
  input_tokens = λ j. none;
  output_tokens = λ j. none;
  cache_creation_tokens = λ j. none;
  cache_read_tokens = λ j. none;
  from_str = λ s. none;
}

abbrev no_tokens : Tokens
no_tokens = record {
  input_tokens = 0;
  output_tokens = 0;
  cache_creation_tokens = 0;
  cache_read_tokens = 0;
}

-- Session 3 is in the database, and nothing of it was acknowledged.
abbrev backend : Backend ℕ ℕ
unfolding new
backend = record {
  manager = new;
  db = record {
    sessions =
        (3, record { user_id = 8; last_activity = 0; total_cost_usd = 0; tokens = no_tokens }) ∷ [];
    messages = [];
  };
}

-- Session 3 is acknowledged up to 4.
abbrev marked : Backend ℕ ℕ
unfolding new
marked = record backend { manager = record backend.manager { last_ack_seq = (3, 4) ∷ [] } }

abbrev alive : ℕ → Bool
alive c = true

roles : (from_type_str "result" ≡ result) × (from_type_str "tool" ≡ unknown)
unfolding from_type_str
roles = (refl, refl)

handle_claude_output_once_example :
    let b' = (handle_claude_output json marked alive healthy 1 none (some 3) 50 7 (some 5)).0 in
    handle_claude_output json b' alive healthy 2 none (some 3) 50 9 (some 4)
    ≡ (b', to_proxy 50 (output_ack 3 4) ∷ [])
handle_claude_output_once_example =
    handle_claude_output_once json marked alive healthy 1 3 50 none 7 9 5 4 2 healthy none refl
      (omega arith)

handle_each-texts_example :
    texts (handle_each json alive 1 3 50 none marked 5 (7 ∷ 0 ∷ [])) ≡ "more" ∷ "zero" ∷ []
unfolding new
handle_each-texts_example =
    handle_each-texts json alive 1 3 50 none marked 5 (7 ∷ 0 ∷ []) (omega arith) refl
