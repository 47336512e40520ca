-- ===== src/Delivery/Tests.antt =====
-- Three outputs, the first acknowledged, of which the others are sent twice.
use claude_code_portal.Prelude.{
  ℕ, ◌≡◌, ◌<◌, refl, inr, true, [], ◌∷◌, none, arith, ◌==◌, if◌then◌else◌,
}
use claude_code_portal.SessionManager.{new}
use claude_code_portal.Numbered.{numbered}
use claude_code_portal.OutputBuffer.{PendingOutputBuffer}
use claude_code_portal.OutputBuffer.Window.{Log, output, Represents}
use claude_code_portal.MessageHandlers.{Content, Backend}
use claude_code_portal.MessageHandlers.Dedup.{acked}
use claude_code_portal.MessageHandlers.Stored.{texts, is_known}
use claude_code_portal.Delivery.{reconnect}
use claude_code_portal.Delivery.Once.{reconnect_stores_once}

abbrev letters : Content ℕ ℕ
letters = record {
  type_of = λ j. none;
  to_string = λ j. if j == 12 then "b" else "c";
  result_message = λ j. none;
  cost = λ j. none;
  input_tokens = λ j. none;
  output_tokens = λ j. none;
  cache_creation_tokens = λ j. none;
  cache_read_tokens = λ j. none;
  from_str = λ s. none;
}

abbrev backend : Backend ℕ ℕ
unfolding new
backend = record {
  manager = record new { last_ack_seq = (3, 1) ∷ [] };
  db = record {
    sessions =
        (
          3,
          record {
            user_id = 8;
            last_activity = 0;
            total_cost_usd = 0;
            tokens = record {
              input_tokens = 0;
              output_tokens = 0;
              cache_creation_tokens = 0;
              cache_read_tokens = 0;
            };
          },
        )
        ∷ [];
    messages = [];
  };
}

abbrev before : PendingOutputBuffer ℕ
before = record {
  session_id = 3;
  persist_path = 1;
  state = record {
    session_id = 3;
    next_seq = 3;
    last_ack_seq = 1;
    pending = numbered output 2 (12 ∷ []);
  };
  dirty = true;
}

abbrev after : PendingOutputBuffer ℕ
after = record {
  session_id = 3;
  persist_path = 1;
  state = record {
    session_id = 3;
    next_seq = 4;
    last_ack_seq = 1;
    pending = numbered output 2 (12 ∷ 13 ∷ []);
  };
  dirty = true;
}

abbrev sent : Log ℕ
sent = record { sent = 10 ∷ 11 ∷ 12 ∷ []; first = 2 }

before-Represents : Represents sent before.state
before-Represents = record {
  counted = refl;
  within = omega arith;
  window = refl;
  capped = omega arith;
  acked = inr (omega arith);
}

after-Represents : Represents (record sent { sent = 10 ∷ 11 ∷ 12 ∷ 13 ∷ [] }) after.state
after-Represents = record {
  counted = refl;
  within = omega arith;
  window = refl;
  capped = omega arith;
  acked = inr (omega arith);
}

marked : acked backend.manager 3 < 2
unfolding backend
marked = omega arith

known : is_known backend.db 3 ≡ true
unfolding backend
known = refl

no_texts : texts backend ≡ []
unfolding backend
no_texts = refl

reconnect_stores_once_example :
    texts (
      reconnect letters
        (λ c. true)
        1
        3
        50
        none
        (reconnect letters (λ c. true) 1 3 50 none backend before)
        after)
    ≡ "b" ∷ "c" ∷ []
unfolding backend
reconnect_stores_once_example =
    reconnect_stores_once letters (λ c. true) 1 3 50 none backend before after sent (13 ∷ [])
      before-Represents after-Represents marked known
