-- ===== src/ProxyReader/Tests.antt =====
-- Three inputs, of which the last comes when the main loop has gone.
use claude_code_portal.Prelude.{
  ◌≡◌, ◌++◌, refl, String, Bool, true, false, List, [], ◌∷◌, Option, none, some,
}
use claude_code_portal.Protocol.{
  ServerToProxy, wiggum, sequenced_input, heartbeat, session_terminated,
}
use claude_code_portal.ProxyReader.{
  Channels, Arrival, terminated, is_expired, handle_ws_message, read_loop,
}
use claude_code_portal.ProxyReader.Taken.{taken, acks, inputs, read_loop_takes}

abbrev empty : Channels String
empty = record {
  input_tx = "old" ∷ [];
  wiggum_tx = [];
  perm_tx = [];
  ack_tx = [];
  file_upload_tx = [];
  heartbeat = record { last_received = 0 };
}

abbrev arrival : ServerToProxy String → Bool → Option (Arrival String)
arrival m listens = some (record { message = m; now = 5; listens = listens; sends = true })

abbrev arrivals : List (Option (Arrival String))
arrivals =
    arrival (sequenced_input 3 1 "one" none) true
    ∷ arrival heartbeat true
    ∷ arrival (sequenced_input 3 2 "two" (some wiggum)) true
    ∷ arrival (sequenced_input 3 3 "three" none) false
    ∷ []

ends_at_termination :
    (read_loop {P = String} (λ s. s) empty (arrival (session_terminated "bye") true ∷ arrivals)).2
    ≡ terminated
unfolding read_loop handle_ws_message
ends_at_termination = refl

dead_after_timeout : is_expired (record { last_received = 7 }) 15000000008 ≡ true
unfolding is_expired
dead_after_timeout = refl

alive_at_timeout : is_expired (record { last_received = 7 }) 15000000007 ≡ false
unfolding is_expired
alive_at_timeout = refl

read_loop_takes_example :
    ((read_loop {P = String} (λ s. s) empty arrivals).1 ≡ acks String (taken arrivals))
    × (((read_loop {P = String} (λ s. s) empty arrivals).0.input_tx
          ≡ empty.input_tx ++ inputs (λ s. s) false (taken arrivals))
        × ((read_loop {P = String} (λ s. s) empty arrivals).0.wiggum_tx
            ≡ empty.wiggum_tx ++ inputs (λ s. s) true (taken arrivals)))
read_loop_takes_example = read_loop_takes String (λ s. s) empty arrivals
