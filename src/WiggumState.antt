-- ===== src/WiggumState.antt =====
-- The state of claude-session-lib/src/proxy_session/wiggum.rs, its test for the answer DONE and the texts
-- that it shows. Durations and instants are in nanoseconds. `to_uppercase` is `str::to_uppercase` with its
-- Unicode tables, and `tenths` a number of milliseconds as a float of seconds with one decimal.
use Prim.Native.String.{len, ◌++◌ as ◌<>◌}
use claude_code_portal.Prelude.{
  ℕ, ◌+◌, ◌-◌, ◌/◌, ◌%◌, String, Bool, false, ◌&&◌, ◌||◌, List, [], ◌∷◌, ◌++◌, Option, none, some,
  ltb, ◌==◌, if◌then◌else◌, length, drop,
}
use text.Mathlib.Text.{◌==◌ as str_eq, starts_with, find?}
use claude_code_portal.Prelude.Rendering.{trim_start, trim_end, decimal, join, sum}
use claude_code_portal.SessionManager.Connections.{is_some}
use claude_code_portal.OutputBuffer.{u64_mod}

-- WIGGUM_MAX_ITERATIONS.
abbrev pub wiggum_max_iterations : ℕ
wiggum_max_iterations = 50

pub record WiggumState : Type 0 where
  pub original_prompt : String
  pub iteration : ℕ
  pub loop_start : ℕ
  pub loop_durations : List ℕ

-- The fields of `ResultMessage` that are read.
pub record ResultMessage : Type 0 where
  pub is_error : Bool
  pub result : Option String

-- `WiggumState { .. }` where a prompt comes with the mode.
unfoldable pub activated : String → ℕ → WiggumState
activated prompt now = record {
  original_prompt = prompt;
  iteration = 1;
  loop_start = now;
  loop_durations = [];
}

unfoldable pub check_wiggum_done : (String → String) → ResultMessage → Bool
unfolding trim_start trim_end
check_wiggum_done to_uppercase m = m.is_error || elim m.result [
  | none ↦ false
  | some text ↦
      let trimmed = trim_end (trim_start (to_uppercase text)) in
      (str_eq trimmed "DONE" || (starts_with trimmed "DONE." || starts_with trimmed "DONE!"))
      || (ltb (len trimmed) 50 && is_some (find? trimmed "DONE"))
]

-- `as_millis() as u64`.
abbrev pub as_millis : ℕ → ℕ
as_millis d = d / 1000000 % u64_mod

unfoldable pub format_duration : (ℕ → String) → ℕ → String
unfolding decimal
format_duration tenths ms =
    if ltb ms 1000
    then decimal ms <> "ms"
    else if ltb ms 60000
    then tenths ms <> "s"
    else decimal (ms / 60000) <> ("m" <> (decimal (ms % 60000 / 1000) <> "s"))

-- The last ten are kept.
unfoldable pub record_duration : List ℕ → ℕ → List ℕ
record_duration ds d = let all = ds ++ d ∷ [] in if ltb 10 (length all) then drop 1 all else all

-- `loop_durations.iter().enumerate()`, counted from the first loop's number.
unfoldable pub numbered : ℕ → List ℕ → List (ℕ × ℕ)
numbered n [] = []
numbered n (d ∷ ds) = (n, d) ∷ numbered (n + 1) ds

-- `iteration as usize - loop_durations.len()`, which wraps in the release profile.
unfoldable pub start_iter : WiggumState → ℕ
start_iter w = (w.iteration + u64_mod - length w.loop_durations) % u64_mod

unfoldable pub table : (ℕ → String) → List (ℕ × ℕ) → List String
unfolding format_duration decimal
table tenths [] = []
table tenths ((n, d) ∷ rows) =
    ("| " <> (decimal n <> (" | " <> (format_duration tenths (as_millis d) <> " |"))))
    ∷ table tenths rows

unfoldable pub format_wiggum_status : (ℕ → String) → WiggumState → String
unfolding start_iter numbered table join format_duration decimal
format_wiggum_status tenths w =
    let first = "**Wiggum** loop **" <> (decimal w.iteration <> "** / 50") in
    elim w.loop_durations [
      | [] ↦ first
      | d ∷ ds ↦
          let total = sum (d ∷ ds) in
          join "\n" (
            first
            ∷ ""
            ∷ "| Loop | Duration |"
            ∷ "|-----:|---------:|"
            ∷ (table tenths (numbered (start_iter w) (d ∷ ds))
                ++ ("\nAvg: **"
                    <> (format_duration tenths (as_millis (total / length (d ∷ ds)))
                        <> ("** | Total: **"
                            <> (format_duration tenths (as_millis total) <> "**"))))
                  ∷ []))
    ]

unfoldable pub completion_text : (ℕ → String) → WiggumState → String
unfolding format_duration decimal
completion_text tenths w =
    "**Wiggum complete** after **"
    <> (decimal w.iteration
        <> ("** iteration"
            <> ((if w.iteration == 1 then "" else "s")
                <> (" (total: "
                    <> (format_duration tenths (as_millis (sum w.loop_durations)) <> ")")))))

unfoldable pub wiggum_prompt : String → String
wiggum_prompt prompt =
    prompt
    <> "\n\nTake action on the directions above until fully complete. If complete, respond only with DONE."
