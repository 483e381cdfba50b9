-- ===== src/Control/Tests.antt =====
-- Examples of the controller.
use codex_warden.Control.Actions.{completes}
use codex_warden.Prelude.{string_discrete}
use codex_warden.Protocol.Frame.{method}
use mathlib.Core.List.{not-mem-nil}
use codex_warden.Prelude.{
  true, refl, ◌≤◌, List, not, count, eqb, All, arith, length, lookup, insert, ℕ, ◌≡◌, [], ◌∷◌, ok,
  err, ◌||◌, ◌&&◌, add64, is_some, is_none,
}
use codex_warden.Transport.Request.{Reply, not_written, is_ok}
use codex_warden.Control.Actions.{
  default_config, turn, thread, Session, send_not_written_safe, steer, start, interrupt,
}
use codex_warden.Control.Outcomes.{
  Retried, send_not_written_safe_lem, steer_lem, steer_params, start_lem, start_params, named_turn,
  awaiting_start, target_of, is_confirmed, is_unknown, is_ambiguous,
}
use codex_warden.Control.Evidence.{Fresh, Justified, interrupt-Justified}
use codex_warden.Control.Completion.{sees, interrupt-sees}
use codex_warden.Control.Locks.{Act, begins, enters, acts, no_actions, same_text, is_free, runs}
use codex_warden.Control.Order.{acts-exclude}
use codex_warden.Samples.{json, Value, text, nil, field, started, completed}

-- The first write fails; then the daemon answers, once the turn is over.
abbrev session : Session Value
session = record {
  reducer = record {
    state = record { snapshot = record { at_sequence = 0; threads = [] }; subscribing = [] };
    lifecycle = [];
    lifecycle_capacity = 2;
    waiters = [];
    channels = 0;
  };
  next_correlation = 1;
  script =
      record { meanwhile = started ∷ []; reply = err (not_written "gone") }
      ∷ record { meanwhile = completed ∷ []; reply = ok (field "turnId" (text "u") nil) }
      ∷ [];
  sent = [];
  delivered = [];
}

send_not_written_safe_example :
    let (s', reply) = send_not_written_safe json 2 "turn/steer" nil session in
    (n : ℕ) × Retried json 2 n "turn/steer" nil session s' reply
send_not_written_safe_example = send_not_written_safe_lem json 2 "turn/steer" nil session

steer_example :
    let (s', outcome) = steer json default_config "t" "u" [] session in
    (n : ℕ) × (reply : Reply Value) × Retried json 2 n "turn/steer"
      (steer_params json default_config "t" "u" [])
      (record session { next_correlation = add64 1 1 })
      s'
      reply
    × (target_of outcome ≡ turn "t" "u")
    × (is_confirmed outcome ≡ is_ok reply)
    × (is_unknown outcome ≡ is_ambiguous reply)
steer_example = steer_lem json default_config "t" "u" [] session

start_example :
    let (s', outcome) = start json default_config "t" [] (started ∷ []) session in
    (n : ℕ) × (sent : Session Value) × (reply : Reply Value) × Retried json 2 n "turn/start"
      (start_params json default_config "t" [])
      (awaiting_start json default_config "t" session)
      sent
      reply
    × (s'.sent ≡ sent.sent)
    × (target_of outcome ≡ thread "t")
    × (is_confirmed outcome ≡ is_some (named_turn json default_config reply))
    × (is_unknown outcome
        ≡ is_ambiguous reply || (is_ok reply && is_none (named_turn json default_config reply)))
start_example = start_lem json default_config "t" [] (started ∷ []) session

session-Fresh : Fresh json session
session-Fresh = record { waiting = λ w m. absurd (not-mem-nil m); told = tt }

interrupt-Justified_example :
    let (s', outcome) = interrupt json default_config "t" "u" [] session in
    Justified json "t" "u" session s' outcome
interrupt-Justified_example =
    interrupt-Justified json default_config "t" "u" [] session session-Fresh

-- The daemon answers at once, after the turn is over.
abbrev prompt : Session Value
prompt = record session { script = record { meanwhile = completed ∷ []; reply = ok nil } ∷ [] }

interrupt-sees_example : sees json (interrupt json default_config "t" "u" [] prompt).1 ≡ true
unfolding completes method string_discrete
interrupt-sees_example =
    interrupt-sees json default_config "t" "u" [] prompt
      (record { meanwhile = completed ∷ []; reply = ok nil }) [] nil refl refl refl

-- Two actions on a thread and one on another; the second on the thread has to wait.
abbrev moves : List Act
moves = begins "t" ∷ begins "t" ∷ begins "u" ∷ enters 0 ∷ enters 0 ∷ enters 1 ∷ []

acts-exclude_example :
    let s = acts moves no_actions in
    (count (λ r. same_text r.thread_id "t") s.running ≤ 1)
    × (count (λ r. eqb r.correlation 1) s.running ≤ 1)
    × All (λ w. is_free w.lock s.running ≡ not (runs w.thread_id s.running)) s.waiting
acts-exclude_example = acts-exclude moves "t" 1 (omega arith)

two_run_test : length (acts moves no_actions).running ≡ 2
unfolding acts lookup insert string_discrete
two_run_test = refl
