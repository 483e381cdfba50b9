-- ===== src/Protocol/Event.antt =====
-- `SequencedEvent` (src/protocol/src/lib.rs). The clocks are arguments, in milliseconds.
use codex_warden.Prelude.{
  ℕ, ◌%◌, String, Bool, true, false, Option, some, none, [], ◌∷◌, and_then, unwrap_or, ok, err,
}
use codex_warden.Protocol.Json.{Json}
use codex_warden.Protocol.Frame.{
  Plane, lifecycle, IncomingFrame, parse, params, plane_for_method, extract_thread_id,
  extract_turn_id, extract_emitted_at_ms,
}
use codex_warden.Protocol.Frame

pub record SequencedEvent (V : Type 0) : Type 0 where
  pub sequence : ℕ
  pub unix_receipt_ms : ℕ
  pub monotonic_ms : ℕ
  pub emitted_at_ms : Option ℕ
  pub plane : Plane
  pub thread_id : Option String
  pub turn_id : Option String
  pub frame : IncomingFrame V
  pub reconstructed : Bool

-- `SequencedEvent::method`.
abbrev pub method : {V : Type 0} → SequencedEvent V → Option String
method e = Frame.method e.frame

-- `as_millis() as u64`.
abbrev as_u64_millis : ℕ → ℕ
as_u64_millis d = d % 18446744073709551616

module _ {V : Type 0} (j : Json V) where
  unfoldable pub from_frame : (now sequence monotonic : ℕ) → IncomingFrame V → SequencedEvent V
  from_frame now sequence monotonic frame = record {
    sequence = sequence;
    unix_receipt_ms = as_u64_millis now;
    monotonic_ms = as_u64_millis monotonic;
    emitted_at_ms = and_then (params frame) (extract_emitted_at_ms j);
    plane = plane_for_method (unwrap_or (Frame.method frame) "");
    thread_id = and_then (params frame) (extract_thread_id j);
    turn_id = and_then (params frame) (extract_turn_id j);
    frame = frame;
    reconstructed = false;
  }

  -- The static frame of a reconstructed anchor.
  unfoldable pub anchor_json : String → String → V
  anchor_json thread_id turn_id = j.object (
      ("jsonrpc", j.text "2.0")
      ∷ ("method", j.text "turn/started")
      ∷ (
        "params",
        j.object (
            ("threadId", j.text thread_id) ∷ ("turn", j.object (("id", j.text turn_id) ∷ [])) ∷ []),
      )
      ∷ [])

  -- `none` is the panic of `expect`.
  unfoldable pub reconstructed_active_turn :
      (now sequence monotonic : ℕ) → String → String → Option (SequencedEvent V)
  reconstructed_active_turn now sequence monotonic thread_id turn_id =
      elim (parse j (anchor_json thread_id turn_id)) [
        | err _ ↦ none
        | ok frame ↦ some (record {
          sequence = sequence;
          unix_receipt_ms = as_u64_millis now;
          monotonic_ms = as_u64_millis monotonic;
          emitted_at_ms = none;
          plane = lifecycle;
          thread_id = some thread_id;
          turn_id = some turn_id;
          frame = frame;
          reconstructed = true;
        })
      ]
