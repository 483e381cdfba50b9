-- ===== src/Protocol/Tests.antt =====
-- Examples of the messages.
use codex_warden.Prelude.{◌≡◌, some, ok, true, none, and_then}
use codex_warden.Protocol.Json.{number, request}
use codex_warden.Protocol.Frame.{
  IncomingFrame, classify, parse, params, lifecycle, extract_thread_id, extract_turn_id,
}
use codex_warden.Protocol.Event.{SequencedEvent, method, reconstructed_active_turn}
use codex_warden.Protocol.Laws.{parse-request, reconstructed_active_turn_lem}
use codex_warden.Samples.{json, laws, text, Value}

parse-request_example :
    parse json (request json (number 7) "item/fileChange/requestApproval" (text "p"))
    ≡ ok (
        IncomingFrame.server_request
          (number 7)
          "item/fileChange/requestApproval"
          (text "p")
          (classify "item/fileChange/requestApproval")
          (request json (number 7) "item/fileChange/requestApproval" (text "p")))
parse-request_example =
    parse-request json laws (number 7) "item/fileChange/requestApproval" (text "p")

reconstructed_active_turn_example :
    (e : SequencedEvent Value) × (reconstructed_active_turn json 1000 5 9 "t" "u" ≡ some e)
    × (e.reconstructed ≡ true)
    × (e.plane ≡ lifecycle)
    × (e.emitted_at_ms ≡ none)
    × (method e ≡ some "turn/started")
    × (e.thread_id ≡ and_then (params e.frame) (extract_thread_id json))
    × (e.turn_id ≡ and_then (params e.frame) (extract_turn_id json))
    × (e.thread_id ≡ some "t")
    × (e.turn_id ≡ some "u")
reconstructed_active_turn_example = reconstructed_active_turn_lem json laws 1000 5 9 "t" "u"
