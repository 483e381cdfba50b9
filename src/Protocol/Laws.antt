-- ===== src/Protocol/Laws.antt =====
-- Frames out and in (src/protocol/src/lib.rs).
use codex_warden.Prelude.{
  ℕ, String, true, Option, some, none, [], ◌∷◌, ◌≡◌, refl, arith, ok, sym, ◌%◌, string_discrete,
  lookup, Option-cases, inl, inr, and_then,
}
use codex_warden.Protocol.Json.{Json, JsonLaws, RpcId, get_str, request, notification}
use codex_warden.Protocol.Frame
use codex_warden.Protocol.Frame.{
  IncomingFrame, parse, parse_as, rpc_id_or, raw, classify, extract_thread_id, extract_turn_id,
  lifecycle,
}
use codex_warden.Protocol.Event.{SequencedEvent, method, anchor_json, reconstructed_active_turn}

module _ {V : Type 0} (j : Json V) where
  parse_as-raw :
      (v : V) (id : Option V) (m : Option String) (f : IncomingFrame V)
      → parse_as j v id m ≡ ok f
      → raw f ≡ v
  unfolding parse_as rpc_id_or raw
  parse_as-raw v (some id) (some m) f e = elim (Option-cases (j.to_rpc_id id)) [
    | inl h ↦ ground arith
    | inr (k, h) ↦ ground arith
  ]
  parse_as-raw v (some id) none f e = elim (Option-cases (j.to_rpc_id id)) [
    | inl h ↦ ground arith
    | inr (k, h) ↦ ground arith
  ]
  parse_as-raw v none (some m) f e = ground arith
  parse_as-raw v none none f e = cc

  -- A frame keeps the whole message that it was parsed from.
  parse-raw : (v : V) (f : IncomingFrame V) → parse j v ≡ ok f → raw f ≡ v
  unfolding parse
  parse-raw v f e = parse_as-raw v (j.get v "id") (get_str j v "method") f e

module _ {V : Type 0} (j : Json V) (laws : JsonLaws j) where
  -- A request that the program sends, by any id, method and parameters, is read back as a request
  -- of the same id, method and parameters, with its whole message.
  pub parse-request :
      (id : RpcId) (m : String) (params : V)
      → parse j (request j id m params)
        ≡ ok (Frame.server_request id m params (classify m) (request j id m params))
  unfolding parse request lookup string_discrete
  parse-request id m params =
      simp (laws.get-object, laws.as_str-text) (rw (laws.to_rpc_id-of_rpc_id id, rpc_id_or))

  -- A notification that the program sends is read back as a notification of the same method and
  -- parameters, with its whole message.
  pub parse-notification :
      (m : String) (params : V)
      → parse j (notification j m params)
        ≡ ok (Frame.notification m params (classify m) (notification j m params))
  unfolding parse notification lookup string_discrete
  parse-notification m params = simp (laws.get-object, laws.as_str-text)

  abbrev anchor_params : String → String → V
  anchor_params thread_id turn_id =
      j.object
        (("threadId", j.text thread_id) ∷ ("turn", j.object (("id", j.text turn_id) ∷ [])) ∷ [])

  abbrev anchor_frame : String → String → IncomingFrame V
  anchor_frame thread_id turn_id =
      Frame.notification "turn/started" (anchor_params thread_id turn_id) (classify "turn/started")
        (anchor_json j thread_id turn_id)

  parse-anchor :
      (thread_id turn_id : String)
      → parse j (anchor_json j thread_id turn_id) ≡ ok (anchor_frame thread_id turn_id)
  unfolding parse anchor_json lookup string_discrete
  parse-anchor thread_id turn_id = simp (laws.get-object, laws.as_str-text)

  anchor_params-ids :
      (thread_id turn_id : String)
      → (extract_thread_id j (anchor_params thread_id turn_id) ≡ some thread_id)
        × (extract_turn_id j (anchor_params thread_id turn_id) ≡ some turn_id)
  unfolding extract_thread_id extract_turn_id lookup string_discrete
  anchor_params-ids thread_id turn_id =
      (simp (laws.get-object, laws.as_str-text), simp (laws.get-object, laws.as_str-text))

  -- To build a reconstructed anchor never panics. The anchor is marked, is a `turn/started` on the
  -- lifecycle plane, carries no time of emission, and names the thread and turn that a wire frame
  -- with its parameters would name.
  pub reconstructed_active_turn_lem :
      (now sequence monotonic : ℕ) (thread_id turn_id : String)
      → (e : SequencedEvent V) × (reconstructed_active_turn j now sequence monotonic thread_id
            turn_id
          ≡ some e)
        × (e.reconstructed ≡ true)
        × (e.plane ≡ lifecycle)
        × (e.emitted_at_ms ≡ none)
        × (method e ≡ some "turn/started")
        × (e.thread_id ≡ and_then (Frame.params e.frame) (extract_thread_id j))
        × (e.turn_id ≡ and_then (Frame.params e.frame) (extract_turn_id j))
        × (e.thread_id ≡ some thread_id)
        × (e.turn_id ≡ some turn_id)
  unfolding reconstructed_active_turn
  reconstructed_active_turn_lem now sequence monotonic thread_id turn_id =
      let ids = anchor_params-ids thread_id turn_id in
      let e : SequencedEvent V = record {
        sequence = sequence;
        unix_receipt_ms = now % 18446744073709551616;
        monotonic_ms = monotonic % 18446744073709551616;
        emitted_at_ms = none;
        plane = lifecycle;
        thread_id = some thread_id;
        turn_id = some turn_id;
        frame = anchor_frame thread_id turn_id;
        reconstructed = true;
      } in
      (
        e,
        rw (parse-anchor thread_id turn_id, reconstructed_active_turn),
        refl,
        refl,
        refl,
        unfold Frame.method in refl,
        unfold Frame.params in sym ids.0,
        unfold Frame.params in sym ids.1,
        refl,
        refl,
      )
