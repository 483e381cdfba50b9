-- ===== src/Transport/Numbering.antt =====
-- The numbers of a connection's events (`drive` of src/transport/src/lib.rs).
use codex_warden.Prelude.{
  ℕ, ◌+◌, ◌≤◌, ◌<◌, add64, u64_max, String, Bool, true, false, Option, some, none, List, [], ◌∷◌,
  ◌⊎◌, inl, inr, ◌≡◌, refl, arith, length, lookup, Result, ok, err, Option-cases, is_some,
}
use codex_warden.Protocol.Json.{Json}
use codex_warden.Protocol.Frame
use codex_warden.Protocol.Frame.{IncomingFrame, parse}
use codex_warden.Protocol.Event.{SequencedEvent, from_frame}
use codex_warden.Transport.Drive.{
  rpc_id_discrete, Command, notify, reconciled, DriveExit, Incoming, ended, failed, ping, json,
  Input, command, message, tick, gate, Connection, obey, answer, accept, hear, round, rounds, drive,
}

module _ {V : Type 0} where
  -- The events, the latest first, bear the numbers from `top` down to the one after `n`.
  abbrev pub Consecutive : ℕ → ℕ → List (SequencedEvent V) → Type 0
  Consecutive n top [] = top ≡ n
  Consecutive n top (e ∷ es) = (e.sequence ≡ top) × ((m : ℕ) × (top ≡ m + 1) × Consecutive n m es)

module _ {V : Type 0} (j : Json V) (read_idle_timeout : ℕ) (show_idle : ℕ → String) where
  -- A round numbers at most one event, with the next number; or it ends the connection.
  abbrev Grows : ℕ → Connection V → Connection V × Option DriveExit → Type 0
  Grows n s (s', exit) =
      (Consecutive n s'.sequence s'.events × (s'.sequence ≤ s.sequence + 1))
      ⊎ ((is_some exit ≡ true) × Consecutive n s.sequence s'.events × (s.sequence ≤ s'.sequence))

  stays :
      (n : ℕ) (s : Connection V)
      → Consecutive n s.sequence s.events
      → Consecutive n s.sequence s.events × (s.sequence ≤ s.sequence + 1)
  stays n s h = (h, omega arith)

  obey-Grows :
      (n : ℕ) (c : Option (Command V)) (error : Option String) (s : Connection V)
      → Consecutive n s.sequence s.events
      → Grows n s (obey j read_idle_timeout show_idle c error s)
  unfolding obey
  obey-Grows n none error s h = inl (stays n s h)
  obey-Grows n (some (Command.request q m params response)) (some error) s h = inl (stays n s h)
  obey-Grows n (some (Command.request q m params response)) none s h = inl (stays n s h)
  obey-Grows n (some (notify m params)) (some error) s h = inl (stays n s h)
  obey-Grows n (some (notify m params)) none s h = inl (stays n s h)
  obey-Grows n (some (reconciled done)) error s h = inl (stays n s h)
  obey-Grows n (some (Command.shutdown done)) error s h = inl (stays n s h)

  pub answer-numbers :
      (frame : IncomingFrame V) (s : Connection V)
      → ((answer j read_idle_timeout show_idle frame s).events ≡ s.events)
        × ((answer j read_idle_timeout show_idle frame s).sequence ≡ s.sequence)
  unfolding answer
  answer-numbers (Frame.response q result error raw) s =
      elim (Option-cases (lookup rpc_id_discrete q s.pending)) [
        | inl e ↦ rw (e, answer) (refl, refl)
        | inr (r, e) ↦ rw (e, answer) (refl, refl)
      ]
  answer-numbers (Frame.notification m params known raw) s = (refl, refl)
  answer-numbers (Frame.server_request q m params known raw) s = (refl, refl)

  accept-Grows :
      (n unix now : ℕ) (ingress : Bool) (frame : IncomingFrame V) (s : Connection V)
      → s.sequence < u64_max
      → Consecutive n s.sequence s.events
      → Grows n s (accept j read_idle_timeout show_idle unix now ingress frame s)
  unfolding accept from_frame
  accept-Grows n unix now true frame s room h =
      let (events, sequence) = answer-numbers frame (record s { sequence = add64 s.sequence 1 }) in
      inl (rw (events, sequence) ((refl, (s.sequence, omega arith, h)), omega arith))
  accept-Grows n unix now false frame s room h =
      let (events, sequence) = answer-numbers frame (record s { sequence = add64 s.sequence 1 }) in
      inr (rw (events, sequence) (refl, h, omega arith))

  hear-Grows :
      (n unix now : ℕ) (ingress : Bool) (m : Incoming V) (s : Connection V)
      → s.sequence < u64_max
      → Consecutive n s.sequence s.events
      → Grows n s (hear j read_idle_timeout show_idle unix now ingress m s)
  unfolding hear
  hear-Grows n unix now ingress ended s room h = inl (stays n s h)
  hear-Grows n unix now ingress (failed error) s room h = inl (stays n s h)
  hear-Grows n unix now ingress ping s room h = inl (stays n s h)
  hear-Grows n unix now ingress (json (err error)) s room h = inl (stays n s h)
  hear-Grows n unix now ingress (json (ok none)) s room h = inl (stays n s h)
  hear-Grows n unix now ingress (json (ok (some value))) s room h = go (parse j value) refl
    where
      go :
          (parsed : Result (IncomingFrame V) String)
          → parse j value ≡ parsed
          → Grows n s
              (hear j read_idle_timeout show_idle unix now ingress (json (ok (some value))) s)
      go (err e) q = rw (q, hear) (inl (stays n s h))
      go (ok frame) q =
          rw (q, hear) (accept-Grows n unix now ingress frame (record s { last_read = now }) room h)

  round-Grows :
      (n now : ℕ) (i : Input V) (s : Connection V)
      → s.sequence < u64_max
      → Consecutive n s.sequence s.events
      → Grows n s (round j read_idle_timeout show_idle now i s)
  unfolding round
  round-Grows n now (command c error) s room h = obey-Grows n c error s h
  round-Grows n now (message m unix ingress) s room h = hear-Grows n unix now ingress m s room h
  round-Grows n now (tick written) s room h = inl (stays n s h)
  round-Grows n now (gate is_open) s room h = inl (stays n s h)

  rounds-Consecutive :
      (n : ℕ) (is : List (ℕ × Input V)) (s : Connection V)
      → s.sequence + length is ≤ u64_max
      → Consecutive n s.sequence s.events
      → let s' = (rounds j read_idle_timeout show_idle is s).0 in
        (top : ℕ) × Consecutive n top s'.events × (top ≤ s'.sequence)
  unfolding rounds
  rounds-Consecutive n [] s room h = (s.sequence, h, omega arith)
  rounds-Consecutive n ((now, i) ∷ is) s room h =
      elim (Option-cases (round j read_idle_timeout show_idle now i s).1) [
        | inl e ↦ elim (round-Grows n now i s (omega arith) h) [
          | inl (h', few) ↦ rw (e, rounds) (rounds-Consecutive n is _ (omega arith) h')
          | inr (stop, h', few) ↦ absurd (ground (arith, e, stop))
        ]
        | inr (x, e) ↦ elim (round-Grows n now i s (omega arith) h) [
          | inl (h', few) ↦ rw (e, rounds) (_, h', omega arith)
          | inr (stop, h', few) ↦ rw (e, rounds) (_, h', few)
        ]
      ]

  -- However a connection runs, the events that it hands to ingress bear consecutive numbers, without
  -- a gap or a repetition, from the one after its first number on. The number stays within 64 bits,
  -- and the connection starts with no event.
  pub drive_numbers :
      (is : List (ℕ × Input V)) (s : Connection V)
      → s.events ≡ []
      → s.sequence + length is ≤ u64_max
      → let s' = (drive j read_idle_timeout show_idle is s).0 in
        (top : ℕ) × Consecutive s.sequence top s'.events × (top ≤ s'.sequence)
  unfolding drive
  drive_numbers is s blank room =
      let run = rounds-Consecutive s.sequence is s room (rw blank refl) in
      elim (Option-cases (rounds j read_idle_timeout show_idle is s).1) [
        | inl e ↦ rw (e, drive) run
        | inr (x, e) ↦ rw (e, drive) run
      ]
