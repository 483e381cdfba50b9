-- ===== src/Transport/Ranking.antt =====
-- The numbers of events of one connection (`drive` of src/transport/src/lib.rs).
pub mod Attempts
mod Shakes
use codex_warden.Prelude.{
  ℕ, suc, ◌+◌, ◌≤◌, ◌<◌, add64, u64_max, String, Bool, true, false, Option, some, none, List, [],
  ◌∷◌, ◌≡◌, refl, ap, arith, length, lookup, Result, ok, err, Option-cases, inl, inr, ◌⊎◌,
  unwrap_or,
}
use codex_warden.Protocol.Json.{Json, number, request as request_json}
use codex_warden.Protocol.Frame
use codex_warden.Protocol.Frame.{IncomingFrame, parse}
use codex_warden.Protocol.Event.{SequencedEvent, from_frame}
use codex_warden.Transport.Drive.{
  rpc_id_discrete, Command, notify, reconciled, DriveExit, disconnected, commands_closed, Incoming,
  reconciling, connecting, handshaking, ping, json, Input, command, message, tick, gate, Connection,
  obey, answer, accept, hear, round, rounds, drive,
}
use codex_warden.Transport.Handshake.{
  TransportConfig, Greeting, got, Handshake, client_info, admit, verdict, greet, initialize,
  Greeted, initialized, refused, waiting,
}
use codex_warden.Transport.Reconnect.{
  Attempt, Link, Turn, next, running, announce, reject_while_disconnected, degrade, pause, serve,
  connect_once, connection_loop,
}
use codex_warden.Transport.Numbering.{answer-numbers}

module _ {V : Type 0} where
  -- The events, the latest first, bear falling positive numbers, none above `top`.
  abbrev pub Ranked : ℕ → List (SequencedEvent V) → Type 0
  Ranked top [] = Unit {0}
  Ranked top (e ∷ es) = (e.sequence ≤ top) × ((m : ℕ) × (e.sequence ≡ m + 1) × Ranked m es)

  pub Ranked-mono :
      (top top' : ℕ) (es : List (SequencedEvent V)) → top ≤ top' → Ranked top es → Ranked top' es
  Ranked-mono top top' [] le h = tt
  Ranked-mono top top' (e ∷ es) le h = (omega arith, h.1)

  -- A connection with ranked events, some steps after the number `n`.
  abbrev pub Within : ℕ → ℕ → Connection V → Type 0
  Within n steps c = (c.sequence ≤ n + steps) × Ranked c.sequence c.events

module _ {V : Type 0} (j : Json V) (read_idle_timeout : ℕ) (show_idle : ℕ → String) where
  accept-Within :
      (n k unix now : ℕ) (ingress : Bool) (frame : IncomingFrame V) (c : Connection V)
      → n + k < u64_max
      → Within n k c
      → Within n (k + 1) (accept j read_idle_timeout show_idle unix now ingress frame c).0
  unfolding accept from_frame
  accept-Within n k unix now true frame c room (le, h) =
      let (events, sequence) =
        answer-numbers j read_idle_timeout show_idle frame
          (record c { sequence = add64 c.sequence 1 }) in
      rw (events, sequence) (omega arith, (omega arith, (c.sequence, omega arith, h)))
  accept-Within n k unix now false frame c room (le, h) =
      let (events, sequence) =
        answer-numbers j read_idle_timeout show_idle frame
          (record c { sequence = add64 c.sequence 1 }) in
      rw (events, sequence)
        (omega arith, Ranked-mono c.sequence (add64 c.sequence 1) c.events (omega arith) h)

  more : (n k : ℕ) (c : Connection V) → Within n k c → Within n (k + 1) c
  more n k c (le, h) = (omega arith, h)

  obey-Within :
      (n k : ℕ) (c : Option (Command V)) (error : Option String) (s : Connection V)
      → Within n k s
      → Within n (k + 1) (obey j read_idle_timeout show_idle c error s).0
  unfolding obey
  obey-Within n k none error s h = more n k s h
  obey-Within n k (some (Command.request q m params response)) (some error) s h = more n k s h
  obey-Within n k (some (Command.request q m params response)) none s h = more n k s h
  obey-Within n k (some (notify m params)) (some error) s h = more n k s h
  obey-Within n k (some (notify m params)) none s h = more n k s h
  obey-Within n k (some (reconciled done)) error s h = more n k s h
  obey-Within n k (some (Command.shutdown done)) error s h = more n k s h

  hear-Within :
      (n k unix now : ℕ) (ingress : Bool) (m : Incoming V) (s : Connection V)
      → n + k < u64_max
      → Within n k s
      → Within n (k + 1) (hear j read_idle_timeout show_idle unix now ingress m s).0
  unfolding hear
  hear-Within n k unix now ingress Incoming.ended s room h = more n k s h
  hear-Within n k unix now ingress (Incoming.failed error) s room h = more n k s h
  hear-Within n k unix now ingress ping s room h = more n k s h
  hear-Within n k unix now ingress (json (err error)) s room h = more n k s h
  hear-Within n k unix now ingress (json (ok none)) s room h = more n k s h
  hear-Within n k unix now ingress (json (ok (some value))) s room h = go (parse j value) refl
    where
      go :
          (parsed : Result (IncomingFrame V) String)
          → parse j value ≡ parsed
          → Within n
              (k + 1)
              (hear j read_idle_timeout show_idle unix now ingress (json (ok (some value))) s).0
      go (err e) q = rw (q, hear) (more n k s h)
      go (ok frame) q =
          rw (q, hear)
            (accept-Within n k unix now ingress frame (record s { last_read = now }) room h)

  round-Within :
      (n k now : ℕ) (i : Input V) (c : Connection V)
      → n + k < u64_max
      → Within n k c
      → Within n (k + 1) (round j read_idle_timeout show_idle now i c).0
  unfolding round
  round-Within n k now (command c error) s room h = obey-Within n k c error s h
  round-Within n k now (message m unix ingress) s room h =
      hear-Within n k unix now ingress m s room h
  round-Within n k now (tick written) s room h = more n k s h
  round-Within n k now (gate is_open) s room h = more n k s h

  rounds-Within :
      (n k : ℕ) (is : List (ℕ × Input V)) (c : Connection V)
      → n + k + length is ≤ u64_max
      → Within n k c
      → Within n (k + length is) (rounds j read_idle_timeout show_idle is c).0
  unfolding rounds
  rounds-Within n k [] c room (le, h) = (omega arith, h)
  rounds-Within n k ((now, i) ∷ is) c room h =
      let h' = round-Within n k now i c (omega arith) h in
      elim (Option-cases (round j read_idle_timeout show_idle now i c).1) [
        | inl e ↦
            rw (e, rounds)
              (let (few, ranked) = rounds-Within n (k + 1) is _ (omega arith) h' in
                (omega (arith, few), ranked))
        | inr (x, e) ↦ rw (e, rounds) (let (few, ranked) = h' in (omega (arith, few), ranked))
      ]

  pub drive-Within :
      (n k : ℕ) (is : List (ℕ × Input V)) (c : Connection V)
      → n + k + length is ≤ u64_max
      → Within n k c
      → Within n (k + length is) (drive j read_idle_timeout show_idle is c).0
  unfolding drive
  drive-Within n k is c room h =
      let run = rounds-Within n k is c room h in
      elim (Option-cases (rounds j read_idle_timeout show_idle is c).1) [
        | inl e ↦ rw (e, drive) run
        | inr (x, e) ↦ rw (e, drive) run
      ]
