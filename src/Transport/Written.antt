-- ===== src/Transport/Written.antt =====
-- A request that was written is never answered as if it had not been (`drive` of
-- src/transport/src/lib.rs).
use codex_warden.Prelude.{
  ℕ, String, Bool, true, false, Option, some, none, List, [], ◌∷◌, ◌≡◌, ◌≢◌, ◌⊎◌, refl, arith,
  lookup, lookup-insert, map, has, All, ℕ_discrete, Result, ok, err, Option-cases, inl, inr,
}
use codex_warden.Protocol.Json.{Json, RpcId}
use codex_warden.Protocol.Frame
use codex_warden.Protocol.Frame.{IncomingFrame, parse}
use codex_warden.Transport.Request.{Reply, is_not_written}
use codex_warden.Transport.Drive.{
  rpc_id_discrete, Command, notify, reconciled, Pending, DriveExit, Incoming, ended, failed, ping,
  json, Input, command, message, tick, gate, Connection, obey, answer, accept, hear, round, rounds,
  settle, drive, exit_detail,
}
use codex_warden.Transport.Settlement.{Avoids, drive_settles}

module _ {V : Type 0} (channel : ℕ) where
  -- Not an answer on the channel that says that the request was not written.
  abbrev pub Honest : ℕ × Reply V → Type 0
  Honest (c, reply) = (c ≢ channel) ⊎ (is_not_written reply ≡ false)

  -- No request takes the channel.
  abbrev pub Spares : Input V → Type 0
  Spares (command (some (Command.request k m params response)) write_error) = response ≢ channel
  Spares _ = Unit

  settle-Honest :
      (detail : String) (pending : List (RpcId × Pending)) (answers : List (ℕ × Reply V))
      → All Honest answers
      → All Honest (settle detail pending answers)
  unfolding settle
  settle-Honest detail [] answers h = h
  settle-Honest detail ((id, p) ∷ rest) answers h = (inr refl, settle-Honest detail rest answers h)

module _ {V : Type 0} (channel : ℕ) (j : Json V) (limit : ℕ) (show_idle : ℕ → String) where
  obey-Honest :
      (c : Option (Command V)) (error : Option String) (s : Connection V)
      → Spares channel (command c error)
      → All (Honest channel) s.answers
      → All (Honest channel) (obey j limit show_idle c error s).0.answers
  unfolding obey
  obey-Honest none error s h k = k
  obey-Honest (some (Command.request q m params response)) (some error) s h k = (inl h, k)
  obey-Honest (some (Command.request q m params response)) none s h k = k
  obey-Honest (some (notify m params)) (some error) s h k = k
  obey-Honest (some (notify m params)) none s h k = k
  obey-Honest (some (reconciled done)) error s h k = k
  obey-Honest (some (Command.shutdown done)) error s h k = k

  answer-Honest :
      (frame : IncomingFrame V) (s : Connection V)
      → All (Honest channel) s.answers
      → All (Honest channel) (answer j limit show_idle frame s).answers
  unfolding answer
  answer-Honest (Frame.response q result (some error) raw) s k =
      elim (Option-cases (lookup rpc_id_discrete q s.pending)) [
        | inl e ↦ rw (e, answer) k
        | inr (r, e) ↦ rw (e, answer) (inr refl, k)
      ]
  answer-Honest (Frame.response q result none raw) s k =
      elim (Option-cases (lookup rpc_id_discrete q s.pending)) [
        | inl e ↦ rw (e, answer) k
        | inr (r, e) ↦ rw (e, answer) (inr refl, k)
      ]
  answer-Honest (Frame.notification m params known raw) s k = k
  answer-Honest (Frame.server_request q m params known raw) s k = k

  hear-Honest :
      (unix now : ℕ) (ingress : Bool) (m : Incoming V) (s : Connection V)
      → All (Honest channel) s.answers
      → All (Honest channel) (hear j limit show_idle unix now ingress m s).0.answers
  unfolding hear accept
  hear-Honest unix now ingress ended s k = k
  hear-Honest unix now ingress (failed error) s k = k
  hear-Honest unix now ingress ping s k = k
  hear-Honest unix now ingress (json (err error)) s k = k
  hear-Honest unix now ingress (json (ok none)) s k = k
  hear-Honest unix now ingress (json (ok (some value))) s k = go (parse j value) refl ingress
    where
      go :
          (parsed : Result (IncomingFrame V) String)
          → parse j value ≡ parsed
          → (here : Bool)
          → All
              (Honest channel)
              (hear j limit show_idle unix now here (json (ok (some value))) s).0.answers
      go (err e) q here = rw (q, hear) k
      go (ok frame) q true = rw (q, hear) (answer-Honest frame _ k)
      go (ok frame) q false = rw (q, hear) (answer-Honest frame _ k)

  round-Honest :
      (now : ℕ) (i : Input V) (s : Connection V)
      → Spares channel i
      → All (Honest channel) s.answers
      → All (Honest channel) (round j limit show_idle now i s).0.answers
  unfolding round
  round-Honest now (command c error) s h k = obey-Honest c error s h k
  round-Honest now (message m unix ingress) s h k = hear-Honest unix now ingress m s k
  round-Honest now (tick written) s h k = k
  round-Honest now (gate is_open) s h k = k

  rounds-Honest :
      (is : List (ℕ × Input V)) (s : Connection V)
      → All (λ i. Spares channel i.1) is
      → All (Honest channel) s.answers
      → All (Honest channel) (rounds j limit show_idle is s).0.answers
  unfolding rounds
  rounds-Honest [] s h k = k
  rounds-Honest ((now, i) ∷ is) s h k =
      let k' = round-Honest now i s h.0 k in
      elim (Option-cases (round j limit show_idle now i s).1) [
        | inl e ↦ rw (e, rounds) (rounds-Honest is _ h.1 k')
        | inr (x, e) ↦ rw (e, rounds) k'
      ]

  drive-Honest :
      (is : List (ℕ × Input V)) (s : Connection V)
      → All (λ i. Spares channel i.1) is
      → All (Honest channel) s.answers
      → All (Honest channel) (drive j limit show_idle is s).0.answers
  unfolding drive
  drive-Honest is s h k =
      let run = rounds-Honest is s h k in
      elim (Option-cases (rounds j limit show_idle is s).1) [
        | inl e ↦ rw (e, drive) run
        | inr (x, e) ↦ rw (e, drive) (settle-Honest channel (exit_detail x) _ _ run)
      ]

  silent-Honest :
      (answers : List (ℕ × Reply V))
      → has ℕ_discrete channel (map (λ a. a.0) answers) ≡ false
      → All (Honest channel) answers
  unfolding has
  silent-Honest [] h = tt
  silent-Honest ((c, r) ∷ rest) h = elim (ℕ_discrete c channel) [
    | yes e ↦ absurd (ground (arith, e, h))
    | no n ↦ (inl n, silent-Honest rest (ground (arith, h)))
  ]

  -- A request that comes and is written.
  abbrev pub written : ℕ → RpcId → String → V → ℕ × Input V
  written now id m params = (now, command (some (Command.request id m params channel)) none)

  -- A request whose write succeeds has an answer once the connection ends, and no answer to it says
  -- that it was not written, so that a caller who resends after `NotWritten` does not send it twice.
  -- No other request of the connection takes its id or its channel, and nothing has been sent on
  -- that channel before.
  pub written_once :
      (now : ℕ) (id : RpcId) (m : String) (params : V) (is : List (ℕ × Input V)) (s : Connection V)
      (exit : DriveExit)
      → All (λ i. Avoids j limit show_idle id i.1) is
      → All (λ i. Spares channel i.1) is
      → has ℕ_discrete channel (map (λ a. a.0) s.answers) ≡ false
      → (drive j limit show_idle (written now id m params ∷ is) s).1 ≡ some exit
      → let answers = (drive j limit show_idle (written now id m params ∷ is) s).0.answers in
        (has ℕ_discrete channel (map (λ a. a.0) answers) ≡ true) × All (Honest channel) answers
  unfolding drive rounds round obey
  written_once now id m params is s exit avoids spares silent ends =
      let p : Pending = record { method = m; response = channel } in
      let s' : Connection V = (round j limit show_idle now (written now id m params).1 s).0 in
      let held : lookup rpc_id_discrete id s'.pending ≡ some p =
        ground (arith, lookup-insert rpc_id_discrete id id p s.pending) in
      (
        drive_settles j limit show_idle id p is s' exit held avoids ends,
        drive-Honest is s' spares (silent-Honest s.answers silent),
      )
