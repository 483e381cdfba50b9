-- ===== src/Transport/System/Fresh.antt =====
-- What a round of a connection does to what is pending and answered (`drive` and `initialize` of
-- src/transport/src/lib.rs).
use codex_warden.Prelude.{
  ℕ, ◌+◌, ◌≤◌, String, Bool, true, false, Option, some, none, [], ◌∷◌, Result, ok, err, ◌≡◌, ◌⊎◌,
  refl, ap, ◌∙◌, add64, arith, lookup, Option-cases, inl, inr,
}
use codex_warden.Protocol.Json.{Json, RpcId}
use codex_warden.Protocol.Frame
use codex_warden.Protocol.Frame.{IncomingFrame, parse}
use codex_warden.Transport.Drive.{
  rpc_id_discrete, Command, notify, reconciled, Pending, DriveExit, Incoming, ended, failed, ping,
  json, Input, command, message, tick, gate, Connection, obey, answer, accept, hear, round, rounds,
  drive, settle, exit_detail,
}
use codex_warden.Transport.System.Tally.{
  carries, carries_id, answered, pending, pending_id, pending-insert, pending_id-insert,
  pending-remove, pending_id-remove, answered-settle,
}

module _ {V : Type 0} where
  -- How often a channel is pending or answered.
  abbrev pub load : ℕ → Connection V → ℕ
  load n c = pending n c.pending + answered n c.answers

  -- A change that takes over a request, or none.
  pub record Passes (extra : ℕ → ℕ) (ids : RpcId → ℕ) (c c' : Connection V) : Type 0 where
    pub loads : (n : ℕ) → load n c' ≡ extra n + load n c
    pub names : (k : RpcId) → pending_id k c'.pending ≤ ids k + pending_id k c.pending

  same :
      (c c' : Connection V)
      → c'.pending ≡ c.pending
      → c'.answers ≡ c.answers
      → Passes (λ _. 0) (λ _. 0) c c'
  same c c' p a = record { loads = λ n. rw (p, a) (omega arith); names = λ k. rw p (omega arith) }

  -- The id of a request that is taken is not pending, and the input is not a write of the gate.
  abbrev pub Takes : Option (Command V) → Connection V → Type 0
  Takes (some (Command.request id m params response)) c = pending_id id c.pending ≡ 0
  Takes _ c = Unit

  abbrev pub extra_of : Option (Command V) → ℕ → ℕ
  extra_of none n = 0
  extra_of (some c) n = carries n c

  abbrev pub ids_of : Option (Command V) → RpcId → ℕ
  ids_of none k = 0
  ids_of (some c) k = carries_id k c

module _ {V : Type 0} (j : Json V) (limit : ℕ) (show_idle : ℕ → String) where
  obey-Passes :
      (cmd : Option (Command V)) (error : Option String) (c : Connection V)
      → Takes cmd c
      → Passes (extra_of cmd) (ids_of cmd) c (obey j limit show_idle cmd error c).0
  unfolding obey
  obey-Passes none error c h = same _ _ refl refl
  obey-Passes (some (Command.request id m params response)) (some error) c h = record {
    loads = λ n. omega arith;
    names = λ k. omega arith;
  }
  obey-Passes (some (Command.request id m params response)) none c h =
      let p : Pending = record { method = m; response = response } in
      record {
        loads = λ n. omega (arith, pending-insert n id p c.pending h);
        names = λ k. omega (arith, pending_id-insert k id p c.pending h);
      }
  obey-Passes (some (notify m params)) (some error) c h = same _ _ refl refl
  obey-Passes (some (notify m params)) none c h = same _ _ refl refl
  obey-Passes (some (reconciled done)) error c h = same _ _ refl refl
  obey-Passes (some (Command.shutdown done)) error c h = same _ _ refl refl

  answer-Passes :
      (frame : IncomingFrame V) (c : Connection V)
      → ((k : RpcId) → pending_id k c.pending ≤ 1)
      → Passes (λ _. 0) (λ _. 0) c (answer j limit show_idle frame c)
  unfolding answer
  answer-Passes (Frame.notification m params known raw) c few = same _ _ refl refl
  answer-Passes (Frame.server_request id m params known raw) c few = same _ _ refl refl
  answer-Passes (Frame.response id result error raw) c few =
      elim (Option-cases (lookup rpc_id_discrete id c.pending)) [
        | inl e ↦ rw (e, answer) ((same _ _ refl refl))
        | inr (p, e) ↦
            rw (e, answer)
              (record {
                loads = λ n. omega (arith, pending-remove n id p c.pending (few id) e);
                names = λ k. omega (arith, pending_id-remove k id c.pending);
              })
      ]

  hear-Passes :
      (unix now : ℕ) (ingress : Bool) (m : Incoming V) (c : Connection V)
      → ((k : RpcId) → pending_id k c.pending ≤ 1)
      → Passes (λ _. 0) (λ _. 0) c (hear j limit show_idle unix now ingress m c).0
  unfolding hear accept
  hear-Passes unix now ingress ended c few = same _ _ refl refl
  hear-Passes unix now ingress (failed error) c few = same _ _ refl refl
  hear-Passes unix now ingress ping c few = same _ _ refl refl
  hear-Passes unix now ingress (json (err error)) c few = same _ _ refl refl
  hear-Passes unix now ingress (json (ok none)) c few = same _ _ refl refl
  hear-Passes unix now ingress (json (ok (some value))) c few = go (parse j value) refl ingress
    where
      accepted :
          (frame : IncomingFrame V) (t : ℕ)
          → let c' =
              answer j limit show_idle frame
                (record c { last_read = t; sequence = add64 c.sequence 1 }) in
            (c'' : Connection V)
            → c''.pending ≡ c'.pending
            → c''.answers ≡ c'.answers
            → Passes (λ _. 0) (λ _. 0) c c''
      accepted frame t c'' p a =
          let h =
            answer-Passes frame (record c { last_read = t; sequence = add64 c.sequence 1 }) few in
          record { loads = λ n. rw (p, a) (h.loads n); names = λ k. rw p (h.names k) }

      go :
          (parsed : Result (IncomingFrame V) String)
          → parse j value ≡ parsed
          → (here : Bool)
          → Passes
              (λ _. 0)
              (λ _. 0)
              c
              (hear j limit show_idle unix now here (json (ok (some value))) c).0
      go (err e) q here = rw (q, hear) ((same _ _ refl refl))
      go (ok frame) q true = rw (q, hear) (accepted frame now _ refl refl)
      go (ok frame) q false = rw (q, hear) (accepted frame now _ refl refl)

  abbrev pub extra_in : Input V → ℕ → ℕ
  extra_in (command c error) = extra_of c
  extra_in _ = λ _. 0

  abbrev pub ids_in : Input V → RpcId → ℕ
  ids_in (command c error) = ids_of c
  ids_in _ = λ _. 0

  abbrev pub Fits : Input V → Connection V → Type 0
  Fits (command c error) s = Takes c s
  Fits _ s = Unit

  round-Passes :
      (now : ℕ) (i : Input V) (c : Connection V)
      → Fits i c
      → ((k : RpcId) → pending_id k c.pending ≤ 1)
      → Passes (extra_in i) (ids_in i) c (round j limit show_idle now i c).0
  unfolding round
  round-Passes now (command cmd error) c h few = obey-Passes cmd error c h
  round-Passes now (message m unix ingress) c h few = hear-Passes unix now ingress m c few
  round-Passes now (tick written) c h few = same _ _ refl refl
  round-Passes now (gate is_open) c h few = same _ _ refl refl

  rounds-one :
      (now : ℕ) (i : Input V) (c : Connection V)
      → rounds j limit show_idle ((now, i) ∷ []) c ≡ round j limit show_idle now i c
  unfolding rounds
  rounds-one now i c = go (round j limit show_idle now i c)
    where
      go :
          (r : Connection V × Option DriveExit)
          → elim r.1 [ some e ↦ (r.0, some e) | none ↦ (r.0, none) ] ≡ r
      go (c, none) = refl
      go (c, some e) = refl

  -- The end of `drive` after its rounds.
  abbrev pub closing : Connection V × Option DriveExit → Connection V × Option DriveExit
  closing (c, none) = (c, none)
  closing (c, some e) =
      (record c { pending = []; answers = settle (exit_detail e) c.pending c.answers }, some e)

  pub drive-one :
      (now : ℕ) (i : Input V) (c : Connection V)
      → drive j limit show_idle ((now, i) ∷ []) c ≡ closing (round j limit show_idle now i c)
  unfolding drive
  drive-one now i c =
      body (rounds j limit show_idle ((now, i) ∷ []) c) ∙ ap closing (rounds-one now i c)
    where
      body :
          (r : Connection V × Option DriveExit)
          → elim r.1 [
            | none ↦ (r.0, none)
            | some e ↦ (
              record (r.0) {
                pending = [];
                answers = settle (exit_detail e) r.0.pending r.0.answers;
              },
              some e,
            )
          ]
            ≡ closing r
      body (c, none) = refl
      body (c, some e) = refl

  closing-Passes :
      {extra : ℕ → ℕ} {ids : RpcId → ℕ} (c : Connection V) (r : Connection V × Option DriveExit)
      → Passes extra ids c r.0
      → Passes extra ids c (closing r).0 × (((closing r).1 ≡ none) ⊎ ((closing r).0.pending ≡ []))
  closing-Passes c (c', none) p = (p, inl refl)
  closing-Passes c (c', some e) p = (
    record {
      loads =
          λ n. omega (arith, p.loads n, answered-settle n (exit_detail e) c'.pending c'.answers);
      names = λ k. omega arith;
    },
    inr refl,
  )

  -- One round of `drive`: nothing is left pending if it is the last.
  pub drive-Passes :
      (now : ℕ) (i : Input V) (c : Connection V)
      → Fits i c
      → ((k : RpcId) → pending_id k c.pending ≤ 1)
      → let (c', exit) = drive j limit show_idle ((now, i) ∷ []) c in
        Passes (extra_in i) (ids_in i) c c' × ((exit ≡ none) ⊎ (c'.pending ≡ []))
  drive-Passes now i c h few =
      rw (drive-one now i c)
        (closing-Passes c (round j limit show_idle now i c) (round-Passes now i c h few))
