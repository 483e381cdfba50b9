-- ===== src/Transport/Settlement.antt =====
-- What a connection owes to its requests (`drive` of src/transport/src/lib.rs).
use codex_warden.Prelude.{
  ℕ, String, Bool, true, false, Option, some, none, List, [], ◌∷◌, ◌⊎◌, inl, inr, ◌≡◌, ◌≢◌, refl,
  ap, sym, ite, ◌∙◌, arith, lookup, remove, lookup-insert, lookup-remove, map, has, All, ℕ_discrete,
  Result, ok, err, Option-cases,
}
use codex_warden.Protocol.Json.{Json, RpcId}
use codex_warden.Protocol.Frame.{IncomingFrame, parse}
use codex_warden.Transport.Request.{Reply}
use codex_warden.Transport.Drive.{
  rpc_id_discrete, Command, notify, reconciled, Pending, DriveExit, Incoming, ended, failed, ping,
  json, Input, command, message, tick, gate, Connection, obey, answer, accept, hear, round, rounds,
  settle, drive, exit_detail,
}

module _ {V : Type 0} (j : Json V) (read_idle_timeout : ℕ) (show_idle : ℕ → String) where
  -- The request is pending still, or its channel has been answered.
  abbrev pub Kept : RpcId → Pending → Connection V → Type 0
  Kept id p s =
      (lookup rpc_id_discrete id s.pending ≡ some p)
      ⊎ (has ℕ_discrete p.response (map (λ a. a.0) s.answers) ≡ true)

  -- No request takes the id again.
  abbrev pub Avoids : RpcId → Input V → Type 0
  Avoids id (command (some (Command.request k m params response)) write_error) = k ≢ id
  Avoids id _ = Unit

  settle-has :
      (detail : String) (channel : ℕ) (pending : List (RpcId × Pending))
      (answers : List (ℕ × Reply V))
      → has ℕ_discrete channel (map (λ a. a.0) answers) ≡ true
      → has ℕ_discrete channel (map (λ a. a.0) (settle detail pending answers)) ≡ true
  unfolding settle has
  settle-has detail channel [] answers h = h
  settle-has detail channel ((id, p) ∷ rest) answers h =
      ground (arith, settle-has detail channel rest answers h)

  settle-lookup :
      (detail : String) (id : RpcId) (p : Pending) (pending : List (RpcId × Pending))
      (answers : List (ℕ × Reply V))
      → lookup rpc_id_discrete id pending ≡ some p
      → has ℕ_discrete p.response (map (λ a. a.0) (settle detail pending answers)) ≡ true
  unfolding settle has lookup
  settle-lookup detail id p [] answers h = cc
  settle-lookup detail id p ((k, q) ∷ rest) answers h = elim (rpc_id_discrete k id) [
    | yes e ↦ ground (arith, h)
    | no e ↦ ground (arith, settle-lookup detail id p rest answers)
  ]

  obey-Kept :
      (id : RpcId) (p : Pending) (c : Option (Command V)) (error : Option String) (s : Connection V)
      → Avoids id (command c error)
      → Kept id p s
      → Kept id p (obey j read_idle_timeout show_idle c error s).0
  unfolding obey has
  obey-Kept id p none error s h k = k
  obey-Kept id p (some (Command.request q m params response)) (some error) s h (inl k) = inl k
  obey-Kept id p (some (Command.request q m params response)) (some error) s h (inr k) =
      inr (ground (arith, k))
  obey-Kept id p (some (Command.request q m params response)) none s h (inl k) = inl (
      ground (
        arith,
        k,
        h,
        lookup-insert rpc_id_discrete q id (record { method = m; response = response }) s.pending,
      ))
  obey-Kept id p (some (Command.request q m params response)) none s h (inr k) = inr k
  obey-Kept id p (some (notify m params)) (some error) s h k = k
  obey-Kept id p (some (notify m params)) none s h k = k
  obey-Kept id p (some (reconciled done)) error s h k = k
  obey-Kept id p (some (Command.shutdown done)) error s h k = k

  answer-Kept :
      (id : RpcId) (p : Pending) (frame : IncomingFrame V) (s : Connection V)
      → Kept id p s
      → Kept id p (answer j read_idle_timeout show_idle frame s)
  unfolding answer has
  answer-Kept id p (IncomingFrame.response q result error raw) s k =
      elim (Option-cases (lookup rpc_id_discrete q s.pending)) [
        | inl e ↦ rw (e, answer) k
        | inr (r, e) ↦ rw (e, answer) (split r e k)
      ]
    where
      split :
          (r : Pending)
          → lookup rpc_id_discrete q s.pending ≡ some r
          → Kept id p s
          → (lookup rpc_id_discrete id (remove rpc_id_discrete q s.pending) ≡ some p)
            ⊎ (ite
                  (ℕ_discrete r.response p.response)
                  true
                  (has ℕ_discrete p.response (map (λ a. a.0) s.answers))
                ≡ true)
      split r e (inr k) = inr (ground (arith, k))
      split r e (inl k) = elim (rpc_id_discrete q id) [
        | yes same ↦
            let both : Path (Option Pending) (some r) (some p) =
              sym e ∙ ap (λ x. lookup rpc_id_discrete x s.pending) same ∙ k in
            inr (ground (arith, both))
        | no other ↦ inl (ground (arith, k, lookup-remove rpc_id_discrete q id s.pending))
      ]
  answer-Kept id p (IncomingFrame.notification m params known raw) s k = k
  answer-Kept id p (IncomingFrame.server_request q m params known raw) s k = k

  hear-Kept :
      (unix now : ℕ) (ingress : Bool) (id : RpcId) (p : Pending) (m : Incoming V) (s : Connection V)
      → Kept id p s
      → Kept id p (hear j read_idle_timeout show_idle unix now ingress m s).0
  unfolding hear accept
  hear-Kept unix now ingress id p ended s k = k
  hear-Kept unix now ingress id p (failed error) s k = k
  hear-Kept unix now ingress id p ping s k = k
  hear-Kept unix now ingress id p (json (err error)) s k = k
  hear-Kept unix now ingress id p (json (ok none)) s k = k
  hear-Kept unix now ingress id p (json (ok (some value))) s k = go (parse j value) refl ingress
    where
      go :
          (parsed : Result (IncomingFrame V) String)
          → parse j value ≡ parsed
          → (here : Bool)
          → Kept id p
              (hear j read_idle_timeout show_idle unix now here (json (ok (some value))) s).0
      go (err e) q here = rw (q, hear) k
      go (ok frame) q true = rw (q, hear) (answer-Kept id p frame _ k)
      go (ok frame) q false = rw (q, hear) (answer-Kept id p frame _ k)

  round-Kept :
      (now : ℕ) (id : RpcId) (p : Pending) (i : Input V) (s : Connection V)
      → Avoids id i
      → Kept id p s
      → Kept id p (round j read_idle_timeout show_idle now i s).0
  unfolding round
  round-Kept now id p (command c error) s h k = obey-Kept id p c error s h k
  round-Kept now id p (message m unix ingress) s h k = hear-Kept unix now ingress id p m s k
  round-Kept now id p (tick written) s h k = k
  round-Kept now id p (gate is_open) s h k = k

  rounds-Kept :
      (id : RpcId) (p : Pending) (is : List (ℕ × Input V)) (s : Connection V)
      → All (λ i. Avoids id i.1) is
      → Kept id p s
      → Kept id p (rounds j read_idle_timeout show_idle is s).0
  unfolding rounds
  rounds-Kept id p [] s h k = k
  rounds-Kept id p ((now, i) ∷ is) s h k =
      let k' = round-Kept now id p i s h.0 k in
      elim (Option-cases (round j read_idle_timeout show_idle now i s).1) [
        | inl e ↦ rw (e, rounds) (rounds-Kept id p is _ h.1 k')
        | inr (x, e) ↦ rw (e, rounds) k'
      ]

  -- However a connection ends, each request that is pending at some moment has an answer on its
  -- channel by then, if no later request of that connection takes its id again.
  pub drive_settles :
      (id : RpcId) (p : Pending) (is : List (ℕ × Input V)) (s : Connection V) (exit : DriveExit)
      → lookup rpc_id_discrete id s.pending ≡ some p
      → All (λ i. Avoids id i.1) is
      → (drive j read_idle_timeout show_idle is s).1 ≡ some exit
      → has ℕ_discrete p.response
          (map (λ a. a.0) (drive j read_idle_timeout show_idle is s).0.answers)
        ≡ true
  unfolding drive
  drive_settles id p is s exit waiting unused ends =
      elim (Option-cases (rounds j read_idle_timeout show_idle is s).1) [
        | inl e ↦ absurd (ground (arith, e, ends))
        | inr (x, e) ↦
            rw (e, drive)
              (elim (rounds-Kept id p is s unused (inl waiting)) [
                | inl k ↦ settle-lookup (exit_detail x) id p _ _ k
                | inr k ↦ settle-has (exit_detail x) p.response _ _ k
              ])
      ]
