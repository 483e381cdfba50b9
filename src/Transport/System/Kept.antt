-- ===== src/Transport/System/Kept.antt =====
-- The moves that take no new request keep every request (`TransportHandle`, `drive` and
-- `connection_loop` of src/transport/src/lib.rs).
use codex_warden.Prelude.{
  ℕ, ◌+◌, ◌≤◌, String, Bool, false, Option, some, List, [], ◌≡◌, inl, inr, refl, ◌∙◌, arith,
  Option-cases,
}
use codex_warden.Protocol.Json.{Json, RpcId}
use codex_warden.Transport.Drive.{
  Command, notify, reconciled, Incoming, command, message, tick, Connection,
}
use codex_warden.Transport.Handshake.{TransportConfig}
use codex_warden.Transport.Reconnect.{reject_while_disconnected}
use codex_warden.Transport.Handle.{TransportHandle, notify_with, mark_reconciled}
use codex_warden.Transport.Handle
use codex_warden.Transport.System.{System, told, moved, oldest, react, take, reject}
use codex_warden.Transport.System.Tally.{
  carries, carries_id, queued, queued_id, sum_by-oldest, is_id_self,
}
use codex_warden.Transport.System.Fresh.{Passes, Takes}
use codex_warden.Transport.System.Conserve.{Sound, Moves, Reacts, Reacts-moved, react-Reacts}

module _ {V : Type 0} where
  -- A system with the rest of its queue.
  abbrev pub left : List (Command V) → System V → System V
  left rest s = record s { handle = record (s.handle) { commands = rest } }

  Reacts-Moves :
      {extra : ℕ → ℕ} {ids : RpcId → ℕ} (s s' : System V) (rest : List (Command V))
      → ((n : ℕ) → queued n s.handle.commands ≡ extra n + queued n rest)
      → ((k : RpcId) → queued_id k s.handle.commands ≡ ids k + queued_id k rest)
      → Reacts extra ids (left rest s) s'
      → Moves s s'
  Reacts-Moves s s' rest q q_id r = record {
    holds = λ n. rw (r.queue) (omega (arith, q n, r.passes.loads n));
    names = λ k. rw (r.queue) (omega (arith, q_id k, r.passes.names k));
    ids = r.next;
    channels = omega (arith, r.channels);
    rests = r.rests;
  }

  -- The id of the oldest command is not pending.
  oldest-Takes :
      (s : System V) (rest : List (Command V)) (c : Command V)
      → oldest s.handle.commands ≡ some (rest, c)
      → Sound s
      → Takes (some c) s.connection
  oldest-Takes s rest (Command.request id m params response) e h =
      let q =
        sum_by-oldest (carries_id id) s.handle.commands rest (Command.request id m params response)
          e in
      ground (arith, h.one id, is_id_self id, q)
  oldest-Takes s rest (notify m params) e h = tt
  oldest-Takes s rest (reconciled done) e h = tt
  oldest-Takes s rest (Command.shutdown done) e h = tt

  pub stays : (s : System V) → Sound s → Moves s s
  stays s h = record {
    holds = λ n. refl;
    names = λ k. omega arith;
    ids = refl;
    channels = omega arith;
    rests = h.idle;
  }

  pub told-Moves :
      (h : TransportHandle V) (s : System V)
      → Sound s
      → ((n : ℕ) → queued n h.commands ≡ queued n s.handle.commands)
      → ((k : RpcId) → queued_id k h.commands ≡ queued_id k s.handle.commands)
      → h.next_id ≡ s.handle.next_id
      → s.handle.channels ≤ h.channels
      → Moves s (told h s)
  told-Moves h s sound q q_id next channels = record {
    holds = λ n. omega (arith, q n);
    names = λ k. omega (arith, q_id k);
    ids = next;
    channels = channels;
    rests = sound.idle;
  }

  pub notify-Moves :
      (m : String) (params : V) (s : System V)
      → Sound s
      → Moves s (told (notify_with m params s.handle).0 s)
  unfolding notify_with
  notify-Moves m params s h =
      told-Moves _ s h (λ n. ground arith) (λ k. ground arith) refl (omega arith)

  pub mark-Moves :
      (done : Bool) (s : System V) → Sound s → Moves s (told (mark_reconciled done s.handle).0 s)
  unfolding mark_reconciled
  mark-Moves done s h =
      told-Moves _ s h (λ n. ground arith) (λ k. ground arith) (ground arith) (ground arith)

  pub shutdown-Moves : (s : System V) → Sound s → Moves s (told (Handle.shutdown s.handle) s)
  unfolding Handle.shutdown
  shutdown-Moves s h = told-Moves _ s h (λ n. ground arith) (λ k. ground arith) refl (omega arith)

  rejected-Passes :
      (detail : String) (c : Connection V) (cmd : Command V)
      → Passes
          (λ n. carries n cmd)
          (λ k. carries_id k cmd)
          c
          (reject_while_disconnected (some cmd) detail c).0
  unfolding reject_while_disconnected
  rejected-Passes detail c (Command.request id m params response) = record {
    loads = λ n. omega arith;
    names = λ k. omega arith;
  }
  rejected-Passes detail c (notify m params) = record {
    loads = λ n. omega arith;
    names = λ k. omega arith;
  }
  rejected-Passes detail c (reconciled done) = record {
    loads = λ n. omega arith;
    names = λ k. omega arith;
  }
  rejected-Passes detail c (Command.shutdown done) = record {
    loads = λ n. omega arith;
    names = λ k. omega arith;
  }

  pub rejected-pending :
      (detail : String) (c : Connection V) (cmd : Command V)
      → (reject_while_disconnected (some cmd) detail c).0.pending ≡ c.pending
  unfolding reject_while_disconnected
  rejected-pending detail c (Command.request id m params response) = refl
  rejected-pending detail c (notify m params) = refl
  rejected-pending detail c (reconciled done) = refl
  rejected-pending detail c (Command.shutdown done) = refl

  rejected-Reacts :
      (detail : String) (s : System V) (cmd : Command V) (open_ : Bool)
      → s.connection.pending ≡ []
      → Reacts
          (λ n. carries n cmd)
          (λ k. carries_id k cmd)
          s
          (moved (reject_while_disconnected (some cmd) detail s.connection).0 false open_ s)
  rejected-Reacts detail s cmd open_ none_ =
      Reacts-moved s _ false open_ (rejected-Passes detail s.connection cmd)
        (λ q. rejected-pending detail s.connection cmd ∙ none_)

  pub reject-Moves :
      (detail : String) (s : System V) → s.live ≡ false → Sound s → Moves s (reject detail s)
  unfolding reject
  reject-Moves detail s down h = elim (Option-cases (oldest s.handle.commands)) [
    | inl e ↦ rw (e, reject) (stays s h)
    | inr ((rest, c), e) ↦
        rw (e, reject)
          (Reacts-Moves s _ rest (λ n. sum_by-oldest (carries n) s.handle.commands rest c e)
            (λ k. sum_by-oldest (carries_id k) s.handle.commands rest c e)
            (rejected-Reacts detail (left rest s) c _ (h.idle down)))
  ]

module _ {V : Type 0} (j : Json V) (config : TransportConfig) (show_idle : ℕ → String) where
  pub take-Moves :
      (now : ℕ) (error : Option String) (s : System V)
      → Sound s
      → Moves s (take j config show_idle now error s)
  unfolding take
  take-Moves now error s h = elim (Option-cases (oldest s.handle.commands)) [
    | inl e ↦ rw (e, take) (stays s h)
    | inr ((rest, c), e) ↦
        rw (e, take)
          (Reacts-Moves s _ rest (λ n. sum_by-oldest (carries n) s.handle.commands rest c e)
            (λ k. sum_by-oldest (carries_id k) s.handle.commands rest c e)
            (react-Reacts j config show_idle now (command (some c) error) (left rest s)
              (oldest-Takes s rest c e h) (λ k. omega (arith, h.one k))))
  ]

  pub hear-Moves :
      (now : ℕ) (m : Incoming V) (unix : ℕ) (ingress : Bool) (s : System V)
      → Sound s
      → Moves s (react j config show_idle now (message m unix ingress) s)
  hear-Moves now m unix ingress s h =
      Reacts-Moves s _ s.handle.commands (λ n. omega arith) (λ k. omega arith)
        (react-Reacts j config show_idle now (message m unix ingress) s tt
          (λ k. omega (arith, h.one k)))

  pub tick-Moves :
      (now : ℕ) (ping_written : Bool) (s : System V)
      → Sound s
      → Moves s (react j config show_idle now (tick ping_written) s)
  tick-Moves now ping_written s h =
      Reacts-Moves s _ s.handle.commands (λ n. omega arith) (λ k. omega arith)
        (react-Reacts j config show_idle now (tick ping_written) s tt (λ k. omega (arith, h.one k)))
