-- ===== src/Transport/System/Wired.antt =====
-- All that is written to the sockets (`TransportHandle` and `connection_loop` of
-- src/transport/src/lib.rs).
use codex_warden.Prelude.{
  ℕ, suc, ◌+◌, ◌≤◌, ◌<◌, u64_max, String, Bool, false, not, ◌&&◌, some, List, ◌≡◌, refl, arith,
  Option-cases, Bool-cases, inl, inr,
}
use codex_warden.Protocol.Json.{Json, RpcId, number}
use codex_warden.Transport.Drive.{
  Command, notify, reconciled, DriveExit, disconnected, commands_closed, Connection,
}
use codex_warden.Transport.Reconnect.{reject_while_disconnected}
use codex_warden.Transport.Handle.{
  TransportHandle, Awaited, request_inner, notify_with, mark_reconciled,
}
use codex_warden.Transport.Handle
use codex_warden.Transport.System.{System, oldest, told, moved, leave, reject}
use codex_warden.Transport.System.Tally.{is_id, is_id-eq, carries_id, queued_id, sum_by-oldest}
use codex_warden.Transport.System.Kept.{left}
use codex_warden.Transport.System.Asked.{asked, next-is_id, number-inj}
use codex_warden.Transport.System.Wire.{written, Calls, Writes, silent}

module _ {V : Type 0} (j : Json V) where
  -- How often an id is on its way or has been written in a request.
  abbrev pub used : ℕ → System V → ℕ
  used n s =
      queued_id (number (suc n)) s.handle.commands + written j (number (suc n)) s.connection.frames

  pub record Wired (s : System V) : Type 0 where
    pub one : (n : ℕ) → used n s ≤ 1
    pub young : (n : ℕ) → s.handle.next_id ≤ suc n → used n s ≡ 0
    pub calls : Calls j s.connection.frames

  -- A move that takes no new request.
  pub record Sends (s s' : System V) : Type 0 where
    pub fewer : (n : ℕ) → used n s' ≤ used n s
    pub calls : Calls j s.connection.frames → Calls j s'.connection.frames
    pub ids : s'.handle.next_id ≡ s.handle.next_id

  pub Sends-Wired : (s s' : System V) → Sends s s' → Wired s → Wired s'
  Sends-Wired s s' m h = record {
    one = λ n. omega (arith, m.fewer n, h.one n);
    young = λ n le. omega (arith, m.fewer n, h.young n (omega (arith, m.ids)));
    calls = m.calls h.calls;
  }

  -- What a round or a handshake leaves of the queue and writes.
  pub moved-Sends :
      {ids : RpcId → ℕ} (s : System V) (rest : List (Command V)) (c : Connection V)
      (live open_ : Bool)
      → ((k : RpcId) → queued_id k s.handle.commands ≡ ids k + queued_id k rest)
      → Writes j ids s.connection c
      → Sends s (moved c live open_ (left rest s))
  moved-Sends s rest c live open_ q w = record {
    fewer = λ n. omega (arith, q (number (suc n)), w.fewer n);
    calls = w.calls;
    ids = refl;
  }

  pub leave-Sends :
      {ids : RpcId → ℕ} (s : System V) (rest : List (Command V)) (c : Connection V) (e : DriveExit)
      → ((k : RpcId) → queued_id k s.handle.commands ≡ ids k + queued_id k rest)
      → Writes j ids s.connection c
      → Sends s (leave e c (left rest s))
  unfolding leave
  leave-Sends s rest c (disconnected detail) q w =
      moved-Sends s rest _ false _ q (record { fewer = w.fewer; calls = w.calls })
  leave-Sends s rest c (DriveExit.shutdown done) q w =
      moved-Sends s rest _ false _ q (record { fewer = w.fewer; calls = w.calls })
  leave-Sends s rest c commands_closed q w = moved-Sends s rest c false _ q w

  told-Sends :
      (h : TransportHandle V) (s : System V)
      → ((k : RpcId) → queued_id k h.commands ≡ queued_id k s.handle.commands)
      → h.next_id ≡ s.handle.next_id
      → Sends s (told h s)
  told-Sends h s q next = record {
    fewer = λ n. omega (arith, q (number (suc n)));
    calls = λ c. c;
    ids = next;
  }

  pub stays-Sends : (s : System V) → Sends s s
  stays-Sends s = record { fewer = λ n. omega arith; calls = λ c. c; ids = refl }

  pub notify-Sends :
      (m : String) (params : V) (s : System V) → Sends s (told (notify_with m params s.handle).0 s)
  unfolding notify_with
  notify-Sends m params s = told-Sends _ s (λ k. ground arith) refl

  pub mark-Sends : (done : Bool) (s : System V) → Sends s (told (mark_reconciled done s.handle).0 s)
  unfolding mark_reconciled
  mark-Sends done s = told-Sends _ s (λ k. ground arith) (ground arith)

  pub shutdown-Sends : (s : System V) → Sends s (told (Handle.shutdown s.handle) s)
  unfolding Handle.shutdown
  shutdown-Sends s = told-Sends _ s (λ k. ground arith) refl

  rejected-frames :
      (detail : String) (c : Connection V) (cmd : Command V)
      → (reject_while_disconnected (some cmd) detail c).0.frames ≡ c.frames
  unfolding reject_while_disconnected
  rejected-frames detail c (Command.request id m params response) = refl
  rejected-frames detail c (notify m params) = refl
  rejected-frames detail c (reconciled done) = refl
  rejected-frames detail c (Command.shutdown done) = refl

  pub reject-Sends : (detail : String) (s : System V) → Sends s (reject detail s)
  unfolding reject
  reject-Sends detail s = elim (Option-cases (oldest s.handle.commands)) [
    | inl e ↦ rw (e, reject) (stays-Sends s)
    | inr ((rest, c), e) ↦
        rw (e, reject)
          (moved-Sends s rest _ false _
            (λ k. sum_by-oldest (carries_id k) s.handle.commands rest c e)
            (silent j (λ k. carries_id k c) s.connection _ (rejected-frames detail s.connection c)))
  ]

  -- A new request.
  asked-Wired :
      (method : String) (params : V) (s : System V)
      → s.handle.next_id < u64_max
      → Wired s
      → Wired (asked method params s)
  asked-Wired method params s room h = record {
    one = λ n. elim (Bool-cases (is_id (number s.handle.next_id) (number (suc n)))) [
      | inl e ↦
          let same : s.handle.next_id ≡ suc n =
            number-inj _ _ (is_id-eq (number s.handle.next_id) (number (suc n)) e) in
          ground (arith, e, h.young n (omega arith))
      | inr e ↦ ground (arith, e, h.one n)
    ];
    young = λ n le.
        let later : s.handle.next_id + 1 ≤ suc n = omega arith in
        ground (arith, next-is_id s.handle.next_id (suc n) later, h.young n (omega arith));
    calls = h.calls;
  }

  pub asks-Wired :
      (method : String) (params : V) (action : Bool) (awaited : Awaited V) (s : System V)
      → s.handle.next_id < u64_max
      → Wired s
      → Wired (told (request_inner method params action awaited s.handle).0 s)
        × ((told (request_inner method params action awaited s.handle).0 s).handle.next_id
            ≤ s.handle.next_id + 1)
  unfolding request_inner
  asks-Wired method params action awaited s room h =
      elim (Bool-cases (action && not s.handle.reconcile_ready)) [
        | inl e ↦
            rw (e, request_inner)
              (Sends-Wired s _ (told-Sends s.handle s (λ k. refl) refl) h, omega arith)
        | inr e ↦ rw (e, request_inner) (asked-Wired method params s room h, omega arith)
      ]
