-- ===== src/Transport/System/Account.antt =====
-- Every request is queued, pending or answered, once (`TransportHandle` and `connection_loop` of
-- src/transport/src/lib.rs).
use codex_warden.Prelude.{
  ℕ, ◌+◌, ◌≤◌, ◌<◌, u64_max, String, Bool, true, false, not, ◌&&◌, List, [], ◌∷◌, ◌≡◌, ◌⊎◌, inl,
  inr, refl, length, arith, Bool-cases, if◌then◌else◌,
}
use codex_warden.Protocol.Json.{Json}
use codex_warden.Transport.Handshake.{TransportConfig}
use codex_warden.Transport.Handle.{Awaited, request_inner}
use codex_warden.Transport.System.{
  System, Move, asks, notifies, marks, shuts, takes, rejects, hears, ticks, connects, step, steps,
  start,
}
use codex_warden.Transport.System.Tally.{answered, pending, queued}
use codex_warden.Transport.System.Conserve.{held, Sound}
use codex_warden.Transport.System.Kept.{
  notify-Moves, mark-Moves, shutdown-Moves, reject-Moves, take-Moves, hear-Moves, tick-Moves, stays,
}
use codex_warden.Transport.System.Asked.{Goes, Moves-Goes, asks-Goes}
use codex_warden.Transport.System.Connected.{connect-Moves}

module _ {V : Type 0} where
  waits-Goes : (s : System V) → Sound s → Goes s s
  waits-Goes s h = Moves-Goes s s (stays s h) h

  guarded :
      (here : Bool) (s s' : System V)
      → Sound s
      → (here ≡ true → Goes s s')
      → Goes s (if here then s' else s)
  guarded true s s' h goes = goes refl
  guarded false s s' h goes = waits-Goes s h

  rests : (s : System V) → Sound s → (s.live ≡ true) ⊎ (s.connection.pending ≡ [])
  rests s h = elim (Bool-cases s.live) [ inl e ↦ inl e | inr e ↦ inr (h.idle e) ]

module _ {V : Type 0} (j : Json V) (config : TransportConfig) (show_idle : ℕ → String) where
  step-Goes :
      (m : Move V) (s : System V)
      → s.handle.next_id < u64_max
      → Sound s
      → Goes s (step j config show_idle m s)
  unfolding step
  step-Goes (asks method params action awaited) s room h =
      asks-Goes method params action awaited s room h
  step-Goes (notifies method params) s room h = Moves-Goes s _ (notify-Moves method params s h) h
  step-Goes (marks acknowledged) s room h = Moves-Goes s _ (mark-Moves acknowledged s h) h
  step-Goes shuts s room h = Moves-Goes s _ (shutdown-Moves s h) h
  step-Goes (takes now error) s room h =
      guarded s.live s _ h (λ e. Moves-Goes s _ (take-Moves j config show_idle now error s h) h)
  step-Goes (hears now m unix ingress) s room h =
      guarded s.live s _ h
        (λ e. Moves-Goes s _ (hear-Moves j config show_idle now m unix ingress s h) h)
  step-Goes (ticks now written) s room h =
      guarded s.live s _ h (λ e. Moves-Goes s _ (tick-Moves j config show_idle now written s h) h)
  step-Goes (rejects detail) s room h =
      guarded (not s.live && s.handle.is_open) s _ h
        (λ e. Moves-Goes s _ (reject-Moves detail s (ground (arith, e)) h) h)
  step-Goes (connects k begun) s room h =
      guarded (not s.live && s.handle.is_open) s _ h
        (λ e. Moves-Goes s _ (connect-Moves j config show_idle k begun s (ground (arith, e)) h) h)

  -- Over moves that cannot use up the ids.
  steps-Goes :
      (ms : List (Move V)) (s : System V)
      → s.handle.next_id + length ms ≤ u64_max
      → Sound s
      → Sound (steps j config show_idle ms s)
        × ((n : ℕ) → held n s ≤ held n (steps j config show_idle ms s))
        × ((steps j config show_idle ms s).handle.next_id ≤ s.handle.next_id + length ms)
  unfolding steps
  steps-Goes [] s room h = (h, λ n. omega arith, omega arith)
  steps-Goes (m ∷ ms) s room h =
      let g = step-Goes m s (omega arith) h in
      let s' = step j config show_idle m s in
      let (sound, holds, ids) = steps-Goes ms s' (omega (arith, g.ids)) g.sound in
      (sound, λ n. omega (arith, g.holds n, holds n), omega (arith, g.ids, ids))

  asks-held :
      (method : String) (params : V) (action : Bool) (awaited : Awaited V) (s : System V)
      → s.handle.is_open ≡ true
      → (action && not s.handle.reconcile_ready) ≡ false
      → 1 ≤ held s.handle.channels (step j config show_idle (asks method params action awaited) s)
  unfolding step request_inner
  asks-held method params action awaited s is_open passes = ground arith

  start-Sound : Sound (start j config show_idle)
  start-Sound = record {
    one = λ k. omega arith;
    young = λ n le. refl;
    once = λ n. omega arith;
    unused = λ n le. refl;
    idle = λ e. refl;
  }

  -- A request that a caller makes is never lost and never answered twice. Take any moves from the
  -- start of the transport, then a request while the task's end of the queue is open, an action
  -- only with the gate open, then any moves again, fewer in all than there are ids. At the end the
  -- request's channel is held once: by a queued command, by a pending request or by an answer; and
  -- nothing is pending unless a connection is driven. No channel is answered twice.
  pub request-answered :
      (before after : List (Move V)) (method : String) (params : V) (action : Bool)
      (awaited : Awaited V) (n : ℕ)
      → length before + length after + 2 < u64_max
      → let s = steps j config show_idle before (start j config show_idle) in
        let t =
          steps j config show_idle after
            (step j config show_idle (asks method params action awaited) s) in
        s.handle.is_open ≡ true
        → (action && not s.handle.reconcile_ready) ≡ false
        → (queued s.handle.channels t.handle.commands
              + pending s.handle.channels t.connection.pending
              + answered s.handle.channels t.connection.answers
            ≡ 1)
          × ((t.live ≡ true) ⊎ (t.connection.pending ≡ []))
          × (answered n t.connection.answers ≤ 1)
  request-answered before after method params action awaited n room is_open passes =
      let s0 = start j config show_idle in
      let (sound, holds, ids) = steps-Goes before s0 (omega arith) start-Sound in
      let s = steps j config show_idle before s0 in
      let g = step-Goes (asks method params action awaited) s (omega (arith, ids)) sound in
      let s' = step j config show_idle (asks method params action awaited) s in
      let (sound', holds', ids') = steps-Goes after s' (omega (arith, ids, g.ids)) g.sound in
      let there = asks-held method params action awaited s is_open passes in
      let t = steps j config show_idle after s' in
      let c = s.handle.channels in
      (omega (arith, there, holds' c, sound'.once c), rests t sound', omega (arith, sound'.once n))
