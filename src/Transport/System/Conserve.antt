-- ===== src/Transport/System/Conserve.antt =====
-- Every request is queued, pending or answered, once (`TransportHandle` and `connection_loop` of
-- src/transport/src/lib.rs).
use codex_warden.Prelude.{
  ℕ, ◌+◌, ◌≤◌, String, Bool, true, false, Option, some, none, [], ◌∷◌, ◌≡◌, ◌⊎◌, inl, inr, refl,
  arith,
}
use codex_warden.Protocol.Json.{Json, RpcId, number}
use codex_warden.Transport.Drive.{
  DriveExit, disconnected, commands_closed, Input, Connection, drive,
}
use codex_warden.Transport.Handshake.{TransportConfig}
use codex_warden.Transport.System.{System, moved, leave, react}
use codex_warden.Transport.System.Tally.{queued, queued_id, pending_id}
use codex_warden.Transport.System.Fresh.{load, Passes, Fits, extra_in, ids_in, drive-Passes}

module _ {V : Type 0} where
  -- How often a channel is held, and an id is used.
  abbrev pub held : ℕ → System V → ℕ
  held n s = queued n s.handle.commands + load n s.connection

  abbrev pub uses : RpcId → System V → ℕ
  uses k s = queued_id k s.handle.commands + pending_id k s.connection.pending

  -- Ids and channels are used once, and only those given out; nothing is pending between
  -- connections.
  pub record Sound (s : System V) : Type 0 where
    pub one : (k : RpcId) → uses k s ≤ 1
    pub young : (n : ℕ) → s.handle.next_id ≤ n → uses (number n) s ≡ 0
    pub once : (n : ℕ) → held n s ≤ 1
    pub unused : (n : ℕ) → s.handle.channels ≤ n → held n s ≡ 0
    pub idle : s.live ≡ false → s.connection.pending ≡ []

  -- A move that takes no new request: nothing is lost or held twice.
  pub record Moves (s s' : System V) : Type 0 where
    pub holds : (n : ℕ) → held n s' ≡ held n s
    pub names : (k : RpcId) → uses k s' ≤ uses k s
    pub ids : s'.handle.next_id ≡ s.handle.next_id
    pub channels : s.handle.channels ≤ s'.handle.channels
    pub rests : s'.live ≡ false → s'.connection.pending ≡ []

  pub Moves-Sound : (s s' : System V) → Moves s s' → Sound s → Sound s'
  Moves-Sound s s' m h = record {
    one = λ k. omega (arith, m.names k, h.one k);
    young = λ n le. omega (arith, m.names (number n), h.young n (omega (arith, m.ids)));
    once = λ n. omega (arith, m.holds n, h.once n);
    unused = λ n le. omega (arith, m.holds n, h.unused n (omega (arith, m.channels)));
    idle = m.rests;
  }

  -- What a round leaves: the handle's queue and counters, and a connection that passes on.
  pub record Reacts (extra : ℕ → ℕ) (ids : RpcId → ℕ) (s s' : System V) : Type 0 where
    pub queue : s'.handle.commands ≡ s.handle.commands
    pub next : s'.handle.next_id ≡ s.handle.next_id
    pub channels : s'.handle.channels ≡ s.handle.channels
    pub passes : Passes extra ids s.connection s'.connection
    pub rests : s'.live ≡ false → s'.connection.pending ≡ []

  pub Reacts-moved :
      {extra : ℕ → ℕ} {ids : RpcId → ℕ} (s : System V) (c : Connection V) (live open_ : Bool)
      → Passes extra ids s.connection c
      → (live ≡ false → c.pending ≡ [])
      → Reacts extra ids s (moved c live open_ s)
  Reacts-moved s c live open_ p r = record {
    queue = refl;
    next = refl;
    channels = refl;
    passes = record { loads = p.loads; names = p.names };
    rests = r;
  }

  leave-Reacts :
      {extra : ℕ → ℕ} {ids : RpcId → ℕ} (s : System V) (c : Connection V) (e : DriveExit)
      → Passes extra ids s.connection c
      → c.pending ≡ []
      → Reacts extra ids s (leave e c s)
  unfolding leave
  leave-Reacts s c (disconnected detail) p r =
      Reacts-moved s _ false _ (record { loads = p.loads; names = p.names }) (λ _. r)
  leave-Reacts s c (DriveExit.shutdown done) p r =
      Reacts-moved s _ false _ (record { loads = p.loads; names = p.names }) (λ _. r)
  leave-Reacts s c commands_closed p r = Reacts-moved s c false _ p (λ _. r)

module _ {V : Type 0} (j : Json V) (config : TransportConfig) (show_idle : ℕ → String) where
  pub react-Reacts :
      (now : ℕ) (i : Input V) (s : System V)
      → Fits j config.read_idle_timeout show_idle i s.connection
      → ((k : RpcId) → pending_id k s.connection.pending ≤ 1)
      → Reacts
          (extra_in j config.read_idle_timeout show_idle i)
          (ids_in j config.read_idle_timeout show_idle i)
          s
          (react j config show_idle now i s)
  unfolding react
  react-Reacts now i s fits few =
      ends (drive j config.read_idle_timeout show_idle ((now, i) ∷ []) s.connection)
        (drive-Passes j config.read_idle_timeout show_idle now i s.connection fits few)
    where
      ends :
          {extra : ℕ → ℕ} {ids : RpcId → ℕ} (r : Connection V × Option DriveExit)
          → Passes extra ids s.connection r.0 × ((r.1 ≡ none) ⊎ (r.0.pending ≡ []))
          → Reacts extra ids s
              (elim r.1 [ none ↦ moved r.0 true s.handle.is_open s | some e ↦ leave e r.0 s ])
      ends (c, none) (p, e) = Reacts-moved s c true _ p (λ q. cc)
      ends (c, some e) (p, inl q) = cc
      ends (c, some e) (p, inr q) = leave-Reacts s c e p q
