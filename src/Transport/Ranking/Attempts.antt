-- ===== src/Transport/Ranking/Attempts.antt =====
-- The same over handshakes and attempts (`initialize` and `connection_loop` of
-- src/transport/src/lib.rs).
use codex_warden.Prelude.{
  ℕ, ◌+◌, ◌≤◌, u64_max, String, false, Option, some, none, List, [], ◌∷◌, ◌≡◌, refl, arith, length,
  Option-cases, inl, inr, ◌⊎◌, unwrap_or,
}
use codex_warden.Protocol.Json.{Json}
use codex_warden.Transport.Drive.{
  Command, notify, reconciled, DriveExit, disconnected, commands_closed, reconciling, connecting,
  handshaking, Connection, drive,
}
use codex_warden.Transport.Handshake.{
  TransportConfig, initialize, Greeted, initialized, refused, waiting,
}
use codex_warden.Transport.Reconnect.{
  Attempt, Link, Turn, next, running, announce, reject_while_disconnected, degrade, pause, serve,
  connect_once, connection_loop,
}
use codex_warden.Transport.Ranking.{Ranked, Within, drive-Within}
use codex_warden.Transport.Ranking.Shakes.{initialize-Within}

Turn-cases : (t : Turn) → (t ≡ next) ⊎ (t ≡ Turn.ended) ⊎ (t ≡ running)
Turn-cases next = inl refl
Turn-cases Turn.ended = inr (inl refl)
Turn-cases running = inr (inr refl)

module _ {V : Type 0} (j : Json V) (config : TransportConfig) (show_idle : ℕ → String) where
  -- The messages that an attempt meets.
  abbrev pub load : Attempt V → ℕ
  load a = length a.handshake.greetings + length a.traffic

  abbrev Sound : ℕ → ℕ → Link V → Type 0
  Sound n k l = Within n k l.connection

  pause-Sound :
      (n k : ℕ) (idle : Option (Option (Command V))) (detail : String) (l : Link V)
      → Sound n k l
      → Sound n k (pause config idle detail l).0
  unfolding pause reject_while_disconnected
  pause-Sound n k none detail l h = h
  pause-Sound n k (some none) detail l h = h
  pause-Sound n k (some (some (Command.request id m params response))) detail l h = h
  pause-Sound n k (some (some (Command.shutdown done))) detail l h = h
  pause-Sound n k (some (some (notify m params))) detail l h = h
  pause-Sound n k (some (some (reconciled done))) detail l h = h

  serve-Sound :
      (n k : ℕ) (a : Attempt V) (l : Link V)
      → n + k + length a.traffic ≤ u64_max
      → Sound n k l
      → Sound n (k + length a.traffic) (serve j config show_idle a l).0
  unfolding serve degrade
  serve-Sound n k a l room h =
      go (drive-Within j config.read_idle_timeout show_idle n k a.traffic fresh room h)
        (drive j config.read_idle_timeout show_idle a.traffic fresh).1 refl
    where
      fresh : Connection V
      fresh = record (l.connection) {
        reconcile_ready = false;
        pending = [];
        last_read = a.begun;
        health = record {
          phase = reconciling;
          reconnect_attempts = l.attempts;
          last_frame_sequence = l.connection.sequence;
          detail = none;
        };
      }

      go :
          Within n
            (k + length a.traffic)
            (drive j config.read_idle_timeout show_idle a.traffic fresh).0
          → (exit : Option DriveExit)
          → (drive j config.read_idle_timeout show_idle a.traffic fresh).1 ≡ exit
          → Sound n (k + length a.traffic) (serve j config show_idle a l).0
      go w none q = rw (q, serve) w
      go w (some (DriveExit.shutdown done)) q = rw (q, serve) w
      go w (some (disconnected detail)) q = rw (q, serve) w
      go w (some commands_closed) q = rw (q, serve) w

  connect_once-Sound :
      (n k : ℕ) (a : Attempt V) (l : Link V)
      → n + k + load a ≤ u64_max
      → Sound n k l
      → Sound n (k + load a) (connect_once j config show_idle a l).0
  unfolding connect_once degrade
  connect_once-Sound n k a l room h = elim (Option-cases a.connect_error) [
    | inr (detail, q) ↦
        let (few, ranked) = pause-Sound n k a.idle detail (degrade detail start) h in
        rw (q, connect_once) (omega (arith, few), ranked)
    | inl q ↦
        go q (initialize-Within j config n k a.handshake shaking.connection (omega arith) h)
          (initialize j config a.handshake shaking.connection).1 refl
  ]
    where
      start : Link V
      start = announce connecting none (record l {
        connection = record (l.connection) {
          reconcile_ready = unwrap_or a.gate l.connection.reconcile_ready;
        };
      })

      shaking : Link V
      shaking = announce handshaking none start

      met : Link V
      met = record shaking { connection = (initialize j config a.handshake shaking.connection).0 }

      go :
          a.connect_error ≡ none
          → Within n (k + length a.handshake.greetings) met.connection
          → (r : Greeted) → (initialize j config a.handshake shaking.connection).1 ≡ r
          → Sound n (k + load a) (connect_once j config show_idle a l).0
      go q (few, ranked) waiting r = rw (q, r, connect_once) (omega (arith, few), ranked)
      go q w (refused detail) r =
          let (few, ranked) =
            pause-Sound n (k + length a.handshake.greetings) a.idle detail (degrade detail met) w in
          rw (q, r, connect_once) (omega (arith, few), ranked)
      go q w initialized r =
          let (few, ranked) =
            serve-Sound n (k + length a.handshake.greetings) a met (omega arith) w in
          rw (q, r, connect_once) (omega (arith, few), ranked)

  -- The messages of all attempts.
  abbrev pub loads : List (Attempt V) → ℕ
  loads [] = 0
  loads (a ∷ later) = load a + loads later

  connection_loop-Sound :
      (n k : ℕ) (attempts : List (Attempt V)) (l : Link V)
      → n + k + loads attempts ≤ u64_max
      → Sound n k l
      → Sound n (k + loads attempts) (connection_loop j config show_idle attempts l).0
  unfolding connection_loop
  connection_loop-Sound n k [] l room (le, h) = (omega arith, h)
  connection_loop-Sound n k (a ∷ later) l room h =
      let once = connect_once-Sound n k a l (omega arith) h in
      let (few', ranked') =
        connection_loop-Sound n (k + load a) later (connect_once j config show_idle a l).0
          (omega arith) once in
      let (few, ranked) = once in
      elim (Turn-cases (connect_once j config show_idle a l).1) [
        | inl q ↦ rw (q, connection_loop) (omega (arith, few'), ranked')
        | inr (inl q) ↦ rw (q, connection_loop) (omega (arith, few), ranked)
        | inr (inr q) ↦ rw (q, connection_loop) (omega (arith, few), ranked)
      ]

  -- Across any number of connections, failed handshakes and lost connections the events that the
  -- transport hands to ingress bear strictly rising positive numbers, none above the last one given
  -- out. The numbers stay within 64 bits, and start from a state whose events do so.
  pub connection_loop-Ranked :
      (attempts : List (Attempt V)) (l : Link V)
      → l.connection.sequence + loads attempts ≤ u64_max
      → Ranked l.connection.sequence l.connection.events
      → let c = (connection_loop j config show_idle attempts l).0.connection in
        (c.sequence ≤ l.connection.sequence + loads attempts) × Ranked c.sequence c.events
  connection_loop-Ranked attempts l room h =
      let (few, ranked) =
        connection_loop-Sound l.connection.sequence 0 attempts l (omega arith) (omega arith, h) in
      (omega (arith, few), ranked)
