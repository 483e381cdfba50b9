-- ===== src/Transport/Outage.antt =====
-- What the transport does while the daemon is away (`connection_loop` of src/transport/src/lib.rs).
use native.Mathlib.Omega.{pow_step}
use native.Mathlib.Nat.{mul_assoc, mul_comm}
use codex_warden.Prelude.{
  ℕ, suc, ◌+◌, ◌*◌, ◌%◌, ◌^◌, ◌≤◌, min, u64_max, String, Bool, true, false, Option, some, none,
  List, [], ◌∷◌, ◌≡◌, refl, ap, sym, ◌∙◌, arith, length, All, Option-cases, inl, inr, is_some,
  unwrap_or, ◌&&◌, err,
}
use codex_warden.Protocol.Json.{Json}
use codex_warden.Transport.Request.{not_written, Reply}
use codex_warden.Transport.Drive.{Command, notify, reconciled, connecting}
use codex_warden.Transport.Handshake.{TransportConfig}
use codex_warden.Transport.Reconnect.{
  Attempt, Link, next, running, announce, reject_while_disconnected, degrade, pause, connect_once,
  connection_loop,
}

pow_doubles : (a k : ℕ) → a * 2 ^ suc k ≡ a * 2 ^ k * 2
pow_doubles a k =
    ap (λ (p : ℕ). a * p) (pow_step 2 k ∙ mul_comm 2 (2 ^ k)) ∙ sym (mul_assoc a (2 ^ k) 2)

-- The longer backoff is the next of the sequence.
backoff_doubles :
    (initial most k b : ℕ)
    → b ≡ min (initial * 2 ^ k) most
    → min (b * 2) most ≡ min (initial * 2 ^ (k + 1)) most
backoff_doubles initial most k b h =
    let same : k + 1 ≡ suc k = omega arith in
    rw same (rw (pow_doubles initial k) (omega (arith, h)))

module _ {V : Type 0} where
  -- The wait is not ended by a shutdown or by the end of the channel.
  abbrev pub stays : Option (Option (Command V)) → Bool
  stays none = true
  stays (some (some (Command.shutdown done))) = false
  stays (some (some _)) = true
  stays (some none) = false

  -- The daemon cannot be reached, and the loop goes on.
  abbrev pub is_away : Attempt V → Bool
  is_away a = is_some a.connect_error && stays a.idle

  -- The answers after a wait.
  abbrev pub rejection :
      String → Option (Option (Command V)) → List (ℕ × Reply V) → List (ℕ × Reply V)
  rejection detail (some (some (Command.request id m params response))) answers =
      (response, err (not_written detail)) ∷ answers
  rejection detail _ answers = answers

  -- The answers to the requests that come during an outage, the latest first.
  abbrev pub rejections : List (Attempt V) → List (ℕ × Reply V) → List (ℕ × Reply V)
  rejections [] answers = answers
  rejections (a ∷ later) answers =
      rejections later (rejection (unwrap_or a.connect_error "") a.idle answers)

  -- A wait that goes on: the backoff doubles, and only answers are given.
  pause-stays :
      (config : TransportConfig) (idle : Option (Option (Command V))) (detail : String) (l : Link V)
      → stays idle ≡ true
      → let (l', turn) = pause config idle detail l in
        (turn ≡ next)
        × (l'.backoff ≡ min (l.backoff * 2) config.retry_max)
        × (l'.attempts ≡ l.attempts)
        × (l'.connection.answers ≡ rejection detail idle l.connection.answers)
        × (l'.connection.frames ≡ l.connection.frames)
        × (l'.connection.events ≡ l.connection.events)
  unfolding pause reject_while_disconnected
  pause-stays config none detail l h = (refl, refl, refl, refl, refl, refl)
  pause-stays config (some none) detail l h = cc
  pause-stays config (some (some (Command.request id m params response))) detail l h =
      (refl, refl, refl, refl, refl, refl)
  pause-stays config (some (some (Command.shutdown done))) detail l h = cc
  pause-stays config (some (some (notify m params))) detail l h =
      (refl, refl, refl, refl, refl, refl)
  pause-stays config (some (some (reconciled done))) detail l h =
      (refl, refl, refl, refl, refl, refl)

module _ {V : Type 0} (j : Json V) (config : TransportConfig) (show_idle : ℕ → String) where
  -- What an outage leaves: the attempts are counted, the requests are answered as not written, and
  -- nothing is written or handed to ingress.
  pub record Quiet (attempts : List (Attempt V)) (l l' : Link V) : Type 0 where
    pub counted : l'.attempts ≡ (l.attempts + length attempts) % 18446744073709551616
    pub rejected : l'.connection.answers ≡ rejections attempts l.connection.answers
    pub silent : l'.connection.frames ≡ l.connection.frames
    pub eventless : l'.connection.events ≡ l.connection.events

  away-once :
      (k : ℕ) (a : Attempt V) (l : Link V)
      → is_away a ≡ true
      → l.backoff ≡ min (config.retry_initial * 2 ^ k) config.retry_max
      → ((connect_once j config show_idle a l).1 ≡ next)
        × ((connect_once j config show_idle a l).0.backoff
            ≡ min (config.retry_initial * 2 ^ (k + 1)) config.retry_max)
        × Quiet (a ∷ []) l (connect_once j config show_idle a l).0
  unfolding connect_once degrade
  away-once k a l away h = elim (Option-cases a.connect_error) [
    | inl q ↦ absurd (ground (arith, q, away))
    | inr (detail, q) ↦
        let failed : Link V = degrade detail (
          announce connecting none (record l {
            connection = record (l.connection) {
              reconcile_ready = unwrap_or a.gate l.connection.reconcile_ready;
            };
          })) in
        let on : stays a.idle ≡ true = ground (arith, q, away) in
        let (turn, backoff, counted, answered, silent, eventless) =
          pause-stays config a.idle detail failed on in
        (
          rw (q, connect_once) turn,
          rw (q, connect_once)
              (backoff ∙ backoff_doubles config.retry_initial config.retry_max k l.backoff h),
          record {
            counted = rw (q, connect_once) counted;
            rejected = rw (q, connect_once) answered;
            silent = rw (q, connect_once) silent;
            eventless = rw (q, connect_once) eventless;
          },
        )
  ]

  -- While no connection can be made and no shutdown or end of the commands comes, the loop runs on,
  -- however many attempts it makes. With the backoff at the `k`-th doubling of the first one, or at
  -- its cap, it comes to the doubling as many steps further, or the cap; the attempts are counted
  -- modulo 2^64, from a count within 64 bits; each request that comes in a wait is answered as not
  -- written, with the error of its connection; nothing is written to the socket or handed to
  -- ingress.
  pub outage :
      (k : ℕ) (attempts : List (Attempt V)) (l : Link V)
      → All (λ a. is_away a ≡ true) attempts
      → l.attempts ≤ u64_max
      → l.backoff ≡ min (config.retry_initial * 2 ^ k) config.retry_max
      → let (l', turn) = connection_loop j config show_idle attempts l in
        (turn ≡ running)
        × (l'.backoff ≡ min (config.retry_initial * 2 ^ (k + length attempts)) config.retry_max)
        × Quiet attempts l l'
  unfolding connection_loop
  outage k [] l away word h =
      let same : k + 0 ≡ k = omega arith in
      (
        refl,
        rw same h,
        record { counted = omega arith; rejected = refl; silent = refl; eventless = refl },
      )
  outage k (a ∷ later) l away word h =
      let (turn, backoff, quiet) = away-once k a l away.0 h in
      let l1 = (connect_once j config show_idle a l).0 in
      let (turn', backoff', quiet') =
        outage (k + 1) later l1 away.1 (omega (arith, quiet.counted)) backoff in
      let same : k + suc (length later) ≡ k + 1 + length later = omega arith in
      (
        rw (turn, connection_loop) turn',
        rw (turn, connection_loop) (rw same backoff'),
        record {
          counted = rw (turn, connection_loop) (omega (arith, quiet.counted, quiet'.counted));
          rejected =
              rw (turn, connection_loop) (quiet'.rejected ∙ ap (rejections later) quiet.rejected);
          silent = rw (turn, connection_loop) (quiet'.silent ∙ quiet.silent);
          eventless = rw (turn, connection_loop) (quiet'.eventless ∙ quiet.eventless);
        },
      )
