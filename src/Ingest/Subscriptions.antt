-- ===== src/Ingest/Subscriptions.antt =====
-- The subscription cap and the retry loop (`discover` of src/ingest/src/lib.rs).
use codex_warden.Prelude.{
  ℕ, zero, suc, ◌+◌, ◌≤◌, ◌<◌, max, String, true, false, List, [], ◌∷◌, ◌≡◌, ◌≢◌, refl, ap, ◌∙◌,
  arith, length, leb, lookup, insert, string_discrete, Bool-cases, inl, inr, ◌⊎◌, is_some_and,
  if◌then◌else◌, ok, err,
}
use codex_warden.Protocol.Json.{Json}
use codex_warden.Transport.Request.{
  Reply, not_written, rejected, written_outcome_unknown, timed_out, closed,
}
use codex_warden.Ingest.World.{
  IngestConfig, DiscoverySource, SubscriptionState, subscribing, retry_wait, DiscoveryOutcome,
  already_managed, World, Meddling, ingests, alters, writes, meddle, call, set_state, Exchange,
}
use codex_warden.Ingest.Discover.{
  is_retained, retained, claim, refused, claimed, Arm, done, again, fail, resume_arm, resume,
  resume_params, out_of_rounds,
}

retained-insert :
    (id : String) (st : SubscriptionState) (states : List (String × SubscriptionState))
    → is_some_and (lookup string_discrete id states) is_retained ≡ false
    → retained (insert string_discrete id st states)
      ≡ retained states + (if is_retained st then 1 else 0)
unfolding lookup insert
retained-insert id st [] h = ground arith
retained-insert id st ((k, s) ∷ states) h = ground (arith, retained-insert id st states)

-- Under the lock of the states a discovery never takes the threads that are managed over the cap.
-- Where the thread is managed, it is refused with no change, also if the cap is reached. Where it is
-- not and the cap is reached, it is refused and kept as degraded, and as many threads are managed as
-- before. Where it is not and there is room, it is claimed, and one more thread is managed.
pub claim_lem :
    (cap : ℕ) (id : String) (source : DiscoverySource) (states : List (String × SubscriptionState))
    → retained states ≤ cap
    → let managed = is_some_and (lookup string_discrete id states) is_retained in
      let (states', outcome) = claim cap id source states in
      (retained states' ≤ cap)
      × (((managed ≡ true) × (states' ≡ states) × (outcome ≡ refused already_managed))
          ⊎ ((managed ≡ false)
              × (retained states ≡ cap)
              × (states' ≡ insert string_discrete id SubscriptionState.capacity_degraded states)
              × (outcome ≡ refused DiscoveryOutcome.capacity_degraded)
              × (retained states' ≡ retained states))
          ⊎ ((managed ≡ false)
              × (retained states < cap)
              × (states' ≡ insert string_discrete id (subscribing source 1) states)
              × (outcome ≡ claimed)
              × (retained states' ≡ retained states + 1)))
unfolding claim
claim_lem limit id source states h =
    elim (Bool-cases (is_some_and (lookup string_discrete id states) is_retained)) [
      | inl m ↦ rw (m, claim) (h, inl (refl, refl, refl))
      | inr m ↦ elim (Bool-cases (leb limit (retained states))) [
        | inl full ↦
            let n = retained-insert id SubscriptionState.capacity_degraded states m in
            rw (m, full, claim)
              (omega (arith, n), inr (inl (refl, ground arith, refl, refl, omega (arith, n))))
        | inr room ↦
            let n = retained-insert id (subscribing source 1) states m in
            rw (m, room, claim) (ground (arith, n), inr (inr (refl, ground arith, refl, refl, n)))
      ]
    ]

module _ {V : Type 0} (j : Json V) where
  pub meddle-sent : (ms : List (Meddling V)) (w : World V) → (meddle j ms w).sent ≡ w.sent
  unfolding meddle
  meddle-sent [] w = refl
  meddle-sent (ingests e ∷ ms) w = meddle-sent ms _
  meddle-sent (alters f ∷ ms) w = meddle-sent ms _
  meddle-sent (writes id st ∷ ms) w = meddle-sent ms _

  pub call-sent :
      (m : String) (params : V) (w : World V) → (call j m params w).0.sent ≡ (m, params) ∷ w.sent
  unfolding call
  call-sent m params w = go w.script refl
    where
      go :
          (s : List (Exchange V)) → w.script ≡ s → (call j m params w).0.sent ≡ (m, params) ∷ w.sent
      go [] q = rw q refl
      go (x ∷ rest) q = rw q (meddle-sent x.before _)

module _ {V : Type 0} (j : Json V) (config : IngestConfig) where
  -- The loop waits only below its limit.
  again-limit :
      (attempt : ℕ) (reply : Reply V)
      → resume_arm j config attempt reply ≡ again
      → attempt < config.resume_retry_limit
  unfolding resume_arm
  again-limit attempt (ok v) h = ground arith
  again-limit attempt (err (not_written d)) h = ground arith
  again-limit attempt (err (rejected m e)) h = ground arith
  again-limit attempt (err (written_outcome_unknown i m d)) h = ground arith
  again-limit attempt (err (timed_out m)) h = ground arith
  again-limit attempt (err closed) h = ground arith

  module _ (id : String) (source : DiscoverySource) where
    -- The loop came to an end of its own, and made at most so many requests.
    abbrev pub Ends : (fuel attempt : ℕ) → World V → Type 0
    Ends fuel attempt w =
        let (w', end) = resume j config fuel attempt id source w in
        (end ≢ out_of_rounds)
        × (length w'.sent + attempt ≤ length w.sent + max config.resume_retry_limit 1 + 1)

    abbrev attempted : World V → World V
    attempted w = (call j "thread/resume" (resume_params j config id) w).0

    abbrev replied : World V → Reply V
    replied w = (call j "thread/resume" (resume_params j config id) w).1

    -- The world of the next round: the wait, and what others do meanwhile.
    abbrev woken : ℕ → World V → World V
    woken attempt w =
        meddle j (call j "thread/resume" (resume_params j config id) w).2
          (set_state id (retry_wait (attempt + 1)) (attempted w))

    attempted-sent : (w : World V) → length (attempted w).sent ≡ suc (length w.sent)
    attempted-sent w = ap length (call-sent j "thread/resume" (resume_params j config id) w)

    woken-sent : (attempt : ℕ) (w : World V) → length (woken attempt w).sent ≡ suc (length w.sent)
    woken-sent attempt w = ap length (meddle-sent j _ _) ∙ attempted-sent w

    -- One round, by its arm.
    round-Ends :
        (fuel attempt : ℕ) (w : World V) (arm : Arm j config)
        → resume_arm j config attempt (replied w) ≡ arm
        → attempt ≤ max config.resume_retry_limit 1
        → (attempt < config.resume_retry_limit
            → Ends fuel
                (attempt + 1)
                (set_state id (subscribing source (attempt + 1)) (woken attempt w)))
        → Ends (suc fuel) attempt w
    unfolding resume
    round-Ends fuel attempt w done q h next =
        let sent = attempted-sent w in rw (q, resume) (ground arith, omega (arith, sent))
    round-Ends fuel attempt w again q h next =
        let (alive, few) = next (again-limit attempt _ q) in
        let sent = woken-sent attempt w in rw (q, resume) (alive, omega (arith, few, sent))
    round-Ends fuel attempt w (fail st out) q h next =
        let sent = attempted-sent w in rw (q, resume) (ground arith, omega (arith, sent))

    rounds_end :
        (fuel attempt : ℕ) (w : World V)
        → attempt ≤ max config.resume_retry_limit 1
        → config.resume_retry_limit < fuel + attempt
        → 0 < fuel
        → Ends fuel attempt w
    rounds_end zero attempt w h k pos = absurd (omega arith)
    rounds_end (suc fuel) attempt w h k pos =
        round-Ends fuel attempt w (resume_arm j config attempt (replied w)) refl h
          (λ below. rounds_end fuel (attempt + 1) _ (omega arith) (omega arith) (omega arith))

    -- With the rounds that a discovery allows, its retry loop comes to an end of its own, whatever
    -- the replies and the other tasks do, after at most as many requests as the retry limit, or one
    -- request if that limit is zero.
    pub resume_ends :
        (w : World V)
        → let (w', end) = resume j config (suc config.resume_retry_limit) 1 id source w in
          (end ≢ out_of_rounds) × (length w'.sent ≤ length w.sent + max config.resume_retry_limit 1)
    resume_ends w =
        let (alive, few) =
          rounds_end (suc config.resume_retry_limit) 1 w (omega arith) (omega arith)
            (omega arith) in
        (alive, omega arith)
