-- ===== src/Store/Retention.antt =====
-- How old the events are that recording leaves (`prune_locked` of src/store/src/lib.rs).
use codex_warden.Prelude.{
  ℕ, zero, suc, ◌+◌, ◌-◌, ◌%◌, ◌≤◌, max, true, false, some, List, [], ◌∷◌, ◌++◌, ◌≡◌, refl, arith,
  first, last, length, ltb, is_some_and, All, u64_max, dec_lt, ltb_iff, subst,
}
use codex_warden.Protocol.Event.{SequencedEvent}
use codex_warden.Store.Events.{StoreConfig, Inner, remove_nth, remove_at, strike, push}
use codex_warden.Store.Prune.{expire, cutoff_of, prune, record_event}
use codex_warden.Store.Accounting.{Accounts, push-Accounts}
use codex_warden.Store.Bounds.{expire-Removals, shrink_ends, Removals-Accounts}
use codex_warden.Store.Policy.{Removals-All}

-- Receipt times, each at most `skew` below the greatest before it, which is `n` at the start.
abbrev pub Skewed : {V : Type 0} → (skew n : ℕ) → List (SequencedEvent V) → Type 0
Skewed skew n [] = Unit {0}
Skewed skew n (e ∷ es) = (n ≤ e.monotonic_ms + skew) × Skewed skew (max n e.monotonic_ms) es

abbrev pub Since : {V : Type 0} → ℕ → List (SequencedEvent V) → Type 0
Since cutoff = All (λ e. cutoff ≤ e.monotonic_ms)

Skewed-Since :
    {V : Type 0} (skew cutoff n : ℕ) (es : List (SequencedEvent V))
    → cutoff ≤ n
    → Skewed skew n es
    → Since (cutoff - skew) es
Skewed-Since skew cutoff n [] h m = tt
Skewed-Since skew cutoff n (e ∷ es) h m =
    (omega (arith, m.0), Skewed-Since skew cutoff (max n e.monotonic_ms) es (omega arith) m.1)

last-append {ℓ} : {A : Type ℓ} (xs : List A) (x : A) → last (xs ++ x ∷ []) ≡ some x
last-append [] x = refl
last-append (y ∷ []) x = refl
last-append (y ∷ z ∷ xs) x = last-append (z ∷ xs) x

module _ {V : Type 0} (encoded_len : SequencedEvent V → ℕ) (config : StoreConfig) where
  expire-Since :
      (fuel skew cutoff n : ℕ) (s : Inner V) (es : List (SequencedEvent V))
      → s.events ≡ es
      → Skewed skew n es
      → length es ≤ fuel
      → Since (cutoff - skew) (expire encoded_len config fuel cutoff s).events
  unfolding expire remove_at strike remove_nth
  expire-Since zero skew cutoff n s [] q m h = rw q tt
  expire-Since zero skew cutoff n s (e ∷ es) q m h = absurd (omega arith)
  expire-Since (suc fuel) skew cutoff n s [] q m h = rw (q, expire) (rw q tt)
  expire-Since (suc fuel) skew cutoff n s (e ∷ es) q m h = elim (dec_lt e.monotonic_ms cutoff) [
    | yes p ↦
        let old : is_some_and (first s.events) (λ d. ltb d.monotonic_ms cutoff) ≡ true =
          rw q ((ltb_iff e.monotonic_ms cutoff).1 p) in
        rw (old, expire)
          (expire-Since fuel skew cutoff (max n e.monotonic_ms) (remove_at encoded_len 0 s) es
            (ground arith) m.1 (omega arith))
    | no p ↦
        let new : is_some_and (first s.events) (λ d. ltb d.monotonic_ms cutoff) ≡ false =
          rw q (ground arith) in
        rw (new, expire)
          (rw q (omega arith, Skewed-Since skew cutoff (max n e.monotonic_ms) es (omega arith) m.1))
  ]

  -- After an event is recorded every event held is at most the retention time and `skew` older than
  -- it, where, of the events held and the new one, no receipt time is more than `skew` below that of
  -- one recorded before it (the frames and the anchors are stamped by different clocks), and the byte
  -- counts are exact and fit in 64 bits with the event.
  pub record_event-Since :
      (skew : ℕ) (e : SequencedEvent V) (s : Inner V)
      → Accounts encoded_len s
      → s.bytes + encoded_len e ≤ u64_max
      → Skewed skew 0 (s.events ++ e ∷ [])
      → (r : Inner V) × (record_event encoded_len config e s ≡ some r)
        × Since (e.monotonic_ms - config.retention % 18446744073709551616 - skew) r.events
  unfolding record_event prune push
  record_event-Since skew e s a room m =
      let pushed = push encoded_len e s in
      let cutoff = cutoff_of encoded_len config pushed.events in
      let fuel = length pushed.events in
      let expired = expire encoded_len config fuel cutoff pushed in
      let at : cutoff ≡ e.monotonic_ms - config.retention % 18446744073709551616 =
        ground (arith, last-append s.events e) in
      let since = expire-Since fuel skew cutoff 0 pushed pushed.events refl m (omega arith) in
      let a' =
        Removals-Accounts encoded_len (expire-Removals encoded_len config fuel cutoff pushed)
          (push-Accounts encoded_len e s room a) in
      let (r, found, bound, gone) =
        shrink_ends encoded_len config (suc (length expired.events)) expired a' (omega arith) in
      (
        r,
        found,
        subst (λ c. Since (c - skew) r.events) at
            (Removals-All encoded_len (λ d. cutoff - skew ≤ d.monotonic_ms) gone since),
      )
