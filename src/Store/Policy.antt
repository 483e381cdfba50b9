-- ===== src/Store/Policy.antt =====
-- Which events pruning removes (`prune_locked` of src/store/src/lib.rs).
use codex_warden.Prelude.{
  ℕ, zero, suc, ◌≤◌, ◌<◌, String, Bool, true, false, Option, some, none, List, [], ◌∷◌, ◌≡◌, refl,
  ap, ◌∙◌, arith, any, first, length, get_elem?, ltb, is_some_and, Option-cases, Bool-cases, inl,
  inr, All, take,
}
use codex_warden.Protocol.Event.{SequencedEvent}
use codex_warden.Store.Events.{StoreConfig, Inner, remove_nth, gap_of, remove_at, strike}
use codex_warden.Store.Prune.{
  restricted_delta, position, victim, over_limit, shrink, expire, cutoff_of, prune,
}
use codex_warden.Store.Accounting.{Accounts, strike-Accounts}
use codex_warden.Store.Bounds.{Removals, here, next, shrink_ends}
use codex_warden.Store.Ledger.{Covers, widen-covers, widen-Covers, gap_of-widen}

position-found {ℓ} :
    {A : Type ℓ} (p : A → Bool) (xs : List A)
    → any p xs ≡ true
    → (i : ℕ) × (x : A) × (position p xs ≡ some i)
      × (get_elem? xs i ≡ some x)
      × (p x ≡ true)
      × (any p (take i xs) ≡ false)
unfolding position
position-found p [] h = cc
position-found p (x ∷ xs) h = elim (Bool-cases (p x)) [
  | inl e ↦ (0, x, rw e, refl, e, refl)
  | inr e ↦
      let (i, y, found, at, hit, before) = position-found p xs (ground arith) in
      (suc i, y, rw (e, found), at, hit, rw (e, before))
]

position-none {ℓ} :
    {A : Type ℓ} (p : A → Bool) (xs : List A) → any p xs ≡ false → position p xs ≡ none
unfolding position
position-none p [] h = refl
position-none p (x ∷ xs) h = ground (arith, position-none p xs)

module _ {V : Type 0} where
  -- While a delta is held, of the thread over its limit if there is one, the oldest such delta goes
  -- first.
  victim_delta :
      (o : Option String) (es : List (SequencedEvent V))
      → any (restricted_delta o) es ≡ true
      → (e : SequencedEvent V) × (get_elem? es (victim o es) ≡ some e)
        × (restricted_delta o e ≡ true)
        × (any (restricted_delta o) (take (victim o es) es) ≡ false)
  unfolding victim
  victim_delta o es h =
      let (i, e, found, at, hit, before) = position-found (restricted_delta o) es h in
      (e, rw (found, victim) at, hit, rw (found, victim) before)

  victim_none :
      (o : Option String) (es : List (SequencedEvent V))
      → any (restricted_delta o) es ≡ false
      → victim o es ≡ 0
  unfolding victim
  victim_none o es h = rw (position-none (restricted_delta o) es h, victim)

remove_nth-All {ℓ κ} :
    {A : Type ℓ} (P : A → Type κ) (xs : List A) (i : ℕ) (x : A) (ys : List A)
    → remove_nth xs i ≡ some (x, ys)
    → All P xs
    → All P ys
unfolding remove_nth
remove_nth-All P [] i x ys e all = cc
remove_nth-All P (y ∷ xs) zero x ys e all = let q : xs ≡ ys = ground arith in rw (← q) all.1
remove_nth-All P (y ∷ xs) (suc i) x ys e all = elim (Option-cases (remove_nth xs i)) [
  | inl h ↦ absurd (ground arith)
  | inr (r, h) ↦
      let q : y ∷ r.1 ≡ ys = ground arith in rw (← q) (all.0, remove_nth-All P xs i r.0 r.1 h all.1)
]

module _ {V : Type 0} (encoded_len : SequencedEvent V → ℕ) where
  remove_at-All :
      (P : SequencedEvent V → Type 0) (i : ℕ) (s : Inner V)
      → All P s.events
      → All P (remove_at encoded_len i s).events
  unfolding remove_at strike
  remove_at-All P i s all = elim (Option-cases (remove_nth s.events i)) [
    | inl h ↦ rw (h, remove_at) all
    | inr (r, h) ↦ rw (h, remove_at) (remove_nth-All P s.events i r.0 r.1 h all)
  ]

  -- What holds of each event held holds of each that is left.
  pub Removals-All :
      (P : SequencedEvent V → Type 0) {s t : Inner V}
      → Removals encoded_len s t
      → All P s.events
      → All P t.events
  Removals-All P here all = all
  Removals-All P {s} (next i r) all = Removals-All P r (remove_at-All P i s all)

  strike-Covers :
      (e : SequencedEvent V) (rest : List (SequencedEvent V)) (s : Inner V)
      → Covers (strike encoded_len e rest s).gaps e
  unfolding strike
  strike-Covers e rest s =
      let (n, before, le) = widen-covers e (gap_of e.thread_id s.gaps) in
      (n, ground (arith, gap_of-widen e s.gaps e.thread_id), le)

  remove_at-Covers :
      (i : ℕ) (s : Inner V) (e : SequencedEvent V)
      → Covers s.gaps e
      → Covers (remove_at encoded_len i s).gaps e
  unfolding remove_at strike
  remove_at-Covers i s e c = elim (Option-cases (remove_nth s.events i)) [
    | inl h ↦ rw (h, remove_at) c
    | inr (r, h) ↦ rw (h, remove_at) (widen-Covers r.0 e s _ refl c)
  ]

  Removals-Covers :
      {s t : Inner V} (e : SequencedEvent V)
      → Removals encoded_len s t
      → Covers s.gaps e
      → Covers t.gaps e
  Removals-Covers e here c = c
  Removals-Covers {s} e (next i r) c = Removals-Covers e r (remove_at-Covers i s e c)

module _ {V : Type 0} (encoded_len : SequencedEvent V → ℕ) (config : StoreConfig) where
  expire_none :
      (fuel cutoff : ℕ) (s : Inner V)
      → is_some_and (first s.events) (λ e. ltb e.monotonic_ms cutoff) ≡ false
      → expire encoded_len config fuel cutoff s ≡ s
  unfolding expire
  expire_none zero cutoff s h = refl
  expire_none (suc fuel) cutoff s h = rw (h, expire) refl

  shrink_front :
      (fuel : ℕ) (s : Inner V) (t : String) (e : SequencedEvent V) (rest : List (SequencedEvent V))
      → over_limit config.per_thread_bytes s.thread_bytes ≡ some t
      → s.events ≡ e ∷ rest
      → any (restricted_delta (some t)) s.events ≡ false
      → shrink encoded_len config (suc fuel) s
        ≡ shrink encoded_len config fuel (strike encoded_len e rest s)
  unfolding shrink remove_at remove_nth
  shrink_front fuel s t e rest over held quiet =
      let first_place : victim (some t) s.events ≡ 0 = victim_none (some t) s.events quiet in
      ground (arith, first_place, ap (λ o. victim o s.events) over)

  -- The first event `e` that is held has the lowest number and is within the retention time, the
  -- search finds a thread over its limit, of which no delta is held, and the byte counts are exact.
  -- Then pruning ends with a store that has lost `e`, of whatever thread
  -- and plane it is and whether or not other threads hold deltas: each event still held is after it,
  -- and the gap of its thread reaches up to it.
  pub prune_evicts_oldest :
      (s : Inner V) (t : String) (e : SequencedEvent V) (rest : List (SequencedEvent V))
      → Accounts encoded_len s
      → s.events ≡ e ∷ rest
      → All (λ d. e.sequence < d.sequence) rest
      → cutoff_of encoded_len config s.events ≤ e.monotonic_ms
      → over_limit config.per_thread_bytes s.thread_bytes ≡ some t
      → any (restricted_delta (some t)) s.events ≡ false
      → (r : Inner V) × (prune encoded_len config s ≡ some r)
        × All (λ d. e.sequence < d.sequence) r.events
        × Covers r.gaps e
  unfolding prune remove_nth strike
  prune_evicts_oldest s t e rest a held later recent over quiet =
      let cutoff = cutoff_of encoded_len config s.events in
      let fresh : is_some_and (first s.events) (λ d. ltb d.monotonic_ms cutoff) ≡ false =
        ground (arith, held) in
      let kept = expire_none (length s.events) cutoff s fresh in
      let struck = strike encoded_len e rest s in
      let (r, found, _, gone) =
        shrink_ends encoded_len config (length s.events) struck
          (strike-Accounts encoded_len s 0 e rest (rw held refl) a)
          (omega (arith, ap length held)) in
      (
        r,
        ap (λ x. shrink encoded_len config (suc (length x.events)) x) kept
            ∙ shrink_front (length s.events) s t e rest over held quiet
            ∙ found,
        Removals-All encoded_len (λ d. e.sequence < d.sequence) gone later,
        Removals-Covers encoded_len e gone (strike-Covers encoded_len e rest s),
      )
