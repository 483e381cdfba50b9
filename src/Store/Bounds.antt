-- ===== src/Store/Bounds.antt =====
-- The loops of `prune_locked` end, and leave the store within its limits (src/store/src/lib.rs).
use codex_warden.Prelude.{
  ℕ, zero, suc, ◌+◌, ◌≤◌, ◌<◌, String, Bool, true, false, Option, some, none, List, [], ◌∷◌, ◌≡◌,
  refl, ap, ◌∙◌, arith, sum_by, length, keys, find, first, ltb, u64_max, lookup, string_discrete,
  Option-cases, Bool-cases, inl, inr, is_some_and, is_none, not, dec_lt, ◌&&◌,
}
use codex_warden.Protocol.Event.{SequencedEvent}
use codex_warden.Store.Events.{StoreConfig, Inner, thread_total, remove_at, push}
use codex_warden.Store.Prune.{
  restricted_delta, position, over_limit, expire, victim, shrink, cutoff_of, prune, record_event,
}
use codex_warden.Store.Accounting.{
  Accounts, share, push-Accounts, remove_at-Accounts, length-remove_at,
}

find-some {ℓ} : {A : Type ℓ} (p : A → Bool) (xs : List A) (x : A) → find p xs ≡ some x → p x ≡ true
find-some p [] x e = cc
find-some p (y ∷ xs) x e = elim (Bool-cases (p y)) [
  | inl h ↦ ground arith
  | inr h ↦ find-some p xs x (ground arith)
]

-- The search over a part `m` of the map `all`.
over_limit-part :
    (limit : ℕ) (all m : List (String × ℕ)) (t : String) (n : ℕ)
    → find (λ k. ltb limit (thread_total k all)) (keys m) ≡ none
    → lookup string_discrete t m ≡ some n
    → thread_total t all ≤ limit
unfolding lookup
over_limit-part limit all [] t n e h = cc
over_limit-part limit all ((k, v) ∷ m) t n e h = elim (string_discrete k t) [
  | yes p ↦ ground (arith, ap (λ q. thread_total q all) p)
  | no p ↦ over_limit-part limit all m t n (ground arith) (ground arith)
]

over_limit-none :
    (limit : ℕ) (m : List (String × ℕ)) (t : String)
    → over_limit limit m ≡ none
    → thread_total t m ≤ limit
unfolding over_limit
over_limit-none limit m t e = elim (Option-cases (lookup string_discrete t m)) [
  | inl h ↦ rw h (omega arith)
  | inr (n, h) ↦ over_limit-part limit m m t n e h
]

over_limit-some :
    (limit : ℕ) (m : List (String × ℕ)) (t : String)
    → over_limit limit m ≡ some t
    → limit < thread_total t m
unfolding over_limit
over_limit-some limit m t e =
    ground (arith, find-some (λ k. ltb limit (thread_total k m)) (keys m) t e)

position-lt {ℓ} :
    {A : Type ℓ} (p : A → Bool) (xs : List A) (i : ℕ) → position p xs ≡ some i → i < length xs
unfolding position
position-lt p [] i e = cc
position-lt p (x ∷ xs) i e = elim (Option-cases (position p xs)) [
  | inl h ↦ ground arith
  | inr (k, h) ↦ ground (arith, position-lt p xs k h)
]

victim-lt :
    {V : Type 0} (o : Option String) (es : List (SequencedEvent V))
    → 0 < length es
    → victim o es < length es
unfolding victim
victim-lt {V} o es h = elim (Option-cases (position (restricted_delta o) es)) [
  | inl e ↦ rw (e, victim) h
  | inr (i, e) ↦ rw (e, victim) (position-lt (restricted_delta o) es i e)
]

sum_by_nil {ℓ} : {A : Type ℓ} (f : A → ℕ) (xs : List A) → length xs ≡ 0 → sum_by f xs ≡ 0
sum_by_nil f [] h = refl
sum_by_nil f (x ∷ xs) h = absurd (omega arith)

module _ {V : Type 0} (encoded_len : SequencedEvent V → ℕ) where
  -- The store after some events have been removed.
  pub data Removals : Inner V → Inner V → Type 0 where
    here : {s : Inner V} → Removals s s
    next : {s t : Inner V} (i : ℕ) → Removals (remove_at encoded_len i s) t → Removals s t

  pub Removals-Accounts :
      {s t : Inner V} → Removals s t → Accounts encoded_len s → Accounts encoded_len t
  Removals-Accounts here a = a
  Removals-Accounts {s} (next i r) a = Removals-Accounts r (remove_at-Accounts encoded_len i s a)

  pub Removals-trans : {s t u : Inner V} → Removals s t → Removals t u → Removals s u
  Removals-trans here q = q
  Removals-trans (next i r) q = next i (Removals-trans r q)

module _ {V : Type 0} (encoded_len : SequencedEvent V → ℕ) (config : StoreConfig) where
  -- Within the configured limits.
  pub record IsBounded (s : Inner V) : Type 0 where
    pub global : s.bytes ≤ config.global_bytes
    pub per_thread : (t : String) → thread_total t s.thread_bytes ≤ config.per_thread_bytes

  pub expire-Removals :
      (fuel cutoff : ℕ) (s : Inner V)
      → Removals encoded_len s (expire encoded_len config fuel cutoff s)
  unfolding expire
  expire-Removals zero cutoff s = here
  expire-Removals (suc fuel) cutoff s =
      elim (Bool-cases (is_some_and (first s.events) (λ e. ltb e.monotonic_ms cutoff))) [
        | inl h ↦ rw (h, expire) (next 0 (expire-Removals fuel cutoff _))
        | inr h ↦ rw (h, expire) here
      ]

  over-nonempty :
      (s : Inner V)
      → Accounts encoded_len s
      → (not (ltb config.global_bytes s.bytes)
          && is_none (over_limit config.per_thread_bytes s.thread_bytes))
        ≡ false
      → 0 < length s.events
  over-nonempty s a h = elim (dec_lt 0 (length s.events)) [
    | yes p ↦ p
    | no p ↦
        let nil : length s.events ≡ 0 = omega arith in
        let zero_total : s.bytes ≡ 0 = a.total ∙ sum_by_nil encoded_len s.events nil in
        absurd (elim (Option-cases (over_limit config.per_thread_bytes s.thread_bytes)) [
          | inl e ↦ ground arith
          | inr (t, e) ↦ omega (
            arith,
            over_limit-some config.per_thread_bytes s.thread_bytes t e,
            a.threads t,
            sum_by_nil (share encoded_len t) s.events nil,
          )
        ])
  ]

  within :
      (s : Inner V)
      → (not (ltb config.global_bytes s.bytes)
          && is_none (over_limit config.per_thread_bytes s.thread_bytes))
        ≡ true
      → IsBounded s
  within s e = record {
    global = ground arith;
    per_thread = λ t. over_limit-none config.per_thread_bytes s.thread_bytes t (ground arith);
  }

  pub shrink_ends :
      (fuel : ℕ) (s : Inner V)
      → Accounts encoded_len s
      → length s.events < fuel
      → (r : Inner V) × (shrink encoded_len config fuel s ≡ some r)
        × IsBounded r
        × Removals encoded_len s r
  unfolding shrink
  shrink_ends zero s a h = absurd (omega arith)
  shrink_ends (suc fuel) s a h =
      elim (Bool-cases (
        not (ltb config.global_bytes s.bytes)
        && is_none (over_limit config.per_thread_bytes s.thread_bytes))) [
          | inl e ↦ (s, rw (e, shrink), within s e, here)
          | inr e ↦
              let i = victim (over_limit config.per_thread_bytes s.thread_bytes) s.events in
              let room =
                victim-lt (over_limit config.per_thread_bytes s.thread_bytes) s.events
                  (over-nonempty s a e) in
              let (r, found, bound, gone) =
                shrink_ends fuel (remove_at encoded_len i s) (remove_at-Accounts encoded_len i s a)
                  (omega (arith, length-remove_at encoded_len i s room)) in
              (r, rw (e, shrink) found, bound, next i gone)
        ]

  pub prune_ends :
      (s : Inner V)
      → Accounts encoded_len s
      → (r : Inner V) × (prune encoded_len config s ≡ some r)
        × IsBounded r
        × Removals encoded_len s r
  unfolding prune
  prune_ends s a =
      let out = expire-Removals (length s.events) (cutoff_of encoded_len config s.events) s in
      let expired =
        expire encoded_len config (length s.events) (cutoff_of encoded_len config s.events) s in
      let (r, found, bound, gone) =
        shrink_ends (suc (length expired.events)) expired (Removals-Accounts encoded_len out a)
          (omega arith) in
      (r, found, bound, Removals-trans encoded_len out gone)

  -- To record an event ends, and leaves a store whose byte counts are exact and within both limits,
  -- from a store with exact counts. The event and the bytes held before fit in 64 bits together.
  pub record_event_ends :
      (e : SequencedEvent V) (s : Inner V)
      → Accounts encoded_len s
      → s.bytes + encoded_len e ≤ u64_max
      → (r : Inner V) × (record_event encoded_len config e s ≡ some r)
        × Accounts encoded_len r
        × IsBounded r
        × Removals encoded_len (push encoded_len e s) r
  unfolding record_event
  record_event_ends e s a room =
      let a' = push-Accounts encoded_len e s room a in
      let (r, found, bound, gone) = prune_ends (push encoded_len e s) a' in
      (r, found, Removals-Accounts encoded_len gone a', bound, gone)
