-- ===== src/Reducer/Replay.antt =====
-- The replay log against the whole history (`apply` and `events_since` of
-- src/reducer/src/lib.rs).
use codex_warden.Prelude.{
  ℕ, zero, suc, ◌+◌, ◌-◌, ◌≤◌, ◌<◌, some, none, List, [], ◌∷◌, ◌++◌, ltb, first, filter,
  filter-append, length, length-append, drop, ◌≡◌, refl, ap, arith, ◌⊎◌, inl, inr, u64_max,
  Bool-cases, Option-cases, append_assoc, append-nil, All, sym, ◌∙◌, dec_lt, ltb_iff,
}
use codex_warden.Protocol.Json.{Json}
use codex_warden.Protocol.Frame.{is_lifecycle}
use codex_warden.Protocol.Event.{SequencedEvent}
use codex_warden.Reducer.Apply.{
  Reducer, events, gap_too_old, trim_log, apply_log, apply, run, events_since, new,
}

module _ {ℓ} {A : Type ℓ} where
  -- The last `n` elements.
  abbrev pub latest : ℕ → List A → List A
  latest n xs = drop (length xs - n) xs

  drop-append : (n : ℕ) (xs ys : List A) → n ≤ length xs → drop n (xs ++ ys) ≡ drop n xs ++ ys
  drop-append zero xs ys h = refl
  drop-append (suc n) [] ys h = absurd (omega arith)
  drop-append (suc n) (x ∷ xs) ys h = drop-append n xs ys (omega arith)

  length-drop : (n : ℕ) (xs : List A) → length (drop n xs) ≡ length xs - n
  length-drop zero xs = omega arith
  length-drop (suc n) [] = omega arith
  length-drop (suc n) (x ∷ xs) = omega (arith, length-drop n xs)

  drop-drop : (m n : ℕ) (xs : List A) → drop m (drop n xs) ≡ drop (m + n) xs
  drop-drop m zero xs = let e : m + 0 ≡ m = omega arith in rw e
  drop-drop zero (suc n) [] = let e : 0 + suc n ≡ suc n = omega arith in rw e
  drop-drop (suc m) (suc n) [] = let e : suc m + suc n ≡ suc (m + suc n) = omega arith in rw e
  drop-drop m (suc n) (x ∷ xs) =
      let e : m + suc n ≡ suc (m + n) = omega arith in rw e (drop-drop m n xs)

module _ {V : Type 0} where
  trim_log-latest : (n : ℕ) (log : List (SequencedEvent V)) → trim_log n log ≡ latest n log
  unfolding trim_log
  trim_log-latest n [] = let e : 0 - n ≡ 0 = omega arith in rw e
  trim_log-latest n (e ∷ log) = elim (dec_lt n (suc (length log))) [
    | yes h ↦
        let p : suc (length log) - n ≡ suc (length log - n) = omega arith in
        rw ((ltb_iff n (suc (length log))).1 h, p) (trim_log-latest n log)
    | no h ↦ let p : suc (length log) - n ≡ 0 = omega arith in rw p (ground arith)
  ]

module _ {ℓ} {A : Type ℓ} where
  length-latest : (n : ℕ) (xs : List A) → length (latest n xs) ≤ n
  length-latest n xs = omega (arith, length-drop (length xs - n) xs)

  latest-nil : (n : ℕ) → latest {A = A} n [] ≡ []
  latest-nil n = let e : 0 - n ≡ 0 = omega arith in rw e

  -- The latest of a list that was cut before.
  latest-append : (n : ℕ) (xs ys : List A) → latest n (latest n xs ++ ys) ≡ latest n (xs ++ ys)
  latest-append n xs ys =
      let k = length xs - n in
      let join : drop k (xs ++ ys) ≡ drop k xs ++ ys = drop-append k xs ys (omega arith) in
      let size : length (drop k xs ++ ys) - n + k ≡ length (xs ++ ys) - n =
        omega (arith, length-append (drop k xs) ys, length-append xs ys, length-drop k xs) in
      ap (drop (length (drop k xs ++ ys) - n)) (sym join)
      ∙ drop-drop (length (drop k xs ++ ys) - n) k (xs ++ ys)
      ∙ ap (λ i. drop i (xs ++ ys)) size

module _ {V : Type 0} where
  abbrev pub lifecycle_of : List (SequencedEvent V) → List (SequencedEvent V)
  lifecycle_of = filter (λ e. is_lifecycle e.plane)

  -- Each event's sequence is above the one before, and above `n`.
  abbrev pub Increasing : ℕ → List (SequencedEvent V) → Type 0
  Increasing n [] = Unit {0}
  Increasing n (e ∷ es) = (n < e.sequence) × Increasing e.sequence es

  abbrev pub Words : List (SequencedEvent V) → Type 0
  Words = All (λ e. e.sequence ≤ u64_max)

  pub Increasing-mono :
      {m n : ℕ} (es : List (SequencedEvent V)) → m ≤ n → Increasing n es → Increasing m es
  Increasing-mono [] h i = tt
  Increasing-mono (e ∷ es) h i = (omega arith, i.1)

  pub lifecycle_of-Increasing :
      (n : ℕ) (es : List (SequencedEvent V)) → Increasing n es → Increasing n (lifecycle_of es)
  lifecycle_of-Increasing n [] i = tt
  lifecycle_of-Increasing n (e ∷ es) i =
      let rest = lifecycle_of-Increasing e.sequence es i.1 in
      ground (arith, rest, Increasing-mono {m = n} {n = e.sequence} (lifecycle_of es))

  lifecycle_of-Words : (es : List (SequencedEvent V)) → Words es → Words (lifecycle_of es)
  lifecycle_of-Words [] w = tt
  lifecycle_of-Words (e ∷ es) w = ground (arith, lifecycle_of-Words es w.1)

  -- The oldest event that is left bounds the sequences of those that are gone.
  first-drop-lt :
      (k n : ℕ) (es : List (SequencedEvent V)) (o : SequencedEvent V)
      → Increasing n es
      → first (drop k es) ≡ some o
      → n < o.sequence
  first-drop-lt zero n [] o i e = cc
  first-drop-lt (suc k) n [] o i e = cc
  first-drop-lt zero n (x ∷ es) o i e = ground arith
  first-drop-lt (suc k) n (x ∷ es) o i e = omega (arith, first-drop-lt k x.sequence es o i.1 e, i.0)

  first-drop-word :
      (k : ℕ) (es : List (SequencedEvent V)) (o : SequencedEvent V)
      → Words es
      → first (drop k es) ≡ some o
      → o.sequence ≤ u64_max
  first-drop-word zero [] o w e = cc
  first-drop-word (suc k) [] o w e = cc
  first-drop-word zero (x ∷ es) o w e = ground arith
  first-drop-word (suc k) (x ∷ es) o w e = first-drop-word k es o w.1 e

  -- Where the log reaches back far enough, what it lost is older than what is asked for.
  filter-drop :
      (k n after : ℕ) (es : List (SequencedEvent V)) (o : SequencedEvent V)
      → Increasing n es
      → first (drop k es) ≡ some o
      → o.sequence ≤ after + 1
      → filter (λ e. ltb after e.sequence) (drop k es) ≡ filter (λ e. ltb after e.sequence) es
  filter-drop zero n after es o i e h = refl
  filter-drop (suc k) n after [] o i e h = refl
  filter-drop (suc k) n after (x ∷ es) o i e h =
      ground
        (arith, first-drop-lt k x.sequence es o i.1 e, filter-drop k x.sequence after es o i.1 e h)

  apply_log-latest :
      (e : SequencedEvent V) (n : ℕ) (past : List (SequencedEvent V))
      → apply_log e n (latest n (lifecycle_of past)) ≡ latest n (lifecycle_of (past ++ e ∷ []))
  unfolding apply_log
  apply_log-latest e n past = elim (Bool-cases (is_lifecycle e.plane)) [
    | inl l ↦
        rw (l, trim_log-latest)
          (latest-append n (lifecycle_of past) (e ∷ [])
            ∙ ap (latest n) (sym (filter-append (λ e. is_lifecycle e.plane) past (e ∷ []) ∙ rw l)))
    | inr l ↦ rw l (
        ap (latest n)
          (sym (filter-append (λ e. is_lifecycle e.plane) past (e ∷ []) ∙ rw l (append-nil _))))
  ]

  first-none-nil :
      (n : ℕ) (xs : List (SequencedEvent V)) → first (latest (suc n) xs) ≡ none → xs ≡ []
  first-none-nil n [] e = refl
  first-none-nil n (x ∷ xs) e =
      absurd (omega (arith, length-first _ e, length-drop (length (x ∷ xs) - suc n) (x ∷ xs)))
    where
      length-first : (ys : List (SequencedEvent V)) → first ys ≡ none → length ys ≡ 0
      length-first [] e = refl
      length-first (y ∷ ys) e = cc

  -- What `events_since` answers from a log that holds the latest events of `all`.
  events_since-cases :
      (after n : ℕ) (all : List (SequencedEvent V)) (r : Reducer V)
      → r.lifecycle ≡ latest (suc n) all
      → Increasing 0 all
      → Words all
      → (events_since after r ≡ events (filter (λ e. ltb after e.sequence) all))
        ⊎ ((oldest : SequencedEvent V) × (first (latest (suc n) all) ≡ some oldest)
            × (after + 1 < oldest.sequence)
            × (events_since after r ≡ gap_too_old after (some oldest.sequence) r.state.snapshot))
  unfolding events_since
  events_since-cases after n all r log i w = elim (Option-cases (first r.lifecycle)) [
    | inl e ↦
        let none : all ≡ [] = first-none-nil n all (ap first (sym log) ∙ e) in
        let empty : r.lifecycle ≡ [] = log ∙ ap (latest (suc n)) none ∙ latest-nil (suc n) in
        inl (rw (empty, none))
    | inr (o, e) ↦
        let e' : first (latest (suc n) all) ≡ some o = ap first (sym log) ∙ e in
        let k = length all - suc n in
        elim (dec_lt (after + 1) o.sequence) [
          | yes h ↦ inr (o, e', h, ground (arith, first-drop-word k all o w e'))
          | no h ↦ inl (
              ground (
                arith,
                first-drop-word k all o w e',
                filter-drop k 0 after all o i e' (omega arith),
              ))
        ]
  ]

module _ {V : Type 0} (j : Json V) where
  apply-lifecycle :
      (e : SequencedEvent V) (past : List (SequencedEvent V)) (r : Reducer V)
      → r.lifecycle ≡ latest r.lifecycle_capacity (lifecycle_of past)
      → (apply j e r).0.lifecycle ≡ latest r.lifecycle_capacity (lifecycle_of (past ++ e ∷ []))
  unfolding apply
  apply-lifecycle e past r h =
      ap (apply_log e r.lifecycle_capacity) h ∙ apply_log-latest e r.lifecycle_capacity past

  -- After any history the log holds exactly its latest lifecycle events, in order.
  pub run-lifecycle :
      (es past : List (SequencedEvent V)) (r : Reducer V)
      → r.lifecycle ≡ latest r.lifecycle_capacity (lifecycle_of past)
      → (run j es r).lifecycle ≡ latest r.lifecycle_capacity (lifecycle_of (past ++ es))
  unfolding run apply
  run-lifecycle [] past r h = rw append-nil h
  run-lifecycle (e ∷ es) past r h =
      run-lifecycle es (past ++ e ∷ []) (apply j e r).0 (apply-lifecycle e past r h)
      ∙ ap (λ h. latest r.lifecycle_capacity (lifecycle_of h)) (append_assoc past (e ∷ []) es)

  -- A new reducer has applied a history of rising sequences within 64 bits. A replay after a cursor
  -- is exactly the history's lifecycle events after it, in order; or it is reported as a gap, with
  -- the current snapshot and the number of the oldest event that the log holds, which is the first
  -- of the latest lifecycle events within the capacity, and that number is beyond the next one after
  -- the cursor. So where the oldest of them is not beyond it, or there is none, the replay is exact.
  pub events_since-honest :
      (es : List (SequencedEvent V)) (capacity after : ℕ) (r : Reducer V)
      → new capacity ≡ some r
      → Increasing 0 es
      → Words es
      → (events_since after (run j es r)
          ≡ events (filter (λ e. ltb after e.sequence) (lifecycle_of es)))
        ⊎ ((oldest : SequencedEvent V) × (first (latest capacity (lifecycle_of es)) ≡ some oldest)
            × (after + 1 < oldest.sequence)
            × (events_since after (run j es r)
                ≡ gap_too_old after (some oldest.sequence) (run j es r).state.snapshot))
  unfolding new
  events_since-honest es zero after r made i w = cc
  events_since-honest es (suc n) after r made i w =
      let log =
        run-lifecycle es [] r (ground (arith, latest-nil {0} {A = SequencedEvent V} (suc n))) in
      let size : r.lifecycle_capacity ≡ suc n = ground arith in
      events_since-cases after n (lifecycle_of es) (run j es r)
        (log ∙ ap (λ c. latest c (lifecycle_of es)) size) (lifecycle_of-Increasing 0 es i)
        (lifecycle_of-Words es w)
