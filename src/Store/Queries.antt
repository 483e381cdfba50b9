-- ===== src/Store/Queries.antt =====
-- What the queries answer about events that were recorded (`query_sequence`,
-- `evict_idle_content` and `record` of src/store/src/lib.rs).
use mathlib.Core.List.{
  Mem, mem-append, mem-cons_self, mem-cons_of_mem, eq-or-mem_of_mem-cons, not-mem-nil,
}
use mathlib.Core.List.Perm
use mathlib.Core.Logic.Or
use mathlib.Core.Logic.{∥∥₁_prop, ∥∥₁_elim, ∨₁_prop, ◌∨₁◌}
use codex_warden.Prelude.{
  ℕ, zero, suc, ◌+◌, ◌≤◌, String, Bool, true, Option, some, none, List, [], ◌∷◌, ◌++◌, ◌≡◌, arith,
  All, filter, opt_string_discrete, lookup, lookup-insert, Option-cases, Bool-cases, inl, inr,
  u64_max, is_some_and, get_elem?, length, any, ◌&&◌, ◌==◌,
}
use codex_warden.Protocol.Frame.{is_delta}
use codex_warden.Protocol.Event.{SequencedEvent}
use codex_warden.Store.Events.{
  StoreConfig, Inner, RetentionGap, remove_nth, gap_of, remove_at, strike, empty, widen,
}
use codex_warden.Store.Prune.{record_event, evict_idle_content}
use codex_warden.Store.Query.{in_sequence, query_sequence}
use codex_warden.Store.Accounting.{Accounts, empty-Accounts}
use codex_warden.Store.Bounds.{record_event_ends, Removals, here, next, Removals-Accounts}
use codex_warden.Store.Ledger.{empty-Ledger, Covers, Ledger, push-Ledger, Removals-Ledger}

mem-filter_of {ℓ} :
    {A : Type ℓ} (p : A → Bool) (x : A) (xs : List A) → Mem x xs → p x ≡ true → Mem x (filter p xs)
mem-filter_of p x [] m h = absurd (not-mem-nil m)
mem-filter_of p x (y ∷ xs) m h =
    Or.elim ∥∥₁_prop (eq-or-mem_of_mem-cons m) (λ e. rw (← e) (rw h mem-cons_self))
      (λ r. elim (Bool-cases (p y)) [
        | inl q ↦ rw q (mem-cons_of_mem y (mem-filter_of p x xs r h))
        | inr q ↦ rw q (mem-filter_of p x xs r h)
      ])

mem-All {ℓ κ} : {A : Type ℓ} (P : A → Type κ) (x : A) (xs : List A) → All P xs → Mem x xs → ∥ P x ∥₁
mem-All P x [] all m = absurd (not-mem-nil m)
mem-All P x (y ∷ xs) all m =
    Or.elim ∥∥₁_prop (eq-or-mem_of_mem-cons m) (λ e. rw e (∣◌∣₁ all.0)) (mem-All P x xs all.1)

module _ {V : Type 0} where
  -- The gap that a query reports reaches up to the event.
  abbrev pub IsReported : Option RetentionGap → SequencedEvent V → Type 0
  IsReported gap e =
      (g : RetentionGap) × (n : ℕ) × (gap ≡ some g)
      × (g.before_sequence ≡ some n)
      × (e.sequence ≤ n)

  Covers-IsReported :
      (s : Inner V) (e : SequencedEvent V) (t : String)
      → e.thread_id ≡ some t
      → Covers s.gaps e
      → IsReported (lookup opt_string_discrete (some t) s.gaps) e
  Covers-IsReported s e t h (n, before, le) =
      elim (Option-cases (lookup opt_string_discrete (some t) s.gaps)) [
        | inl e' ↦ absurd (ground arith)
        | inr (g, e') ↦ (g, n, e', ground arith, le)
      ]

  Ledger-complete :
      (history : List (SequencedEvent V)) (s : Inner V) (e : SequencedEvent V) (t : String)
      (after : ℕ) (through : Option ℕ)
      → Ledger history s
      → Mem e history
      → e.thread_id ≡ some t
      → in_sequence (some t) after through e ≡ true
      → Mem e (query_sequence (some t) after through s).events
        ∨₁ IsReported (query_sequence (some t) after through s).gap e
  unfolding query_sequence
  Ledger-complete history s e t after through l m h asked =
      Or.elim ∨₁_prop (mem-append.0 ((Perm.mem_iff l.accounted).0 m))
        (λ gone.
          ∥∥₁_elim (mem-All (Covers s.gaps) e l.gone l.covered gone) ∨₁_prop
            (λ c. Or.inr (Covers-IsReported s e t h c)))
        (λ held. Or.inl (mem-filter_of (in_sequence (some t) after through) e s.events held asked))

module _ {V : Type 0} (encoded_len : SequencedEvent V → ℕ) (config : StoreConfig) where
  evict-Removals :
      (idle : List String) (n : ℕ) (s : Inner V)
      → Removals encoded_len s (evict_idle_content encoded_len config idle n s)
  unfolding evict_idle_content
  evict-Removals idle zero s = here
  evict-Removals idle (suc n) s =
      elim (Bool-cases (
        is_some_and (get_elem? s.events n)
          λ e. is_delta e.plane && is_some_and e.thread_id (λ id. any (λ t. t == id) idle))) [
            | inl h ↦ rw (h, evict_idle_content) (next n (evict-Removals idle n _))
            | inr h ↦ rw (h, evict_idle_content) (evict-Removals idle n s)
          ]

  -- The stores that calls produce, with the events that were recorded. Each event fits in 64 bits
  -- beside the bytes held.
  pub data Recorded : List (SequencedEvent V) → Inner V → Type 0 where
    start : Recorded [] empty
    record_one :
        {h h' : List (SequencedEvent V)} {s r : Inner V} (e : SequencedEvent V)
        → Recorded h s
        → s.bytes + encoded_len e ≤ u64_max
        → record_event encoded_len config e s ≡ some r
        → h' ≡ h ++ e ∷ []
        → Recorded h' r
    evict :
        {h : List (SequencedEvent V)} {s r : Inner V} (idle : List String)
        → Recorded h s
        → r ≡ evict_idle_content encoded_len config idle (length s.events) s
        → Recorded h r

  -- The counts of a store that calls produced are exact, and each event recorded is accounted for.
  pub Recorded-sound :
      {h : List (SequencedEvent V)} {s : Inner V}
      → Recorded h s
      → Accounts encoded_len s × Ledger h s
  Recorded-sound start = (empty-Accounts encoded_len, empty-Ledger)
  Recorded-sound (record_one {s = s} {r = r} e past room made split) =
      let (a, l) = Recorded-sound past in
      let (r', found, a', bound, gone) = record_event_ends encoded_len config e s a room in
      let same : r' ≡ r = ground arith in
      rw (← same, split) (a', Removals-Ledger encoded_len _ gone (push-Ledger encoded_len _ e s l))
  Recorded-sound (evict {s = s} idle past made) =
      let (a, l) = Recorded-sound past in
      let gone = evict-Removals idle (length s.events) s in
      rw made (Removals-Accounts encoded_len gone a, Removals-Ledger encoded_len _ gone l)

  -- An event that was recorded for a thread and that a query by sequence asks for is among the
  -- events of the answer, or the gap of the answer reaches up to it.
  pub query_sequence_complete :
      (history : List (SequencedEvent V)) (s : Inner V) (e : SequencedEvent V) (t : String)
      (after : ℕ) (through : Option ℕ)
      → Recorded history s
      → Mem e history
      → e.thread_id ≡ some t
      → in_sequence (some t) after through e ≡ true
      → Mem e (query_sequence (some t) after through s).events
        ∨₁ IsReported (query_sequence (some t) after through s).gap e
  query_sequence_complete history s e t after through past =
      Ledger-complete history s e t after through (Recorded-sound past).1

  -- The removal of an event of a thread is not reported by a query over all threads: its gap is the
  -- one from before, whatever has been lost.
  pub query_all-hides_gap :
      (s : Inner V) (i : ℕ) (e : SequencedEvent V) (rest : List (SequencedEvent V)) (t : String)
      (after : ℕ) (through : Option ℕ)
      → remove_nth s.events i ≡ some (e, rest)
      → e.thread_id ≡ some t
      → (query_sequence none after through (remove_at encoded_len i s)).gap
        ≡ (query_sequence none after through s).gap
  unfolding query_sequence remove_at strike
  query_all-hides_gap s i e rest t after through h k = ground (
    arith,
    lookup-insert opt_string_discrete (some t) none (widen e (gap_of (some t) s.gaps)) s.gaps,
  )
