-- ===== src/Store/Ledger.antt =====
-- Every event recorded is held, or covered by the gap of its thread (`remove_at` and the queries of
-- src/store/src/lib.rs).
use mathlib.Core.List.{Perm, perm_middle}
use mathlib.Core.List.Perm
use codex_warden.Prelude.{
  ℕ, ◌%◌, ◌≤◌, max, String, Bool, Option, some, List, [], ◌∷◌, ◌++◌, ◌≡◌, refl, arith, append_assoc,
  count, ◌&&◌, opt_eq, All, add64, opt_string_discrete, lookup, insert, lookup-insert, Option-cases,
  inl, inr, ite, if◌then◌else◌,
}
use codex_warden.Protocol.Frame.{is_delta, is_lifecycle}
use codex_warden.Protocol.Event.{SequencedEvent}
use codex_warden.Store.Events.{
  Inner, RetentionGap, remove_nth, gap_of, widen, strike, remove_at, push, empty,
}
use codex_warden.Store.Accounting.{remove_nth-perm}
use codex_warden.Store.Bounds.{Removals, here, next}

module _ {V : Type 0} where
  -- The gap of the event's thread reaches up to the event.
  abbrev pub Covers : List (Option String × RetentionGap) → SequencedEvent V → Type 0
  Covers gaps e = (n : ℕ) × ((gap_of e.thread_id gaps).before_sequence ≡ some n) × (e.sequence ≤ n)

  abbrev pub is_delta_of : Option String → SequencedEvent V → Bool
  is_delta_of k e = is_delta e.plane && opt_eq e.thread_id k

  abbrev pub is_lifecycle_of : Option String → SequencedEvent V → Bool
  is_lifecycle_of k e = is_lifecycle e.plane && opt_eq e.thread_id k

  pub record Ledger (history : List (SequencedEvent V)) (s : Inner V) : Type 0 where
    pub gone : List (SequencedEvent V)
    pub accounted : Perm history (gone ++ s.events)
    pub covered : All (Covers s.gaps) gone
    pub deltas :
        (k : Option String)
        → (gap_of k s.gaps).summarized_delta_events
          ≡ count (is_delta_of k) gone % 18446744073709551616
    pub lifecycles :
        (k : Option String)
        → (gap_of k s.gaps).evicted_lifecycle_events
          ≡ count (is_lifecycle_of k) gone % 18446744073709551616

  pub empty-Ledger : Ledger [] empty
  unfolding empty lookup
  empty-Ledger = record {
    gone = [];
    accounted = Perm.refl _;
    covered = tt;
    deltas = λ k. refl;
    lifecycles = λ k. refl;
  }

  pub gap_of-widen :
      (e : SequencedEvent V) (m : List (Option String × RetentionGap)) (k : Option String)
      → gap_of k (insert opt_string_discrete e.thread_id (widen e (gap_of e.thread_id m)) m)
        ≡ ite (opt_string_discrete e.thread_id k) (widen e (gap_of e.thread_id m)) (gap_of k m)
  gap_of-widen e m k =
      ground
        (arith, lookup-insert opt_string_discrete e.thread_id k (widen e (gap_of e.thread_id m)) m)

  pub widen-covers :
      (e : SequencedEvent V) (g : RetentionGap)
      → (n : ℕ) × ((widen e g).before_sequence ≡ some n) × (e.sequence ≤ n)
  unfolding widen
  widen-covers e g = elim (Option-cases g.before_sequence) [
    | inl h ↦ (e.sequence, ground arith, omega arith)
    | inr (n, h) ↦ (max n e.sequence, ground arith, omega arith)
  ]

  widen-keeps :
      (e : SequencedEvent V) (g : RetentionGap) (n : ℕ)
      → g.before_sequence ≡ some n
      → (m : ℕ) × ((widen e g).before_sequence ≡ some m) × (n ≤ m)
  unfolding widen
  widen-keeps e g n h = (max n e.sequence, ground arith, omega arith)

  pub widen-Covers :
      (e d : SequencedEvent V) (s : Inner V) (gaps : List (Option String × RetentionGap))
      → gaps ≡ insert opt_string_discrete e.thread_id (widen e (gap_of e.thread_id s.gaps)) s.gaps
      → Covers s.gaps d
      → Covers gaps d
  widen-Covers e d s gaps h (n, before, le) =
      let at = gap_of-widen e s.gaps d.thread_id in
      elim (opt_string_discrete e.thread_id d.thread_id) [
        | yes p ↦
            let (m, wide, up) = widen-keeps e (gap_of e.thread_id s.gaps) n (ground arith) in
            (m, ground (arith, at), omega arith)
        | no p ↦ (n, ground (arith, at), le)
      ]

  widen-All :
      (e : SequencedEvent V) (s : Inner V) (gaps : List (Option String × RetentionGap))
      (ds : List (SequencedEvent V))
      → gaps ≡ insert opt_string_discrete e.thread_id (widen e (gap_of e.thread_id s.gaps)) s.gaps
      → All (Covers s.gaps) ds
      → All (Covers gaps) ds
  widen-All e s gaps [] h all = tt
  widen-All e s gaps (d ∷ ds) h all =
      (widen-Covers e d s gaps h all.0, widen-All e s gaps ds h all.1)

  widen_counts :
      (e : SequencedEvent V) (g : RetentionGap)
      → ((widen e g).summarized_delta_events ≡ (
          if is_delta e.plane
          then add64 g.summarized_delta_events 1
          else g.summarized_delta_events))
        × ((widen e g).evicted_lifecycle_events ≡ (
            if is_lifecycle e.plane
            then add64 g.evicted_lifecycle_events 1
            else g.evicted_lifecycle_events))
  unfolding widen
  widen_counts e g = (ground arith, ground arith)

module _ {V : Type 0} (encoded_len : SequencedEvent V → ℕ) where
  strike-Ledger :
      (history : List (SequencedEvent V)) (s : Inner V) (i : ℕ) (e : SequencedEvent V)
      (rest : List (SequencedEvent V))
      → remove_nth s.events i ≡ some (e, rest)
      → Ledger history s
      → Ledger history (strike encoded_len e rest s)
  unfolding strike
  strike-Ledger history s i e rest h l = record {
    gone = e ∷ l.gone;
    accounted = Perm.trans l.accounted (
        Perm.trans (Perm.append_left l.gone (remove_nth-perm s.events i e rest h))
          (perm_middle l.gone rest));
    covered = (
      (let (n, before, le) = widen-covers e (gap_of e.thread_id s.gaps) in
          (n, ground (arith, gap_of-widen e s.gaps e.thread_id), le)),
      widen-All e s _ l.gone refl l.covered,
    );
    deltas = λ k.
        ground
          (arith, l.deltas k, gap_of-widen e s.gaps k, widen_counts e (gap_of e.thread_id s.gaps));
    lifecycles = λ k. ground (
      arith,
      l.lifecycles k,
      gap_of-widen e s.gaps k,
      widen_counts e (gap_of e.thread_id s.gaps),
    );
  }

  pub remove_at-Ledger :
      (history : List (SequencedEvent V)) (i : ℕ) (s : Inner V)
      → Ledger history s
      → Ledger history (remove_at encoded_len i s)
  unfolding remove_at
  remove_at-Ledger history i s l = elim (Option-cases (remove_nth s.events i)) [
    | inl h ↦ rw (h, remove_at) l
    | inr (r, h) ↦ rw (h, remove_at) (strike-Ledger history s i r.0 r.1 h l)
  ]

  pub Removals-Ledger :
      (history : List (SequencedEvent V)) {s t : Inner V}
      → Removals encoded_len s t
      → Ledger history s
      → Ledger history t
  Removals-Ledger history here l = l
  Removals-Ledger history {s} (next i r) l =
      Removals-Ledger history r (remove_at-Ledger history i s l)

  pub push-Ledger :
      (history : List (SequencedEvent V)) (e : SequencedEvent V) (s : Inner V)
      → Ledger history s
      → Ledger (history ++ e ∷ []) (push encoded_len e s)
  unfolding push
  push-Ledger history e s l = record {
    gone = l.gone;
    accounted =
        rw (← append_assoc l.gone s.events (e ∷ [])) (Perm.append_right (e ∷ []) l.accounted);
    covered = l.covered;
    deltas = l.deltas;
    lifecycles = l.lifecycles;
  }
