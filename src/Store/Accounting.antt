-- ===== src/Store/Accounting.antt =====
-- The byte counts against the events held (`record_locked` and `remove_at` of
-- src/store/src/lib.rs).
use mathlib.Core.List.{Perm}
use mathlib.Core.List.Perm
use codex_warden.Prelude.{
  ℕ, zero, suc, ◌+◌, ◌-◌, ◌≤◌, ◌<◌, String, Option, some, none, List, [], ◌∷◌, ◌≡◌, refl, ap, arith,
  sum_by, sum_by-append, length, opt_eq, add64, u64_max, if◌then◌else◌, string_discrete, lookup,
  lookup-insert, Option-cases, inl, inr,
}
use codex_warden.Protocol.Event.{SequencedEvent}
use codex_warden.Store.Events.{
  Inner, remove_nth, thread_total, credit_thread, debit_thread, strike, remove_at, push, empty,
}

module _ {ℓ} {A : Type ℓ} where
  pub remove_nth-sum :
      (f : A → ℕ) (xs : List A) (i : ℕ) (x : A) (ys : List A)
      → remove_nth xs i ≡ some (x, ys)
      → sum_by f xs ≡ f x + sum_by f ys
  unfolding remove_nth
  remove_nth-sum f [] i x ys e = cc
  remove_nth-sum f (y ∷ xs) zero x ys e = ground arith
  remove_nth-sum f (y ∷ xs) (suc i) x ys e = elim (Option-cases (remove_nth xs i)) [
    | inl h ↦ ground arith
    | inr (r, h) ↦ ground (arith, remove_nth-sum f xs i r.0 r.1 h)
  ]

  pub remove_nth-perm :
      (xs : List A) (i : ℕ) (x : A) (ys : List A)
      → remove_nth xs i ≡ some (x, ys)
      → Perm xs (x ∷ ys)
  unfolding remove_nth
  remove_nth-perm [] i x ys e = cc
  remove_nth-perm (y ∷ xs) zero x ys e =
      let p : y ≡ x = ground arith in let q : xs ≡ ys = ground arith in rw (p, q) (Perm.refl _)
  remove_nth-perm (y ∷ xs) (suc i) x ys e = elim (Option-cases (remove_nth xs i)) [
    | inl h ↦ absurd (ground arith)
    | inr (r, h) ↦
        let p : r.0 ≡ x = ground arith in
        let q : y ∷ r.1 ≡ ys = ground arith in
        rw (← p, ← q)
          (Perm.trans (Perm.cons y (remove_nth-perm xs i r.0 r.1 h)) (Perm.swap r.0 y r.1))
  ]

  pub remove_nth_in_range :
      (xs : List A) (i : ℕ)
      → i < length xs
      → (x : A) × (ys : List A) × (remove_nth xs i ≡ some (x, ys)) × (length xs ≡ suc (length ys))
  unfolding remove_nth
  remove_nth_in_range [] i h = absurd (omega arith)
  remove_nth_in_range (x ∷ xs) zero h = (x, xs, refl, refl)
  remove_nth_in_range (x ∷ xs) (suc i) h =
      let (y, ys, e, l) = remove_nth_in_range xs i (omega arith) in (y, x ∷ ys, rw e, ap suc l)

thread_total-credit :
    (o : Option String) (size : ℕ) (m : List (String × ℕ)) (t : String)
    → thread_total t m + size ≤ u64_max
    → thread_total t (credit_thread o size m)
      ≡ thread_total t m + (if opt_eq o (some t) then size else 0)
unfolding credit_thread
thread_total-credit none size m t h = omega arith
thread_total-credit (some k) size m t h =
    ground (arith, lookup-insert string_discrete k t (add64 (thread_total k m) size) m)

thread_total-debit :
    (o : Option String) (size : ℕ) (m : List (String × ℕ)) (t : String)
    → thread_total t (debit_thread o size m)
      ≡ thread_total t m - (if opt_eq o (some t) then size else 0)
unfolding debit_thread
thread_total-debit none size m t = omega arith
thread_total-debit (some k) size m t =
    ground (arith, lookup-insert string_discrete k t (thread_total k m - size) m)

module _ {V : Type 0} (encoded_len : SequencedEvent V → ℕ) where
  -- The bytes of the events of one thread.
  abbrev pub share : String → SequencedEvent V → ℕ
  share t e = if opt_eq e.thread_id (some t) then encoded_len e else 0

  pub record Accounts (s : Inner V) : Type 0 where
    pub total : s.bytes ≡ sum_by encoded_len s.events
    pub threads : (t : String) → thread_total t s.thread_bytes ≡ sum_by (share t) s.events

  pub share-le :
      (t : String) (es : List (SequencedEvent V)) → sum_by (share t) es ≤ sum_by encoded_len es
  share-le t [] = omega arith
  share-le t (e ∷ es) = ground (arith, share-le t es)

  pub empty-Accounts : Accounts empty
  unfolding empty
  empty-Accounts = record { total = refl; threads = λ t. empty_total t }
    where
      empty_total : (t : String) → thread_total t [] ≡ 0
      empty_total t = unfold lookup in refl

  pub push-Accounts :
      (e : SequencedEvent V) (s : Inner V)
      → s.bytes + encoded_len e ≤ u64_max
      → Accounts s
      → Accounts (push encoded_len e s)
  unfolding push
  push-Accounts e s room a = record {
    total = omega (arith, a.total, sum_by-append encoded_len s.events (e ∷ []));
    threads = λ t. omega (
      arith,
      a.threads t,
      a.total,
      share-le t s.events,
      thread_total-credit e.thread_id (encoded_len e) s.thread_bytes t,
      sum_by-append (share t) s.events (e ∷ []),
    );
  }

  pub strike-Accounts :
      (s : Inner V) (i : ℕ) (e : SequencedEvent V) (rest : List (SequencedEvent V))
      → remove_nth s.events i ≡ some (e, rest)
      → Accounts s
      → Accounts (strike encoded_len e rest s)
  unfolding strike
  strike-Accounts s i e rest h a = record {
    total = omega (arith, a.total, remove_nth-sum encoded_len s.events i e rest h);
    threads = λ t. omega (
      arith,
      a.threads t,
      thread_total-debit e.thread_id (encoded_len e) s.thread_bytes t,
      remove_nth-sum (share t) s.events i e rest h,
    );
  }

  pub remove_at-Accounts : (i : ℕ) (s : Inner V) → Accounts s → Accounts (remove_at encoded_len i s)
  unfolding remove_at
  remove_at-Accounts i s a = elim (Option-cases (remove_nth s.events i)) [
    | inl h ↦ rw (h, remove_at) a
    | inr (r, h) ↦ rw (h, remove_at) (strike-Accounts s i r.0 r.1 h a)
  ]

  pub length-remove_at :
      (i : ℕ) (s : Inner V)
      → i < length s.events
      → suc (length (remove_at encoded_len i s).events) ≡ length s.events
  unfolding remove_at strike
  length-remove_at i s lt = let (x, ys, e, l) = remove_nth_in_range s.events i lt in ground arith
