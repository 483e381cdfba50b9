-- ===== src/Control/Exclusion.antt =====
-- One action at a time on a thread (`lock_for` of src/control/src/lib.rs).
use codex_warden.Prelude.{
  ℕ, ◌+◌, ◌<◌, String, true, false, some, none, List, [], ◌∷◌, any, eqb, ite, lookup, insert,
  string_discrete, ◌≡◌, ◌⊎◌, refl, ap, subst, if_pos, if_neg, sym, ◌∙◌, arith, All, Option-cases,
  Bool-cases, inl, inr, lookup-insert,
}
use codex_warden.Control.Locks.{Locks, lock_for, Running, same_text, runs}

-- The lock of a thread is the table's.
abbrev pub Has : Locks → String → ℕ → Type 0
Has s t l = lookup string_discrete t s.thread_locks ≡ some l

-- Two threads have two locks, and those that are made.
pub record Distinct (s : Locks) : Type 0 where
  pub apart : (t u : String) (l : ℕ) → Has s t l → Has s u l → t ≡ u
  pub made : (t : String) (l : ℕ) → Has s t l → l < s.locks

-- What a table with one lock more has.
split-Has :
    (q t : String) (l : ℕ) (s : Locks) (d : Dec (q ≡ t))
    → ite d (some s.locks) (lookup string_discrete t s.thread_locks) ≡ some l
    → ((q ≡ t) × (l ≡ s.locks)) ⊎ Has s t l
split-Has q t l s (yes same) e = inl (same, cc)
split-Has q t l s (no other) e = inr e

insert-Has :
    (q t : String) (l : ℕ) (s : Locks)
    → lookup string_discrete t (insert string_discrete q s.locks s.thread_locks) ≡ some l
    → ((q ≡ t) × (l ≡ s.locks)) ⊎ Has s t l
insert-Has q t l s e =
    split-Has q t l s (string_discrete q t)
      (sym (lookup-insert string_discrete q t s.locks s.thread_locks) ∙ e)

abbrev more : String → Locks → Locks
more q s = record {
  thread_locks = insert string_discrete q s.locks s.thread_locks;
  locks = s.locks + 1;
}

more-Distinct : (q : String) (s : Locks) → Distinct s → Distinct (more q s)
more-Distinct q s h = record {
  apart = λ t u l a b. apart t u l (insert-Has q t l s a) (insert-Has q u l s b);
  made = λ t l a. made t l (insert-Has q t l s a);
}
  where
    apart :
        (t u : String) (l : ℕ)
        → ((q ≡ t) × (l ≡ s.locks)) ⊎ Has s t l
        → ((q ≡ u) × (l ≡ s.locks)) ⊎ Has s u l
        → t ≡ u
    apart t u l (inl a) (inl b) = sym (a.0) ∙ b.0
    apart t u l (inl a) (inr b) = absurd (omega (arith, a.1, h.made u l b))
    apart t u l (inr a) (inl b) = absurd (omega (arith, b.1, h.made t l a))
    apart t u l (inr a) (inr b) = h.apart t u l a b

    made : (t : String) (l : ℕ) → ((q ≡ t) × (l ≡ s.locks)) ⊎ Has s t l → l < s.locks + 1
    made t l (inl a) = omega (arith, a.1)
    made t l (inr a) = omega (arith, h.made t l a)

-- What a table goes to: threads keep their locks.
pub record Grows (s s' : Locks) : Type 0 where
  pub distinct : Distinct s'
  pub keeps : (t : String) (l : ℕ) → Has s t l → Has s' t l

more-keeps :
    (q : String) (s : Locks)
    → lookup string_discrete q s.thread_locks ≡ none
    → (t : String) (l : ℕ) → Has s t l
    → Has (more q s) t l
more-keeps q s absent t l h =
    lookup-insert string_discrete q t s.locks s.thread_locks
    ∙ if_neg (string_discrete q t)
        (λ e. differ (subst (λ u. lookup string_discrete u s.thread_locks ≡ none) e absent)) _ _
    ∙ h
  where
    differ : lookup string_discrete t s.thread_locks ≡ none → ⊥
    differ e = cc

pub lock_for_lem :
    (q : String) (s : Locks) → Distinct s → let (s', l) = lock_for q s in Grows s s' × Has s' q l
unfolding lock_for
lock_for_lem q s h = elim (Option-cases (lookup string_discrete q s.thread_locks)) [
  | inl e ↦
      rw (e, lock_for)
        (
          (record { distinct = more-Distinct q s h; keeps = more-keeps q s e }),
          lookup-insert string_discrete q q s.locks s.thread_locks
              ∙ if_pos (string_discrete q q) refl _ _,
        )
  | inr (l, e) ↦ rw (e, lock_for) (record { distinct = h; keeps = λ t m a. a }, e)
]

-- The lock of a thread is held exactly when an action on the thread runs.
holds-runs :
    (s : Locks) (t : String) (l : ℕ) (r : Running)
    → Distinct s
    → Has s t l
    → Has s r.thread_id r.lock
    → eqb r.lock l ≡ same_text r.thread_id t
holds-runs s t l r h a b =
    elim (string_discrete r.thread_id t) as (λ d. eqb r.lock l ≡ ite d true false) [
      | yes e ↦
          let same : r.lock ≡ l =
            some-inj (sym b ∙ (ap (λ u. lookup string_discrete u s.thread_locks) e ∙ a)) in
          ground arith
      | no e ↦ elim (Bool-cases (eqb r.lock l)) [
        | inl q ↦
            let same : r.lock ≡ l = ground (arith, q) in
            absurd (e (h.apart r.thread_id t l (subst (λ m. Has s r.thread_id m) same b) a))
        | inr q ↦ q
      ]
    ]
  where
    some-inj : {m n : ℕ} → some m ≡ some n → m ≡ n
    some-inj e = cc

pub any-runs :
    (s : Locks) (t : String) (l : ℕ) (rs : List Running)
    → Distinct s
    → Has s t l
    → All (λ r. Has s r.thread_id r.lock) rs
    → any (λ r. eqb r.lock l) rs ≡ runs t rs
any-runs s t l [] h a b = refl
any-runs s t l (r ∷ rs) h a (b, bs) = rw (holds-runs s t l r h a b, any-runs s t l rs h a bs) refl
