-- ===== src/Control/Order.antt =====
-- The actions of a controller wait for those on their own thread only (src/control/src/lib.rs).
use codex_warden.Prelude.{
  ℕ, ◌+◌, ◌<◌, ◌≤◌, add64, u64_max, String, true, false, not, some, List, [], ◌∷◌, ◌++◌, count, eqb,
  length, ite, lookup, string_discrete, ◌≡◌, refl, ap, subst, arith, All, All-append, Option-cases,
  Bool-cases, inl, inr,
}
use codex_warden.Control.Locks.{
  lock_for, Waiting, Running, Actions, no_actions, Act, begins, enters, ends, pick, is_free,
  same_text, runs, act, acts,
}
use codex_warden.Control.Picking.{pick-All, pick-count, count-any, All-map}
use codex_warden.Control.Exclusion.{Has, Distinct, lock_for_lem, any-runs}

-- Each action has its thread's lock, and no two run on one thread or with one correlation.
pub record Orderly (s : Actions) : Type 0 where
  pub distinct : Distinct s.table
  pub waits : All (λ w. Has s.table w.thread_id w.lock) s.waiting
  pub holds : All (λ r. Has s.table r.thread_id r.lock) s.running
  pub lone : (t : String) → count (λ r. same_text r.thread_id t) s.running ≤ 1
  pub unique : (n : ℕ) → count (λ r. eqb r.correlation n) s.running ≤ 1
  pub young : (n : ℕ) → s.next_correlation ≤ n → count (λ r. eqb r.correlation n) s.running ≡ 0

no_actions-Orderly : Orderly no_actions
unfolding lookup
no_actions-Orderly = record {
  distinct = record { apart = λ t u l a b. cc; made = λ t l a. cc };
  waits = tt;
  holds = tt;
  lone = λ t. omega arith;
  unique = λ n. omega arith;
  young = λ n le. refl;
}

-- The lock of one that waits is free exactly when its thread has no action that runs.
pub is_free-runs :
    (s : Actions) (t : String) (l : ℕ)
    → Orderly s
    → Has s.table t l
    → is_free l s.running ≡ not (runs t s.running)
is_free-runs s t l h a = ap not (any-runs s.table t l s.running h.distinct a h.holds)

same_text-eq : (s t : String) → same_text s t ≡ true → s ≡ t
same_text-eq s t = elim (string_discrete s t) as (λ d. ite d true false ≡ true → s ≡ t) [
  | yes p ↦ λ e. p
  | no h ↦ λ e. cc
]

quiet :
    (s : Actions) (w : Waiting)
    → Orderly s
    → Has s.table w.thread_id w.lock
    → is_free w.lock s.running ≡ true
    → count (λ r. same_text r.thread_id w.thread_id) s.running ≡ 0
quiet s w h has free =
    count-any (λ r. same_text r.thread_id w.thread_id) s.running
      (ground (arith, free, is_free-runs s w.thread_id w.lock h has))

enters-Orderly :
    (s : Actions) (w : Waiting) (rest : List Waiting)
    → s.next_correlation < u64_max
    → Orderly s
    → Has s.table w.thread_id w.lock
    → All (λ w. Has s.table w.thread_id w.lock) rest
    → is_free w.lock s.running ≡ true
    → Orderly (record s {
      next_correlation = add64 s.next_correlation 1;
      waiting = rest;
      running =
          record { thread_id = w.thread_id; lock = w.lock; correlation = s.next_correlation }
          ∷ s.running;
    })
enters-Orderly s w rest room h has others free = record {
  distinct = h.distinct;
  waits = others;
  holds = (has, h.holds);
  lone = λ t. elim (Bool-cases (same_text w.thread_id t)) [
    | inl e ↦
        let none_ : count (λ r. same_text r.thread_id t) s.running ≡ 0 =
          subst (λ u. count (λ r. same_text r.thread_id u) s.running ≡ 0)
            (same_text-eq w.thread_id t e) (quiet s w h has free) in
        ground (arith, e, none_)
    | inr e ↦ ground (arith, e, h.lone t)
  ];
  unique = λ n. elim (Bool-cases (eqb s.next_correlation n)) [
    | inl e ↦ ground (arith, e, h.young n (ground (arith, e)))
    | inr e ↦ ground (arith, e, h.unique n)
  ];
  young = λ n le. ground (arith, h.young n (omega arith));
}

begins-Orderly :
    (t : String) (s : Actions)
    → Orderly s
    → let (table, lock) = lock_for t s.table in
      Orderly (record s {
        table = table;
        waiting = s.waiting ++ (record { thread_id = t; lock = lock } ∷ []);
      })
begins-Orderly t s h =
    let (g, has) = lock_for_lem t s.table h.distinct in
    record {
      distinct = g.distinct;
      waits =
          All-append _ s.waiting _ (All-map _ _ s.waiting (λ w. g.keeps w.thread_id w.lock) h.waits)
            (has, tt);
      holds = All-map _ _ s.running (λ r. g.keeps r.thread_id r.lock) h.holds;
      lone = h.lone;
      unique = h.unique;
      young = h.young;
    }

ends-Orderly :
    (s : Actions) (n : ℕ) (r : Running) (rest : List Running)
    → pick n s.running ≡ some (r, rest)
    → Orderly s
    → Orderly (record s { running = rest })
ends-Orderly s n r rest e h = record {
  distinct = h.distinct;
  waits = h.waits;
  holds = (pick-All _ n s.running rest r e h.holds).1;
  lone = λ t.
      let c = pick-count (λ r. same_text r.thread_id t) n s.running rest r e in
      ground (arith, c, h.lone t);
  unique = λ m.
      let c = pick-count (λ r. eqb r.correlation m) n s.running rest r e in
      ground (arith, c, h.unique m);
  young = λ m le.
      let c = pick-count (λ r. eqb r.correlation m) n s.running rest r e in
      ground (arith, c, h.young m le);
}

act-Orderly :
    (a : Act) (s : Actions)
    → s.next_correlation < u64_max
    → Orderly s
    → Orderly (act a s) × ((act a s).next_correlation ≤ s.next_correlation + 1)
unfolding act
act-Orderly (begins t) s room h = (begins-Orderly t s h, omega arith)
act-Orderly (enters place) s room h = elim (Option-cases (pick place s.waiting)) [
  | inl e ↦ rw (e, act) (h, omega arith)
  | inr ((w, rest), e) ↦
      let (has, others) =
        pick-All (λ w. Has s.table w.thread_id w.lock) place s.waiting rest w e h.waits in
      elim (Bool-cases (is_free w.lock s.running)) [
        | inl f ↦ rw (e, act) (rw f (enters-Orderly s w rest room h has others f, omega arith))
        | inr f ↦ rw (e, act) (rw f (h, omega arith))
      ]
]
act-Orderly (ends place) s room h = elim (Option-cases (pick place s.running)) [
  | inl e ↦ rw (e, act) (h, omega arith)
  | inr ((r, rest), e) ↦ rw (e, act) (ends-Orderly s place r rest e h, omega arith)
]

acts-Orderly :
    (moves : List Act) (s : Actions)
    → s.next_correlation + length moves ≤ u64_max
    → Orderly s
    → Orderly (acts moves s)
unfolding acts
acts-Orderly [] s room h = h
acts-Orderly (a ∷ rest) s room h =
    let (h', next) = act-Orderly a s (omega arith) h in
    acts-Orderly rest (act a s) (omega (arith, next)) h'

waits-free :
    (s : Actions) (ws : List Waiting)
    → Orderly s
    → All (λ w. Has s.table w.thread_id w.lock) ws
    → All (λ w. is_free w.lock s.running ≡ not (runs w.thread_id s.running)) ws
waits-free s ws h has = All-map _ _ ws (λ w a. is_free-runs s w.thread_id w.lock h a) has

-- Whatever actions begin, are let in by their mutex and end, from a new controller on, fewer than
-- there are correlations: of those that run at most one is on a thread and at most one has a
-- correlation, and one that waits finds its lock free exactly when no action on its thread runs, so
-- that it is never held up by another thread.
pub acts-exclude :
    (moves : List Act) (thread_id : String) (correlation : ℕ)
    → length moves < u64_max
    → let s = acts moves no_actions in
      (count (λ r. same_text r.thread_id thread_id) s.running ≤ 1)
      × (count (λ r. eqb r.correlation correlation) s.running ≤ 1)
      × All (λ w. is_free w.lock s.running ≡ not (runs w.thread_id s.running)) s.waiting
acts-exclude moves thread_id correlation room =
    let s = acts moves no_actions in
    let h = acts-Orderly moves no_actions (omega arith) no_actions-Orderly in
    (h.lone thread_id, h.unique correlation, waits-free s s.waiting h h.waits)
