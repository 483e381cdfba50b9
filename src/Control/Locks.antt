-- ===== src/Control/Locks.antt =====
-- The lock of a thread and the correlation of an action (`lock_for` of src/control/src/lib.rs, and
-- what `interrupt`, `start` and `rpc_response_action` begin with), for many actions at once.
use codex_warden.Prelude.{
  ℕ, zero, suc, ◌+◌, add64, String, Bool, true, false, not, Option, some, none, List, [], ◌∷◌, ◌++◌,
  any, eqb, ite, lookup, insert, string_discrete, if◌then◌else◌,
}

-- The locks of the controller; a lock is a number, and `locks` have been made.
pub record Locks : Type 0 where
  pub thread_locks : List (String × ℕ)
  pub locks : ℕ

abbrev pub no_locks : Locks
no_locks = record { thread_locks = []; locks = 0 }

unfoldable pub lock_for : String → Locks → Locks × ℕ
lock_for thread_id s = elim (lookup string_discrete thread_id s.thread_locks) [
  | some lock ↦ (s, lock)
  | none ↦ (
    record {
      thread_locks = insert string_discrete thread_id s.locks s.thread_locks;
      locks = s.locks + 1;
    },
    s.locks,
  )
]

-- An action that awaits its lock, and one that holds the guard.
pub record Waiting : Type 0 where
  pub thread_id : String
  pub lock : ℕ

pub record Running : Type 0 where
  pub thread_id : String
  pub lock : ℕ
  pub correlation : ℕ

pub record Actions : Type 0 where
  pub table : Locks
  pub next_correlation : ℕ
  pub waiting : List Waiting
  pub running : List Running

abbrev pub no_actions : Actions
no_actions = record { table = no_locks; next_correlation = 1; waiting = []; running = [] }

-- An action gets its lock; the mutex lets one in that waits; an action ends and drops its guard. The
-- number is the place in the list.
pub data Act : Type 0 where
  begins : (thread_id : String) → Act
  enters : (place : ℕ) → Act
  ends : (place : ℕ) → Act

module _ {ℓ} {A : Type ℓ} where
  unfoldable pub pick : ℕ → List A → Option (A × List A)
  pick n [] = none
  pick zero (x ∷ xs) = some (x, xs)
  pick (suc n) (x ∷ xs) = elim (pick n xs) [ none ↦ none | some (y, rest) ↦ some (y, x ∷ rest) ]

-- Whether a lock is free: no guard of it is held.
abbrev pub is_free : ℕ → List Running → Bool
is_free lock running = not (any (λ r. eqb r.lock lock) running)

abbrev pub same_text : String → String → Bool
same_text s t = ite (string_discrete s t) true false

-- Whether an action on a thread runs.
abbrev pub runs : String → List Running → Bool
runs thread_id running = any (λ r. same_text r.thread_id thread_id) running

-- The mutex lets in an action whose lock is free; then the action takes its correlation.
unfoldable pub act : Act → Actions → Actions
unfolding lock_for pick
act (begins thread_id) s =
    let (table, lock) = lock_for thread_id s.table in
    record s {
      table = table;
      waiting = s.waiting ++ (record { thread_id = thread_id; lock = lock } ∷ []);
    }
act (enters place) s = elim (pick place s.waiting) [
  | none ↦ s
  | some (w, rest) ↦
      if is_free w.lock s.running
      then record s {
        next_correlation = add64 s.next_correlation 1;
        waiting = rest;
        running =
            record { thread_id = w.thread_id; lock = w.lock; correlation = s.next_correlation }
            ∷ s.running;
      }
      else s
]
act (ends place) s = elim (pick place s.running) [
  | none ↦ s
  | some (r, rest) ↦ record s { running = rest }
]

unfoldable pub acts : List Act → Actions → Actions
unfolding act
acts [] s = s
acts (a ∷ rest) s = acts rest (act a s)
