-- ===== src/Reducer/Waiters.antt =====
-- The registered waiters and the loop of `apply` that takes out those that fire
-- (src/reducer/src/lib.rs). A `oneshot` channel is a number; a delivery is its number and the event.
use codex_warden.Prelude.{
  ℕ, zero, suc, ◌+◌, Bool, true, false, some, none, List, [], ◌∷◌, ◌++◌, map, get_elem?, length,
}
use codex_warden.Protocol.Event.{SequencedEvent}

pub record Waiter (V : Type 0) : Type 0 where
  pub predicate : SequencedEvent V → Bool
  pub sender : ℕ

module _ {ℓ} {A : Type ℓ} where
  -- `x :: xs` without its last element, and that element.
  unfoldable pub pop_last : A → List A → List A × A
  pop_last x [] = ([], x)
  pop_last x (y ∷ xs) = let (front, back) = pop_last y xs in (x ∷ front, back)

  -- `Vec::swap_remove` in range: the last element takes the place of the removed one.
  unfoldable pub swap_remove : List A → ℕ → List A
  unfolding pop_last
  swap_remove [] i = []
  swap_remove (x ∷ []) zero = []
  swap_remove (x ∷ y ∷ xs) zero = let (front, back) = pop_last y xs in back ∷ front
  swap_remove (x ∷ xs) (suc i) = x ∷ swap_remove xs i

module _ {ℓ} {A : Type ℓ} (fires : A → Bool) where
  -- `while index < waiters.len() { … }`. The result is `ready` and what is left of `waiters`.
  unfoldable pub take_ready : ℕ → ℕ → List A → List A → List A × List A
  unfolding swap_remove
  take_ready zero index ready waiters = (ready, waiters)
  take_ready (suc fuel) index ready waiters = elim (get_elem? waiters index) [
    | none ↦ (ready, waiters)
    | some w ↦ elim (fires w) [
      | true ↦ take_ready fuel index (ready ++ w ∷ []) (swap_remove waiters index)
      | false ↦ take_ready fuel (index + 1) ready waiters
    ]
  ]

module _ {V : Type 0} where
  -- The last part of `apply`: the waiters that stay, and the sends.
  unfoldable pub wake :
      SequencedEvent V → List (Waiter V) → List (Waiter V) × List (ℕ × SequencedEvent V)
  unfolding take_ready
  wake event waiters =
      let (ready, rest) =
        take_ready (λ (w : Waiter V). w.predicate event) (length waiters) 0 [] waiters in
      (rest, map (λ w. (w.sender, event)) ready)
