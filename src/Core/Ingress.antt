-- ===== src/Core/Ingress.antt =====
-- The ingress task of `CodexControl::run` (src/core/src/lib.rs).
use codex_warden.Prelude.{
  ℕ, Bool, true, false, arith, ◌||◌, ◌==◌, is_some_and, Option, some, none, List, [], ◌∷◌, ◌++◌,
  map, reverse, filter, ◌≡◌, refl, sym, ap, ◌∙◌, append_assoc, if◌then◌else◌, Option-cases, inl,
  inr,
}
use mathlib.Core.List.{reverse-cons}
use codex_warden.Protocol.Json.{Json}
use codex_warden.Protocol.Event.{SequencedEvent}
use codex_warden.Protocol.Event
use codex_warden.Store.Events.{StoreConfig}
use codex_warden.Ingest.Ingress.{AuthoritativeIngress, process, run_ingress}

-- What the task selects: an event, the end of their channel, a change of the shutdown's value, or
-- its sender's end.
pub data Arrival (V : Type 0) : Type 0 where
  arrives : SequencedEvent V → Arrival V
  channel_ends : Arrival V
  shutdown_changed : (stop : Bool) → Arrival V
  sender_gone : Arrival V

module _ {V : Type 0} where
  -- The event is given to `handle_signal` in a task of its own.
  abbrev pub is_signal : SequencedEvent V → Bool
  is_signal e =
      is_some_and (Event.method e) (λ m. (m == "thread/started") || (m == "thread/status/changed"))

  given_next :
      (b : Bool) (e : SequencedEvent V) (given signals : List (SequencedEvent V))
      → reverse given ++ (if b then e ∷ signals else signals)
        ≡ reverse (if b then e ∷ given else given) ++ signals
  given_next true e given signals = sym (
      ap (λ l. l ++ signals) (reverse-cons e given) ∙ append_assoc (reverse given) (e ∷ []) signals)
  given_next false e given signals = refl

module _ {V : Type 0} (j : Json V) (encoded_len : SequencedEvent V → ℕ) (config : StoreConfig) where
  -- With the signals given so far, the latest first.
  unfoldable pub ingress_task :
      List (Arrival V)
      → AuthoritativeIngress V
      → List (SequencedEvent V)
      → Option (AuthoritativeIngress V × List (SequencedEvent V))
  ingress_task [] a signals = some (a, signals)
  ingress_task (channel_ends ∷ rest) a signals = some (a, signals)
  ingress_task (sender_gone ∷ rest) a signals = some (a, signals)
  ingress_task (shutdown_changed true ∷ rest) a signals = some (a, signals)
  ingress_task (shutdown_changed false ∷ rest) a signals = ingress_task rest a signals
  ingress_task (arrives e ∷ rest) a signals = elim (process j encoded_len config e a) [
    | none ↦ none
    | some b ↦ ingress_task rest b (if is_signal e then e ∷ signals else signals)
  ]

  -- Over events alone, the task is the ingress loop, and each signal is given once, in order.
  pub ingress_task_lem :
      (es : List (SequencedEvent V)) (a b : AuthoritativeIngress V)
      (signals : List (SequencedEvent V))
      → run_ingress j encoded_len config es a ≡ some b
      → ingress_task (map arrives es) a signals ≡ some (b, reverse (filter is_signal es) ++ signals)
  unfolding ingress_task run_ingress
  ingress_task_lem [] a b signals h =
      ap (λ o. elim o [ none ↦ none | some x ↦ some (x, signals) ]) h
  ingress_task_lem (e ∷ es) a b signals h = elim (Option-cases (process j encoded_len config e a)) [
    | inl q ↦ absurd (ground (arith, q, h))
    | inr (c, q) ↦
        let rest =
          ingress_task_lem es c b (if is_signal e then e ∷ signals else signals)
            (ground (arith, q, h)) in
        rw (q, ingress_task)
          (rest ∙ ap (λ l. some (b, l)) (given_next (is_signal e) e (filter is_signal es) signals))
  ]
