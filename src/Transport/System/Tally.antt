-- ===== src/Transport/System/Tally.antt =====
-- How often a channel or an id is queued, pending and answered (src/transport/src/lib.rs).
use codex_warden.Prelude.{
  ℕ, ◌+◌, ◌≤◌, String, Bool, true, false, some, none, List, [], ◌∷◌, ◌≡◌, refl, arith, lookup,
  insert, remove, ite, eqb, sum_by, Option-cases, inl, inr,
}
use codex_warden.Protocol.Json.{RpcId}
use codex_warden.Transport.Request.{Reply}
use codex_warden.Transport.Drive.{rpc_id_discrete, Command, Pending, settle}
use codex_warden.Transport.System.{oldest}

-- One, or none.
abbrev pub one_if : Bool → ℕ
one_if true = 1
one_if false = 0

abbrev pub is_id : RpcId → RpcId → Bool
is_id k id = ite (rpc_id_discrete k id) true false

pub is_id_self : (k : RpcId) → is_id k k ≡ true
is_id_self k = elim (rpc_id_discrete k k) as (λ d. ite d true false ≡ true) [
  | yes e ↦ refl
  | no h ↦ absurd (h refl)
]

pub is_id-eq : (k id : RpcId) → is_id k id ≡ true → k ≡ id
is_id-eq k id = elim (rpc_id_discrete k id) as (λ d. ite d true false ≡ true → k ≡ id) [
  | yes p ↦ λ e. p
  | no h ↦ λ e. cc
]

module _ {V : Type 0} where
  -- Whether a command is a request with a channel, and with an id.
  abbrev pub carries : ℕ → Command V → ℕ
  carries n (Command.request id m params response) = one_if (eqb response n)
  carries n _ = 0

  abbrev pub carries_id : RpcId → Command V → ℕ
  carries_id k (Command.request id m params response) = one_if (is_id id k)
  carries_id k _ = 0

  -- The number of such commands in the queue.
  abbrev pub queued : ℕ → List (Command V) → ℕ
  queued n = sum_by (carries n)

  abbrev pub queued_id : RpcId → List (Command V) → ℕ
  queued_id k = sum_by (carries_id k)

  abbrev pub answered : ℕ → List (ℕ × Reply V) → ℕ
  answered n [] = 0
  answered n ((c, reply) ∷ rest) = one_if (eqb c n) + answered n rest

module _ {A : Type 0} (w : A → ℕ) where
  oldest-none : (xs : List A) → oldest xs ≡ none → sum_by w xs ≡ 0
  unfolding oldest
  oldest-none [] e = refl
  oldest-none (x ∷ xs) e = elim (Option-cases (oldest xs)) [
    | inl q ↦ ground (arith, q, e)
    | inr ((rest, y), q) ↦ ground (arith, q, e)
  ]

  -- The queue is its oldest command and the rest.
  pub sum_by-oldest :
      (xs rest : List A) (y : A) → oldest xs ≡ some (rest, y) → sum_by w xs ≡ w y + sum_by w rest
  unfolding oldest
  sum_by-oldest [] rest y e = cc
  sum_by-oldest (x ∷ xs) rest y e = elim (Option-cases (oldest xs)) [
    | inl q ↦ ground (arith, q, e, oldest-none xs q)
    | inr ((front, z), q) ↦ ground (arith, q, e, sum_by-oldest xs front z q)
  ]

abbrev pub pending : ℕ → List (RpcId × Pending) → ℕ
pending n [] = 0
pending n ((id, p) ∷ rest) = one_if (eqb p.response n) + pending n rest

abbrev pub pending_id : RpcId → List (RpcId × Pending) → ℕ
pending_id k [] = 0
pending_id k ((id, p) ∷ rest) = one_if (is_id id k) + pending_id k rest

pub pending-insert :
    (n : ℕ) (id : RpcId) (p : Pending) (ps : List (RpcId × Pending))
    → pending_id id ps ≡ 0
    → pending n (insert rpc_id_discrete id p ps) ≡ one_if (eqb p.response n) + pending n ps
unfolding insert
pending-insert n id p [] none_ = refl
pending-insert n id p ((k, q) ∷ ps) none_ = elim (rpc_id_discrete k id) [
  | yes e ↦ ground (arith, none_)
  | no e ↦ ground (arith, pending-insert n id p ps)
]

pub pending_id-insert :
    (q id : RpcId) (p : Pending) (ps : List (RpcId × Pending))
    → pending_id id ps ≡ 0
    → pending_id q (insert rpc_id_discrete id p ps) ≡ one_if (is_id id q) + pending_id q ps
unfolding insert
pending_id-insert q id p [] none_ = refl
pending_id-insert q id p ((k, r) ∷ ps) none_ = elim (rpc_id_discrete k id) [
  | yes e ↦ ground (arith, none_)
  | no e ↦ ground (arith, pending_id-insert q id p ps)
]

remove-absent :
    (id : RpcId) (ps : List (RpcId × Pending))
    → pending_id id ps ≡ 0
    → remove rpc_id_discrete id ps ≡ ps
unfolding remove
remove-absent id [] none_ = refl
remove-absent id ((k, r) ∷ ps) none_ = ground (arith, remove-absent id ps)

pub pending-remove :
    (n : ℕ) (id : RpcId) (p : Pending) (ps : List (RpcId × Pending))
    → pending_id id ps ≤ 1
    → lookup rpc_id_discrete id ps ≡ some p
    → pending n ps ≡ one_if (eqb p.response n) + pending n (remove rpc_id_discrete id ps)
unfolding remove lookup
pending-remove n id p [] few held = cc
pending-remove n id p ((k, r) ∷ ps) few held = elim (rpc_id_discrete k id) [
  | yes e ↦ ground (arith, remove-absent id ps, held)
  | no e ↦ ground (arith, pending-remove n id p ps, held)
]

pub pending_id-remove :
    (q id : RpcId) (ps : List (RpcId × Pending))
    → pending_id q (remove rpc_id_discrete id ps) ≤ pending_id q ps
unfolding remove
pending_id-remove q id [] = omega arith
pending_id-remove q id ((k, r) ∷ ps) = ground (arith, pending_id-remove q id ps)

module _ {V : Type 0} where
  pub answered-settle :
      (n : ℕ) (detail : String) (ps : List (RpcId × Pending)) (answers : List (ℕ × Reply V))
      → answered n (settle detail ps answers) ≡ pending n ps + answered n answers
  unfolding settle
  answered-settle n detail [] answers = omega arith
  answered-settle n detail ((id, p) ∷ ps) answers =
      omega (arith, answered-settle n detail ps answers)
