-- ===== src/Transport/System/Drain.antt =====
-- An outage answers what is queued and pending (`drive`, `connection_loop` and
-- `reject_while_disconnected` of src/transport/src/lib.rs).
use codex_warden.Prelude.{ℕ, zero, suc, ◌≤◌, String, Bool, false, List, [], ◌∷◌, ◌≡◌, ◌⊎◌, length}
use codex_warden.Protocol.Json.{Json}
use codex_warden.Transport.Drive.{ended}
use codex_warden.Transport.System.{System, Move, rejects, hears}

module _ {A : Type 0} where
  abbrev pub replicate : ℕ → A → List A
  replicate zero x = []
  replicate (suc n) x = x ∷ replicate n x

module _ {V : Type 0} where
  -- Few commands, or a task that has ended.
  abbrev Few : ℕ → System V → Type 0
  Few k s = (length s.handle.commands ≤ k) ⊎ (s.handle.is_open ≡ false)

  -- The end of the connection, if one is driven, and rejections.
  abbrev pub downtime : (now unix : ℕ) (ingress : Bool) (detail : String) → ℕ → List (Move V)
  downtime now unix ingress detail k = hears now ended unix ingress ∷ replicate k (rejects detail)
