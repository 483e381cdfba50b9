-- ===== src/Transport/Ranking/Shakes.antt =====
-- The numbers of the handshake's events (`initialize` of src/transport/src/lib.rs).
use codex_warden.Prelude.{
  ℕ, suc, ◌+◌, ◌≤◌, ◌<◌, add64, u64_max, String, Bool, true, false, some, none, List, [], ◌∷◌, ◌≡◌,
  refl, arith, length, Result, ok, err, Option-cases, inl, inr,
}
use codex_warden.Protocol.Json.{Json, number, request as request_json}
use codex_warden.Protocol.Frame.{IncomingFrame, parse}
use codex_warden.Protocol.Event.{from_frame}
use codex_warden.Transport.Drive.{Connection}
use codex_warden.Transport.Handshake.{
  TransportConfig, Greeting, got, Handshake, client_info, admit, verdict, greet, initialize,
  Greeted, initialized, refused, waiting,
}
use codex_warden.Transport.Ranking.{Ranked-mono, Within}

module _ {V : Type 0} (j : Json V) (config : TransportConfig) where
  admit-Within :
      (n k unix now : ℕ) (frame : IncomingFrame V) (c : Connection V)
      → n + k < u64_max
      → Within n k c
      → Within n (k + 1) (admit j config unix now frame c)
  unfolding admit from_frame
  admit-Within n k unix now frame c room (le, h) =
      (omega arith, (omega arith, (c.sequence, omega arith, h)))

  -- A frame of the handshake, once the rest of the loop is known to keep to the bound.
  greet_got-Within :
      (n k : ℕ) (value : V) (unix now : ℕ) (gs : List (Greeting V)) (c : Connection V)
      (ingress : Bool) (parsed : Result (IncomingFrame V) String)
      → parse j value ≡ parsed
      → n + k < u64_max
      → Within n k c
      → ((frame : IncomingFrame V)
          → Within n (k + 1 + length gs) (greet j config gs (admit j config unix now frame c)).0)
      → Within n
          (k + suc (length gs))
          (greet j config (got (ok (some value)) unix now ingress ∷ gs) c).0
  unfolding greet
  greet_got-Within n k value unix now gs c ingress (err e) q room (le, h) rest =
      rw (q, greet) (omega arith, h)
  greet_got-Within n k value unix now gs c false (ok frame) q room (le, h) rest =
      rw (q, greet)
        (omega arith, Ranked-mono c.sequence (add64 c.sequence 1) c.events (omega arith) h)
  greet_got-Within n k value unix now gs c true (ok frame) q room h rest =
      let (few, ranked) = admit-Within n k unix now frame c room h in
      let (few', ranked') = rest frame in
      elim (Option-cases (verdict frame)) [
        | inl v ↦ rw (q, v, greet) (omega (arith, few'), ranked')
        | inr (true, v) ↦ rw (q, v, greet) (omega (arith, few), ranked)
        | inr (false, v) ↦ rw (q, v, greet) (omega (arith, few), ranked)
      ]

  greet-Within :
      (n k : ℕ) (gs : List (Greeting V)) (c : Connection V)
      → n + k + length gs ≤ u64_max
      → Within n k c
      → Within n (k + length gs) (greet j config gs c).0
  unfolding greet
  greet-Within n k [] c room (le, h) = (omega arith, h)
  greet-Within n k (Greeting.timed_out ∷ gs) c room (le, h) = (omega arith, h)
  greet-Within n k (Greeting.ended ∷ gs) c room (le, h) = (omega arith, h)
  greet-Within n k (Greeting.failed error ∷ gs) c room (le, h) = (omega arith, h)
  greet-Within n k (got (err error) unix now ingress ∷ gs) c room (le, h) = (omega arith, h)
  greet-Within n k (got (ok none) unix now ingress ∷ gs) c room h =
      let (few, ranked) = greet-Within n k gs c (omega arith) h in (omega (arith, few), ranked)
  greet-Within n k (got (ok (some value)) unix now ingress ∷ gs) c room h =
      greet_got-Within n k value unix now gs c ingress (parse j value) refl (omega arith) h
        (λ frame.
          greet-Within n (k + 1) gs (admit j config unix now frame c) (omega arith)
            (admit-Within n k unix now frame c (omega arith) h))

  pub initialize-Within :
      (n k : ℕ) (h : Handshake V) (c : Connection V)
      → n + k + length h.greetings ≤ u64_max
      → Within n k c
      → Within n (k + length h.greetings) (initialize j config h c).0
  unfolding initialize
  initialize-Within n k h c room w = elim (Option-cases h.opening_error) [
    | inr (e, q) ↦ rw (q, initialize) (let (le, r) = w in (omega (arith, le), r))
    | inl q ↦
        go q (greet-Within n k h.greetings opened room w) (greet j config h.greetings opened).1 refl
  ]
    where
      opened : Connection V
      opened = record c {
        frames = request_json j (number 0) "initialize" (client_info j config) ∷ c.frames;
      }

      go :
          h.opening_error ≡ none
          → Within n (k + length h.greetings) (greet j config h.greetings opened).0
          → (r : Greeted) → (greet j config h.greetings opened).1 ≡ r
          → Within n (k + length h.greetings) (initialize j config h c).0
      go q w' (refused e) r = rw (q, r, initialize) w'
      go q w' waiting r = rw (q, r, initialize) w'
      go q w' initialized r = elim (Option-cases h.closing_error) [
        | inl p ↦ rw (q, r, p, initialize) w'
        | inr (e, p) ↦ rw (q, r, p, initialize) w'
      ]
