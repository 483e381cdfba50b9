-- ===== src/Transport/System/Rounds.antt =====
-- A connection is driven round by round (`drive` of src/transport/src/lib.rs): what `System` does
-- with one input after another is what `Drive` does with the list of them.
use codex_warden.Prelude.{ℕ, String, Option, none, some, List, [], ◌∷◌, ◌≡◌, refl}
use codex_warden.Protocol.Json.{Json}
use codex_warden.Transport.Drive.{
  DriveExit, Input, Connection, round, rounds, drive, settle, exit_detail,
}

module _ {V : Type 0} (j : Json V) (limit : ℕ) (show_idle : ℕ → String) where
  -- A first input and the rest: the rest where the first does not end the connection.
  drive-cons :
      (now : ℕ) (i : Input V) (is : List (ℕ × Input V)) (c : Connection V)
      → drive j limit show_idle ((now, i) ∷ is) c ≡ (
          let first = drive j limit show_idle ((now, i) ∷ []) c in
          elim first.1 [ none ↦ drive j limit show_idle is first.0 | some e ↦ first ])
  unfolding drive rounds
  drive-cons now i is c = go (round j limit show_idle now i c)
    where
      finish : Connection V × Option DriveExit → Connection V × Option DriveExit
      finish r = elim r.1 [
        | none ↦ (r.0, none)
        | some e ↦ (
          record (r.0) { pending = []; answers = settle (exit_detail e) r.0.pending r.0.answers },
          some e,
        )
      ]

      then_ :
          (Connection V → Connection V × Option DriveExit)
          → Connection V × Option DriveExit
          → Connection V × Option DriveExit
      then_ f r = elim r.1 [ some e ↦ (r.0, some e) | none ↦ f r.0 ]

      go :
          (r : Connection V × Option DriveExit)
          → finish (then_ (rounds j limit show_idle is) r) ≡ (
              let first = finish (then_ (λ c. (c, none)) r) in
              elim first.1 [ none ↦ finish (rounds j limit show_idle is first.0) | some e ↦ first ])
      go (c, none) = refl
      go (c, some e) = refl
