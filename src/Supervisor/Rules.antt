-- ===== src/Supervisor/Rules.antt =====
-- What a step of the supervisor ensures: a condition for its value, one for an error and one for
-- a loop out of rounds (src/supervisor/src/lib.rs).
use codex_warden.Prelude.{
  ℕ, String, Bool, true, false, Result, ok, err, List, ◌∷◌, ◌≡◌, refl, ap, subst, if◌then◌else◌,
}
use codex_warden.Supervisor.Ops
use codex_warden.Supervisor.Ops.{
  SupervisorError, Step, Session, Outcome, done, raised, stalled, pure, raise, stall, try_as,
  perform, ◌>>=◌, Call, CommandOutput, ProcessOps, existed, listed, used, ran, spawned, quit,
}

module _ {W : Type 0} where
  abbrev pub Meets :
      {A : Type 0}
      → (A → Session W → Type 0)
      → (Session W → Type 0)
      → (Session W → Type 0)
      → Outcome A × Session W
      → Type 0
  Meets Q R T (done a, s) = Q a s
  Meets Q R T (raised e, s) = R s
  Meets Q R T (stalled, s) = T s

  pub record Ensures {A : Type 0} (Q : A → Session W → Type 0) (R T : Session W → Type 0)
      (r : Outcome A × Session W) : Type 0 where
    pub met : Meets Q R T r

  module _ {A : Type 0} {Q : A → Session W → Type 0} {R : Session W → Type 0} where
    pub met_always :
        (r : Outcome A × Session W)
        → ((a : A) (s : Session W) → Q a s → R s)
        → Ensures Q R R r
        → R r.1
    met_always (done a, s) h m = h a s m.met
    met_always (raised e, s) h m = m.met
    met_always (stalled, s) h m = m.met

  module _ {A : Type 0} {Q : A → Session W → Type 0} {R T : Session W → Type 0} where
    pub met_done : (r : Outcome A × Session W) (a : A) → Ensures Q R T r → r.0 ≡ done a → Q a r.1
    met_done (done b, s) a m e =
        subst (λ x. Q x s) (ap (λ o. elim o [ done x ↦ x | raised _ ↦ b | stalled ↦ b ]) e) m.met
    met_done (raised x, s) a m e = cc
    met_done (stalled, s) a m e = cc

  module _ {A B : Type 0} {P : A → Session W → Type 0} {Q : B → Session W → Type 0}
      {R T : Session W → Type 0} where
    continued :
        (r : Outcome A × Session W) (f : A → Step W B)
        → Meets P R T r
        → ((a : A) (t : Session W) → P a t → Ensures Q R T (f a t))
        → Meets Q R T (Ops.continue r f)
    continued (done a, s) f h g = (g a s h).met
    continued (raised e, s) f h g = h
    continued (stalled, s) f h g = h

    pub Ensures-bind :
        (m : Step W A) (f : A → Step W B) (s : Session W)
        → Ensures P R T (m s)
        → ((a : A) (t : Session W) → P a t → Ensures Q R T (f a t))
        → Ensures Q R T ((m >>= f) s)
    unfolding ◌>>=◌
    Ensures-bind m f s h g = record { met = continued (m s) f h.met g }

  module _ {A : Type 0} {Q : A → Session W → Type 0} {R T : Session W → Type 0} where
    pub Ensures-if :
        (b : Bool) (m n : Step W A) (s : Session W)
        → (b ≡ true → Ensures Q R T (m s))
        → (b ≡ false → Ensures Q R T (n s))
        → Ensures Q R T ((if b then m else n) s)
    Ensures-if true m n s yea nay = yea refl
    Ensures-if false m n s yea nay = nay refl

    pub Ensures-pure : (a : A) (s : Session W) → Q a s → Ensures Q R T (pure a s)
    unfolding pure
    Ensures-pure a s h = record { met = h }

    pub Ensures-raise : (e : SupervisorError) (s : Session W) → R s → Ensures Q R T (raise e s)
    unfolding raise
    Ensures-raise e s h = record { met = h }

    pub Ensures-stall : (s : Session W) → T s → Ensures Q R T (stall s)
    unfolding stall
    Ensures-stall s h = record { met = h }

    pub Ensures-try :
        (e : String → SupervisorError) (r : Result A String) (s : Session W)
        → ((a : A) → r ≡ ok a → Q a s)
        → ((text : String) → r ≡ err text → R s)
        → Ensures Q R T (try_as e r s)
    unfolding try_as
    Ensures-try e (ok a) s good bad = record { met = good a refl }
    Ensures-try e (err text) s good bad = record { met = bad text refl }

    pub Ensures-perform :
        (call : W → A × W) (log : A → Call) (s : Session W)
        → ((a : A) (w : W)
            → call s.world ≡ (a, w)
            → Q a (record { world = w; calls = log a ∷ s.calls }))
        → Ensures Q R T (perform call log s)
    unfolding perform
    Ensures-perform call log s h = record { met = h (call s.world).0 (call s.world).1 refl }

  module _ (ops : ProcessOps W) {R T : Session W → Type 0} (s : Session W) where
    pub Ensures-exists_path :
        {Q : Bool → Session W → Type 0} (path : String)
        → ((a : Bool) (w : W)
            → ops.exists_path path s.world ≡ (a, w)
            → Q a (record { world = w; calls = existed path a ∷ s.calls }))
        → Ensures Q R T (Ops.exists_path ops path s)
    unfolding Ops.exists_path
    Ensures-exists_path path h = Ensures-perform (ops.exists_path path) (existed path) s h

    pub Ensures-ps_environment :
        {Q : Result String String → Session W → Type 0}
        → ((a : Result String String) (w : W)
            → ops.ps_environment s.world ≡ (a, w)
            → Q a (record { world = w; calls = listed a ∷ s.calls }))
        → Ensures Q R T (Ops.ps_environment ops s)
    unfolding Ops.ps_environment
    Ensures-ps_environment h = Ensures-perform ops.ps_environment listed s h

    pub Ensures-socket_users :
        {Q : Result String String → Session W → Type 0} (socket : String)
        → ((a : Result String String) (w : W)
            → ops.socket_users socket s.world ≡ (a, w)
            → Q a (record { world = w; calls = used socket a ∷ s.calls }))
        → Ensures Q R T (Ops.socket_users ops socket s)
    unfolding Ops.socket_users
    Ensures-socket_users socket h = Ensures-perform (ops.socket_users socket) (used socket) s h

    pub Ensures-output :
        {Q : Result CommandOutput String → Session W → Type 0} (program : String)
        (args : List String)
        → ((a : Result CommandOutput String) (w : W)
            → ops.output program args s.world ≡ (a, w)
            → Q a (record { world = w; calls = ran program args a ∷ s.calls }))
        → Ensures Q R T (Ops.output ops program args s)
    unfolding Ops.output
    Ensures-output program args h = Ensures-perform (ops.output program args) (ran program args) s h

    pub Ensures-spawn :
        {Q : Result (Unit {0}) String → Session W → Type 0} (program : String) (args : List String)
        (env : List (String × String))
        → ((a : Result (Unit {0}) String) (w : W)
            → ops.spawn program args env s.world ≡ (a, w)
            → Q a (record { world = w; calls = spawned program args env a ∷ s.calls }))
        → Ensures Q R T (Ops.spawn ops program args env s)
    unfolding Ops.spawn
    Ensures-spawn program args env h =
        Ensures-perform (ops.spawn program args env) (spawned program args env) s h

    pub Ensures-graceful_quit_chatgpt :
        {Q : Result (Unit {0}) String → Session W → Type 0}
        → ((a : Result (Unit {0}) String) (w : W)
            → ops.graceful_quit_chatgpt s.world ≡ (a, w)
            → Q a (record { world = w; calls = quit a ∷ s.calls }))
        → Ensures Q R T (Ops.graceful_quit_chatgpt ops s)
    unfolding Ops.graceful_quit_chatgpt
    Ensures-graceful_quit_chatgpt h = Ensures-perform ops.graceful_quit_chatgpt quit s h

    pub Ensures-now :
        {Q : ℕ → Session W → Type 0} → Q (ops.now s.world) s → Ensures Q R T (Ops.now ops s)
    unfolding Ops.now
    Ensures-now h = record { met = h }

    pub Ensures-sleep :
        {Q : Unit {0} → Session W → Type 0} (d : ℕ)
        → Q tt (record s { world = ops.sleep d s.world })
        → Ensures Q R T (Ops.sleep ops d s)
    unfolding Ops.sleep
    Ensures-sleep d h = record { met = h }
