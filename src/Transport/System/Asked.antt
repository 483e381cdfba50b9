-- ===== src/Transport/System/Asked.antt =====
-- A request takes the next id and the next channel (`request_inner` of src/transport/src/lib.rs).
use codex_warden.Prelude.{
  ℕ, ◌+◌, ◌≤◌, ◌<◌, add64, u64_max, String, Bool, false, not, ◌&&◌, ◌∷◌, ◌≡◌, inl, inr, refl, arith,
  subst, Bool-cases, eqb, if◌then◌else◌,
}
use codex_warden.Protocol.Json.{RpcId, number}
use codex_warden.Transport.Drive.{Command}
use codex_warden.Transport.Handle.{Awaited, request_inner}
use codex_warden.Transport.System.{System, told}
use codex_warden.Transport.System.Tally.{one_if, is_id, is_id-eq}
use codex_warden.Transport.System.Conserve.{held, uses, Sound, Moves, Moves-Sound}
use codex_warden.Transport.System.Kept.{told-Moves}

pub number-inj : (m n : ℕ) → number m ≡ number n → m ≡ n
number-inj m n e = cc

-- A later id is another one.
pub next-is_id : (m n : ℕ) → m + 1 ≤ n → is_id (number m) (number n) ≡ false
next-is_id m n le = elim (Bool-cases (is_id (number m) (number n))) [
  | inl e ↦
      let same : m ≡ n = number-inj m n (is_id-eq (number m) (number n) e) in absurd (omega arith)
  | inr e ↦ e
]

module _ {V : Type 0} where
  -- What a move leaves: a sound system in which nothing is held less, and at most one new id.
  pub record Goes (s s' : System V) : Type 0 where
    pub sound : Sound s'
    pub holds : (n : ℕ) → held n s ≤ held n s'
    pub ids : s'.handle.next_id ≤ s.handle.next_id + 1

  pub Moves-Goes : (s s' : System V) → Moves s s' → Sound s → Goes s s'
  Moves-Goes s s' m h = record {
    sound = Moves-Sound s s' m h;
    holds = λ n. omega (arith, m.holds n);
    ids = omega (arith, m.ids);
  }

  -- The system after a request that is put in the queue, or finds no receiver.
  abbrev pub asked : String → V → System V → System V
  asked method params s =
      let h = s.handle in
      let c = Command.request (number h.next_id) method params h.channels in
      told
        (record h {
          commands = if h.is_open then c ∷ h.commands else h.commands;
          next_id = add64 h.next_id 1;
          channels = h.channels + 1;
        })
        s

  -- The next id is not in use.
  next-uses :
      (k : RpcId) (s : System V)
      → Sound s
      → one_if (is_id (number s.handle.next_id) k) + uses k s ≤ 1
  next-uses k s h = elim (Bool-cases (is_id (number s.handle.next_id) k)) [
    | inl e ↦
        let none_ : uses k s ≡ 0 =
          subst (λ k. uses k s ≡ 0) (is_id-eq (number s.handle.next_id) k e)
            (h.young s.handle.next_id (omega arith)) in
        ground (arith, e, none_)
    | inr e ↦ ground (arith, e, h.one k)
  ]

  asked-Goes :
      (method : String) (params : V) (s : System V)
      → s.handle.next_id < u64_max
      → Sound s
      → Goes s (asked method params s)
  asked-Goes method params s room h = record {
    sound = record {
      one = λ k. ground (arith, next-uses k s h, h.one k);
      young = λ n le.
          let later : s.handle.next_id + 1 ≤ n = omega arith in
          ground (arith, next-is_id s.handle.next_id n later, h.young n (omega arith));
      once = λ n. elim (Bool-cases (eqb s.handle.channels n)) [
        | inl e ↦
            let same : s.handle.channels ≡ n = ground (arith, e) in
            ground (arith, e, h.unused n (omega arith))
        | inr e ↦ ground (arith, e, h.once n)
      ];
      unused = λ n le. ground (arith, h.unused n (omega arith));
      idle = h.idle;
    };
    holds = λ n. ground arith;
    ids = omega arith;
  }

  pub asks-Goes :
      (method : String) (params : V) (action : Bool) (awaited : Awaited V) (s : System V)
      → s.handle.next_id < u64_max
      → Sound s
      → Goes s (told (request_inner method params action awaited s.handle).0 s)
  unfolding request_inner
  asks-Goes method params action awaited s room h =
      elim (Bool-cases (action && not s.handle.reconcile_ready)) [
        | inl e ↦
            rw (e, request_inner)
              (Moves-Goes s _ (told-Moves s.handle s h (λ n. refl) (λ k. refl) refl (omega arith))
                h)
        | inr e ↦ rw (e, request_inner) (asked-Goes method params s room h)
      ]
