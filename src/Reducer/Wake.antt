-- ===== src/Reducer/Wake.antt =====
-- The loop that takes out the waiters that fire (`apply` of src/reducer/src/lib.rs).
use mathlib.Core.List.{Perm}
use mathlib.Core.List.Perm
use codex_warden.Prelude.{
  ℕ, zero, suc, ◌+◌, ◌≤◌, ◌<◌, Bool, true, false, some, none, List, [], ◌∷◌, ◌++◌, map, get_elem?,
  length, ◌≡◌, refl, ap, arith, All, All-append, Option-cases, Bool-cases, inl, inr, append_assoc,
  ℕ_discrete, sym, ◌∙◌,
}
use codex_warden.Protocol.Event.{SequencedEvent}
use codex_warden.Reducer.Waiters.{Waiter, pop_last, swap_remove, take_ready, wake}

module _ {ℓ} {A : Type ℓ} where
  pop_last-perm : (x : A) (xs : List A) → Perm (x ∷ xs) ((pop_last x xs).1 ∷ (pop_last x xs).0)
  unfolding pop_last
  pop_last-perm x [] = Perm.refl _
  pop_last-perm x (y ∷ xs) = Perm.trans (Perm.cons x (pop_last-perm y xs)) (Perm.swap _ x _)

  length-pop_last : (x : A) (xs : List A) → length (pop_last x xs).0 ≡ length xs
  unfolding pop_last
  length-pop_last x [] = refl
  length-pop_last x (y ∷ xs) = ap suc (length-pop_last y xs)

  swap_remove-perm :
      (xs : List A) (i : ℕ) (w : A) → get_elem? xs i ≡ some w → Perm xs (w ∷ swap_remove xs i)
  unfolding swap_remove
  swap_remove-perm [] i w e = cc
  swap_remove-perm (x ∷ []) zero w e = let p : x ≡ w = cc in rw p (Perm.refl _)
  swap_remove-perm (x ∷ y ∷ xs) zero w e =
      let p : x ≡ w = cc in rw p (Perm.cons w (pop_last-perm y xs))
  swap_remove-perm (x ∷ []) (suc i) w e = cc
  swap_remove-perm (x ∷ y ∷ xs) (suc i) w e =
      Perm.trans (Perm.cons x (swap_remove-perm (y ∷ xs) i w e)) (Perm.swap w x _)

  length-swap_remove :
      (xs : List A) (i : ℕ) (w : A)
      → get_elem? xs i ≡ some w
      → suc (length (swap_remove xs i)) ≡ length xs
  unfolding swap_remove
  length-swap_remove [] i w e = cc
  length-swap_remove (x ∷ []) zero w e = refl
  length-swap_remove (x ∷ y ∷ xs) zero w e = omega (arith, length-pop_last y xs)
  length-swap_remove (x ∷ []) (suc i) w e = cc
  length-swap_remove (x ∷ y ∷ xs) (suc i) w e = ap suc (length-swap_remove (y ∷ xs) i w e)

  get_elem?-swap_remove :
      (xs : List A) (i j : ℕ) → j < i → get_elem? (swap_remove xs i) j ≡ get_elem? xs j
  unfolding swap_remove
  get_elem?-swap_remove xs zero j h = absurd (omega arith)
  get_elem?-swap_remove [] (suc i) j h = refl
  get_elem?-swap_remove (x ∷ []) (suc i) zero h = refl
  get_elem?-swap_remove (x ∷ y ∷ xs) (suc i) zero h = refl
  get_elem?-swap_remove (x ∷ []) (suc i) (suc j) h = get_elem?-swap_remove [] i j (omega arith)
  get_elem?-swap_remove (x ∷ y ∷ xs) (suc i) (suc j) h =
      get_elem?-swap_remove (y ∷ xs) i j (omega arith)

  length-le_of_none : (xs : List A) (i : ℕ) → get_elem? xs i ≡ none → length xs ≤ i
  length-le_of_none [] i e = omega arith
  length-le_of_none (x ∷ xs) zero e = cc
  length-le_of_none (x ∷ xs) (suc i) e = omega (arith, length-le_of_none xs i e)

module _ {ℓ} {A : Type ℓ} (fires : A → Bool) where
  abbrev Silent : ℕ → List A → Type ℓ
  Silent n xs = (j : ℕ) (w : A) → j < n → get_elem? xs j ≡ some w → fires w ≡ false

  Silent-All : (xs : List A) → Silent (length xs) xs → All (λ w. fires w ≡ false) xs
  Silent-All [] quiet = tt
  Silent-All (x ∷ xs) quiet =
      (quiet 0 x (omega arith) refl, Silent-All xs (λ j w lt e. quiet (suc j) w (omega arith) e))

  -- What the loop returns, from the pieces that it starts with.
  record Taken (ready waiters : List A) (out : List A × List A) : Type ℓ where
    perm : Perm (ready ++ waiters) (out.0 ++ out.1)
    fired : All (λ w. fires w ≡ true) out.0
    silent : Silent (length out.1) out.1

  fire-perm :
      (ready waiters : List A) (index : ℕ) (w : A)
      → get_elem? waiters index ≡ some w
      → Perm (ready ++ waiters) ((ready ++ w ∷ []) ++ swap_remove waiters index)
  fire-perm ready waiters index w e =
      rw append_assoc (Perm.append_left ready (swap_remove-perm waiters index w e))

  fire-Silent :
      (waiters : List A) (index : ℕ)
      → Silent index waiters
      → Silent index (swap_remove waiters index)
  fire-Silent waiters index quiet j w lt e =
      quiet j w lt (sym (get_elem?-swap_remove waiters index j lt) ∙ e)

  skip-Silent :
      (waiters : List A) (index : ℕ) (w : A)
      → get_elem? waiters index ≡ some w
      → fires w ≡ false
      → Silent index waiters
      → Silent (index + 1) waiters
  skip-Silent waiters index w e f quiet j v lt p = elim (ℕ_discrete j index) [
    | yes q ↦ ground (arith, ap (get_elem? waiters) q)
    | no q ↦ quiet j v (omega arith) p
  ]

  take_ready-Taken :
      (fuel index : ℕ) (ready waiters : List A)
      → length waiters ≤ index + fuel
      → Silent index waiters
      → All (λ w. fires w ≡ true) ready
      → Taken ready waiters (take_ready fires fuel index ready waiters)
  unfolding take_ready
  take_ready-Taken zero index ready waiters h quiet all = record {
    perm = Perm.refl _;
    fired = all;
    silent = λ j w lt e. quiet j w (omega arith) e;
  }
  take_ready-Taken (suc fuel) index ready waiters h quiet all =
      elim (Option-cases (get_elem? waiters index)) [
        | inl e ↦
            rw (e, take_ready)
              (record {
                perm = Perm.refl _;
                fired = all;
                silent = λ j w lt p. quiet j w (omega (arith, length-le_of_none waiters index e)) p;
              })
        | inr (w, e) ↦ elim (Bool-cases (fires w)) [
          | inl f ↦
              let t =
                take_ready-Taken fuel index (ready ++ w ∷ []) (swap_remove waiters index)
                  (omega (arith, length-swap_remove waiters index w e))
                  (fire-Silent waiters index quiet)
                  (All-append (λ v. fires v ≡ true) ready (w ∷ []) all (f, tt)) in
              rw (e, f, take_ready)
                (record {
                  perm = Perm.trans (fire-perm ready waiters index w e) t.perm;
                  fired = t.fired;
                  silent = t.silent;
                })
          | inr f ↦
              rw (e, f, take_ready)
                (take_ready-Taken fuel (index + 1) ready waiters (omega arith)
                  (skip-Silent waiters index w e f quiet) all)
        ]
      ]

module _ {V : Type 0} where
  -- The waiters split into those that fire, each sent the event once, and those that stay, none of
  -- which fires.
  pub wake_lem :
      (event : SequencedEvent V) (waiters : List (Waiter V))
      → (ready : List (Waiter V)) × Perm waiters (ready ++ (wake event waiters).0)
        × ((wake event waiters).1 ≡ map (λ w. (w.sender, event)) ready)
        × All (λ w. w.predicate event ≡ true) ready
        × All (λ w. w.predicate event ≡ false) (wake event waiters).0
  unfolding wake
  wake_lem event waiters =
      let out = take_ready (λ (w : Waiter V). w.predicate event) (length waiters) 0 [] waiters in
      let t =
        take_ready-Taken (λ (w : Waiter V). w.predicate event) (length waiters) 0 [] waiters
          (omega arith) (λ j w lt e. absurd (omega arith)) tt in
      (
        out.0,
        t.perm,
        refl,
        t.fired,
        Silent-All (λ (w : Waiter V). w.predicate event) out.1 t.silent,
      )
