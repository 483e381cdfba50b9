-- ===== src/Control/Picking.antt =====
-- Picking from a list, for the lists of actions of a controller.
use codex_warden.Prelude.{
  ℕ, zero, suc, Bool, false, Option, some, List, [], ◌∷◌, any, count, if◌then◌else◌, ◌≡◌, refl,
  subst, arith, All, Option-cases, inl, inr,
}
use codex_warden.Control.Locks.{pick}

module _ {A : Type 0} where
  pub pick-All :
      (P : A → Type 0) (n : ℕ) (xs rest : List A) (y : A)
      → pick n xs ≡ some (y, rest)
      → All P xs
      → P y × All P rest
  unfolding pick
  pick-All P n [] rest y e h = cc
  pick-All P zero (x ∷ xs) rest y e (h, hs) = (subst P (cc) h, subst (All P) (cc) hs)
  pick-All P (suc n) (x ∷ xs) rest y e (h, hs) = elim (Option-cases (pick n xs)) [
    | inl q ↦ ground (arith, q, e)
    | inr ((z, front), q) ↦
        let (found, others) = pick-All P n xs front z q hs in
        let same : ◌≡◌ {A = Option (A × List A)} (some (z, x ∷ front)) (some (y, rest)) =
          ground (arith, q, e) in
        let front' : x ∷ front ≡ rest = cc in
        let found' : z ≡ y = cc in (subst P found' found, subst (All P) front' (h, others))
  ]

  pub pick-count :
      (p : A → Bool) (n : ℕ) (xs rest : List A) (y : A)
      → pick n xs ≡ some (y, rest)
      → count p xs ≡ (if p y then suc (count p rest) else count p rest)
  unfolding pick
  pick-count p n [] rest y e = cc
  pick-count p zero (x ∷ xs) rest y e = ground (arith, e)
  pick-count p (suc n) (x ∷ xs) rest y e = elim (Option-cases (pick n xs)) [
    | inl q ↦ ground (arith, q, e)
    | inr ((z, front), q) ↦ ground (arith, q, e, pick-count p n xs front z q)
  ]

  pub count-any : (p : A → Bool) (xs : List A) → any p xs ≡ false → count p xs ≡ 0
  count-any p [] e = refl
  count-any p (x ∷ xs) e = ground (arith, count-any p xs)

  pub All-map : (P Q : A → Type 0) (xs : List A) → ((x : A) → P x → Q x) → All P xs → All Q xs
  All-map P Q [] f h = tt
  All-map P Q (x ∷ xs) f (h, hs) = (f x h, All-map P Q xs f hs)
