-- ===== src/Prelude/Dict.antt =====
-- A hash map as an association list. The order of the entries stands for the map's iteration
-- order, which the program does not rely on.
use mathlib.Core.Path.{◌≡◌, refl, ap}
use mathlib.Core.Logic.{ite}
use mathlib.Core.Bool.{Bool, true, false}
use mathlib.Core.Option.{Option, none, some}
use mathlib.Core.List.{List, [], ◌∷◌, map}
use native.Mathlib.Omega.{arith}
use codex_warden.Prelude.Tests.{if◌then◌else◌}

module _ {ℓ} {K V : Type ℓ} where
  abbrev pub keys : List (K × V) → List K
  keys = map (λ e. e.0)

module _ {ℓ} {K V : Type ℓ} where
  unfoldable pub retain : (K → V → Bool) → List (K × V) → List (K × V)
  retain p [] = []
  retain p ((k, v) ∷ m) = if p k v then (k, v) ∷ retain p m else retain p m

module _ {ℓ} {K V : Type ℓ} (dec : Discrete K) where
  unfoldable pub lookup : K → List (K × V) → Option V
  lookup k [] = none
  lookup k ((j, v) ∷ m) = ite (dec j k) (some v) (lookup k m)

  unfoldable pub insert : K → V → List (K × V) → List (K × V)
  insert k v [] = (k, v) ∷ []
  insert k v ((j, w) ∷ m) = ite (dec j k) ((k, v) ∷ m) ((j, w) ∷ insert k v m)

  unfoldable pub remove : K → List (K × V) → List (K × V)
  remove k [] = []
  remove k ((j, w) ∷ m) = ite (dec j k) (remove k m) ((j, w) ∷ remove k m)

  pub lookup-insert :
      (k q : K) (v : V) (m : List (K × V))
      → lookup q (insert k v m) ≡ ite (dec k q) (some v) (lookup q m)
  unfolding lookup insert
  lookup-insert k q v [] = refl
  lookup-insert k q v ((j, w) ∷ m) = ground (arith, lookup-insert k q v m)

  pub lookup-remove :
      (k q : K) (m : List (K × V)) → lookup q (remove k m) ≡ ite (dec k q) none (lookup q m)
  unfolding lookup remove
  lookup-remove k q [] = ground arith
  lookup-remove k q ((j, w) ∷ m) = ground (arith, lookup-remove k q m)

  -- `retain`: what a lookup finds afterwards has passed the test.
  pub retain_sound :
      (p : K → V → Bool) (q : K) (v : V) (m : List (K × V))
      → lookup q (retain p m) ≡ some v
      → p q v ≡ true
  unfolding lookup retain
  retain_sound p q v [] h = cc
  retain_sound p q v ((j, w) ∷ m) h = elim (dec j q) [
    | yes e ↦ ground (arith, retain_sound p q v m)
    | no e ↦ ground (arith, retain_sound p q v m)
  ]

  pub retain_complete :
      (p : K → V → Bool) (q : K) (v : V) (m : List (K × V))
      → lookup q m ≡ some v
      → p q v ≡ true
      → lookup q (retain p m) ≡ some v
  unfolding lookup retain
  retain_complete p q v [] h k = cc
  retain_complete p q v ((j, w) ∷ m) h k = elim (dec j q) [
    | yes e ↦ ground (arith, ap (λ x. p x w) e)
    | no e ↦ ground (arith, retain_complete p q v m)
  ]

-- A hash set as a list.
module _ {ℓ} {K : Type ℓ} (dec : Discrete K) where
  unfoldable pub has : K → List K → Bool
  has k [] = false
  has k (j ∷ s) = ite (dec j k) true (has k s)

  unfoldable pub add : K → List K → List K
  unfolding has
  add k s = if has k s then s else k ∷ s

  unfoldable pub discard : K → List K → List K
  discard k [] = []
  discard k (j ∷ s) = elim (dec j k) [ yes _ ↦ discard k s | no _ ↦ j ∷ discard k s ]

  pub has-add : (k q : K) (s : List K) → has q (add k s) ≡ ite (dec k q) true (has q s)
  unfolding has add
  has-add k q s = elim (dec k q) [
    | yes e ↦ ground (arith, ap (λ x. has x s) e)
    | no e ↦ ground arith
  ]

  pub has-discard : (k q : K) (s : List K) → has q (discard k s) ≡ ite (dec k q) false (has q s)
  unfolding has discard
  has-discard k q [] = ground arith
  has-discard k q (j ∷ s) = ground (arith, has-discard k q s)
