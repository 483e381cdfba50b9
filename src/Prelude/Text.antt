-- ===== src/Prelude/Text.antt =====
-- Whole texts compared, and the substring tests of Rust's `str` over the native strings.
use Prim.Native.Nat.{◌-◌}
use Prim.Native.String.{String, len, slice}
use mathlib.Core.Path.{◌≡◌, refl, ap}
use mathlib.Core.Bool.{Bool, true, false, ◌&&◌}
use mathlib.Core.Option.{Option, none, some, get_or}
use native.Mathlib.Omega.{arith}
use text.Mathlib.Text.{◌==◌ as text_eq, find?, starts_with as text_starts_with}
use text.Mathlib.TextEquality.{eq_iff}
use codex_warden.Prelude.Tests.{leb, is_some}

text_dec : (s t : String) (b : Bool) → text_eq s t ≡ b → Dec (s ≡ t)
text_dec s t true e = yes ((eq_iff s t).0 e)
text_dec s t false e = no (λ p. ground (arith, (eq_iff s t).1 p))

unfoldable pub string_discrete : Discrete String
unfolding text_dec
string_discrete s t = text_dec s t (text_eq s t) refl

unfoldable pub opt_string_discrete : Discrete (Option String)
opt_string_discrete none none = yes refl
opt_string_discrete none (some t) = no (λ e. cc)
opt_string_discrete (some s) none = no (λ e. cc)
opt_string_discrete (some s) (some t) = elim (string_discrete s t) [
  | yes p ↦ yes (ap some p)
  | no n ↦ no (λ e. absurd (n (ap (λ o. get_or o "") e)))
]

infix 50 ◌==◌
abbrev pub ◌==◌ : String → String → Bool
s == t = elim (string_discrete s t) [ yes _ ↦ true | no _ ↦ false ]

-- Equality of two `Option<String>`.
abbrev pub opt_eq : Option String → Option String → Bool
opt_eq none none = true
opt_eq (some s) (some t) = s == t
opt_eq _ _ = false

-- `str::contains`, `str::starts_with` and `str::ends_with` with a text as the pattern.
abbrev pub contains : String → String → Bool
contains s t = is_some (find? s t)

abbrev pub starts_with : String → String → Bool
starts_with s t = text_starts_with s t

abbrev pub ends_with : String → String → Bool
ends_with s t = leb (len t) (len s) && text_eq (slice s (len s - len t) (len s)) t
