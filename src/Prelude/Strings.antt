-- ===== src/Prelude/Strings.antt =====
-- Facts on the texts of the library: a common start can be dropped, and two texts are equal or not.
use Prim.Native.String
use Prim.Native.String.{String}
use Prim.Native.String.append
use Prim.Native.Char.{Char}
use mathlib.Core.Path.{◌≡◌, sym, ◌∙◌}
use mathlib.Core.Logic.{◌≢◌, ◌⊎◌, inl, inr}
use text.Mathlib.Text.{◌==◌ as str_eq}
use text.Mathlib.TextEquality.{eq_iff}
use mpc_main.Prelude.Tests.{Bool-cases}

nil : (t : String) → String.◌++◌ String.[] t ≡ t
nil t = λ i. append.nil t i

cons : (c : Char) (s t : String) → String.◌++◌ (String.◌∷◌ c s) t ≡ String.◌∷◌ c (String.◌++◌ s t)
cons c s t = λ i. append.cons c s t i

∷_tail : (c : Char) (s t : String) → String.◌∷◌ c s ≡ String.◌∷◌ c t → s ≡ t
∷_tail c s t h = cc

-- Two texts with the same start are equal only if what follows is.
pub append_injective : (p s t : String) → String.◌++◌ p s ≡ String.◌++◌ p t → s ≡ t
append_injective String.[] s t h = sym (nil s) ∙ h ∙ nil t
append_injective (String.◌∷◌ c p) s t h =
    append_injective p s t (∷_tail c _ _ (sym (cons c p s) ∙ h ∙ cons c p t))

pub String-cases : (u v : String) → (u ≡ v) ⊎ (u ≢ v)
String-cases u v = elim (Bool-cases (str_eq u v)) [
  | inl same ↦ inl ((eq_iff u v).0 same)
  | inr other ↦ inr (λ e. cc ((eq_iff u v).1 e))
]
