-- ===== src/Common/Texts.antt =====
-- Native strings as map keys.
use Prim.Native.String.{String}
use mathlib.Core.Path.{sym, ◌∙◌}
use mathlib.Core.Bool.{false≢true}
use mathlib.Core.Logic.{inl, inr}
use text.Mathlib.Text.{◌==◌}
use text.Mathlib.TextEquality.{eq_iff}
use rtbh_panel.Common.Tests.{Bool-cases}

unfoldable pub string_discrete : Discrete String
unfolding Bool-cases
string_discrete a b = elim (Bool-cases (a == b)) [
  | inl e ↦ yes ((eq_iff a b).0 e)
  | inr n ↦ no (λ p. false≢true (sym n ∙ (eq_iff a b).1 p))
]
