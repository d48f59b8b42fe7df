-- ===== src/Examples/Texts.antt =====
-- Runs of the methods of `str`.
use enterprise_data_copilot.Prelude.{◌≡◌, refl, [], ◌∷◌, codes}
use enterprise_data_copilot.Prelude.Strings.{show_nat, normalize_space, split_on}

show_nat-example : show_nat 1205 ≡ codes "1205"
unfolding show_nat
show_nat-example = refl

normalize-example : normalize_space (codes " a  b c ") ≡ codes "a b c"
unfolding normalize_space
normalize-example = refl

split-example : split_on b'.' (codes "a.b.") ≡ codes "a" ∷ codes "b" ∷ [] ∷ []
split-example = refl
