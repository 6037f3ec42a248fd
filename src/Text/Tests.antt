-- ===== src/Text/Tests.antt =====
-- The text operations on concrete inputs.
use sql_server_analyze.Common.{◌≡◌, refl, true, [], ◌∷◌}
use sql_server_analyze.Text.{codes, strip, split, split_runs, ends_with, is_outer_space}

strip_example : strip is_outer_space (codes " \tmax \n") ≡ codes "max"
unfolding strip
strip_example = refl

split_example : split b',' (codes "a,,b") ≡ codes "a" ∷ [] ∷ codes "b" ∷ []
unfolding split
split_example = refl

split_runs_example : split_runs is_outer_space (codes " a  b") ≡ [] ∷ codes "a" ∷ codes "b" ∷ []
unfolding split_runs
split_runs_example = refl

ends_with_example : ends_with (codes "ed)") (codes "x (deleted)") ≡ true
unfolding ends_with
ends_with_example = refl
