-- ===== src/Utils/Tests.antt =====
-- A text of two lines, and two numbers.
use gaveta.Base.{◌≡◌, refl, some, [], ◌∷◌}
use gaveta.Utils.{abs_diff, sanitize_from, sanitize_str}

two_lines : sanitize_str (some (97 ∷ 10 ∷ 98 ∷ [])) ≡ some (97 ∷ 32 ∷ 98 ∷ [])
unfolding sanitize_str sanitize_from
two_lines = refl

three_apart : abs_diff 4 7 ≡ 3
unfolding abs_diff
three_apart = refl
