-- ===== src/Grep/Tests.antt =====
-- The pattern `^b*c$` on the text `bbc`.
use cpsc.Prelude.{ℕ, ◌≡◌, ◌↔◌, true, List, [], ◌∷◌}
use cpsc.Grep.{match, at_start, at_end, any_number}
use cpsc.Grep.Search.{Found, match_lem}

abbrev pattern_of_three : List ℕ
pattern_of_three = at_start ∷ 98 ∷ any_number ∷ 99 ∷ at_end ∷ []

match_lem_example :
    (match pattern_of_three (98 ∷ 98 ∷ 99 ∷ []) ≡ true) ↔ Found pattern_of_three (98 ∷ 98 ∷ 99 ∷ [])
match_lem_example = match_lem pattern_of_three (98 ∷ 98 ∷ 99 ∷ [])
