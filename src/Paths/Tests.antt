-- ===== src/Paths/Tests.antt =====
-- Tests of paths, and the theorem at a concrete input.
use cpsc.Prelude.{ℕ, ◌≡◌, refl, List, [], ◌∷◌, arith}
use cpsc.Paths.{skipelem, skip_slashes, elem, after_elem, set_name, moved}
use cpsc.Paths.Elements.{elements, name_of, names, split, NoZero, elements_lem}

-- ///a//bb
abbrev path : List ℕ
path = 47 ∷ 47 ∷ 47 ∷ 97 ∷ 47 ∷ 47 ∷ 98 ∷ 98 ∷ []

abbrev garbage : ℕ → ℕ
garbage i = 120

path_names : elements 9 path garbage ≡ (97 ∷ []) ∷ (98 ∷ 98 ∷ []) ∷ []
unfolding elements skipelem skip_slashes elem after_elem set_name moved name_of
path_names = refl

path-NoZero : NoZero path
path-NoZero = (
  omega arith,
  (
    omega arith,
    (omega arith, (omega arith, (omega arith, (omega arith, (omega arith, (omega arith, tt)))))),
  ),
)

elements_lem_example : elements 9 path garbage ≡ names (split path)
elements_lem_example = elements_lem 9 path garbage path-NoZero (omega arith)
