-- ===== src/Grep.antt =====
-- grep.c: the matcher of patterns with `^`, `.`, `*` and `$`. A string is the list of its bytes up to
-- its NUL.
pub mod Language
pub mod Search
mod Tests
use cpsc.Prelude.{ℕ, Bool, true, false, ◌&&◌, ◌||◌, List, [], ◌∷◌, ◌==◌, if◌then◌else◌}

abbrev pub dot : ℕ
dot = 46

abbrev pub any_number : ℕ
any_number = 42

abbrev pub at_start : ℕ
at_start = 94

abbrev pub at_end : ℕ
at_end = 36

abbrev pub no_text : List ℕ → Bool
no_text [] = true
no_text (t ∷ ts) = false

-- `matchstar(c, re, text)`, over `matchhere` of `re`.
unfoldable pub matchstar : ℕ → (List ℕ → Bool) → List ℕ → Bool
matchstar c here [] = here []
matchstar c here (t ∷ ts) =
    let rest = matchstar c here ts in here (t ∷ ts) || (if t == c || c == dot then rest else false)

-- The last test of `matchhere`, over `matchhere` of the rest of the pattern.
unfoldable pub match_char : ℕ → (List ℕ → Bool) → List ℕ → Bool
match_char c here [] = false
match_char c here (t ∷ ts) = if c == dot || c == t then here ts else false

unfoldable pub matchhere : List ℕ → List ℕ → Bool
matchhere [] text = true
matchhere (c ∷ []) text = if c == at_end then no_text text else match_char c (λ ts. true) text
matchhere (c ∷ d ∷ re) text =
    let starred = matchstar c (matchhere re) text in
    let plain = match_char c (matchhere (d ∷ re)) text in if d == any_number then starred else plain

-- The loop of `match`.
unfoldable pub search : (List ℕ → Bool) → List ℕ → Bool
search here [] = here []
search here (t ∷ ts) = let rest = search here ts in here (t ∷ ts) || rest

unfoldable pub match : List ℕ → List ℕ → Bool
match [] text = search (matchhere []) text
match (c ∷ re) text = if c == at_start then matchhere re text else search (matchhere (c ∷ re)) text
