-- ===== src/Grep/Search.antt =====
-- What the functions of grep.c find is what the pattern stands for.
use cpsc.Prelude.{
  ℕ, ◌≡◌, ◌≢◌, refl, ap, ◌⊎◌, inl, inr, ◌↔◌, Bool, true, false, List, [], ◌∷◌, ◌++◌, ◌==◌, arith,
  Bool-cases,
}
use cpsc.Grep.{
  any_number, at_start, at_end, no_text, matchstar, match_char, matchhere, search, match,
}
use cpsc.Grep.Language.{
  Fits, AllFit, no_more, one_more, Starred, Matches, nothing, starred, ends, byte, matchhere_finds,
}

matchstar_found :
    (c : ℕ) (here : List ℕ → Bool) (text : List ℕ)
    → matchstar c here text ≡ true
    → (front : List ℕ) × (rest : List ℕ) × (text ≡ front ++ rest)
      × AllFit c front
      × (here rest ≡ true)
unfolding matchstar
matchstar_found c here [] h = ([], [], refl, no_more, h)
matchstar_found c here (t ∷ ts) h = elim (Bool-cases (here (t ∷ ts))) [
  | inl now ↦ ([], t ∷ ts, refl, no_more, now)
  | inr later ↦
      let (front, rest, e, fits, found) = matchstar_found c here ts (ground (arith, later, h)) in
      (t ∷ front, rest, ap (λ l. t ∷ l) e, one_more (ground (arith, later, h)) fits, found)
]

no_text-nil : (text : List ℕ) → no_text text ≡ true → text ≡ []
no_text-nil [] e = refl
no_text-nil (t ∷ ts) e = cc

match_char_found :
    (c : ℕ) (here : List ℕ → Bool) (text : List ℕ)
    → match_char c here text ≡ true
    → (t : ℕ) × (ts : List ℕ) × (text ≡ t ∷ ts) × Fits c t × (here ts ≡ true)
unfolding match_char
match_char_found c here [] h = cc
match_char_found c here (t ∷ ts) h = (t, ts, refl, ground (arith, h), ground (arith, h))

-- The pattern's first character is not starred.
plain_found :
    (c d : ℕ) (re text : List ℕ)
    → (d == any_number) ≡ false
    → ((t : ℕ) × (ts : List ℕ) × (text ≡ t ∷ ts) × Fits c t × Matches (d ∷ re) ts)
    → Matches (c ∷ d ∷ re) text
plain_found c d re text plain (t, ts, e, fit, m) =
    byte c t (d ∷ re) ts refl not_starred (inr (λ q. cc)) e fit m
  where
    head_of : List ℕ → ℕ
    head_of [] = 0
    head_of (x ∷ xs) = x

    not_starred : ¬ Starred (d ∷ re)
    not_starred (re', q) = differ (ap head_of q)
      where
        differ : d ≢ any_number
        differ q = ground (arith, plain)

last_found :
    (c : ℕ) (text : List ℕ)
    → (c == at_end) ≡ false
    → ((t : ℕ) × (ts : List ℕ) × (text ≡ t ∷ ts) × Fits c t × (true ≡ true))
    → Matches (c ∷ []) text
last_found c text other (t, ts, e, fit, h) =
    byte c t [] ts refl (λ (re', q). cc) (inl (λ q. ground (arith, other))) e fit (nothing refl)

matchhere_found : (re text : List ℕ) → matchhere re text ≡ true → Matches re text
unfolding matchhere
matchhere_found [] text h = nothing refl
matchhere_found (c ∷ []) text h = elim (Bool-cases (c == at_end)) [
  | inl e ↦ ends (ap (λ x. x ∷ []) (ground arith)) (no_text-nil text (ground (arith, e, h)))
  | inr other ↦
      last_found c text other (match_char_found c (λ ts. true) text (ground (arith, other, h)))
]
matchhere_found (c ∷ d ∷ re) text h = elim (Bool-cases (d == any_number)) [
  | inl e ↦
      let (front, rest, f, fits, found) =
        matchstar_found c (matchhere re) text (ground (arith, e, h)) in
      starred c re front rest (ap (λ x. c ∷ x ∷ re) (ground arith)) f fits
        (matchhere_found re rest found)
  | inr plain ↦
      let (t, ts, e, fit, found) =
        match_char_found c (matchhere (d ∷ re)) text (ground (arith, plain, h)) in
      plain_found c d re text plain (t, ts, e, fit, matchhere_found (d ∷ re) ts found)
]

search_finds :
    (here : List ℕ → Bool) (front rest : List ℕ)
    → here rest ≡ true
    → search here (front ++ rest) ≡ true
unfolding search
search_finds here [] [] h = h
search_finds here [] (t ∷ ts) h = ground (arith, h)
search_finds here (t ∷ front) rest h = ground (arith, search_finds here front rest h)

search_found :
    (here : List ℕ → Bool) (text : List ℕ)
    → search here text ≡ true
    → (front : List ℕ) × (rest : List ℕ) × (text ≡ front ++ rest) × (here rest ≡ true)
unfolding search
search_found here [] h = ([], [], refl, h)
search_found here (t ∷ ts) h = elim (Bool-cases (here (t ∷ ts))) [
  | inl now ↦ ([], t ∷ ts, refl, now)
  | inr later ↦
      let (front, rest, e, found) = search_found here ts (ground (arith, later, h)) in
      (t ∷ front, rest, ap (λ l. t ∷ l) e, found)
]

-- A pattern that starts with `^` is found at the start of the text, and any other at some place.
abbrev pub Found : List ℕ → List ℕ → Type 0
Found re text =
    ((re' : List ℕ) × (re ≡ at_start ∷ re') × Matches re' text)
    ⊎ ((¬ ((re' : List ℕ) × (re ≡ at_start ∷ re')))
        × ((front : List ℕ) × (rest : List ℕ) × (text ≡ front ++ rest) × Matches re rest))

-- `match` finds a pattern in a text exactly if the text has a part, at its start if the pattern
-- begins with `^`, that the pattern stands for.
pub match_lem : (re text : List ℕ) → (match re text ≡ true) ↔ Found re text
unfolding match
match_lem [] text = (to, from)
  where
    to : search (matchhere []) text ≡ true → Found [] text
    to h =
        let (front, rest, e, found) = search_found (matchhere []) text h in
        inr ((λ (re', q). cc), (front, rest, e, nothing refl))

    from : Found [] text → search (matchhere []) text ≡ true
    from (inl (re', q, m)) = cc
    from (inr (free, (front, rest, e, m))) =
        rw e (search_finds (matchhere []) front rest (matchhere_finds [] rest m))
match_lem (c ∷ re) text = elim (Bool-cases (c == at_start)) [
  | inl anchored ↦ rw anchored (to_start anchored, from_start anchored)
  | inr other ↦ rw other (to_place other, from_place other)
]
  where
    tail_of : List ℕ → List ℕ
    tail_of [] = []
    tail_of (x ∷ xs) = xs

    head_of : List ℕ → ℕ
    head_of [] = 0
    head_of (x ∷ xs) = x

    is_start : (c == at_start) ≡ true → c ≡ at_start
    is_start e = ground arith

    not_start : (c == at_start) ≡ false → c ≢ at_start
    not_start e q = ground arith

    to_start : (c == at_start) ≡ true → matchhere re text ≡ true → Found (c ∷ re) text
    to_start e h = inl (re, ap (λ x. x ∷ re) (is_start e), matchhere_found re text h)

    from_start : (c == at_start) ≡ true → Found (c ∷ re) text → matchhere re text ≡ true
    from_start e (inl (re', q, m)) = rw (ap tail_of q) (matchhere_finds re' text m)
    from_start e (inr (free, place)) = absurd (free (re, ap (λ x. x ∷ re) (is_start e)))

    to_place :
        (c == at_start) ≡ false → search (matchhere (c ∷ re)) text ≡ true → Found (c ∷ re) text
    to_place e h =
        let (front, rest, f, found) = search_found (matchhere (c ∷ re)) text h in
        inr (
          (λ (re', q). not_start e (ap head_of q)),
          (front, rest, f, matchhere_found (c ∷ re) rest found),
        )

    from_place :
        (c == at_start) ≡ false → Found (c ∷ re) text → search (matchhere (c ∷ re)) text ≡ true
    from_place e (inl (re', q, m)) = absurd (not_start e (ap head_of q))
    from_place e (inr (free, (front, rest, f, m))) =
        rw f (search_finds (matchhere (c ∷ re)) front rest (matchhere_finds (c ∷ re) rest m))
