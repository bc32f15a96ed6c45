-- ===== src/Grep/Language.antt =====
-- What a pattern stands for, and that `matchhere` finds it.
use cpsc.Prelude.{ℕ, ◌≡◌, ◌≢◌, refl, ap, ◌⊎◌, inl, inr, Bool, true, List, [], ◌∷◌, ◌++◌, arith}
use cpsc.Grep.{dot, any_number, at_end, matchstar, match_char, matchhere}

-- The byte `t` is one that `c` stands for.
abbrev pub Fits : ℕ → ℕ → Type 0
Fits c t = (c ≡ dot) ⊎ (c ≡ t)

pub data AllFit (c : ℕ) : List ℕ → Type 0 where
  no_more : AllFit c []
  one_more : {t : ℕ} {ts : List ℕ} → Fits c t → AllFit c ts → AllFit c (t ∷ ts)

abbrev pub Starred : List ℕ → Type 0
Starred re = (re' : List ℕ) × (re ≡ any_number ∷ re')

-- The pattern, which has no `^` at its start, stands for the text up to some point: a starred
-- character for any number of bytes that it fits, `$` at the end of the pattern for the end of the
-- text, and any other character for a byte that it fits.
pub data Matches : List ℕ → List ℕ → Type 0 where
  nothing : {re text : List ℕ} → re ≡ [] → Matches re text
  starred :
      {re text : List ℕ} (c : ℕ) (re' front rest : List ℕ)
      → re ≡ c ∷ any_number ∷ re'
      → text ≡ front ++ rest
      → AllFit c front
      → Matches re' rest
      → Matches re text
  ends : {re text : List ℕ} → re ≡ at_end ∷ [] → text ≡ [] → Matches re text
  byte :
      {re text : List ℕ} (c t : ℕ) (re' ts : List ℕ)
      → re ≡ c ∷ re'
      → ¬ Starred re'
      → (c ≢ at_end) ⊎ (re' ≢ [])
      → text ≡ t ∷ ts
      → Fits c t
      → Matches re' ts
      → Matches re text

matchstar_finds :
    (c : ℕ) (here : List ℕ → Bool) (front rest : List ℕ)
    → AllFit c front
    → here rest ≡ true
    → matchstar c here (front ++ rest) ≡ true
unfolding matchstar
matchstar_finds c here [] [] no_more h = h
matchstar_finds c here [] (t ∷ ts) no_more h = ground arith
matchstar_finds c here (t ∷ ts) rest (one_more f fs) h =
    ground (arith, matchstar_finds c here ts rest fs h)

pub matchhere_finds : (re text : List ℕ) → Matches re text → matchhere re text ≡ true
unfolding matchhere match_char
matchhere_finds re text (nothing e) = rw e refl
matchhere_finds re text (starred c re' front rest e f fits m) =
    rw (e, f) (matchstar_finds c (matchhere re') front rest fits (matchhere_finds re' rest m))
matchhere_finds re text (ends e f) = rw (e, f) refl
matchhere_finds re text (byte c t re' ts e plain last f fit m) =
    rw (e, f) (go re' plain last (matchhere_finds re' ts m))
  where
    go :
        (re' : List ℕ)
        → ¬ Starred re'
        → (c ≢ at_end) ⊎ (re' ≢ [])
        → matchhere re' ts ≡ true
        → matchhere (c ∷ re') (t ∷ ts) ≡ true
    go [] plain (inl other) h = ground (arith, fit)
    go [] plain (inr more) h = absurd (more refl)
    go (d ∷ re'') plain last h =
        ground (arith, (λ (q : d ≡ any_number). plain (re'', ap (λ x. x ∷ re'') q)), fit, h)
