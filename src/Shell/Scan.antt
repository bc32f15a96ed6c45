-- ===== src/Shell/Scan.antt =====
-- A token takes a byte of the line at least, and nothing grows.
use cpsc.Prelude.{
  ℕ, ◌≤◌, ◌<◌, ◌≡◌, refl, true, false, not, ◌&&◌, List, [], ◌∷◌, ◌==◌, length, inl, inr, Bool-cases,
  arith,
}
use cpsc.Shell.{
  has, whitespace, symbols, skip_white, word, after_word, greater, single, token_at, gettoken,
  head_in, peek,
}

-- The line does not begin with white space.
abbrev pub Trimmed : List ℕ → Type 0
Trimmed [] = Unit {0}
Trimmed (c ∷ s) = has whitespace c ≡ false

pub skip_white-Trimmed : (s : List ℕ) → Trimmed (skip_white s)
unfolding skip_white
skip_white-Trimmed [] = tt
skip_white-Trimmed (c ∷ s) = elim (Bool-cases (has whitespace c)) [
  | inl white ↦ rw white (skip_white-Trimmed s)
  | inr other ↦ rw other other
]

pub skip_white-id : (s : List ℕ) → Trimmed s → skip_white s ≡ s
unfolding skip_white
skip_white-id [] trimmed = refl
skip_white-id (c ∷ s) trimmed = rw trimmed refl

skip_white-le : (s : List ℕ) → length (skip_white s) ≤ length s
unfolding skip_white
skip_white-le [] = omega arith
skip_white-le (c ∷ s) = elim (Bool-cases (has whitespace c)) [
  | inl white ↦ rw white (omega (arith, skip_white-le s))
  | inr other ↦ rw other (omega arith)
]

after_word-le : (s : List ℕ) → length (after_word s) ≤ length s
unfolding after_word
after_word-le [] = omega arith
after_word-le (c ∷ s) = elim (Bool-cases (not (has whitespace c) && not (has symbols c))) [
  | inl plain ↦ rw plain (omega (arith, after_word-le s))
  | inr other ↦ rw other (omega arith)
]

greater-le : (s : List ℕ) → length (greater s).2 ≤ length s
greater-le [] = omega arith
greater-le (c ∷ s) = elim (Bool-cases (c == 62)) [
  | inl double ↦ rw double (omega (arith, skip_white-le s))
  | inr alone ↦ rw alone (omega (arith, skip_white-le (c ∷ s)))
]

-- A byte that is no symbol of its own begins a word, and is taken.
plain_byte :
    (c : ℕ)
    → has whitespace c ≡ false
    → has single c ≡ false
    → (c == 62) ≡ false
    → (not (has whitespace c) && not (has symbols c)) ≡ true
plain_byte c w s g = ground arith

pub after_word-plain :
    (c : ℕ) (s : List ℕ)
    → (not (has whitespace c) && not (has symbols c)) ≡ true
    → after_word (c ∷ s) ≡ after_word s
unfolding after_word
after_word-plain c s plain = rw plain refl

pub token_at-word :
    (c : ℕ) (s : List ℕ)
    → has single c ≡ false
    → (c == 62) ≡ false
    → token_at (c ∷ s) ≡ (97, word (c ∷ s), skip_white (after_word (c ∷ s)))
token_at-word c s not_single other = rw (not_single, other) refl

token_at-le :
    (c : ℕ) (s : List ℕ) → has whitespace c ≡ false → length (token_at (c ∷ s)).2 ≤ length s
token_at-le c s trimmed = elim (Bool-cases (has single c)) [
  | inl is ↦ rw is (omega (arith, skip_white-le s))
  | inr not_single ↦ elim (Bool-cases (c == 62)) [
    | inl is ↦ rw (not_single, is) (greater-le s)
    | inr other ↦
        rw
          (
            token_at-word c s not_single other,
            after_word-plain c s (plain_byte c trimmed not_single other),
          )
          (omega (arith, skip_white-le (after_word s), after_word-le s))
  ]
]

-- A token takes a byte at least.
pub gettoken-lt : (s : List ℕ) → Trimmed s → 0 < length s → length (gettoken s).2 < length s
unfolding gettoken
gettoken-lt [] trimmed pos = absurd (omega arith)
gettoken-lt (c ∷ s) trimmed pos =
    rw (skip_white-id (c ∷ s) trimmed) (omega (arith, token_at-le c s trimmed))

pub gettoken-le : (s : List ℕ) → length (gettoken s).2 ≤ length s
unfolding gettoken
gettoken-le s = go (skip_white s) (skip_white-Trimmed s) (skip_white-le s)
  where
    go : (t : List ℕ) → Trimmed t → length t ≤ length s → length (token_at t).2 ≤ length s
    go [] trimmed le = omega arith
    go (c ∷ t) trimmed le = omega (arith, token_at-le c t trimmed)

pub head_in-pos : (toks s : List ℕ) → head_in toks s ≡ true → 0 < length s
head_in-pos toks [] h = absurd (ground (arith, h))
head_in-pos toks (c ∷ s) h = omega arith

-- The token after a `peek` that says yes is shorter.
pub peek-gettoken :
    (toks s : List ℕ) → (peek toks s).0 ≡ true → length (gettoken (peek toks s).1).2 < length s
unfolding peek
peek-gettoken toks s yes_ = omega (
  arith,
  skip_white-le s,
  gettoken-lt (skip_white s) (skip_white-Trimmed s) (head_in-pos toks (skip_white s) yes_),
)

pub peek-le : (toks s : List ℕ) → length (peek toks s).1 ≤ length s
unfolding peek
peek-le toks s = skip_white-le s

pub peek-Trimmed : (toks s : List ℕ) → Trimmed (peek toks s).1
unfolding peek
peek-Trimmed toks s = skip_white-Trimmed s
