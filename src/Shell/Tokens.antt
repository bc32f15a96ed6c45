-- ===== src/Shell/Tokens.antt =====
-- What `gettoken` and `peek` make of the tokens of a written line.
use cpsc.Prelude.{ℕ, ◌≡◌, ◌∙◌, refl, ap, true, false, not, ◌&&◌, List, [], ◌∷◌, ◌++◌, ◌==◌, arith}
use cpsc.Shell.{
  has, whitespace, symbols, single, skip_white, word, after_word, token_at, gettoken, head_in, peek,
}
use cpsc.Shell.Scan.{Trimmed, skip_white-id, token_at-word}
use cpsc.Shell.Syntax.{Plain, AllPlain, IsWord, Arrow, from, onto, after, arrow_text, arrow_token}

plain : (c : ℕ) → Plain c → (not (has whitespace c) && not (has symbols c)) ≡ true
plain c (w, s) = rw (w, s) refl

word-written : (w s : List ℕ) → AllPlain w → word (w ++ (32 ∷ s)) ≡ w
unfolding word
word-written [] s all = refl
word-written (c ∷ w) s (p, all) = rw (plain c p) (ap (λ t. c ∷ t) (word-written w s all))

after_word-written : (w s : List ℕ) → AllPlain w → after_word (w ++ (32 ∷ s)) ≡ 32 ∷ s
unfolding after_word
after_word-written [] s all = refl
after_word-written (c ∷ w) s (p, all) = rw (plain c p) (after_word-written w s all)

space : (s : List ℕ) → skip_white (32 ∷ s) ≡ skip_white s
unfolding skip_white
space s = refl

-- A byte of a word does not stand for itself.
pub byte_of_word :
    (c : ℕ)
    → Plain c
    → (has single c ≡ false)
      × ((c == 62) ≡ false)
      × (has (60 ∷ 62 ∷ []) c ≡ false)
      × (has (40 ∷ []) c ≡ false)
      × (has (124 ∷ 41 ∷ 38 ∷ 59 ∷ []) c ≡ false)
byte_of_word c (w, s) = (ground arith, ground arith, ground arith, ground arith, ground arith)

pub gettoken-word : (w s : List ℕ) → IsWord w → Trimmed s → gettoken (w ++ (32 ∷ s)) ≡ (97, w, s)
unfolding gettoken
gettoken-word [] s is trimmed = absurd is
gettoken-word (c ∷ w) s (p, all) trimmed =
    ap token_at (skip_white-id (c ∷ (w ++ (32 ∷ s))) p.0)
    ∙ token_at-word c (w ++ (32 ∷ s)) (byte_of_word c p).0 (byte_of_word c p).1
    ∙ rw
        (
          word-written (c ∷ w) s (p, all),
          after_word-written (c ∷ w) s (p, all),
          space s,
          skip_white-id s trimmed,
        )
        refl

pub gettoken-single :
    (c : ℕ) (s : List ℕ) → has single c ≡ true → Trimmed s → gettoken (c ∷ 32 ∷ s) ≡ (c, c ∷ [], s)
unfolding gettoken
gettoken-single c s is trimmed =
    ap token_at (skip_white-id (c ∷ 32 ∷ s) (ground (arith, is)))
    ∙ rw (is, space s, skip_white-id s trimmed) refl

pub gettoken-arrow :
    (a : Arrow) (s : List ℕ)
    → Trimmed s
    → gettoken (arrow_text a ++ (32 ∷ s)) ≡ (arrow_token a, arrow_text a, s)
unfolding gettoken
gettoken-arrow from s trimmed = gettoken-single 60 s refl trimmed
gettoken-arrow onto s trimmed =
    ap token_at (skip_white-id (62 ∷ 32 ∷ s) refl) ∙ rw (space s, skip_white-id s trimmed) refl
gettoken-arrow after s trimmed =
    ap token_at (skip_white-id (62 ∷ 62 ∷ 32 ∷ s) refl) ∙ rw (space s, skip_white-id s trimmed) refl

pub peek-at_start : (toks s : List ℕ) → Trimmed s → peek toks s ≡ (head_in toks s, s)
unfolding peek
peek-at_start toks s trimmed = rw (skip_white-id s trimmed) refl
