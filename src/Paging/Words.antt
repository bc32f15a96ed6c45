-- ===== src/Paging/Words.antt =====
-- The flags of an entry next to an address of a page.
use cpsc.Prelude.{ℕ, zero, suc, ◌+◌, ◌*◌, ◌/◌, ◌%◌, ◌^◌, ◌<◌, ◌≡◌, ◌∙◌, ap, ap₂, arith}
use cpsc.Pages.{pgsize}
use cpsc.Paging.{bits_or, word_or, pte_p, pte_w, pte_u}

-- `c` after `j` bits.
unfoldable pub shift : ℕ → ℕ → ℕ
shift zero c = c
shift (suc j) c = 2 * shift j c

-- `j + k`, as bits of a word.
above : ℕ → ℕ → ℕ
above zero k = k
above (suc j) k = suc (above j k)

bits_or_zero : (k c : ℕ) → c < shift k 1 → bits_or k c 0 ≡ c
unfolding bits_or shift
bits_or_zero zero c lt = omega arith
bits_or_zero (suc k) c lt = rw (bits_or_zero k (c / 2) (omega arith)) (ground arith)

bits_or-shift :
    (j k c f g : ℕ)
    → c < shift k 1
    → f < shift j 1
    → g < shift j 1
    → bits_or (above j k) (shift j c + f) g ≡ shift j c + bits_or j f g
unfolding bits_or shift above
bits_or-shift zero k c f g lc lf lg =
    ap₂ (bits_or k) (omega arith) (omega arith) ∙ bits_or_zero k c lc ∙ omega arith
bits_or-shift (suc j) k c f g lc lf lg =
    rw (half ∙ bits_or-shift j k c (f / 2) (g / 2) lc (omega arith) (omega arith)) (ground arith)
  where
    half :
        bits_or (above j k) ((2 * shift j c + f) / 2) (g / 2)
        ≡ bits_or (above j k) (shift j c + f / 2) (g / 2)
    half = ap (λ x. bits_or (above j k) x (g / 2)) (omega arith)

word_or-page :
    (x f g : ℕ)
    → x % pgsize ≡ 0
    → x < 2 ^ 32
    → f < pgsize
    → g < pgsize
    → word_or (x + f) g ≡ x + bits_or 12 f g
unfolding shift above
word_or-page x f g aligned lx lf lg =
    ap (λ y. word_or (y + f) g) page
    ∙ bits_or-shift 12 20 (x / pgsize) f g (omega arith) (omega arith) (omega arith)
    ∙ ap (λ y. y + bits_or 12 f g) (omega arith)
  where
    page : x ≡ shift 12 (x / pgsize)
    page = omega arith

-- The entry of the directory for a table at `x`.
pub table_entry :
    (x : ℕ) → x % pgsize ≡ 0 → x < 2 ^ 32 → word_or (word_or (word_or x pte_p) pte_w) pte_u ≡ x + 7
unfolding bits_or
table_entry x aligned lx =
    ap (λ e. word_or (word_or e pte_w) pte_u)
      (ap (λ y. word_or y pte_p) (omega arith)
        ∙ word_or-page x 0 1 aligned lx (omega arith) (omega arith))
    ∙ ap (λ e. word_or e pte_u) (word_or-page x 1 2 aligned lx (omega arith) (omega arith))
    ∙ word_or-page x 3 4 aligned lx (omega arith) (omega arith)
