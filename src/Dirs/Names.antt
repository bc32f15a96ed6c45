-- ===== src/Dirs/Names.antt =====
-- The entry that `dirlink` writes has the name that it was given.
use cpsc.Prelude.{
  ℕ, zero, suc, ◌+◌, ◌*◌, ◌<◌, ◌≡◌, ◌∙◌, sym, ap, ap₂, true, false, List, ◌==◌, arith,
}
use cpsc.Paths.{dirsiz}
use cpsc.Content.{slice}
use cpsc.Strings.Compare.{Agree, strncmp_lem}
use cpsc.Strings.Names.{strncpy_copied}
use cpsc.Dirs.{byte_of, de_inum, de_name, two_names, matches, padded, dirent, dirent_size}

-- The bytes as `readi` gives them back.
abbrev pub written : (ℕ → ℕ) → ℕ → List ℕ
written name inum = slice dirent_size 0 (dirent name inum)

written_byte : (f : ℕ → ℕ) (n o j : ℕ) → j < n → byte_of (slice n o f) j ≡ f (o + j)
unfolding slice
written_byte f zero o j lt = absurd (omega arith)
written_byte f (suc n) o zero lt = ap f (omega arith)
written_byte f (suc n) o (suc j) lt = written_byte f n (o + 1) j (omega arith) ∙ ap f (omega arith)

pub written_inum : (name : ℕ → ℕ) (inum : ℕ) → inum < 65536 → de_inum (written name inum) ≡ inum
written_inum name inum lt =
    ap₂ (λ a b. a + 256 * b) (written_byte (dirent name inum) 16 0 0 (omega arith))
      (written_byte (dirent name inum) 16 0 1 (omega arith))
    ∙ omega arith

written_name :
    (name : ℕ → ℕ) (inum j : ℕ) → j < dirsiz → de_name (written name inum) j ≡ padded name j
written_name name inum j lt = written_byte (dirent name inum) 16 0 (2 + j) (omega arith) ∙ third
  where
    third : dirent name inum (0 + (2 + j)) ≡ padded name j
    third = rw (not_low, not_high) (ap (padded name) (omega arith))
      where
        not_low : (0 + (2 + j) == 0) ≡ false
        not_low = ground arith

        not_high : (0 + (2 + j) == 1) ≡ false
        not_high = ground arith

first_of : (s t : ℕ → ℕ) (j : ℕ) → j < dirsiz → two_names s t (0 + j) ≡ s j
first_of s t j lt = ground arith

second_of : (s t : ℕ → ℕ) (j : ℕ) → two_names s t (dirsiz + j) ≡ t j
second_of s t j = ground arith

pub written-matches :
    (name : ℕ → ℕ) (inum : ℕ) → 0 < inum → inum < 65536 → matches name (written name inum) ≡ true
written-matches name inum low lt =
    rw (written_inum name inum lt, (strncmp_lem dirsiz 0 dirsiz both).1 agree) (ground arith)
  where
    both : ℕ → ℕ
    both = two_names name (de_name (written name inum))

    agree : Agree 0 dirsiz dirsiz both
    agree j lj nonzero =
        first_of name (de_name (written name inum)) j lj
        ∙ sym (copied ∙ first_of name (λ a. 0) j lj)
        ∙ sym (written_name name inum j lj)
        ∙ sym (second_of name (de_name (written name inum)) j)
      where
        copied : padded name j ≡ two_names name (λ a. 0) (0 + j)
        copied =
            strncpy_copied dirsiz dirsiz 0 (two_names name (λ a. 0)) j (omega arith) lj (λ i li e.
              nonzero i li (
                first_of name (de_name (written name inum)) i (omega arith)
                ∙ sym (first_of name (λ a. 0) i (omega arith))
                ∙ e))
