-- ===== src/Inodes/Emptied.antt =====
-- The loops of `itrunc`, and `itrunc`.
use cpsc.Prelude.{
  ℕ, zero, suc, ◌+◌, ◌*◌, ◌<◌, ◌≡◌, refl, sym, ap, inl, inr, true, false, Option, none, some, ◌==◌,
  if◌then◌else◌, update, arith, Bool-cases, ◌>>=◌,
}
use cpsc.Fs.{Super, Blocks, bfree}
use cpsc.Fs.Alloc.{in_use}
use cpsc.Inodes.{ndirect, nindirect, word, free_direct, free_indirect, free_rest}
use cpsc.Inodes.Trunc.{
  count, count-same, NotMap, Freed, Spoilt, FreeEnds, Freed-none, one, bfree-FreeEnds, Freed-join,
  Spoilt-join, DirectEnds, DirectEnds-skip, DirectEnds-Freed,
}

pub free_direct-DirectEnds :
    (k i : ℕ) (sb : Super) (addrs : ℕ → ℕ) (d : Blocks)
    → DirectEnds sb k i addrs d (free_direct k i sb addrs d)
unfolding free_direct count one
free_direct-DirectEnds zero i sb addrs d = (Freed-none sb (λ x. 0) d (λ x. refl), λ j. ground arith)
free_direct-DirectEnds (suc k) i sb addrs d = elim (Bool-cases (addrs i == 0)) [
  | inl null ↦ rw null (
      DirectEnds-skip sb k i addrs d _ (ground (arith, null))
        (free_direct-DirectEnds k (suc i) sb addrs d))
  | inr there ↦ rw there (
      go (bfree (addrs i) sb d) (bfree-FreeEnds sb (addrs i) d) there
        (λ d1. free_direct-DirectEnds k (suc i) sb (update addrs i 0) d1))
]
  where
    go :
        (o : Option Blocks)
        → FreeEnds sb (one (addrs i)) d o
        → (addrs i == 0) ≡ false
        → ((d1 : Blocks)
            → DirectEnds sb k
                (suc i)
                (update addrs i 0)
                d1
                (free_direct k (suc i) sb (update addrs i 0) d1))
        → DirectEnds sb
            (suc k)
            i
            addrs
            d
            (o >>= λ d'. free_direct k (suc i) sb (update addrs i 0) d')
    go none (x, lt) there next = (x, spoilt x lt there)
      where
        spoilt :
            (x : ℕ)
            → (if in_use sb d x then 1 else 0) < one (addrs i) x
            → (addrs i == 0) ≡ false
            → (if in_use sb d x then 1 else 0) < count addrs (suc k) i x
        spoilt x lt there = ground (arith, lt, there)
    go (some d1) freed there next =
        DirectEnds-Freed sb k i addrs d d1 _ (ground (arith, there)) freed (next d1)

-- The words of a block are as they were.
pub word-same : (b : ℕ) (d d' : Blocks) (j : ℕ) → d' b ≡ d b → word d' b j ≡ word d b j
unfolding word
word-same b d d' j same =
    ap (λ f. f (4 * j) + 256 * f (4 * j + 1) + 65536 * f (4 * j + 2) + 16777216 * f (4 * j + 3))
      same

free_indirect-FreeEnds :
    (k j : ℕ) (sb : Super) (b : ℕ) (d : Blocks)
    → NotMap sb (count (word d b) k j) b
    → FreeEnds sb (count (word d b) k j) d (free_indirect k j sb b d)
unfolding free_indirect count one
free_indirect-FreeEnds zero j sb b d out = Freed-none sb (λ x. 0) d (λ x. refl)
free_indirect-FreeEnds (suc k) j sb b d out = elim (Bool-cases (word d b j == 0)) [
  | inl null ↦ rw null (
      skip null (free_indirect k (suc j) sb b d)
        (free_indirect-FreeEnds k (suc j) sb b d (λ x lt. out x (ground (arith, null, lt)))))
  | inr there ↦ rw there (
      go there (bfree (word d b j) sb d) (bfree-FreeEnds sb (word d b j) d) (λ d1 kept.
        free_indirect-FreeEnds k (suc j) sb b d1
          (λ x lt. out x (omega (arith, sum there d1 kept x, lt)))))
]
  where
    skip :
        (word d b j == 0) ≡ true
        → (o : Option Blocks) → FreeEnds sb (count (word d b) k (suc j)) d o
        → FreeEnds sb (count (word d b) (suc k) j) d o
    skip null none (x, lt) = (x, ground (arith, null, lt))
    skip null (some d') p = record {
      map = λ x. ground (arith, null, p.map x);
      others = λ c away. p.others c (λ x lt. away x (ground (arith, null, lt)));
    }

    sum :
        (word d b j == 0) ≡ false
        → (d1 : Blocks) → d1 b ≡ d b
        → (x : ℕ)
        → count (word d b) (suc k) j x ≡ one (word d b j) x + count (word d1 b) k (suc j) x
    sum there d1 kept x = rw there (
        ap (λ c. (if word d b j == x then 1 else 0) + c)
          (count-same (word d b) (word d1 b) k (suc j) x (λ l le. sym (word-same b d d1 l kept))))

    kept_by :
        (word d b j == 0) ≡ false → (d1 : Blocks) → Freed sb (one (word d b j)) d d1 → d1 b ≡ d b
    kept_by there d1 p = p.others b (λ x lt. out x (ground (arith, there, lt)))

    rest :
        (word d b j == 0) ≡ false
        → (d1 : Blocks) (o : Option Blocks) → Freed sb (one (word d b j)) d d1
        → FreeEnds sb (count (word d1 b) k (suc j)) d1 o
        → FreeEnds sb (count (word d b) (suc k) j) d o
    rest there d1 none p spoilt =
        Spoilt-join sb (one (word d b j)) (count (word d1 b) k (suc j)) _ d d1
          (sum there d1 (kept_by there d1 p)) p spoilt
    rest there d1 (some d') p q =
        Freed-join sb (one (word d b j)) (count (word d1 b) k (suc j)) _ d d1 d'
          (sum there d1 (kept_by there d1 p)) p q

    go :
        (word d b j == 0) ≡ false
        → (o : Option Blocks) → FreeEnds sb (one (word d b j)) d o
        → ((d1 : Blocks)
            → d1 b ≡ d b
            → FreeEnds sb (count (word d1 b) k (suc j)) d1 (free_indirect k (suc j) sb b d1))
        → FreeEnds sb (count (word d b) (suc k) j) d (o >>= λ d'. free_indirect k (suc j) sb b d')
    go there none (x, lt) next = (x, ground (arith, there, lt))
    go there (some d1) p next =
        rest there d1 (free_indirect k (suc j) sb b d1) p (next d1 (kept_by there d1 p))

-- The indirect block with the blocks in it.
unfoldable pub in_rest : (ℕ → ℕ) → Blocks → ℕ → ℕ
in_rest addrs d x =
    if addrs ndirect == 0
    then 0
    else count (word d (addrs ndirect)) nindirect 0 x + (if addrs ndirect == x then 1 else 0)

abbrev pub RestEnds : Super → (ℕ → ℕ) → Blocks → Option ((ℕ → ℕ) × Blocks) → Type 0
RestEnds sb addrs d none = Spoilt sb (in_rest addrs d) d
RestEnds sb addrs d (some (a, d')) =
    Freed sb (in_rest addrs d) d d' × ((j : ℕ) → a j ≡ (if j == ndirect then 0 else addrs j))

in_rest-none :
    (addrs : ℕ → ℕ) (d : Blocks) (x : ℕ) → (addrs ndirect == 0) ≡ true → in_rest addrs d x ≡ 0
unfolding in_rest
in_rest-none addrs d x null = rw null refl

in_rest-sum :
    (addrs : ℕ → ℕ) (d : Blocks) (x : ℕ)
    → (addrs ndirect == 0) ≡ false
    → in_rest addrs d x ≡ count (word d (addrs ndirect)) nindirect 0 x + one (addrs ndirect) x
unfolding in_rest one
in_rest-sum addrs d x there = rw there refl

pub free_rest-RestEnds :
    (sb : Super) (addrs : ℕ → ℕ) (d : Blocks)
    → NotMap sb (in_rest addrs d) (addrs ndirect)
    → RestEnds sb addrs d (free_rest sb addrs d)
unfolding free_rest
free_rest-RestEnds sb addrs d out = elim (Bool-cases (addrs ndirect == 0)) [
  | inl null ↦ rw null (Freed-none sb (in_rest addrs d) d (none_of null), λ j. ground (arith, null))
  | inr there ↦ rw there (
      go there (free_indirect nindirect 0 sb (addrs ndirect) d) (
        free_indirect-FreeEnds nindirect 0 sb (addrs ndirect) d
          (λ x lt. out x (omega (arith, in_rest-sum addrs d x there, lt)))))
]
  where
    none_of : (addrs ndirect == 0) ≡ true → (x : ℕ) → in_rest addrs d x ≡ 0
    none_of null x = in_rest-none addrs d x null

    words : ℕ → ℕ
    words = count (word d (addrs ndirect)) nindirect 0

    last :
        (addrs ndirect == 0) ≡ false
        → (d1 : Blocks) (o : Option Blocks) → Freed sb words d d1
        → FreeEnds sb (one (addrs ndirect)) d1 o
        → RestEnds sb addrs d (o >>= λ d2. some (update addrs ndirect 0, d2))
    last there d1 none p spoilt =
        Spoilt-join sb words (one (addrs ndirect)) (in_rest addrs d) d d1
          (λ x. in_rest-sum addrs d x there) p spoilt
    last there d1 (some d2) p q = (
      Freed-join sb words (one (addrs ndirect)) (in_rest addrs d) d d1 d2
          (λ x. in_rest-sum addrs d x there) p q,
      λ j. ground arith,
    )

    go :
        (addrs ndirect == 0) ≡ false
        → (o : Option Blocks) → FreeEnds sb words d o
        → RestEnds sb addrs d
            (o >>= λ d1. bfree (addrs ndirect) sb d1 >>= λ d2. some (update addrs ndirect 0, d2))
    go there none (x, lt) = (x, omega (arith, lt, in_rest-sum addrs d x there))
    go there (some d1) p =
        last there d1 (bfree (addrs ndirect) sb d1) p (bfree-FreeEnds sb (addrs ndirect) d1)
