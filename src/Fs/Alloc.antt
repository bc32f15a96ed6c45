-- ===== src/Fs/Alloc.antt =====
-- The free map: `balloc` and `bfree`.
use native.Mathlib.Decide.{ℕ_discrete, dec_lt}
use cpsc.Prelude.{
  ℕ, zero, suc, ◌+◌, ◌-◌, ◌*◌, ◌%◌, ◌≤◌, ◌<◌, ◌≡◌, ◌∙◌, refl, ap, inl, inr, Bool, true, false,
  Option, none, some, ltb, update, arith, Bool-cases,
}
use cpsc.Fs.{
  bpb, Block, Super, Blocks, bblock, get_bit, set_bit, bzero, find_bit, taken, balloc_from,
}

-- The free map has the block as in use.
abbrev pub in_use : Super → Blocks → ℕ → Bool
in_use sb d b = get_bit (d (bblock b sb)) (b % bpb)

abbrev FindEnds : ℕ → ℕ → ℕ → ℕ → Block → Option ℕ → Type 0
FindEnds k bi b size d none = (j : ℕ) → bi ≤ j → j < bi + k → b + j < size → get_bit d j ≡ true
FindEnds k bi b size d (some r) =
    (bi ≤ r)
    × (r < bi + k)
    × (b + r < size)
    × (get_bit d r ≡ false)
    × ((j : ℕ) → bi ≤ j → j < r → get_bit d j ≡ true)

FindEnds-next :
    (k bi b size : ℕ) (d : Block) (o : Option ℕ)
    → get_bit d bi ≡ true
    → FindEnds k (suc bi) b size d o
    → FindEnds (suc k) bi b size d o
FindEnds-next k bi b size d none hit all = λ j lo hi lt. elim (ℕ_discrete j bi) [
  | yes same ↦ rw same hit
  | no ne ↦ all j (omega arith) (omega arith) lt
]
FindEnds-next k bi b size d (some r) hit (lo, hi, lt, clear, before) = (
  omega arith,
  omega arith,
  lt,
  clear,
  λ j a c. elim (ℕ_discrete j bi) [ yes same ↦ rw same hit | no ne ↦ before j (omega arith) c ],
)

find_bit-FindEnds : (k bi b size : ℕ) (d : Block) → FindEnds k bi b size d (find_bit k bi b size d)
unfolding find_bit
find_bit-FindEnds zero bi b size d = λ j a c lt. absurd (omega arith)
find_bit-FindEnds (suc k) bi b size d = elim (Bool-cases (ltb (b + bi) size)) [
  | inr past ↦ rw past (λ j a c lt. absurd (ground (arith, past)))
  | inl within ↦ rw within (elim (Bool-cases (get_bit d bi)) [
    | inl hit ↦ rw hit (FindEnds-next k bi b size d _ hit (find_bit-FindEnds k (suc bi) b size d))
    | inr clear ↦
        rw clear
          (omega arith, omega arith, ground (arith, within), clear, λ j a c. absurd (omega arith))
  ])
]

-- The blocks after the allocation of `r`.
abbrev pub allocated : ℕ → Super → Blocks → Blocks
allocated r sb d = bzero r (update d (bblock r sb) (set_bit (d (bblock r sb)) (r % bpb)))

abbrev pub TakeEnds : ℕ → Super → Blocks → Option (ℕ × Blocks) → Type 0
TakeEnds b sb d none = (x : ℕ) → b ≤ x → x < sb.size → in_use sb d x ≡ true
TakeEnds b sb d (some (r, d')) =
    (b ≤ r)
    × (r < sb.size)
    × (in_use sb d r ≡ false)
    × ((x : ℕ) → b ≤ x → x < r → in_use sb d x ≡ true)
    × (d' ≡ allocated r sb d)

-- The block of the map and the bit in it.
in_map :
    (b j x : ℕ) (sb : Super)
    → b % bpb ≡ 0
    → j < bpb
    → x ≡ b + j
    → (bblock x sb ≡ bblock b sb) × (x % bpb ≡ j)
in_map b j x sb aligned lt e = (omega arith, omega arith)

in_use-get_bit :
    (b j x : ℕ) (sb : Super) (d : Blocks)
    → b % bpb ≡ 0
    → j < bpb
    → x ≡ b + j
    → in_use sb d x ≡ get_bit (d (bblock b sb)) j
in_use-get_bit b j x sb d aligned lt e =
    let (block, bi) = in_map b j x sb aligned lt e in
    ap (λ a. get_bit (d a) (x % bpb)) block ∙ ap (λ i. get_bit (d (bblock b sb)) i) bi

-- No clear bit in the block of the map from `b` on.
TakeEnds-next :
    (b : ℕ) (sb : Super) (d : Blocks) (o : Option (ℕ × Blocks))
    → b % bpb ≡ 0
    → FindEnds bpb 0 b sb.size (d (bblock b sb)) none
    → TakeEnds (b + bpb) sb d o
    → TakeEnds b sb d o
TakeEnds-next b sb d none aligned all rest = λ x lo lt. elim (dec_lt x (b + bpb)) [
  | yes near ↦
      in_use-get_bit b (x - b) x sb d aligned (omega arith) (omega arith)
      ∙ all (x - b) (omega arith) (omega arith) (omega arith)
  | no far ↦ rest x (omega arith) lt
]
TakeEnds-next b sb d (some (r, d')) aligned all (lo, lt, clear, before, same) = (
  omega arith,
  lt,
  clear,
  (λ x a c. elim (dec_lt x (b + bpb)) [
    | yes near ↦
        in_use-get_bit b (x - b) x sb d aligned (omega arith) (omega arith)
        ∙ all (x - b) (omega arith) (omega arith) (omega arith)
    | no far ↦ before x (omega arith) c
  ]),
  same,
)

TakeEnds-found :
    (b bi : ℕ) (sb : Super) (d : Blocks) (rest : Option (ℕ × Blocks))
    → b % bpb ≡ 0
    → FindEnds bpb 0 b sb.size (d (bblock b sb)) (some bi)
    → TakeEnds b sb d (taken b sb (some bi) d rest)
TakeEnds-found b bi sb d rest aligned (lo, hi, lt, clear, before) =
    let (block, bit_of) = in_map b bi (b + bi) sb aligned (omega arith) refl in
    (
      omega arith,
      lt,
      in_use-get_bit b bi (b + bi) sb d aligned (omega arith) refl ∙ clear,
      (λ x a c.
          in_use-get_bit b (x - b) x sb d aligned (omega arith) (omega arith)
          ∙ before (x - b) (omega arith) (omega arith)),
      rw (block, bit_of) refl,
    )

pub balloc_from-TakeEnds :
    (k b : ℕ) (sb : Super) (d : Blocks)
    → b % bpb ≡ 0
    → sb.size ≤ b + k * bpb
    → TakeEnds b sb d (balloc_from k b sb d)
unfolding balloc_from
balloc_from-TakeEnds zero b sb d aligned enough = λ x lo lt. absurd (omega arith)
balloc_from-TakeEnds (suc k) b sb d aligned enough = elim (Bool-cases (ltb b sb.size)) [
  | inr past ↦ rw past (λ x lo lt. absurd (ground (arith, past)))
  | inl within ↦ rw within (
      go (find_bit bpb 0 b sb.size (d (bblock b sb)))
        (balloc_from-TakeEnds k (b + bpb) sb d (omega arith) (omega arith))
        (find_bit-FindEnds bpb 0 b sb.size (d (bblock b sb))))
]
  where
    go :
        (o : Option ℕ)
        → TakeEnds (b + bpb) sb d (balloc_from k (b + bpb) sb d)
        → FindEnds bpb 0 b sb.size (d (bblock b sb)) o
        → TakeEnds b sb d (taken b sb o d (balloc_from k (b + bpb) sb d))
    go none rest all = TakeEnds-next b sb d (balloc_from k (b + bpb) sb d) aligned all rest
    go (some bi) rest found = TakeEnds-found b bi sb d (balloc_from k (b + bpb) sb d) aligned found
