-- ===== src/Content/Reading.antt =====
-- What `readi` reads of a file that has a block for each of its bytes.
use cpsc.Prelude.{
  ℕ, zero, suc, ◌+◌, ◌-◌, ◌*◌, ◌/◌, ◌%◌, ◌^◌, ◌≤◌, ◌<◌, ◌≡◌, ◌≢◌, ◌∙◌, refl, ap, ap₂, false, ◌||◌,
  Option, some, List, [], ◌∷◌, ◌++◌, ◌==◌, ltb, leb, if◌then◌else◌, arith, Bool-cases, inl, inr,
}
use cpsc.Prelude.Int.{pos, minus_one}
use cpsc.Fs.{Super, Blocks, bsize}
use cpsc.Inodes.{Store}
use cpsc.Content.{bmap, t_dev, min, slice, read_loop, DevReads, readi}

-- `m` bytes of a file from `off` on, one by one.
unfoldable pub bytes_at : ℕ → ℕ → (ℕ → ℕ) → Blocks → List ℕ
bytes_at zero off addr d = []
bytes_at (suc m) off addr d = d (addr (off / bsize)) (off % bsize) ∷ bytes_at m (off + 1) addr d

bytes_at-slice :
    (m q r off : ℕ) (addr : ℕ → ℕ) (d : Blocks)
    → off ≡ bsize * q + r
    → r + m ≤ bsize
    → slice m r (d (addr q)) ≡ bytes_at m off addr d
unfolding slice bytes_at
bytes_at-slice zero q r off addr d e fits = refl
bytes_at-slice (suc m) q r off addr d e fits =
    ap₂ (λ x xs. x ∷ xs) (ap₂ (λ a b. d (addr a) b) (omega arith) (omega arith))
      (bytes_at-slice m q (r + 1) (off + 1) addr d (omega arith) (omega arith))

bytes_at-append :
    (m k n off end : ℕ) (addr : ℕ → ℕ) (d : Blocks)
    → n ≡ m + k
    → end ≡ off + m
    → bytes_at m off addr d ++ bytes_at k end addr d ≡ bytes_at n off addr d
unfolding bytes_at
bytes_at-append zero k n off end addr d e f =
    ap₂ (λ a b. bytes_at a b addr d) (omega arith) (omega arith)
bytes_at-append (suc m) k zero off end addr d e f = absurd (omega arith)
bytes_at-append (suc m) k (suc n) off end addr d e f =
    ap (λ xs. d (addr (off / bsize)) (off % bsize) ∷ xs)
      (bytes_at-append m k n (off + 1) end addr d (omega arith) (omega arith))

-- The file has a block for each byte below its size.
abbrev pub HasBlocks : Super → ℕ → Store → (ℕ → ℕ) → Type 0
HasBlocks sb i s addr = (q : ℕ) → bsize * q < (s.icache i).size → bmap sb i q s ≡ some (addr q, s)

-- The bytes of a round of the loop.
abbrev pub part : ℕ → ℕ → ℕ
part left off = min (suc left) (bsize - off % bsize)

pub more_left : (left : ℕ) → (suc left == 0) ≡ false
more_left left = ground arith

pub part_fits :
    (left off : ℕ)
    → (0 < part left off) × (part left off ≤ suc left) × (off % bsize + part left off ≤ bsize)
part_fits left off = (ground arith, ground arith, ground arith)

read_loop-bytes_at :
    (k : ℕ) (sb : Super) (i off left : ℕ) (s : Store) (addr : ℕ → ℕ)
    → HasBlocks sb i s addr
    → off + left ≤ (s.icache i).size
    → left ≤ k
    → read_loop k sb i off left s ≡ some (bytes_at left off addr s.blocks, s)
unfolding read_loop bytes_at
read_loop-bytes_at zero sb i off zero s addr has within le = refl
read_loop-bytes_at zero sb i off (suc left) s addr has within le = absurd (omega arith)
read_loop-bytes_at (suc k) sb i off zero s addr has within le = refl
read_loop-bytes_at (suc k) sb i off (suc left) s addr has within le =
    rw
      (
        has (off / bsize) (omega arith),
        read_loop-bytes_at k sb i (off + part left off) (suc left - part left off) s addr has
            (omega (arith, part_fits left off)) (omega (arith, part_fits left off)),
      )
      (rw (more_left left) (
        ap {A = List ℕ} {B = Option (List ℕ × Store)} (λ xs. some (xs, s))
          (ap (λ xs. xs ++ bytes_at (suc left - part left off) (off + part left off) addr s.blocks)
              (bytes_at-slice (part left off) (off / bsize) (off % bsize) off addr s.blocks
                (omega arith) (omega (arith, part_fits left off)))
            ∙ bytes_at-append (part left off) (suc left - part left off) (suc left) off
                (off + part left off) addr s.blocks (omega (arith, part_fits left off)) refl)))

abbrev pub readable : ℕ → ℕ → ℕ → ℕ
readable size off n = if ltb size (off + n) then size - off else n

-- `readi` of a file that has a block for each of its bytes. It fails if it starts after the end or
-- if the range does not fit in 32 bits; else it returns, in order, the bytes of the range that are
-- below the size, and their number, and it changes nothing.
pub readi_lem :
    (devsw : DevReads) (sb : Super) (i off n : ℕ) (s : Store) (addr : ℕ → ℕ)
    → (s.icache i).type ≢ t_dev
    → (s.icache i).size < 2 ^ 32
    → off < 2 ^ 32
    → n < 2 ^ 32
    → HasBlocks sb i s addr
    → readi devsw sb i off n s ≡ (
        if ltb (s.icache i).size off || leb (2 ^ 32) (off + n)
        then some (minus_one, [], s)
        else some (
          pos (readable (s.icache i).size off n),
          bytes_at (readable (s.icache i).size off n) off addr s.blocks,
          s,
        ))
unfolding readi
readi_lem devsw sb i off n s addr no_dev fits lo ln has =
    elim (Bool-cases (ltb (s.icache i).size off || leb (2 ^ 32) (off + n))) [
      | inl bad ↦ rw (is_file, bad, wraps ∙ bad) refl
      | inr good ↦
          rw
            (
              is_file,
              good,
              wraps ∙ good,
              no_wrap good,
              read_loop-bytes_at (readable (s.icache i).size off n) sb i off
                  (readable (s.icache i).size off n) s addr has (within good) (omega arith),
            )
            refl
    ]
  where
    is_file : ((s.icache i).type == t_dev) ≡ false
    is_file = ground (arith, no_dev)

    wraps :
        (ltb (s.icache i).size off || ltb ((off + n) % 2 ^ 32) off)
        ≡ (ltb (s.icache i).size off || leb (2 ^ 32) (off + n))
    wraps = ground (arith, lo, ln)

    no_wrap :
        (ltb (s.icache i).size off || leb (2 ^ 32) (off + n)) ≡ false → (off + n) % 2 ^ 32 ≡ off + n
    no_wrap good = ground (arith, good)

    within :
        (ltb (s.icache i).size off || leb (2 ^ 32) (off + n)) ≡ false
        → off + readable (s.icache i).size off n ≤ (s.icache i).size
    within good = ground (arith, good)
