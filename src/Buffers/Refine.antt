-- ===== src/Buffers/Refine.antt =====
-- `bget` and `brelse` as operations on the list of buffers.
use mathlib.Core.List.{reverse}
use cpsc.Prelude.{
  ℕ, ◌≡◌, ◌≢◌, refl, ◌⊎◌, inl, inr, true, false, Option, none, some, List, update, update_ne, arith,
  Bool-cases,
}
use cpsc.Buffers.{Cache, Got, sleeps_on, got, found, recycled, or_else, bget}
use cpsc.Buffers.Cache.{
  IsCircle, first, is_block, is_clean, bget-first, Member, FirstEnds, first-FirstEnds, Once,
  IsCircle-same, NotIn-reverse, reverse-NotIn,
}

-- The buffer `b` is returned: it is busy and holds the block, no other buffer has changed, the order
-- has not, and no block is in two buffers.
pub record Returned (dev blockno : ℕ) (c : Cache) (bs : List ℕ) (b : ℕ) (c' : Cache) : Type 0 where
  pub there : Member b bs
  pub busy : (c' b).busy ≡ true
  pub holds : is_block dev blockno c' b ≡ true
  pub others : (x : ℕ) → x ≢ b → c' x ≡ c x
  pub circle : IsCircle c' bs
  pub once : Once c' bs

-- How `bget` may end. A cached block is kept as it is; a recycled buffer is the least recently used of
-- those that are neither busy nor dirty, and is to be read.
abbrev pub GetEnds : ℕ → ℕ → Cache → List ℕ → Option Got → Type 0
GetEnds dev blockno c bs none =
    (b : ℕ) → Member b bs → (is_block dev blockno c b ≡ false) × (is_clean c b ≡ false)
GetEnds dev blockno c bs (some (sleeps_on b)) =
    Member b bs × (is_block dev blockno c b ≡ true) × ((c b).busy ≡ true)
GetEnds dev blockno c bs (some (got b c')) =
    Returned dev blockno c bs b c'
    × (((is_block dev blockno c b ≡ true)
          × ((c b).busy ≡ false)
          × ((c' b).valid ≡ (c b).valid)
          × ((c' b).dirty ≡ (c b).dirty))
        ⊎ (((x : ℕ) → Member x bs → is_block dev blockno c x ≡ false)
            × (first (is_clean c) (reverse bs) ≡ some b)
            × ((c' b).valid ≡ false)
            × ((c' b).dirty ≡ false)))

found-Returned :
    (dev blockno : ℕ) (c : Cache) (bs : List ℕ) (b : ℕ)
    → IsCircle c bs
    → Once c bs
    → Member b bs
    → is_block dev blockno c b ≡ true
    → Returned dev blockno c bs b (update c b (record (c b) { busy = true }))
found-Returned dev blockno c bs b v once there hit = record {
  there = there;
  busy = ground arith;
  holds = ground (arith, hit);
  others = λ x ne. update_ne c b (record (c b) { busy = true }) x ne;
  circle = IsCircle-same c _ bs (λ x. (ground arith, ground arith)) v;
  once =
      λ x y p q e f lt. once x y p q (ground (arith, e)) (ground (arith, f)) (ground (arith, lt));
}

recycled-Returned :
    (dev blockno : ℕ) (c : Cache) (bs : List ℕ) (b : ℕ)
    → IsCircle c bs
    → Once c bs
    → Member b bs
    → ((x : ℕ) → Member x bs → is_block dev blockno c x ≡ false)
    → Returned dev blockno c bs b (
        update c b (record (c b) {
          dev = dev;
          blockno = blockno;
          busy = true;
          valid = false;
          dirty = false;
        }))
recycled-Returned dev blockno c bs b v once there absent = record {
  there = there;
  busy = ground arith;
  holds = ground arith;
  others = λ x ne. update_ne c b _ x ne;
  circle = IsCircle-same c _ bs (λ x. (ground arith, ground arith)) v;
  once = λ x y p q e f lt. ground (arith, once x y p q, absent x p, absent y q, e, f, lt);
}

-- `bget` on a circle in which no block is cached twice: it panics only if the block is not cached and
-- each buffer is busy or dirty; it sleeps only on a busy buffer that holds the block; and else it
-- returns the one buffer that holds the block, a recycled one only if none did.
pub bget_lem :
    (dev blockno : ℕ) (c : Cache) (bs : List ℕ)
    → IsCircle c bs
    → Once c bs
    → GetEnds dev blockno c bs (bget dev blockno c)
bget_lem dev blockno c bs v once = rw (bget-first dev blockno c bs v) (
    go (first (is_block dev blockno c) bs) (first (is_clean c) (reverse bs)) refl
      (first-FirstEnds (is_block dev blockno c) bs) (first-FirstEnds (is_clean c) (reverse bs)))
  where
    back : (b : ℕ) → Member b (reverse bs) → Member b bs
    back b there out = there (NotIn-reverse b bs out)

    forth : (b : ℕ) → Member b bs → Member b (reverse bs)
    forth b there out = there (reverse-NotIn b bs out)

    go :
        (o r : Option ℕ)
        → first (is_clean c) (reverse bs) ≡ r
        → FirstEnds (is_block dev blockno c) bs o
        → FirstEnds (is_clean c) (reverse bs) r
        → GetEnds dev blockno c bs (or_else (found o c) (recycled dev blockno r c))
    go none none e absent unclean = λ b there. (absent b there, unclean b (forth b there))
    go none (some b) e absent (there, clean) = (
      recycled-Returned dev blockno c bs b v once (back b there) absent,
      inr (absent, e, ground arith, ground arith),
    )
    go (some b) r e (there, hit) clean = elim (Bool-cases (c b).busy) [
      | inl busy ↦ rw busy (there, hit, busy)
      | inr free ↦ rw free (
        found-Returned dev blockno c bs b v once there hit,
        inl (hit, free, ground arith, ground arith),
      )
    ]
