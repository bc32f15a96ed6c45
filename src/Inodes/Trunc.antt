-- ===== src/Inodes/Trunc.antt =====
-- `itrunc`: the blocks of an inode, and what is left of them and of the inode.
use cpsc.Prelude.{
  ℕ, zero, suc, ◌+◌, ◌≤◌, ◌<◌, ◌≡◌, ◌≢◌, ◌∙◌, refl, ap₂, false, ◌&&◌, Option, none, some, ◌==◌, ltb,
  leb, if◌then◌else◌, update, update_ne, arith,
}
use cpsc.Fs.{Super, Blocks, bblock, bfree}
use cpsc.Fs.Alloc.{in_use}
use cpsc.Fs.FreeMap.{BfreeEnds, bfree_lem}

-- How often `x` is among the addresses that are not 0, of `k` from `i` on.
unfoldable pub count : (ℕ → ℕ) → ℕ → ℕ → ℕ → ℕ
count f zero i x = 0
count f (suc k) i x = (if f i == 0 then 0 else (if f i == x then 1 else 0)) + count f k (suc i) x

pub count-same :
    (f g : ℕ → ℕ) (k i x : ℕ) → ((j : ℕ) → i ≤ j → f j ≡ g j) → count f k i x ≡ count g k i x
unfolding count
count-same f g zero i x same = refl
count-same f g (suc k) i x same =
    ap₂ (λ a b. (if a == 0 then 0 else (if a == x then 1 else 0)) + b) (same i (omega arith))
      (count-same f g k (suc i) x (λ j le. same j (omega arith)))

-- `c` does not hold the bit of one of the blocks counted.
abbrev pub NotMap : Super → (ℕ → ℕ) → ℕ → Type 0
NotMap sb n c = (x : ℕ) → 0 < n x → c ≢ bblock x sb

-- The blocks counted are free, every other bit of the map is as it was, and so is every block that
-- holds none of their bits.
pub record Freed (sb : Super) (n : ℕ → ℕ) (d d' : Blocks) : Type 0 where
  pub map : (x : ℕ) → in_use sb d' x ≡ (if ltb 0 (n x) then false else in_use sb d x)
  pub others : (c : ℕ) → NotMap sb n c → d' c ≡ d c

-- One of the blocks was free before, or is counted twice.
abbrev pub Spoilt : Super → (ℕ → ℕ) → Blocks → Type 0
Spoilt sb n d = (x : ℕ) × ((if in_use sb d x then 1 else 0) < n x)

abbrev pub FreeEnds : Super → (ℕ → ℕ) → Blocks → Option Blocks → Type 0
FreeEnds sb n d none = Spoilt sb n d
FreeEnds sb n d (some d') = Freed sb n d d'

-- Nothing to free, and one more block to free after another.
pub Freed-none : (sb : Super) (n : ℕ → ℕ) (d : Blocks) → ((x : ℕ) → n x ≡ 0) → Freed sb n d d
Freed-none sb n d nothing = record { map = λ x. ground (arith, nothing x); others = λ c out. refl }

unfoldable pub one : ℕ → ℕ → ℕ
one b x = if b == x then 1 else 0

pub bfree-FreeEnds : (sb : Super) (b : ℕ) (d : Blocks) → FreeEnds sb (one b) d (bfree b sb d)
unfolding one
bfree-FreeEnds sb b d = go (bfree b sb d) (bfree_lem b sb d)
  where
    go : (o : Option Blocks) → BfreeEnds b sb d o → FreeEnds sb (one b) d o
    go none clear = (b, ground (arith, clear))
    go (some d') (was, map, out) = record {
      map = λ x. ground (arith, map x);
      others = λ c not_map. out c (not_map b (ground arith));
    }

pub Freed-join :
    (sb : Super) (m n total : ℕ → ℕ) (d d1 d2 : Blocks)
    → ((x : ℕ) → total x ≡ m x + n x)
    → Freed sb m d d1
    → Freed sb n d1 d2
    → Freed sb total d d2
Freed-join sb m n total d d1 d2 sum p q = record {
  map = λ x. ground (arith, p.map x, q.map x, sum x);
  others = λ c out.
      q.others c (λ x lt. out x (omega (arith, sum x, lt)))
      ∙ p.others c (λ x lt. out x (omega (arith, sum x, lt)));
}

pub Spoilt-join :
    (sb : Super) (m n total : ℕ → ℕ) (d d1 : Blocks)
    → ((x : ℕ) → total x ≡ m x + n x)
    → Freed sb m d d1
    → Spoilt sb n d1
    → Spoilt sb total d
Spoilt-join sb m n total d d1 sum p (x, lt) = (x, ground (arith, p.map x, sum x, lt))

pub Spoilt-more :
    (sb : Super) (m total : ℕ → ℕ) (d : Blocks)
    → ((x : ℕ) → m x ≤ total x)
    → Spoilt sb m d
    → Spoilt sb total d
Spoilt-more sb m total d le (x, lt) = (x, omega (arith, le x))

-- The direct blocks, and the addresses that are left.
abbrev pub cleared : ℕ → ℕ → (ℕ → ℕ) → ℕ → ℕ
cleared k i addrs j = if leb i j && ltb j (i + k) then 0 else addrs j

abbrev pub DirectEnds : Super → ℕ → ℕ → (ℕ → ℕ) → Blocks → Option ((ℕ → ℕ) × Blocks) → Type 0
DirectEnds sb k i addrs d none = Spoilt sb (count addrs k i) d
DirectEnds sb k i addrs d (some (a, d')) =
    Freed sb (count addrs k i) d d' × ((j : ℕ) → a j ≡ cleared k i addrs j)

-- An address 0 is passed over.
pub DirectEnds-skip :
    (sb : Super) (k i : ℕ) (addrs : ℕ → ℕ) (d : Blocks) (o : Option ((ℕ → ℕ) × Blocks))
    → addrs i ≡ 0
    → DirectEnds sb k (suc i) addrs d o
    → DirectEnds sb (suc k) i addrs d o
unfolding count
DirectEnds-skip sb k i addrs d none e (x, lt) = (x, ground (arith, e, lt))
DirectEnds-skip sb k i addrs d (some (a, d')) e (p, q) = (
  record {
    map = λ x. ground (arith, e, p.map x);
    others = λ c out. p.others c (λ x lt. out x (ground (arith, e, lt)));
  },
  λ j. ground (arith, e, q j),
)

pub DirectEnds-Freed :
    (sb : Super) (k i : ℕ) (addrs : ℕ → ℕ) (d d1 : Blocks) (o : Option ((ℕ → ℕ) × Blocks))
    → addrs i ≢ 0
    → Freed sb (one (addrs i)) d d1
    → DirectEnds sb k (suc i) (update addrs i 0) d1 o
    → DirectEnds sb (suc k) i addrs d o
unfolding count one
DirectEnds-Freed sb k i addrs d d1 o nz p ends = go o ends
  where
    same : (x : ℕ) → count (update addrs i 0) k (suc i) x ≡ count addrs k (suc i) x
    same x =
        count-same (update addrs i 0) addrs k (suc i) x
          (λ j le. update_ne addrs i 0 j (omega arith))

    sum :
        (x : ℕ)
        → count addrs (suc k) i x
          ≡ (if addrs i == x then 1 else 0) + count (update addrs i 0) k (suc i) x
    sum x = ground (arith, same x, nz)

    go :
        (o : Option ((ℕ → ℕ) × Blocks))
        → DirectEnds sb k (suc i) (update addrs i 0) d1 o
        → DirectEnds sb (suc k) i addrs d o
    go none spoilt =
        Spoilt-join sb (one (addrs i)) (count (update addrs i 0) k (suc i)) (count addrs (suc k) i)
          d d1 sum p spoilt
    go (some (a, d')) (f, q) = (
      Freed-join sb (one (addrs i)) (count (update addrs i 0) k (suc i)) (count addrs (suc k) i) d
          d1 d' sum p f,
      λ j. ground (arith, q j),
    )
