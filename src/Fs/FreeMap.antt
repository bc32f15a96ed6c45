-- ===== src/Fs/FreeMap.antt =====
-- What `balloc` and `bfree` do to the free map and to the other blocks.
use native.Mathlib.Decide.{ℕ_discrete}
use cpsc.Prelude.{
  ℕ, ◌+◌, ◌/◌, ◌%◌, ◌<◌, ◌≡◌, ◌≢◌, ◌∙◌, refl, sym, ap, inl, inr, Bool, true, false, Option, none,
  some, ◌==◌, if◌then◌else◌, update, update_self, update_ne, arith, Bool-cases,
}
use cpsc.Fs.{bsize, bpb, Super, Blocks, bblock, get_bit, set_bit, clear_bit, bzero, balloc, bfree}
use cpsc.Fs.Bits.{set_bit_lem, clear_bit_lem}
use cpsc.Fs.Alloc.{in_use, TakeEnds, allocated, balloc_from-TakeEnds}

-- The blocks of the map are themselves in use.
abbrev pub MapInUse : Super → Blocks → Type 0
MapInUse sb d = (x : ℕ) → x < sb.size → in_use sb d (bblock x sb) ≡ true

-- The block `r` was free, the first free one, and is now in use and zero; nothing else is changed
-- but for the bit of `r`.
pub record Allocated (sb : Super) (d : Blocks) (r : ℕ) (d' : Blocks) : Type 0 where
  pub below : r < sb.size
  pub was_free : in_use sb d r ≡ false
  pub first : (x : ℕ) → x < r → in_use sb d x ≡ true
  pub map : (x : ℕ) → x < sb.size → in_use sb d' x ≡ (if x == r then true else in_use sb d x)
  pub zero_bytes : (i : ℕ) → i < bsize → d' r i ≡ 0
  pub others : (c : ℕ) → c ≢ r → c ≢ bblock r sb → d' c ≡ d c

abbrev pub BallocEnds : Super → Blocks → Option (ℕ × Blocks) → Type 0
BallocEnds sb d none = (x : ℕ) → x < sb.size → in_use sb d x ≡ true
BallocEnds sb d (some (r, d')) = Allocated sb d r d'

-- The blocks before `bzero`.
marked-map :
    (sb : Super) (d : Blocks) (r x : ℕ)
    → in_use sb d r ≡ false
    → get_bit (update d (bblock r sb) (set_bit (d (bblock r sb)) (r % bpb)) (bblock x sb)) (x % bpb)
      ≡ (if x == r then true else in_use sb d x)
marked-map sb d r x clear = elim (ℕ_discrete (bblock x sb) (bblock r sb)) [
  | yes same ↦
      ap (λ b. get_bit b (x % bpb))
        (ap (update d (bblock r sb) (set_bit (d (bblock r sb)) (r % bpb))) same
          ∙ update_self d (bblock r sb) (set_bit (d (bblock r sb)) (r % bpb)))
      ∙ set_bit_lem (d (bblock r sb)) (r % bpb) (x % bpb) clear
      ∙ ap (λ a. if x % bpb == r % bpb then true else get_bit (d a) (x % bpb)) (sym same)
      ∙ same_bit same
  | no ne ↦
      ap (λ b. get_bit b (x % bpb))
        (update_ne d (bblock r sb) (set_bit (d (bblock r sb)) (r % bpb)) (bblock x sb) ne)
      ∙ other_block ne
]
  where
    same_bit :
        bblock x sb ≡ bblock r sb
        → (if x % bpb == r % bpb then true else in_use sb d x)
          ≡ (if x == r then true else in_use sb d x)
    same_bit same = ground arith

    other_block :
        bblock x sb ≢ bblock r sb → in_use sb d x ≡ (if x == r then true else in_use sb d x)
    other_block ne = ground (arith, ne)

-- What the bits tell does not see a block that is zeroed, since that block is not of the map.
allocated-map :
    (sb : Super) (d : Blocks) (r x : ℕ)
    → MapInUse sb d
    → x < sb.size
    → in_use sb d r ≡ false
    → in_use sb (allocated r sb d) x ≡ (if x == r then true else in_use sb d x)
unfolding bzero
allocated-map sb d r x marked lt clear =
    ap (λ b. get_bit b (x % bpb))
      (update_ne (update d (bblock r sb) (set_bit (d (bblock r sb)) (r % bpb))) r _ (bblock x sb)
        (λ same. used-clear (marked x lt) (ap (in_use sb d) same ∙ clear)))
    ∙ marked-map sb d r x clear
  where
    used-clear : {b : Bool} → b ≡ true → b ≡ false → ⊥
    used-clear t f = ground (arith, t, f)

allocated-others :
    (sb : Super) (d : Blocks) (r c : ℕ) → c ≢ r → c ≢ bblock r sb → allocated r sb d c ≡ d c
unfolding bzero
allocated-others sb d r c ne nb =
    update_ne (update d (bblock r sb) (set_bit (d (bblock r sb)) (r % bpb))) r _ c ne
    ∙ update_ne d (bblock r sb) (set_bit (d (bblock r sb)) (r % bpb)) c nb

allocated-zero : (sb : Super) (d : Blocks) (r i : ℕ) → i < bsize → allocated r sb d r i ≡ 0
unfolding bzero
allocated-zero sb d r i lt =
    ap (λ b. b i) (update_self (update d (bblock r sb) (set_bit (d (bblock r sb)) (r % bpb))) r _)
    ∙ ground (arith, lt)

allocated-Allocated :
    (sb : Super) (d : Blocks) (r : ℕ)
    → MapInUse sb d
    → r < sb.size
    → in_use sb d r ≡ false
    → ((x : ℕ) → x < r → in_use sb d x ≡ true)
    → Allocated sb d r (allocated r sb d)
allocated-Allocated sb d r marked lt clear before = record {
  below = lt;
  was_free = clear;
  first = before;
  map = λ x b. allocated-map sb d r x marked b clear;
  zero_bytes = λ i b. allocated-zero sb d r i b;
  others = λ c ne nb. allocated-others sb d r c ne nb;
}

-- `balloc` gives the first free block, marked in use and zero, and changes nothing else; it panics
-- only when every block is in use. The blocks of the free map are in use.
pub balloc_lem : (sb : Super) (d : Blocks) → MapInUse sb d → BallocEnds sb d (balloc sb d)
unfolding balloc
balloc_lem sb d marked =
    go _ (balloc_from-TakeEnds (sb.size / bpb + 1) 0 sb d (omega arith) (omega arith))
  where
    go : (o : Option (ℕ × Blocks)) → TakeEnds 0 sb d o → BallocEnds sb d o
    go none all = λ x lt. all x (omega arith) lt
    go (some (r, d')) (lo, lt, clear, before, same) =
        rw same (allocated-Allocated sb d r marked lt clear (λ x c. before x (omega arith) c))

abbrev pub BfreeEnds : ℕ → Super → Blocks → Option Blocks → Type 0
BfreeEnds b sb d none = in_use sb d b ≡ false
BfreeEnds b sb d (some d') =
    (in_use sb d b ≡ true)
    × ((x : ℕ) → in_use sb d' x ≡ (if x == b then false else in_use sb d x))
    × ((c : ℕ) → c ≢ bblock b sb → d' c ≡ d c)

cleared-map :
    (sb : Super) (d : Blocks) (r x : ℕ)
    → in_use sb d r ≡ true
    → in_use sb (update d (bblock r sb) (clear_bit (d (bblock r sb)) (r % bpb))) x
      ≡ (if x == r then false else in_use sb d x)
cleared-map sb d r x is_set = elim (ℕ_discrete (bblock x sb) (bblock r sb)) [
  | yes same ↦
      ap (λ b. get_bit b (x % bpb))
        (ap (update d (bblock r sb) (clear_bit (d (bblock r sb)) (r % bpb))) same
          ∙ update_self d (bblock r sb) (clear_bit (d (bblock r sb)) (r % bpb)))
      ∙ clear_bit_lem (d (bblock r sb)) (r % bpb) (x % bpb) is_set
      ∙ ap (λ a. if x % bpb == r % bpb then false else get_bit (d a) (x % bpb)) (sym same)
      ∙ same_bit same
  | no ne ↦
      ap (λ b. get_bit b (x % bpb))
        (update_ne d (bblock r sb) (clear_bit (d (bblock r sb)) (r % bpb)) (bblock x sb) ne)
      ∙ other_block ne
]
  where
    same_bit :
        bblock x sb ≡ bblock r sb
        → (if x % bpb == r % bpb then false else in_use sb d x)
          ≡ (if x == r then false else in_use sb d x)
    same_bit same = ground arith

    other_block :
        bblock x sb ≢ bblock r sb → in_use sb d x ≡ (if x == r then false else in_use sb d x)
    other_block ne = ground (arith, ne)

-- `bfree` clears the bit of its block and changes nothing else, and panics exactly when the block
-- is free.
pub bfree_lem : (b : ℕ) (sb : Super) (d : Blocks) → BfreeEnds b sb d (bfree b sb d)
unfolding bfree
bfree_lem b sb d = elim (Bool-cases (in_use sb d b)) [
  | inr clear ↦ rw clear clear
  | inl is_set ↦
      rw is_set (is_set, (λ x. cleared-map sb d b x is_set), (λ c ne. update_ne d _ _ c ne))
]

-- After `balloc` gave a block, `bfree` of it does not panic and gives back the free map as it was;
-- the blocks but for the one given and the one of its bit are as before.
bfree-balloc :
    (sb : Super) (d : Blocks) (r : ℕ) (d' : Blocks)
    → MapInUse sb d
    → balloc sb d ≡ some (r, d')
    → (d'' : Blocks) × (bfree r sb d' ≡ some d'')
      × ((x : ℕ) → x < sb.size → in_use sb d'' x ≡ in_use sb d x)
      × ((c : ℕ) → c ≢ r → c ≢ bblock r sb → d'' c ≡ d c)
bfree-balloc sb d r d' marked e = go (bfree r sb d') refl (bfree_lem r sb d')
  where
    ends : (o : Option (ℕ × Blocks)) → balloc sb d ≡ o → BallocEnds sb d o
    ends o h = rw (← h) (balloc_lem sb d marked)

    made : Allocated sb d r d'
    made = ends (some (r, d')) e

    used : in_use sb d' r ≡ true
    used = made.map r made.below ∙ ground arith

    go :
        (o : Option Blocks)
        → bfree r sb d' ≡ o
        → BfreeEnds r sb d' o
        → (d'' : Blocks) × (bfree r sb d' ≡ some d'')
          × ((x : ℕ) → x < sb.size → in_use sb d'' x ≡ in_use sb d x)
          × ((c : ℕ) → c ≢ r → c ≢ bblock r sb → d'' c ≡ d c)
    go none h clear = absurd (ground (arith, used, clear))
    go (some d'') h (is_set, bits, others) = (
      d'',
      h,
      (λ x lt. bits x ∙ merge x (made.map x lt)),
      (λ c ne nb. others c nb ∙ made.others c ne nb),
    )
      where
        merge :
            (x : ℕ)
            → in_use sb d' x ≡ (if x == r then true else in_use sb d x)
            → (if x == r then false else in_use sb d' x) ≡ in_use sb d x
        merge x m = elim (ℕ_discrete x r) [
          | yes same ↦ rw same (ground (arith, made.was_free))
          | no ne ↦ ground (arith, ne, m)
        ]
