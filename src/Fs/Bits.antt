-- ===== src/Fs/Bits.antt =====
-- Bits of a block that are set and cleared.
use native.Mathlib.Decide.{ℕ_discrete}
use native.Mathlib.Nat.{pow-succ'}
use cpsc.Prelude.{
  ℕ, zero, suc, ◌+◌, ◌-◌, ◌*◌, ◌/◌, ◌%◌, ◌^◌, ◌≤◌, ◌≡◌, ◌∙◌, ap, true, false, ◌==◌, if◌then◌else◌,
  update, update_self, arith,
}
use cpsc.Fs.{Block, bit, get_bit, set_bit, clear_bit}

pow-suc : (k : ℕ) → 2 ^ suc k ≡ 2 * 2 ^ k
pow-suc k = pow-succ' 2 k

bit-le : (v k : ℕ) → bit v k ≤ 1
unfolding bit
bit-le v zero = omega arith
bit-le v (suc k) = bit-le (v / 2) k

bit_added : (v k l : ℕ) → bit v k ≡ 0 → bit (v + 2 ^ k) l ≡ (if l == k then 1 else bit v l)
unfolding bit
bit_added v zero zero h = omega arith
bit_added v zero (suc l) h = rw (half v h) (ground arith)
  where
    half : (v : ℕ) → v % 2 ≡ 0 → (v + 2 ^ 0) / 2 ≡ v / 2
    half v h = omega arith
bit_added v (suc k) zero h = even (2 ^ suc k) (2 ^ k) (pow-suc k) ∙ ground arith
  where
    even : (p q : ℕ) → p ≡ 2 * q → (v + p) % 2 ≡ v % 2
    even p q e = omega arith
bit_added v (suc k) (suc l) h =
    ap (λ n. bit n l) (half (2 ^ suc k) (2 ^ k) (pow-suc k))
    ∙ bit_added (v / 2) k l h
    ∙ ground arith
  where
    half : (p q : ℕ) → p ≡ 2 * q → (v + p) / 2 ≡ v / 2 + q
    half p q e = omega arith

bit_removed :
    (v k l : ℕ) → bit v k ≡ 1 → (2 ^ k ≤ v) × (bit (v - 2 ^ k) l ≡ (if l == k then 0 else bit v l))
unfolding bit
bit_removed v zero zero h = (omega arith, omega arith)
bit_removed v zero (suc l) h = (omega arith, rw (half v h) (ground arith))
  where
    half : (v : ℕ) → v % 2 ≡ 1 → (v - 2 ^ 0) / 2 ≡ v / 2
    half v h = omega arith
bit_removed v (suc k) zero h =
    let (room, rest) = bit_removed (v / 2) k 0 h in
    (omega (arith, pow-suc k, room), even (2 ^ suc k) (2 ^ k) (pow-suc k) room ∙ ground arith)
  where
    even : (p q : ℕ) → p ≡ 2 * q → q ≤ v / 2 → (v - p) % 2 ≡ v % 2
    even p q e room = omega arith
bit_removed v (suc k) (suc l) h =
    let (room, rest) = bit_removed (v / 2) k l h in
    (
      omega (arith, pow-suc k, room),
      ap (λ n. bit n l) (half (2 ^ suc k) (2 ^ k) (pow-suc k) room) ∙ rest ∙ ground arith,
    )
  where
    half : (p q : ℕ) → p ≡ 2 * q → q ≤ v / 2 → (v - p) / 2 ≡ v / 2 - q
    half p q e room = omega arith

-- The bits of a block after one that was clear is set.
pub set_bit_lem :
    (d : Block) (a b : ℕ)
    → get_bit d a ≡ false
    → get_bit (set_bit d a) b ≡ (if b == a then true else get_bit d b)
unfolding get_bit set_bit
set_bit_lem d a b clear = elim (ℕ_discrete (b / 8) (a / 8)) [
  | yes same ↦ rw same (same_byte same)
  | no ne ↦ ground (arith, ne)
]
  where
    zero_bit : bit (d (a / 8)) (a % 8) ≡ 0
    zero_bit = ground (arith, bit-le (d (a / 8)) (a % 8))

    same_byte :
        b / 8 ≡ a / 8
        → (bit (update d (a / 8) (d (a / 8) + 2 ^ (a % 8)) (a / 8)) (b % 8) == 1)
          ≡ (if b == a then true else bit (d (a / 8)) (b % 8) == 1)
    same_byte same =
        rw (update_self d (a / 8) (d (a / 8) + 2 ^ (a % 8)))
          (ground (arith, bit_added (d (a / 8)) (a % 8) (b % 8) zero_bit, zero_bit))

-- The bits of a block after one that was set is cleared.
pub clear_bit_lem :
    (d : Block) (a b : ℕ)
    → get_bit d a ≡ true
    → get_bit (clear_bit d a) b ≡ (if b == a then false else get_bit d b)
unfolding get_bit clear_bit
clear_bit_lem d a b is_set = elim (ℕ_discrete (b / 8) (a / 8)) [
  | yes same ↦ rw same (same_byte same)
  | no ne ↦ ground (arith, ne)
]
  where
    one_bit : bit (d (a / 8)) (a % 8) ≡ 1
    one_bit = ground arith

    same_byte :
        b / 8 ≡ a / 8
        → (bit (update d (a / 8) (d (a / 8) - 2 ^ (a % 8)) (a / 8)) (b % 8) == 1)
          ≡ (if b == a then false else bit (d (a / 8)) (b % 8) == 1)
    same_byte same =
        rw (update_self d (a / 8) (d (a / 8) - 2 ^ (a % 8)))
          (ground (arith, (bit_removed (d (a / 8)) (a % 8) (b % 8) one_bit).1, one_bit))
