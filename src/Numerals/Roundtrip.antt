-- ===== src/Numerals/Roundtrip.antt =====
-- What `printint` prints is read back by `atoi`, and fits in its buffer.
use cpsc.Prelude.{
  ℕ, zero, suc, ◌+◌, ◌-◌, ◌*◌, ◌/◌, ◌%◌, ◌^◌, ◌≤◌, ◌<◌, ◌≡◌, ◌∙◌, ap, inl, inr, Bool, true, false,
  ◌&&◌, List, [], ◌∷◌, length, ◌==◌, leb, arith, Bool-cases,
}
use cpsc.Numerals.{digit, print_digits, printint, atoi_from, atoi}

-- `10 ^ k`, by clauses.
unfoldable pub tens : ℕ → ℕ
tens zero = 1
tens (suc k) = 10 * tens k

atoi_digit :
    (n d : ℕ) (rest : List ℕ)
    → d < 10
    → n * 10 + d < 2 ^ 32
    → atoi_from n (digit d ∷ rest) ≡ atoi_from (n * 10 + d) rest
unfolding atoi_from
atoi_digit n d rest small fits = rw (low, range d small) (ap (λ y. atoi_from y rest) (omega arith))
  where
    low : digit d ≡ 48 + d
    low = ground arith

    range : (d : ℕ) → d < 10 → (leb 48 (48 + d) && leb (48 + d) 57) ≡ true
    range d small = ground arith

-- Reading the digits printed for `x` comes to `x` before what stands behind them.
atoi_from-print_digits :
    (fuel x : ℕ) (buf : List ℕ)
    → x < tens fuel
    → x < 2 ^ 32
    → atoi_from 0 (print_digits fuel 10 x buf) ≡ atoi_from x buf
unfolding print_digits tens
atoi_from-print_digits zero x buf enough fits = ap (λ y. atoi_from y buf) (omega arith)
atoi_from-print_digits (suc fuel) x buf enough fits = elim (Bool-cases (x / 10 == 0)) [
  | inl last ↦ rw last (
      atoi_digit 0 (x % 10) buf (omega arith) (omega arith)
      ∙ ap (λ y. atoi_from y buf) (one_digit last))
  | inr more ↦ rw more (
      atoi_from-print_digits fuel (x / 10) (digit (x % 10) ∷ buf) (omega arith) (omega arith)
      ∙ atoi_digit (x / 10) (x % 10) buf (omega arith) (omega arith)
      ∙ ap (λ y. atoi_from y buf) (omega arith))
]
  where
    one_digit : (x / 10 == 0) ≡ true → 0 * 10 + x % 10 ≡ x
    one_digit e = ground arith

length-print_digits :
    (k fuel x : ℕ) (buf : List ℕ)
    → x < tens (suc k)
    → length (print_digits fuel 10 x buf) ≤ length buf + suc k
unfolding print_digits tens
length-print_digits k zero x buf enough = omega arith
length-print_digits zero (suc fuel) x buf enough = rw (last x enough) (omega arith)
  where
    last : (x : ℕ) → x < 10 → (x / 10 == 0) ≡ true
    last x enough = ground arith
length-print_digits (suc k) (suc fuel) x buf enough = elim (Bool-cases (x / 10 == 0)) [
  | inl last ↦ rw last (omega arith)
  | inr more ↦
      rw more
        (omega (arith, length-print_digits k fuel (x / 10) (digit (x % 10) ∷ buf) (omega arith)))
]

-- What `printint` prints in base 10 of a number without a sign is read back by `atoi`.
pub printint_lem : (x : ℕ) → x < 2 ^ 32 → atoi (printint x 10 false) ≡ x
unfolding printint atoi atoi_from tens
printint_lem x fits = atoi_from-print_digits 32 x [] (omega arith) fits

-- What `printint` prints of an `int` in base 10, signed or not, fits in its buffer of 16 bytes.
pub printint_fits : (x : ℕ) (sgn : Bool) → x < 2 ^ 32 → length (printint x 10 sgn) ≤ 16
unfolding printint tens
printint_fits x sgn fits = elim (Bool-cases (sgn && leb (2 ^ 31) x)) [
  | inl neg ↦ rw neg (omega (arith, length-print_digits 9 32 (2 ^ 32 - x) [] (in_range neg)))
  | inr plain ↦ rw plain (omega (arith, length-print_digits 9 32 x [] (omega arith)))
]
  where
    in_range : (sgn && leb (2 ^ 31) x) ≡ true → 2 ^ 32 - x < tens 10
    in_range e = ground arith
