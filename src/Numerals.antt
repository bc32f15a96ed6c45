-- ===== src/Numerals.antt =====
-- `printint` of printf.c and `atoi` of ulib.c, over the characters printed and read. An `int` is its
-- bit pattern, below 2 ^ 32.
pub mod Roundtrip
mod Tests
use cpsc.Prelude.{
  ℕ, zero, suc, ◌+◌, ◌-◌, ◌*◌, ◌/◌, ◌%◌, ◌^◌, Bool, true, false, ◌&&◌, List, [], ◌∷◌, ◌==◌, ltb,
  leb, if◌then◌else◌,
}

-- `digits[d]`.
abbrev pub digit : ℕ → ℕ
digit d = if ltb d 10 then 48 + d else 55 + d

-- The loop of `printint`, with the characters in the order in which they are printed.
unfoldable pub print_digits : ℕ → ℕ → ℕ → List ℕ → List ℕ
print_digits zero base x buf = buf
print_digits (suc fuel) base x buf =
    let buf' = digit (x % base) ∷ buf in
    let rest = print_digits fuel base (x / base) buf' in if x / base == 0 then buf' else rest

-- 32 rounds are enough, as each at least halves a number below 2 ^ 32.
unfoldable pub printint : ℕ → ℕ → Bool → List ℕ
printint xx base sgn =
    let neg = sgn && leb (2 ^ 31) xx in
    let x = if neg then 2 ^ 32 - xx else xx in
    let out = print_digits 32 base x [] in if neg then 45 ∷ out else out

-- The loop of `atoi`, up to the NUL at the end of the list.
unfoldable pub atoi_from : ℕ → List ℕ → ℕ
atoi_from n [] = n
atoi_from n (c ∷ cs) =
    let rest = atoi_from ((n * 10 + c + 2 ^ 32 - 48) % 2 ^ 32) cs in
    if leb 48 c && leb c 57 then rest else n

unfoldable pub atoi : List ℕ → ℕ
atoi s = atoi_from 0 s
