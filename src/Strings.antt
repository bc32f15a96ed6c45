-- ===== src/Strings.antt =====
-- string.c: the memory as a byte at each address. A pointer is an address; the callers' regions end
-- below 2 ^ 32, so no pointer wraps.
pub mod Copy
pub mod Compare
pub mod Names
mod Tests
use cpsc.Prelude.{
  ℕ, zero, suc, ◌+◌, ◌-◌, ◌*◌, ◌/◌, ◌%◌, ◌^◌, Bool, true, false, ◌&&◌, ◌||◌, not, Option, none,
  some, ◌==◌, ltb, leb, if◌then◌else◌, update,
}
use cpsc.Prelude.Int.{ℤ, pos, sub_ℕ}

abbrev pub Memory : Type 0
Memory = ℕ → ℕ

-- `rep stosb` and `rep stosl`: `n` bytes, or `n` words with their low byte first.
unfoldable pub stosb : ℕ → ℕ → ℕ → Memory → Memory
stosb addr c zero m = m
stosb addr c (suc n) m = stosb (addr + 1) c n (update m addr (c % 256))

unfoldable pub stosl : ℕ → ℕ → ℕ → Memory → Memory
stosl addr w zero m = m
stosl addr w (suc n) m =
    let m1 = update m addr (w % 256) in
    let m2 = update m1 (addr + 1) (w / 256 % 256) in
    let m3 = update m2 (addr + 2) (w / 65536 % 256) in
    stosl (addr + 4) w n (update m3 (addr + 3) (w / 16777216 % 256))

-- The four bytes of the word do not overlap, so that `|` is a sum.
unfoldable pub memset : ℕ → ℕ → ℕ → Memory → Memory
memset dst c n m =
    let b = c % 256 in
    let words = stosl dst (b * 16777216 + b * 65536 + b * 256 + b) (n / 4) m in
    let bytes = stosb dst c n m in if dst % 4 == 0 && n % 4 == 0 then words else bytes

unfoldable pub memcmp : ℕ → ℕ → ℕ → Memory → ℤ
memcmp s1 s2 zero m = pos 0
memcmp s1 s2 (suc n) m =
    let rest = memcmp (s1 + 1) (s2 + 1) n m in if m s1 == m s2 then rest else sub_ℕ (m s1) (m s2)

-- The two loops of `memmove`: from the ends down, and from the starts up.
unfoldable pub copy_down : ℕ → ℕ → ℕ → Memory → Memory
copy_down d s zero m = m
copy_down d s (suc n) m = copy_down (d - 1) (s - 1) n (update m (d - 1) (m (s - 1)))

unfoldable pub copy_up : ℕ → ℕ → ℕ → Memory → Memory
copy_up d s zero m = m
copy_up d s (suc n) m = copy_up (d + 1) (s + 1) n (update m d (m s))

unfoldable pub memmove : ℕ → ℕ → ℕ → Memory → Memory
memmove dst src n m =
    let down = copy_down (dst + n) (src + n) n m in
    let up = copy_up dst src n m in if ltb src dst && ltb dst (src + n) then down else up

unfoldable pub memcpy : ℕ → ℕ → ℕ → Memory → Memory
memcpy dst src n m = memmove dst src n m

unfoldable pub strncmp : ℕ → ℕ → ℕ → Memory → ℤ
strncmp p q zero m = pos 0
strncmp p q (suc n) m =
    let rest = strncmp (p + 1) (q + 1) n m in
    if not (m p == 0) && m p == m q then rest else sub_ℕ (m p) (m q)

-- The loop of `safestrcpy` with `k` rounds before the last byte, and the NUL after it. The byte
-- after a NUL that was copied is set as well.
unfoldable pub copy_name : ℕ → ℕ → ℕ → Memory → Memory
copy_name s t zero m = update m s 0
copy_name s t (suc k) m =
    let m' = update m s (m t) in
    let rest = copy_name (s + 1) (t + 1) k m' in if m t == 0 then update m' (s + 1) 0 else rest

unfoldable pub safestrcpy : ℕ → ℕ → ℕ → Memory → Memory
safestrcpy s t n m = let copied = copy_name s t (n - 1) m in if n == 0 then m else copied

-- The second loop of `strncpy`, and `strncpy`.
unfoldable pub pad : ℕ → ℕ → Memory → Memory
pad s zero m = m
pad s (suc n) m = pad (s + 1) n (update m s 0)

unfoldable pub strncpy : ℕ → ℕ → ℕ → Memory → Memory
strncpy s t zero m = m
strncpy s t (suc n) m =
    let m' = update m s (m t) in
    let rest = strncpy (s + 1) (t + 1) n m' in if m t == 0 then pad (s + 1) n m' else rest
