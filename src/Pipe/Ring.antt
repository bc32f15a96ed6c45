-- ===== src/Pipe/Ring.antt =====
-- The bytes that pipe.c holds between `nread` and `nwrite`.
use cpsc.Prelude.{
  ℕ, zero, suc, ◌+◌, ◌-◌, ◌%◌, ◌^◌, ◌≤◌, ◌<◌, ◌≡◌, refl, ap, ap₂, ◌∙◌, ◌≢◌, true, false, List, [],
  ◌∷◌, ◌++◌, update, length, arith,
}
use cpsc.Pipe.{Pipe, pipesize, add32, full, empty, put, get, advance}

-- How many bytes are stored: the `uint` difference of the counters.
abbrev pub size : Pipe → ℕ
size p = (p.nwrite + 2 ^ 32 - p.nread) % 2 ^ 32

pub record IsValid (p : Pipe) : Type 0 where
  pub nread_u32 : p.nread < 2 ^ 32
  pub nwrite_u32 : p.nwrite < 2 ^ 32
  pub fits : size p ≤ pipesize

-- The `n` bytes from counter value `h` on.
abbrev window : (ℕ → ℕ) → ℕ → ℕ → List ℕ
window f h zero = []
window f h (suc n) = f (h % pipesize) ∷ window f (add32 h 1) n

-- The bytes that were written and not yet read, oldest first.
unfoldable pub contents : Pipe → List ℕ
contents p = window p.buffer p.nread (size p)

length-window : (f : ℕ → ℕ) (h n : ℕ) → length (window f h n) ≡ n
length-window f h zero = refl
length-window f h (suc n) = ap suc (length-window f (add32 h 1) n)

pub length-contents : (p : Pipe) → length (contents p) ≡ size p
unfolding contents
length-contents p = length-window p.buffer p.nread (size p)

-- A write at a counter value past a window leaves the window alone.
window-update :
    (f : ℕ → ℕ) (h n k t c : ℕ)
    → t ≡ (h + n + k) % 2 ^ 32
    → n + k < pipesize
    → window (update f (t % pipesize) c) h n ≡ window f h n
window-update f h zero k t c e lt = refl
window-update f h (suc n) k t c e lt =
    ground (arith, window-update f (add32 h 1) n k t c (omega arith) (omega arith), other)
  where
    other : h % pipesize ≢ t % pipesize
    other = omega arith

pub window-snoc :
    (f : ℕ → ℕ) (h n : ℕ)
    → h < 2 ^ 32
    → window f h (suc n) ≡ window f h n ++ f ((h + n) % 2 ^ 32 % pipesize) ∷ []
window-snoc f h zero lt = ap (λ i. f i ∷ []) (omega arith)
window-snoc f h (suc n) lt =
    ap (λ l. f (h % pipesize) ∷ l)
      (window-snoc f (add32 h 1) n (omega arith)
        ∙ ap (λ i. window f (add32 h 1) n ++ f i ∷ []) (omega arith))

-- A put into a pipe that is not full appends the byte, and a get takes the oldest.
module _ {p : Pipe} (v : IsValid p) where
  pub put-IsValid : (c : ℕ) → full p ≡ false → IsValid (put p c) × (size (put p c) ≡ suc (size p))
  put-IsValid c h = ground (arith, v)

  tail-eq-nwrite : (p.nread + size p) % 2 ^ 32 ≡ p.nwrite
  tail-eq-nwrite = omega (arith, v)

  pub contents-put : (c : ℕ) → full p ≡ false → contents (put p c) ≡ contents p ++ c ∷ []
  unfolding contents
  contents-put c h =
      ap (window (put p c).buffer p.nread) (put-IsValid c h).1
      ∙ window-snoc (put p c).buffer p.nread (size p) v.nread_u32
      ∙ ap₂ (λ l b. l ++ b ∷ [])
          (window-update p.buffer p.nread (size p) 0 p.nwrite c (omega (arith, v)) room)
          (rw tail-eq-nwrite (ground arith))
    where
      room : size p + 0 < pipesize
      room = ground (arith, v)

  pub advance-IsValid : empty p ≡ false → IsValid (advance p) × (size p ≡ suc (size (advance p)))
  advance-IsValid h = ground (arith, v)

  pub contents-get : empty p ≡ false → contents p ≡ get p ∷ contents (advance p)
  unfolding contents
  contents-get h = ap (window p.buffer p.nread) (advance-IsValid h).1

  contents-empty : empty p ≡ true → contents p ≡ []
  unfolding contents
  contents-empty h = ap (window p.buffer p.nread) zero_size
    where
      zero_size : size p ≡ 0
      zero_size = ground (arith, v)
