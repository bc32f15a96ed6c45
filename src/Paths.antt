-- ===== src/Paths.antt =====
-- The paths of fs.c: a path is the list of its bytes up to the NUL, and the name that `skipelem`
-- fills is a buffer of bytes.
pub mod Elements
mod Tests
use cpsc.Prelude.{
  ℕ, zero, suc, ◌+◌, Option, none, some, List, [], ◌∷◌, ◌==◌, leb, if◌then◌else◌, length, update,
}

abbrev pub dirsiz : ℕ
dirsiz = 14

-- The byte `/`.
abbrev pub slash : ℕ
slash = 47

-- The loop past the slashes.
unfoldable pub skip_slashes : List ℕ → List ℕ
skip_slashes [] = []
skip_slashes (c ∷ path) = let rest = skip_slashes path in if c == slash then rest else c ∷ path

-- The loop past an element: what it goes past, and where it stops.
unfoldable pub elem : List ℕ → List ℕ
elem [] = []
elem (c ∷ path) = let rest = elem path in if c == slash then [] else c ∷ rest

unfoldable pub after_elem : List ℕ → List ℕ
after_elem [] = []
after_elem (c ∷ path) = let rest = after_elem path in if c == slash then c ∷ path else rest

-- `memmove` of `n` bytes into the name from index `i` on.
unfoldable pub moved : List ℕ → ℕ → ℕ → (ℕ → ℕ) → ℕ → ℕ
moved s zero i name = name
moved [] (suc n) i name = name
moved (c ∷ s) (suc n) i name = moved s n (suc i) (update name i c)

unfoldable pub set_name : List ℕ → (ℕ → ℕ) → ℕ → ℕ
set_name s name =
    let short = update (moved s (length s) 0 name) (length s) 0 in
    if leb dirsiz (length s) then moved s dirsiz 0 name else short

-- What `skipelem` does once it is past the first slashes.
abbrev pub take_elem : List ℕ → (ℕ → ℕ) → Option (List ℕ × (ℕ → ℕ))
take_elem [] name = none
take_elem (c ∷ path) name =
    some (skip_slashes (after_elem (c ∷ path)), set_name (elem (c ∷ path)) name)

unfoldable pub skipelem : List ℕ → (ℕ → ℕ) → Option (List ℕ × (ℕ → ℕ))
skipelem path name = take_elem (skip_slashes path) name
