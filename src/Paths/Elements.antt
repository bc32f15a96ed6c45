-- ===== src/Paths/Elements.antt =====
-- The elements that `skipelem` takes one by one from a path, against the parts between slashes.
use cpsc.Prelude.{
  ℕ, zero, suc, ◌+◌, ◌≤◌, ◌<◌, ◌≡◌, ◌≢◌, ◌∙◌, refl, sym, ap, ap₂, false, Option, none, some, List,
  [], ◌∷◌, ◌==◌, leb, if◌then◌else◌, length, take, update, update_self, update_ne, arith,
  Bool-cases, inl, inr,
}
use cpsc.Paths.{dirsiz, slash, skip_slashes, elem, after_elem, moved, set_name, take_elem, skipelem}

-- The string in the `k` bytes of a buffer from index `i` on.
unfoldable pub name_of : ℕ → ℕ → (ℕ → ℕ) → List ℕ
name_of zero i b = []
name_of (suc k) i b = let rest = name_of k (suc i) b in if b i == 0 then [] else b i ∷ rest

abbrev pub each : Option (List ℕ × (ℕ → ℕ)) → (List ℕ → (ℕ → ℕ) → List (List ℕ)) → List (List ℕ)
each none more = []
each (some (rest, name)) more = name_of dirsiz 0 name ∷ more rest name

-- The names that a loop of `skipelem` finds, in at most `k` rounds.
unfoldable pub elements : ℕ → List ℕ → (ℕ → ℕ) → List (List ℕ)
elements zero path name = []
elements (suc k) path name = each (skipelem path name) (λ rest b. elements k rest b)

-- The parts of a path between its slashes.
abbrev pub push : ℕ → List (List ℕ) → List (List ℕ)
push c [] = (c ∷ []) ∷ []
push c (x ∷ xs) = (c ∷ x) ∷ xs

unfoldable pub split : List ℕ → List (List ℕ)
split [] = [] ∷ []
split (c ∷ path) = if c == slash then [] ∷ split path else push c (split path)

-- The first bytes of the parts that are not empty.
unfoldable pub names : List (List ℕ) → List (List ℕ)
names [] = []
names ([] ∷ xs) = names xs
names ((c ∷ x) ∷ xs) = take dirsiz (c ∷ x) ∷ names xs

abbrev pub NoZero : List ℕ → Type 0
NoZero [] = Unit {0}
NoZero (c ∷ s) = (c ≢ 0) × NoZero s

-- The buffer below index `i` is not touched.
moved-below : (s : List ℕ) (k i : ℕ) (b : ℕ → ℕ) (j : ℕ) → j < i → moved s k i b j ≡ b j
unfolding moved
moved-below s zero i b j lt = refl
moved-below [] (suc k) i b j lt = refl
moved-below (c ∷ s) (suc k) i b j lt =
    moved-below s k (suc i) (update b i c) j (omega arith) ∙ update_ne b i c j (omega arith)

-- What a name reads as, when `k` bytes of a string have been moved to it.
name_of-moved :
    (s : List ℕ) (k i : ℕ) (b : ℕ → ℕ)
    → NoZero s
    → k ≤ length s
    → name_of k i (moved s k i b) ≡ take k s
unfolding moved name_of
name_of-moved s zero i b nz le = refl
name_of-moved [] (suc k) i b nz le = absurd (omega arith)
name_of-moved (c ∷ s) (suc k) i b (ne, nz) le =
    rw (moved-below s k (suc i) (update b i c) i (omega arith), update_self b i c, nonzero c ne)
      (ap (λ x. c ∷ x) (name_of-moved s k (suc i) (update b i c) nz (omega arith)))
  where
    nonzero : (c : ℕ) → c ≢ 0 → (c == 0) ≡ false
    nonzero c ne = ground arith

-- What it reads as when the string is short and a NUL ends it.
name_of-ended :
    (s : List ℕ) (k i e : ℕ) (b : ℕ → ℕ)
    → NoZero s
    → length s < k
    → e ≡ i + length s
    → name_of k i (update (moved s (length s) i b) e 0) ≡ s
unfolding moved name_of
name_of-ended s zero i e b nz lt at = absurd (omega arith)
name_of-ended [] (suc k) i e b nz lt at = rw (nul i e b (omega arith)) refl
  where
    nul : (i e : ℕ) (b : ℕ → ℕ) → i ≡ e → update b e 0 i ≡ 0
    nul i e b at = ground arith
name_of-ended (c ∷ s) (suc k) i e b (ne, nz) lt at =
    rw (stored, nonzero c ne)
      (ap (λ x. c ∷ x) (name_of-ended s k (suc i) e (update b i c) nz (omega arith) (omega arith)))
  where
    stored : update (moved s (length s) (suc i) (update b i c)) e 0 i ≡ c
    stored =
        update_ne (moved s (length s) (suc i) (update b i c)) e 0 i (omega arith)
        ∙ moved-below s (length s) (suc i) (update b i c) i (omega arith)
        ∙ update_self b i c

    nonzero : (c : ℕ) → c ≢ 0 → (c == 0) ≡ false
    nonzero c ne = ground arith

take_all : (k : ℕ) (s : List ℕ) → length s ≤ k → take k s ≡ s
take_all zero [] le = refl
take_all zero (c ∷ s) le = absurd (omega arith)
take_all (suc k) [] le = refl
take_all (suc k) (c ∷ s) le = ap (λ x. c ∷ x) (take_all k s (omega arith))

name_of-set_name :
    (s : List ℕ) (b : ℕ → ℕ) → NoZero s → name_of dirsiz 0 (set_name s b) ≡ take dirsiz s
unfolding set_name
name_of-set_name s b nz = elim (Bool-cases (leb dirsiz (length s))) [
  | inl long ↦ rw long (name_of-moved s dirsiz 0 b nz (ground (arith, long)))
  | inr short ↦ rw short (
      name_of-ended s dirsiz 0 (length s) b nz (ground (arith, short)) (omega arith)
      ∙ sym (take_all dirsiz s (ground (arith, short))))
]

-- The first slashes are before the first part that is not empty.
names-skip_slashes : (path : List ℕ) → names (split (skip_slashes path)) ≡ names (split path)
unfolding skip_slashes split names
names-skip_slashes [] = refl
names-skip_slashes (c ∷ path) = elim (Bool-cases (c == slash)) [
  | inl is ↦ rw is (names-skip_slashes path)
  | inr other ↦ rw other (rw other refl)
]

-- The first part is the element, and the parts that come after it those of the rest.
split-elem :
    (path : List ℕ)
    → (xs : List (List ℕ)) × (split path ≡ elem path ∷ xs)
      × (names (split (after_elem path)) ≡ names xs)
unfolding split elem after_elem names
split-elem [] = ([], refl, refl)
split-elem (c ∷ path) =
    let (xs, parts, rest) = split-elem path in
    elim (Bool-cases (c == slash)) [
      | inl is ↦ (split path, rw is refl, rw is (rw is refl))
      | inr other ↦ (xs, rw (other, parts) refl, rw other rest)
    ]

-- A path that begins with no slash.
abbrev Started : List ℕ → Type 0
Started [] = Unit {0}
Started (c ∷ path) = (c == slash) ≡ false

-- What the loops leave of a path is shorter and has no NUL either.
abbrev Shorter : List ℕ → List ℕ → Type 0
Shorter path rest = (length rest ≤ length path) × (NoZero path → NoZero rest)

skip_slashes-Shorter : (path : List ℕ) → Shorter path (skip_slashes path)
unfolding skip_slashes
skip_slashes-Shorter [] = (omega arith, λ nz. nz)
skip_slashes-Shorter (c ∷ path) = elim (Bool-cases (c == slash)) [
  | inl is ↦
      let (less, kept) = skip_slashes-Shorter path in rw is (omega (arith, less), λ nz. kept nz.1)
  | inr other ↦ rw other (omega arith, λ nz. nz)
]

skip_slashes-Started : (path : List ℕ) → Started (skip_slashes path)
unfolding skip_slashes
skip_slashes-Started [] = tt
skip_slashes-Started (c ∷ path) = elim (Bool-cases (c == slash)) [
  | inl is ↦ rw is (skip_slashes-Started path)
  | inr other ↦ rw other other
]

after_elem-Shorter : (path : List ℕ) → Shorter path (after_elem path)
unfolding after_elem
after_elem-Shorter [] = (omega arith, λ nz. nz)
after_elem-Shorter (c ∷ path) = elim (Bool-cases (c == slash)) [
  | inl is ↦ rw is (omega arith, λ nz. nz)
  | inr other ↦
      let (less, kept) = after_elem-Shorter path in rw other (omega (arith, less), λ nz. kept nz.1)
]

elem-NoZero : (path : List ℕ) → NoZero path → NoZero (elem path)
unfolding elem
elem-NoZero [] nz = tt
elem-NoZero (c ∷ path) (ne, nz) = elim (Bool-cases (c == slash)) [
  | inl is ↦ rw is tt
  | inr other ↦ rw other (ne, elem-NoZero path nz)
]

-- One round of the loop takes the first part that is not empty.
names-elem :
    (c : ℕ) (path : List ℕ)
    → (c == slash) ≡ false
    → names (split (c ∷ path))
      ≡ take dirsiz (elem (c ∷ path)) ∷ names (split (skip_slashes (after_elem (c ∷ path))))
unfolding elem names
names-elem c path other =
    let (xs, parts, rest) = split-elem (c ∷ path) in
    ap names parts
    ∙ rw other refl
    ∙ ap (λ l. take dirsiz (elem (c ∷ path)) ∷ l)
        (sym rest ∙ sym (names-skip_slashes (after_elem (c ∷ path))))

-- After a round of the loop the path is shorter.
round-Shorter :
    (c : ℕ) (path : List ℕ)
    → (c == slash) ≡ false
    → Shorter path (skip_slashes (after_elem (c ∷ path)))
unfolding after_elem
round-Shorter c path other =
    let (less, kept) = after_elem-Shorter path in
    let (less1, kept1) = skip_slashes-Shorter (after_elem path) in
    rw other (omega (arith, less, less1), λ nz. kept1 (kept nz))

-- One round and those after it.
each-names :
    (q : List ℕ) (b : ℕ → ℕ) (more : List ℕ → (ℕ → ℕ) → List (List ℕ))
    → Started q
    → NoZero q
    → ((rest : List ℕ) (b' : ℕ → ℕ)
        → NoZero rest
        → length rest < length q
        → more rest b' ≡ names (split rest))
    → each (take_elem q b) more ≡ names (split q)
unfolding split names
each-names [] b more started nz next = refl
each-names (c ∷ q) b more started nz next =
    let (less, kept) = round-Shorter c q started in
    ap₂ (λ x xs. x ∷ xs) (name_of-set_name (elem (c ∷ q)) b (elem-NoZero (c ∷ q) nz))
      (next (skip_slashes (after_elem (c ∷ q))) (set_name (elem (c ∷ q)) b) (kept nz.1)
        (omega (arith, less)))
    ∙ sym (names-elem c q started)

-- The elements that `skipelem` gives are the parts of the path between its slashes that are not
-- empty, each cut to the 14 bytes of a name; the rounds end with the path.
pub elements_lem :
    (k : ℕ) (path : List ℕ) (b : ℕ → ℕ)
    → NoZero path
    → length path < k
    → elements k path b ≡ names (split path)
unfolding elements skipelem
elements_lem zero path b nz lt = absurd (omega arith)
elements_lem (suc k) path b nz lt =
    let (less, kept) = skip_slashes-Shorter path in
    each-names (skip_slashes path) b (λ rest b'. elements k rest b') (skip_slashes-Started path)
      (kept nz)
      (λ rest b' clean shorter. elements_lem k rest b' clean (omega (arith, shorter, less)))
    ∙ names-skip_slashes path
