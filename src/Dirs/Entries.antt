-- ===== src/Dirs/Entries.antt =====
-- What the loops over a directory find in its entries.
use cpsc.Prelude.{
  ℕ, zero, suc, ◌+◌, ◌*◌, ◌^◌, ◌≤◌, ◌<◌, ◌≡◌, ◌≢◌, ◌∙◌, refl, ap, ◌⊎◌, inl, inr, Bool, true, false,
  ◌||◌, Option, none, some, List, ltb, leb, if◌then◌else◌, arith, Bool-cases,
}
use cpsc.Prelude.Int.{pos}
use cpsc.Fs.{Super, Blocks}
use cpsc.Inodes.{Store}
use cpsc.Content.{readi, DevReads, t_dev}
use cpsc.Content.Reading.{bytes_at, HasBlocks, readable, readi_lem}
use cpsc.Dirs.{dirent_size, scan_dir}

-- The bytes of the entry `j`.
abbrev pub entry_at : (ℕ → ℕ) → Blocks → ℕ → List ℕ
entry_at addr d j = bytes_at 16 (16 * j) addr d

-- The first of `n` entries from `j` on that meets the test, or the end.
unfoldable pub first : (List ℕ → Bool) → (ℕ → List ℕ) → ℕ → ℕ → Option (List ℕ) × ℕ
first test e zero j = (none, 16 * j)
first test e (suc n) j =
    let rest = first test e n (suc j) in if test (e j) then (some (e j), 16 * j) else rest

pub first_found :
    (test : List ℕ → Bool) (e : ℕ → List ℕ) (n j m : ℕ)
    → m < n
    → test (e (j + m)) ≡ true
    → ((l : ℕ) → l < m → test (e (j + l)) ≡ false)
    → first test e n j ≡ (some (e (j + m)), 16 * (j + m))
unfolding first
first_found test e zero j m lt there before = absurd (omega arith)
first_found test e (suc n) j zero lt there before =
    rw (at_j ∙ there) (ap (λ x. (some (e x), 16 * x)) (omega arith))
  where
    at_j : test (e j) ≡ test (e (j + 0))
    at_j = ap (λ x. test (e x)) (omega arith)
first_found test e (suc n) j (suc m) lt there before = rw (at_j ∙ before 0 (omega arith)) (
    first_found test e n (suc j) m (omega arith) (ap (λ x. test (e x)) (omega arith) ∙ there)
      (λ l ll. ap (λ x. test (e x)) (omega arith) ∙ before (suc l) (omega arith))
    ∙ ap (λ x. (some (e x), 16 * x)) (omega arith))
  where
    at_j : test (e j) ≡ test (e (j + 0))
    at_j = ap (λ x. test (e x)) (omega arith)

-- None of the entries meets the test, or `first` is one of them.
pub record NoneOf (test : List ℕ → Bool) (e : ℕ → List ℕ) (n j : ℕ) : Type 0 where
  pub fails : (l : ℕ) → l < n → test (e (j + l)) ≡ false
  pub at_end : first test e n j ≡ (none, 16 * (j + n))

pub first_cases :
    (test : List ℕ → Bool) (e : ℕ → List ℕ) (n j : ℕ)
    → NoneOf test e n j
      ⊎ ((m : ℕ) × (m < n) × (first test e n j ≡ (some (e (j + m)), 16 * (j + m))))
unfolding first
first_cases test e zero j = inl (record {
  fails = λ l lt. absurd (omega arith);
  at_end = ap (λ x. (none, 16 * x)) (omega arith);
})
first_cases test e (suc n) j = elim (Bool-cases (test (e j))) [
  | inl there ↦ inr (0, omega arith, rw there (ap (λ x. (some (e x), 16 * x)) (omega arith)))
  | inr not ↦ elim (first_cases test e n (suc j)) [
    | inl none_of ↦ inl (record {
      fails = later not none_of.fails;
      at_end = rw not (none_of.at_end ∙ ap (λ x. (none, 16 * x)) (omega arith));
    })
    | inr (m, lt, at) ↦
        inr (suc m, omega arith, rw not (at ∙ ap (λ x. (some (e x), 16 * x)) (omega arith)))
  ]
]
  where
    later :
        test (e j) ≡ false
        → ((l : ℕ) → l < n → test (e (suc j + l)) ≡ false)
        → (l : ℕ) → l < suc n
        → test (e (j + l)) ≡ false
    later not rest zero lt = ap (λ x. test (e x)) (omega arith) ∙ not
    later not rest (suc l) lt = ap (λ x. test (e x)) (omega arith) ∙ rest l (omega arith)

-- One entry.
read_one :
    (j : ℕ) (reads : DevReads) (sb : Super) (i : ℕ) (s : Store) (addr : ℕ → ℕ)
    → (s.icache i).type ≢ t_dev
    → (s.icache i).size < 2 ^ 31
    → HasBlocks sb i s addr
    → 16 * j + 16 ≤ (s.icache i).size
    → readi reads sb i (16 * j) dirent_size s ≡ some (pos 16, entry_at addr s.blocks j, s)
read_one j reads sb i s addr no_dev small has within =
    readi_lem reads sb i (16 * j) 16 s addr no_dev (omega arith) (omega arith) (omega arith) has
    ∙ rw (good, whole) refl
  where
    good : (ltb (s.icache i).size (16 * j) || leb (2 ^ 32) (16 * j + 16)) ≡ false
    good = ground arith

    whole : readable (s.icache i).size (16 * j) 16 ≡ 16
    whole = ground arith

-- The loop, in a directory of whole entries.
pub scan_dir-first :
    (k n j : ℕ) (reads : DevReads) (sb : Super) (test : List ℕ → Bool) (i : ℕ) (s : Store)
    (addr : ℕ → ℕ)
    → (s.icache i).type ≢ t_dev
    → (s.icache i).size < 2 ^ 31
    → HasBlocks sb i s addr
    → (s.icache i).size ≡ 16 * (j + n)
    → n < k
    → scan_dir k reads sb test i (16 * j) s
      ≡ some (
        (first test (entry_at addr s.blocks) n j).0,
        (first test (entry_at addr s.blocks) n j).1,
        s,
      )
unfolding scan_dir first
scan_dir-first zero n j reads sb test i s addr no_dev small has whole enough = absurd (omega arith)
scan_dir-first (suc k) zero j reads sb test i s addr no_dev small has whole enough = rw at_end refl
  where
    at_end : ltb (16 * j) (s.icache i).size ≡ false
    at_end = ground (arith, whole)
scan_dir-first (suc k) (suc n) j reads sb test i s addr no_dev small has whole enough =
    rw (inside, read_one j reads sb i s addr no_dev small has (omega arith))
      (elim (Bool-cases (test (entry_at addr s.blocks j))) [
        | inl hit ↦ rw hit refl
        | inr fails ↦ rw fails (
            ap (λ o. scan_dir k reads sb test i o s) next_offset
            ∙ scan_dir-first k n (suc j) reads sb test i s addr no_dev small has (omega arith)
                (omega arith))
      ])
  where
    inside : ltb (16 * j) (s.icache i).size ≡ true
    inside = ground (arith, whole)

    next_offset : 16 * j + dirent_size ≡ 16 * suc j
    next_offset = omega arith
