-- ===== src/Dirs/Link.antt =====
-- What `dirlink` adds `dirlookup` finds.
use cpsc.Prelude.{
  ℕ, suc, ◌+◌, ◌*◌, ◌/◌, ◌≤◌, ◌<◌, ◌≡◌, ◌∙◌, refl, sym, ap, ap₂, inl, inr, Bool, true, false,
  Option, none, some, List, arith, ◌>>=◌,
}
use cpsc.Fs.{Super}
use cpsc.Inodes.{Icache, Store, iget}
use cpsc.Content.{DevReads}
use cpsc.Content.Layout.{IsLaid, bmap-IsLaid}
use cpsc.Dirs.{t_dir, dirent_size, de_inum, matches, is_empty, scan_all, get_inode, dirlookup}
use cpsc.Dirs.Entries.{entry_at, first, first_found, NoneOf, first_cases, scan_dir-first}
use cpsc.Dirs.Names.{written, written_inum, written-matches}

-- A directory of `n` entries that has a block for each byte below `lim`.
pub record IsDirectory (i n lim : ℕ) (addr : ℕ → ℕ) (s : Store) : Type 0 where
  pub type : (s.icache i).type ≡ t_dir
  pub entries : (s.icache i).size ≡ dirent_size * n
  pub within : (s.icache i).size ≤ lim
  pub laid : IsLaid (s.icache i).addrs s.blocks lim addr

pub scan_all-first :
    (reads : DevReads) (sb : Super) (test : List ℕ → Bool) (i n lim : ℕ) (addr : ℕ → ℕ) (s : Store)
    → IsDirectory i n lim addr s
    → scan_all reads sb test i s
      ≡ some (
        (first test (entry_at addr s.blocks) n 0).0,
        (first test (entry_at addr s.blocks) n 0).1,
        s,
      )
scan_all-first reads sb test i n lim addr s v =
    scan_dir-first (suc ((s.icache i).size / dirent_size)) n 0 reads sb test i s addr
      (λ e. absurd (ground (arith, e, v.type))) (omega (arith, v.within, v.laid.fits))
      (λ q lt. bmap-IsLaid sb i q s lim addr v.laid (omega (arith, v.within)))
      (omega (arith, v.entries)) (omega (arith, v.entries))

-- A lookup that returns no inode has met no entry of the name.
is_found : Option (Option (ℕ × ℕ) × Store) → Bool
is_found none = true
is_found (some (none, s)) = false
is_found (some (some r, s)) = true

get_inode-found :
    (x : Option (ℕ × Icache)) (off : ℕ) (s : Store)
    → is_found (x >>= λ (j, c). some (some (off, j), record s { icache = c })) ≡ true
unfolding is_found
get_inode-found none off s = refl
get_inode-found (some (j, c)) off s = refl

dirlookup-first :
    (reads : DevReads) (sb : Super) (name : ℕ → ℕ) (i n lim : ℕ) (addr : ℕ → ℕ) (s : Store)
    → IsDirectory i n lim addr s
    → dirlookup reads sb name i s
      ≡ get_inode (s.icache i).dev (
        (first (matches name) (entry_at addr s.blocks) n 0).0,
        (first (matches name) (entry_at addr s.blocks) n 0).1,
        s,
      )
unfolding dirlookup
dirlookup-first reads sb name i n lim addr s v =
    rw (v.type, scan_all-first reads sb (matches name) i n lim addr s v) refl

pub absent-NoneOf :
    (reads : DevReads) (sb : Super) (name : ℕ → ℕ) (i n lim : ℕ) (addr : ℕ → ℕ) (s : Store)
    → IsDirectory i n lim addr s
    → dirlookup reads sb name i s ≡ some (none, s)
    → NoneOf (matches name) (entry_at addr s.blocks) n 0
unfolding is_found
absent-NoneOf reads sb name i n lim addr s v absent =
    elim (first_cases (matches name) (entry_at addr s.blocks) n 0) [
      | inl none_of ↦ none_of
      | inr (m, lt, at) ↦ absurd (
          contradicts m (
            sym (ap is_found absent)
            ∙ ap is_found (dirlookup-first reads sb name i n lim addr s v)
            ∙ ap (λ r. is_found (get_inode (s.icache i).dev (r.0, r.1, s))) at))
    ]
  where
    contradicts :
        (m : ℕ)
        → false
          ≡ is_found (
              get_inode
                (s.icache i).dev
                (some (entry_at addr s.blocks (0 + m)), dirent_size * (0 + m), s))
        → ⊥
    contradicts m e = absurd (
        ground (
          arith,
          e,
          get_inode-found
              (iget (s.icache i).dev (de_inum (entry_at addr s.blocks (0 + m))) s.icache)
              (dirent_size * (0 + m)) s,
        ))

-- The entry that `dirlink` takes: the first empty one, or the one after the last.
pub empty_entry :
    (e : ℕ → List ℕ) (n : ℕ) → (m : ℕ) × (m ≤ n) × ((first is_empty e n 0).1 ≡ dirent_size * m)
empty_entry e n = elim (first_cases is_empty e n 0) [
  | inl none_of ↦ (n, omega arith, ap (λ r. r.1) none_of.at_end ∙ omega arith)
  | inr (m, lt, at) ↦ (m, omega arith, ap (λ r. r.1) at ∙ omega arith)
]

-- A directory whose first entry of the name is `m`.
pub dirlookup-written :
    (reads : DevReads) (sb : Super) (name : ℕ → ℕ) (inum i n m lim : ℕ) (addr : ℕ → ℕ) (t : Store)
    → IsDirectory i n lim addr t
    → 0 < inum
    → inum < 65536
    → m < n
    → entry_at addr t.blocks m ≡ written name inum
    → ((l : ℕ) → l < m → matches name (entry_at addr t.blocks l) ≡ false)
    → dirlookup reads sb name i t ≡ (do
      (j, c) ← iget (t.icache i).dev inum t.icache
      some (some (dirent_size * m, j), record t { icache = c }))
dirlookup-written reads sb name inum i n m lim addr t v low lt lm here before =
    dirlookup-first reads sb name i n lim addr t v
    ∙ ap (λ r. get_inode (t.icache i).dev (r.0, r.1, t))
        (first_found (matches name) (entry_at addr t.blocks) n 0 m lm
          (ap (matches name) at ∙ written-matches name inum low lt)
          (λ l ll. ap (λ x. matches name (entry_at addr t.blocks x)) (omega arith) ∙ before l ll))
    ∙ ap₂
        (λ x o. (do
          (j, c) ← iget (t.icache i).dev x t.icache
          some (some (o, j), record t { icache = c })))
        (ap de_inum at ∙ written_inum name inum lt) (omega arith)
  where
    at : entry_at addr t.blocks (0 + m) ≡ written name inum
    at = ap (entry_at addr t.blocks) (omega arith) ∙ here
