-- ===== src/Inodes/Fresh.antt =====
-- `ialloc` of fs.c: a new inode on the disk and its entry in the cache.
use cpsc.Prelude.{
  ℕ, zero, suc, ◌+◌, ◌≤◌, ◌<◌, ◌≡◌, ◌≢◌, ◌∙◌, refl, ap, ◌⊎◌, Option, none, some, ◌==◌, ltb,
  if◌then◌else◌, update, update_self, update_ne, arith, Bool-cases, inl, inr, ◌>>=◌,
}
use native.Mathlib.Decide.{ℕ_discrete}
use cpsc.Fs.{Super}
use cpsc.Inodes.{ninode, Dinode, Icache, Store, iget}
use cpsc.Inodes.Refs.{IsUnique, Given, IgetEnds, iget_lem}

-- A zeroed inode with its type.
abbrev pub typed : ℕ → Dinode
typed type = record { type = type; major = 0; minor = 0; nlink = 0; size = 0; addrs = λ a. 0 }

abbrev pub set_dinode : ℕ → ℕ → Dinode → Store → Store
set_dinode dev inum d s = record s {
  dinodes = update s.dinodes dev (update (s.dinodes dev) inum d);
}

abbrev pub claimed : ℕ → ℕ → ℕ → Store → Option (ℕ × Store)
claimed dev inum type s = do
  (i, c) ← iget dev inum s.icache
  some (i, record (set_dinode dev inum (typed type) s) { icache = c })

-- The loop of `ialloc`, at most `k` rounds from its end.
unfoldable pub ialloc_from : ℕ → ℕ → Super → ℕ → ℕ → Store → Option (ℕ × Store)
ialloc_from zero inum sb dev type s = none
ialloc_from (suc k) inum sb dev type s =
    let rest = ialloc_from k (suc inum) sb dev type s in
    let here = claimed dev inum type s in
    if ltb inum sb.ninodes then (if (s.dinodes dev inum).type == 0 then here else rest) else none

unfoldable pub ialloc : Super → ℕ → ℕ → Store → Option (ℕ × Store)
ialloc sb dev type s = ialloc_from sb.ninodes 1 sb dev type s

-- The inode `inum` was the first free one from `low` on; it is now typed on the disk, and its entry
-- has one more reference.
pub record Fresh (low : ℕ) (sb : Super) (of_dev of_type : ℕ) (s : Store) (i : ℕ) (s' : Store)
    : Type 0 where
  pub inum : ℕ
  pub above : low ≤ inum
  pub below : inum < sb.ninodes
  pub was_free : (s.dinodes of_dev inum).type ≡ 0
  pub first : (x : ℕ) → low ≤ x → x < inum → (s.dinodes of_dev x).type ≢ 0
  pub entry : Given of_dev inum s.icache i s'.icache
  pub on_disk : s'.dinodes of_dev inum ≡ typed of_type
  pub others : (x : ℕ) → x ≢ inum → s'.dinodes of_dev x ≡ s.dinodes of_dev x
  pub blocks : s'.blocks ≡ s.blocks

abbrev pub IallocEnds : ℕ → Super → ℕ → ℕ → Store → Option (ℕ × Store) → Type 0
IallocEnds low sb dev type s none =
    ((x : ℕ) → low ≤ x → x < sb.ninodes → (s.dinodes dev x).type ≢ 0)
    ⊎ ((j : ℕ) → j < ninode → 0 < (s.icache j).ref)
IallocEnds low sb dev type s (some (i, s')) = Fresh low sb dev type s i s'

IallocEnds-next :
    (low : ℕ) (sb : Super) (dev type : ℕ) (s : Store) (o : Option (ℕ × Store))
    → (s.dinodes dev low).type ≢ 0
    → IallocEnds (suc low) sb dev type s o
    → IallocEnds low sb dev type s o
IallocEnds-next low sb dev type s none used (inr full) = inr full
IallocEnds-next low sb dev type s none used (inl all) =
    inl (λ x lo hi. elim (ℕ_discrete x low) [ yes e ↦ rw e used | no ne ↦ all x (omega arith) hi ])
IallocEnds-next low sb dev type s (some (i, s')) used f = record {
  inum = f.inum;
  above = omega (arith, f.above);
  below = f.below;
  was_free = f.was_free;
  first =
      λ x lo hi. elim (ℕ_discrete x low) [ yes e ↦ rw e used | no ne ↦ f.first x (omega arith) hi ];
  entry = f.entry;
  on_disk = f.on_disk;
  others = f.others;
  blocks = f.blocks;
}

claimed-IallocEnds :
    (low : ℕ) (sb : Super) (dev type : ℕ) (s : Store)
    → IsUnique s.icache
    → low < sb.ninodes
    → (s.dinodes dev low).type ≡ 0
    → IallocEnds low sb dev type s (claimed dev low type s)
claimed-IallocEnds low sb dev type s unique lt free =
    go (iget dev low s.icache) (iget_lem dev low s.icache unique)
  where
    go :
        (o : Option (ℕ × Icache))
        → IgetEnds dev low s.icache o
        → IallocEnds low sb dev type s
            (o >>= λ (i, c). some (i, record (set_dinode dev low (typed type) s) { icache = c }))
    go none (full, zeros) = inr full
    go (some (i, c)) given = record {
      inum = low;
      above = omega arith;
      below = lt;
      was_free = free;
      first = λ x lo hi. absurd (omega arith);
      entry = given;
      on_disk =
          ap (λ f. f low) (update_self s.dinodes dev _)
          ∙ update_self (s.dinodes dev) low (typed type);
      others = λ x ne.
          ap (λ f. f x) (update_self s.dinodes dev _)
          ∙ update_ne (s.dinodes dev) low (typed type) x ne;
      blocks = refl;
    }

ialloc_from-IallocEnds :
    (k low : ℕ) (sb : Super) (dev type : ℕ) (s : Store)
    → IsUnique s.icache
    → sb.ninodes ≤ low + k
    → IallocEnds low sb dev type s (ialloc_from k low sb dev type s)
unfolding ialloc_from
ialloc_from-IallocEnds zero low sb dev type s unique enough = inl (λ x lo hi. absurd (omega arith))
ialloc_from-IallocEnds (suc k) low sb dev type s unique enough =
    elim (Bool-cases (ltb low sb.ninodes)) [
      | inr past ↦ rw past (inl (λ x lo hi. absurd (ground (arith, past))))
      | inl within ↦ elim (Bool-cases ((s.dinodes dev low).type == 0)) [
        | inl free ↦
            rw (within, free)
              (claimed-IallocEnds low sb dev type s unique (ground (arith, within))
                (ground (arith, free)))
        | inr used ↦
            rw (within, used)
              (IallocEnds-next low sb dev type s _ (λ e. absurd (ground (arith, used, e)))
                (ialloc_from-IallocEnds k (suc low) sb dev type s unique (omega arith)))
      ]
    ]

-- `ialloc` hands out the first inode from 1 on that is free on the disk, with its type and all else
-- of it zero there, and one more reference to it and to no other inode; it panics only if no inode
-- is free or the cache has no empty entry. No inode is in two entries.
pub ialloc_lem :
    (sb : Super) (dev type : ℕ) (s : Store)
    → IsUnique s.icache
    → IallocEnds 1 sb dev type s (ialloc sb dev type s)
unfolding ialloc
ialloc_lem sb dev type s unique =
    ialloc_from-IallocEnds sb.ninodes 1 sb dev type s unique (omega arith)
