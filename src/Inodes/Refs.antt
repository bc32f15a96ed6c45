-- ===== src/Inodes/Refs.antt =====
-- The references to inodes: `iget` and `iput` over the count of each inode.
use native.Mathlib.Decide.{ℕ_discrete}
use cpsc.Prelude.{
  ℕ, zero, suc, ◌+◌, ◌≤◌, ◌<◌, ◌≡◌, ◌≢◌, ◌∙◌, refl, sym, ◌⊎◌, inl, inr, true, false, ◌&&◌, Option,
  none, some, ◌==◌, if◌then◌else◌, update, update_self, update_ne, arith, Bool-cases,
}
use cpsc.Inodes.{
  ninode, Inode, Icache, Scanned, hit, miss, is_inode, remember, scan, reference, recycle, entry_of,
  iget,
}

-- The references that an entry counts for an inode, and those of `k` entries.
abbrev pub counted : ℕ → ℕ → Inode → ℕ
counted dev inum ip = if ip.dev == dev && ip.inum == inum then ip.ref else 0

unfoldable pub refs : ℕ → ℕ → ℕ → Icache → ℕ
refs zero dev inum c = 0
refs (suc k) dev inum c = refs k dev inum c + counted dev inum (c k)

-- No inode is in two entries.
abbrev pub IsUnique : Icache → Type 0
IsUnique c =
    (i j : ℕ)
    → i < ninode
    → j < ninode
    → 0 < (c i).ref
    → 0 < (c j).ref
    → (c i).dev ≡ (c j).dev
    → (c i).inum ≡ (c j).inum
    → i ≡ j

refs-update_out :
    (k dev inum : ℕ) (c : Icache) (i : ℕ) (v : Inode)
    → k ≤ i
    → refs k dev inum (update c i v) ≡ refs k dev inum c
unfolding refs
refs-update_out zero dev inum c i v out = refl
refs-update_out (suc k) dev inum c i v out =
    rw (update_ne c i v k (omega arith), refs-update_out k dev inum c i v (omega arith)) refl

-- What a change of an entry does to the references.
pub refs-update :
    (k dev inum : ℕ) (c : Icache) (i : ℕ) (v : Inode)
    → i < k
    → refs k dev inum (update c i v) + counted dev inum (c i)
      ≡ refs k dev inum c + counted dev inum v
unfolding refs
refs-update zero dev inum c i v lt = absurd (omega arith)
refs-update (suc k) dev inum c i v lt = elim (ℕ_discrete k i) [
  | yes e ↦ rw (e, refs-update_out i dev inum c i v (omega arith), update_self c i v) (omega arith)
  | no ne ↦ rw (update_ne c i v k ne) (omega (arith, refs-update k dev inum c i v (omega arith)))
]

-- No entry from `i` on, up to `k` of them, has the inode.
abbrev Missing : ℕ → ℕ → ℕ → ℕ → Icache → Type 0
Missing k i dev inum c = (j : ℕ) → i ≤ j → j < i + k → is_inode dev inum (c j) ≡ false

abbrev ScanEnds : ℕ → ℕ → Option ℕ → ℕ → ℕ → Icache → Scanned → Type 0
ScanEnds k i empty dev inum c (hit r) = (i ≤ r) × (r < i + k) × (is_inode dev inum (c r) ≡ true)
ScanEnds k i empty dev inum c (miss none) =
    (empty ≡ none) × ((j : ℕ) → i ≤ j → j < i + k → 0 < (c j).ref) × Missing k i dev inum c
ScanEnds k i empty dev inum c (miss (some e)) =
    ((empty ≡ some e) ⊎ ((i ≤ e) × (e < i + k) × ((c e).ref ≡ 0))) × Missing k i dev inum c

Missing-next :
    (k i dev inum : ℕ) (c : Icache)
    → is_inode dev inum (c i) ≡ false
    → Missing k (suc i) dev inum c
    → Missing (suc k) i dev inum c
Missing-next k i dev inum c other rest = λ j lo hi. elim (ℕ_discrete j i) [
  | yes e ↦ rw e other
  | no ne ↦ rest j (omega arith) (omega arith)
]

ScanEnds-next :
    (k i : ℕ) (empty : Option ℕ) (dev inum : ℕ) (c : Icache) (r : Scanned)
    → is_inode dev inum (c i) ≡ false
    → ScanEnds k (suc i) (remember empty i (c i)) dev inum c r
    → ScanEnds (suc k) i empty dev inum c r
ScanEnds-next k i empty dev inum c (hit r) other (lo, hi, is) = (omega arith, omega arith, is)
ScanEnds-next k i none dev inum c (miss none) other (e, all, out) = (
  refl,
  (λ j lo hi. elim (ℕ_discrete j i) [
    | yes same ↦ rw same (ground (arith, e))
    | no ne ↦ all j (omega arith) (omega arith)
  ]),
  Missing-next k i dev inum c other out,
)
ScanEnds-next k i (some x) dev inum c (miss none) other (e, all, out) = absurd (ground (arith, e))
ScanEnds-next k i none dev inum c (miss (some e)) other (inl here, out) =
    (inr (ground (arith, here)), Missing-next k i dev inum c other out)
ScanEnds-next k i (some x) dev inum c (miss (some e)) other (inl here, out) =
    (inl here, Missing-next k i dev inum c other out)
ScanEnds-next k i empty dev inum c (miss (some e)) other (inr (lo, hi, free), out) =
    (inr (omega arith, omega arith, free), Missing-next k i dev inum c other out)

scan-ScanEnds :
    (k i : ℕ) (empty : Option ℕ) (dev inum : ℕ) (c : Icache)
    → ScanEnds k i empty dev inum c (scan k i empty dev inum c)
unfolding scan
scan-ScanEnds zero i none dev inum c =
    (refl, (λ j lo hi. absurd (omega arith)), (λ j lo hi. absurd (omega arith)))
scan-ScanEnds zero i (some e) dev inum c = (inl refl, (λ j lo hi. absurd (omega arith)))
scan-ScanEnds (suc k) i empty dev inum c = elim (Bool-cases (is_inode dev inum (c i))) [
  | inl is ↦ rw is (omega arith, omega arith, is)
  | inr other ↦ rw other (
      ScanEnds-next k i empty dev inum c _ other
        (scan-ScanEnds k (suc i) (remember empty i (c i)) dev inum c))
]

Missing-refs :
    (k dev inum : ℕ) (c : Icache)
    → ((j : ℕ) → j < k → is_inode dev inum (c j) ≡ false)
    → refs k dev inum c ≡ 0
unfolding refs
Missing-refs zero dev inum c out = refl
Missing-refs (suc k) dev inum c out =
    omega (arith, Missing-refs k dev inum c (λ j lt. out j (omega arith)), none_counted)
  where
    none_counted : counted dev inum (c k) ≡ 0
    none_counted = ground (arith, out k (omega arith))

-- An entry of the inode is handed out with one more reference to it; all else is as before.
pub record Given (dev_of inum_of : ℕ) (c : Icache) (i : ℕ) (c' : Icache) : Type 0 where
  pub below : i < ninode
  pub dev : (c' i).dev ≡ dev_of
  pub inum : (c' i).inum ≡ inum_of
  pub held : 0 < (c' i).ref
  pub unique : IsUnique c'
  pub counts :
      (d n : ℕ)
      → refs ninode d n c' ≡ refs ninode d n c + (if dev_of == d && inum_of == n then 1 else 0)
  pub others : (j : ℕ) → j ≢ i → c' j ≡ c j
  pub cached : 0 < refs ninode dev_of inum_of c → c' i ≡ record (c i) { ref = (c i).ref + 1 }

abbrev pub IgetEnds : ℕ → ℕ → Icache → Option (ℕ × Icache) → Type 0
IgetEnds dev inum c none = ((j : ℕ) → j < ninode → 0 < (c j).ref) × (refs ninode dev inum c ≡ 0)
IgetEnds dev inum c (some (i, c')) = Given dev inum c i c'

-- An entry that takes the place of `i` keeps the inodes apart if no other entry has its inode.
pub IsUnique-update :
    (c : Icache) (i : ℕ) (v : Inode)
    → IsUnique c
    → ((j : ℕ) → j < ninode → j ≢ i → 0 < (c j).ref → (c j).dev ≡ v.dev → (c j).inum ≡ v.inum → ⊥)
    → IsUnique (update c i v)
IsUnique-update c i v unique apart a b la lb ra rb d n = elim (ℕ_discrete a i) [
  | yes ea ↦ elim (ℕ_discrete b i) [
    | yes eb ↦ ea ∙ sym eb
    | no nb ↦ absurd (apart b lb nb (ground arith) (ground arith) (ground arith))
  ]
  | no na ↦ elim (ℕ_discrete b i) [
    | yes eb ↦ absurd (apart a la na (ground arith) (ground arith) (ground arith))
    | no nb ↦ unique a b la lb (ground arith) (ground arith) (ground arith) (ground arith)
  ]
]

one_more :
    (dev inum d n : ℕ) (ip : Inode) (x y : ℕ)
    → is_inode dev inum ip ≡ true
    → x + counted d n ip ≡ y + counted d n (record ip { ref = ip.ref + 1 })
    → x ≡ y + (if dev == d && inum == n then 1 else 0)
one_more dev inum d n ip x y is sum = ground arith

hit-Given :
    (dev inum : ℕ) (c : Icache) (i : ℕ)
    → IsUnique c
    → i < ninode
    → is_inode dev inum (c i) ≡ true
    → Given dev inum c i (reference i c)
hit-Given dev inum c i unique lt is = record {
  below = lt;
  dev = ground (arith, is);
  inum = ground (arith, is);
  held = ground arith;
  unique =
      IsUnique-update c i _ unique
        (λ j lj ne rj d n. ne (unique j i lj lt rj (ground (arith, is)) d n));
  counts = λ d n. one_more dev inum d n (c i) _ _ is (refs-update ninode d n c i _ lt);
  others = λ j ne. update_ne c i _ j ne;
  cached = λ some_refs. update_self c i _;
}

miss-Given :
    (dev inum : ℕ) (c : Icache) (i : ℕ)
    → IsUnique c
    → i < ninode
    → (c i).ref ≡ 0
    → ((j : ℕ) → j < ninode → is_inode dev inum (c j) ≡ false)
    → Given dev inum c i (recycle i dev inum c)
miss-Given dev inum c i unique lt free out = record {
  below = lt;
  dev = ground arith;
  inum = ground arith;
  held = ground arith;
  unique =
      IsUnique-update c i _ unique (λ j lj ne rj d n. absurd (ground (arith, out j lj, rj, d, n)));
  counts = λ d n. first_ref d n (c i) _ _ free (refs-update ninode d n c i _ lt);
  others = λ j ne. update_ne c i _ j ne;
  cached = λ some_refs. absurd (omega (arith, Missing-refs ninode dev inum c out));
}
  where
    first_ref :
        (d n : ℕ) (ip : Inode) (x y : ℕ)
        → ip.ref ≡ 0
        → x + counted d n ip
          ≡ y
            + counted d n
                (record ip { dev = dev; inum = inum; ref = 1; busy = false; valid = false })
        → x ≡ y + (if dev == d && inum == n then 1 else 0)
    first_ref d n ip x y free sum = ground arith

-- `iget` hands out the entry of the inode, or else an empty one that becomes its entry, with one
-- more reference to the inode and to no other; it panics only if the inode is not cached and no
-- entry is empty. No inode is in two entries, before and after.
pub iget_lem : (dev inum : ℕ) (c : Icache) → IsUnique c → IgetEnds dev inum c (iget dev inum c)
unfolding iget
iget_lem dev inum c unique =
    go (scan ninode 0 none dev inum c) (scan-ScanEnds ninode 0 none dev inum c)
  where
    go :
        (r : Scanned)
        → ScanEnds ninode 0 none dev inum c r
        → IgetEnds dev inum c (entry_of dev inum r c)
    go (hit i) (lo, hi, is) = hit-Given dev inum c i unique (omega arith) is
    go (miss none) (e, all, out) = (
      (λ j lt. all j (omega arith) (omega arith)),
      Missing-refs ninode dev inum c (λ j lt. out j (omega arith) (omega arith)),
    )
    go (miss (some i)) (inl e, out) = absurd (none_some e)
      where
        none_some : none ≡ some i → ⊥
        none_some e = ground (arith, e)
    go (miss (some i)) (inr (lo, hi, free), out) =
        miss-Given dev inum c i unique (omega arith) free
          (λ j lt. out j (omega arith) (omega arith))
