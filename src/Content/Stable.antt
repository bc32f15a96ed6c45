-- ===== src/Content/Stable.antt =====
-- What `bmap` gives it gives again.
use cpsc.Prelude.{
  ℕ, ◌+◌, ◌-◌, ◌*◌, ◌/◌, ◌%◌, ◌≤◌, ◌<◌, ◌≡◌, ◌≢◌, ◌∙◌, refl, sym, ap, ◌⊎◌, inl, inr, true, false,
  Option, none, some, ◌==◌, ltb, update, update_self, arith, Bool-cases, ◌>>=◌,
}
use cpsc.Fs.{Super, Blocks, bblock, balloc}
use cpsc.Fs.Alloc.{in_use}
use cpsc.Fs.FreeMap.{MapInUse, Allocated, BallocEnds, balloc_lem}
use cpsc.Inodes.{ndirect, nindirect, Store, word}
use cpsc.Content.{set_word, set_addr, addr_block, word_block, bmap}

-- The free map is on the disk and in use, and block 0 is in use.
pub record IsSound (sb : Super) (d : Blocks) : Type 0 where
  pub nonempty : 0 < sb.size
  pub fits : sb.size ≤ 4294967296
  pub on_disk : (x : ℕ) → x < sb.size → bblock x sb < sb.size
  pub map : MapInUse sb d
  pub boot : in_use sb d 0 ≡ true

Allocated-IsSound :
    (sb : Super) (d d' : Blocks) (r : ℕ) → IsSound sb d → Allocated sb d r d' → IsSound sb d'
Allocated-IsSound sb d d' r v a = record {
  nonempty = v.nonempty;
  fits = v.fits;
  on_disk = v.on_disk;
  map = λ x lt. a.map (bblock x sb) (v.on_disk x lt) ∙ ground (arith, v.map x lt);
  boot = a.map 0 v.nonempty ∙ ground (arith, v.boot);
}

Allocated-nonzero :
    (sb : Super) (d d' : Blocks) (r : ℕ) → IsSound sb d → Allocated sb d r d' → r ≢ 0
Allocated-nonzero sb d d' r v a e = differ (ap (in_use sb d) e)
  where
    differ : in_use sb d r ≡ in_use sb d 0 → ⊥
    differ same = ground (arith, same, v.boot, a.was_free)

bytes_of :
    (v : ℕ)
    → v < 4294967296
    → v % 256 + 256 * (v / 256 % 256) + 65536 * (v / 65536 % 256) + 16777216 * (v / 16777216 % 256)
      ≡ v
bytes_of v lt = omega arith

-- What four stores side by side leave.
four_bytes :
    (f : ℕ → ℕ) (p a b c d : ℕ)
    → let g = update (update (update (update f p a) (p + 1) b) (p + 2) c) (p + 3) d in
      g p + 256 * g (p + 1) + 65536 * g (p + 2) + 16777216 * g (p + 3)
      ≡ a + 256 * b + 65536 * c + 16777216 * d
four_bytes f p a b c d = ground arith

word-set_word : (b j v : ℕ) (d : Blocks) → v < 4294967296 → word (set_word b j v d) b j ≡ v
unfolding word set_word
word-set_word b j v d lt =
    ap (λ g. g (4 * j) + 256 * g (4 * j + 1) + 65536 * g (4 * j + 2) + 16777216 * g (4 * j + 3))
      (update_self d b _)
    ∙ four_bytes (d b) (4 * j) (v % 256) (v / 256 % 256) (v / 65536 % 256) (v / 16777216 % 256)
    ∙ bytes_of v lt

-- At most one block is free.
abbrev pub Full : Super → Blocks → Type 0
Full sb d =
    (x y : ℕ) → x < sb.size → y < sb.size → in_use sb d x ≡ false → in_use sb d y ≡ false → x ≡ y

abbrev pub AllUsed : Super → Blocks → Type 0
AllUsed sb d = (x : ℕ) → x < sb.size → in_use sb d x ≡ true

AllUsed-Full : (sb : Super) (d : Blocks) → AllUsed sb d → Full sb d
AllUsed-Full sb d all x y lx ly fx fy = absurd (ground (arith, all x lx, fx))

Allocated-Full :
    (sb : Super) (d d' : Blocks) (r : ℕ) → Allocated sb d r d' → AllUsed sb d' → Full sb d
Allocated-Full sb d d' r made all x y lx ly fx fy = given x lx fx ∙ sym (given y ly fy)
  where
    given : (z : ℕ) → z < sb.size → in_use sb d z ≡ false → z ≡ r
    given z lz fz = ground (arith, made.map z lz, all z lz, fz)

-- What `addr_block` gives is not 0, and it gives it again as long as the inode has it.
abbrev AddrEnds : Super → ℕ → ℕ → Store → Option (ℕ × Store) → Type 0
AddrEnds sb i n s none = AllUsed sb s.blocks
AddrEnds sb i n s (some (a, s')) =
    (a ≢ 0)
    × ((s'.icache i).addrs n ≡ a)
    × IsSound sb s'.blocks
    × (AllUsed sb s'.blocks → Full sb s.blocks)

addr_block-AddrEnds :
    (sb : Super) (i n : ℕ) (s : Store)
    → IsSound sb s.blocks
    → AddrEnds sb i n s (addr_block sb i n s)
unfolding addr_block
addr_block-AddrEnds sb i n s v = elim (Bool-cases ((s.icache i).addrs n == 0)) [
  | inl unset ↦ rw unset (go (balloc sb s.blocks) (balloc_lem sb s.blocks v.map))
  | inr is_set ↦ rw is_set (ground (arith, is_set), refl, v, AllUsed-Full sb s.blocks)
]
  where
    go :
        (o : Option (ℕ × Blocks))
        → BallocEnds sb s.blocks o
        → AddrEnds sb i n s (o >>= λ (a, d). some (a, set_addr i n a (record s { blocks = d })))
    go none all = all
    go (some (a, d)) made = (
      Allocated-nonzero sb s.blocks d a v made,
      ap (λ p. p.addrs n) (update_self s.icache i _) ∙ update_self (s.icache i).addrs n a,
      Allocated-IsSound sb s.blocks d a v made,
      Allocated-Full sb s.blocks d a made,
    )

-- What `word_block` gives is not 0, and is then the word; the inodes are as before.
abbrev WordEnds : Super → ℕ → ℕ → Store → Option (ℕ × Store) → Type 0
WordEnds sb b n s none = AllUsed sb s.blocks
WordEnds sb b n s (some (a, s')) = (a ≢ 0) × (word s'.blocks b n ≡ a) × (s'.icache ≡ s.icache)

word_block-WordEnds :
    (sb : Super) (b n : ℕ) (s : Store)
    → IsSound sb s.blocks
    → WordEnds sb b n s (word_block sb b n s)
unfolding word_block
word_block-WordEnds sb b n s v = elim (Bool-cases (word s.blocks b n == 0)) [
  | inl unset ↦ rw unset (go (balloc sb s.blocks) (balloc_lem sb s.blocks v.map))
  | inr is_set ↦ rw is_set (ground (arith, is_set), refl, refl)
]
  where
    go :
        (o : Option (ℕ × Blocks))
        → BallocEnds sb s.blocks o
        → WordEnds sb b n s (o >>= λ (a, d). some (a, record s { blocks = set_word b n a d }))
    go none all = all
    go (some (a, d)) made = (
      Allocated-nonzero sb s.blocks d a v made,
      word-set_word b n a d (omega (arith, made.below, v.fits)),
      refl,
    )

-- An address that is there is given, and nothing changes.
pub addr_block-again :
    (sb : Super) (i n a : ℕ) (s : Store)
    → a ≢ 0
    → (s.icache i).addrs n ≡ a
    → addr_block sb i n s ≡ some (a, s)
unfolding addr_block
addr_block-again sb i n a s ne e = rw (e, is_set) refl
  where
    is_set : (a == 0) ≡ false
    is_set = ground (arith, ne)

pub word_block-again :
    (sb : Super) (b n a : ℕ) (s : Store)
    → a ≢ 0
    → word s.blocks b n ≡ a
    → word_block sb b n s ≡ some (a, s)
unfolding word_block
word_block-again sb b n a s ne e = rw (e, is_set) refl
  where
    is_set : (a == 0) ≡ false
    is_set = ground (arith, ne)

abbrev pub BmapEnds : Super → ℕ → ℕ → Store → Option (ℕ × Store) → Type 0
BmapEnds sb i bn s none = (ndirect + nindirect ≤ bn) ⊎ Full sb s.blocks
BmapEnds sb i bn s (some (a, s')) =
    (bn < ndirect + nindirect) × (a ≢ 0) × (bmap sb i bn s' ≡ some (a, s'))

-- `bmap` gives an address that is not 0, and it gives the same again and allocates nothing then. It
-- panics only on a number of a block that is not below 140, or if at most one block is free. The
-- free map, which is on the disk, and block 0 are in use.
pub bmap_lem :
    (sb : Super) (i bn : ℕ) (s : Store) → IsSound sb s.blocks → BmapEnds sb i bn s (bmap sb i bn s)
unfolding bmap
bmap_lem sb i bn s v = elim (Bool-cases (ltb bn ndirect)) [
  | inl near ↦ rw near (direct near (addr_block sb i bn s) (addr_block-AddrEnds sb i bn s v))
  | inr far ↦ elim (Bool-cases (ltb (bn - ndirect) nindirect)) [
    | inl within ↦
        rw (far, within)
          (indirect far within (addr_block sb i ndirect s) (addr_block-AddrEnds sb i ndirect s v))
    | inr out ↦ rw (far, out) (inl (ground (arith, far, out)))
  ]
]
  where
    direct :
        ltb bn ndirect ≡ true
        → (o : Option (ℕ × Store)) → AddrEnds sb i bn s o
        → BmapEnds sb i bn s o
    direct near none all = inr (AllUsed-Full sb s.blocks all)
    direct near (some (a, s')) (ne, e, sound, full) =
        (ground (arith, near), ne, rw near (addr_block-again sb i bn a s' ne e))

    second :
        ltb bn ndirect ≡ false
        → ltb (bn - ndirect) nindirect ≡ true
        → (b : ℕ) (s1 : Store) → AddrEnds sb i ndirect s (some (b, s1))
        → (o : Option (ℕ × Store)) → WordEnds sb b (bn - ndirect) s1 o
        → BmapEnds sb i bn s o
    second far within b s1 (ne, e, sound, full) none all = inr (full all)
    second far within b s1 (ne, e, sound, full) (some (a, s')) (na, w, same) = (
      ground (arith, far, within),
      na,
      rw
          (
            far,
            within,
            addr_block-again sb i ndirect b s' ne (ap (λ c. (c i).addrs ndirect) same ∙ e),
          )
          (word_block-again sb b (bn - ndirect) a s' na w),
    )

    indirect :
        ltb bn ndirect ≡ false
        → ltb (bn - ndirect) nindirect ≡ true
        → (o : Option (ℕ × Store)) → AddrEnds sb i ndirect s o
        → BmapEnds sb i bn s (o >>= λ (b, s1). word_block sb b (bn - ndirect) s1)
    indirect far within none all = inr (AllUsed-Full sb s.blocks all)
    indirect far within (some (b, s1)) ends =
        second far within b s1 ends (word_block sb b (bn - ndirect) s1)
          (word_block-WordEnds sb b (bn - ndirect) s1 ends.2)
