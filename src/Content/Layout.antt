-- ===== src/Content/Layout.antt =====
-- Files whose blocks are all there, each of them one block of the disk.
use cpsc.Prelude.{
  ℕ, ◌+◌, ◌-◌, ◌*◌, ◌/◌, ◌%◌, ◌≤◌, ◌<◌, ◌≡◌, ◌≢◌, ◌∙◌, refl, sym, ap, ap₂, true, false, ◌&&◌, some,
  ltb, leb, if◌then◌else◌, update, update_self, update_ne, arith, Bool-cases, inl, inr,
}
use native.Mathlib.Decide.{ℕ_discrete}
use cpsc.Fs.{Super, Block, Blocks, bsize}
use cpsc.Inodes.{ndirect, nindirect, Store, word}
use cpsc.Content.{bmap, put_bytes, maxfile}
use cpsc.Content.Stable.{addr_block-again, word_block-again}

-- The address of a block of an inode, direct or in the indirect block.
abbrev pub address : (ℕ → ℕ) → Blocks → ℕ → ℕ
address addrs d q = if ltb q ndirect then addrs q else word d (addrs ndirect) (q - ndirect)

-- Below `lim` bytes the inode has its blocks, which are different and not the indirect one.
pub record IsLaid (addrs : ℕ → ℕ) (d : Blocks) (lim : ℕ) (addr : ℕ → ℕ) : Type 0 where
  pub fits : lim ≤ maxfile * bsize
  pub there : (q : ℕ) → bsize * q < lim → address addrs d q ≡ addr q
  pub nonzero : (q : ℕ) → bsize * q < lim → addr q ≢ 0
  pub indirect : ndirect * bsize < lim → addrs ndirect ≢ 0
  pub apart : (q : ℕ) → bsize * q < lim → addrs ndirect ≢ addr q
  pub distinct : (q r : ℕ) → bsize * q < lim → bsize * r < lim → addr q ≡ addr r → q ≡ r

-- `bmap` of a block that is there gives it and changes nothing.
pub bmap-IsLaid :
    (sb : Super) (i q : ℕ) (s : Store) (lim : ℕ) (addr : ℕ → ℕ)
    → IsLaid (s.icache i).addrs s.blocks lim addr
    → bsize * q < lim
    → bmap sb i q s ≡ some (addr q, s)
unfolding bmap
bmap-IsLaid sb i q s lim addr v lt = elim (Bool-cases (ltb q ndirect)) [
  | inl near ↦
      rw near (
        addr_block-again sb i q (addr q) s (v.nonzero q lt)
          (sym (near_address near) ∙ v.there q lt))
  | inr far ↦
      rw
        (
          far,
          within far,
          addr_block-again sb i ndirect ((s.icache i).addrs ndirect) s (v.indirect (large far))
              refl,
        )
        (word_block-again sb ((s.icache i).addrs ndirect) (q - ndirect) (addr q) s (v.nonzero q lt)
          (sym (far_address far) ∙ v.there q lt))
]
  where
    near_address :
        ltb q ndirect ≡ true → address (s.icache i).addrs s.blocks q ≡ (s.icache i).addrs q
    near_address near = rw near refl

    far_address :
        ltb q ndirect ≡ false
        → address (s.icache i).addrs s.blocks q
          ≡ word s.blocks ((s.icache i).addrs ndirect) (q - ndirect)
    far_address far = rw far refl

    within : ltb q ndirect ≡ false → ltb (q - ndirect) nindirect ≡ true
    within far = ground (arith, far, lt, v.fits)

    large : ltb q ndirect ≡ false → ndirect * bsize < lim
    large far = ground (arith, far, lt)

-- The byte `p` of a file.
abbrev pub file_byte : (ℕ → ℕ) → Blocks → ℕ → ℕ
file_byte addr d p = d (addr (p / bsize)) (p % bsize)

-- A write of `m` bytes within a block, as one of bytes of the file.
put_bytes-file :
    (off m p : ℕ) (src f : ℕ → ℕ)
    → off % bsize + m ≤ bsize
    → p / bsize ≡ off / bsize
    → put_bytes m (off % bsize) src f (p % bsize)
      ≡ (if leb off p && ltb p (off + m) then src (p - off) else f (p % bsize))
put_bytes-file off m p src f one e =
    ap₂ (λ b n. if b then src n else f (p % bsize)) (ground arith) (omega arith)

outside :
    (off m p : ℕ)
    → off % bsize + m ≤ bsize
    → p / bsize ≢ off / bsize
    → (leb off p && ltb p (off + m)) ≡ false
outside off m p one ne = ground (arith, ne)

pub file_byte-put_bytes :
    (addrs : ℕ → ℕ) (d : Blocks) (lim : ℕ) (addr : ℕ → ℕ) (off m : ℕ) (src : ℕ → ℕ) (p : ℕ)
    → IsLaid addrs d lim addr
    → off % bsize + m ≤ bsize
    → off < lim
    → p < lim
    → file_byte addr
        (update d (addr (off / bsize)) (put_bytes m (off % bsize) src (d (addr (off / bsize)))))
        p
      ≡ (if leb off p && ltb p (off + m) then src (p - off) else file_byte addr d p)
file_byte-put_bytes addrs d lim addr off m src p v one lo lp =
    elim (ℕ_discrete (p / bsize) (off / bsize)) [
      | yes e ↦
          ap (λ f. f (p % bsize)) (ap (update d b new) (ap addr e) ∙ update_self d b new)
          ∙ put_bytes-file off m p src (d b) one e
          ∙ ap (λ a. if leb off p && ltb p (off + m) then src (p - off) else d a (p % bsize))
              (ap addr (sym e))
      | no ne ↦
          ap (λ f. f (p % bsize))
            (update_ne d b new (addr (p / bsize))
              (λ same. ne (v.distinct (p / bsize) (off / bsize) (omega arith) (omega arith) same)))
          ∙ rw (outside off m p one ne) refl
    ]
  where
    b : ℕ
    b = addr (off / bsize)

    new : Block
    new = put_bytes m (off % bsize) src (d b)

address-same :
    (addrs : ℕ → ℕ) (d d' : Blocks) (q : ℕ)
    → d' (addrs ndirect) ≡ d (addrs ndirect)
    → address addrs d' q ≡ address addrs d q
unfolding word
address-same addrs d d' q same =
    ap
      (λ f.
        if ltb q ndirect
        then addrs q
        else f (4 * (q - ndirect))
          + 256 * f (4 * (q - ndirect) + 1)
          + 65536 * f (4 * (q - ndirect) + 2)
          + 16777216 * f (4 * (q - ndirect) + 3))
      same

-- A change of other blocks than the indirect one keeps the file in its place.
pub IsLaid-same :
    (addrs : ℕ → ℕ) (d d' : Blocks) (lim : ℕ) (addr : ℕ → ℕ)
    → IsLaid addrs d lim addr
    → d' (addrs ndirect) ≡ d (addrs ndirect)
    → IsLaid addrs d' lim addr
IsLaid-same addrs d d' lim addr v same = record {
  fits = v.fits;
  there = λ q lt. address-same addrs d d' q same ∙ v.there q lt;
  nonzero = v.nonzero;
  indirect = v.indirect;
  apart = v.apart;
  distinct = v.distinct;
}
