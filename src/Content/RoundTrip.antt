-- ===== src/Content/RoundTrip.antt =====
-- What `writei` writes `readi` reads.
use mathlib.Core.Path.{subst}
use cpsc.Prelude.{
  ℕ, zero, suc, ◌+◌, ◌^◌, ◌≤◌, ◌<◌, ◌≡◌, ◌≢◌, ◌∙◌, refl, sym, ap, ap₂, true, false, ◌&&◌, ◌||◌,
  Option, some, List, ◌∷◌, ltb, leb, if◌then◌else◌, arith,
}
use cpsc.Prelude.Int.{ℤ, pos}
use cpsc.Fs.{Super, Blocks}
use cpsc.Inodes.{ndirect, Store}
use cpsc.Content.{t_dev, slice, readi, DevReads, DevWrites, grown, writei}
use cpsc.Content.Reading.{bytes_at, HasBlocks, readable, readi_lem}
use cpsc.Content.Layout.{IsLaid, bmap-IsLaid, file_byte, IsLaid-same}
use cpsc.Content.Writing.{Written, grown_inode, grown_blocks, writei-Written}

bytes_at-source :
    (m off j : ℕ) (src : ℕ → ℕ) (addr : ℕ → ℕ) (d : Blocks)
    → ((p : ℕ) → p < m → file_byte addr d (off + p) ≡ src (j + p))
    → bytes_at m off addr d ≡ slice m j src
unfolding bytes_at slice
bytes_at-source zero off j src addr d same = refl
bytes_at-source (suc m) off j src addr d same =
    ap₂ (λ x xs. x ∷ xs)
      (ap (file_byte addr d) (omega arith) ∙ same 0 (omega arith) ∙ ap src (omega arith))
      (bytes_at-source m (off + 1) (j + 1) src addr d (λ p lt.
        ap (file_byte addr d) (omega arith) ∙ same (suc p) (omega arith) ∙ ap src (omega arith)))

pub Written-bytes_at :
    (lim : ℕ) (addr : ℕ → ℕ) (off n : ℕ) (src : ℕ → ℕ) (d d' : Blocks)
    → off + n ≤ lim
    → Written lim addr off n src d d'
    → bytes_at n off addr d' ≡ slice n 0 src
Written-bytes_at lim addr off n src d d' within w =
    bytes_at-source n off 0 src addr d'
      (λ p lt. w.bytes (off + p) (omega arith) ∙ rw (inside p lt) (ap src (omega arith)))
  where
    inside : (p : ℕ) → p < n → (leb off (off + p) && ltb (off + p) (off + n)) ≡ true
    inside p lt = ground arith

-- `readi` of the range that was written, in a store where the file is in its place.
readi-Written :
    (devsw : DevReads) (sb : Super) (i : ℕ) (src : ℕ → ℕ) (off n : ℕ) (s : Store) (d : Blocks)
    (lim : ℕ) (addr : ℕ → ℕ)
    → (s.icache i).type ≢ t_dev
    → (s.icache i).size ≤ lim
    → off + n ≤ (s.icache i).size
    → IsLaid (s.icache i).addrs s.blocks lim addr
    → Written lim addr off n src d s.blocks
    → readi devsw sb i off n s ≡ some (pos n, slice n 0 src, s)
readi-Written devsw sb i src off n s d lim addr no_dev small within v w =
    readi_lem devsw sb i off n s addr no_dev (omega (arith, v.fits)) (omega (arith, v.fits))
      (omega (arith, v.fits)) has
    ∙ rw (good, whole)
        (ap {A = List ℕ} {B = Option (ℤ × List ℕ × Store)} (λ xs. some (pos n, xs, s))
          (Written-bytes_at lim addr off n src d s.blocks (omega arith) w))
  where
    has : HasBlocks sb i s addr
    has q lt = bmap-IsLaid sb i q s lim addr v (omega arith)

    good : (ltb (s.icache i).size off || leb (2 ^ 32) (off + n)) ≡ false
    good = ground (arith, v.fits)

    whole : readable (s.icache i).size off n ≡ n
    whole = ground arith

pub Written-IsLaid :
    (addrs : ℕ → ℕ) (d d' : Blocks) (lim : ℕ) (addr : ℕ → ℕ) (off n : ℕ) (src : ℕ → ℕ)
    → IsLaid addrs d lim addr
    → Written lim addr off n src d d'
    → IsLaid addrs d' lim addr
Written-IsLaid addrs d d' lim addr off n src v w =
    IsLaid-same addrs d d' lim addr v (w.others (addrs ndirect) v.apart)

readi-grown :
    (devsw : DevReads) (sb : Super) (i : ℕ) (src : ℕ → ℕ) (off n : ℕ) (s : Store) (d : Blocks)
    (lim : ℕ) (addr : ℕ → ℕ)
    → (s.icache i).type ≢ t_dev
    → off ≤ (s.icache i).size
    → (s.icache i).size ≤ lim
    → off + n ≤ lim
    → IsLaid (s.icache i).addrs s.blocks lim addr
    → Written lim addr off n src d s.blocks
    → readi devsw sb i off n (grown i n (off + n) s)
      ≡ some (pos n, slice n 0 src, grown i n (off + n) s)
readi-grown devsw sb i src off n s d lim addr no_dev from small within v w =
    readi-Written devsw sb i src off n t d lim addr
      (λ e. no_dev (sym (ap (λ ip. ip.type) inode) ∙ e)) (rw size (ground (arith)))
      (rw size (ground (arith)))
      (subst (λ a. IsLaid a t.blocks lim addr) (sym (ap (λ ip. ip.addrs) inode))
        (subst (λ b. IsLaid (s.icache i).addrs b lim addr) (sym blocks) v))
      (subst (λ b. Written lim addr off n src d b) (sym blocks) w)
  where
    t : Store
    t = grown i n (off + n) s

    inode : t.icache i ≡ record (s.icache i) {
      size = if ltb 0 n && ltb (s.icache i).size (off + n) then off + n else (s.icache i).size;
    }
    inode = grown_inode i n (off + n) s

    blocks : t.blocks ≡ s.blocks
    blocks = grown_blocks i n (off + n) s

    size :
        (t.icache i).size
        ≡ (if ltb 0 n && ltb (s.icache i).size (off + n) then off + n else (s.icache i).size)
    size = ap (λ ip. ip.size) inode

-- A range that `writei` has written `readi` reads, whatever else the file holds: the inode is no
-- device, it has a block for each byte below `lim`, the size and the end of the range are at most
-- `lim`, and the range starts at the size or below. `readi` then returns `n` and the `n` bytes that
-- were at `src`, and changes nothing.
pub readi-writei :
    (reads : DevReads) (writes : DevWrites) (sb : Super) (i : ℕ) (src : ℕ → ℕ) (off n : ℕ)
    (s : Store) (lim : ℕ) (addr : ℕ → ℕ)
    → (s.icache i).type ≢ t_dev
    → off ≤ (s.icache i).size
    → (s.icache i).size ≤ lim
    → off + n ≤ lim
    → IsLaid (s.icache i).addrs s.blocks lim addr
    → (s' : Store) × (writei writes sb i src off n s ≡ some (pos n, s'))
      × (readi reads sb i off n s' ≡ some (pos n, slice n 0 src, s'))
readi-writei reads writes sb i src off n s lim addr no_dev from small within v =
    let (d, run, w) = writei-Written writes sb i src off n s lim addr no_dev from within v in
    (
      grown i n (off + n) (record s { blocks = d }),
      run,
      readi-grown reads sb i src off n (record s { blocks = d }) s.blocks lim addr no_dev from small
          within (Written-IsLaid (s.icache i).addrs s.blocks d lim addr off n src v w) w,
    )
