-- ===== src/Content/Writing.antt =====
-- What `writei` writes to a file that has a block for each of its bytes.
use native.Mathlib.Decide.{dec_lt}
use cpsc.Prelude.{
  ℕ, zero, suc, ◌+◌, ◌-◌, ◌*◌, ◌/◌, ◌%◌, ◌^◌, ◌≤◌, ◌<◌, ◌≡◌, ◌≢◌, ◌∙◌, refl, ap, false, ◌&&◌, ◌||◌,
  some, ◌==◌, ltb, leb, if◌then◌else◌, update, update_self, update_ne, arith, Bool-cases, inl, inr,
}
use cpsc.Prelude.Int.{pos}
use cpsc.Fs.{Super, Blocks, bsize}
use cpsc.Inodes.{ndirect, Store, iupdate}
use cpsc.Content.{t_dev, put_bytes, write_loop, maxfile, DevWrites, grown, writei}
use cpsc.Content.Reading.{part, part_fits, more_left}
use cpsc.Content.Layout.{IsLaid, bmap-IsLaid, file_byte, file_byte-put_bytes, IsLaid-same}

-- The `n` bytes of the file from `off` on are those at `src`, the other ones below `lim` are as
-- before, and so are the blocks that are not the file's.
pub record Written (lim : ℕ) (addr : ℕ → ℕ) (off n : ℕ) (src : ℕ → ℕ) (d d' : Blocks) : Type 0 where
  pub bytes :
      (p : ℕ)
      → p < lim
      → file_byte addr d' p
        ≡ (if leb off p && ltb p (off + n) then src (p - off) else file_byte addr d p)
  pub others : (c : ℕ) → ((q : ℕ) → bsize * q < lim → c ≢ addr q) → d' c ≡ d c

Written-none :
    (lim : ℕ) (addr : ℕ → ℕ) (off : ℕ) (src : ℕ → ℕ) (d : Blocks) → Written lim addr off 0 src d d
Written-none lim addr off src d = record { bytes = λ p lt. ground arith; others = λ c apart. refl }

-- Two stretches of bytes, one after the other.
joined :
    (off m left p : ℕ) (src : ℕ → ℕ) (x y z : ℕ)
    → m ≤ left
    → x ≡ (if leb (off + m) p && ltb p (off + m + (left - m)) then src (m + (p - (off + m))) else y)
    → y ≡ (if leb off p && ltb p (off + m) then src (p - off) else z)
    → x ≡ (if leb off p && ltb p (off + left) then src (p - off) else z)
joined off m left p src x y z le hx hy = elim (dec_lt p (off + m)) [
  | yes near ↦ ground (arith, near, hx, hy)
  | no far ↦ ground (arith, far, hx, hy, ap src (after_part far))
]
  where
    after_part : ¬ (p < off + m) → m + (p - (off + m)) ≡ p - off
    after_part far = omega arith

Written-part :
    (addrs : ℕ → ℕ) (lim : ℕ) (addr : ℕ → ℕ) (off m left : ℕ) (src : ℕ → ℕ) (d d' : Blocks)
    → IsLaid addrs d lim addr
    → off % bsize + m ≤ bsize
    → m ≤ left
    → off < lim
    → Written lim addr
        (off + m)
        (left - m)
        (λ j. src (m + j))
        (update d (addr (off / bsize)) (put_bytes m (off % bsize) src (d (addr (off / bsize)))))
        d'
    → Written lim addr off left src d d'
Written-part addrs lim addr off m left src d d' v one le lo w = record {
  bytes = λ p lp.
      joined off m left p src _ _ _ le (w.bytes p lp)
        (file_byte-put_bytes addrs d lim addr off m src p v one lo lp);
  others = λ c apart.
      w.others c apart ∙ update_ne d (addr (off / bsize)) _ c (apart (off / bsize) (omega arith));
}

-- The store after the part of a block that a round writes.
abbrev put_part : ℕ → ℕ → (ℕ → ℕ) → Store → (ℕ → ℕ) → Store
put_part left off src s addr =
    let a = addr (off / bsize) in
    let b = put_bytes (part left off) (off % bsize) src (s.blocks a) in
    record s { blocks = update s.blocks a b }

WrittenEnd : ℕ → Super → ℕ → ℕ → ℕ → (ℕ → ℕ) → Store → ℕ → (ℕ → ℕ) → Type 0
WrittenEnd k sb i off left src s lim addr =
    (d : Blocks) × (write_loop k sb i off left src s ≡ some (off + left, record s { blocks = d }))
    × Written lim addr off left src s.blocks d

WrittenEnd-part :
    (k : ℕ) (sb : Super) (i off left : ℕ) (src : ℕ → ℕ) (s : Store) (lim : ℕ) (addr : ℕ → ℕ)
    → IsLaid (s.icache i).addrs s.blocks lim addr
    → off < lim
    → WrittenEnd k sb i
        (off + part left off)
        (suc left - part left off)
        (λ j. src (part left off + j))
        (put_part left off src s addr)
        lim
        addr
    → WrittenEnd (suc k) sb i off (suc left) src s lim addr
unfolding write_loop WrittenEnd
WrittenEnd-part k sb i off left src s lim addr v lo (d, run, w) = (
  d,
  rw (bmap-IsLaid sb i (off / bsize) s lim addr v (omega arith)) (
      rw (more_left left)
        (run ∙ ap (λ n. some (n, record s { blocks = d })) (omega (arith, part_fits left off)))),
  Written-part (s.icache i).addrs lim addr off (part left off) (suc left) src s.blocks d v
      (part_fits left off).2 (part_fits left off).1 lo w,
)

put_part-IsLaid :
    (i off left : ℕ) (src : ℕ → ℕ) (s : Store) (lim : ℕ) (addr : ℕ → ℕ)
    → IsLaid (s.icache i).addrs s.blocks lim addr
    → off < lim
    → IsLaid (s.icache i).addrs (put_part left off src s addr).blocks lim addr
put_part-IsLaid i off left src s lim addr v lo =
    IsLaid-same (s.icache i).addrs s.blocks _ lim addr v (
      update_ne s.blocks (addr (off / bsize)) _ ((s.icache i).addrs ndirect)
        (v.apart (off / bsize) (omega arith)))

write_loop-WrittenEnd :
    (k : ℕ) (sb : Super) (i off left : ℕ) (src : ℕ → ℕ) (s : Store) (lim : ℕ) (addr : ℕ → ℕ)
    → IsLaid (s.icache i).addrs s.blocks lim addr
    → off + left ≤ lim
    → left ≤ k
    → WrittenEnd k sb i off left src s lim addr
unfolding write_loop WrittenEnd
write_loop-WrittenEnd zero sb i off zero src s lim addr v le enough =
    (s.blocks, ap (λ n. some (n, s)) (omega arith), Written-none lim addr off src s.blocks)
write_loop-WrittenEnd zero sb i off (suc left) src s lim addr v le enough = absurd (omega arith)
write_loop-WrittenEnd (suc k) sb i off zero src s lim addr v le enough =
    (s.blocks, ap (λ n. some (n, s)) (omega arith), Written-none lim addr off src s.blocks)
write_loop-WrittenEnd (suc k) sb i off (suc left) src s lim addr v le enough =
    WrittenEnd-part k sb i off left src s lim addr v (omega arith) (
      write_loop-WrittenEnd k sb i (off + part left off) (suc left - part left off)
        (λ j. src (part left off + j)) (put_part left off src s addr) lim addr
        (put_part-IsLaid i off left src s lim addr v (omega arith))
        (omega (arith, part_fits left off)) (omega (arith, part_fits left off)))

pub grown_inode :
    (i n end : ℕ) (s : Store)
    → (grown i n end s).icache i ≡ record (s.icache i) {
      size = if ltb 0 n && ltb (s.icache i).size end then end else (s.icache i).size;
    }
unfolding iupdate
grown_inode i n end s = elim (Bool-cases (ltb 0 n && ltb (s.icache i).size end)) [
  | inl more ↦ rw more (update_self s.icache i _)
  | inr same ↦ rw same refl
]

pub grown_blocks : (i n end : ℕ) (s : Store) → (grown i n end s).blocks ≡ s.blocks
unfolding iupdate
grown_blocks i n end s = elim (Bool-cases (ltb 0 n && ltb (s.icache i).size end)) [
  | inl more ↦ rw more refl
  | inr same ↦ rw same refl
]

-- `writei` of a file that has a block for each byte below `lim`: the bytes, and its last step.
pub writei-Written :
    (devsw : DevWrites) (sb : Super) (i : ℕ) (src : ℕ → ℕ) (off n : ℕ) (s : Store) (lim : ℕ)
    (addr : ℕ → ℕ)
    → (s.icache i).type ≢ t_dev
    → off ≤ (s.icache i).size
    → off + n ≤ lim
    → IsLaid (s.icache i).addrs s.blocks lim addr
    → (d : Blocks) × (writei devsw sb i src off n s
        ≡ some (pos n, grown i n (off + n) (record s { blocks = d })))
      × Written lim addr off n src s.blocks d
unfolding writei WrittenEnd
writei-Written devsw sb i src off n s lim addr no_dev from within v =
    let (d, run, w) : WrittenEnd n sb i off n src s lim addr =
      write_loop-WrittenEnd n sb i off n src s lim addr v within (omega arith) in
    (d, rw (is_file, in_file, in_max, run) refl, w)
  where
    is_file : ((s.icache i).type == t_dev) ≡ false
    is_file = ground (arith, no_dev)

    in_file : (ltb (s.icache i).size off || ltb ((off + n) % 2 ^ 32) off) ≡ false
    in_file = ground (arith, v.fits)

    in_max : ltb (maxfile * bsize) ((off + n) % 2 ^ 32) ≡ false
    in_max = ground (arith, v.fits)
