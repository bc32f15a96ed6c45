-- ===== src/Content/Growth.antt =====
-- `writei` with the size that it leaves, in the cache and on the disk.
use native.Mathlib.Decide.{ℕ_discrete}
use mathlib.Core.Path.{subst}
use cpsc.Prelude.{
  ℕ, ◌+◌, ◌≤◌, ◌≡◌, ◌≢◌, ◌∙◌, refl, sym, ap, ap₂, ◌⊎◌, inl, inr, Bool, ◌&&◌, some, ltb,
  if◌then◌else◌, update, update_self, update_ne, Bool-cases,
}
use cpsc.Prelude.Int.{pos}
use cpsc.Fs.{Super}
use cpsc.Inodes.{Inode, Dinode, Store, disk_copy, iupdate}
use cpsc.Inodes.Put.{iupdate-dinodes}
use cpsc.Content.{t_dev, DevWrites, grown, writei}
use cpsc.Content.Layout.{IsLaid}
use cpsc.Content.Writing.{Written, grown_inode, grown_blocks, writei-Written}

-- A write of `n` bytes from `off` ends past the last byte of the inode.
abbrev pub grows : ℕ → ℕ → Inode → Bool
grows off n ip = ltb 0 n && ltb ip.size (off + n)

-- The inode after the write, in its entry, and on the disk if it has grown; nothing else of the
-- cache or of the inodes on the disk is changed.
pub record Resized (i off n : ℕ) (s s' : Store) : Type 0 where
  pub entry : s'.icache i ≡ record (s.icache i) {
    size = if grows off n (s.icache i) then off + n else (s.icache i).size;
  }
  pub entries : (j : ℕ) → j ≢ i → s'.icache j ≡ s.icache j
  pub disk : s'.dinodes (s.icache i).dev (s.icache i).inum ≡ (
      if grows off n (s.icache i)
      then disk_copy (record (s.icache i) { size = off + n })
      else s.dinodes (s.icache i).dev (s.icache i).inum)
  pub disks :
      (d m : ℕ) → (d ≢ (s.icache i).dev) ⊎ (m ≢ (s.icache i).inum) → s'.dinodes d m ≡ s.dinodes d m

apart :
    (f : ℕ → ℕ → Dinode) (a b d m : ℕ) (v : Dinode)
    → (d ≢ a) ⊎ (m ≢ b)
    → update f a (update (f a) b v) d m ≡ f d m
apart f a b d m v other = elim (ℕ_discrete d a) [
  | no ne ↦ ap (λ g. g m) (update_ne f a _ d ne)
  | yes e ↦ elim other [
    | inl ne ↦ absurd (ne e)
    | inr ne ↦
        ap (λ x. update f a (update (f a) b v) x m) e
        ∙ ap (λ g. g m) (update_self f a _)
        ∙ update_ne (f a) b v m ne
        ∙ ap (λ x. f x m) (sym e)
  ]
]

grown-Resized : (i off n : ℕ) (s : Store) → Resized i off n s (grown i n (off + n) s)
unfolding iupdate
grown-Resized i off n s = record {
  entry = grown_inode i n (off + n) s;
  entries = λ j ne. elim (Bool-cases (grows off n (s.icache i))) [
    | inl more ↦ rw more (update_ne s.icache i _ j ne)
    | inr same ↦ rw same refl
  ];
  disk = elim (Bool-cases (grows off n (s.icache i))) [
    | inl more ↦ rw more copied
    | inr same ↦ rw same refl
  ];
  disks = λ d m other. elim (Bool-cases (grows off n (s.icache i))) [
    | inl more ↦ rw more (elsewhere d m other)
    | inr same ↦ rw same refl
  ];
}
  where
    ip : Inode
    ip = record (s.icache i) { size = off + n }

    t : Store
    t = record s { icache = update s.icache i ip }

    self : t.icache i ≡ ip
    self = update_self s.icache i ip

    copied : (iupdate i t).dinodes (s.icache i).dev (s.icache i).inum ≡ disk_copy ip
    copied =
        ap₂ (λ a b. (iupdate i t).dinodes a b) (sym (ap (λ p. p.dev) self))
          (sym (ap (λ p. p.inum) self))
        ∙ iupdate-dinodes i t
        ∙ ap disk_copy self

    elsewhere :
        (d m : ℕ)
        → (d ≢ (s.icache i).dev) ⊎ (m ≢ (s.icache i).inum)
        → (iupdate i t).dinodes d m ≡ s.dinodes d m
    elsewhere d m other =
        apart s.dinodes (t.icache i).dev (t.icache i).inum d m (disk_copy (t.icache i))
          (elim other [
            | inl ne ↦ inl (λ e. ne (e ∙ ap (λ p. p.dev) self))
            | inr ne ↦ inr (λ e. ne (e ∙ ap (λ p. p.inum) self))
          ])

-- `writei` of a file that has a block for each byte below `lim`, which the range does not pass. The
-- inode is no device, and the range starts at its size or below. `writei` returns the number of
-- bytes. The bytes of the range are then those at `src`, and the other ones below `lim` and the other
-- blocks are as before. If the range is not empty and ends past the size, the size is its end, in
-- the entry and on the disk, where the inode is as its entry; else neither is changed. No other
-- entry and no other inode of the disk is changed.
pub writei_lem :
    (devsw : DevWrites) (sb : Super) (i : ℕ) (src : ℕ → ℕ) (off n : ℕ) (s : Store) (lim : ℕ)
    (addr : ℕ → ℕ)
    → (s.icache i).type ≢ t_dev
    → off ≤ (s.icache i).size
    → off + n ≤ lim
    → IsLaid (s.icache i).addrs s.blocks lim addr
    → (s' : Store) × (writei devsw sb i src off n s ≡ some (pos n, s'))
      × Written lim addr off n src s.blocks s'.blocks
      × Resized i off n s s'
writei_lem devsw sb i src off n s lim addr no_dev from within v =
    let (d, run, w) = writei-Written devsw sb i src off n s lim addr no_dev from within v in
    let r : Resized i off n (record s { blocks = d })
        (grown i n (off + n) (record s { blocks = d })) =
      grown-Resized i off n (record s { blocks = d }) in
    (
      grown i n (off + n) (record s { blocks = d }),
      run,
      subst (λ b. Written lim addr off n src s.blocks b)
          (sym (grown_blocks i n (off + n) (record s { blocks = d }))) w,
      record { entry = r.entry; entries = r.entries; disk = r.disk; disks = r.disks },
    )
