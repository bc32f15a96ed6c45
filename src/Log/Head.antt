-- ===== src/Log/Head.antt =====
-- `write_head` in `commit` and in `recover_from_log`, with the machine stopping at any write.
use cpsc.Prelude.{
  ℕ, suc, ◌+◌, ◌<◌, ◌≡◌, ◌≢◌, ◌∙◌, ap, sym, ◌⊎◌, inl, inr, ◌==◌, if◌then◌else◌, update, update_self,
  update_ne, arith,
}
use cpsc.Log.{Block, Disk, Io, view, loaded, Log, write_head, write_blocks, cleared}
use cpsc.Log.Memory.{Stored, bwrite-Stored, view-bwrite, view-loaded, write_blocks_lem}
use cpsc.Log.Crash.{Home, Txn, IsTxn, Matches, IsNew, IsBefore, IsLogged, IsAfter, Writing}
use cpsc.Log.Install.{Installing}

-- The header block that `write_head` writes.
header_block : Log → Io → Block
header_block l s = write_blocks l.lh.n 0 l.lh.block (update (view s l.start) 0 l.lh.n)

write_head-Stored :
    (l : Log) (s : Io) → Stored l.start (header_block l s) s.disk (write_head l s).disk
unfolding write_head header_block loaded
write_head-Stored l s = bwrite-Stored l.start (header_block l s) (loaded l.start s)

write_head-view :
    (l : Log) (s : Io) (x : ℕ)
    → view (write_head l s) x ≡ update (view s) l.start (header_block l s) x
unfolding write_head header_block
write_head-view l s x =
    view-bwrite l.start (header_block l s) (loaded l.start s) x
    ∙ ap (λ v. if x == l.start then header_block l s else v) (view-loaded l.start s x)

header_block_lem :
    (l : Log) (s : Io)
    → (header_block l s 0 ≡ l.lh.n)
      × ((j : ℕ) → j < l.lh.n → header_block l s (suc j) ≡ l.lh.block j)
unfolding header_block
header_block_lem l s =
    let (z, mid, low) = write_blocks_lem l.lh.n 0 l.lh.block (update (view s l.start) 0 l.lh.n) in
    (z, λ j b. mid j (omega arith) (omega arith))

-- Once the machine has stopped no header reaches the disk.
pub head_stopped : (l : Log) (s : Io) → s.disk.power ≡ 0 → (write_head l s).disk ≡ s.disk
head_stopped l s e = go (write_head l s).disk (write_head-Stored l s)
  where
    go : (d' : Disk) → Stored l.start (header_block l s) s.disk d' → d' ≡ s.disk
    go d' (inl (stopped, same)) = same
    go d' (inr (live, f)) = absurd (omega arith)

module _ (t : Txn) (ok : IsTxn t) where
  apart_start : (b : ℕ) → Home t.start t.size b → b ≢ t.start
  apart_start b (inl lo) = omega (arith, ok.room)
  apart_start b (inr hi) = omega (arith, ok.room)

  head_Stored :
      (l : Log) (s : Io)
      → l.start ≡ t.start
      → Stored t.start (header_block l s) s.disk (write_head l s).disk
  head_Stored l s e = rw (sym e) (write_head-Stored l s)

  head_view :
      (l : Log) (s : Io)
      → l.start ≡ t.start
      → (x : ℕ) → view (write_head l s) x ≡ update (view s) t.start (header_block l s) x
  head_view l s e x = rw (sym e) (write_head-view l s x)

  commit-Stored :
      (l : Log) (s : Io)
      → Matches t l
      → Writing t t.n s
      → Stored t.start (header_block l s) s.disk (write_head l s).disk
      → (s.disk.power ≡ 0) ⊎ ((j : ℕ) → j < t.n → s.disk.blocks (t.start + j + 1) ≡ t.contents j)
      → ((s.disk.power ≡ 0) × IsBefore t s.disk.blocks) ⊎ Installing t 0 (write_head l s)
  commit-Stored l s m w (inl (stopped, same)) logged = inl (stopped, w.before)
  commit-Stored l s m w (inr (live, f)) (inl stopped) = absurd (omega arith)
  commit-Stored l s m w (inr (live, f)) (inr logged) = inr (record {
    logged = record {
      count = ap (λ b. b 0) header ∙ (header_block_lem l s).0 ∙ m.n;
      names =
          λ j b. ap (λ b. b (suc j)) header ∙ (header_block_lem l s).1 j (rw m.n b) ∙ m.block j b;
      logged = λ j b.
          f (t.start + j + 1)
          ∙ update_ne s.disk.blocks t.start (header_block l s) (t.start + j + 1) (omega arith)
          ∙ logged j b;
      others = λ b h u.
          f b
          ∙ update_ne s.disk.blocks t.start (header_block l s) b (apart_start b h)
          ∙ w.before.old b h;
    };
    in_view = λ j b.
        head_view l s m.start (t.start + j + 1)
        ∙ update_ne (view s) t.start (header_block l s) (t.start + j + 1) (omega arith)
        ∙ w.in_view j b;
    done = inr (λ j b. absurd (omega arith));
  })
    where
      header : (write_head l s).disk.blocks t.start ≡ header_block l s
      header = f t.start ∙ update_self s.disk.blocks t.start (header_block l s)

  -- The header is written: the transaction is committed, or the machine has stopped before.
  pub commit_point :
      (l : Log) (s : Io)
      → Matches t l
      → Writing t t.n s
      → ((s.disk.power ≡ 0) × IsBefore t s.disk.blocks) ⊎ Installing t 0 (write_head l s)
  commit_point l s m w = commit-Stored l s m w (head_Stored l s m.start) w.on_disk

  -- A header with no blocks is written: the home blocks stay as they are.
  cleared-Home :
      (l : Log) (s : Io) (d' : Disk)
      → ((c : ℕ) → d'.blocks c ≡ update s.disk.blocks t.start (header_block (cleared l) s) c)
      → (d'.blocks t.start 0 ≡ 0)
        × ((b : ℕ) → Home t.start t.size b → d'.blocks b ≡ s.disk.blocks b)
  cleared-Home l s d' f = (
    ap (λ b. b 0) (f t.start ∙ update_self s.disk.blocks t.start (header_block (cleared l) s))
        ∙ (header_block_lem (cleared l) s).0,
    λ b h. f b ∙ update_ne s.disk.blocks t.start _ b (apart_start b h),
  )

  new_kept :
      (d d' : ℕ → Block) → ((b : ℕ) → Home t.start t.size b → d' b ≡ d b) → IsNew t d → IsNew t d'
  new_kept d d' same w = record {
    changed = λ j b. same (t.block j) (ok.home j b) ∙ w.changed j b;
    others = λ b h u. same b h ∙ w.others b h u;
  }

  pub clear_before :
      (l : Log) (s : Io)
      → l.start ≡ t.start
      → IsBefore t s.disk.blocks
      → IsBefore t (write_head (cleared l) s).disk.blocks
  clear_before l s e w = go (write_head (cleared l) s).disk (head_Stored (cleared l) s e)
    where
      go :
          (d' : Disk) → Stored t.start (header_block (cleared l) s) s.disk d' → IsBefore t d'.blocks
      go d' (inl (stopped, same)) = rw same w
      go d' (inr (live, f)) =
          let (empty, home) = cleared-Home l s d' f in
          record { empty = empty; old = λ b h. home b h ∙ w.old b h }

  pub clear_after :
      (l : Log) (s : Io)
      → l.start ≡ t.start
      → IsAfter t s.disk.blocks
      → IsAfter t (write_head (cleared l) s).disk.blocks
  clear_after l s e w = go (write_head (cleared l) s).disk (head_Stored (cleared l) s e)
    where
      go : (d' : Disk) → Stored t.start (header_block (cleared l) s) s.disk d' → IsAfter t d'.blocks
      go d' (inl (stopped, same)) = rw same w
      go d' (inr (live, f)) =
          let (empty, home) = cleared-Home l s d' f in
          record { empty = empty; new = new_kept s.disk.blocks d'.blocks home w.new }

  -- The header is cleared after the installation, or the machine has stopped before.
  pub clear_installed :
      (l : Log) (s : Io)
      → l.start ≡ t.start
      → Installing t t.n s
      → (((write_head (cleared l) s).disk.power ≡ 0)
          × IsLogged t (write_head (cleared l) s).disk.blocks)
        ⊎ IsAfter t (write_head (cleared l) s).disk.blocks
  clear_installed l s e w = go (write_head (cleared l) s).disk (head_Stored (cleared l) s e) w.done
    where
      go :
          (d' : Disk)
          → Stored t.start (header_block (cleared l) s) s.disk d'
          → (s.disk.power ≡ 0) ⊎ ((j : ℕ) → j < t.n → s.disk.blocks (t.block j) ≡ t.contents j)
          → ((d'.power ≡ 0) × IsLogged t d'.blocks) ⊎ IsAfter t d'.blocks
      go d' (inl (stopped, same)) done = inl (ap (λ d. d.power) same ∙ stopped, rw same w.logged)
      go d' (inr (live, f)) (inl stopped) = absurd (omega arith)
      go d' (inr (live, f)) (inr done) =
          let (empty, home) = cleared-Home l s d' f in
          inr (record {
            empty = empty;
            new =
                new_kept s.disk.blocks d'.blocks home
                  (record { changed = done; others = w.logged.others });
          })
