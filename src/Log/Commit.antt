-- ===== src/Log/Commit.antt =====
-- `commit`: where the machine stops, the disk is recoverable.
use cpsc.Prelude.{ℕ, zero, suc, ◌+◌, ◌<◌, ◌≡◌, ◌∙◌, ap, refl, ◌⊎◌, inl, inr, arith}
use cpsc.Log.{
  Block, Disk, Io, view, loaded, bwrite, Log, install_from, install_trans, write_head, cleared,
  write_log, commit,
}
use cpsc.Log.Memory.{Stored, copied-Stored}
use cpsc.Log.Crash.{Txn, IsTxn, Matches, IsBefore, IsLogged, IsAfter, write_log-Writing}
use cpsc.Log.Install.{Installing, install-Installing}
use cpsc.Log.Head.{head_stopped, commit_point, clear_installed}

-- A write once the machine has stopped.
Stored-stopped : (b : ℕ) (v : Block) (d d' : Disk) → d.power ≡ 0 → Stored b v d d' → d' ≡ d
Stored-stopped b v d d' e (inl (stopped, same)) = same
Stored-stopped b v d d' e (inr (live, f)) = absurd (omega arith)

-- Once the machine has stopped nothing reaches the disk.
stopped_install :
    (k i : ℕ) (l : Log) (s : Io) → s.disk.power ≡ 0 → (install_from k i l s).disk ≡ s.disk
unfolding install_from
stopped_install zero i l s e = refl
stopped_install (suc k) i l s e =
    stopped_install k (suc i) l next (ap (λ d. d.power) same ∙ e) ∙ same
  where
    lbuf : Block
    lbuf = view s (l.start + i + 1)

    next : Io
    next = bwrite (l.lh.block i) lbuf (loaded (l.lh.block i) (loaded (l.start + i + 1) s))

    same : next.disk ≡ s.disk
    same =
        Stored-stopped (l.lh.block i) lbuf s.disk next.disk e
          (copied-Stored (l.lh.block i) (l.lh.block i) (l.start + i + 1) lbuf s)

-- The disk before the header is cleared, and after.
stopped_commit :
    (l : Log) (s : Io)
    → s.disk.power ≡ 0
    → (write_head (cleared l) (install_from l.lh.n 0 l (write_head l s))).disk ≡ s.disk
stopped_commit l s e = head_stopped (cleared l) _ (ap (λ d. d.power) installed ∙ e) ∙ installed
  where
    installed : (install_from l.lh.n 0 l (write_head l s)).disk ≡ s.disk
    installed =
        stopped_install l.lh.n 0 l (write_head l s) (ap (λ d. d.power) (head_stopped l s e) ∙ e)
        ∙ head_stopped l s e

-- A disk from which the log can be recovered: before the transaction, with the transaction in the
-- log, or after it.
abbrev pub Recoverable : Txn → (ℕ → Block) → Type 0
Recoverable t d = IsBefore t d ⊎ (IsLogged t d ⊎ IsAfter t d)

-- What `commit` leaves: the transaction is installed, unless the machine has stopped.
abbrev pub CommitEnds : Txn → Disk → Type 0
CommitEnds t d = ((d.power ≡ 0) × Recoverable t d.blocks) ⊎ IsAfter t d.blocks

module _ (t : Txn) (ok : IsTxn t) where
  stopped_before : (d d' : Disk) → d' ≡ d → d.power ≡ 0 → IsBefore t d.blocks → CommitEnds t d'
  stopped_before d d' same e w = inl (ap (λ d. d.power) same ∙ e, rw same (inl w))

  installed_ends :
      (d : Disk) → ((d.power ≡ 0) × IsLogged t d.blocks) ⊎ IsAfter t d.blocks → CommitEnds t d
  installed_ends d (inl (stopped, logged)) = inl (stopped, inr (inl logged))
  installed_ends d (inr after) = inr after

  after_head :
      (l : Log) (s : Io)
      → Matches t l
      → ((s.disk.power ≡ 0) × IsBefore t s.disk.blocks) ⊎ Installing t 0 (write_head l s)
      → CommitEnds t (write_head (cleared l) (install_from l.lh.n 0 l (write_head l s))).disk
  after_head l s m (inl (stopped, before)) =
      stopped_before s.disk _ (stopped_commit l s stopped) stopped before
  after_head l s m (inr inst) = installed_ends _ (
      clear_installed t ok l (install_from l.lh.n 0 l (write_head l s)) m.start
        (install-Installing t ok l m l.lh.n 0 (write_head l s) (omega (arith, m.n)) inst))

  -- Let the log in memory name a transaction of at least one block, the buffers hold its contents,
  -- and the disk have an empty header and the old home blocks. Wherever the machine stops in
  -- `commit`, the disk is recoverable; if it does not stop, every block of the transaction is
  -- installed, no other home block is changed and the header is empty.
  pub commit_lem :
      (l : Log) (s : Io)
      → Matches t l
      → 0 < t.n
      → ((j : ℕ) → j < t.n → view s (t.block j) ≡ t.contents j)
      → IsBefore t s.disk.blocks
      → CommitEnds t (commit l s).1.disk
  unfolding commit install_trans write_log
  commit_lem l s m some_block cached before = ground (
    arith,
    m.n,
    after_head l _ m (
        commit_point t ok l _ m (
          write_log-Writing t ok l m l.lh.n 0 s (omega (arith, m.n)) (record {
            cached = cached;
            before = before;
            in_view = λ j b. absurd (omega arith);
            on_disk = inr (λ j b. absurd (omega arith));
          }))),
  )
