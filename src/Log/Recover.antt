-- ===== src/Log/Recover.antt =====
-- `recover_from_log` and the restarts between them: a transaction is all or nothing.
use cpsc.Prelude.{
  List, [], ◌∷◌, ℕ, zero, suc, ◌+◌, ◌<◌, ◌≡◌, ◌∙◌, ap, refl, ◌⊎◌, inl, inr, none, arith,
}
use cpsc.Log.{
  Disk, Io, view, loaded, Log, install_from, install_trans, read_head, write_head, cleared, commit,
  recover_from_log,
}
use cpsc.Log.Memory.{view-loaded, read_blocks_lem}
use cpsc.Log.Crash.{Txn, IsTxn, Matches, IsBefore, IsLogged, IsAfter}
use cpsc.Log.Install.{Installing, install-Installing}
use cpsc.Log.Commit.{Recoverable, CommitEnds, commit_lem}
use cpsc.Log.Head.{clear_before, clear_after, clear_installed}

-- What the recovery leaves: all of the transaction or nothing of it, unless the machine has
-- stopped.
abbrev pub RecoverEnds : Txn → Disk → Type 0
RecoverEnds t d =
    ((d.power ≡ 0) × Recoverable t d.blocks) ⊎ (IsBefore t d.blocks ⊎ IsAfter t d.blocks)

-- The machine restarts: the buffers are empty, and the disk takes `power` writes.
unfoldable pub restart : ℕ → Io → Io
restart power s = record {
  disk = record { blocks = s.disk.blocks; power = power };
  cache = λ b. none;
}

-- Restarts one after the other, each of which runs the recovery until the machine stops again.
unfoldable pub restarts : List ℕ → Log → Io → Io
restarts [] l s = s
restarts (p ∷ ps) l s = restarts ps l (recover_from_log l (restart p s)).1

-- The log in memory after `read_head`.
read_head_lem :
    (l : Log) (s : Io)
    → ((read_head l s).0.start ≡ l.start)
      × ((read_head l s).0.lh.n ≡ view s l.start 0)
      × ((j : ℕ) → j < view s l.start 0 → (read_head l s).0.lh.block j ≡ view s l.start (suc j))
unfolding read_head
read_head_lem l s = (
  refl,
  refl,
  (λ j b. ground (arith, read_blocks_lem (view s l.start 0) 0 (view s l.start) l.lh.block j)),
)

install_none : (k : ℕ) (l : Log) (s : Io) → k ≡ 0 → install_from k 0 l s ≡ s
unfolding install_from
install_none zero l s e = refl
install_none (suc k) l s e = absurd (omega arith)

module _ (t : Txn) (ok : IsTxn t) where
  -- The rest of the recovery, from the log and the state after `read_head`.
  recovered_before :
      (l : Log) (s : Io)
      → l.start ≡ t.start
      → l.lh.n ≡ 0
      → IsBefore t s.disk.blocks
      → IsBefore t (write_head (cleared l) (install_from l.lh.n 0 l s)).disk.blocks
  recovered_before l s e none_left w =
      clear_before t ok l (install_from l.lh.n 0 l s) e (rw (install_none l.lh.n l s none_left) w)

  recovered_after :
      (l : Log) (s : Io)
      → l.start ≡ t.start
      → l.lh.n ≡ 0
      → IsAfter t s.disk.blocks
      → IsAfter t (write_head (cleared l) (install_from l.lh.n 0 l s)).disk.blocks
  recovered_after l s e none_left w =
      clear_after t ok l (install_from l.lh.n 0 l s) e (rw (install_none l.lh.n l s none_left) w)

  logged_ends :
      (d : Disk) → ((d.power ≡ 0) × IsLogged t d.blocks) ⊎ IsAfter t d.blocks → RecoverEnds t d
  logged_ends d (inl (stopped, logged)) = inl (stopped, inr (inl logged))
  logged_ends d (inr after) = inr (inr after)

  recovered_logged :
      (l : Log) (s : Io)
      → Matches t l
      → Installing t 0 s
      → RecoverEnds t (write_head (cleared l) (install_from l.lh.n 0 l s)).disk
  recovered_logged l s m w = logged_ends _ (
      clear_installed t ok l (install_from l.lh.n 0 l s) m.start
        (install-Installing t ok l m l.lh.n 0 s (omega (arith, m.n)) w))

  after_read :
      (l : Log) (s : Io)
      → l.start ≡ t.start
      → l.lh.n ≡ s.disk.blocks t.start 0
      → ((j : ℕ) → j < s.disk.blocks t.start 0 → l.lh.block j ≡ s.disk.blocks t.start (suc j))
      → ((b : ℕ) → view s b ≡ s.disk.blocks b)
      → Recoverable t s.disk.blocks
      → RecoverEnds t (write_head (cleared l) (install_from l.lh.n 0 l s)).disk
  after_read l s e count names fresh (inl before) =
      inr (inl (recovered_before l s e (count ∙ before.empty) before))
  after_read l s e count names fresh (inr (inr after)) =
      inr (inr (recovered_after l s e (count ∙ after.empty) after))
  after_read l s e count names fresh (inr (inl logged)) =
      recovered_logged l s
        (record {
          start = e;
          n = count ∙ logged.count;
          block = λ j b. names j (omega (arith, logged.count)) ∙ logged.names j b;
        })
        (record {
          logged = logged;
          in_view = λ j b. fresh (t.start + j + 1) ∙ logged.logged j b;
          done = inr (λ j b. absurd (omega arith));
        })

  -- Let the buffers be empty and the disk be recoverable. Wherever the machine stops in
  -- `recover_from_log`, the disk is recoverable again; if it does not stop, the header is empty
  -- and the home blocks are all as before the transaction or all as after it.
  pub recover_lem :
      (l : Log) (s : Io)
      → l.start ≡ t.start
      → ((b : ℕ) → view s b ≡ s.disk.blocks b)
      → Recoverable t s.disk.blocks
      → RecoverEnds t (recover_from_log l s).1.disk
  unfolding recover_from_log install_trans read_head loaded
  recover_lem l s e fresh w =
      after_read (read_head l s).0 (read_head l s).1 (start ∙ e) (count ∙ header)
        (λ j b. names j (omega (arith, header)) ∙ ap (λ v. v (suc j)) at_start)
        (λ b. view-loaded l.start s b ∙ fresh b) w
    where
      at_start : view s l.start ≡ s.disk.blocks t.start
      at_start = fresh l.start ∙ ap s.disk.blocks e

      header : view s l.start 0 ≡ s.disk.blocks t.start 0
      header = ap (λ v. v 0) at_start

      start : (read_head l s).0.start ≡ l.start
      start = (read_head_lem l s).0

      count : (read_head l s).0.lh.n ≡ view s l.start 0
      count = (read_head_lem l s).1

      names : (j : ℕ) → j < view s l.start 0 → (read_head l s).0.lh.block j ≡ view s l.start (suc j)
      names = (read_head_lem l s).2

  restart_once :
      (p : ℕ) (l : Log) (s : Io)
      → l.start ≡ t.start
      → Recoverable t s.disk.blocks
      → RecoverEnds t (recover_from_log l (restart p s)).1.disk
  unfolding restart view
  restart_once p l s e w = recover_lem l (restart p s) e (λ b. refl) w

  ends-Recoverable : (d : Disk) → RecoverEnds t d → Recoverable t d.blocks
  ends-Recoverable d (inl (stopped, w)) = w
  ends-Recoverable d (inr (inl before)) = inl before
  ends-Recoverable d (inr (inr after)) = inr (inr after)

  commit-Recoverable : (d : Disk) → CommitEnds t d → Recoverable t d.blocks
  commit-Recoverable d (inl (stopped, w)) = w
  commit-Recoverable d (inr after) = inr (inr after)

  restarts-Recoverable :
      (ps : List ℕ) (l : Log) (s : Io)
      → l.start ≡ t.start
      → Recoverable t s.disk.blocks
      → Recoverable t (restarts ps l s).disk.blocks
  unfolding restarts
  restarts-Recoverable [] l s e w = w
  restarts-Recoverable (p ∷ ps) l s e w =
      restarts-Recoverable ps l (recover_from_log l (restart p s)).1 e
        (ends-Recoverable _ (restart_once p l s e w))

  -- A commit that the machine may stop at any write, any number of restarts whose recoveries it may
  -- stop as well, and a last restart: if that recovery is not stopped, the home blocks are all as
  -- before the transaction or all as after it, and the header is empty. The log in memory that the
  -- restarts begin with may hold anything but another place of the log.
  pub restarts_lem :
      (l boot : Log) (s : Io) (ps : List ℕ) (p : ℕ)
      → Matches t l
      → boot.start ≡ t.start
      → 0 < t.n
      → ((j : ℕ) → j < t.n → view s (t.block j) ≡ t.contents j)
      → IsBefore t s.disk.blocks
      → RecoverEnds t (recover_from_log boot (restart p (restarts ps boot (commit l s).1))).1.disk
  restarts_lem l boot s ps p m e some_block cached before =
      restart_once p boot (restarts ps boot (commit l s).1) e (
        restarts-Recoverable ps boot (commit l s).1 e
          (commit-Recoverable _ (commit_lem t ok l s m some_block cached before)))
