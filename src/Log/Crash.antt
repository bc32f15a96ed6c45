-- ===== src/Log/Crash.antt =====
-- The disk while a transaction is committed, and when the machine stops on the way.
use native.Mathlib.Decide.{ℕ_discrete}
use cpsc.Prelude.{
  ℕ, zero, suc, ◌+◌, ◌≤◌, ◌<◌, ◌≡◌, ◌≢◌, ◌∙◌, ap, sym, ◌⊎◌, inl, inr, ◌==◌, if◌then◌else◌, update,
  update_self, update_ne, arith,
}
use cpsc.Log.{Block, Disk, Io, view, loaded, bwrite, Log, write_log_from}
use cpsc.Log.Memory.{Stored, copied-view, copied-Stored, view-loaded}

-- A block outside the log.
abbrev pub Home : ℕ → ℕ → ℕ → Type 0
Home start size b = (b < start) ⊎ (start + size ≤ b)

-- A transaction of `n` blocks: they are distinct blocks outside the log, which has room for them.
pub record Txn : Type 0 where
  pub start : ℕ
  pub size : ℕ
  pub n : ℕ
  pub block : ℕ → ℕ
  pub contents : ℕ → Block
  pub old : ℕ → Block

pub record IsTxn (t : Txn) : Type 0 where
  pub room : t.n < t.size
  pub home : (j : ℕ) → j < t.n → Home t.start t.size (t.block j)
  pub distinct : (i j : ℕ) → i < t.n → j < t.n → t.block i ≡ t.block j → i ≡ j

-- The log in memory is that of the transaction.
pub record Matches (t : Txn) (l : Log) : Type 0 where
  pub start : l.start ≡ t.start
  pub n : l.lh.n ≡ t.n
  pub block : (j : ℕ) → j < t.n → l.lh.block j ≡ t.block j

module _ (t : Txn) (d : ℕ → Block) where
  -- `b` is none of the transaction's blocks.
  abbrev pub Untouched : ℕ → Type 0
  Untouched b = (j : ℕ) → j < t.n → b ≢ t.block j

  -- The home blocks as before the transaction.
  abbrev pub IsOld : Type 0
  IsOld = (b : ℕ) → Home t.start t.size b → d b ≡ t.old b

  -- The home blocks as after the transaction.
  pub record IsNew : Type 0 where
    pub changed : (j : ℕ) → j < t.n → d (t.block j) ≡ t.contents j
    pub others : (b : ℕ) → Home t.start t.size b → Untouched b → d b ≡ t.old b

  -- Nothing is committed: the header is empty and the home blocks are old.
  pub record IsBefore : Type 0 where
    pub empty : d t.start 0 ≡ 0
    pub old : IsOld

  -- The transaction is committed: the header names its blocks and the log holds their contents.
  pub record IsLogged : Type 0 where
    pub count : d t.start 0 ≡ t.n
    pub names : (j : ℕ) → j < t.n → d t.start (suc j) ≡ t.block j
    pub logged : (j : ℕ) → j < t.n → d (t.start + j + 1) ≡ t.contents j
    pub others : (b : ℕ) → Home t.start t.size b → Untouched b → d b ≡ t.old b

  -- The transaction is installed and the header is empty again.
  pub record IsAfter : Type 0 where
    pub empty : d t.start 0 ≡ 0
    pub new : IsNew

-- After the first `i` rounds of `write_log`.
pub record Writing (t : Txn) (i : ℕ) (s : Io) : Type 0 where
  pub cached : (j : ℕ) → j < t.n → view s (t.block j) ≡ t.contents j
  pub before : IsBefore t s.disk.blocks
  pub in_view : (j : ℕ) → j < i → view s (t.start + j + 1) ≡ t.contents j
  pub on_disk :
      (s.disk.power ≡ 0) ⊎ ((j : ℕ) → j < i → s.disk.blocks (t.start + j + 1) ≡ t.contents j)

module _ (t : Txn) (ok : IsTxn t) where
  log_block_ne : (i j : ℕ) → i < t.n → j < t.n → t.block j ≢ t.start + i + 1
  log_block_ne i j a b e = ground (arith, ok.home j b, ok.room)

  apart : (i b : ℕ) → i < t.n → Home t.start t.size b → (b ≢ t.start + i + 1) × (b ≢ t.start)
  apart i b a (inl lo) = (omega (arith, ok.room), omega (arith, ok.room))
  apart i b a (inr hi) = (omega (arith, ok.room), omega (arith, ok.room))

  before_kept :
      (i : ℕ) (v : Block) (d d' : Disk)
      → i < t.n
      → Stored (t.start + i + 1) v d d'
      → IsBefore t d.blocks
      → IsBefore t d'.blocks
  before_kept i v d d' a (inl (stopped, same)) w = rw same w
  before_kept i v d d' a (inr (live, f)) w = record {
    empty =
        ap (λ b. b 0) (f t.start ∙ update_ne d.blocks (t.start + i + 1) v t.start (omega arith))
        ∙ w.empty;
    old = λ b h. f b ∙ update_ne d.blocks (t.start + i + 1) v b (apart i b a h).0 ∙ w.old b h;
  }

  -- What a copy to the log block `i` leaves there and at the log blocks before it.
  filled :
      (i : ℕ) (v : Block) (f g : ℕ → Block)
      → v ≡ t.contents i
      → ((x : ℕ) → g x ≡ update f (t.start + i + 1) v x)
      → ((j : ℕ) → j < i → f (t.start + j + 1) ≡ t.contents j)
      → (j : ℕ) → j < suc i
      → g (t.start + j + 1) ≡ t.contents j
  filled i v f g e upd below j b = elim (ℕ_discrete j i) [
    | yes q ↦ rw q (upd (t.start + i + 1) ∙ update_self f (t.start + i + 1) v ∙ e)
    | no q ↦
        upd (t.start + j + 1)
        ∙ update_ne f (t.start + i + 1) v (t.start + j + 1) (omega arith)
        ∙ below j (omega arith)
  ]

  filled_disk :
      (i : ℕ) (v : Block) (d d' : Disk)
      → v ≡ t.contents i
      → Stored (t.start + i + 1) v d d'
      → (d.power ≡ 0) ⊎ ((j : ℕ) → j < i → d.blocks (t.start + j + 1) ≡ t.contents j)
      → (d'.power ≡ 0) ⊎ ((j : ℕ) → j < suc i → d'.blocks (t.start + j + 1) ≡ t.contents j)
  filled_disk i v d d' e (inl (stopped, same)) w = inl (ap (λ d. d.power) same ∙ stopped)
  filled_disk i v d d' e (inr (live, f)) (inl stopped) = absurd (omega arith)
  filled_disk i v d d' e (inr (live, f)) (inr below) = inr (filled i v d.blocks d'.blocks e f below)

  write_step :
      (i : ℕ) (v : Block) (s s' : Io)
      → i < t.n
      → v ≡ t.contents i
      → ((x : ℕ) → view s' x ≡ (if x == t.start + i + 1 then v else view s x))
      → Stored (t.start + i + 1) v s.disk s'.disk
      → Writing t i s
      → Writing t (suc i) s'
  write_step i v s s' a e seen st w = record {
    cached = λ j b.
        seen (t.block j)
        ∙ update_ne (view s) (t.start + i + 1) v (t.block j) (log_block_ne i j a b)
        ∙ w.cached j b;
    before = before_kept i v s.disk s'.disk a st w.before;
    in_view = filled i v (view s) (view s') e seen w.in_view;
    on_disk = filled_disk i v s.disk s'.disk e st w.on_disk;
  }

  -- The whole of `write_log`.
  pub write_log-Writing :
      (l : Log)
      → Matches t l
      → (k i : ℕ) (s : Io) → i + k ≡ t.n
      → Writing t i s
      → Writing t t.n (write_log_from k i l s)
  unfolding write_log_from
  write_log-Writing l m zero i s e w = rw (sum_zero e) at w
    where
      sum_zero : i + 0 ≡ t.n → i ≡ t.n
      sum_zero e = omega arith
  write_log-Writing l m (suc k) i s e w =
      write_log-Writing l m k (suc i)
        (bwrite (l.start + i + 1) from (loaded (l.lh.block i) (loaded (l.start + i + 1) s)))
        (omega arith)
        (write_step i from s _ below from_contents
          (λ x.
            rw (ap (λ n. n + i + 1) (sym m.start))
              (copied-view (l.start + i + 1) (l.lh.block i) (l.start + i + 1) from s x))
          (rw (ap (λ n. n + i + 1) (sym m.start))
            (copied-Stored (l.start + i + 1) (l.lh.block i) (l.start + i + 1) from s))
          w)
    where
      from : Block
      from = view (loaded (l.start + i + 1) s) (l.lh.block i)

      below : i < t.n
      below = omega arith

      from_contents : from ≡ t.contents i
      from_contents =
          view-loaded (l.start + i + 1) s (l.lh.block i)
          ∙ ap (view s) (m.block i below)
          ∙ w.cached i below
