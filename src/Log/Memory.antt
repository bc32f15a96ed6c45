-- ===== src/Log/Memory.antt =====
-- What reads and writes of blocks do to the view of the buffers and to the disk.
use native.Mathlib.Decide.{ℕ_discrete}
use cpsc.Prelude.{
  ℕ, zero, suc, ◌+◌, ◌≤◌, ◌<◌, ◌≡◌, ◌∙◌, refl, ◌⊎◌, inl, inr, ◌&&◌, ◌==◌, ltb, leb, if◌then◌else◌,
  update, arith,
}
use cpsc.Log.{Block, Disk, written, store, Io, view, loaded, bwrite, read_blocks, write_blocks}

-- A read changes no contents.
pub view-loaded : (b : ℕ) (s : Io) (c : ℕ) → view (loaded b s) c ≡ view s c
unfolding view loaded
view-loaded b s c = ground arith

-- A write is seen at once, whether or not it reaches the disk.
pub view-bwrite :
    (b : ℕ) (v : Block) (s : Io) (c : ℕ) → view (bwrite b v s) c ≡ (if c == b then v else view s c)
unfolding view bwrite store
view-bwrite b v s c = ground arith

pub disk-loaded : (b : ℕ) (s : Io) → (loaded b s).disk ≡ s.disk
unfolding loaded
disk-loaded b s = refl

-- Either the machine has stopped, and the disk is as it was, or the block is on the disk.
abbrev pub Stored : ℕ → Block → Disk → Disk → Type 0
Stored b v d d' =
    ((d.power ≡ 0) × (d' ≡ d))
    ⊎ ((0 < d.power) × ((c : ℕ) → d'.blocks c ≡ (if c == b then v else d.blocks c)))

written-Stored :
    (b : ℕ) (v : Block) (d : Disk) (p : ℕ) → d.power ≡ p → Stored b v d (written b v d p)
written-Stored b v d zero e = inl (e, refl)
written-Stored b v d (suc p) e = inr (omega arith, λ c. refl)

pub bwrite-Stored : (b : ℕ) (v : Block) (s : Io) → Stored b v s.disk (bwrite b v s).disk
unfolding bwrite store
bwrite-Stored b v s = written-Stored b v s.disk s.disk.power refl

-- A copy between buffers, as `install_trans` and `write_log` make it.
pub copied-view :
    (a b c : ℕ) (v : Block) (s : Io) (x : ℕ)
    → view (bwrite a v (loaded b (loaded c s))) x ≡ (if x == a then v else view s x)
copied-view a b c v s x = ground (
  arith,
  view-bwrite a v (loaded b (loaded c s)) x,
  view-loaded b (loaded c s) x,
  view-loaded c s x,
)

pub copied-Stored :
    (a b c : ℕ) (v : Block) (s : Io) → Stored a v s.disk (bwrite a v (loaded b (loaded c s))).disk
unfolding loaded
copied-Stored a b c v s = bwrite-Stored a v (loaded b (loaded c s))

pub read_blocks_lem :
    (k i : ℕ) (buf : Block) (block : ℕ → ℕ) (j : ℕ)
    → read_blocks k i buf block j ≡ (if leb i j && ltb j (i + k) then buf (suc j) else block j)
unfolding read_blocks
read_blocks_lem zero i buf block j = ground arith
read_blocks_lem (suc k) i buf block j =
    ground (arith, read_blocks_lem k (suc i) buf (update block i (buf (suc i))) j)

pub write_blocks_lem :
    (k i : ℕ) (block : ℕ → ℕ) (buf : Block)
    → (write_blocks k i block buf 0 ≡ buf 0)
      × ((j : ℕ) → i ≤ j → j < i + k → write_blocks k i block buf (suc j) ≡ block j)
      × ((j : ℕ) → j < i → write_blocks k i block buf (suc j) ≡ buf (suc j))
unfolding write_blocks
write_blocks_lem zero i block buf = (refl, (λ j a b. absurd (omega arith)), λ j a. refl)
write_blocks_lem (suc k) i block buf =
    let (z, mid, low) = write_blocks_lem k (suc i) block (update buf (suc i) (block i)) in
    (
      z ∙ ground arith,
      (λ j a b. elim (ℕ_discrete j i) [
        | yes e ↦ rw e (low i (omega arith) ∙ ground arith)
        | no ne ↦ mid j (omega arith) (omega arith)
      ]),
      (λ j a. low j (omega arith) ∙ ground arith),
    )
