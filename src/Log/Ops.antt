-- ===== src/Log/Ops.antt =====
-- `begin_op`, `log_write` and `end_op` of several operations in turn, and the space they reserve.
use cpsc.Prelude.{
  List, [], ◌∷◌, ℕ, suc, ◌+◌, ◌*◌, ◌≤◌, ◌<◌, ◌≡◌, refl, ◌⊎◌, Bool, true, false, some, length, arith,
}
use cpsc.Log.{Io, Log, logsize, maxopblocks, begin_op, end_op, end_commit, log_write}

-- One operation, with the budget `b`, is taken out of the others.
pub data Takes (b : ℕ) : List ℕ → List ℕ → Type 0 where
  here : {bs : List ℕ} → Takes b (b ∷ bs) bs
  there : {x : ℕ} {bs cs : List ℕ} → Takes b bs cs → Takes b (x ∷ bs) (x ∷ cs)

unfoldable pub sum : List ℕ → ℕ
sum [] = 0
sum (b ∷ bs) = b + sum bs

pub data IsWithin : List ℕ → Type 0 where
  nobody : IsWithin []
  with_one : {b : ℕ} {bs : List ℕ} → b ≤ maxopblocks → IsWithin bs → IsWithin (b ∷ bs)

-- The log and the blocks that each running operation may still record. An operation begins, records a block of those it may write,
-- or ends; the last one leaves the commit to be done.
pub data Step : Log → List ℕ → Log → List ℕ → Type 0 where
  begins : {l l' : Log} {bs : List ℕ} → begin_op l ≡ some l' → Step l bs l' (maxopblocks ∷ bs)
  writes :
      {l l' : Log} {bs cs : List ℕ} {b : ℕ} (x : ℕ)
      → Takes (suc b) bs cs
      → log_write x l ≡ some l'
      → Step l bs l' (b ∷ cs)
  ends :
      {l l' : Log} {bs cs : List ℕ} {b : ℕ} {last : Bool}
      → Takes b bs cs
      → end_op l ≡ some (l', last)
      → Step l bs l' cs
  commits : {l : Log} {bs : List ℕ} (s : Io) → l.committing ≡ true → Step l bs (end_commit l s).0 bs

-- From one log to another by any number of steps.
pub data Reach : Log → List ℕ → Log → List ℕ → Type 0 where
  stay : {l : Log} {bs : List ℕ} → Reach l bs l bs
  more :
      {l l1 l2 : Log} {bs cs ds : List ℕ} → Reach l bs l1 cs → Step l1 cs l2 ds → Reach l bs l2 ds

pub record Reserved (l : Log) (bs : List ℕ) : Type 0 where
  pub room : l.lh.n + sum bs ≤ logsize
  pub space : logsize < l.size
  pub count : l.outstanding ≡ length bs
  pub within : IsWithin bs
  pub idle : (l.committing ≡ false) ⊎ (l.outstanding ≡ 0)
  pub distinct : (i j : ℕ) → i < l.lh.n → j < l.lh.n → l.lh.block i ≡ l.lh.block j → i ≡ j

pub Takes-sum :
    {b : ℕ} (bs cs : List ℕ) → Takes b bs cs → (sum bs ≡ b + sum cs) × (length bs ≡ suc (length cs))
unfolding sum
Takes-sum _ _ here = (refl, refl)
Takes-sum _ _ (there {x} {bs} {cs} t) = let (e, f) = Takes-sum bs cs t in (omega arith, omega arith)

pub Takes-IsWithin :
    {b : ℕ} (bs cs : List ℕ) → Takes b bs cs → IsWithin bs → (b ≤ maxopblocks) × IsWithin cs
Takes-IsWithin _ _ here (with_one e w) = (e, w)
Takes-IsWithin _ _ (there {x} {bs} {cs} t) (with_one e w) =
    let (f, v) = Takes-IsWithin bs cs t w in (f, with_one e v)

pub sum-IsWithin : (bs : List ℕ) → IsWithin bs → sum bs ≤ length bs * maxopblocks
unfolding sum
sum-IsWithin [] nobody = omega arith
sum-IsWithin (b ∷ bs) (with_one e w) = omega (arith, sum-IsWithin bs w)
