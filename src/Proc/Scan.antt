-- ===== src/Proc/Scan.antt =====
-- The loops of proc.c over the table: what they find and what they change.
use native.Mathlib.Decide.{ℕ_discrete}
use cpsc.Prelude.{
  ℕ, zero, suc, ◌+◌, ◌≤◌, ◌<◌, ◌≡◌, ◌∙◌, inl, inr, Bool, true, false, ◌&&◌, Option, none, some, ltb,
  leb, if◌then◌else◌, update, arith, Bool-cases,
}
use cpsc.Proc.{nproc, Chan, Proc, Table, scan, for_each, wake, wakeup1}

-- What a scan of the `k` slots from `i` on returns.
abbrev pub Found : (Proc → Bool) → ℕ → ℕ → Table → Option ℕ → Type 0
Found test k i t (some j) =
    (i ≤ j) × (j < i + k) × (test (t j) ≡ true) × ((m : ℕ) → i ≤ m → m < j → test (t m) ≡ false)
Found test k i t none = (m : ℕ) → i ≤ m → m < i + k → test (t m) ≡ false

Found-later :
    (test : Proc → Bool) (k i : ℕ) (t : Table)
    → test (t i) ≡ false
    → (o : Option ℕ) → Found test k (suc i) t o
    → Found test (suc k) i t o
Found-later test k i t miss (some j) (lo, hi, hit, before) =
    (omega arith, omega arith, hit, λ m a b. below m a b)
  where
    below : (m : ℕ) → i ≤ m → m < j → test (t m) ≡ false
    below m a b = elim (ℕ_discrete i m) [ yes e ↦ rw (← e) miss | no ne ↦ before m (omega arith) b ]
Found-later test k i t miss none all = λ m a b. elim (ℕ_discrete i m) [
  | yes e ↦ rw (← e) miss
  | no ne ↦ all m (omega arith) (omega arith)
]

pub scan-Found : (test : Proc → Bool) (k i : ℕ) (t : Table) → Found test k i t (scan test k i t)
unfolding scan
scan-Found test zero i t = λ m a b. absurd (omega arith)
scan-Found test (suc k) i t = elim (Bool-cases (test (t i))) [
  | inl hit ↦ rw hit (omega arith, omega arith, hit, λ m a b. absurd (omega arith))
  | inr miss ↦
      rw miss (Found-later test k i t miss (scan test k (suc i) t) (scan-Found test k (suc i) t))
]

-- A loop that rewrites each slot by itself.
pub for_each-slots :
    (f : Proc → Proc) (k i : ℕ) (t : Table) (j : ℕ)
    → for_each (λ i t. update t i (f (t i))) k i t j
      ≡ (if leb i j && ltb j (i + k) then f (t j) else t j)
unfolding for_each
for_each-slots f zero i t j = ground arith
for_each-slots f (suc k) i t j = ground (arith, for_each-slots f k (suc i) (update t i (f (t i))) j)

-- `wakeup1` makes RUNNABLE exactly the processes that sleep on the channel.
pub wakeup1-slots :
    (c : Chan) (t : Table) (j : ℕ) → wakeup1 c t j ≡ (if ltb j nproc then wake c (t j) else t j)
unfolding wakeup1
wakeup1-slots c t j = for_each-slots (wake c) nproc 0 t j ∙ ground arith
