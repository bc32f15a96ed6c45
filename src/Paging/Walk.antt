-- ===== src/Paging/Walk.antt =====
-- `walkpgdir`, which may add a table.
use native.Mathlib.Decide.{dec_lt}
use cpsc.Prelude.{
  ℕ, ◌+◌, ◌*◌, ◌<◌, ◌≡◌, refl, sym, ap, ◌⊎◌, inl, inr, Bool, true, false, List, ◌==◌, arith,
  Bool-cases,
}
use cpsc.Pages.{Kmem, kalloc}
use cpsc.Pages.Freelist.{IsListed, stop, more}
use cpsc.Paging.{ptx, present, new_table, walkpgdir}
use cpsc.Paging.Grown.{IsNone-head, made-IsDir, entries_kept}
use cpsc.Paging.Fresh.{now_there, table_is_page}
use cpsc.Paging.Frames.{AllRam, one_more, slot, table, entry, IsDir}

-- The address of the entry for `va`, in a memory where no entry has changed.
pub record Found (limit pgdir va : ℕ) (k : Kmem) (pte : ℕ) (k' : Kmem) : Type 0 where
  pub left : List ℕ
  pub dir : IsDir limit pgdir k'.words k'.freelist left
  pub there : present (k'.words (slot pgdir va)) ≡ true
  pub place : pte ≡ table pgdir k'.words va + 4 * ptx va
  pub same : (vb : ℕ) → entry pgdir k'.words vb ≡ entry pgdir k.words vb

abbrev pub Walked : ℕ → ℕ → ℕ → Kmem → ℕ × Kmem → Type 0
Walked limit pgdir va k r =
    ((r.0 ≡ 0) × (r.1 ≡ k) × (k.freelist ≡ 0)) ⊎ Found limit pgdir va k r.0 r.1

pub walk_there :
    (pgdir va : ℕ) (alloc : Bool) (k : Kmem)
    → present (k.words (slot pgdir va)) ≡ true
    → walkpgdir pgdir va alloc k ≡ (table pgdir k.words va + 4 * ptx va, k)
unfolding walkpgdir
walk_there pgdir va alloc k there = rw there refl

walk_full :
    (pgdir va : ℕ) (k : Kmem)
    → present (k.words (slot pgdir va)) ≡ false
    → k.freelist ≡ 0
    → walkpgdir pgdir va true k ≡ (0, k)
unfolding walkpgdir kalloc
walk_full pgdir va k absent e = rw (absent, e) refl

walk_new :
    (pgdir va : ℕ) (k : Kmem)
    → present (k.words (slot pgdir va)) ≡ false
    → 0 < k.freelist
    → walkpgdir pgdir va true k ≡ (
      k.freelist + 4 * ptx va,
      record {
        freelist = k.words k.freelist;
        words = new_table (slot pgdir va) k.freelist k.words;
      },
    )
unfolding walkpgdir kalloc
walk_new pgdir va k absent low = rw (absent, nonzero) refl
  where
    nonzero : (k.freelist == 0) ≡ false
    nonzero = ground arith

walk_new-Found :
    (limit pgdir va : ℕ) (k : Kmem) (ps : List ℕ)
    → 0 < k.freelist
    → IsDir limit pgdir k.words k.freelist ps
    → present (k.words (slot pgdir va)) ≡ false
    → IsListed limit k.words k.freelist ps
    → AllRam ps
    → Found limit pgdir va k (k.freelist + 4 * ptx va) (record {
      freelist = k.words k.freelist;
      words = new_table (slot pgdir va) k.freelist k.words;
    })
walk_new-Found limit pgdir va k ps low d absent (stop e) ram = absurd (omega arith)
walk_new-Found limit pgdir va k _ low d absent (more low' page gone rest)
      (one_more {ps = qs} r ram) =
    let dir = made-IsDir limit pgdir va k.freelist k.words qs r ram gone rest d absent in
    record {
      left = qs;
      dir = dir;
      there = now_there pgdir va k.freelist k.words d.place r (IsNone-head d.used) va refl;
      place =
          ap (λ t. t + 4 * ptx va)
            (sym
              (table_is_page pgdir va k.freelist k.words d.place r (IsNone-head d.used) va refl));
      same = entries_kept limit pgdir va k.freelist k.words qs r ram gone rest d absent;
    }

-- `walkpgdir` that may add a table, on a directory whose tables and free pages are different pages.
pub walkpgdir_lem :
    (limit pgdir va : ℕ) (k : Kmem) (ps : List ℕ)
    → IsDir limit pgdir k.words k.freelist ps
    → Walked limit pgdir va k (walkpgdir pgdir va true k)
walkpgdir_lem limit pgdir va k ps d = elim (Bool-cases (present (k.words (slot pgdir va)))) [
  | inl there ↦
      rw (walk_there pgdir va true k there)
        (inr (record { left = ps; dir = d; there = there; place = refl; same = λ vb. refl }))
  | inr absent ↦ elim (dec_lt 0 k.freelist) [
    | yes low ↦
        rw (walk_new pgdir va k absent low)
          (inr (walk_new-Found limit pgdir va k ps low d absent d.list d.ram))
    | no high ↦ rw (walk_full pgdir va k absent (omega arith)) (inl (refl, refl, omega arith))
  ]
]
