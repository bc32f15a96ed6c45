-- ===== src/Paging/Range.antt =====
-- `mappages`, page after page.
use cpsc.Prelude.{
  ℕ, suc, ◌+◌, ◌-◌, ◌*◌, ◌/◌, ◌%◌, ◌^◌, ◌≤◌, ◌<◌, ◌≡◌, ◌∙◌, refl, ap, inl, inr, true, false, List,
  ◌==◌, if◌then◌else◌, arith, Bool-cases,
}
use cpsc.Pages.{pgsize, Kmem}
use cpsc.Paging.{present, walkpgdir, map_loop}
use cpsc.Paging.Frames.{entry, IsDir}
use cpsc.Paging.Walk.{Found}
use cpsc.Paging.Map.{
  pte_of, among, MapEnds, joined, round_full, round_more, next, next-IsDir, entry-next,
}

-- No page of the range is mapped.
abbrev pub Unmapped : ℕ → ℕ → ℕ → Kmem → Type 0
Unmapped pgdir a last k =
    (v : ℕ) → v < 2 ^ 32 → among a last v ≡ true → present (entry pgdir k.words v) ≡ false

pub full-MapEnds :
    (limit pgdir a last pa perm n : ℕ) (k : Kmem) (ps : List ℕ)
    → IsDir limit pgdir k.words k.freelist ps
    → (walkpgdir pgdir a true k).0 ≡ 0
    → (walkpgdir pgdir a true k).1 ≡ k
    → k.freelist ≡ 0
    → MapEnds limit pgdir a last pa perm k (map_loop (suc n) pgdir a last pa perm k)
unfolding MapEnds
full-MapEnds limit pgdir a last pa perm n k ps d zero_pte same full = (
  k,
  inr (
    round_full pgdir a last pa perm n k zero_pte same,
    record { left = ps; dir = d; full = full; entries = λ v lt out. refl },
  ),
)

-- The last page.
pub last-MapEnds :
    (limit pgdir a pa perm : ℕ) (k : Kmem)
    → Found limit pgdir a k (walkpgdir pgdir a true k).0 (walkpgdir pgdir a true k).1
    → a < 2 ^ 32
    → pa < 2 ^ 32
    → present (entry pgdir k.words a) ≡ false
    → MapEnds limit pgdir a a pa perm k (map_loop 1 pgdir a a pa perm k)
unfolding MapEnds
last-MapEnds limit pgdir a pa perm k f la lp fresh = (
  next limit pgdir a a pa perm k f,
  inl (
    round_more limit pgdir a a pa perm k f 0 fresh ∙ rw (self a) refl,
    record {
      left = f.left;
      dir = next-IsDir limit pgdir a a pa perm k f;
      entries = λ v lv. entry-next limit pgdir a a pa perm k f v la lv ∙ only v;
    },
  ),
)
  where
    self : (x : ℕ) → (x == x) ≡ true
    self x = ground arith

    only :
        (v : ℕ)
        → (if v / pgsize == a / pgsize then pte_of pa perm else entry pgdir k.words v) ≡ (
            if among a a v
            then pte_of ((pa + pgsize * (v / pgsize - a / pgsize)) % 2 ^ 32) perm
            else entry pgdir k.words v)
    only v = elim (Bool-cases (v / pgsize == a / pgsize)) [
      | inl here ↦ rw (here, in_one here) (ap (λ q. pte_of q perm) (ground (arith, here, lp)))
      | inr away ↦ rw (away, in_none away) refl
    ]
      where
        in_one : (v / pgsize == a / pgsize) ≡ true → among a a v ≡ true
        in_one here = ground (arith, here)

        in_none : (v / pgsize == a / pgsize) ≡ false → among a a v ≡ false
        in_none away = ground (arith, away)

-- A page before others.
module _ (limit pgdir a last pa perm : ℕ) (k : Kmem)
    (f : Found limit pgdir a k (walkpgdir pgdir a true k).0 (walkpgdir pgdir a true k).1)
    (aligned : a % pgsize ≡ 0) (more : a + pgsize ≤ last) (top : last < 2 ^ 32)
    (small : pa < 2 ^ 32) where
  abbrev k2 : Kmem
  k2 = next limit pgdir a last pa perm k f

  abbrev pa2 : ℕ
  pa2 = (pa + pgsize) % 2 ^ 32

  untouched :
      (v : ℕ)
      → v < 2 ^ 32
      → (v / pgsize == a / pgsize) ≡ false
      → entry pgdir k2.words v ≡ entry pgdir k.words v
  untouched v lv away = entry-next limit pgdir a last pa perm k f v (omega arith) lv ∙ rw away refl

  pub next-Unmapped : Unmapped pgdir a last k → Unmapped pgdir (a + pgsize) last k2
  next-Unmapped fresh v lv later =
      ap present (untouched v lv away) ∙ fresh v lv (ground (arith, later))
    where
      away : (v / pgsize == a / pgsize) ≡ false
      away = ground (arith, later)

  pub next-MapEnds :
      (n : ℕ)
      → present (entry pgdir k.words a) ≡ false
      → MapEnds limit pgdir
          (a + pgsize)
          last
          pa2
          perm
          k2
          (map_loop n pgdir (a + pgsize) last pa2 perm k2)
      → MapEnds limit pgdir a last pa perm k (map_loop (suc n) pgdir a last pa perm k)
  unfolding MapEnds
  next-MapEnds n fresh (k', ends) = (
    k',
    elim ends [
      | inl (run, m) ↦ inl (
        step ∙ run,
        record {
          left = m.left;
          dir = m.dir;
          entries = λ v lv.
              joined _ a v pa perm last _ _ aligned more (m.entries v lv)
                (entry-next limit pgdir a last pa perm k f v (omega arith) lv) small;
        },
      )
      | inr (run, m) ↦ inr (
        step ∙ run,
        record {
          left = m.left;
          dir = m.dir;
          full = m.full;
          entries = λ v lv out.
              m.entries v lv (ground (arith, out)) ∙ untouched v lv (ground (arith, out, more));
        },
      )
    ],
  )
    where
      step :
          map_loop (suc n) pgdir a last pa perm k ≡ map_loop n pgdir (a + pgsize) last pa2 perm k2
      step =
          round_more limit pgdir a last pa perm k f n fresh
          ∙ rw not_last (ap (λ x. map_loop n pgdir x last pa2 perm k2) (omega arith))
        where
          not_last : (a == last) ≡ false
          not_last = ground (arith, more)
