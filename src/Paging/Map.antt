-- ===== src/Paging/Map.antt =====
-- One page of `mappages`.
use cpsc.Prelude.{
  ℕ, suc, ◌+◌, ◌-◌, ◌*◌, ◌/◌, ◌%◌, ◌^◌, ◌≤◌, ◌<◌, ◌≡◌, ◌∙◌, refl, sym, ap, ◌⊎◌, inl, inr, Bool,
  true, false, ◌&&◌, Option, some, List, ◌==◌, leb, if◌then◌else◌, update, arith, Bool-cases,
}
use cpsc.Prelude.Int.{ℤ, pos, minus_one}
use cpsc.Pages.{pgsize, Kmem}
use cpsc.Paging.{ptx, present, walkpgdir, word_or, pte_p, map_loop}
use cpsc.Paging.Frames.{table, entry, IsDir}
use cpsc.Paging.Walk.{Found}
use cpsc.Paging.Entry.{put-IsDir, entry-put, entry_was}

-- The entry that `mappages` makes.
abbrev pub pte_of : ℕ → ℕ → ℕ
pte_of pa perm = word_or (word_or pa perm) pte_p

-- The page of `v` is one of those from `a` to `last`.
abbrev pub among : ℕ → ℕ → ℕ → Bool
among a last v = leb (a / pgsize) (v / pgsize) && leb (v / pgsize) (last / pgsize)

-- The pages from `a` to `last` are mapped to those from `pa`, and the other entries are as before.
pub record Mapped (limit pgdir a last pa perm : ℕ) (k k' : Kmem) : Type 0 where
  pub left : List ℕ
  pub dir : IsDir limit pgdir k'.words k'.freelist left
  pub entries :
      (v : ℕ)
      → v < 2 ^ 32
      → entry pgdir k'.words v ≡ (
          if among a last v
          then pte_of ((pa + pgsize * (v / pgsize - a / pgsize)) % 2 ^ 32) perm
          else entry pgdir k.words v)

-- There was no page for a table, and the entries outside the range are as before.
pub record Stopped (limit pgdir a last : ℕ) (k k' : Kmem) : Type 0 where
  pub left : List ℕ
  pub dir : IsDir limit pgdir k'.words k'.freelist left
  pub full : k'.freelist ≡ 0
  pub entries :
      (v : ℕ) → v < 2 ^ 32 → among a last v ≡ false → entry pgdir k'.words v ≡ entry pgdir k.words v

unfoldable pub MapEnds : ℕ → ℕ → ℕ → ℕ → ℕ → ℕ → Kmem → Option (ℤ × Kmem) → Type 0
MapEnds limit pgdir a last pa perm k r =
    (k' : Kmem) × (((r ≡ some (pos 0, k')) × Mapped limit pgdir a last pa perm k k')
      ⊎ ((r ≡ some (minus_one, k')) × Stopped limit pgdir a last k k'))

-- A page and the pages after it.
pub joined :
    (x a v pa perm last p : ℕ) (y : ℕ)
    → a % pgsize ≡ 0
    → a + pgsize ≤ last
    → x ≡ (
        if among (a + pgsize) last v
        then pte_of
            (((pa + pgsize) % 2 ^ 32 + pgsize * (v / pgsize - (a + pgsize) / pgsize)) % 2 ^ 32)
            perm
        else y)
    → y ≡ (if v / pgsize == a / pgsize then pte_of pa perm else p)
    → pa < 2 ^ 32
    → x ≡ (
        if among a last v
        then pte_of ((pa + pgsize * (v / pgsize - a / pgsize)) % 2 ^ 32) perm
        else p)
joined x a v pa perm last p y aligned le hx hy small =
    elim (Bool-cases (among (a + pgsize) last v)) [
      | inl later ↦
          hx ∙ rw (later, in_later later) (ap (λ q. pte_of q perm) (omega (arith, later_le later)))
      | inr not_later ↦ (hx ∙ rw not_later refl) ∙ (elim (Bool-cases (v / pgsize == a / pgsize)) [
        | inl here ↦
            hy ∙ rw (here, in_here here) (ap (λ q. pte_of q perm) (ground (arith, here, small)))
        | inr away ↦ hy ∙ rw (away, in_none away not_later) refl
      ])
    ]
  where
    later_le : among (a + pgsize) last v ≡ true → a / pgsize + 1 ≤ v / pgsize
    later_le later = ground (arith, later)

    in_later : among (a + pgsize) last v ≡ true → among a last v ≡ true
    in_later later = ground (arith, later)

    in_here : (v / pgsize == a / pgsize) ≡ true → among a last v ≡ true
    in_here here = ground (arith, here, le)

    in_none :
        (v / pgsize == a / pgsize) ≡ false
        → among (a + pgsize) last v ≡ false
        → among a last v ≡ false
    in_none away not_later = ground (arith, away, not_later)

pub round_full :
    (pgdir a last pa perm n : ℕ) (k : Kmem)
    → (walkpgdir pgdir a true k).0 ≡ 0
    → (walkpgdir pgdir a true k).1 ≡ k
    → map_loop (suc n) pgdir a last pa perm k ≡ some (minus_one, k)
unfolding map_loop
round_full pgdir a last pa perm n k zero_pte same =
    rw zero_pte (ap {A = Kmem} {B = Option (ℤ × Kmem)} (λ x. some (minus_one, x)) same)

-- One round, where there is a table.
module _ (limit pgdir a last pa perm : ℕ) (k : Kmem)
    (f : Found limit pgdir a k (walkpgdir pgdir a true k).0 (walkpgdir pgdir a true k).1) where
  abbrev k1 : Kmem
  k1 = (walkpgdir pgdir a true k).1

  abbrev pub next : Kmem
  next = record k1 { words = update k1.words (table pgdir k1.words a + 4 * ptx a) (pte_of pa perm) }

  pub next-IsDir : IsDir limit pgdir next.words next.freelist f.left
  next-IsDir = put-IsDir limit pgdir a (pte_of pa perm) k1.freelist k1.words f.left f.dir f.there

  pub entry-next :
      (v : ℕ)
      → a < 2 ^ 32
      → v < 2 ^ 32
      → entry pgdir next.words v
        ≡ (if v / pgsize == a / pgsize then pte_of pa perm else entry pgdir k.words v)
  entry-next v la lv =
      entry-put limit pgdir a (pte_of pa perm) k1.freelist k1.words f.left f.dir f.there v la lv
      ∙ ap (λ x. if v / pgsize == a / pgsize then pte_of pa perm else x) (f.same v)

  pub round_more :
      (n : ℕ)
      → present (entry pgdir k.words a) ≡ false
      → map_loop (suc n) pgdir a last pa perm k ≡ (
          if a == last
          then some (pos 0, next)
          else map_loop n pgdir ((a + pgsize) % 2 ^ 32) last ((pa + pgsize) % 2 ^ 32) perm next)
  unfolding map_loop
  round_more n fresh = rw (nonzero, f.place, unmapped) refl
    where
      unmapped : present (k1.words (table pgdir k1.words a + 4 * ptx a)) ≡ false
      unmapped =
          ap present (
            sym (
              entry_was limit pgdir a (pte_of pa perm) k1.freelist k1.words f.left f.dir f.there a
                f.there)
            ∙ f.same a)
          ∙ fresh

      nonzero : ((walkpgdir pgdir a true k).0 == 0) ≡ false
      nonzero = ground (arith, f.place, (f.dir.tables a f.there).place.above)
