-- ===== src/Pages/Freelist.antt =====
-- The list of free pages, as `kfree` and `kalloc` keep it.
use cpsc.Prelude.{
  ℕ, ◌+◌, ◌%◌, ◌≤◌, ◌<◌, ◌≡◌, ◌≢◌, refl, ◌⊎◌, inl, inr, true, false, some, List, [], ◌∷◌, ◌==◌,
  update, update_self, arith,
}
use cpsc.Pages.{pgsize, phystop, Kmem, v2p, junk, kfree, kalloc}

-- A page that `kfree` takes.
pub record IsPage (limit v : ℕ) : Type 0 where
  pub aligned : v % pgsize ≡ 0
  pub above : limit ≤ v
  pub below : v2p v < phystop

-- `v` is none of the pages.
pub data IsNone (v : ℕ) : List ℕ → Type 0 where
  end_of : IsNone v []
  other : {p : ℕ} {ps : List ℕ} → v ≢ p → IsNone v ps → IsNone v (p ∷ ps)

-- The pages that the list from `p` on goes through, once each, in its order.
pub data IsListed (limit : ℕ) (words : ℕ → ℕ) : ℕ → List ℕ → Type 0 where
  stop : {p : ℕ} → p ≡ 0 → IsListed limit words p []
  more :
      {p : ℕ} {ps : List ℕ}
      → 0 < p
      → IsPage limit p
      → IsNone p ps
      → IsListed limit words (words p) ps
      → IsListed limit words p (p ∷ ps)

-- A store in another page leaves the list alone.
IsListed-other :
    (limit v n : ℕ) (words : ℕ → ℕ) (p : ℕ) (ps : List ℕ)
    → v % pgsize ≡ 0
    → IsNone v ps
    → IsListed limit words p ps
    → IsListed limit (update (junk v words) v n) p ps
IsListed-other limit v n words p ps aligned gone (stop e) = stop e
IsListed-other limit v n words _ _ aligned (other ne gone)
      (more {p = p} {ps} pos page none_of rest) =
    more pos page none_of (rw same (IsListed-other limit v n words (words p) ps aligned gone rest))
  where
    same : update (junk v words) v n p ≡ words p
    same = ground (arith, page.aligned)

-- `kfree` of a page that is not free puts it at the head of the list and changes no word outside the
-- page, and the next `kalloc` hands it out again and leaves the list as it was before.
pub kfree_lem :
    (limit v : ℕ) (k : Kmem) (ps : List ℕ)
    → 0 < limit
    → IsPage limit v
    → IsListed limit k.words k.freelist ps
    → IsNone v ps
    → (k' : Kmem) × (kfree limit v k ≡ some k')
      × IsListed limit k'.words k'.freelist (v ∷ ps)
      × ((a : ℕ) → (a < v) ⊎ (v + pgsize ≤ a) → k'.words a ≡ k.words a)
      × ((kalloc k').0 ≡ v)
      × IsListed limit (kalloc k').1.words (kalloc k').1.freelist ps
unfolding kfree kalloc
kfree_lem limit v k ps low page list gone = (
  k',
  accepted,
  more (omega (arith, page.above)) page gone freed,
  (λ a o. ground arith),
  refl,
  rw nonzero freed,
)
  where
    k' : Kmem
    k' = record { freelist = v; words = update (junk v k.words) v k.freelist }

    accepted : kfree limit v k ≡ some k'
    accepted = ground (arith, page.aligned, page.above, page.below)

    head : k'.words v ≡ k.freelist
    head = update_self (junk v k.words) v k.freelist

    freed : IsListed limit k'.words (k'.words v) ps
    freed = rw head (IsListed-other limit v k.freelist k.words k.freelist ps page.aligned gone list)

    nonzero : (v == 0) ≡ false
    nonzero = ground (arith, page.above)

-- `kalloc` returns 0 and changes nothing if no page is free; else it hands out the first free page,
-- which is not on the list any more, and changes no word of the memory.
kalloc_lem :
    (limit : ℕ) (k : Kmem) (ps : List ℕ)
    → IsListed limit k.words k.freelist ps
    → ((ps ≡ []) × ((kalloc k).0 ≡ 0) × ((kalloc k).1 ≡ k))
      ⊎ ((qs : List ℕ) × (ps ≡ (kalloc k).0 ∷ qs)
          × (0 < (kalloc k).0)
          × IsNone (kalloc k).0 qs
          × IsListed limit (kalloc k).1.words (kalloc k).1.freelist qs
          × ((kalloc k).1.words ≡ k.words))
unfolding kalloc
kalloc_lem limit k _ (stop e) = inl (refl, e, rw (is_zero e) refl)
  where
    is_zero : k.freelist ≡ 0 → (k.freelist == 0) ≡ true
    is_zero e = ground arith
kalloc_lem limit k _ (more {p} {ps} pos page none_of rest) =
    inr (ps, refl, pos, none_of, rw (nonzero pos) rest, rw (nonzero pos) refl)
  where
    nonzero : 0 < k.freelist → (k.freelist == 0) ≡ false
    nonzero pos = ground arith
