-- ===== src/Pages/Tests.antt =====
-- Two pages above the kernel's image, one of them free.
use cpsc.Prelude.{ℕ, ◌+◌, ◌≤◌, ◌<◌, ◌≡◌, ◌⊎◌, refl, some, [], ◌∷◌, arith}
use cpsc.Pages.{pgsize, Kmem, kfree, kalloc}
use cpsc.Pages.Freelist.{end_of, other, IsListed, stop, more, kfree_lem}

abbrev image_end : ℕ
image_end = 0x80100000

abbrev one_page : Kmem
one_page = record { freelist = 0x80101000; words = λ a. 0 }

one_page-IsListed : IsListed image_end one_page.words one_page.freelist (0x80101000 ∷ [])
one_page-IsListed =
    more (omega arith) (record { aligned = refl; above = omega arith; below = omega arith }) end_of
      (stop refl)

kfree_lem_example :
    (k : Kmem) × (kfree image_end 0x80102000 one_page ≡ some k)
    × IsListed image_end k.words k.freelist (0x80102000 ∷ 0x80101000 ∷ [])
    × ((a : ℕ) → (a < 0x80102000) ⊎ (0x80102000 + pgsize ≤ a) → k.words a ≡ one_page.words a)
    × ((kalloc k).0 ≡ 0x80102000)
    × IsListed image_end (kalloc k).1.words (kalloc k).1.freelist (0x80101000 ∷ [])
kfree_lem_example =
    kfree_lem image_end 0x80102000 one_page (0x80101000 ∷ []) (omega arith)
      (record { aligned = refl; above = omega arith; below = omega arith }) one_page-IsListed
      (other (λ e. omega arith) end_of)
