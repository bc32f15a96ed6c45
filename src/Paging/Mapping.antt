-- ===== src/Paging/Mapping.antt =====
-- The loop of `mappages`, and `mappages`.
use cpsc.Prelude.{ℕ, zero, suc, ◌+◌, ◌-◌, ◌*◌, ◌/◌, ◌%◌, ◌^◌, ◌≤◌, ◌<◌, ◌≡◌, inl, inr, List, arith}
use cpsc.Pages.{pgsize, Kmem}
use cpsc.Paging.{round_down, map_loop, mappages}
use cpsc.Paging.Frames.{IsDir}
use cpsc.Paging.Walk.{walkpgdir_lem}
use cpsc.Paging.Map.{MapEnds, next, next-IsDir}
use cpsc.Paging.Range.{Unmapped, full-MapEnds, last-MapEnds, next-Unmapped, next-MapEnds}

map_loop-MapEnds :
    (n limit pgdir a last pa perm : ℕ) (k : Kmem) (ps : List ℕ)
    → IsDir limit pgdir k.words k.freelist ps
    → a % pgsize ≡ 0
    → last ≡ a + pgsize * n
    → last < 2 ^ 32
    → pa < 2 ^ 32
    → Unmapped pgdir a last k
    → MapEnds limit pgdir a last pa perm k (map_loop (suc n) pgdir a last pa perm k)
map_loop-MapEnds zero limit pgdir a last pa perm k ps d aligned e top small fresh =
    elim (walkpgdir_lem limit pgdir a k ps d) [
      | inl (zero_pte, same, full) ↦
          full-MapEnds limit pgdir a last pa perm 0 k ps d zero_pte same full
      | inr f ↦ rw last_page (
          last-MapEnds limit pgdir a pa perm k f (omega arith) small
            (fresh a (omega arith) (ground (arith, e))))
    ]
  where
    last_page : last ≡ a
    last_page = omega (arith, e)
map_loop-MapEnds (suc n) limit pgdir a last pa perm k ps d aligned e top small fresh =
    elim (walkpgdir_lem limit pgdir a k ps d) [
      | inl (zero_pte, same, full) ↦
          full-MapEnds limit pgdir a last pa perm (suc n) k ps d zero_pte same full
      | inr f ↦
          next-MapEnds limit pgdir a last pa perm k f aligned (omega arith) top small (suc n)
            (fresh a (omega arith) (ground (arith, e)))
            (map_loop-MapEnds n limit pgdir (a + pgsize) last ((pa + pgsize) % 2 ^ 32) perm
              (next limit pgdir a last pa perm k f) f.left
              (next-IsDir limit pgdir a last pa perm k f) (omega arith) (omega arith) top
              (omega arith)
              (next-Unmapped limit pgdir a last pa perm k f aligned (omega arith) top small fresh))
    ]

-- `mappages` of some bytes within the 32 bits, on pages none of which is mapped, on a directory whose
-- tables and free pages are different pages. It returns 0, and each page of the range has its entry,
-- for the page at the same distance from `pa` and with `perm`, while the other entries are as
-- before; or it returns -1 because no page is free for a table, and the entries outside the range
-- are as before. It does not panic, and the tables and the free pages stay different pages.
pub mappages_lem :
    (limit pgdir va size pa perm : ℕ) (k : Kmem) (ps : List ℕ)
    → IsDir limit pgdir k.words k.freelist ps
    → 0 < size
    → va + size ≤ 2 ^ 32
    → pa < 2 ^ 32
    → Unmapped pgdir va (va + size - 1) k
    → MapEnds limit pgdir
        (round_down va)
        (round_down (va + size - 1))
        pa
        perm
        k
        (mappages pgdir va size pa perm k)
unfolding mappages
mappages_lem limit pgdir va size pa perm k ps d some_bytes fits small fresh =
    rw (ends, rounds)
      (map_loop-MapEnds ((last - a) / pgsize) limit pgdir a last pa perm k ps d (omega arith)
        (omega arith) (omega arith) small (λ v lv out. fresh v lv (ground (arith, out))))
  where
    a : ℕ
    a = round_down va

    last : ℕ
    last = round_down (va + size - 1)

    ends : (va + size + (2 ^ 32 - 1)) % 2 ^ 32 ≡ va + size - 1
    ends = omega arith

    rounds : (last + 2 ^ 32 - a) % 2 ^ 32 / pgsize ≡ (last - a) / pgsize
    rounds = omega arith
