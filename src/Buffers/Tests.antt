-- ===== src/Buffers/Tests.antt =====
-- Two buffers in the circle, of which one is busy with the block 7.
use cpsc.Prelude.{◌≡◌, refl, ◌⊎◌, true, false, none, some, [], ◌∷◌, ◌==◌, if◌then◌else◌, arith}
use cpsc.Buffers.{head, Cache, bget, brelse}
use cpsc.Buffers.Cache.{IsCircle, Once}
use cpsc.Buffers.Refine.{GetEnds, bget_lem}
use cpsc.Buffers.Release.{Released, brelse_lem}

abbrev two_buffers : Cache
two_buffers x =
    if x == head
    then record {
      busy = false;
      valid = false;
      dirty = false;
      dev = 0;
      blockno = 0;
      prev = 1;
      next = 0;
    }
    else (if x == 0
        then record {
          busy = true;
          valid = true;
          dirty = false;
          dev = 1;
          blockno = 7;
          prev = head;
          next = 1;
        }
        else record {
          busy = false;
          valid = true;
          dirty = false;
          dev = 1;
          blockno = 8;
          prev = 0;
          next = head;
        })

two_buffers-IsCircle : IsCircle two_buffers (0 ∷ 1 ∷ [])
two_buffers-IsCircle = record {
  chain = (refl, refl, (refl, refl, (refl, refl)));
  distinct = omega arith;
  count = omega arith;
}

two_buffers-Once : Once two_buffers (0 ∷ 1 ∷ [])
two_buffers-Once a b p q e f lt = ground (arith, p, q)

bget_lem_example : GetEnds 1 9 two_buffers (0 ∷ 1 ∷ []) (bget 1 9 two_buffers)
bget_lem_example = bget_lem 1 9 two_buffers (0 ∷ 1 ∷ []) two_buffers-IsCircle two_buffers-Once

brelse_lem_example :
    (((two_buffers 0).busy ≡ false) × (brelse 0 two_buffers ≡ none))
    ⊎ ((c : Cache) × (brelse 0 two_buffers ≡ some c) × Released 0 two_buffers c (0 ∷ 1 ∷ []))
brelse_lem_example = brelse_lem two_buffers 0 [] (1 ∷ []) two_buffers-IsCircle two_buffers-Once
