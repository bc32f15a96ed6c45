-- ===== src/Pipe/Tests.antt =====
-- The properties of pipe.c on pipes with a few bytes, near the wrap of the counters and full.
use cpsc.Prelude.{◌-◌, ◌^◌, ◌≡◌, refl, true, false, [], ◌∷◌, ◌++◌, arith}
use cpsc.Pipe.{Pipe, at_nread, at_nwrite, sleeps, write, write_loop, read, init}
use cpsc.Pipe.Ring.{IsValid, contents}
use cpsc.Pipe.Order.{pipe_of, left_of, Wrote, WriteEnds, ReadEnds, write_lem, read_lem}
use cpsc.Pipe.Schedule.{writes, reads, closes, History, run, InOrder, run-InOrder}

-- Two bytes, with the write counter past its wrap.
abbrev two_bytes : Pipe
two_bytes = record {
  buffer = λ i. i;
  nread = 2 ^ 32 - 1;
  nwrite = 1;
  readopen = true;
  writeopen = true;
}

two_bytes-IsValid : IsValid two_bytes
two_bytes-IsValid = record { nread_u32 = omega arith; nwrite_u32 = omega arith; fits = omega arith }

write_lem_example :
    Wrote two_bytes (7 ∷ 8 ∷ []) (write 2 false two_bytes (7 ∷ 8 ∷ []))
    × WriteEnds 2 false (write 2 false two_bytes (7 ∷ 8 ∷ []))
write_lem_example = write_lem 2 false two_bytes (7 ∷ 8 ∷ []) two_bytes-IsValid

read_lem_example :
    IsValid (pipe_of (read 5 false two_bytes))
    × (contents two_bytes
        ≡ left_of (read 5 false two_bytes) ++ contents (pipe_of (read 5 false two_bytes)))
    × ReadEnds 5 false two_bytes (read 5 false two_bytes)
read_lem_example = read_lem 5 false two_bytes two_bytes-IsValid

-- A full ring.
abbrev full_ring : Pipe
full_ring = record { buffer = λ i. 9; nread = 3; nwrite = 515; readopen = true; writeopen = true }

full_ring-IsValid : IsValid full_ring
full_ring-IsValid = record { nread_u32 = omega arith; nwrite_u32 = omega arith; fits = omega arith }

full_write : write 1 false full_ring (7 ∷ []) ≡ sleeps at_nwrite (7 ∷ []) full_ring (at_nread ∷ [])
unfolding write write_loop
full_write = refl

abbrev begun : History
begun = record { pipe = init (λ i. 0); sent = []; received = [] }

begun-InOrder : InOrder begun
unfolding init contents
begun-InOrder = record {
  valid = record { nread_u32 = omega arith; nwrite_u32 = omega arith; fits = omega arith };
  order = refl;
}

run-InOrder_example :
    InOrder (
      run begun
        (writes 3 false (1 ∷ 2 ∷ 3 ∷ []) ∷ reads 2 false ∷ closes true ∷ reads 9 false ∷ []))
run-InOrder_example =
    run-InOrder begun
      (writes 3 false (1 ∷ 2 ∷ 3 ∷ []) ∷ reads 2 false ∷ closes true ∷ reads 9 false ∷ [])
      begun-InOrder
