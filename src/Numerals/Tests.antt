-- ===== src/Numerals/Tests.antt =====
-- `printint` and `atoi` on a few numbers.
use cpsc.Prelude.{◌≡◌, ◌≤◌, true, false, length, arith}
use cpsc.Numerals.{printint, atoi}
use cpsc.Numerals.Roundtrip.{printint_lem, printint_fits}

printint_lem_example : atoi (printint 4050 10 false) ≡ 4050
printint_lem_example = printint_lem 4050 (omega arith)

printint_fits_example : length (printint 0x80000000 10 true) ≤ 16
printint_fits_example = printint_fits 0x80000000 true (omega arith)
