-- ===== src/Strings/Tests.antt =====
-- The properties of string.c on a few bytes.
use cpsc.Prelude.{◌%◌}
use cpsc.Strings.{Memory, memmove}
use cpsc.Strings.Copy.{Copied, memmove_lem}

abbrev counting : Memory
counting x = x % 7

memmove_lem_example : Copied 12 10 5 counting (memmove 12 10 5 counting)
memmove_lem_example = memmove_lem 12 10 5 counting
