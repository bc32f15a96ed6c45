-- ===== src/Dirs.antt =====
-- The directories of fs.c: files of entries of 16 bytes, a number of an inode and a name. A name is
-- a buffer of bytes.
pub mod Entries
pub mod Names
pub mod Link
pub mod Added
mod Tests
use cpsc.Prelude.{
  ℕ, zero, suc, ◌+◌, ◌-◌, ◌*◌, ◌/◌, ◌%◌, Bool, true, false, not, ◌&&◌, Option, none, some, List, [],
  ◌∷◌, ◌==◌, ltb, leb, if◌then◌else◌, ◌>>=◌,
}
use cpsc.Prelude.Int.{ℤ, pos, negsuc, minus_one}
use cpsc.Fs.{Super}
use cpsc.Inodes.{Store, iget, iput}
use cpsc.Content.{readi, writei, DevReads, DevWrites}
use cpsc.Paths.{dirsiz}
use cpsc.Strings.{strncmp, strncpy}

abbrev pub t_dir : ℕ
t_dir = 1

abbrev pub dirent_size : ℕ
dirent_size = 16

-- A byte that was read.
abbrev pub byte_of : List ℕ → ℕ → ℕ
byte_of [] j = 0
byte_of (x ∷ xs) zero = x
byte_of (x ∷ xs) (suc j) = byte_of xs j

-- `de.inum` and `de.name`.
abbrev pub de_inum : List ℕ → ℕ
de_inum de = byte_of de 0 + 256 * byte_of de 1

abbrev pub de_name : List ℕ → ℕ → ℕ
de_name de j = byte_of de (2 + j)

-- Two names, one after the other in memory.
abbrev pub two_names : (ℕ → ℕ) → (ℕ → ℕ) → ℕ → ℕ
two_names s t a = if ltb a dirsiz then s a else t (a - dirsiz)

abbrev pub namecmp : (ℕ → ℕ) → (ℕ → ℕ) → ℤ
namecmp s t = strncmp 0 dirsiz dirsiz (two_names s t)

abbrev pub is_value : ℕ → ℤ → Bool
is_value n (pos m) = m == n
is_value n (negsuc m) = false

-- The tests of the two loops on an entry.
abbrev pub matches : (ℕ → ℕ) → List ℕ → Bool
matches name de = not (de_inum de == 0) && is_value 0 (namecmp name (de_name de))

abbrev pub is_empty : List ℕ → Bool
is_empty de = de_inum de == 0

-- The loop from `off` to an entry that meets the test; the entry, the last `off` and the store.
-- `none` is the panic.
unfoldable pub scan_dir :
    ℕ → DevReads → Super → (List ℕ → Bool) → ℕ → ℕ → Store → Option (Option (List ℕ) × ℕ × Store)
scan_dir zero reads sb test i off s = some (none, off, s)
scan_dir (suc k) reads sb test i off s =
    let more = do
      (r, de, s1) ← readi reads sb i off dirent_size s
      let rest = scan_dir k reads sb test i (off + dirent_size) s1
      let next = if test de then some (some de, off, s1) else rest
      if is_value dirent_size r then next else none
    in if ltb off (s.icache i).size then more else some (none, off, s)

-- A round is one entry.
abbrev pub scan_all :
    DevReads → Super → (List ℕ → Bool) → ℕ → Store → Option (Option (List ℕ) × ℕ × Store)
scan_all reads sb test i s = scan_dir (suc ((s.icache i).size / dirent_size)) reads sb test i 0 s

-- What `dirlookup` does with the entry that it finds.
abbrev pub get_inode : ℕ → Option (List ℕ) × ℕ × Store → Option (Option (ℕ × ℕ) × Store)
get_inode dev (none, off, s) = some (none, s)
get_inode dev (some de, off, s) = do
  (j, c) ← iget dev (de_inum de) s.icache
  some (some (off, j), record s { icache = c })

-- `dirlookup`: the offset of the entry and the inode.
unfoldable pub dirlookup : DevReads → Super → (ℕ → ℕ) → ℕ → Store → Option (Option (ℕ × ℕ) × Store)
dirlookup reads sb name i s =
    let found = scan_all reads sb (matches name) i s >>= get_inode (s.icache i).dev in
    if (s.icache i).type == t_dir then found else none

-- `de.name` after `strncpy`, which sets each byte of it.
abbrev pub padded : (ℕ → ℕ) → ℕ → ℕ
padded name j = strncpy dirsiz 0 dirsiz (two_names name (λ a. 0)) (dirsiz + j)

-- The bytes of a new entry.
abbrev pub dirent : (ℕ → ℕ) → ℕ → ℕ → ℕ
dirent name inum j =
    if j == 0 then inum % 256 else (if j == 1 then inum / 256 % 256 else padded name (j - 2))

abbrev pub whole_entry : ℤ × Store → Option (ℤ × Store)
whole_entry (r, s) = if is_value dirent_size r then some (pos 0, s) else none

-- The rest of `dirlink`, after the search for the name.
abbrev pub add_entry :
    DevReads → DevWrites → Super → (ℕ → ℕ) → ℕ → ℕ → Option (ℕ × ℕ) × Store → Option (ℤ × Store)
add_entry reads writes sb name inum i (some (off, j), s) = do s1 ← iput sb j s; some (minus_one, s1)
add_entry reads writes sb name inum i (none, s) = do
  (de, off, s1) ← scan_all reads sb is_empty i s
  r ← writei writes sb i (dirent name inum) off dirent_size s1
  whole_entry r

unfoldable pub dirlink : DevReads → DevWrites → Super → (ℕ → ℕ) → ℕ → ℕ → Store → Option (ℤ × Store)
dirlink reads writes sb name inum i s =
    dirlookup reads sb name i s >>= add_entry reads writes sb name inum i
