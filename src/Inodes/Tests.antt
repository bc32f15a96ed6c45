-- ===== src/Inodes/Tests.antt =====
-- Tests of the cache of inodes, and its theorems at a concrete input.
use cpsc.Prelude.{
  ◌&&◌, zero, suc, ℕ, ◌<◌, ◌≡◌, ◌∙◌, refl, sym, true, false, Option, some, ◌==◌, if◌then◌else◌, ltb,
  arith, ◌>>=◌,
}
use cpsc.Fs.{Super, bfree, get_bit, bit, clear_bit}
use cpsc.Inodes.{
  ndirect, Icache, Store, iget, scan, iput, discard, itrunc, iupdate, free_direct, free_rest,
  free_indirect, word,
}
use cpsc.Inodes.Refs.{IsUnique, IgetEnds, iget_lem}
use cpsc.Inodes.Fresh.{ialloc, ialloc_from, IallocEnds, ialloc_lem}
use cpsc.Inodes.Trunc.{NotMap, count}
use cpsc.Inodes.Emptied.{in_rest}
use cpsc.Inodes.Itrunc.{TruncEnds, owned}
use cpsc.Inodes.Last.{itrunc_lem}

-- Entry 3 is the only one in use: an inode without links, one block and one reference.
abbrev table : Icache
table i = record {
  dev = 1;
  inum = 7;
  ref = if i == 3 then 1 else 0;
  busy = false;
  valid = true;
  type = 2;
  major = 0;
  minor = 0;
  nlink = 0;
  size = 10;
  addrs = λ a. if a == 0 then 4 else 0;
}

table_one : (i : ℕ) → 0 < (table i).ref → i ≡ 3
table_one i h = ground (arith, h)

table-IsUnique : IsUnique table
table-IsUnique i j li lj ri rj d n = table_one i ri ∙ sym (table_one j rj)

abbrev super : Super
super = record {
  size = 8;
  nblocks = 3;
  ninodes = 8;
  nlog = 0;
  logstart = 0;
  inodestart = 1;
  bmapstart = 2;
}

abbrev store : Store
store = record {
  icache = table;
  dinodes = λ d n. record { type = 2; major = 0; minor = 0; nlink = 0; size = 10; addrs = λ a. 0 };
  blocks = λ b i. if i == 0 then 31 else 0;
}

entry_found : Option (ℕ × ℕ)
entry_found = iget 1 7 table >>= λ r. some (r.0, (r.1 r.0).ref)

entry_found_test : entry_found ≡ some (3, 2)
unfolding entry_found iget scan
entry_found_test = refl

entry_made : Option (ℕ × ℕ)
entry_made = iget 1 9 table >>= λ r. some (r.0, (r.1 r.0).ref)

entry_made_test : entry_made ≡ some (0, 1)
unfolding entry_made iget scan
entry_made_test = refl

freed_map : Option ℕ
freed_map = iput super 3 store >>= λ s. some (s.blocks 2 0)

freed_map_test : freed_map ≡ some 15
unfolding freed_map iput discard itrunc iupdate free_direct free_rest free_indirect word bfree
    get_bit bit clear_bit
freed_map_test = refl

iget_lem_example : IgetEnds 1 7 table (iget 1 7 table)
iget_lem_example = iget_lem 1 7 table table-IsUnique

-- The inode with an indirect block 5 that has block 6 in it, all three blocks in use.
abbrev larger : Store
larger = record store {
  icache = λ i. record (table i) { addrs = λ a. if a == 0 then 4 else (if a == 12 then 5 else 0) };
  blocks = λ b i. if b == 2 && i == 0 then 127 else (if b == 5 && i == 0 then 6 else 0);
}

larger_map : Option ℕ
larger_map = itrunc super 3 larger >>= λ s. some (s.blocks 2 0)

larger_map_test : larger_map ≡ some 15
unfolding larger_map itrunc iupdate free_direct free_rest free_indirect word bfree get_bit bit
    clear_bit
larger_map_test = refl

-- The blocks of the inode are below 8.
direct_small : (k i x : ℕ) → 0 < count (larger.icache 3).addrs k i x → x < 8
unfolding count
direct_small zero i x lt = absurd (omega arith)
direct_small (suc k) i x lt = ground (arith, direct_small k (suc i) x)

words_small : (k i x : ℕ) → 0 < count (word larger.blocks 5) k i x → x < 8
unfolding count word
words_small zero i x lt = absurd (omega arith)
words_small (suc k) i x lt = ground (arith, words_small k (suc i) x)

rest_small : (x : ℕ) → 0 < in_rest (larger.icache 3).addrs larger.blocks x → x < 8
unfolding in_rest
rest_small x lt = ground (arith, words_small 128 0 x)

not_five :
    NotMap super (owned (larger.icache 3).addrs larger.blocks) ((larger.icache 3).addrs ndirect)
not_five x lt e = ground (arith, e, lt, direct_small 12 0 x, rest_small x)

itrunc_lem_example : TruncEnds super 3 larger (itrunc super 3 larger)
itrunc_lem_example = itrunc_lem super 3 larger not_five

-- Inodes 1 and 2 are in use on the disk.
abbrev two_typed : Store
two_typed = record store {
  dinodes = λ d n. record {
    type = if ltb n 3 then 2 else 0;
    major = 0;
    minor = 0;
    nlink = 0;
    size = 10;
    addrs = λ a. 0;
  };
}

fresh : Option (ℕ × ℕ × ℕ)
fresh =
    ialloc super 1 1 two_typed >>= λ r. some (r.0, (r.1.icache r.0).inum, (r.1.dinodes 1 3).size)

fresh_test : fresh ≡ some (0, 3, 0)
unfolding fresh ialloc ialloc_from iget scan
fresh_test = refl

ialloc_lem_example : IallocEnds 1 super 1 1 two_typed (ialloc super 1 1 two_typed)
ialloc_lem_example = ialloc_lem super 1 1 two_typed table-IsUnique
