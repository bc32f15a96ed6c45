-- ===== src/Paging/Tests.antt =====
-- Tests of the tables of pages, and their theorem at a concrete input.
use cpsc.Prelude.{
  ℕ, ◌+◌, ◌-◌, ◌*◌, ◌/◌, ◌^◌, ◌<◌, ◌≡◌, ◌∙◌, refl, sym, ap, true, false, Option, none, some, [],
  ◌∷◌, ◌==◌, if◌then◌else◌, arith,
}
use cpsc.Prelude.Int.{ℤ, pos}
use cpsc.Pages.{pgsize, kernbase, Kmem, kalloc}
use cpsc.Pages.Freelist.{end_of, other, stop, more}
use cpsc.Paging.{
  bits_or, walkpgdir, map_loop, mappages, present, round_down, pdx, p2v, pte_addr, uva2ka,
  clearpteu,
}
use cpsc.Paging.User.{uva2ka-clearpteu}
use cpsc.Paging.Frames.{table, none_left, one_more, slot, entry, IsDir}
use cpsc.Paging.Map.{MapEnds}
use cpsc.Paging.Range.{Unmapped}
use cpsc.Paging.Mapping.{mappages_lem}

-- An empty directory, and two free pages.
abbrev base : ℕ
base = kernbase + 0x100000

abbrev directory : ℕ
directory = kernbase + 0x400000

abbrev first_page : ℕ
first_page = kernbase + 0x401000

abbrev second_page : ℕ
second_page = kernbase + 0x402000

abbrev memory : Kmem
memory = record { freelist = first_page; words = λ a. if a == first_page then second_page else 0 }

no_table : (va : ℕ) → present (memory.words (slot directory va)) ≡ false
no_table va = ground arith

memory-IsDir : IsDir base directory memory.words memory.freelist (first_page ∷ second_page ∷ [])
memory-IsDir = record {
  list =
      more (omega arith) (record { aligned = refl; above = omega arith; below = omega arith })
        (other (omega arith) end_of)
        (more (omega arith) (record { aligned = refl; above = omega arith; below = omega arith })
          end_of (stop refl));
  ram =
      one_more (record { aligned = refl; above = omega arith; below = omega arith })
        (one_more (record { aligned = refl; above = omega arith; below = omega arith }) none_left);
  place = record { aligned = refl; above = omega arith; below = omega arith };
  used = other (omega arith) (other (omega arith) end_of);
  tables = λ va there. absurd (ground (arith, no_table va, there));
  distinct = λ va vb there there' same. absurd (ground (arith, no_table va, there));
}

memory-Unmapped : (a last : ℕ) → Unmapped directory a last memory
unfolding entry
memory-Unmapped a last v lt inside = rw (no_table v) refl

-- The entries of the directory for pages 1, 2 and 3 after 4096 bytes at 5000 are mapped to page 9.
entries_of : Option (ℤ × Kmem) → Option (ℤ × ℕ × ℕ × ℕ)
entries_of none = none
entries_of (some (r, k)) =
    some
      (r, entry directory k.words 4096, entry directory k.words 8192, entry directory k.words 12288)

mapped_test :
    entries_of (mappages directory 5000 4096 36864 6 memory) ≡ some (pos 0, 36871, 40967, 0)
unfolding entries_of mappages map_loop walkpgdir kalloc bits_or entry
mapped_test = refl

mappages_lem_example :
    MapEnds base directory
      (round_down 5000)
      (round_down (5000 + 4096 - 1))
      36864
      6
      memory
      (mappages directory 5000 4096 36864 6 memory)
mappages_lem_example =
    mappages_lem base directory 5000 4096 36864 6 memory (first_page ∷ second_page ∷ [])
      memory-IsDir (omega arith) (omega arith) (omega arith) (memory-Unmapped 5000 9095)

-- A directory with a table for page 1, which is for the user.
abbrev user_table : ℕ
user_table = kernbase + 0x403000

abbrev user_memory : Kmem
user_memory = record {
  freelist = first_page;
  words = λ a.
      if a == first_page
      then second_page
      else (if a == directory then 0x403007 else (if a == user_table + 4 then 36864 + 7 else 0));
}

only_slot : (va : ℕ) → present (user_memory.words (slot directory va)) ≡ true → pdx va ≡ 0
only_slot va there = ground (arith, there)

only_table :
    (va : ℕ)
    → present (user_memory.words (slot directory va)) ≡ true
    → table directory user_memory.words va ≡ user_table
only_table va there =
    ap (λ n. p2v (pte_addr (user_memory.words (directory + 4 * n)))) (only_slot va there)

user_memory-IsDir :
    IsDir base directory user_memory.words user_memory.freelist (first_page ∷ second_page ∷ [])
user_memory-IsDir = record {
  list =
      more (omega arith) (record { aligned = refl; above = omega arith; below = omega arith })
        (other (omega arith) end_of)
        (more (omega arith) (record { aligned = refl; above = omega arith; below = omega arith })
          end_of (stop refl));
  ram = memory-IsDir.ram;
  place = memory-IsDir.place;
  used = memory-IsDir.used;
  tables = λ va there. rw (only_table va there) (record {
    place = record { aligned = refl; above = omega arith; below = omega arith };
    not_directory = omega arith;
    used = other (omega arith) (other (omega arith) end_of);
  });
  distinct = λ va vb there there' same. only_slot va there ∙ sym (only_slot vb there');
}

user_test : uva2ka directory 5000 user_memory ≡ some (kernbase + 36864)
unfolding uva2ka walkpgdir
user_test = refl

uva2ka-clearpteu_example :
    (k' : Kmem) × (clearpteu directory 5000 user_memory ≡ some k')
    × IsDir base directory k'.words k'.freelist (first_page ∷ second_page ∷ [])
    × ((v : ℕ)
        → v < 2 ^ 32
        → uva2ka directory v k'
          ≡ (if v / pgsize == 5000 / pgsize then some 0 else uva2ka directory v user_memory))
uva2ka-clearpteu_example =
    uva2ka-clearpteu base directory 5000 user_memory (first_page ∷ second_page ∷ [])
      user_memory-IsDir refl (omega arith)
