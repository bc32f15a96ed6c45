-- ===== src/Pages.antt =====
-- kalloc.c: the free pages, each of which holds the address of the next one in its first word. The
-- memory is the word at each address; `limit` is the end of the kernel's image, which the linker
-- sets.
pub mod Freelist
mod Tests
use cpsc.Prelude.{
  ℕ, ◌+◌, ◌-◌, ◌%◌, ◌^◌, Bool, true, false, not, ◌&&◌, ◌||◌, Option, none, some, ◌==◌, ltb, leb,
  if◌then◌else◌, update,
}

abbrev pub pgsize : ℕ
pgsize = 4096

abbrev pub kernbase : ℕ
kernbase = 0x80000000

abbrev pub phystop : ℕ
phystop = 0xe000000

-- `kmem` less its lock, and the memory.
pub record Kmem : Type 0 where
  pub freelist : ℕ
  pub words : ℕ → ℕ

-- `V2P`, on 32 bits.
abbrev pub v2p : ℕ → ℕ
v2p v = (v + 2 ^ 32 - kernbase) % 2 ^ 32

-- The memory after `memset(v, 1, PGSIZE)`.
abbrev pub junk : ℕ → (ℕ → ℕ) → ℕ → ℕ
junk v words a = if leb v a && ltb a (v + pgsize) then 0x01010101 else words a

-- `kfree`; `none` is the panic.
unfoldable pub kfree : ℕ → ℕ → Kmem → Option Kmem
kfree limit v k =
    if not (v % pgsize == 0) || ltb v limit || leb phystop (v2p v)
    then none
    else some (record { freelist = v; words = update (junk v k.words) v k.freelist })

-- `kalloc`: the page, or 0.
unfoldable pub kalloc : Kmem → ℕ × Kmem
kalloc k =
    let k' = record k { freelist = k.words k.freelist } in
    (k.freelist, if k.freelist == 0 then k else k')
