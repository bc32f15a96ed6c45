-- ===== src/Paging.antt =====
-- vm.c: the tables of pages, in the memory that kalloc.c hands out. An address of the kernel is that
-- of a word of the memory, and the table of a process is the address of its directory.
pub mod Words
pub mod Frames
pub mod Fresh
pub mod Grown
pub mod Walk
pub mod Entry
pub mod Map
pub mod Range
pub mod Mapping
pub mod User
mod Tests
use cpsc.Prelude.{
  ℕ, zero, suc, ◌+◌, ◌-◌, ◌*◌, ◌/◌, ◌%◌, ◌^◌, Bool, true, false, not, ◌&&◌, ◌||◌, Option, none,
  some, ◌==◌, ltb, leb, if◌then◌else◌, update,
}
use cpsc.Prelude.Int.{ℤ, pos, minus_one}
use cpsc.Pages.{pgsize, kernbase, Kmem, v2p, kalloc}

-- `|` of two words of `k` bits.
unfoldable pub bits_or : ℕ → ℕ → ℕ → ℕ
bits_or zero a b = 0
bits_or (suc k) a b = (if a % 2 == 1 || b % 2 == 1 then 1 else 0) + 2 * bits_or k (a / 2) (b / 2)

abbrev pub word_or : ℕ → ℕ → ℕ
word_or a b = bits_or 32 a b

-- `P2V`, on 32 bits.
abbrev pub p2v : ℕ → ℕ
p2v p = (p + kernbase) % 2 ^ 32

-- `PDX` and `PTX`.
abbrev pub pdx : ℕ → ℕ
pdx va = va / 2 ^ 22 % 1024

abbrev pub ptx : ℕ → ℕ
ptx va = va / 2 ^ 12 % 1024

-- `PGROUNDDOWN`.
abbrev pub round_down : ℕ → ℕ
round_down a = a - a % pgsize

abbrev pub pte_p : ℕ
pte_p = 1

abbrev pub pte_w : ℕ
pte_w = 2

abbrev pub pte_u : ℕ
pte_u = 4

-- `PTE_ADDR`, and the test of `PTE_P`.
abbrev pub pte_addr : ℕ → ℕ
pte_addr e = e - e % 4096

abbrev pub present : ℕ → Bool
present e = e % 2 == 1

-- The memory after `memset(v, 0, PGSIZE)`.
abbrev pub zeroed : ℕ → (ℕ → ℕ) → ℕ → ℕ
zeroed v words a = if leb v a && ltb a (v + pgsize) then 0 else words a

-- A new table of pages, and its entry in the directory.
abbrev pub new_table : ℕ → ℕ → (ℕ → ℕ) → ℕ → ℕ
new_table slot pgtab words =
    update (zeroed pgtab words) slot (word_or (word_or (word_or (v2p pgtab) pte_p) pte_w) pte_u)

-- `walkpgdir`: the address of the entry, or 0.
unfoldable pub walkpgdir : ℕ → ℕ → Bool → Kmem → ℕ × Kmem
walkpgdir pgdir va alloc k =
    let slot = pgdir + 4 * pdx va in
    let (pgtab, k1) = kalloc k in
    let made = record k1 { words = new_table slot pgtab k1.words } in
    if present (k.words slot)
    then (p2v (pte_addr (k.words slot)) + 4 * ptx va, k)
    else (if not alloc
        then (0, k)
        else (if pgtab == 0 then (0, k1) else (pgtab + 4 * ptx va, made)))

-- The loop of `mappages`, where a round is one page; `none` is the panic, or no round left.
unfoldable pub map_loop : ℕ → ℕ → ℕ → ℕ → ℕ → ℕ → Kmem → Option (ℤ × Kmem)
map_loop zero pgdir a last pa perm k = none
map_loop (suc n) pgdir a last pa perm k =
    let (pte, k1) = walkpgdir pgdir a true k in
    let e = word_or (word_or pa perm) pte_p in
    let k2 = record k1 { words = update k1.words pte e } in
    let rest = map_loop n pgdir ((a + pgsize) % 2 ^ 32) last ((pa + pgsize) % 2 ^ 32) perm k2 in
    if pte == 0
    then some (minus_one, k1)
    else (if present (k1.words pte) then none else (if a == last then some (pos 0, k2) else rest))

-- From `a` to `last` in steps of a page, also around the end of the 32 bits.
unfoldable pub mappages : ℕ → ℕ → ℕ → ℕ → ℕ → Kmem → Option (ℤ × Kmem)
mappages pgdir va size pa perm k =
    let a = round_down va in
    let last = round_down ((va + size + (2 ^ 32 - 1)) % 2 ^ 32) in
    map_loop (suc ((last + 2 ^ 32 - a) % 2 ^ 32 / pgsize)) pgdir a last pa perm k

-- The test of `PTE_U`, and `&= ~PTE_U`.
abbrev pub for_user : ℕ → Bool
for_user e = e / pte_u % 2 == 1

abbrev pub without_user : ℕ → ℕ
without_user e = if for_user e then e - pte_u else e

-- `clearpteu`; `none` is the panic.
unfoldable pub clearpteu : ℕ → ℕ → Kmem → Option Kmem
clearpteu pgdir uva k =
    let (pte, k1) = walkpgdir pgdir uva false k in
    if pte == 0
    then none
    else some (record k1 { words = update k1.words pte (without_user (k1.words pte)) })

-- `uva2ka`; it does not test the address of the entry for 0, and `none` stands for the read at
-- address 0, where the result is up to what the running process has there.
unfoldable pub uva2ka : ℕ → ℕ → Kmem → Option ℕ
uva2ka pgdir uva k =
    let (pte, k1) = walkpgdir pgdir uva false k in
    let e = k1.words pte in
    if pte == 0
    then none
    else (if not (present e)
        then some 0
        else (if not (for_user e) then some 0 else some (p2v (pte_addr e))))
