-- ===== src/Paging/User.antt =====
-- The pages that a process may use, and the page that `clearpteu` takes away.
use cpsc.Prelude.{
  ℕ, ◌+◌, ◌*◌, ◌/◌, ◌^◌, ◌<◌, ◌≡◌, ◌∙◌, refl, sym, ap, ap₂, Bool, true, false, not, none, some,
  List, ◌==◌, if◌then◌else◌, arith, Bool-cases, inl, inr,
}
use cpsc.Pages.{pgsize, Kmem}
use cpsc.Paging.{p2v, ptx, pte_addr, present, for_user, without_user, walkpgdir, clearpteu, uva2ka}
use cpsc.Paging.Frames.{slot, table, entry, IsDir}
use cpsc.Paging.Walk.{walk_there}
use cpsc.Paging.Entry.{put, put-IsDir, entry-put, entry_was, slot_kept}

-- The kernel's address for an entry.
abbrev pub address_of : ℕ → ℕ
address_of e = if not (present e) then 0 else (if not (for_user e) then 0 else p2v (pte_addr e))

walk_absent :
    (pgdir va : ℕ) (k : Kmem)
    → present (k.words (slot pgdir va)) ≡ false
    → walkpgdir pgdir va false k ≡ (0, k)
unfolding walkpgdir
walk_absent pgdir va k absent = rw absent refl

some_if :
    (b c : Bool) (x : ℕ)
    → (if b then some 0 else (if c then some 0 else some x))
      ≡ some (if b then 0 else (if c then 0 else x))
some_if true c x = refl
some_if false true x = refl
some_if false false x = refl

cleared : (e : ℕ) → address_of (without_user e) ≡ 0
cleared e = ground arith

module _ (limit pgdir : ℕ) (k : Kmem) (ps : List ℕ)
    (d : IsDir limit pgdir k.words k.freelist ps) where
  nonzero :
      (va : ℕ)
      → present (k.words (slot pgdir va)) ≡ true
      → (table pgdir k.words va + 4 * ptx va == 0) ≡ false
  nonzero va there = ground (arith, (d.tables va there).place.above)

  uva2ka-entry :
      (va : ℕ)
      → uva2ka pgdir va k ≡ (
          if present (k.words (slot pgdir va))
          then some (address_of (entry pgdir k.words va))
          else none)
  unfolding uva2ka
  uva2ka-entry va = elim (Bool-cases (present (k.words (slot pgdir va)))) [
    | inr absent ↦ rw (walk_absent pgdir va k absent, absent) refl
    | inl there ↦
        rw
          (
            walk_there pgdir va false k there,
            there,
            nonzero va there,
            entry_was limit pgdir va 0 k.freelist k.words ps d there va there,
          )
          (some_if _ _ _)
  ]

-- The memory in which the page of `va` is not for the user.
module _ (limit pgdir : ℕ) (k : Kmem) (ps : List ℕ) (d : IsDir limit pgdir k.words k.freelist ps)
    (va : ℕ) (there : present (k.words (slot pgdir va)) ≡ true) (la : va < 2 ^ 32) where
  abbrev e : ℕ
  e = without_user (k.words (table pgdir k.words va + 4 * ptx va))

  abbrev guarded : Kmem
  guarded = record k { words = put limit pgdir va e k.freelist k.words ps d there }

  runs : clearpteu pgdir va k ≡ some guarded
  unfolding clearpteu
  runs = rw (walk_there pgdir va false k there, nonzero limit pgdir k ps d va there) refl

  same_page :
      (v : ℕ)
      → v < 2 ^ 32
      → (v / pgsize == va / pgsize) ≡ true
      → present (k.words (slot pgdir v)) ≡ true
  same_page v lv same = ap (λ n. present (k.words (pgdir + 4 * n))) (ground (arith, same)) ∙ there

  guarded-IsDir : IsDir limit pgdir guarded.words guarded.freelist ps
  guarded-IsDir = put-IsDir limit pgdir va e k.freelist k.words ps d there

  after :
      (v : ℕ)
      → v < 2 ^ 32
      → uva2ka pgdir v guarded ≡ (
          if present (k.words (slot pgdir v))
          then some (address_of (if v / pgsize == va / pgsize then e else entry pgdir k.words v))
          else none)
  after v lv =
      uva2ka-entry limit pgdir guarded ps guarded-IsDir v
      ∙ ap₂ (λ b x. if b then some (address_of x) else none)
          (ap present (slot_kept limit pgdir va e k.freelist k.words ps d there v))
          (entry-put limit pgdir va e k.freelist k.words ps d there v la lv)

  taken :
      (v : ℕ)
      → v < 2 ^ 32
      → uva2ka pgdir v guarded ≡ (if v / pgsize == va / pgsize then some 0 else uva2ka pgdir v k)
  taken v lv = elim (Bool-cases (v / pgsize == va / pgsize)) [
    | inl same ↦
        after v lv
        ∙ rw (same, same_page v lv same)
            (ap some (cleared (k.words (table pgdir k.words va + 4 * ptx va))))
    | inr differ ↦ after v lv ∙ rw differ (sym (uva2ka-entry limit pgdir k ps d v))
  ]

-- `clearpteu` of an address whose table is there, on a directory whose tables and free pages are
-- different pages. It does not panic; afterwards `uva2ka` returns 0 for each address of the page and
-- what it returned before for any other, and the tables and the free pages stay different pages.
pub uva2ka-clearpteu :
    (limit pgdir va : ℕ) (k : Kmem) (ps : List ℕ)
    → IsDir limit pgdir k.words k.freelist ps
    → present (k.words (slot pgdir va)) ≡ true
    → va < 2 ^ 32
    → (k' : Kmem) × (clearpteu pgdir va k ≡ some k')
      × IsDir limit pgdir k'.words k'.freelist ps
      × ((v : ℕ)
          → v < 2 ^ 32
          → uva2ka pgdir v k' ≡ (if v / pgsize == va / pgsize then some 0 else uva2ka pgdir v k))
uva2ka-clearpteu limit pgdir va k ps d there la = (
  guarded limit pgdir k ps d va there la,
  runs limit pgdir k ps d va there la,
  guarded-IsDir limit pgdir k ps d va there la,
  taken limit pgdir k ps d va there la,
)
