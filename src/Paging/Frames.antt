-- ===== src/Paging/Frames.antt =====
-- A directory, its tables and the free pages, all of them different pages.
use cpsc.Prelude.{
  ℕ, ◌+◌, ◌*◌, ◌%◌, ◌≤◌, ◌<◌, ◌≡◌, ◌≢◌, true, List, [], ◌∷◌, if◌then◌else◌, update, arith,
}
use cpsc.Pages.{pgsize, kernbase, phystop, v2p}
use cpsc.Pages.Freelist.{IsNone, other, IsListed, stop, more}
use cpsc.Paging.{p2v, pdx, ptx, round_down, pte_addr, present, zeroed}

-- The address of a page of the memory above `kernbase`.
pub record IsRam (v : ℕ) : Type 0 where
  pub aligned : v % pgsize ≡ 0
  pub above : kernbase ≤ v
  pub below : v < kernbase + phystop

pub data AllRam : List ℕ → Type 0 where
  none_left : AllRam []
  one_more : {p : ℕ} {ps : List ℕ} → IsRam p → AllRam ps → AllRam (p ∷ ps)

-- Where the directory has the entry for the table of `va`, and the table.
abbrev pub slot : ℕ → ℕ → ℕ
slot pgdir va = pgdir + 4 * pdx va

abbrev pub table : ℕ → (ℕ → ℕ) → ℕ → ℕ
table pgdir words va = p2v (pte_addr (words (slot pgdir va)))

-- What the processor finds for `va`: the entry in its table, or 0.
unfoldable pub entry : ℕ → (ℕ → ℕ) → ℕ → ℕ
entry pgdir words va =
    if present (words (slot pgdir va)) then words (table pgdir words va + 4 * ptx va) else 0

pub record IsTable (pgdir : ℕ) (ps : List ℕ) (t : ℕ) : Type 0 where
  pub place : IsRam t
  pub not_directory : t ≢ pgdir
  pub used : IsNone t ps

pub record IsDir (limit pgdir : ℕ) (words : ℕ → ℕ) (free : ℕ) (ps : List ℕ) : Type 0 where
  pub list : IsListed limit words free ps
  pub ram : AllRam ps
  pub place : IsRam pgdir
  pub used : IsNone pgdir ps
  pub tables :
      (va : ℕ) → present (words (slot pgdir va)) ≡ true → IsTable pgdir ps (table pgdir words va)
  pub distinct :
      (va vb : ℕ)
      → present (words (slot pgdir va)) ≡ true
      → present (words (slot pgdir vb)) ≡ true
      → table pgdir words va ≡ table pgdir words vb
      → pdx va ≡ pdx vb

-- Two memories that agree outside the page `q`.
abbrev pub Outside : ℕ → (ℕ → ℕ) → (ℕ → ℕ) → Type 0
Outside q words words' = (a : ℕ) → round_down a ≢ q → words' a ≡ words a

pub IsListed-Outside :
    (limit q : ℕ) (words words' : ℕ → ℕ) (p : ℕ) (ps : List ℕ)
    → IsNone q ps
    → Outside q words words'
    → IsListed limit words p ps
    → IsListed limit words' p ps
IsListed-Outside limit q words words' p ps gone out (stop e) = stop e
IsListed-Outside limit q words words' _ _ (other ne gone) out
      (more {p = p} {ps} low page none_of rest) =
    more low page none_of
      (rw same (IsListed-Outside limit q words words' (words p) ps gone out rest))
  where
    same : words' p ≡ words p
    same = out p (λ e. ne (omega (arith, e, page.aligned)))

pub zeroed-Outside : (p : ℕ) (words : ℕ → ℕ) → p % pgsize ≡ 0 → Outside p words (zeroed p words)
zeroed-Outside p words aligned a ne = ground arith

pub update-Outside :
    (q n e : ℕ) (words : ℕ → ℕ)
    → q % pgsize ≡ 0
    → n < 1024
    → Outside q words (update words (q + 4 * n) e)
update-Outside q n e words aligned lt a ne = ground arith

-- An entry of a page is not changed with another page.
pub Outside-entry :
    (q t n : ℕ) (words words' : ℕ → ℕ)
    → t % pgsize ≡ 0
    → n < 1024
    → t ≢ q
    → Outside q words words'
    → words' (t + 4 * n) ≡ words (t + 4 * n)
Outside-entry q t n words words' aligned lt ne out = out (t + 4 * n) (λ e. ne (omega (arith, e)))

pub p2v-v2p : (p : ℕ) → IsRam p → p2v (v2p p) ≡ p
p2v-v2p p r = omega (arith, r.above, r.below)
