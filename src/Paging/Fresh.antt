-- ===== src/Paging/Fresh.antt =====
-- The memory with a new table of pages.
use cpsc.Prelude.{
  ℕ, ◌+◌, ◌*◌, ◌%◌, ◌<◌, ◌≡◌, ◌≢◌, ◌∙◌, sym, ap, true, List, update_self, update_ne, arith,
}
use cpsc.Pages.{pgsize, v2p}
use cpsc.Pages.Freelist.{IsNone, IsListed}
use cpsc.Paging.{p2v, pdx, pte_addr, present, zeroed, new_table}
use cpsc.Paging.Words.{table_entry}
use cpsc.Paging.Frames.{
  IsRam, slot, table, IsListed-Outside, zeroed-Outside, update-Outside, Outside-entry, p2v-v2p,
}

-- A new table at `p`, for the addresses that share their entry of the directory with `va`.
module _ (pgdir va p : ℕ) (words : ℕ → ℕ) (dir : IsRam pgdir) (page : IsRam p)
    (apart : pgdir ≢ p) where
  abbrev pub made : ℕ → ℕ
  made = new_table (slot pgdir va) p words

  pub directory_word : (vb : ℕ) → pdx vb ≡ pdx va → made (slot pgdir vb) ≡ v2p p + 7
  directory_word vb e =
      ap (λ n. made (pgdir + 4 * n)) e
      ∙ update_self (zeroed p words) (slot pgdir va) _
      ∙ table_entry (v2p p) (omega (arith, page.aligned, page.above)) (omega arith)

  pub now_there : (vb : ℕ) → pdx vb ≡ pdx va → present (made (slot pgdir vb)) ≡ true
  now_there vb e = rw (directory_word vb e) (ground (arith, page.aligned, page.above))

  pub table_is_page : (vb : ℕ) → pdx vb ≡ pdx va → table pgdir made vb ≡ p
  table_is_page vb e =
      ap (λ w. p2v (pte_addr w)) (directory_word vb e)
      ∙ ap p2v (omega (arith, page.aligned, page.above))
      ∙ p2v-v2p p page

  pub slots_kept : (vb : ℕ) → pdx vb ≢ pdx va → made (slot pgdir vb) ≡ words (slot pgdir vb)
  slots_kept vb ne =
      update_ne (zeroed p words) (slot pgdir va) _ (slot pgdir vb) (λ e. ne (omega (arith, e)))
      ∙ Outside-entry p pgdir (pdx vb) words (zeroed p words) dir.aligned (omega arith) apart
          (zeroed-Outside p words page.aligned)

  pub tables_kept : (vb : ℕ) → pdx vb ≢ pdx va → table pgdir made vb ≡ table pgdir words vb
  tables_kept vb ne = ap (λ w. p2v (pte_addr w)) (slots_kept vb ne)

  pub made_zero : (n : ℕ) → n < 1024 → made (p + 4 * n) ≡ 0
  made_zero n lt =
      Outside-entry pgdir p n (zeroed p words) made page.aligned lt (λ e. apart (sym e))
        (update-Outside pgdir (pdx va) _ (zeroed p words) dir.aligned (omega arith))
      ∙ ground arith

  pub made_else :
      (t n : ℕ)
      → t % pgsize ≡ 0
      → n < 1024
      → t ≢ p
      → t ≢ pgdir
      → made (t + 4 * n) ≡ words (t + 4 * n)
  made_else t n aligned lt ne nd =
      Outside-entry pgdir t n (zeroed p words) made aligned lt nd
        (update-Outside pgdir (pdx va) _ (zeroed p words) dir.aligned (omega arith))
      ∙ Outside-entry p t n words (zeroed p words) aligned lt ne
          (zeroed-Outside p words page.aligned)

  pub made-IsListed :
      (limit free : ℕ) (ps : List ℕ)
      → IsNone pgdir ps
      → IsNone p ps
      → IsListed limit words free ps
      → IsListed limit made free ps
  made-IsListed limit free ps gone_dir gone list =
      IsListed-Outside limit pgdir (zeroed p words) made free ps gone_dir
        (update-Outside pgdir (pdx va) _ (zeroed p words) dir.aligned (omega arith))
        (IsListed-Outside limit p words (zeroed p words) free ps gone
          (zeroed-Outside p words page.aligned) list)
