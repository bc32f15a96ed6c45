-- ===== src/Paging/Entry.antt =====
-- A new entry for a page, where the directory has its table.
use cpsc.Prelude.{
  ℕ, ◌+◌, ◌*◌, ◌/◌, ◌^◌, ◌<◌, ◌≡◌, ◌≢◌, ◌∙◌, refl, sym, ap, ap₂, true, List, ◌==◌, if◌then◌else◌,
  update, update_self, update_ne, arith, Bool-cases, inl, inr,
}
use cpsc.Pages.{pgsize}
use cpsc.Paging.{p2v, pdx, ptx, pte_addr, present}
use cpsc.Paging.Frames.{
  slot, table, entry, IsDir, Outside, IsListed-Outside, update-Outside, Outside-entry,
}

module _ (limit pgdir va e free : ℕ) (words : ℕ → ℕ) (ps : List ℕ)
    (d : IsDir limit pgdir words free ps) (there : present (words (slot pgdir va)) ≡ true) where
  -- The table of `va`, and the memory with the entry.
  abbrev t : ℕ
  t = table pgdir words va

  abbrev pub put : ℕ → ℕ
  put = update words (table pgdir words va + 4 * ptx va) e

  put-Outside : Outside t words put
  put-Outside = update-Outside t (ptx va) e words (d.tables va there).place.aligned (omega arith)

  pub slot_kept : (vb : ℕ) → put (slot pgdir vb) ≡ words (slot pgdir vb)
  slot_kept vb =
      Outside-entry t pgdir (pdx vb) words put d.place.aligned (omega arith)
        (λ s. (d.tables va there).not_directory (sym s)) put-Outside

  table_kept : (vb : ℕ) → table pgdir put vb ≡ table pgdir words vb
  table_kept vb = ap (λ w. p2v (pte_addr w)) (slot_kept vb)

  was_there :
      (vb : ℕ) → present (put (slot pgdir vb)) ≡ true → present (words (slot pgdir vb)) ≡ true
  was_there vb now = ap present (sym (slot_kept vb)) ∙ now

  pub put-IsDir : IsDir limit pgdir put free ps
  put-IsDir = record {
    list = IsListed-Outside limit t words put free ps (d.tables va there).used put-Outside d.list;
    ram = d.ram;
    place = d.place;
    used = d.used;
    tables = λ vb now. rw (table_kept vb) (d.tables vb (was_there vb now));
    distinct = λ vb vc nb nc same.
        d.distinct vb vc (was_there vb nb) (was_there vc nc)
          (sym (table_kept vb) ∙ same ∙ table_kept vc);
  }

  entry_at :
      (vb : ℕ)
      → present (words (slot pgdir vb)) ≡ true
      → entry pgdir put vb ≡ put (table pgdir words vb + 4 * ptx vb)
  unfolding entry
  entry_at vb was = rw (slot_kept vb, was) refl

  pub entry_was :
      (vb : ℕ)
      → present (words (slot pgdir vb)) ≡ true
      → entry pgdir words vb ≡ words (table pgdir words vb + 4 * ptx vb)
  unfolding entry
  entry_was vb was = rw was refl

  hit : (vb : ℕ) → pdx vb ≡ pdx va → ptx vb ≡ ptx va → entry pgdir put vb ≡ e
  hit vb ed et =
      entry_at vb (ap (λ n. present (words (pgdir + 4 * n))) ed ∙ there)
      ∙ ap put (ap₂ (λ n m. p2v (pte_addr (words (pgdir + 4 * n))) + 4 * m) ed et)
      ∙ update_self words (t + 4 * ptx va) e

  -- The entry for `vb` is at another address.
  elsewhere :
      (vb : ℕ)
      → present (words (slot pgdir vb)) ≡ true
      → table pgdir words vb + 4 * ptx vb ≢ t + 4 * ptx va
      → entry pgdir put vb ≡ entry pgdir words vb
  elsewhere vb was ne =
      entry_at vb was ∙ update_ne words (t + 4 * ptx va) e _ ne ∙ sym (entry_was vb was)

  miss : (vb : ℕ) → (pdx vb ≡ pdx va → ptx vb ≢ ptx va) → entry pgdir put vb ≡ entry pgdir words vb
  unfolding entry
  miss vb ne = elim (Bool-cases (present (words (slot pgdir vb)))) [
    | inr was ↦ rw (slot_kept vb, was) refl
    | inl was ↦ elsewhere vb was (λ same.
        ne (index was same)
          (omega (arith, same, (d.tables vb was).place.aligned, (d.tables va there).place.aligned)))
  ]
    where
      index :
          present (words (slot pgdir vb)) ≡ true
          → table pgdir words vb + 4 * ptx vb ≡ t + 4 * ptx va
          → pdx vb ≡ pdx va
      index was same =
          d.distinct vb va was there (
            omega (arith, same, (d.tables vb was).place.aligned, (d.tables va there).place.aligned))

  pub entry-put :
      (vb : ℕ)
      → va < 2 ^ 32
      → vb < 2 ^ 32
      → entry pgdir put vb ≡ (if vb / pgsize == va / pgsize then e else entry pgdir words vb)
  entry-put vb la lb = elim (Bool-cases (vb / pgsize == va / pgsize)) [
    | inl same ↦ rw same (hit vb (ground (arith, same)) (ground (arith, same)))
    | inr differ ↦ rw differ (miss vb (λ ed et. absurd (ground (arith, differ, ed, et, la, lb))))
  ]
