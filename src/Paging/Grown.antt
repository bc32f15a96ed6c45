-- ===== src/Paging/Grown.antt =====
-- A directory to which `walkpgdir` adds a table.
use native.Mathlib.Decide.{ℕ_discrete}
use cpsc.Prelude.{
  ℕ, ◌+◌, ◌*◌, ◌≡◌, ◌≢◌, ◌∙◌, refl, sym, ap, inl, inr, true, false, List, ◌∷◌, arith, Bool-cases,
}
use cpsc.Pages.Freelist.{IsNone, other, IsListed}
use cpsc.Paging.{pdx, ptx, present, new_table}
use cpsc.Paging.Fresh.{
  now_there, table_is_page, slots_kept, tables_kept, made_zero, made_else, made-IsListed,
}
use cpsc.Paging.Frames.{IsRam, AllRam, slot, table, entry, IsTable, IsDir}

pub IsNone-head : {v p : ℕ} {ps : List ℕ} → IsNone v (p ∷ ps) → v ≢ p
IsNone-head (other ne gone) = ne

IsNone-tail : {v p : ℕ} {ps : List ℕ} → IsNone v (p ∷ ps) → IsNone v ps
IsNone-tail (other ne gone) = gone

-- A directory with the first free page as a new table.
module _ (limit pgdir va p : ℕ) (words : ℕ → ℕ) (ps : List ℕ) (page : IsRam p) (ram : AllRam ps)
    (gone : IsNone p ps) (rest : IsListed limit words (words p) ps)
    (d : IsDir limit pgdir words p (p ∷ ps))
    (absent : present (words (slot pgdir va)) ≡ false) where
  apart : pgdir ≢ p
  apart = IsNone-head d.used

  abbrev pub words1 : ℕ → ℕ
  words1 = new_table (slot pgdir va) p words

  was_table :
      (vb : ℕ)
      → pdx vb ≢ pdx va
      → present (words1 (slot pgdir vb)) ≡ true
      → (present (words (slot pgdir vb)) ≡ true) × (table pgdir words1 vb ≡ table pgdir words vb)
  was_table vb ne there = (
    ap present (sym (slots_kept pgdir va p words d.place page apart vb ne)) ∙ there,
    tables_kept pgdir va p words d.place page apart vb ne,
  )

  tables1 :
      (vb : ℕ) → present (words1 (slot pgdir vb)) ≡ true → IsTable pgdir ps (table pgdir words1 vb)
  tables1 vb there = elim (ℕ_discrete (pdx vb) (pdx va)) [
    | yes e ↦
        rw (table_is_page pgdir va p words d.place page apart vb e)
          (record { place = page; not_directory = λ s. apart (sym s); used = gone })
    | no ne ↦
        let (was, same) = was_table vb ne there in
        let t = d.tables vb was in
        rw same
          (record { place = t.place; not_directory = t.not_directory; used = IsNone-tail t.used })
  ]

  -- A table from before is not the new one.
  not_new : (vb : ℕ) → present (words (slot pgdir vb)) ≡ true → table pgdir words vb ≢ p
  not_new vb was = IsNone-head (d.tables vb was).used

  distinct1 :
      (vb vc : ℕ)
      → present (words1 (slot pgdir vb)) ≡ true
      → present (words1 (slot pgdir vc)) ≡ true
      → table pgdir words1 vb ≡ table pgdir words1 vc
      → pdx vb ≡ pdx vc
  distinct1 vb vc tb tc same = elim (ℕ_discrete (pdx vb) (pdx va)) [
    | yes e ↦ elim (ℕ_discrete (pdx vc) (pdx va)) [
      | yes f ↦ e ∙ sym f
      | no nf ↦
          let (was, old) = was_table vc nf tc in
          absurd (
            not_new vc was
              (sym old ∙ sym same ∙ table_is_page pgdir va p words d.place page apart vb e))
    ]
    | no ne ↦ elim (ℕ_discrete (pdx vc) (pdx va)) [
      | yes f ↦
          let (was, old) = was_table vb ne tb in
          absurd (
            not_new vb was
              (sym old ∙ same ∙ table_is_page pgdir va p words d.place page apart vc f))
      | no nf ↦
          let (wasb, oldb) = was_table vb ne tb in
          let (wasc, oldc) = was_table vc nf tc in
          d.distinct vb vc wasb wasc (sym oldb ∙ same ∙ oldc)
    ]
  ]

  pub made-IsDir : IsDir limit pgdir words1 (words p) ps
  made-IsDir = record {
    list =
        made-IsListed pgdir va p words d.place page apart limit (words p) ps (IsNone-tail d.used)
          gone rest;
    ram = ram;
    place = d.place;
    used = IsNone-tail d.used;
    tables = tables1;
    distinct = distinct1;
  }

  pub entries_kept : (vb : ℕ) → entry pgdir words1 vb ≡ entry pgdir words vb
  unfolding entry
  entries_kept vb = elim (ℕ_discrete (pdx vb) (pdx va)) [
    | yes e ↦
        rw
          (
            now_there pgdir va p words d.place page apart vb e,
            table_is_page pgdir va p words d.place page apart vb e,
            ap (λ n. present (words (pgdir + 4 * n))) e ∙ absent,
          )
          (made_zero pgdir va p words d.place page apart (ptx vb) (omega arith))
    | no ne ↦ elim (Bool-cases (present (words (slot pgdir vb)))) [
      | inl was ↦
          rw (slots_kept pgdir va p words d.place page apart vb ne, was)
            (made_else pgdir va p words d.place page apart (table pgdir words vb) (ptx vb)
              (d.tables vb was).place.aligned (omega arith) (not_new vb was)
              (d.tables vb was).not_directory)
      | inr was ↦ rw (slots_kept pgdir va p words d.place page apart vb ne, was) refl
    ]
  ]
