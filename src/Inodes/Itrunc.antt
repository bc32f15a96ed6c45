-- ===== src/Inodes/Itrunc.antt =====
-- `itrunc`, and the blocks that `iput` frees with it.
use cpsc.Prelude.{
  ℕ, ◌+◌, ◌≤◌, ◌≡◌, ◌≢◌, ◌∙◌, sym, ap, ap₂, Option, none, some, ◌==◌, if◌then◌else◌, update,
  update_self, update_ne, arith, ◌>>=◌,
}
use cpsc.Fs.{Super, Blocks}
use cpsc.Inodes.{
  ndirect, nindirect, Store, word, disk_copy, iupdate, free_direct, free_rest, itrunc,
}
use cpsc.Inodes.Put.{iupdate-dinodes}
use cpsc.Inodes.Trunc.{
  count, count-same, NotMap, Freed, Spoilt, Freed-join, Spoilt-join, cleared, DirectEnds,
}
use cpsc.Inodes.Emptied.{word-same, free_direct-DirectEnds, in_rest, RestEnds, free_rest-RestEnds}

-- How often a block is one of the inode: direct, indirect, or the indirect block itself.
abbrev pub owned : (ℕ → ℕ) → Blocks → ℕ → ℕ
owned addrs d x = count addrs ndirect 0 x + in_rest addrs d x

pub record Truncated (sb : Super) (i : ℕ) (s s' : Store) : Type 0 where
  pub freed : Freed sb (owned (s.icache i).addrs s.blocks) s.blocks s'.blocks
  pub entry : s'.icache i ≡ record (s.icache i) { addrs = (s'.icache i).addrs; size = 0 }
  pub addresses : (j : ℕ) → j ≤ ndirect → (s'.icache i).addrs j ≡ 0
  pub entries : (j : ℕ) → j ≢ i → s'.icache j ≡ s.icache j
  pub disk : s'.dinodes (s.icache i).dev (s.icache i).inum ≡ disk_copy (s'.icache i)

abbrev pub TruncEnds : Super → ℕ → Store → Option Store → Type 0
TruncEnds sb i s none = Spoilt sb (owned (s.icache i).addrs s.blocks) s.blocks
TruncEnds sb i s (some s') = Truncated sb i s s'

-- The indirect block is as it was after the direct ones are freed.
in_rest-same :
    (addrs a : ℕ → ℕ) (d d1 : Blocks) (x : ℕ)
    → a ndirect ≡ addrs ndirect
    → d1 (addrs ndirect) ≡ d (addrs ndirect)
    → in_rest a d1 x ≡ in_rest addrs d x
unfolding in_rest
in_rest-same addrs a d d1 x e same =
    ap (λ b. if b == 0 then 0 else count (word d1 b) nindirect 0 x + (if b == x then 1 else 0)) e
    ∙ ap (λ c. if addrs ndirect == 0 then 0 else c + (if addrs ndirect == x then 1 else 0))
        (count-same _ _ nindirect 0 x (λ j le. word-same (addrs ndirect) d d1 j same))

module _ (sb : Super) (i : ℕ) (s : Store)
    (out : NotMap sb (owned (s.icache i).addrs s.blocks) ((s.icache i).addrs ndirect)) where
  abbrev addrs : ℕ → ℕ
  addrs = (s.icache i).addrs

  abbrev last_store : (ℕ → ℕ) → Blocks → Store
  last_store a2 d2 = iupdate i (record s {
    icache = update s.icache i (record (s.icache i) { addrs = a2; size = 0 });
    blocks = d2;
  })

  last-Truncated :
      (a2 : ℕ → ℕ) (d2 : Blocks)
      → Freed sb (owned addrs s.blocks) s.blocks d2
      → ((j : ℕ) → j ≤ ndirect → a2 j ≡ 0)
      → Truncated sb i s (last_store a2 d2)
  unfolding iupdate
  last-Truncated a2 d2 freed nulls = record {
    freed = freed;
    entry =
        self ∙ ap (λ a. record (s.icache i) { addrs = a; size = 0 }) (sym (ap (λ p. p.addrs) self));
    addresses = λ j le. ap (λ p. p.addrs j) self ∙ nulls j le;
    entries = λ j ne. update_ne s.icache i _ j ne;
    disk =
        ap₂ (λ a b. (last_store a2 d2).dinodes a b) (sym (ap (λ p. p.dev) self))
          (sym (ap (λ p. p.inum) self))
        ∙ iupdate-dinodes i (record s {
          icache = update s.icache i (record (s.icache i) { addrs = a2; size = 0 });
          blocks = d2;
        });
  }
    where
      self :
          update s.icache i (record (s.icache i) { addrs = a2; size = 0 }) i
          ≡ record (s.icache i) { addrs = a2; size = 0 }
      self = update_self s.icache i (record (s.icache i) { addrs = a2; size = 0 })

  -- The direct blocks hold no bit in the indirect one.
  same_block :
      (d1 : Blocks)
      → Freed sb (count addrs ndirect 0) s.blocks d1
      → d1 (addrs ndirect) ≡ s.blocks (addrs ndirect)
  same_block d1 p = p.others (addrs ndirect) (λ x lt. out x (omega (arith, lt)))

  -- The blocks counted from the indirect block are the same after the direct ones.
  same_rest :
      (a1 : ℕ → ℕ) (d1 : Blocks)
      → Freed sb (count addrs ndirect 0) s.blocks d1
      → ((j : ℕ) → a1 j ≡ cleared ndirect 0 addrs j)
      → (x : ℕ) → in_rest a1 d1 x ≡ in_rest addrs s.blocks x
  same_rest a1 d1 p q x =
      in_rest-same addrs a1 s.blocks d1 x (q ndirect ∙ ground arith) (same_block d1 p)

  rest-TruncEnds :
      (a1 : ℕ → ℕ) (d1 : Blocks) (o : Option ((ℕ → ℕ) × Blocks))
      → Freed sb (count addrs ndirect 0) s.blocks d1
      → ((j : ℕ) → a1 j ≡ cleared ndirect 0 addrs j)
      → RestEnds sb a1 d1 o
      → TruncEnds sb i s (o >>= λ (a2, d2). some (last_store a2 d2))
  rest-TruncEnds a1 d1 o p q ends = go o ends
    where
      kept : a1 ndirect ≡ addrs ndirect
      kept = q ndirect ∙ ground arith

      sum : (x : ℕ) → owned addrs s.blocks x ≡ count addrs ndirect 0 x + in_rest a1 d1 x
      sum x =
          ap (λ c. count addrs ndirect 0 x + c)
            (sym (in_rest-same addrs a1 s.blocks d1 x kept (same_block d1 p)))

      go :
          (o : Option ((ℕ → ℕ) × Blocks))
          → RestEnds sb a1 d1 o
          → TruncEnds sb i s (o >>= λ (a2, d2). some (last_store a2 d2))
      go none spoilt =
          Spoilt-join sb (count addrs ndirect 0) (in_rest a1 d1) (owned addrs s.blocks) s.blocks d1
            sum p spoilt
      go (some (a2, d2)) (f, r) =
          last-Truncated a2 d2
            (Freed-join sb (count addrs ndirect 0) (in_rest a1 d1) (owned addrs s.blocks) s.blocks
              d1 d2 sum p f)
            (λ j le. r j ∙ ground (arith, q j))

  pub itrunc-TruncEnds : TruncEnds sb i s (itrunc sb i s)
  unfolding itrunc
  itrunc-TruncEnds =
      go (free_direct ndirect 0 sb addrs s.blocks)
        (free_direct-DirectEnds ndirect 0 sb addrs s.blocks)
    where
      go :
          (o : Option ((ℕ → ℕ) × Blocks))
          → DirectEnds sb ndirect 0 addrs s.blocks o
          → TruncEnds sb i s
              (o >>= λ (a1, d1). free_rest sb a1 d1 >>= λ (a2, d2). some (last_store a2 d2))
      go none (x, lt) = (x, omega (arith, lt))
      go (some (a1, d1)) (p, q) = rest-TruncEnds a1 d1 (free_rest sb a1 d1) p q (
          free_rest-RestEnds sb a1 d1 (λ x lt e.
            out x (omega (arith, same_rest a1 d1 p q x, lt)) (sym (q ndirect ∙ ground arith) ∙ e)))
