-- ===== src/Log/Install.antt =====
-- `install_trans` and `write_head`: from a committed log to the home blocks, with stops on the way.
use native.Mathlib.Decide.{ℕ_discrete}
use cpsc.Prelude.{
  ℕ, zero, suc, ◌+◌, ◌<◌, ◌≡◌, ◌≢◌, ◌∙◌, ap, sym, ◌⊎◌, inl, inr, update, update_self, update_ne,
  arith,
}
use cpsc.Log.{Block, Disk, Io, view, loaded, bwrite, Log, install_from}
use cpsc.Log.Memory.{Stored, copied-view, copied-Stored}
use cpsc.Log.Crash.{Txn, IsTxn, Matches, IsLogged}

-- After the first `i` rounds of `install_trans`.
pub record Installing (t : Txn) (i : ℕ) (s : Io) : Type 0 where
  pub logged : IsLogged t s.disk.blocks
  pub in_view : (j : ℕ) → j < t.n → view s (t.start + j + 1) ≡ t.contents j
  pub done : (s.disk.power ≡ 0) ⊎ ((j : ℕ) → j < i → s.disk.blocks (t.block j) ≡ t.contents j)

module _ (t : Txn) (ok : IsTxn t) where
  block_ne : (i : ℕ) → i < t.n → t.start ≢ t.block i
  block_ne i a e = ground (arith, ok.home i a, ok.room)

  log_ne : (i j : ℕ) → i < t.n → j < t.n → t.start + j + 1 ≢ t.block i
  log_ne i j a b e = ground (arith, ok.home i a, ok.room)

  logged_kept :
      (i : ℕ) (v : Block) (d d' : Disk)
      → i < t.n
      → Stored (t.block i) v d d'
      → IsLogged t d.blocks
      → IsLogged t d'.blocks
  logged_kept i v d d' a (inl (stopped, same)) w = rw same w
  logged_kept i v d d' a (inr (live, f)) w = record {
    count = ap (λ b. b 0) header ∙ w.count;
    names = λ j b. ap (λ b. b (suc j)) header ∙ w.names j b;
    logged = λ j b.
        f (t.start + j + 1)
        ∙ update_ne d.blocks (t.block i) v (t.start + j + 1) (log_ne i j a b)
        ∙ w.logged j b;
    others = λ b h u. f b ∙ update_ne d.blocks (t.block i) v b (u i a) ∙ w.others b h u;
  }
    where
      header : d'.blocks t.start ≡ d.blocks t.start
      header = f t.start ∙ update_ne d.blocks (t.block i) v t.start (block_ne i a)

  done_more :
      (i : ℕ) (v : Block) (d d' : Disk)
      → i < t.n
      → v ≡ t.contents i
      → Stored (t.block i) v d d'
      → (d.power ≡ 0) ⊎ ((j : ℕ) → j < i → d.blocks (t.block j) ≡ t.contents j)
      → (d'.power ≡ 0) ⊎ ((j : ℕ) → j < suc i → d'.blocks (t.block j) ≡ t.contents j)
  done_more i v d d' a e (inl (stopped, same)) w = inl (ap (λ d. d.power) same ∙ stopped)
  done_more i v d d' a e (inr (live, f)) (inl stopped) = absurd (omega arith)
  done_more i v d d' a e (inr (live, f)) (inr below) = inr λ j b. elim (ℕ_discrete j i) [
    | yes q ↦ rw q (f (t.block i) ∙ update_self d.blocks (t.block i) v ∙ e)
    | no q ↦
        f (t.block j)
        ∙ update_ne d.blocks (t.block i) v (t.block j)
            (λ same. q (ok.distinct j i (omega arith) a same))
        ∙ below j (omega arith)
  ]

  -- The whole of `install_trans`.
  pub install-Installing :
      (l : Log)
      → Matches t l
      → (k i : ℕ) (s : Io) → i + k ≡ t.n
      → Installing t i s
      → Installing t t.n (install_from k i l s)
  unfolding install_from
  install-Installing l m zero i s e w = rw (sum_zero e) at w
    where
      sum_zero : i + 0 ≡ t.n → i ≡ t.n
      sum_zero e = omega arith
  install-Installing l m (suc k) i s e w =
      install-Installing l m k (suc i) next (omega arith) (record {
        logged = logged_kept i lbuf s.disk next.disk below stored w.logged;
        in_view = λ j b.
            seen (t.start + j + 1)
            ∙ update_ne (view s) (t.block i) lbuf (t.start + j + 1) (log_ne i j below b)
            ∙ w.in_view j b;
        done = done_more i lbuf s.disk next.disk below lbuf_contents stored w.done;
      })
    where
      lbuf : Block
      lbuf = view s (l.start + i + 1)

      next : Io
      next = bwrite (l.lh.block i) lbuf (loaded (l.lh.block i) (loaded (l.start + i + 1) s))

      below : i < t.n
      below = omega arith

      lbuf_contents : lbuf ≡ t.contents i
      lbuf_contents = ap (λ n. view s (n + i + 1)) m.start ∙ w.in_view i below

      seen : (x : ℕ) → view next x ≡ update (view s) (t.block i) lbuf x
      seen x =
          rw (sym (m.block i below))
            (copied-view (l.lh.block i) (l.lh.block i) (l.start + i + 1) lbuf s x)

      stored : Stored (t.block i) lbuf s.disk next.disk
      stored =
          rw (sym (m.block i below))
            (copied-Stored (l.lh.block i) (l.lh.block i) (l.start + i + 1) lbuf s)
