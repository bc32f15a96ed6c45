-- ===== src/Dirs/Added.antt =====
-- `dirlink` of a new name.
use mathlib.Core.Path.{subst}
use cpsc.Prelude.{
  ℕ, zero, suc, ◌+◌, ◌*◌, ◌/◌, ◌≤◌, ◌<◌, ◌≡◌, ◌≢◌, ◌∙◌, refl, sym, ap, ap₂, false, ◌&&◌, none, some,
  ◌∷◌, ltb, leb, if◌then◌else◌, arith, ◌>>=◌,
}
use cpsc.Prelude.Int.{pos}
use cpsc.Fs.{Super, Blocks}
use cpsc.Inodes.{Store, iget}
use cpsc.Content.{writei, DevReads, DevWrites, grown, slice}
use cpsc.Content.Reading.{bytes_at}
use cpsc.Content.Layout.{IsLaid, file_byte}
use cpsc.Content.Writing.{Written, grown_inode, grown_blocks, writei-Written}
use cpsc.Content.RoundTrip.{Written-bytes_at, Written-IsLaid}
use cpsc.Dirs.{dirent_size, matches, is_empty, dirlookup, dirent, dirlink}
use cpsc.Dirs.Entries.{entry_at, first}
use cpsc.Dirs.Names.{written}
use cpsc.Dirs.Link.{IsDirectory, scan_all-first, absent-NoneOf, empty_entry, dirlookup-written}

bytes_at-same :
    (k off : ℕ) (addr : ℕ → ℕ) (d d' : Blocks)
    → ((p : ℕ) → p < k → file_byte addr d' (off + p) ≡ file_byte addr d (off + p))
    → bytes_at k off addr d' ≡ bytes_at k off addr d
unfolding bytes_at
bytes_at-same zero off addr d d' same = refl
bytes_at-same (suc k) off addr d d' same =
    ap₂ (λ x xs. x ∷ xs)
      (ap (file_byte addr d') (omega arith)
        ∙ same 0 (omega arith)
        ∙ ap (file_byte addr d) (omega arith))
      (bytes_at-same k (off + 1) addr d d' (λ p lt.
        ap (file_byte addr d') (omega arith)
        ∙ same (suc p) (omega arith)
        ∙ ap (file_byte addr d) (omega arith)))

-- The entries but the one that is written.
Written-entry_at :
    (lim : ℕ) (addr : ℕ → ℕ) (m l : ℕ) (src : ℕ → ℕ) (d d' : Blocks)
    → Written lim addr (dirent_size * m) dirent_size src d d'
    → dirent_size * l + dirent_size ≤ lim
    → l ≢ m
    → entry_at addr d' l ≡ entry_at addr d l
Written-entry_at lim addr m l src d d' w within ne =
    bytes_at-same 16 (16 * l) addr d d'
      (λ p lt. w.bytes (16 * l + p) (omega arith) ∙ rw (away p lt) refl)
  where
    away :
        (p : ℕ)
        → p < 16
        → (leb (dirent_size * m) (16 * l + p) && ltb (16 * l + p) (dirent_size * m + dirent_size))
          ≡ false
    away p lt = ground (arith, ne)

-- The directory with the entry `m`.
module _ (i n m lim : ℕ) (addr : ℕ → ℕ) (src : ℕ → ℕ) (s : Store) (d : Blocks)
    (v : IsDirectory i n lim addr s) (fits : dirent_size * m + dirent_size ≤ lim) (in_it : m ≤ n)
    (w : Written lim addr (dirent_size * m) dirent_size src s.blocks d) where
  abbrev pub added : Store
  added = grown i dirent_size (dirent_size * m + dirent_size) (record s { blocks = d })

  added_inode : added.icache i ≡ record (s.icache i) {
    size =
        if ltb 0 dirent_size && ltb (s.icache i).size (dirent_size * m + dirent_size)
        then dirent_size * m + dirent_size
        else (s.icache i).size;
  }
  added_inode = grown_inode i dirent_size (dirent_size * m + dirent_size) (record s { blocks = d })

  added_blocks : added.blocks ≡ d
  added_blocks =
      grown_blocks i dirent_size (dirent_size * m + dirent_size) (record s { blocks = d })

  added_size : (added.icache i).size ≡ (
      if ltb 0 dirent_size && ltb (s.icache i).size (dirent_size * m + dirent_size)
      then dirent_size * m + dirent_size
      else (s.icache i).size)
  added_size = ap (λ ip. ip.size) added_inode

  abbrev pub count : ℕ
  count = (added.icache i).size / dirent_size

  added-IsDirectory : IsDirectory i count lim addr added
  added-IsDirectory = record {
    type = ap (λ ip. ip.type) added_inode ∙ v.type;
    entries = rw added_size (ground (arith, v.entries));
    within = rw added_size (ground (arith, v.within));
    laid =
        subst (λ b. IsLaid (added.icache i).addrs b lim addr) (sym added_blocks)
          (subst (λ a. IsLaid a d lim addr) (sym (ap (λ ip. ip.addrs) added_inode))
            (Written-IsLaid (s.icache i).addrs s.blocks d lim addr (dirent_size * m) dirent_size src
              v.laid w));
  }

  added_within : m < count
  added_within = rw added_size (ground (arith, v.entries))

  added_here :
      (name : ℕ → ℕ) (inum : ℕ)
      → src ≡ dirent name inum
      → entry_at addr added.blocks m ≡ written name inum
  added_here name inum e =
      ap (λ b. entry_at addr b m) added_blocks
      ∙ Written-bytes_at lim addr (dirent_size * m) dirent_size src s.blocks d fits w
      ∙ ap (slice dirent_size 0) e

  added_before : (l : ℕ) → l < m → entry_at addr added.blocks l ≡ entry_at addr s.blocks l
  added_before l lt =
      ap (λ b. entry_at addr b l) added_blocks
      ∙ Written-entry_at lim addr m l src s.blocks d w (omega arith) (omega arith)

dirlink-absent :
    (reads : DevReads) (writes : DevWrites) (sb : Super) (name : ℕ → ℕ) (inum i n m lim : ℕ)
    (addr : ℕ → ℕ) (s s' : Store)
    → IsDirectory i n lim addr s
    → dirlookup reads sb name i s ≡ some (none, s)
    → (first is_empty (entry_at addr s.blocks) n 0).1 ≡ dirent_size * m
    → writei writes sb i (dirent name inum) (dirent_size * m) dirent_size s ≡ some (pos 16, s')
    → dirlink reads writes sb name inum i s ≡ some (pos 0, s')
unfolding dirlink
dirlink-absent reads writes sb name inum i n m lim addr s s' v absent at run =
    rw (absent, scan_all-first reads sb is_empty i n lim addr s v, at, run) refl

-- `dirlink` of a name and an inode number, neither 0 nor above 16 bits, in a directory of whole
-- entries in which `dirlookup` does not find the name, and which has a block for each of its bytes
-- and for one more entry. It returns 0, and afterwards `dirlookup` of the name is `iget` of the
-- number, at the offset of an entry.
pub dirlookup-dirlink :
    (reads : DevReads) (writes : DevWrites) (sb : Super) (name : ℕ → ℕ) (inum i n lim : ℕ)
    (addr : ℕ → ℕ) (s : Store)
    → IsDirectory i n lim addr s
    → (s.icache i).size + dirent_size ≤ lim
    → 0 < inum
    → inum < 65536
    → dirlookup reads sb name i s ≡ some (none, s)
    → (s' : Store) × (m : ℕ) × (dirlink reads writes sb name inum i s ≡ some (pos 0, s'))
      × (dirlookup reads sb name i s' ≡ (do
        (j, c) ← iget (s'.icache i).dev inum s'.icache
        some (some (dirent_size * m, j), record s' { icache = c })))
dirlookup-dirlink reads writes sb name inum i n lim addr s v room low lt absent =
    let (m, le, at) : (m : ℕ) × (m ≤ n)
        × ((first is_empty (entry_at addr s.blocks) n 0).1 ≡ dirent_size * m) =
      empty_entry (entry_at addr s.blocks) n in
    let (d, run, w) =
      writei-Written writes sb i (dirent name inum) (dirent_size * m) dirent_size s lim addr
        (λ e. absurd (ground (arith, e, v.type))) (omega (arith, v.entries)) (fits m le) v.laid in
    (
      added i n m lim addr (dirent name inum) s d v (fits m le) le w,
      m,
      dirlink-absent reads writes sb name inum i n m lim addr s _ v absent at run,
      dirlookup-written reads sb name inum i
          (count i n m lim addr (dirent name inum) s d v (fits m le) le w) m lim addr
          (added i n m lim addr (dirent name inum) s d v (fits m le) le w)
          (added-IsDirectory i n m lim addr (dirent name inum) s d v (fits m le) le w) low lt
          (added_within i n m lim addr (dirent name inum) s d v (fits m le) le w)
          (added_here i n m lim addr (dirent name inum) s d v (fits m le) le w name inum refl)
          (λ l ll.
            ap (matches name)
              (added_before i n m lim addr (dirent name inum) s d v (fits m le) le w l ll)
            ∙ was_absent l (omega arith)),
    )
  where
    fits : (m : ℕ) → m ≤ n → dirent_size * m + dirent_size ≤ lim
    fits m le = omega (arith, v.entries, room)

    was_absent : (l : ℕ) → l < n → matches name (entry_at addr s.blocks l) ≡ false
    was_absent l ll =
        ap (λ x. matches name (entry_at addr s.blocks x)) (omega arith)
        ∙ (absent-NoneOf reads sb name i n lim addr s v absent).fails l ll
