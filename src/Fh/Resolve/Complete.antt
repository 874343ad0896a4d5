-- ===== src/Fh/Resolve/Complete.antt =====
-- src/fh.c: the objects that the stored hashes lead to, and the search for them.
use nfsrods.Prelude.{
  ℕ, ◌+◌, ◌≡◌, ◌≢◌, ◌⊎◌, inl, inr, true, false, ltb, List, [], ◌∷◌, Option, none, some, length,
  arith,
}
use nfsrods.Backend.{FilePath, Stat, FileSys, nfs_maxpathlen}
use nfsrods.Fh.Handles.{Handle, fh_hash}
use nfsrods.Fh.Resolve.{Found, join_path, is_dot, stat_buffer, visit, scan, fh_rec}

-- The name is listed.
abbrev pub In : FilePath → List FilePath → Type 0
In x [] = ⊥
In x (y ∷ ys) = (x ≡ y) ⊎ In x ys

module _ (fs : FileSys) where
  abbrev pub Listed : FilePath → FilePath → Type 0
  Listed lead name = (names : List FilePath) × (fs.list_dir lead ≡ some names) × In name names

  -- From a directory the stored hashes lead, entry by entry, to the object of the handle.
  pub data Trail (fh : Handle) : List ℕ → FilePath → Type 0 where
    here :
        {hash : ℕ} {rest : List ℕ} {lead : FilePath} (name : FilePath) (b : Stat)
        → Listed lead name
        → (ltb (length lead + length name + 1) nfs_maxpathlen ≡ true)
        → fs.lstat (join_path lead name) ≡ some b
        → b.dev ≡ fh.dev
        → b.ino ≡ fh.ino
        → Trail fh (hash ∷ rest) lead
    below :
        {hash : ℕ} {rest : List ℕ} {lead : FilePath} (name : FilePath) (b : Stat)
        → Listed lead name
        → (ltb (length lead + length name + 1) nfs_maxpathlen ≡ true)
        → fs.lstat (join_path lead name) ≡ some b
        → is_dot name ≡ false
        → fh_hash b.ino ≡ hash
        → Trail fh rest (join_path lead name)
        → Trail fh (hash ∷ rest) lead

  module _ (fh : Handle) (junk : Stat) where
    abbrev Finds : Option Found → Type 0
    Finds o = o ≢ none

    scan-Finds :
        (rec : FilePath → Option Found) (hash : ℕ) (lead : FilePath) (name : FilePath) (b : Stat)
        → (ltb (length lead + length name + 1) nfs_maxpathlen ≡ true)
        → fs.lstat (join_path lead name) ≡ some b
        → Finds (visit fs fh junk rec hash lead name b)
        → (buf : Stat) (names : List FilePath) → In name names
        → Finds (scan fs fh junk rec hash lead buf names)
    unfolding scan
    scan-Finds rec hash lead name b fits read v buf [] i = absurd i
    scan-Finds rec hash lead name b fits read v buf (n ∷ names) (inl e) = ground arith
    scan-Finds rec hash lead name b fits read v buf (n ∷ names) (inr i) =
        let buf' = stat_buffer buf (fs.lstat (join_path lead n)) in
        ground (
          arith,
          scan-Finds rec hash lead name b fits read v buf' names i,
          scan-Finds rec hash lead name b fits read v buf names i,
        )

    pub fh_rec-Finds :
        {hs : List ℕ} {lead : FilePath} → Trail fh hs lead → Finds (fh_rec fs fh junk hs lead)
    unfolding fh_rec visit
    fh_rec-Finds (here {hash} {rest} {lead} name b (names, listed, i) fits read d o) =
        let rec = fh_rec fs fh junk rest in
        rw (listed, fh_rec) (scan-Finds rec hash lead name b fits read (ground arith) junk names i)
    fh_rec-Finds (below {hash} {rest} {lead} name b (names, listed, i) fits read nd e t) =
        let rec = fh_rec fs fh junk rest in
        rw (listed, fh_rec)
          (scan-Finds rec hash lead name b fits read (ground (arith, fh_rec-Finds t)) junk names i)
