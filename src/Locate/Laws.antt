-- ===== src/Locate/Laws.antt =====
-- src/locate.c: the object that is found, and the fuel of the model.
use nfsrods.Prelude.{
  ℕ, zero, suc, ◌+◌, ◌≤◌, ◌<◌, ◌≡◌, refl, inl, inr, Bool, List, [], ◌∷◌, Option, none, some, length,
  length-append, arith, Option-cases,
}
use nfsrods.Backend.{FilePath, FileSys, nfs_maxpathlen}
use nfsrods.Fh.Handles.{slash}
use nfsrods.Fh.Resolve.{Found, join_path}
use nfsrods.Locate.{locate_scan, locate_pfx, mount_point, locate_file}

-- The path leads to an object with this device and inode, and the stat buffer is its.
pub record IsObject (fs : FileSys) (dev ino : ℕ) (f : Found) : Type 0 where
  pub exists : fs.lstat f.path ≡ some f.stat
  pub same_dev : f.stat.dev ≡ dev
  pub same_ino : f.stat.ino ≡ ino

module _ (fs : FileSys) (dev ino : ℕ) where
  scan_sound :
      (rec : FilePath → Option Found) (pfx : FilePath) (names : List FilePath) (f : Found)
      → ((p : FilePath) (g : Found) → rec p ≡ some g → IsObject fs dev ino g)
      → locate_scan fs dev ino rec pfx names ≡ some f
      → IsObject fs dev ino f
  unfolding locate_scan
  scan_sound rec pfx [] f deeper h = absurd (ground arith)
  scan_sound rec pfx (name ∷ names) f deeper h = ground (
    arith,
    Option-cases (fs.lstat (join_path pfx name)),
    deeper (join_path pfx name) f,
    scan_sound rec pfx names f deeper,
  )

  pfx_sound :
      (fuel : ℕ) (pfx : FilePath) (f : Found)
      → locate_pfx fs dev ino fuel pfx ≡ some f
      → IsObject fs dev ino f
  unfolding locate_pfx
  pfx_sound zero pfx f h = absurd (ground arith)
  pfx_sound (suc fuel) pfx f h = elim (Option-cases (fs.list_dir pfx)) [
    | inl e ↦ absurd (ground arith)
    | inr (names, e) ↦
        scan_sound (locate_pfx fs dev ino fuel) pfx names f (pfx_sound fuel) (ground arith)
  ]

  -- What `locate_file` finds is an object with the device and the inode asked for, by the path and
  -- with the stat buffer that it returns.
  pub locate_file-IsObject :
      (brute_force : Bool) (mtab : Option (List FilePath)) (f : Found)
      → locate_file fs dev ino brute_force mtab ≡ some f
      → IsObject fs dev ino f
  unfolding locate_file
  locate_file-IsObject brute_force none f h = absurd (ground arith)
  locate_file-IsObject brute_force (some dirs) f h =
      elim (Option-cases (mount_point fs dev ino dirs)) [
        | inl e ↦ absurd (ground arith)
        | inr (dir, e) ↦ pfx_sound nfs_maxpathlen dir f (ground arith)
      ]

  scan_cong :
      (rec rec' : FilePath → Option Found) (pfx : FilePath) (names : List FilePath)
      → ((name : FilePath)
          → length pfx + length name + 2 < nfs_maxpathlen
          → rec (join_path pfx name) ≡ rec' (join_path pfx name))
      → locate_scan fs dev ino rec pfx names ≡ locate_scan fs dev ino rec' pfx names
  unfolding locate_scan
  scan_cong rec rec' pfx [] same = refl
  scan_cong rec rec' pfx (name ∷ names) same =
      ground (arith, same name, scan_cong rec rec' pfx names same)

  -- Below a path that fills the buffer there is nothing.
  scan_full :
      (rec : FilePath → Option Found) (pfx : FilePath) (names : List FilePath)
      → nfs_maxpathlen ≤ length pfx
      → locate_scan fs dev ino rec pfx names ≡ none
  unfolding locate_scan
  scan_full rec pfx [] h = refl
  scan_full rec pfx (name ∷ names) h = ground (arith, scan_full rec pfx names h)

  -- Once the fuel and the length of the path reach NFS_MAXPATHLEN together, one more unit of fuel
  -- finds the same.
  pub locate_pfx-fuel :
      (fuel : ℕ) (pfx : FilePath)
      → nfs_maxpathlen ≤ fuel + length pfx
      → locate_pfx fs dev ino (suc fuel) pfx ≡ locate_pfx fs dev ino fuel pfx
  unfolding locate_pfx
  locate_pfx-fuel zero pfx enough = elim (Option-cases (fs.list_dir pfx)) [
    | inl e ↦ rw (e, locate_pfx)
    | inr (names, e) ↦
        rw (e, locate_pfx) (scan_full (locate_pfx fs dev ino 0) pfx names (omega arith))
  ]
  locate_pfx-fuel (suc fuel) pfx enough = elim (Option-cases (fs.list_dir pfx)) [
    | inl e ↦ rw (e, locate_pfx)
    | inr (names, e) ↦
        rw (e, locate_pfx)
          (scan_cong (locate_pfx fs dev ino (suc fuel)) (locate_pfx fs dev ino fuel) pfx names
            (λ name fits.
              locate_pfx-fuel fuel (join_path pfx name)
                (omega (arith, length-append pfx (slash ∷ name)))))
  ]
