-- ===== src/Fh/Resolve.antt =====
-- src/fh.c: how a file handle is resolved into a path, by a search that the stored hashes guide.
pub mod Sound
pub mod Complete
use nfsrods.Prelude.{
  ℕ, ◌+◌, ◌≡◌, Bool, true, false, not, ◌&&◌, ◌||◌, ◌==◌, ltb, if◌then◌else◌, List, [], ◌∷◌, ◌++◌,
  Option, none, some, length, str_eq, bytes,
}
use nfsrods.Backend.{FilePath, Stat, FileSys, nfs_maxpathlen}
use nfsrods.Fh.Handles.{Handle, slash, fh_hash}

-- What a search finds: the path, and the stat buffer that goes into the stat cache.
pub record Found : Type 0 where
  pub path : FilePath
  pub stat : Stat

-- `sprintf(obj, "%s/%s", lead, name)`
abbrev pub join_path : FilePath → FilePath → FilePath
join_path lead name = lead ++ (slash ∷ name)

-- `lead + 1`
abbrev pub skip_one : FilePath → FilePath
skip_one [] = []
skip_one (c ∷ cs) = cs

abbrev pub is_dot : FilePath → Bool
is_dot name = str_eq name (bytes "..") || str_eq name (bytes ".")

-- The buffer after `lstat`: a failure leaves the other fields as they were.
abbrev pub stat_buffer : Stat → Option Stat → Stat
stat_buffer buf none = record buf { dev = 0; ino = 0 }
stat_buffer buf (some s) = s

-- The answer of `fh_decomp_raw`; the root's handle needs no search and leaves the stat cache alone.
pub data Resolved : Type 0 where
  root : Resolved
  found : Found → Resolved
  not_found : Resolved

module _ (fs : FileSys) (fh : Handle) (junk : Stat) where
  -- The body of the loop for one entry that fits: a match, or a descent by `rec`.
  unfoldable pub visit : (FilePath → Option Found) → ℕ → FilePath → FilePath → Stat → Option Found
  visit rec hash lead name buf =
      if buf.dev == fh.dev && buf.ino == fh.ino
      then some (record { path = join_path (skip_one lead) name; stat = buf })
      else if not (is_dot name) && fh_hash buf.ino == hash
      then rec (join_path lead name)
      else none

  -- `while (entry)`; `buf` is the stat buffer that the entries share.
  unfoldable pub scan :
      (FilePath → Option Found) → ℕ → FilePath → Stat → List FilePath → Option Found
  unfolding visit
  scan rec hash lead buf [] = none
  scan rec hash lead buf (name ∷ names) =
      let buf' = stat_buffer buf (fs.lstat (join_path lead name)) in
      let fits = ltb (length lead + length name + 1) nfs_maxpathlen in
      let next = scan rec hash lead (if fits then buf' else buf) names in
      if fits then elim (visit rec hash lead name buf') [ none ↦ next | some f ↦ some f ] else next

  -- `fh_rec`, on the hashes from `pos` on; with none left the search went in too deep.
  unfoldable pub fh_rec : List ℕ → FilePath → Option Found
  unfolding scan
  fh_rec [] lead = none
  fh_rec (hash ∷ rest) lead = elim (fs.list_dir lead) [
    | none ↦ none
    | some names ↦ scan (fh_rec rest) hash lead junk names
  ]

  unfoldable pub fh_decomp_raw : Resolved
  unfolding fh_rec
  fh_decomp_raw = elim fh.inos [
    | [] ↦ Resolved.root
    | _ ∷ _ ↦ elim (fh_rec fh.inos (slash ∷ [])) [
      | none ↦ Resolved.not_found
      | some f ↦ Resolved.found f
    ]
  ]
