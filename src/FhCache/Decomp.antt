-- ===== src/FhCache/Decomp.antt =====
-- src/fh_cache.c: `fh_decomp`, which resolves a file handle through the cache, and `fh_comp`.
-- `point` answers `export_point_from_fsid`; `password_hash` is `export_password_hash`.
use nfsrods.Prelude.{
  ℕ, ◌+◌, Bool, true, false, not, ◌==◌, if◌then◌else◌, List, [], ◌∷◌, Option, none, some,
}
use nfsrods.Backend.{FilePath, Stat, FileSys, StatCache}
use nfsrods.Fh.Handles.{Handle, NfsFh, Special, slash, fh_valid, nfh_valid, fh_comp_raw}
use nfsrods.Fh.Resolve.{Resolved, fh_decomp_raw}
use nfsrods.Locate.{locate_file}
use nfsrods.FhCache.Table.{Cache, Looked, add, lookup}

-- The surroundings of a request: the file system, the option -b, the mount points, and the value
-- that an uninitialised stat buffer happens to have.
pub record World : Type 0 where
  pub fs : FileSys
  pub brute_force : Bool
  pub mtab : Option (List FilePath)
  pub junk : Stat

-- The values that the stat cache gets for an export point with a preset fsid.
unfoldable pub sane_stat : Stat → ℕ → Stat
sane_stat st dev = record st {
  nlink = if st.nlink == 0 then 1 else st.nlink;
  size = if st.size == 0 then 4096 else st.size;
  blksize = if st.blksize == 0 then 512 else st.blksize;
  blocks = if st.blocks == 0 then 8 else st.blocks;
  dev = dev;
  ino = 1;
}

-- After a miss: the search by hashes, then the search of the whole device.
unfoldable pub search_object : World → Handle → Resolved
search_object w obj = elim (fh_decomp_raw w.fs obj w.junk) [
  | Resolved.root ↦ Resolved.root
  | Resolved.found f ↦ Resolved.found f
  | Resolved.not_found ↦ elim (locate_file w.fs obj.dev obj.ino w.brute_force w.mtab) [
    | none ↦ Resolved.not_found
    | some f ↦ Resolved.found f
  ]
]

-- What is found is added to the cache. The root is found with no change of the stat cache.
unfoldable pub store : Handle → Cache → StatCache → Resolved → Looked
store obj c sc Resolved.root = record {
  result = some (slash ∷ []);
  cache = add c obj.dev obj.ino (slash ∷ []);
  stat_cache = sc;
}
store obj c sc (Resolved.found f) = record {
  result = some f.path;
  cache = add c obj.dev obj.ino f.path;
  stat_cache = record { valid = true; stat = f.stat };
}
store obj c sc Resolved.not_found = record {
  result = none;
  cache = c;
  stat_cache = record sc { valid = false };
}

unfoldable pub resolve : World → Cache → StatCache → Handle → Looked
unfolding search_object store
resolve w c sc obj =
    let looked = lookup w.fs c sc obj.dev obj.ino in
    let counted = record (looked.cache) { uses = looked.cache.uses + 1 } in
    elim looked.result [
      | some path ↦ record {
        result = some path;
        cache = record counted { hits = counted.hits + 1 };
        stat_cache = looked.stat_cache;
      }
      | none ↦ store obj counted looked.stat_cache (search_object w obj)
    ]

unfoldable pub fh_decomp : World → (ℕ → Option FilePath) → Cache → StatCache → NfsFh → Looked
unfolding resolve sane_stat
fh_decomp w point c sc nfh =
    if not (nfh_valid nfh)
    then record { result = none; cache = c; stat_cache = record sc { valid = false } }
    else elim (point nfh.obj.dev) [
      | none ↦ resolve w c sc nfh.obj
      | some path ↦
          if nfh.obj.ino == 1
          then record {
            result = some path;
            cache = c;
            stat_cache = record { valid = true; stat = sane_stat sc.stat nfh.obj.dev };
          }
          else resolve w c sc nfh.obj
    ]

-- `fh_comp`: the handle of a path, and the cache with a valid one's path added.
unfoldable pub fh_comp : FileSys → Special → ℕ → Cache → FilePath → Bool → Handle × Cache
fh_comp fs special password_hash c path need_dir =
    let res = fh_comp_raw fs special path need_dir in
    (record res { pwhash = password_hash }, if fh_valid res then add c res.dev res.ino path else c)

-- `fh_comp_ptr`; `none` is the null pointer.
unfoldable pub fh_comp_ptr : FileSys → Special → ℕ → Cache → FilePath → Bool → Option Handle × Cache
unfolding fh_comp
fh_comp_ptr fs special password_hash c path need_dir =
    let (res, c') = fh_comp fs special password_hash c path need_dir in
    (if fh_valid res then some res else none, c')
