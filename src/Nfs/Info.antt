-- ===== src/Nfs/Info.antt =====
-- src/nfs.c: READDIR, FSSTAT, FSINFO, PATHCONF, and the procedures that are not supported.
use nfsrods.Prelude.{
  ℕ, ◌-◌, ◌*◌, ◌%◌, ◌^◌, Bool, true, false, ◌&&◌, if◌then◌else◌, [], ◌∷◌, Option, none, some,
  test_bit,
}
use nfsrods.Backend.{FilePath, u32_mod, nfs_maxpathlen}
use nfsrods.Status.{Nfsstat3, nfs3_ok, nfs3err_io, nfs3err_notsupp}
use nfsrods.Fh.Handles.{NfsFh}
use nfsrods.User.Ids.{opt_removable}
use nfsrods.Attr.Get.{Fattr3, get_post_stat, get_post_cached}
use nfsrods.Readdir.Page.{Readdir3res, read_dir}
use nfsrods.Exports.Lookup.{export_point}
use nfsrods.Nfs.Paths.{real_path}
use nfsrods.Nfs.Prep.{
  Env, State, Handled, replied, with_prep, view, site, opts_word, collection_path, list_collection,
}
use nfsrods.Nfs.Transfer.{maxdata}

-- `(exports_opts & OPT_REMOVABLE) && export_point(path)`
abbrev is_removable_point : Env → State → FilePath → Bool
is_removable_point env st path =
    test_bit (opts_word st.last) opt_removable && export_point env.export_list path

-- `READDIR3res` with the attributes of the directory.
pub record Listed : Type 0 where
  pub page : Readdir3res
  pub dir_attributes : Option Fattr3

-- The collection is listed on the iRODS server, into the directory, before that is read.
unfoldable pub readdir : Env → (FilePath → ℕ) → NfsFh → ℕ → ℕ → State → Handled Listed
unfolding collection_path
readdir env errno dir cookie count st =
    with_prep env dir st
      (λ status. record { page = Readdir3res.resfail status; dir_attributes = none })
      (λ path now.
        let moved = real_path (site env now) env.auth.uid path in
        replied
          (record {
            page =
                read_dir env.fs_after errno (is_removable_point env now moved) now.rcookie moved
                  cookie count;
            dir_attributes =
                get_post_stat env.fs_after (view env now) now.stat_cache (some moved) env.req;
          })
          now (list_collection (collection_path env now path) moved ∷ []))

-- `struct statvfs`, with the fields that the source reads.
pub record Statvfs : Type 0 where
  pub f_frsize : ℕ
  pub f_blocks : ℕ
  pub f_bfree : ℕ
  pub f_bavail : ℕ
  pub f_files : ℕ
  pub f_ffree : ℕ

pub record Space : Type 0 where
  pub tbytes : ℕ
  pub fbytes : ℕ
  pub abytes : ℕ
  pub tfiles : ℕ
  pub ffiles : ℕ
  pub afiles : ℕ
  pub invarsec : ℕ

pub record FsstatRes : Type 0 where
  pub status : Nfsstat3
  pub obj_attributes : Option Fattr3
  pub resok : Option Space

-- A number of blocks as bytes, in 64 bits.
abbrev in_bytes : ℕ → ℕ → ℕ
in_bytes blocks size = (blocks * size) % 2 ^ 64

space_of : Statvfs → Space
space_of buf = record {
  tbytes = in_bytes buf.f_blocks buf.f_frsize;
  fbytes = in_bytes buf.f_bfree buf.f_frsize;
  abytes = in_bytes buf.f_bavail buf.f_frsize;
  tfiles = buf.f_files;
  ffiles = buf.f_ffree;
  afiles = buf.f_ffree;
  invarsec = 0;
}

-- An export point of removable media, probably without a medium.
abbrev no_space : Space
no_space = record {
  tbytes = 0;
  fbytes = 0;
  abytes = 0;
  tfiles = 0;
  ffiles = 0;
  afiles = 0;
  invarsec = 0;
}

-- `statvfs` is the answer of the call of that name.
unfoldable fsstat : Env → (FilePath → Option Statvfs) → NfsFh → State → Handled FsstatRes
unfolding space_of
fsstat env statvfs fsroot st =
    with_prep env fsroot st
      (λ status. record { status = status; obj_attributes = none; resok = none })
      (λ path now.
        let attr = get_post_cached env.world.fs (view env now) now.stat_cache env.req in
        elim (statvfs path) [
          | some buf ↦
              replied
                (record { status = nfs3_ok; obj_attributes = attr; resok = some (space_of buf) })
                now []
          | none ↦
              if is_removable_point env now path
              then replied
                  (record { status = nfs3_ok; obj_attributes = attr; resok = some no_space }) now []
              else replied (record { status = nfs3err_io; obj_attributes = attr; resok = none }) now
                  []
        ])

-- The limits of FSINFO; `properties` is FSF3_HOMOGENEOUS, 8, with FSF3_CANSETTIME, 16.
pub record Limits : Type 0 where
  pub rtmax : ℕ
  pub rtpref : ℕ
  pub rtmult : ℕ
  pub wtmax : ℕ
  pub wtpref : ℕ
  pub wtmult : ℕ
  pub dtpref : ℕ
  pub maxfilesize : ℕ
  pub seconds : ℕ
  pub nseconds : ℕ
  pub properties : ℕ

limits : Bool → Limits
limits is_stream = record {
  rtmax = maxdata is_stream;
  rtpref = maxdata is_stream;
  rtmult = 4096;
  wtmax = maxdata is_stream;
  wtpref = maxdata is_stream;
  wtmult = 4096;
  dtpref = 4096;
  maxfilesize = 2 ^ 64 - 1;
  seconds = 1;
  nseconds = 0;
  properties = 24;
}

pub record FsinfoRes : Type 0 where
  pub status : Nfsstat3
  pub obj_attributes : Option Fattr3
  pub resok : Option Limits

unfoldable fsinfo : Env → Bool → NfsFh → State → Handled FsinfoRes
unfolding limits
fsinfo env is_stream fsroot st =
    with_prep env fsroot st
      (λ status. record { status = status; obj_attributes = none; resok = none })
      (λ path now.
        replied
          (record {
            status = nfs3_ok;
            obj_attributes = get_post_cached env.world.fs (view env now) now.stat_cache env.req;
            resok = some (limits is_stream);
          })
          now [])

-- `case_insensitive` is FALSE on Unix.
pub record Names : Type 0 where
  pub linkmax : ℕ
  pub name_max : ℕ
  pub no_trunc : Bool
  pub chown_restricted : Bool
  pub case_insensitive : Bool
  pub case_preserving : Bool

pub record PathconfRes : Type 0 where
  pub status : Nfsstat3
  pub obj_attributes : Option Fattr3
  pub resok : Option Names

unfoldable pathconf : Env → NfsFh → State → Handled PathconfRes
pathconf env object st =
    with_prep env object st
      (λ status. record { status = status; obj_attributes = none; resok = none })
      (λ path now.
        replied
          (record {
            status = nfs3_ok;
            obj_attributes = get_post_cached env.world.fs (view env now) now.stat_cache env.req;
            resok = some (record {
              linkmax = u32_mod - 1;
              name_max = nfs_maxpathlen;
              no_trunc = true;
              chown_restricted = false;
              case_insensitive = false;
              case_preserving = true;
            });
          })
          now [])

-- The status of the procedures that do nothing: READLINK, SYMLINK, MKNOD, LINK, READDIRPLUS, COMMIT.
abbrev pub readlink : Nfsstat3
readlink = nfs3err_notsupp

abbrev pub symlink : Nfsstat3
symlink = nfs3err_notsupp

abbrev pub mknod : Nfsstat3
mknod = nfs3err_notsupp

abbrev pub link : Nfsstat3
link = nfs3err_notsupp

abbrev readdirplus : Nfsstat3
readdirplus = nfs3err_notsupp

abbrev commit : Nfsstat3
commit = nfs3err_notsupp
