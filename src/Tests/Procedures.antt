-- ===== src/Tests/Procedures.antt =====
-- Runs of the procedures of src/nfs.c.
use nfsrods.Prelude.{
  ℕ, if◌then◌else◌, ◌==◌, ◌≤◌, ◌≡◌, ◌≢◌, refl, ap, Bool, true, false, List, [], ◌∷◌, none, some,
  length, bytes, arith,
}
use nfsrods.Backend.{FilePath}
use nfsrods.Status.{nfs3_ok, is_ok}
use nfsrods.Fh.Handles.{fh_hash, nfh_valid, fh_valid}
use nfsrods.Fh.Resolve.{visit, scan, fh_rec, fh_decomp_raw}
use nfsrods.FhCache.Table.{lookup, index, find}
use nfsrods.FhCache.Decomp.{search_object, store, resolve, fh_decomp}
use nfsrods.FdCache.Counts.{Counted, init-Counted}
use nfsrods.FdCache.Table.{Cache, init}
use nfsrods.User.Switch.{switch_to_root, switch_user, groups_of}
use nfsrods.User.Ids.{mangle, get_uid, get_gid}
use nfsrods.Attr.Put.{Sattr3, SetTime, atomic_attr}
use nfsrods.Attr.Get.{is_reg}
use nfsrods.Error.{join, join3}
use nfsrods.Exports.Lookup.{
  exports_options, exports_rw, consider_all, consider, find_host, take_host, no_options,
  export_point_from_fsid,
}
use nfsrods.Nfs.Paths.{cat_name}
use nfsrods.Nfs.Prep.{
  Env, State, Prepared, prepared, look_up, admit, as_user, prep, Handled, replied, Call, remove_obj,
}
use nfsrods.Nfs.Admitted.{Admitted, prep-Admitted}
use nfsrods.Nfs.Change.{Diropargs3, DirRes, MkdirRes, zeroed, zeroed_mkdir, remove, mkdir}
use nfsrods.Nfs.Transfer.{
  Pulled, pulled, no_bytes, ReadRes, WriteRes, StableHow, no_data, no_write, maxdata, read,
  read_count, write, write_data,
}
use nfsrods.Nfs.Laws.{remove_denied, mkdir_denied, write_denied, read_fits, write_data-Counted}
use nfsrods.Tests.Descriptors.{sys}
use nfsrods.Tests.Samples.{small_fs, no_stat, squashing, root_user, root_request}
use nfsrods.Tests.Caches.{world, wire_a, no_entry}
use nfsrods.Tests.Exporting.{item_of, nothing_yet}

-- Root on a client; the export may not be written.
abbrev env : Env
env = record {
  auth = root_user;
  req = root_request;
  remote = 1;
  export_list = item_of 0 ∷ [];
  world = world;
  fs_after = small_fs;
  host = record {
    ruid = 0;
    rgid = 0;
    seteuid_ok = λ p id. true;
    setegid_ok = λ p id. true;
    setgroups_ok = λ p ids. true;
  };
  singleuser = false;
  readable_executables = false;
  is_public = true;
  zone = bytes "zone";
  sprintf_d = λ id. bytes "0";
  getpwuid = λ id. none;
}

abbrev start : State
start = record {
  cache = no_entry;
  stat_cache = no_stat;
  last = nothing_yet;
  settings = squashing;
  process = record { euid = 0; egid = 0; groups = [] };
  rcookie = 0;
}

abbrev state_of : Prepared → State
state_of (Prepared.prepared path now) = now
state_of _ = start

prep_a : prep env wire_a start ≡ prepared (bytes "/a") (state_of (prep env wire_a start))
unfolding prep look_up admit as_user switch_to_root switch_user groups_of get_uid get_gid mangle
    exports_options consider_all consider find_host take_host no_options export_point_from_fsid
    fh_decomp nfh_valid resolve lookup index find search_object fh_decomp_raw fh_rec scan visit
    fh_hash store fh_valid
prep_a = refl

prep-Admitted_example : Admitted env wire_a start (bytes "/a")
prep-Admitted_example =
    prep-Admitted env wire_a start (state_of (prep env wire_a start)) (bytes "/a") prep_a

abbrev now : State
now = state_of (prep env wire_a start)

read_only : exports_rw now.last ≢ nfs3_ok
unfolding exports_rw prep look_up admit as_user switch_to_root switch_user groups_of get_uid get_gid
    mangle exports_options consider_all consider find_host take_host no_options
    export_point_from_fsid fh_decomp nfh_valid resolve lookup index find search_object fh_decomp_raw
    fh_rec scan visit fh_hash store fh_valid
read_only h = ground (arith, h)

abbrev reply_of : {A : Type 0} → A → Handled A → A
reply_of a (Handled.replied r st calls) = r
reply_of a Handled.stopped = a

abbrev after_of : {A : Type 0} → Handled A → State
after_of (Handled.replied r st calls) = st
after_of Handled.stopped = start

abbrev calls_of : {A : Type 0} → Handled A → List Call
calls_of (Handled.replied r st calls) = calls
calls_of Handled.stopped = []

abbrev args : Diropargs3
args = record { dir = wire_a; name = bytes "b" }

abbrev removed : Handled DirRes
removed = remove env (λ call. none) [] args start

abbrev no_attr : Sattr3
no_attr = record {
  mode = none;
  uid = none;
  gid = none;
  size = none;
  atime = SetTime.dont_change;
  mtime = SetTime.dont_change;
}

abbrev made_res : Handled MkdirRes
made_res = mkdir env (λ call. none) [] args no_attr start

abbrev written : Handled WriteRes × Cache
written = write env sys (λ fd. some 1) 0 wire_a 0 StableHow.unstable (104 ∷ []) start init

-- The server of the objects has one byte.
abbrev one_byte : FilePath → ℕ → ℕ → Pulled
one_byte path offset count = if count == 0 then no_bytes 0 else pulled (104 ∷ [])

abbrev got : Handled ReadRes
got = read env one_byte 0 0 true wire_a 0 100 start

abbrev is_replied : {A : Type 0} → Handled A → Bool
is_replied (Handled.replied r st calls) = true
is_replied Handled.stopped = false

replied_eta :
    {A : Type 0} (a : A) (h : Handled A)
    → is_replied h ≡ true
    → h ≡ replied (reply_of a h) (after_of h) (calls_of h)
replied_eta a (Handled.replied r st calls) e = refl
replied_eta a Handled.stopped e = absurd (ground (arith, e))

all_replied :
    (is_replied removed ≡ true)
    × (is_replied made_res ≡ true)
    × (is_replied written.0 ≡ true)
    × (is_replied got ≡ true)
unfolding remove mkdir write read read_count join join3 exports_rw cat_name atomic_attr is_reg prep
    look_up admit as_user switch_to_root switch_user groups_of get_uid get_gid mangle
    exports_options consider_all consider find_host take_host no_options export_point_from_fsid
    fh_decomp nfh_valid resolve lookup index find search_object fh_decomp_raw fh_rec scan visit
    fh_hash store fh_valid
all_replied = (refl, refl, refl, refl)

remove_denied_example :
    (is_ok (reply_of (zeroed nfs3_ok) removed).status ≡ false)
    × ((obj : FilePath) × (calls_of removed ≡ remove_obj obj ∷ []))
remove_denied_example =
    remove_denied env (λ call. none) [] args start now (after_of removed) (bytes "/a")
      (reply_of (zeroed nfs3_ok) removed) (calls_of removed) prep_a read_only
      (replied_eta (zeroed nfs3_ok) removed all_replied.0)

mkdir_denied_example :
    (is_ok (reply_of (zeroed_mkdir nfs3_ok) made_res).status ≡ false)
    × ((calls_of made_res ≡ []) × ((reply_of (zeroed_mkdir nfs3_ok) made_res).obj ≡ none))
mkdir_denied_example =
    mkdir_denied env (λ call. none) [] args no_attr start now (after_of made_res) (bytes "/a")
      (reply_of (zeroed_mkdir nfs3_ok) made_res) (calls_of made_res) prep_a read_only
      (replied_eta (zeroed_mkdir nfs3_ok) made_res all_replied.1)

write_denied_example :
    (is_ok (reply_of (no_write nfs3_ok) written.0).status ≡ false)
    × ((calls_of written.0 ≡ []) × (written.1 ≡ init))
write_denied_example =
    write_denied env sys (λ fd. some 1) 0 wire_a 0 StableHow.unstable (104 ∷ []) start now
      (after_of written.0) (bytes "/a") init written.1 (reply_of (no_write nfs3_ok) written.0)
      (calls_of written.0) prep_a read_only
      (ap (λ h. (h, written.1)) (replied_eta (no_write nfs3_ok) written.0 all_replied.2))

write_data-Counted_example :
    Counted (write_data sys (λ fd. some 1) 0 StableHow.unstable (bytes "/a") wire_a init).1.0
write_data-Counted_example =
    write_data-Counted sys (λ fd. some 1) 0 StableHow.unstable (bytes "/a") wire_a init
      (omega arith) init-Counted

read_fits_example :
    let r = reply_of (no_data nfs3_ok none) got in
    (r.count ≡ length r.contents) × ((r.count ≤ 100) × (r.count ≤ maxdata true))
read_fits_example =
    read_fits env one_byte 0 0 true wire_a 0 100 start (after_of got)
      (reply_of (no_data nfs3_ok none) got) (calls_of got) (λ p o n g e. ground (arith, e))
      (replied_eta (no_data nfs3_ok none) got all_replied.3)
