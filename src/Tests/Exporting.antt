-- ===== src/Tests/Exporting.antt =====
-- Runs of the models of src/Config/exports.y, of the procedure MNT, and of the paths of src/nfs.c.
use nfsrods.Prelude.{
  ℕ, ◌+◌, ◌≤◌, ◌≡◌, refl, true, false, ◌==◌, if◌then◌else◌, List, [], ◌∷◌, ◌++◌, Option, none, some,
  Bool, length, bytes, test_bit, arith,
}
use nfsrods.Backend.{nfs_maxpathlen}
use nfsrods.Fh.Handles.{Handle, Special}
use nfsrods.User.Ids.{opt_rw}
use nfsrods.Exports.{EHost, EItem}
use nfsrods.Exports.Lookup.{
  Last, exports_options, exports_rw, find_host, consider, consider_all, take_host, no_options,
  export_point,
}
use nfsrods.Exports.Longest.{Applies, Taken, exports_options-Longest, exports_rw-Taken}
use nfsrods.Exports.Parse.{Env, Action, Exports, exports_parse, opt, host, export}
use nfsrods.Exports.Laws.{shown, exports_parse-shown}
use nfsrods.Exports.Writable.{add_options, last_rw, add_options-rw}
use nfsrods.Exports.Names.{normpath}
use nfsrods.Exports.Normal.{no_double, normpath_twice}
use nfsrods.Mount.Table.{no_mounts}
use nfsrods.Mount.Mnt.{
  Caller, State, authenticate, may_mount, mount_real, mount_path, mountproc_mnt,
}
use nfsrods.Password.{mnt_cmd_argument, until_slash}
use nfsrods.Mount.Guard.{mountproc_mnt_refused}
use nfsrods.Nfs.Paths.{Site, cat_name, real_path, irods_path, user_root, nfs_directory}
use nfsrods.Nfs.Private.{cat_name_fits, irods_path-real_path, real_path_foreign}
use nfsrods.Tests.Samples.{small_fs}
use nfsrods.Tests.Caches.{no_entry}

abbrev pub host_of : ℕ → EHost
host_of options = record {
  orig = bytes "all";
  options = options;
  password = [];
  password_hash = 0;
  addr = 0;
  mask = 0;
  anonuid = 4294967295;
  anongid = 4294967295;
}

-- An export of "/" to every host.
abbrev pub item_of : ℕ → EItem
item_of options = record {
  path = bytes "/";
  orig = bytes "/";
  hosts = host_of options ∷ [];
  fsid = 2147483648;
  last_mtime = 0;
  dir_hash = 0;
}

abbrev pub nothing_yet : Last
nothing_yet = record {
  exports_opts = none;
  export_path = none;
  export_fsid = 0;
  export_password_hash = 0;
  last_anonuid = 0;
  last_anongid = 0;
}

abbrev writable : List EItem
writable = item_of 4 ∷ []

root-Applies : Applies (bytes "/a") 1 (item_of 4) (host_of 4)
root-Applies = record {
  nonempty = omega arith;
  rest = bytes "a";
  under = refl;
  is_host = record { before = []; after = []; split = refl; in_network = refl; others = tt };
}

exports_options-Longest_example :
    (t : Taken writable (bytes "/a") 1 (exports_options writable (some (bytes "/a")) 1 nothing_yet))
    × (1 ≤ length t.item.path)
exports_options-Longest_example =
    exports_options-Longest writable (bytes "/a") 1 nothing_yet 0 (item_of 4) (host_of 4) refl refl
      root-Applies

exports_rw-Taken_example :
    (t : Taken writable (bytes "/a") 1 (exports_options writable (some (bytes "/a")) 1 nothing_yet))
    × (test_bit t.chosen.options opt_rw ≡ true)
unfolding exports_rw exports_options consider_all consider find_host take_host no_options
exports_rw-Taken_example = exports_rw-Taken writable (bytes "/a") 1 nothing_yet refl

abbrev env : Env
env = record {
  gethostbyname = λ name. none;
  inet_aton = λ addr. none;
  atoi = λ val. 0;
  backend_realpath = λ path. some path;
}

abbrev actions : List Action
actions = opt (bytes "rw") ∷ host ∷ export (bytes "/x") ∷ []

abbrev nothing_exported : Exports
nothing_exported = record { export_list = []; exports_nfslist = []; exports_access = false }

exports_parse-shown_example :
    shown (exports_parse env (some (actions, false)) nothing_exported).1.export_list
    ≡ (exports_parse env (some (actions, false)) nothing_exported).1.exports_nfslist
exports_parse-shown_example = exports_parse-shown env (some (actions, false)) nothing_exported refl

abbrev good_file : Option (List Action × Bool)
good_file = some (actions, false)

add_options-rw_example :
    test_bit (add_options (bytes "rw" ∷ bytes "insecure" ∷ bytes "ro" ∷ []) 0) opt_rw
    ≡ last_rw (bytes "rw" ∷ bytes "insecure" ∷ bytes "ro" ∷ []) (test_bit 0 opt_rw)
add_options-rw_example = add_options-rw (bytes "rw" ∷ bytes "insecure" ∷ bytes "ro" ∷ []) 0

normpath_twice_example :
    (no_double (normpath (bytes "//x//y/")) ≡ true)
    × (normpath (normpath (bytes "//x//y/")) ≡ normpath (bytes "//x//y/"))
normpath_twice_example = normpath_twice (bytes "//x//y/")

cat_name_fits_example : 4 + 1 ≤ nfs_maxpathlen
unfolding cat_name
cat_name_fits_example = cat_name_fits (bytes "/a") (bytes "b") (bytes "/a/b") refl

-- User 1, and user 12.
abbrev private_site : Site
private_site = record {
  is_public = false;
  zone = bytes "zone";
  export_path = bytes "/e";
  sprintf_d = λ uid. if uid == 1 then bytes "1" else bytes "12";
  getpwuid = λ uid. none;
}

irods_path-real_path_example :
    (real_path private_site 1 (bytes "/e/a") ≡ user_root private_site 1 ++ bytes "/a")
    × (irods_path private_site 1 (real_path private_site 1 (bytes "/e/a")) ≡ bytes "/a")
unfolding user_root nfs_directory
irods_path-real_path_example = irods_path-real_path private_site 1 (bytes "/a") refl refl

real_path_foreign_example :
    (real_path private_site 1 (user_root private_site 12 ++ bytes "/a")
      ≡ user_root private_site 12 ++ bytes "/a")
    × (irods_path private_site 1 (user_root private_site 12 ++ bytes "/a") ≡ bytes "2/a")
real_path_foreign_example = real_path_foreign private_site 1 12 (bytes "2") (bytes "/a") refl refl

-- Two networks, the second with a password; the first is not that of address 1.
abbrev closed_item : EItem
closed_item = record (item_of 4) {
  hosts =
      record (host_of 4) { addr = 2; mask = 3 }
      ∷ (record (host_of 4) { password = bytes "pw"; password_hash = 77; addr = 1; mask = 3 } ∷ []);
}

abbrev caller : Caller
caller = record {
  rq_vers = 3;
  remote = 1;
  port = 700;
  host = bytes "all";
  export_list = closed_item ∷ [];
  backend_realpath = λ path. some path;
  otp_digest = λ nonce password. [];
  gen_nonce = none;
  fs = small_fs;
  special = Special.ordinary;
  memory = true;
}

abbrev mount_state : State
mount_state = record { nonce = []; last = nothing_yet; mounts = no_mounts; cache = no_entry }

abbrev root_handle : Handle
root_handle = record { dev = 1; ino = 2; gen = 2; pwhash = 77; inos = [] }

mountproc_mnt_refused_example :
    (mountproc_mnt caller (bytes "@password:no/") mount_state).1.mounts ≡ no_mounts
unfolding mountproc_mnt authenticate mount_path mount_real may_mount exports_options consider_all
    consider find_host take_host no_options export_point mnt_cmd_argument until_slash
mountproc_mnt_refused_example =
    mountproc_mnt_refused caller (bytes "@password:no/") mount_state 13 refl
