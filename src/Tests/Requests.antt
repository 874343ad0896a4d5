-- ===== src/Tests/Requests.antt =====
-- Runs of the models of src/user.c and src/attr.c.
use nfsrods.Prelude.{◌==◌, ◌||◌, ◌≡◌, ◌≢◌, ◌⊎◌, refl, true, false, [], ◌∷◌, some, bytes, arith}
use nfsrods.Backend.{Stat}
use nfsrods.Fh.Handles.{get_gen}
use nfsrods.User.Ids.{get_uid}
use nfsrods.User.Switch.{Host, Process}
use nfsrods.User.Laws.{get_uid-squashed}
use nfsrods.Attr.Get.{View}
use nfsrods.Attr.Put.{
  SetTime, Sattr3, Answers, apply, wanted, chown_args, set_time, set_attr, set_attr_open,
}
use nfsrods.Attr.Mode.{permission}
use nfsrods.Attr.Asked.{Asked}
use nfsrods.Attr.Changes.{set_attr-ok}
use nfsrods.Attr.Digits.{asked, permission-digits}
use nfsrods.Tests.Samples.{squashing, root_request, file_stat, handle_a}

get_uid-squashed_example : get_uid squashing root_request ≢ 0
get_uid-squashed_example = get_uid-squashed squashing root_request refl (λ e. ground arith)

-- The ids are set by root, or to the real user.
abbrev host : Host
host = record {
  ruid = 0;
  rgid = 0;
  seteuid_ok = λ p uid. p.euid == 0 || uid == 0;
  setegid_ok = λ p gid. p.euid == 0;
  setgroups_ok = λ p gids. p.euid == 0;
}

-- What an earlier request of user 7 left.
abbrev as_user : Process
as_user = record { euid = 7; egid = 7; groups = 8 ∷ [] }

abbrev plain_view : View
plain_view = record {
  readable_executables = true;
  singleuser = false;
  ruid = 0;
  rgid = 0;
  exports_opts = 4;
  export_path = bytes "/";
  export_fsid = 0;
}

abbrev new_attr : Sattr3
new_attr = record {
  mode = some 420;
  uid = some 7;
  gid = some 9;
  size = some 0;
  atime = SetTime.set_to_server_time;
  mtime = SetTime.set_to_client_time 77;
}

abbrev answers : Answers
answers = record {
  lstat = some file_stat;
  open_write = true;
  open_read = true;
  fstat = some file_stat;
  change_ok = λ ch. true;
  close_ok = true;
  now = 500;
  errno = λ ch. 5;
}

set_attr-ok_example :
    (buf : Stat) × ((some file_stat ≡ some buf) ⊎ (some file_stat ≡ some buf))
    × (buf.dev ≡ 1)
    × (buf.ino ≡ 5)
    × Asked 500 buf new_attr (set_attr answers handle_a new_attr).made
unfolding set_attr set_attr_open apply wanted chown_args set_time get_gen
set_attr-ok_example = set_attr-ok answers handle_a new_attr refl

-- `rw-r--r--`, 420, is to own.
permission-digits_example : permission 420 ≡ 3
unfolding asked
permission-digits_example = permission-digits 6 4 4 (omega arith) (omega arith) (omega arith)
