-- ===== src/Nfs/Access.antt =====
-- src/nfs.c: ACCESS.
use nfsrods.Prelude.{
  ℕ, ◌+◌, ◌^◌, ◌==◌, Bool, true, false, ◌&&◌, ◌||◌, if◌then◌else◌, [], ◌∷◌, Option, none, some,
  test_bit,
}
use nfsrods.Backend.{Stat}
use nfsrods.Status.{Nfsstat3, nfs3_ok}
use nfsrods.Fh.Handles.{NfsFh}
use nfsrods.User.Ids.{Settings, Request, get_uid, is_owner, has_group}
use nfsrods.Attr.Get.{Fattr3, Ftype3, get_post_cached}
use nfsrods.Nfs.Paths.{real_path}
use nfsrods.Nfs.Prep.{
  Env, State, Handled, replied, with_prep, view, site, collection_path, get_file,
}

-- The bits of `access`, from ACCESS3_READ, which is 1, to ACCESS3_EXECUTE, which is 32.
pub record Rights : Type 0 where
  pub read : Bool
  pub lookup : Bool
  pub modify : Bool
  pub extend : Bool
  pub delete : Bool
  pub execute : Bool

-- One of the three blocks, for the bits that a mode has for the owner, the group or the others.
from_mode : Bool → Bool → Bool → Bool → Rights
from_mode readable_executables r w x = record {
  read = r || (x && readable_executables);
  lookup = false;
  modify = w;
  extend = w;
  delete = false;
  execute = x;
}

class_rights : Settings → Request → Bool → Stat → ℕ → Rights
unfolding from_mode
class_rights s req readable_executables st_cache mode =
    if is_owner s st_cache.uid req
    then from_mode readable_executables (test_bit mode 8) (test_bit mode 7) (test_bit mode 6)
    else if has_group s st_cache.gid req
    then from_mode readable_executables (test_bit mode 5) (test_bit mode 4) (test_bit mode 3)
    else from_mode readable_executables (test_bit mode 2) (test_bit mode 1) (test_bit mode 0)

-- `access |= ACCESS3_READ | ACCESS3_MODIFY | ACCESS3_EXTEND`
abbrev all_data : Rights → Rights
all_data a = record a { read = true; modify = true; extend = true }

for_directory : Rights → Rights
for_directory a = record a {
  lookup = a.lookup || (a.read || a.execute);
  delete = a.delete || a.modify;
  execute = false;
}

rights : Settings → Request → Bool → Stat → ℕ → Bool → Rights
unfolding class_rights for_directory
rights s req readable_executables st_cache mode is_dir =
    let some_rights = class_rights s req readable_executables st_cache mode in
    let root_rights = if get_uid s req == 0 then all_data some_rights else some_rights in
    all_data (if is_dir then for_directory root_rights else root_rights)

-- `access & argp->access`
abbrev masked : Bool → ℕ → ℕ → ℕ
masked right asked k = if right && test_bit asked k then 2 ^ k else 0

access_word : Rights → ℕ → ℕ
access_word a asked =
    masked a.read asked 0
    + masked a.lookup asked 1
    + masked a.modify asked 2
    + masked a.extend asked 3
    + masked a.delete asked 4
    + masked a.execute asked 5

-- `ACCESS3res`
pub record AccessRes : Type 0 where
  pub status : Nfsstat3
  pub obj_attributes : Option Fattr3
  pub access : ℕ

abbrev pub zeroed : Nfsstat3 → AccessRes
zeroed status = record { status = status; obj_attributes = none; access = 0 }

abbrev is_nf3dir : Ftype3 → Bool
is_nf3dir Ftype3.nf3dir = true
is_nf3dir _ = false

-- Where no attributes follow, the mode and the type that the source reads are not set; 0 and no
-- directory stand for them.
access_of : Env → State → Option Fattr3 → Rights
unfolding rights
access_of env st post = elim post [
  | none ↦ rights st.settings env.req env.readable_executables st.stat_cache.stat 0 false
  | some a ↦
      rights st.settings env.req env.readable_executables st.stat_cache.stat a.mode
        (is_nf3dir a.ftype)
]

unfoldable pub access : Env → NfsFh → ℕ → State → Handled AccessRes
unfolding access_of access_word collection_path
access env object asked st = with_prep env object st zeroed (λ path now.
    let moved = real_path (site env now) env.auth.uid path in
    let post = get_post_cached env.world.fs (view env now) now.stat_cache env.req in
    replied
      (record {
        status = nfs3_ok;
        obj_attributes = post;
        access = access_word (access_of env now post) asked;
      })
      now (get_file moved (collection_path env now moved) ∷ []))
