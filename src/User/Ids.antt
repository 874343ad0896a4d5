-- ===== src/User/Ids.antt =====
-- src/user.c: squashing ids, and whom a request comes from. Ids are 32-bit words; the option words
-- are read by single bits, and -1 of `exports_opts` is the word with all bits set.
use nfsrods.Prelude.{
  ℕ, ◌==◌, Bool, false, not, ◌||◌, if◌then◌else◌, List, [], ◌∷◌, Option, none, some, test_bit,
}

-- `OPT_NO_ROOT_SQUASH`, `OPT_ALL_SQUASH`, `OPT_RW`, `OPT_REMOVABLE`, `OPT_INSECURE` of
-- src/Config/exports.h, by the number of the bit.
abbrev pub opt_no_root_squash : ℕ
opt_no_root_squash = 0

abbrev pub opt_all_squash : ℕ
opt_all_squash = 1

abbrev pub opt_rw : ℕ
opt_rw = 2

abbrev pub opt_removable : ℕ
opt_removable = 3

abbrev pub opt_insecure : ℕ
opt_insecure = 4

abbrev pub anon_notspecial : ℕ
anon_notspecial = 4294967295

-- `squash_uid`, `squash_gid`, `can_switch` of the file, with what it reads of the exports module:
-- `exports_opts`, `exports_anonuid()`, `exports_anongid()`.
pub record Settings : Type 0 where
  pub squash_uid : ℕ
  pub squash_gid : ℕ
  pub can_switch : Bool
  pub exports_opts : ℕ
  pub anonuid : ℕ
  pub anongid : ℕ

-- `struct authunix_parms`, the ids of an `AUTH_UNIX` credential.
pub record AuthUnix : Type 0 where
  pub uid : ℕ
  pub gid : ℕ
  pub gids : List ℕ

-- The credential of a `struct svc_req`: `AUTH_UNIX`, or any other flavor.
pub data Request : Type 0 where
  auth_unix : AuthUnix → Request
  other_flavor : Request

-- `get_squash_ids`; `passwd` is the user and group of "nobody", if there is such a user.
unfoldable pub get_squash_ids : Option (ℕ × ℕ) → Settings → Settings
get_squash_ids passwd s = if not s.can_switch then s else elim passwd [
  | none ↦ record s { squash_uid = 65534; squash_gid = 65534 }
  | some (uid, gid) ↦ record s { squash_uid = uid; squash_gid = gid }
]

unfoldable pub mangle : Settings → ℕ → ℕ → ℕ
mangle s id squash =
    if not s.can_switch || test_bit s.exports_opts opt_all_squash
    then squash
    else if test_bit s.exports_opts opt_no_root_squash
    then id
    else if id == 0
    then squash
    else id

-- The squash ids, unless the export has an anonymous id of its own.
abbrev pub anon_uid : Settings → ℕ
anon_uid s = if s.anonuid == anon_notspecial then s.squash_uid else s.anonuid

abbrev pub anon_gid : Settings → ℕ
anon_gid s = if s.anongid == anon_notspecial then s.squash_gid else s.anongid

unfoldable pub mangle_uid : Settings → ℕ → ℕ
unfolding mangle
mangle_uid s id = mangle s id (anon_uid s)

unfoldable pub mangle_gid : Settings → ℕ → ℕ
unfolding mangle
mangle_gid s id = mangle s id (anon_gid s)

unfoldable pub get_uid : Settings → Request → ℕ
unfolding mangle
get_uid s (Request.auth_unix auth) = mangle s auth.uid (anon_uid s)
get_uid s Request.other_flavor = anon_uid s

unfoldable pub get_gid : Settings → Request → ℕ
unfolding mangle
get_gid s (Request.auth_unix auth) = mangle s auth.gid (anon_gid s)
get_gid s Request.other_flavor = anon_gid s

unfoldable pub is_owner : Settings → ℕ → Request → Bool
unfolding get_uid
is_owner s owner req = owner == get_uid s req

-- The loop of `has_group` over the auxiliary groups, which uses `squash_gid` itself.
unfoldable pub has_aux_group : Settings → ℕ → List ℕ → Bool
unfolding mangle
has_aux_group s group [] = false
has_aux_group s group (g ∷ gs) = mangle s g s.squash_gid == group || has_aux_group s group gs

unfoldable pub has_group : Settings → ℕ → Request → Bool
unfolding has_aux_group mangle
has_group s group (Request.auth_unix auth) =
    mangle s auth.gid s.squash_gid == group || has_aux_group s group auth.gids
has_group s group Request.other_flavor = false
