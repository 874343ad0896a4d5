-- ===== src/User/Switch.antt =====
-- src/user.c: switching the effective ids of the process.
use nfsrods.Prelude.{
  ℕ, ◌==◌, Bool, true, false, not, ◌&&◌, ◌||◌, if◌then◌else◌, List, [], map, take, test_bit,
}
use nfsrods.Backend.{Stat}
use nfsrods.User.Ids.{Settings, Request, mangle, get_uid, get_gid, is_owner, has_group}

-- The effective ids and the auxiliary groups of the process.
pub record Process : Type 0 where
  pub euid : ℕ
  pub egid : ℕ
  pub groups : List ℕ

-- `getuid`, `getgid`, and whether the calls that set an id succeed for a process: `seteuid`,
-- `setegid`, `setgroups`.
pub record Host : Type 0 where
  pub ruid : ℕ
  pub rgid : ℕ
  pub seteuid_ok : Process → ℕ → Bool
  pub setegid_ok : Process → ℕ → Bool
  pub setgroups_ok : Process → List ℕ → Bool

abbrev pub setegid : Host → ℕ → Process → Process
setegid h gid p = if h.setegid_ok p gid then record p { egid = gid } else p

abbrev pub seteuid : Host → ℕ → Process → Process
seteuid h uid p = if h.seteuid_ok p uid then record p { euid = uid } else p

abbrev pub setgroups : Host → List ℕ → Process → Process
setgroups h gids p = if h.setgroups_ok p gids then record p { groups = gids } else p

-- The pair of calls that makes the process root again.
abbrev pub become_root : Host → Process → Process
become_root h p = seteuid h 0 (setegid h 0 p)

unfoldable pub switch_to_root : Settings → Host → Process → Process
switch_to_root s h p = if not s.can_switch then p else become_root h p

-- The groups that `switch_groups` sets: the first 32, each squashed. A credential of another flavor
-- has no `authunix_parms`; the server's credential area is zeroed, which reads as no groups.
unfoldable pub groups_of : Settings → Request → List ℕ
unfolding mangle
groups_of s (Request.auth_unix auth) = map (λ g. mangle s g s.squash_gid) (take 32 auth.gids)
groups_of s Request.other_flavor = []

-- What a `switch_user` ends with: the file's settings and the process, and whether the server goes
-- on; `exit` is `daemon_exit(CRISIS)`.
pub data Switched : Type 0 where
  ready : Settings → Process → Switched
  exit : Switched

unfoldable pub switch_user : Settings → Bool → Host → Request → Process → Switched
unfolding groups_of get_gid get_uid
switch_user s opt_singleuser h req p =
    if not s.can_switch
    then Switched.ready s p
    else if opt_singleuser || not (h.ruid == 0)
    then Switched.ready (record s { squash_uid = h.ruid; squash_gid = h.rgid; can_switch = false })
        p
    else (let root = become_root h p in
        let in_group = setegid h (get_gid s req) root in
        let in_groups = setgroups h (groups_of s req) in_group in
        if not (h.seteuid_ok in_groups (get_uid s req))
          || not (h.setegid_ok root (get_gid s req))
          || not (h.setgroups_ok in_group (groups_of s req))
        then Switched.exit
        else Switched.ready s (seteuid h (get_uid s req) in_groups))

-- The permission bits of a mode, by number: `S_IRUSR` is 8, ..., `S_IXOTH` is 0.
unfoldable pub read_executable : Settings → Host → Request → Stat → Process → Process
unfolding is_owner has_group
read_executable s h req buf p =
    let have_exec =
      if is_owner s buf.uid req
      then not (test_bit buf.mode 8) && test_bit buf.mode 6
      else if has_group s buf.gid req
      then not (test_bit buf.mode 5) && test_bit buf.mode 3
      else not (test_bit buf.mode 2) && test_bit buf.mode 0 in
    if have_exec then become_root h p else p

-- The test that `read_by_owner` and `write_by_owner` share, for the bits of one kind of access.
unfoldable pub may_access : Settings → Request → Stat → ℕ → ℕ → ℕ → Bool
unfolding is_owner has_group
may_access s req buf user_bit group_bit other_bit =
    if is_owner s buf.uid req && test_bit buf.mode user_bit
    then true
    else if has_group s buf.gid req && test_bit buf.mode group_bit
    then true
    else test_bit buf.mode other_bit

unfoldable pub read_by_owner : Settings → Host → Request → Stat → Process → Process
unfolding may_access
read_by_owner s h req buf p =
    if is_owner s buf.uid req && not (may_access s req buf 8 5 2) then become_root h p else p

unfoldable pub write_by_owner : Settings → Host → Request → Stat → Process → Process
unfolding may_access
write_by_owner s h req buf p =
    if is_owner s buf.uid req && not (may_access s req buf 7 4 1) then become_root h p else p
