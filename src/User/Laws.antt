-- ===== src/User/Laws.antt =====
-- src/user.c: squashed ids, and when the process is root again.
use nfsrods.Prelude.{
  ℕ, ◌≤◌, ◌≡◌, ◌≢◌, refl, true, false, not, ◌&&◌, ◌||◌, List, [], ◌∷◌, map, length, test_bit, take,
  arith,
}
use nfsrods.Backend.{Stat}
use nfsrods.User.Ids.{
  Settings, AuthUnix, Request, opt_no_root_squash, opt_all_squash, mangle, anon_uid, anon_gid,
  get_uid, get_gid, is_owner, has_aux_group, has_group,
}
use nfsrods.User.Switch.{
  Process, Host, groups_of, Switched, setegid, setgroups, become_root, switch_user, read_by_owner,
  write_by_owner,
}

-- No credential acts as user 0 on an export without the option that lets root through, unless the
-- id to squash to is itself 0.
pub get_uid-squashed :
    (s : Settings) (req : Request)
    → test_bit s.exports_opts opt_no_root_squash ≡ false
    → anon_uid s ≢ 0
    → get_uid s req ≢ 0
unfolding get_uid mangle
get_uid-squashed s (Request.auth_unix auth) root_squash anon = ground arith
get_uid-squashed s Request.other_flavor root_squash anon = anon

-- Under `all_squash`, or once the process cannot switch ids, every request acts as the anonymous
-- user and group.
pub get_uid-all :
    (s : Settings) (req : Request)
    → (not s.can_switch || test_bit s.exports_opts opt_all_squash) ≡ true
    → (get_uid s req ≡ anon_uid s) × (get_gid s req ≡ anon_gid s)
unfolding get_uid get_gid mangle
get_uid-all s (Request.auth_unix auth) all = ground arith
get_uid-all s Request.other_flavor all = (refl, refl)

-- A squashed id is squashed to itself.
mangle_idem :
    (s : Settings) (id squash : ℕ) → mangle s (mangle s id squash) squash ≡ mangle s id squash
unfolding mangle
mangle_idem s id squash = ground arith

has_aux_group-mangled :
    (s : Settings) (group : ℕ) (gs : List ℕ)
    → has_aux_group s group (map (λ g. mangle s g s.squash_gid) gs) ≡ has_aux_group s group gs
unfolding has_aux_group
has_aux_group-mangled s group [] = refl
has_aux_group-mangled s group (g ∷ gs) =
    rw (mangle_idem s g s.squash_gid, has_aux_group-mangled s group gs) refl

-- `switch_groups` overwrites the groups of a credential by the squashed ones, up to 32 of them; the
-- later test whether the request has a group answers as it does for the credential as it arrived.
pub has_group-switched :
    (s : Settings) (group : ℕ) (auth : AuthUnix)
    → take 32 auth.gids ≡ auth.gids
    → has_group s group
        (Request.auth_unix (record auth { gids = groups_of s (Request.auth_unix auth) }))
      ≡ has_group s group (Request.auth_unix auth)
unfolding has_group groups_of
has_group-switched s group auth short = rw (short, has_aux_group-mangled s group auth.gids) refl

-- What the calls that set ids document, for a process whose real user is `ruid`: the real user id may
-- always be taken, and a process whose effective user is 0 may set any id, and up to 32 groups.
pub record Privileged (h : Host) : Type 0 where
  pub to_real : (p : Process) → h.seteuid_ok p h.ruid ≡ true
  pub any_uid : (p : Process) (uid : ℕ) → p.euid ≡ 0 → h.seteuid_ok p uid ≡ true
  pub any_gid : (p : Process) (gid : ℕ) → p.euid ≡ 0 → h.setegid_ok p gid ≡ true
  pub any_groups :
      (p : Process) (gids : List ℕ) → p.euid ≡ 0 → length gids ≤ 32 → h.setgroups_ok p gids ≡ true

-- A server that runs as root and may switch ids exits when one of the three calls that set the
-- request's ids fails.
pub switch_user-exit :
    (s : Settings) (h : Host) (req : Request) (p : Process)
    → s.can_switch ≡ true
    → h.ruid ≡ 0
    → (let root = become_root h p in
        let in_group = setegid h (get_gid s req) root in
        h.setegid_ok root (get_gid s req)
        && h.setgroups_ok in_group (groups_of s req)
        && h.seteuid_ok (setgroups h (groups_of s req) in_group) (get_uid s req))
      ≡ false
    → switch_user s false h req p ≡ Switched.exit
unfolding switch_user
switch_user-exit s h req p can root fails = ground arith

-- Reading by the owner changes the process only for a request that comes from the file's owner,
-- and so does writing by the owner.
pub by_owner-owner :
    (s : Settings) (h : Host) (req : Request) (buf : Stat) (p : Process)
    → is_owner s buf.uid req ≡ false
    → (read_by_owner s h req buf p ≡ p) × (write_by_owner s h req buf p ≡ p)
unfolding read_by_owner write_by_owner
by_owner-owner s h req buf p other = ground arith

-- On an export that squashes root to a user other than 0, no request makes the process root again
-- as the owner of a file of user 0, neither to read it nor to write it.
pub by_owner-root_squash :
    (s : Settings) (h : Host) (req : Request) (buf : Stat) (p : Process)
    → test_bit s.exports_opts opt_no_root_squash ≡ false
    → anon_uid s ≢ 0
    → buf.uid ≡ 0
    → (read_by_owner s h req buf p ≡ p) × (write_by_owner s h req buf p ≡ p)
unfolding is_owner
by_owner-root_squash s h req buf p root_squash anon root =
    by_owner-owner s h req buf p (ground (arith, get_uid-squashed s req root_squash anon))
