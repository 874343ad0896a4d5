-- ===== src/Exports/Lookup.antt =====
-- src/Config/exports.y: which export a path belongs to, and what its host is given.
use Prim.Native.Nat.{bit_and}
use nfsrods.Prelude.{
  ℕ, ◌==◌, ltb, Bool, true, false, ◌&&◌, ◌||◌, if◌then◌else◌, List, [], ◌∷◌, Option, none, some,
  length, bytes, str_eq, test_bit,
}
use nfsrods.Status.{Nfsstat3, nfs3_ok, nfs3err_acces, nfs3err_xdev, nfs3err_rofs}
use nfsrods.User.Ids.{opt_rw, anon_notspecial}
use nfsrods.Exports.{EHost, EItem}

-- `strstr(s, prefix) == s`
abbrev pub starts_with : List ℕ → List ℕ → Bool
starts_with [] s = true
starts_with (c ∷ prefix) [] = false
starts_with (c ∷ prefix) (d ∷ s) = (c == d) && starts_with prefix s

-- `strstr(s, part)` is not null.
abbrev pub has_part : List ℕ → List ℕ → Bool
has_part part [] = starts_with part []
has_part part (c ∷ s) = starts_with part (c ∷ s) || has_part part s

abbrev pub up_and_down : List ℕ
up_and_down = bytes "/../"

-- The globals that a lookup leaves: `exports_opts`, `export_path`, `export_fsid`,
-- `export_password_hash`, `last_anonuid`, `last_anongid`. The options -1 are none.
pub record Last : Type 0 where
  pub exports_opts : Option ℕ
  pub export_path : Option (List ℕ)
  pub export_fsid : ℕ
  pub export_password_hash : ℕ
  pub last_anonuid : ℕ
  pub last_anongid : ℕ

-- With `last_len`, and what is stored through `password` and `fsid`: none where nothing is.
pub record Lookup : Type 0 where
  pub last : Last
  pub last_len : ℕ
  pub password : Option (List ℕ)
  pub fsid : Option ℕ

unfoldable pub find_host : ℕ → List EHost → Option EHost
find_host remote [] = none
find_host remote (h ∷ hosts) =
    let rest = find_host remote hosts in if bit_and remote h.mask == h.addr then some h else rest

abbrev pub matching : List ℕ → EItem → Lookup → Bool
matching path item l = ltb l.last_len (length item.path) && starts_with item.path path

unfoldable pub take_host : EItem → EHost → Lookup → Lookup
take_host item h l = record {
  last = record {
    exports_opts = some h.options;
    export_path = some item.path;
    export_fsid = item.fsid;
    export_password_hash = h.password_hash;
    last_anonuid = h.anonuid;
    last_anongid = h.anongid;
  };
  last_len = length item.path;
  password = some h.password;
  fsid = some item.fsid;
}

-- The body of the loop: the longest matching prefix wins.
unfoldable pub consider : List ℕ → ℕ → EItem → Lookup → Lookup
unfolding take_host
consider path remote item l =
    if matching path item l
    then elim (find_host remote item.hosts) [
      | none ↦ record l { fsid = some item.fsid }
      | some h ↦ take_host item h l
    ]
    else l

unfoldable pub consider_all : List ℕ → ℕ → List EItem → Lookup → Lookup
unfolding consider
consider_all path remote [] l = l
consider_all path remote (item ∷ items) l =
    consider_all path remote items (consider path remote item l)

-- Before the loop.
unfoldable pub no_options : Last → Lookup
no_options last = record {
  last = record last {
    exports_opts = none;
    export_path = none;
    export_fsid = 0;
    last_anonuid = anon_notspecial;
    last_anongid = anon_notspecial;
  };
  last_len = 0;
  password = none;
  fsid = none;
}

-- `path` is none for a null pointer; `remote` is the address of the caller.
unfoldable pub exports_options : List EItem → Option (List ℕ) → ℕ → Last → Lookup
unfolding no_options consider_all
exports_options export_list path remote last = elim path [
  | none ↦ no_options last
  | some p ↦
      if has_part up_and_down p
      then no_options last
      else consider_all p remote export_list (no_options last)
]

unfoldable pub export_point : List EItem → List ℕ → Bool
export_point [] path = false
export_point (item ∷ items) path =
    let rest = export_point items path in if str_eq path item.path then true else rest

-- The path, `last_mtime` and `dir_hash` are those of the item.
unfoldable pub export_point_from_fsid : List EItem → ℕ → Option EItem
export_point_from_fsid [] fsid = none
export_point_from_fsid (item ∷ items) fsid =
    let rest = export_point_from_fsid items fsid in if item.fsid == fsid then some item else rest

abbrev opts_eq : Option ℕ → Option ℕ → Bool
opts_eq none none = true
opts_eq none (some b) = false
opts_eq (some a) none = false
opts_eq (some a) (some b) = a == b

-- The globals are left as the lookup of the new path leaves them.
unfoldable pub exports_compat : List EItem → List ℕ → ℕ → Last → Nfsstat3 × Last
unfolding exports_options
exports_compat export_list path remote prev =
    let now = (exports_options export_list (some path) remote prev).last in
    if opts_eq now.exports_opts prev.exports_opts
      && ((now.last_anonuid == prev.last_anonuid) && (now.last_anongid == prev.last_anongid))
    then (nfs3_ok, now)
    else elim now.exports_opts [ none ↦ (nfs3err_acces, now) | some o ↦ (nfs3err_xdev, now) ]

unfoldable pub exports_rw : Last → Nfsstat3
exports_rw last = elim last.exports_opts [
  | none ↦ nfs3err_rofs
  | some opts ↦ if test_bit opts opt_rw then nfs3_ok else nfs3err_rofs
]
