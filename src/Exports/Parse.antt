-- ===== src/Exports/Parse.antt =====
-- src/Config/exports.y: what the grammar does with the exports file. The scanner and the parser that
-- bison makes of the grammar are a parameter: the sequence of actions that they perform, and whether
-- they meet a syntax error. Addresses and masks are words in the order of the host.
use nfsrods.Prelude.{
  ℕ, zero, suc, ◌+◌, ◌-◌, ◌*◌, ◌%◌, ◌^◌, ltb, Bool, true, false, not, ◌||◌, if◌then◌else◌, List, [],
  ◌∷◌, ◌++◌, Option, none, some, length, drop, bytes, test_bit,
}
use nfsrods.Backend.{nfs_maxpathlen}
use nfsrods.Password.{until_slash}
use nfsrods.User.Ids.{opt_removable, anon_notspecial}
use nfsrods.Exports.{EHost, EItem}
use nfsrods.Exports.Options.{add_option, add_option_with_value, get_free_fsid}
use nfsrods.Exports.Names.{normpath}
use nfsrods.Xdr.Mounts.{Exportnode}

-- `cur_host`, the members of `cur_item` and `ne_item` that are lists, `e_list`, `ne_list`, `e_error`.
pub record Parser : Type 0 where
  pub cur_host : EHost
  pub hosts : List EHost
  pub ex_groups : List (List ℕ)
  pub e_list : List EItem
  pub ne_list : List Exportnode
  pub e_error : Bool

-- `gethostbyname`, `inet_aton`, `atoi` and `backend_realpath`.
pub record Env : Type 0 where
  pub gethostbyname : List ℕ → Option ℕ
  pub inet_aton : List ℕ → Option ℕ
  pub atoi : List ℕ → ℕ
  pub backend_realpath : List ℕ → Option (List ℕ)

clear_host : EHost
clear_host = record {
  orig = bytes "<anon clnt>";
  options = 0;
  password = [];
  password_hash = 0;
  addr = 0;
  mask = 0;
  anonuid = anon_notspecial;
  anongid = anon_notspecial;
}

unfoldable pub clear_item : Parser → Parser
clear_item s = record s { hosts = []; ex_groups = [] }

unfoldable pub add_host : Parser → Parser
unfolding clear_host
add_host s = record s {
  hosts = s.hosts ++ (s.cur_host ∷ []);
  ex_groups = s.ex_groups ++ (s.cur_host.orig ∷ []);
  cur_host = clear_host;
}

-- `removable_for_all`: every host has the option.
all_removable : List EHost → Bool
all_removable [] = true
all_removable (h ∷ hs) =
    let rest = all_removable hs in if not (test_bit h.options opt_removable) then false else rest

unfoldable pub give_up : Parser → Parser
unfolding clear_item
give_up s = clear_item (record s { e_error = true })

abbrev pub no_hosts : List EHost → Bool
no_hosts [] = true
no_hosts (h ∷ hs) = false

-- `if (!cur_item.hosts) add_host();`
unfoldable pub with_hosts : Parser → Parser
unfolding add_host
with_hosts s = if no_hosts s.hosts then add_host s else s

-- The item and the node of the mount protocol's list, at the ends of their lists.
unfoldable pub append_item : List ℕ → List ℕ → Parser → Parser
unfolding clear_item
append_item path buf t = clear_item (record t {
  e_list =
      t.e_list
      ++ (record {
        path = buf;
        orig = path;
        hosts = t.hosts;
        fsid = get_free_fsid path;
        last_mtime = 0;
        dir_hash = 0;
      }
          ∷ []);
  ne_list = t.ne_list ++ (record { ex_dir = path; ex_groups = t.ex_groups } ∷ []);
})

-- The path that the item is exported under; a path too long is none.
pub item_path : Env → List ℕ → List EHost → Option (List ℕ)
unfolding all_removable
item_path env path hosts =
    let found = if all_removable hosts then some (normpath path) else env.backend_realpath path in
    elim found [
      | none ↦ none
      | some buf ↦ if ltb nfs_maxpathlen (length buf + 1) then none else some buf
    ]

unfoldable pub add_item : Env → List ℕ → Parser → Parser
unfolding item_path give_up append_item with_hosts
add_item env path s = elim (item_path env path s.hosts) [
  | none ↦ give_up s
  | some buf ↦ append_item path buf (with_hosts s)
]

-- The host as it is filled, and whether `e_error` is set.
pub set_hostname : Env → List ℕ → EHost → EHost × Bool
set_hostname env name h =
    if ltb nfs_maxpathlen (length name + 1) then (h, true) else elim (env.gethostbyname name) [
      | none ↦ (record h { orig = name }, true)
      | some addr ↦ (record h { orig = name; addr = addr; mask = 2 ^ 32 - 1 }, false)
    ]

pub set_ipaddr : Env → List ℕ → EHost → EHost × Bool
set_ipaddr env addr h = elim (env.inet_aton addr) [
  | none ↦ (record h { orig = addr; mask = 2 ^ 32 - 1 }, true)
  | some a ↦ (record h { orig = addr; addr = a; mask = 2 ^ 32 - 1 }, false)
]

-- The two loops, on a 64-bit `buf`: as many ones, then zeros up to 32 bits; a number of bits above
-- 32 has no zeros.
ones : ℕ → ℕ → ℕ
ones zero buf = buf
ones (suc n) buf = ones n ((buf * 2 + 1) % 2 ^ 64)

zeros : ℕ → ℕ → ℕ
zeros zero buf = buf
zeros (suc n) buf = zeros n ((buf * 2) % 2 ^ 64)

make_netmask : ℕ → ℕ
unfolding ones zeros
make_netmask bits = zeros (32 - bits) (ones bits 0) % 2 ^ 32

-- `fresh` is whether the mask is a number of bits.
pub set_ipnet : Env → List ℕ → Bool → EHost → EHost × Bool
unfolding set_ipaddr make_netmask
set_ipnet env addr fresh h =
    let t = set_ipaddr env (until_slash addr) h in
    let net = drop (length (until_slash addr) + 1) addr in
    let m = if fresh then some (make_netmask (env.atoi net)) else env.inet_aton net in
    elim m [
      | none ↦ (record t.0 { orig = addr }, true)
      | some mask ↦ (record t.0 { orig = addr; mask = mask }, t.1)
    ]

unfoldable pub fill : EHost × Bool → Parser → Parser
fill r s = record s { cur_host = r.0; e_error = s.e_error || r.1 }

-- The actions of the grammar, under the tokens they are for.
pub data Action : Type 0 where
  id : List ℕ → Action
  ip : List ℕ → Action
  net : List ℕ → Action
  oldnet : List ℕ → Action
  opt : List ℕ → Action
  optvalue : List ℕ → List ℕ → Action
  host : Action
  export : List ℕ → Action

unfoldable pub act : Env → Action → Parser → Parser
unfolding set_hostname set_ipaddr set_ipnet fill add_host add_item
act env (id name) s = fill (set_hostname env name s.cur_host) s
act env (ip addr) s = fill (set_ipaddr env addr s.cur_host) s
act env (net addr) s = fill (set_ipnet env addr true s.cur_host) s
act env (oldnet addr) s = fill (set_ipnet env addr false s.cur_host) s
act env (opt o) s = record s {
  cur_host = record s.cur_host { options = add_option o s.cur_host.options };
}
act env (optvalue o val) s = record s { cur_host = add_option_with_value env.atoi o val s.cur_host }
act env host s = add_host s
act env (export path) s = add_item env path s

unfoldable pub yyparse : Env → List Action → Parser → Parser
unfolding act
yyparse env [] s = s
yyparse env (a ∷ actions) s = yyparse env actions (act env a s)

-- `export_list`, `exports_nfslist`, `exports_access`.
pub record Exports : Type 0 where
  pub export_list : List EItem
  pub exports_nfslist : List Exportnode
  pub exports_access : Bool

unfoldable pub clear_cur : Parser
unfolding clear_host
clear_cur = record {
  cur_host = clear_host;
  hosts = [];
  ex_groups = [];
  e_list = [];
  ne_list = [];
  e_error = false;
}

-- `file` is none where the exports file cannot be opened, or what is performed on it and whether a
-- syntax error is met. The other result is whether the file was taken.
unfoldable pub exports_parse : Env → Option (List Action × Bool) → Exports → Bool × Exports
unfolding clear_cur yyparse
exports_parse env file e = if e.exports_access then (false, e) else elim file [
  | none ↦ (false, record e { export_list = []; exports_nfslist = [] })
  | some (actions, wrong) ↦
      let s = yyparse env actions clear_cur in
      if s.e_error || wrong
      then (false, record e { export_list = []; exports_nfslist = [] })
      else (true, record e { export_list = s.e_list; exports_nfslist = s.ne_list })
]
