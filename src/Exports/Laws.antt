-- ===== src/Exports/Laws.antt =====
-- src/Config/exports.y: what the exports file leaves, and what its options come to.

use nfsrods.Prelude.{
  ℕ, ◌≡◌, refl, ap, ◌∙◌, Bool, true, false, ◌||◌, ◌⊎◌, inl, inr, List, [], ◌∷◌, ◌++◌, Option, none,
  some, Bool-cases, Option-cases,
}
use nfsrods.Exports.{EHost, EItem}
use nfsrods.Exports.Options.{get_free_fsid}
use nfsrods.Exports.Parse.{
  Parser, Env, Action, Exports, add_host, clear_item, give_up, append_item, with_hosts, no_hosts,
  item_path, fill, add_item, set_hostname, set_ipaddr, set_ipnet, act, yyparse, clear_cur,
  exports_parse, id, ip, net, oldnet, opt, optvalue, host, export,
}
use nfsrods.Xdr.Mounts.{Exportnode}

-- What the mount protocol shows of an export.
abbrev host_names : List EHost → List (List ℕ)
host_names [] = []
host_names (h ∷ hs) = h.orig ∷ host_names hs

abbrev pub shown : List EItem → List Exportnode
shown [] = []
shown (i ∷ rest) = record { ex_dir = i.orig; ex_groups = host_names i.hosts } ∷ shown rest

host_names-append : (hs ks : List EHost) → host_names (hs ++ ks) ≡ host_names hs ++ host_names ks
host_names-append [] ks = refl
host_names-append (h ∷ hs) ks = ap (λ r. h.orig ∷ r) (host_names-append hs ks)

shown-append : (rest js : List EItem) → shown (rest ++ js) ≡ shown rest ++ shown js
shown-append [] js = refl
shown-append (i ∷ rest) js =
    ap (λ r. record { ex_dir = i.orig; ex_groups = host_names i.hosts } ∷ r) (shown-append rest js)

-- The two lists of the parser say the same.
record Mirrored (s : Parser) : Type 0 where
  groups : host_names s.hosts ≡ s.ex_groups
  items : shown s.e_list ≡ s.ne_list

add_host-Mirrored : (s : Parser) → Mirrored s → Mirrored (add_host s)
unfolding add_host
add_host-Mirrored s m = record {
  groups =
      host_names-append s.hosts (s.cur_host ∷ []) ∙ ap (λ r. r ++ (s.cur_host.orig ∷ [])) m.groups;
  items = m.items;
}

give_up-Mirrored : (s : Parser) → Mirrored s → Mirrored (give_up s)
unfolding give_up clear_item
give_up-Mirrored s m = record { groups = refl; items = m.items }

append_item-Mirrored :
    (path buf : List ℕ) (s : Parser) → Mirrored s → Mirrored (append_item path buf s)
unfolding append_item clear_item
append_item-Mirrored path buf s m = record {
  groups = refl;
  items =
      shown-append s.e_list (
        record {
          path = buf;
          orig = path;
          hosts = s.hosts;
          fsid = get_free_fsid path;
          last_mtime = 0;
          dir_hash = 0;
        }
        ∷ [])
      ∙ rw (m.items, m.groups);
}

with_hosts-Mirrored : (s : Parser) → Mirrored s → Mirrored (with_hosts s)
unfolding with_hosts
with_hosts-Mirrored s m = elim (Bool-cases (no_hosts s.hosts)) [
  | inl e ↦ rw e (add_host-Mirrored s m)
  | inr e ↦ rw e m
]

add_item-Mirrored :
    (env : Env) (path : List ℕ) (s : Parser) → Mirrored s → Mirrored (add_item env path s)
unfolding add_item
add_item-Mirrored env path s m = elim (Option-cases (item_path env path s.hosts)) [
  | inl e ↦ rw (add_item, e) (give_up-Mirrored s m)
  | inr (buf, e) ↦
      rw (add_item, e) (append_item-Mirrored path buf (with_hosts s) (with_hosts-Mirrored s m))
]

fill-Mirrored : (r : EHost × Bool) (s : Parser) → Mirrored s → Mirrored (fill r s)
unfolding fill
fill-Mirrored r s m = record { groups = m.groups; items = m.items }

act-Mirrored : (env : Env) (a : Action) (s : Parser) → Mirrored s → Mirrored (act env a s)
unfolding act
act-Mirrored env (id name) s m = fill-Mirrored (set_hostname env name s.cur_host) s m
act-Mirrored env (ip addr) s m = fill-Mirrored (set_ipaddr env addr s.cur_host) s m
act-Mirrored env (net addr) s m = fill-Mirrored (set_ipnet env addr true s.cur_host) s m
act-Mirrored env (oldnet addr) s m = fill-Mirrored (set_ipnet env addr false s.cur_host) s m
act-Mirrored env (opt o) s m = record { groups = m.groups; items = m.items }
act-Mirrored env (optvalue o val) s m = record { groups = m.groups; items = m.items }
act-Mirrored env host s m = add_host-Mirrored s m
act-Mirrored env (export path) s m = add_item-Mirrored env path s m

yyparse-Mirrored :
    (env : Env) (actions : List Action) (s : Parser) → Mirrored s → Mirrored (yyparse env actions s)
unfolding yyparse
yyparse-Mirrored env [] s m = m
yyparse-Mirrored env (a ∷ actions) s m =
    yyparse-Mirrored env actions (act env a s) (act-Mirrored env a s m)

-- If the list that the mount protocol shows is that of the exports, then it is after the exports file
-- has been read again, whatever is in the file: the same paths, each with the names of its hosts.
pub exports_parse-shown :
    (env : Env) (file : Option (List Action × Bool)) (e : Exports)
    → shown e.export_list ≡ e.exports_nfslist
    → shown (exports_parse env file e).1.export_list ≡ (exports_parse env file e).1.exports_nfslist
unfolding exports_parse clear_cur
exports_parse-shown env file e m = elim (Bool-cases e.exports_access) [
  | inl busy ↦ rw busy m
  | inr free ↦ elim (Option-cases file) [
    | inl f ↦ rw (free, f) refl
    | inr ((actions, wrong), f) ↦
        elim (Bool-cases ((yyparse env actions clear_cur).e_error || wrong)) [
          | inl bad ↦ rw (free, f, bad) refl
          | inr good ↦
              rw (free, f, good)
                (yyparse-Mirrored env actions clear_cur
                  (record { groups = refl; items = refl })).items
        ]
  ]
]

-- A file is good if it can be opened, no action on it finds an error, and its syntax is right.
abbrev pub IsGood : Env → Option (List Action × Bool) → List Action → Type 0
IsGood env file actions =
    (file ≡ some (actions, false)) × ((yyparse env actions clear_cur).e_error ≡ false)

-- A file is bad if it cannot be opened, an action on it finds an error, or its syntax is wrong.
abbrev pub IsBad : Env → Option (List Action × Bool) → Type 0
IsBad env file =
    (file ≡ none)
    ⊎ ((actions : List Action) × (wrong : Bool) × (file ≡ some (actions, wrong))
        × ((wrong ≡ true) ⊎ ((yyparse env actions clear_cur).e_error ≡ true)))
