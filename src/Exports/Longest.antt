-- ===== src/Exports/Longest.antt =====
-- src/Config/exports.y: the export that `exports_options` chooses.
use nfsrods.Prelude.{
  ℕ, zero, suc, ◌≤◌, ◌<◌, ◌≡◌, refl, ◌∙◌, ap, true, false, ◌⊎◌, inl, inr, List, [], ◌∷◌, ◌++◌, none,
  some, length, get_elem?, arith, Bool-cases, Option-cases, test_bit,
}
use nfsrods.Status.{nfs3_ok}
use nfsrods.User.Ids.{opt_rw}
use nfsrods.Exports.{EHost, EItem}
use nfsrods.Exports.Hosts.{
  FirstHost, find_host-FirstHost, FirstHost-find_host, starts_with→◌++◌, starts_with_append,
}
use nfsrods.Exports.Lookup.{
  Last, Lookup, find_host, matching, take_host, consider, consider_all, no_options, exports_options,
  exports_rw, starts_with, has_part, up_and_down,
}

-- An item whose path is not empty and begins the path, byte by byte, and the first of its hosts that
-- has the address.
pub record Applies (path : List ℕ) (remote : ℕ) (item : EItem) (h : EHost) : Type 0 where
  pub nonempty : 0 < length item.path
  pub rest : List ℕ
  pub under : path ≡ item.path ++ rest
  pub is_host : FirstHost remote item.hosts h

-- What a lookup leaves that took an item of the list: its globals are those of the item and the host.
pub record Taken (items : List EItem) (path : List ℕ) (remote : ℕ) (l : Lookup) : Type 0 where
  pub place : ℕ
  pub item : EItem
  pub chosen : EHost
  pub listed : get_elem? items place ≡ some item
  pub applies : Applies path remote item chosen
  pub is_last : l.last ≡ record {
    exports_opts = some chosen.options;
    export_path = some item.path;
    export_fsid = item.fsid;
    export_password_hash = chosen.password_hash;
    last_anonuid = chosen.anonuid;
    last_anongid = chosen.anongid;
  }
  pub is_length : l.last_len ≡ length item.path
  pub is_password : l.password ≡ some chosen.password

later :
    {items : List EItem} {path : List ℕ} {remote : ℕ} {l : Lookup} (first : EItem)
    → Taken items path remote l
    → Taken (first ∷ items) path remote l
later first t = record {
  place = suc t.place;
  item = t.item;
  chosen = t.chosen;
  listed = t.listed;
  applies = t.applies;
  is_last = t.is_last;
  is_length = t.is_length;
  is_password = t.is_password;
}

-- The globals and the length stay, or the item is taken.
consider-cases :
    (path : List ℕ) (remote : ℕ) (item : EItem) (l : Lookup)
    → (((consider path remote item l).last ≡ l.last)
        × ((consider path remote item l).last_len ≡ l.last_len)
        × ((consider path remote item l).password ≡ l.password))
      ⊎ ((h : EHost) × Applies path remote item h
          × (consider path remote item l ≡ take_host item h l))
unfolding consider
consider-cases path remote item l = elim (Bool-cases (matching path item l)) [
  | inr out ↦ rw out (inl (refl, refl, refl))
  | inl hit ↦ elim (Option-cases (find_host remote item.hosts)) [
    | inl e ↦ rw (hit, e) (inl (refl, refl, refl))
    | inr (h, e) ↦
        let (rest, under) = starts_with→◌++◌ item.path path (ground (arith, hit)) in
        rw (hit, e)
          (inr (
            h,
            record {
              nonempty = ground (arith, hit);
              rest = rest;
              under = under;
              is_host = find_host-FirstHost remote item.hosts h e;
            },
            refl,
          ))
  ]
]

consider-grows :
    (path : List ℕ) (remote : ℕ) (item : EItem) (l : Lookup)
    → l.last_len ≤ (consider path remote item l).last_len
unfolding consider take_host
consider-grows path remote item l = ground (arith, Option-cases (find_host remote item.hosts))

consider_all-grows :
    (path : List ℕ) (remote : ℕ) (items : List EItem) (l : Lookup)
    → l.last_len ≤ (consider_all path remote items l).last_len
unfolding consider_all
consider_all-grows path remote [] l = omega arith
consider_all-grows path remote (item ∷ items) l =
    let first = consider-grows path remote item l in
    let others = consider_all-grows path remote items (consider path remote item l) in omega arith

consider-reaches :
    (path : List ℕ) (remote : ℕ) (item : EItem) (h : EHost) (l : Lookup)
    → Applies path remote item h
    → length item.path ≤ (consider path remote item l).last_len
unfolding consider take_host
consider-reaches path remote item h l a =
    let under : starts_with item.path path ≡ true =
      ap (starts_with item.path) a.under ∙ starts_with_append item.path a.rest in
    let is_host = FirstHost-find_host remote item.hosts h a.is_host in
    ground (arith, a.nonempty, under, is_host)

consider_all-reaches :
    (path : List ℕ) (remote : ℕ) (items : List EItem) (l : Lookup) (i : ℕ) (item : EItem)
    (h : EHost)
    → get_elem? items i ≡ some item
    → Applies path remote item h
    → length item.path ≤ (consider_all path remote items l).last_len
unfolding consider_all
consider_all-reaches path remote [] l i item h e a = ground (arith, e)
consider_all-reaches path remote (first ∷ items) l zero item h e a =
    let same : first ≡ item = ground (arith, e) in
    let here = consider-reaches path remote item h l a in
    let others = consider_all-grows path remote items (consider path remote item l) in
    rw same (omega arith)
consider_all-reaches path remote (first ∷ items) l (suc i) item h e a =
    consider_all-reaches path remote items (consider path remote first l) i item h e a

consider_all-Taken :
    (path : List ℕ) (remote : ℕ) (items : List EItem) (l : Lookup)
    → (((consider_all path remote items l).last ≡ l.last)
        × ((consider_all path remote items l).last_len ≡ l.last_len)
        × ((consider_all path remote items l).password ≡ l.password))
      ⊎ Taken items path remote (consider_all path remote items l)
unfolding consider_all take_host
consider_all-Taken path remote [] l = inl (refl, refl, refl)
consider_all-Taken path remote (item ∷ items) l =
    elim (consider_all-Taken path remote items (consider path remote item l)) [
      | inr t ↦ inr (later item t)
      | inl (e, f, g) ↦ elim (consider-cases path remote item l) [
        | inl (e', f', g') ↦ inl (e ∙ e', f ∙ f', g ∙ g')
        | inr (h, a, taken) ↦ inr (record {
          place = 0;
          item = item;
          chosen = h;
          listed = refl;
          applies = a;
          is_last = e ∙ ap (λ k. k.last) taken;
          is_length = f ∙ ap (λ k. k.last_len) taken;
          is_password = g ∙ ap (λ k. k.password) taken;
        })
      ]
    ]

-- Given a path without "/../" and an export of the list whose path is a prefix of it, byte by byte and
-- not empty, and that has a host whose network the caller's address lies in: the lookup takes an export
-- of the list with these two properties, whose path is not shorter. The globals are that export's path
-- and fsid and the options, password hash and anonymous ids of the first of its hosts that the address
-- lies in, and the password stored is that host's.
pub exports_options-Longest :
    (items : List EItem) (path : List ℕ) (remote : ℕ) (last : Last) (i : ℕ) (other : EItem)
    (h : EHost)
    → has_part up_and_down path ≡ false
    → get_elem? items i ≡ some other
    → Applies path remote other h
    → (t : Taken items path remote (exports_options items (some path) remote last)) × (length
          other.path
        ≤ length t.item.path)
unfolding exports_options no_options
exports_options-Longest items path remote last i other h clean e a =
    let reached = consider_all-reaches path remote items (no_options last) i other h e a in
    rw clean (elim (consider_all-Taken path remote items (no_options last)) [
      | inr t ↦ (t, omega (arith, reached, t.is_length))
      | inl (same, len, pw) ↦ absurd (omega (arith, reached, len, a.nonempty))
    ])

-- A lookup of any path leaves the options at -1 and stores no password, or it takes an export of the
-- list whose path is a prefix of it, with the first of its hosts that has the caller's address.
pub exports_options_cases :
    (items : List EItem) (path : List ℕ) (remote : ℕ) (last : Last)
    → (((exports_options items (some path) remote last).last.exports_opts ≡ none)
        × ((exports_options items (some path) remote last).password ≡ none))
      ⊎ Taken items path remote (exports_options items (some path) remote last)
unfolding exports_options no_options
exports_options_cases items path remote last = elim (Bool-cases (has_part up_and_down path)) [
  | inl e ↦ rw e (inl (refl, refl))
  | inr e ↦ elim (consider_all-Taken path remote items (no_options last)) [
    | inl (same, len, pw) ↦ rw e (inl (ap (λ k. k.exports_opts) same, pw))
    | inr t ↦ rw e (inr t)
  ]
]

-- Where the options of a lookup let the caller write, the lookup took an export whose path is a prefix
-- of the path, byte by byte, with the first of its hosts that has the caller's address, and that host
-- has the option rw.
pub exports_rw-Taken :
    (items : List EItem) (path : List ℕ) (remote : ℕ) (last : Last)
    → exports_rw (exports_options items (some path) remote last).last ≡ nfs3_ok
    → (t : Taken items path remote (exports_options items (some path) remote last)) × (test_bit
          t.chosen.options opt_rw
        ≡ true)
unfolding exports_rw take_host
exports_rw-Taken items path remote last h = elim (exports_options_cases items path remote last) [
  | inl (e, pw) ↦ absurd (ground (arith, e, h))
  | inr t ↦ (t, ground (arith, h, t.is_last))
]
