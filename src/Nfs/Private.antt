-- ===== src/Nfs/Private.antt =====
-- src/nfs.c: the names of objects, and the directories of the users.
use nfsrods.Prelude.{
  ℕ, ◌+◌, ◌≤◌, ◌<◌, ◌≡◌, refl, sym, ap, ◌∙◌, true, false, inl, inr, List, [], ◌∷◌, ◌++◌, some,
  length, length-append, drop, arith, Bool-cases, Option-cases,
}
use mathlib.Core.List.{append_assoc}
use nfsrods.Backend.{FilePath, nfs_maxpathlen}
use nfsrods.Status.{nfs3_ok}
use nfsrods.Fh.Handles.{slash}
use nfsrods.Exports.Lookup.{has_part, starts_with}
use nfsrods.Nfs.Paths.{
  before_last, parent, cat_name, Site, substring, nfs_directory, user_root, real_path, irods_path,
}

length-before_last : (p q : FilePath) → before_last p ≡ some q → length q < length p
length-before_last [] q h = absurd (ground (arith, h))
length-before_last (c ∷ cs) q h = elim (Option-cases (before_last cs)) [
  | inl e ↦ ground (arith, h, e)
  | inr (r, e) ↦ ground (arith, h, e, length-before_last cs r e)
]

length-parent : (p : FilePath) → length (parent p) ≤ length p + 1
unfolding parent
length-parent p = elim (Option-cases (before_last p)) [
  | inl e ↦ ground (arith, e)
  | inr ([], e) ↦ ground (arith, e)
  | inr (c ∷ q, e) ↦ let shorter = length-before_last p (c ∷ q) e in ground (arith, e, shorter)
]

-- A name that is accepted gives a path that fits, with its end, in a buffer of NFS_MAXPATHLEN bytes.
pub cat_name_fits :
    (path name obj : List ℕ)
    → cat_name (some path) (some name) ≡ (nfs3_ok, some obj)
    → length obj + 1 ≤ nfs_maxpathlen
unfolding cat_name
cat_name_fits path name obj h =
    let up = length-parent path in
    let join = length-append path (slash ∷ name) in ground (arith, h, up, join)

starts_with-append : (xs ys : List ℕ) → starts_with xs (xs ++ ys) ≡ true
starts_with-append [] ys = refl
starts_with-append (x ∷ xs) ys = ground (arith, starts_with-append xs ys)

has_part-append : (xs ys : List ℕ) → has_part xs (xs ++ ys) ≡ true
has_part-append [] [] = refl
has_part-append [] (y ∷ ys) = refl
has_part-append (x ∷ xs) ys = ground (arith, starts_with-append xs ys)

drop-append : (xs ys : List ℕ) → drop (length xs) (xs ++ ys) ≡ ys
drop-append [] ys = refl
drop-append (x ∷ xs) ys = drop-append xs ys

-- The real path of a real path is that path.
real_path_twice :
    (site : Site) (uid : ℕ) (path : FilePath)
    → real_path site uid (real_path site uid path) ≡ real_path site uid path
unfolding real_path
real_path_twice site uid path = elim (Bool-cases site.is_public) [
  | inl e ↦ rw e refl
  | inr e ↦ elim (Bool-cases (has_part (user_root site uid) path)) [
    | inl f ↦ ground (arith, e, f)
    | inr f ↦
        let tail = substring path (length site.export_path) in
        ground (arith, e, f, has_part-append (user_root site uid) tail)
  ]
]

length-user_root :
    (site : Site) (uid : ℕ)
    → site.is_public ≡ false
    → length (user_root site uid) ≡ length site.export_path + length (site.sprintf_d uid) + 1
unfolding user_root nfs_directory
length-user_root site uid h = rw h (
    omega (
      arith,
      length-append (site.export_path ++ (slash ∷ [])) (site.sprintf_d uid),
      length-append site.export_path (slash ∷ []),
    ))

irods_path-user_root :
    (site : Site) (uid : ℕ) (rest : FilePath)
    → site.is_public ≡ false
    → irods_path site uid (user_root site uid ++ rest) ≡ rest
unfolding irods_path substring
irods_path-user_root site uid rest private =
    ground
      (arith, private, length-user_root site uid private, drop-append (user_root site uid) rest)

-- With private directories, a path below the export that does not name the user's directory is moved
-- into it, and the collection path of the moved one is what stood behind the export.
pub irods_path-real_path :
    (site : Site) (uid : ℕ) (rest : FilePath)
    → site.is_public ≡ false
    → has_part (user_root site uid) (site.export_path ++ rest) ≡ false
    → (real_path site uid (site.export_path ++ rest) ≡ user_root site uid ++ rest)
      × (irods_path site uid (real_path site uid (site.export_path ++ rest)) ≡ rest)
unfolding real_path irods_path substring
irods_path-real_path site uid rest private outside =
    let moved : real_path site uid (site.export_path ++ rest) ≡ user_root site uid ++ rest =
      ground (arith, private, outside, drop-append site.export_path rest) in
    (moved, ap (irods_path site uid) moved ∙ irods_path-user_root site uid rest private)

user_root_private :
    (site : Site) (uid : ℕ)
    → site.is_public ≡ false
    → user_root site uid ≡ (site.export_path ++ (slash ∷ [])) ++ site.sprintf_d uid
unfolding user_root nfs_directory
user_root_private site uid private = ground (arith, private)

-- The text of one user id begins another's, as "1" begins "12": a path in the directory of the other
-- user is left as it is for the first, and its collection path begins with the rest of that text.
pub real_path_foreign :
    (site : Site) (uid other : ℕ) (more rest : List ℕ)
    → site.is_public ≡ false
    → site.sprintf_d other ≡ site.sprintf_d uid ++ more
    → (real_path site uid (user_root site other ++ rest) ≡ user_root site other ++ rest)
      × (irods_path site uid (user_root site other ++ rest) ≡ more ++ rest)
unfolding real_path
real_path_foreign site uid other more rest private begins =
    let longer : user_root site other ++ rest ≡ user_root site uid ++ (more ++ rest) =
      ap (λ r. r ++ rest)
        (user_root_private site other private
          ∙ ap (λ d. (site.export_path ++ (slash ∷ [])) ++ d) begins
          ∙ sym (append_assoc (site.export_path ++ (slash ∷ [])) (site.sprintf_d uid) more)
          ∙ ap (λ r. r ++ more) (sym (user_root_private site uid private)))
      ∙ append_assoc (user_root site uid) more rest in
    (
      ground (arith, private, longer, has_part-append (user_root site uid) (more ++ rest)),
      ap (irods_path site uid) longer ∙ irods_path-user_root site uid (more ++ rest) private,
    )
