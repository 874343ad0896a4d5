-- ===== src/Fh/Roundtrip.antt =====
-- src/fh.c: composing a handle and resolving it.
use mathlib.Core.List.{append_assoc, append-nil}
use nfsrods.Prelude.{
  ℕ, zero, suc, ◌+◌, ◌%◌, ◌<◌, ◌≡◌, refl, sym, ap, ◌∙◌, inl, inr, Bool, true, false, not, ◌&&◌,
  ◌==◌, ltb, List, [], ◌∷◌, ◌++◌, some, length, arith, Option-cases, str_eq,
}
use nfsrods.Backend.{FilePath, Stat, FileSys, nfs_maxpathlen, u32_mod}
use nfsrods.Fh.Handles.{
  Handle, Special, slash, fh_valid, fh_maxlen, prefixes, hashes, comp_inos, fh_comp_raw,
}
use nfsrods.Fh.Resolve.{Found, Resolved, is_dot, fh_rec, fh_decomp_raw}
use nfsrods.Fh.Resolve.Sound.{Leads, fh_decomp_raw-Leads}
use nfsrods.Fh.Resolve.Complete.{Listed, Trail, here, below, fh_rec-Finds}

abbrev pub no_slash : FilePath → Bool
no_slash [] = true
no_slash (c ∷ cs) = not (c == slash) && no_slash cs

-- The absolute path with these components.
abbrev pub path_of : List FilePath → FilePath
path_of [] = []
path_of (n ∷ ns) = slash ∷ (n ++ path_of ns)

paths_from : FilePath → List FilePath → List FilePath
paths_from done [] = []
paths_from done (n ∷ ns) = (done ++ (slash ∷ n)) ∷ paths_from (done ++ (slash ∷ n)) ns

abbrev after : FilePath → List FilePath → List FilePath
after work [] = []
after work (m ∷ ms) = prefixes (work ++ (slash ∷ [])) (m ++ path_of ms)

prefixes_component :
    (work n : FilePath) (ns : List FilePath)
    → no_slash n ≡ true
    → prefixes work (n ++ path_of ns) ≡ (work ++ n) ∷ after (work ++ n) ns
unfolding prefixes
prefixes_component work [] [] h = rw append-nil
prefixes_component work [] (m ∷ ms) h = rw append-nil
prefixes_component work (c ∷ n) ns h =
    ground (arith, prefixes_component (work ++ (c ∷ [])) n ns, append_assoc work (c ∷ []) n)

-- Every component is listed in the directory before it, has a proper name, and fits.
abbrev pub Walk : FileSys → FilePath → List FilePath → Type 0
Walk fs done [] = Unit {0}
Walk fs done (n ∷ ns) =
    Listed fs (slash ∷ done) n
    × (no_slash n ≡ true)
    × (is_dot n ≡ false)
    × (0 < length n)
    × (ltb (length (slash ∷ done) + length n + 1) nfs_maxpathlen ≡ true)
    × Walk fs (done ++ (slash ∷ n)) ns

prefixes_paths :
    (fs : FileSys) (done n : FilePath) (ns : List FilePath)
    → Walk fs done (n ∷ ns)
    → prefixes (done ++ (slash ∷ [])) (n ++ path_of ns) ≡ paths_from done (n ∷ ns)
unfolding paths_from
prefixes_paths fs done n [] (l, ok, nd, some_name, fits, w) =
    prefixes_component (done ++ (slash ∷ [])) n [] ok
    ∙ ap (λ p. p ∷ []) (append_assoc done (slash ∷ []) n)
prefixes_paths fs done n (m ∷ ms) (l, ok, nd, some_name, fits, w) =
    prefixes_component (done ++ (slash ∷ [])) n (m ∷ ms) ok
    ∙ rw (append_assoc done (slash ∷ []) n)
        (ap (◌∷◌ (done ++ (slash ∷ n))) (prefixes_paths fs (done ++ (slash ∷ n)) m ms w))

Walk-Trail :
    (fs : FileSys) (fh : Handle) (room : ℕ) (done n : FilePath) (ns : List FilePath) (hs : List ℕ)
    (b : Stat)
    → ((p : FilePath) → fs.lstat (slash ∷ (done ++ (slash ∷ p))) ≡ fs.lstat (done ++ (slash ∷ p)))
    → Walk fs done (n ∷ ns)
    → hashes fs room (paths_from done (n ∷ ns)) ≡ some hs
    → fs.lstat (done ++ path_of (n ∷ ns)) ≡ some b
    → b.dev ≡ fh.dev
    → b.ino ≡ fh.ino
    → Trail fs fh hs (slash ∷ done)
unfolding paths_from hashes
Walk-Trail fs fh zero done n ns hs b same w e r d i = absurd (ground arith)
Walk-Trail fs fh (suc room) done n ns [] b same w e r d i = absurd (ground arith)
Walk-Trail fs fh (suc room) done n [] (h ∷ hs) b same (l, ok, nd, some_name, fits, w) e r d i =
    here n b l fits (same n ∙ (rw append-nil at r)) d i
Walk-Trail fs fh (suc room) done n (m ∷ ms) (h ∷ hs) b same (l, ok, nd, some_name, fits, w) e r d
      i =
    elim (Option-cases (fs.lstat (done ++ (slash ∷ n)))) [
      | inl no_stat ↦ absurd (ground arith)
      | inr (s, read) ↦ below n s l fits (same n ∙ read) nd (ground arith) (
          Walk-Trail fs fh room (done ++ (slash ∷ n)) m ms hs b
            (λ p. rw append_assoc (same (n ++ (slash ∷ p)))) w (ground arith) (rw append_assoc r) d
            i)
    ]

comp_valid :
    (fs : FileSys) (path : FilePath) (need_dir : Bool) (b : Stat)
    → fs.lstat path ≡ some b
    → str_eq path (slash ∷ []) ≡ false
    → fh_valid (fh_comp_raw fs Special.ordinary path need_dir) ≡ true
    → let fh = fh_comp_raw fs Special.ordinary path need_dir in
      (comp_inos fs path ≡ some fh.inos) × (fh.dev ≡ b.dev % u32_mod) × (fh.ino ≡ b.ino)
unfolding fh_comp_raw fh_valid
comp_valid fs path need_dir b r below_root valid = ground (arith, Option-cases (comp_inos fs path))

resolves :
    (fs : FileSys) (fh : Handle) (junk : Stat) (hs : List ℕ)
    → fh.inos ≡ hs
    → Trail fs fh hs (slash ∷ [])
    → (f : Found) × (fh_decomp_raw fs fh junk ≡ Resolved.found f)
unfolding fh_decomp_raw
resolves fs fh junk [] e t = elim t [ ]
resolves fs fh junk (h ∷ hs) e t = elim (Option-cases (fh_rec fs fh junk (h ∷ hs) (slash ∷ []))) [
  | inl missed ↦ absurd (fh_rec-Finds fs fh junk t missed)
  | inr (f, found) ↦ (f, ground arith)
]

below_root :
    (n : FilePath) (ns : List FilePath)
    → 0 < length n
    → str_eq (path_of (n ∷ ns)) (slash ∷ []) ≡ false
below_root [] ns h = absurd (omega arith)
below_root (c ∷ n) ns h = ground arith

-- A handle that `fh_comp_raw` composes for a path below the root that is no removable export point is
-- resolved: the search finds an object, and it has the device and the inode of the handle. The path consists of proper names, each
-- listed in the directory before it and short enough; a second leading slash makes no difference
-- to `lstat`; and the device number fits 32 bits.
pub decomp-comp :
    (fs : FileSys) (junk : Stat) (n : FilePath) (ns : List FilePath) (need_dir : Bool) (b : Stat)
    → ((p : FilePath) → fs.lstat (slash ∷ (slash ∷ p)) ≡ fs.lstat (slash ∷ p))
    → Walk fs [] (n ∷ ns)
    → fs.lstat (path_of (n ∷ ns)) ≡ some b
    → b.dev < u32_mod
    → fh_valid (fh_comp_raw fs Special.ordinary (path_of (n ∷ ns)) need_dir) ≡ true
    → let fh = fh_comp_raw fs Special.ordinary (path_of (n ∷ ns)) need_dir in
      (f : Found) × (fh_decomp_raw fs fh junk ≡ Resolved.found f) × Leads fs fh junk f
unfolding comp_inos
decomp-comp fs junk n ns need_dir b same (l, ok, nd, some_name, fits, w) r small valid =
    let fh = fh_comp_raw fs Special.ordinary (path_of (n ∷ ns)) need_dir in
    let (composed, same_dev, same_ino) =
      comp_valid fs (path_of (n ∷ ns)) need_dir b r (below_root n ns some_name) valid in
    let walk : Walk fs [] (n ∷ ns) = (l, ok, nd, some_name, fits, w) in
    let trail =
      Walk-Trail fs fh fh_maxlen [] n ns fh.inos b same walk
        (ap (hashes fs fh_maxlen) (sym (prefixes_paths fs [] n ns walk)) ∙ composed) r (omega arith)
        (sym same_ino) in
    let (f, e) = resolves fs fh junk fh.inos refl trail in
    (f, e, fh_decomp_raw-Leads fs fh junk f valid e)
