-- ===== src/FhCache/Objects.antt =====
-- src/fh_cache.c: the object that `fh_decomp` and `fh_cache_lookup` lead to.
use nfsrods.Prelude.{
  ℕ, ◌+◌, ◌≡◌, ◌≢◌, refl, sym, ◌∙◌, inl, inr, ◌⊎◌, true, false, ◌==◌, [], ◌∷◌, Option, none, some,
  get_elem?, arith, Bool-cases, Option-cases,
}
use nfsrods.Backend.{FilePath, FileSys, StatCache}
use nfsrods.Fh.Handles.{Handle, NfsFh, slash, fh_valid, nfh_valid}
use nfsrods.Fh.Resolve.{Found, Resolved, fh_decomp_raw}
use nfsrods.Fh.Resolve.Sound.{is_absolute, fh_decomp_raw-Leads}
use nfsrods.Locate.{locate_file}
use nfsrods.Locate.Laws.{IsObject, locate_file-IsObject}
use nfsrods.FhCache.Table.{Cache, lookup, index}
use nfsrods.FhCache.Invariant.{WellFormed}
use nfsrods.FhCache.Keep.{lookup-WellFormed, add-WellFormed}
use nfsrods.FhCache.Decomp.{World, search_object, store, resolve, fh_decomp}

-- The result is the path of the object, and the stat cache is valid and holds the object's attributes.
pub record Resolves (fs : FileSys) (dev ino : ℕ) (path : FilePath) (sc : StatCache) : Type 0 where
  pub is_valid : sc.valid ≡ true
  pub exists : fs.lstat path ≡ some sc.stat
  pub same_dev : sc.stat.dev ≡ dev
  pub same_ino : sc.stat.ino ≡ ino

-- When `fh_cache_lookup` returns a path, the file system has an object at it with the device and
-- the inode asked for, and the stat cache is valid and holds this object's attributes.
pub lookup-Resolves :
    (fs : FileSys) (c : Cache) (sc : StatCache) (dev ino : ℕ) (path : FilePath)
    → (lookup fs c sc dev ino).result ≡ some path
    → Resolves fs dev ino path (lookup fs c sc dev ino).stat_cache
unfolding lookup
lookup-Resolves fs c sc dev ino path h = elim (Option-cases (index c dev ino)) [
  | inl e ↦ absurd (ground arith)
  | inr (i, e) ↦ ground (arith, Option-cases (get_elem? c.entries i))
]

abbrev DoubleSlash : FileSys → Type 0
DoubleSlash fs = (p : FilePath) → fs.lstat (slash ∷ (slash ∷ p)) ≡ fs.lstat (slash ∷ p)

absolute_twice :
    (fs : FileSys) (p : FilePath)
    → DoubleSlash fs
    → is_absolute p ≡ true
    → fs.lstat (slash ∷ p) ≡ fs.lstat p
absolute_twice fs [] twice h = absurd (ground arith)
absolute_twice fs (c ∷ p) twice h = let e : c ≡ slash = ground arith in rw e (twice p)

search-IsObject :
    (w : World) (obj : Handle) (f : Found)
    → DoubleSlash w.fs
    → fh_valid obj ≡ true
    → search_object w obj ≡ Resolved.found f
    → IsObject w.fs obj.dev obj.ino f
unfolding search_object
search-IsObject w obj f twice valid h = elim (Resolved-cases (fh_decomp_raw w.fs obj w.junk)) [
  | inl e ↦ absurd (ground arith)
  | inr (inl (g, e)) ↦
      let same : f ≡ g = ground arith in
      let leads = fh_decomp_raw-Leads w.fs obj w.junk g valid e in
      rw same (record {
        exists = sym (absolute_twice w.fs g.path twice leads.absolute) ∙ leads.exists;
        same_dev = leads.same_dev;
        same_ino = leads.same_ino;
      })
  | inr (inr e) ↦
      locate_file-IsObject w.fs obj.dev obj.ino w.brute_force w.mtab f
        (ground (arith, Option-cases (locate_file w.fs obj.dev obj.ino w.brute_force w.mtab)))
]
  where
    Resolved-cases :
        (r : Resolved)
        → (r ≡ Resolved.root) ⊎ ((g : Found) × (r ≡ Resolved.found g)) ⊎ (r ≡ Resolved.not_found)
    Resolved-cases Resolved.root = inl refl
    Resolved-cases (Resolved.found g) = inr (inl (g, refl))
    Resolved-cases Resolved.not_found = inr (inr refl)

search_root : (w : World) (obj : Handle) → search_object w obj ≡ Resolved.root → obj.inos ≡ []
unfolding search_object fh_decomp_raw
search_root w obj h =
    ground (arith, Option-cases (locate_file w.fs obj.dev obj.ino w.brute_force w.mtab))

store-Resolves :
    (w : World) (obj : Handle) (c : Cache) (sc : StatCache) (r : Resolved) (path : FilePath)
    → DoubleSlash w.fs
    → fh_valid obj ≡ true
    → obj.inos ≢ []
    → search_object w obj ≡ r
    → (store obj c sc r).result ≡ some path
    → Resolves w.fs obj.dev obj.ino path (store obj c sc r).stat_cache
unfolding store
store-Resolves w obj c sc Resolved.root path twice valid deep e h =
    absurd (deep (search_root w obj e))
store-Resolves w obj c sc (Resolved.found f) path twice valid deep e h =
    ground (arith, search-IsObject w obj f twice valid e)
store-Resolves w obj c sc Resolved.not_found path twice valid deep e h = absurd (ground arith)

resolve-Resolves :
    (w : World) (c : Cache) (sc : StatCache) (obj : Handle) (path : FilePath)
    → DoubleSlash w.fs
    → fh_valid obj ≡ true
    → obj.inos ≢ []
    → (resolve w c sc obj).result ≡ some path
    → Resolves w.fs obj.dev obj.ino path (resolve w c sc obj).stat_cache
unfolding resolve
resolve-Resolves w c sc obj path twice valid deep h =
    elim (Option-cases (lookup w.fs c sc obj.dev obj.ino).result) [
      | inl missed ↦
          rw (missed, resolve)
            (store-Resolves w obj _ _ (search_object w obj) path twice valid deep refl
              (ground arith))
      | inr (p, hit) ↦
          rw (hit, resolve) (lookup-Resolves w.fs c sc obj.dev obj.ino path (ground arith))
    ]

-- What `fh_decomp` returns is a path at which the file system has the object of the handle, and the
-- stat cache then holds this object's attributes: whether the path comes from the cache, from the
-- search by hashes, or from the search of the device. The handle is not the invalid one, carries
-- at least one hash, and is not the root of an export with a preset fsid; a second leading slash
-- makes no difference to `lstat`.
pub fh_decomp-Resolves :
    (w : World) (point : ℕ → Option FilePath) (c : Cache) (sc : StatCache) (nfh : NfsFh)
    (path : FilePath)
    → DoubleSlash w.fs
    → fh_valid nfh.obj ≡ true
    → nfh.obj.inos ≢ []
    → (point nfh.obj.dev ≡ none) ⊎ (nfh.obj.ino ≢ 1)
    → (fh_decomp w point c sc nfh).result ≡ some path
    → Resolves w.fs nfh.obj.dev nfh.obj.ino path (fh_decomp w point c sc nfh).stat_cache
unfolding fh_decomp
fh_decomp-Resolves w point c sc nfh path twice valid deep normal h =
    ground (
      arith,
      Option-cases (point nfh.obj.dev),
      resolve-Resolves w c sc nfh.obj path twice valid deep,
    )

-- When `fh_decomp` finds nothing, it leaves the stat cache marked invalid, on every branch.
pub fh_decomp_failure :
    (w : World) (point : ℕ → Option FilePath) (c : Cache) (sc : StatCache) (nfh : NfsFh)
    → (fh_decomp w point c sc nfh).result ≡ none
    → (fh_decomp w point c sc nfh).stat_cache.valid ≡ false
unfolding fh_decomp resolve store
fh_decomp_failure w point c sc nfh h = ground (
  arith,
  Option-cases (point nfh.obj.dev),
  Option-cases (lookup w.fs c sc nfh.obj.dev nfh.obj.ino).result,
)

counted-WellFormed :
    (c : Cache) (uses hits : ℕ) → WellFormed c → WellFormed (record c { uses = uses; hits = hits })
counted-WellFormed c uses hits wf = record {
  size = wf.size;
  within = wf.within;
  fresh = wf.fresh;
  kept = wf.kept;
  kept_used = wf.kept_used;
  times = wf.times;
}

store-WellFormed :
    (obj : Handle) (c : Cache) (sc : StatCache) (r : Resolved)
    → fh_valid obj ≡ true
    → WellFormed c
    → WellFormed (store obj c sc r).cache
unfolding store fh_valid
store-WellFormed obj c sc Resolved.root valid wf = add-WellFormed c obj.dev obj.ino _ wf valid
store-WellFormed obj c sc (Resolved.found f) valid wf = add-WellFormed c obj.dev obj.ino _ wf valid
store-WellFormed obj c sc Resolved.not_found valid wf = wf

resolve-WellFormed :
    (w : World) (c : Cache) (sc : StatCache) (obj : Handle)
    → fh_valid obj ≡ true
    → WellFormed c
    → WellFormed (resolve w c sc obj).cache
unfolding resolve
resolve-WellFormed w c sc obj valid wf =
    let l = lookup w.fs c sc obj.dev obj.ino in
    let kept = lookup-WellFormed w.fs c sc obj.dev obj.ino wf (unfold fh_valid in valid) in
    elim (Option-cases (lookup w.fs c sc obj.dev obj.ino).result) [
      | inl missed ↦
          rw (missed, resolve)
            (store-WellFormed obj _ l.stat_cache (search_object w obj) valid
              (counted-WellFormed l.cache (l.cache.uses + 1) l.cache.hits kept))
      | inr (p, hit) ↦
          rw (hit, resolve) (counted-WellFormed l.cache (l.cache.uses + 1) (l.cache.hits + 1) kept)
    ]

-- Resolving a handle that is not the invalid one keeps the file handle cache well-formed, on every
-- branch.
pub fh_decomp-WellFormed :
    (w : World) (point : ℕ → Option FilePath) (c : Cache) (sc : StatCache) (nfh : NfsFh)
    → fh_valid nfh.obj ≡ true
    → WellFormed c
    → WellFormed (fh_decomp w point c sc nfh).cache
unfolding fh_decomp
fh_decomp-WellFormed w point c sc nfh valid wf = elim (Bool-cases (nfh_valid nfh)) [
  | inl ok ↦
      rw (ok, fh_decomp)
        (elim (Option-cases (point nfh.obj.dev)) [
          | inl no_point ↦ rw no_point (resolve-WellFormed w c sc nfh.obj valid wf)
          | inr (path, at) ↦ rw at (elim (Bool-cases (nfh.obj.ino == 1)) [
            | inl root ↦ rw root wf
            | inr other ↦ rw other (resolve-WellFormed w c sc nfh.obj valid wf)
          ])
        ])
  | inr bad ↦ rw (bad, fh_decomp) wf
]
