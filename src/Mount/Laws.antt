-- ===== src/Mount/Laws.antt =====
-- The mount list of src/mount.c: what an unmount leaves, and when descriptors are flushed.
use nfsrods.Prelude.{
  ℕ, suc, ◌+◌, ◌-◌, ◌≡◌, refl, ap, ◌∙◌, inl, inr, ltb, Bool, if◌then◌else◌, List, [], ◌∷◌, Option,
  none, length, length-append, arith, Bool-cases,
}
use nfsrods.Backend.{FilePath}
use nfsrods.FdCache.Table.{Cache, Sys}
use nfsrods.FdCache.Counts.{Counted}
use nfsrods.FdCache.Sweep.{fd_cache_purge-idle}
use nfsrods.Mount.Table.{
  Mountbody, Mounts, add_mount, is_removed, remove_from, remove_mount, mountproc_umntall,
}

-- The count is the length of the list.
abbrev pub CountExact : Mounts → Type 0
CountExact m = m.mount_cnt ≡ length m.mount_list

-- The entries of a list that fail a test, in their order.
abbrev pub without : (Mountbody → Bool) → List Mountbody → List Mountbody
without test [] = []
without test (b ∷ bs) = if test b then without test bs else b ∷ without test bs

remove_from-list :
    (host : List ℕ) (path : Option FilePath) (bs : List Mountbody) (count : ℕ)
    → (remove_from host path bs count).mount_list ≡ without (is_removed host path) bs
unfolding remove_from
remove_from-list host path [] count = refl
remove_from-list host path (b ∷ bs) count = elim (Bool-cases (is_removed host path b)) [
  | inl gone ↦ rw (gone, remove_from) (remove_from-list host path bs _)
  | inr kept ↦ rw (kept, remove_from) (ap (λ l. b ∷ l) (remove_from-list host path bs _))
]

remove_from-count :
    (host : List ℕ) (path : Option FilePath) (bs : List Mountbody) (n : ℕ)
    → (remove_from host path bs (n + length bs)).mount_cnt
      ≡ n + length (without (is_removed host path) bs)
unfolding remove_from
remove_from-count host path [] n = refl
remove_from-count host path (b ∷ bs) n = elim (Bool-cases (is_removed host path b)) [
  | inl gone ↦
      let fewer : (if ltb 0 (n + suc (length bs))
            then n + suc (length bs) - 1
            else n + suc (length bs))
          ≡ n + length bs =
        ground arith in
      rw (gone, remove_from, fewer) (remove_from-count host path bs n)
  | inr kept ↦
      let same : n + suc (length bs) ≡ suc n + length bs = omega arith in
      rw (kept, remove_from, same) (remove_from-count host path bs (suc n) ∙ omega arith)
]

-- With an exact count of mounts, an unmount removes from the list exactly the entries of the
-- caller, for the path given or for every path, keeps the order of the others, and leaves the count
-- exact.
pub remove_mount-exact :
    (host : List ℕ) (path : Option FilePath) (m : Mounts)
    → CountExact m
    → ((remove_mount host path m).mount_list ≡ without (is_removed host path) m.mount_list)
      × CountExact (remove_mount host path m)
unfolding remove_mount
remove_mount-exact host path m exact =
    let left = remove_from-list host path m.mount_list m.mount_cnt in
    let counted : m.mount_cnt ≡ 0 + length m.mount_list = omega (arith, exact) in
    let count = ap (λ n. (remove_from host path m.mount_list n).mount_cnt) counted in
    (left, count ∙ remove_from-count host path m.mount_list 0 ∙ omega (arith, ap length left))

-- A mount that is added stands last, and a count that was exact stays exact, whether or not there
-- is memory for the entry.
pub add_mount-exact :
    (memory : Bool) (host : List ℕ) (path : FilePath) (m : Mounts)
    → CountExact m
    → CountExact (add_mount memory host path m)
unfolding add_mount
add_mount-exact memory host path m exact =
    ground
      (arith, exact, length-append m.mount_list (record { hostname = host; directory = path } ∷ []))

umntall-count :
    (host : List ℕ) (m : Mounts)
    → CountExact m
    → (remove_mount host none m).mount_cnt ≡ length (without (is_removed host none) m.mount_list)
umntall-count host m exact =
    let (left, count) = remove_mount-exact host none m exact in count ∙ ap length left

-- When the mounts of a client that ends all of its mounts are the last, no cached descriptor is
-- counted as open afterwards, for an exact count of mounts and right counters before.
pub mountproc_umntall-flushes :
    (sys : Sys) (host : List ℕ) (m : Mounts) (c : Cache)
    → CountExact m
    → Counted c
    → without (is_removed host none) m.mount_list ≡ []
    → ((mountproc_umntall sys host m c).1.readers ≡ 0)
      × ((mountproc_umntall sys host m c).1.writers ≡ 0)
unfolding mountproc_umntall
mountproc_umntall-flushes sys host m c exact counted last =
    let idle : (remove_mount host none m).mount_cnt ≡ 0 =
      umntall-count host m exact ∙ ap length last in
    rw (idle, mountproc_umntall) (fd_cache_purge-idle sys c counted)

-- While another client's mount is left, ending all mounts of a client does not touch the
-- descriptor cache, for an exact count of mounts.
pub mountproc_umntall-keeps :
    (sys : Sys) (host : List ℕ) (m : Mounts) (c : Cache) (b : Mountbody) (bs : List Mountbody)
    → CountExact m
    → without (is_removed host none) m.mount_list ≡ b ∷ bs
    → (mountproc_umntall sys host m c).1 ≡ c
unfolding mountproc_umntall
mountproc_umntall-keeps sys host m c b bs exact left =
    let busy : (remove_mount host none m).mount_cnt ≡ suc (length bs) =
      umntall-count host m exact ∙ ap length left in
    ground (arith, busy)
