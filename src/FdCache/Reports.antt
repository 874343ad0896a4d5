-- ===== src/FdCache/Reports.antt =====
-- src/fd_cache.c: the errors of closing a descriptor, and the write verifier.
use nfsrods.Prelude.{
  ℕ, zero, suc, ◌%◌, ◌==◌, ◌≡◌, ap, refl, ◌∙◌, ◌⊎◌, inl, inr, Bool, true, false, if◌then◌else◌,
  List, none, some, length, set, length-set, get_elem?, get_elem?-set_self, get_elem?-set_ne, arith,
  Bool-cases, Option-cases,
}
use nfsrods.Errno.{eio}
use nfsrods.Backend.{FilePath}
use nfsrods.Fh.Handles.{Handle}
use nfsrods.FdCache.Table.{
  Cache, Entry, Kind, Result, Sys, finish_del, del_at, fd_cache_del, in_use, idx_by_fh, has_fh,
  regenerate_write_verifier,
}
use nfsrods.FdCache.Calls.{fd_sync, fd_open, sweep_one, sweep, fd_cache_purge}
use nfsrods.FdCache.Counts.{search_slot-some}

-- Deleting an entry for good leaves the verifier, or fails and regenerates it.
del-verifier :
    (sys : Sys) (c : Cache) (i : ℕ) (e : Entry)
    → get_elem? c.entries i ≡ some e
    → (fd_cache_del sys c i false).0.verifier ≡ (
        if (fd_cache_del sys c i false).1
        then c.verifier
        else regenerate_write_verifier sys i c.verifier)
unfolding fd_cache_del del_at finish_del
del-verifier sys c i e at = ground (arith, Option-cases e.fd)

-- A verifier of eight bytes, regenerated: its byte 0 is that of the process and the random number,
-- its byte 4 that of the time, and the others stay.
regenerate_write_verifier-get_elem? :
    (sys : Sys) (i : ℕ) (v : List ℕ) (k : ℕ)
    → length v ≡ 8
    → get_elem? (regenerate_write_verifier sys i v) k ≡ (
        if k == 0
        then some (sys.pid_rand i % 256)
        else if k == 4
        then some (sys.now % 256)
        else get_elem? v k)
unfolding regenerate_write_verifier
regenerate_write_verifier-get_elem? sys i v k long =
    let first = set v 0 (sys.pid_rand i % 256) in
    elim (Bool-cases (k == 4)) [
      | inl four ↦
          let is_four : k ≡ 4 = ground (arith, four) in
          rw is_four (
            get_elem?-set_self first 4 (sys.now % 256)
              (omega (arith, length-set v 0 (sys.pid_rand i % 256), long)))
      | inr other ↦
          let rest =
            get_elem?-set_ne first {i = 4} {j = k} (sys.now % 256)
              (λ e. ground (arith, other, e)) in
          elim (Bool-cases (k == 0)) [
            | inl z ↦
                let is_zero : k ≡ 0 = ground (arith, z) in
                rw (is_zero) (
                  get_elem?-set_ne first {i = 4} {j = 0} (sys.now % 256) (λ e. omega arith)
                  ∙ get_elem?-set_self v 0 (sys.pid_rand i % 256) (omega (arith, long)))
            | inr nz ↦
                rw (nz, other)
                  (rest
                    ∙ get_elem?-set_ne v {i = 0} {j = k} (sys.pid_rand i % 256)
                        (λ e. ground (arith, nz, e)))
          ]
    ]

-- A sync that reports success leaves every byte of the write verifier. One that reports an error does
-- so for a slot that holds the handle, and then byte 0 is the low byte of `getpid() ^ rand()`, byte 4
-- the low byte of the time, and the six others are as they were. The verifier has eight bytes.
pub fd_sync-verifier :
    (sys : Sys) (c : Cache) (fh : Handle) (k : ℕ)
    → length c.verifier ≡ 8
    → (((fd_sync sys c fh).1 ≡ true) × ((fd_sync sys c fh).0.verifier ≡ c.verifier))
      ⊎ (((fd_sync sys c fh).1 ≡ false)
          × (i : ℕ) × (e : Entry) × (get_elem? c.entries i ≡ some e)
          × (has_fh fh Kind.write e ≡ true)
          × (get_elem? (fd_sync sys c fh).0.verifier k ≡ (
              if k == 0
              then some (sys.pid_rand i % 256)
              else if k == 4
              then some (sys.now % 256)
              else get_elem? c.verifier k)))
unfolding fd_sync idx_by_fh
fd_sync-verifier sys c fh k long = elim (Option-cases (idx_by_fh c fh Kind.write)) [
  | inl uncached ↦ inl (ground arith, ground arith)
  | inr (idx, known) ↦
      let (e, at, same) = search_slot-some (has_fh fh Kind.write) c.entries idx known in
      let changed = del-verifier sys c idx e at in
      let bytes_of = regenerate_write_verifier-get_elem? sys idx c.verifier k long in
      elim (Bool-cases (fd_cache_del sys c idx false).1) [
        | inl ok ↦ rw (known, fd_sync) (inl (ok, ground (arith, changed, ok)))
        | inr bad ↦
            rw (known, fd_sync)
              (inr (
                bad,
                idx,
                e,
                at,
                same,
                ap (λ v. get_elem? v k) (ground (arith, changed, bad)) ∙ bytes_of,
              ))
      ]
]

-- A handle whose cached descriptor is gone, which is how an error of an earlier close is kept, is
-- not opened: the call fails with `EIO` and the write verifier is regenerated.
pub fd_open-pending :
    (sys : Sys) (c : Cache) (path : FilePath) (fh : Handle) (kind : Kind) (caching : Bool) (i : ℕ)
    (e : Entry)
    → idx_by_fh c fh kind ≡ some i
    → get_elem? c.entries i ≡ some e
    → e.fd ≡ none
    → ((fd_open sys c path fh kind caching).1 ≡ Result.failed eio)
      × ((fd_open sys c path fh kind caching).0.verifier
          ≡ regenerate_write_verifier sys i c.verifier)
unfolding fd_open fd_cache_del del_at finish_del
fd_open-pending sys c path fh kind caching i e known at gone = ground arith

sweep-verifier :
    (sys : Sys) (n i : ℕ) (c : Cache) → (sweep sys in_use true n i c).verifier ≡ c.verifier
unfolding sweep sweep_one fd_cache_del del_at finish_del
sweep-verifier sys zero i c = refl
sweep-verifier sys (suc n) i c = sweep-verifier sys n (suc i) (sweep_one sys in_use true c i) ∙ one
  where
    one : (sweep_one sys in_use true c i).verifier ≡ c.verifier
    one = elim (Option-cases (get_elem? c.entries i)) [
      | inl missing ↦ ground arith
      | inr (e, at) ↦ ground (arith, Option-cases e.fd)
    ]

-- A purge does not change the write verifier, whatever the calls of `close` and `fsync` answer.
pub fd_cache_purge-verifier : (sys : Sys) (c : Cache) → (fd_cache_purge sys c).verifier ≡ c.verifier
unfolding fd_cache_purge
fd_cache_purge-verifier sys c = sweep-verifier sys 256 0 c
