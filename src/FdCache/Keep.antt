-- ===== src/FdCache/Keep.antt =====
-- src/fd_cache.c: the statistics over the calls that the rest of the server makes.
use nfsrods.Prelude.{
  ℕ, zero, suc, ◌<◌, ◌≡◌, refl, inl, inr, Bool, true, false, not, ◌&&◌, List, ◌∷◌, some, set,
  get_elem?, arith, Bool-cases, Option-cases,
}
use nfsrods.Backend.{FilePath}
use nfsrods.Fh.Handles.{Handle}
use nfsrods.FdCache.Table.{Cache, Entry, Kind, Result, Sys, fd_entries, idx_by_fd, idx_by_fh}
use nfsrods.FdCache.Calls.{
  open_new, same_object, fd_open, fd_close, fd_sync, sweep_one, sweep, Round, inactive_round,
  inactive_rounds, fd_cache_close_inactive, is_pending, is_inactive,
}
use nfsrods.FdCache.Counts.{Counted, set-Counted, fd_cache_del-Counted, fd_cache_add-Counted}

-- The counters, the array and nothing else matter.
same-Counted :
    (c : Cache) (verifier : List ℕ) → Counted c → Counted (record c { verifier = verifier })
same-Counted c verifier k = record {
  size = k.size;
  readers_count = k.readers_count;
  writers_count = k.writers_count;
  idle = k.idle;
}

closed-Counted : (c : Cache) (fds : List ℕ) → Counted c → Counted (record c { closed = fds })
closed-Counted c fds k = record {
  size = k.size;
  readers_count = k.readers_count;
  writers_count = k.writers_count;
  idle = k.idle;
}

open_new-Counted :
    (sys : Sys) (c : Cache) (path : FilePath) (fh : Handle) (kind : Kind) (caching : Bool)
    → 0 < sys.now
    → Counted c
    → Counted (open_new sys c path fh kind caching).0
unfolding open_new
open_new-Counted sys c path fh kind caching clock k = by_result (sys.open_file path kind) refl
  where
    by_result :
        (r : Result) → sys.open_file path kind ≡ r → Counted (open_new sys c path fh kind caching).0
    by_result (Result.failed errno) e = rw (e, open_new) k
    by_result (Result.opened fd) e =
        rw (e, open_new)
          (elim (Bool-cases (same_object fh (sys.fstat fd))) [
            | inl same ↦ rw same (elim (Bool-cases caching) [
              | inl on ↦ rw on (fd_cache_add-Counted sys c fd fh kind clock k)
              | inr off ↦ rw off k
            ])
            | inr other ↦ rw other (closed-Counted c (fd ∷ c.closed) k)
          ])

-- After an open, the counters are still the numbers of open descriptors for reading and for
-- writing, if they were before and the clock is not 0.
pub fd_open-Counted :
    (sys : Sys) (c : Cache) (path : FilePath) (fh : Handle) (kind : Kind) (caching : Bool)
    → 0 < sys.now
    → Counted c
    → Counted (fd_open sys c path fh kind caching).0
unfolding fd_open
fd_open-Counted sys c path fh kind caching clock k = elim (Option-cases (idx_by_fh c fh kind)) [
  | inl new ↦ rw (new, fd_open) (open_new-Counted sys c path fh kind caching clock k)
  | inr (idx, known) ↦
      rw (known, fd_open)
        (elim (Option-cases (get_elem? c.entries idx)) [
          | inl missing ↦ rw missing k
          | inr (e, at) ↦ rw at (elim (Option-cases e.fd) [
            | inl pending ↦ rw pending (fd_cache_del-Counted sys c idx false k)
            | inr (n, live) ↦ rw live k
          ])
        ])
]

touch-Counted :
    (now : ℕ) (c : Cache) (idx : ℕ) (e : Entry)
    → 0 < now
    → get_elem? c.entries idx ≡ some e
    → Counted c
    → Counted (record c { entries = set c.entries idx (record e { use_time = now }) })
touch-Counted now c idx e clock at k =
    let v = record e { use_time = now } in
    set-Counted c idx e at k (record c { entries = set c.entries idx v }) v refl refl refl
      (λ z. absurd (omega arith))

-- After a close, the counters are still the numbers of open descriptors for reading and for
-- writing, if they were before and the clock is not 0.
pub fd_close-Counted :
    (sys : Sys) (c : Cache) (fd : ℕ) (kind : Kind) (really : Bool)
    → 0 < sys.now
    → Counted c
    → Counted (fd_close sys c fd kind really).0
unfolding fd_close
fd_close-Counted sys c fd kind really clock k = elim (Option-cases (idx_by_fd c fd kind)) [
  | inl uncached ↦ rw (uncached, fd_close) (closed-Counted c (fd ∷ c.closed) k)
  | inr (idx, known) ↦
      rw (known, fd_close)
        (elim (Option-cases (get_elem? c.entries idx)) [
          | inl missing ↦ rw missing k
          | inr (e, at) ↦
              let touched = touch-Counted sys.now c idx e clock at k in
              rw at (elim (Bool-cases really) [
                | inl on ↦ rw on (fd_cache_del-Counted sys _ idx false touched)
                | inr off ↦ rw off touched
              ])
        ])
]

-- After a sync, the counters are still the numbers of open descriptors.
pub fd_sync-Counted :
    (sys : Sys) (c : Cache) (fh : Handle) → Counted c → Counted (fd_sync sys c fh).0
unfolding fd_sync
fd_sync-Counted sys c fh k = elim (Option-cases (idx_by_fh c fh Kind.write)) [
  | inl uncached ↦ rw (uncached, fd_sync) k
  | inr (idx, known) ↦ rw (known, fd_sync) (fd_cache_del-Counted sys c idx false k)
]

pub sweep_one-Counted :
    (sys : Sys) (test : Entry → Bool) (keep : Bool) (c : Cache) (i : ℕ)
    → Counted c
    → Counted (sweep_one sys test keep c i)
unfolding sweep_one
sweep_one-Counted sys test keep c i k = elim (Option-cases (get_elem? c.entries i)) [
  | inl missing ↦ rw (missing, sweep_one) k
  | inr (e, at) ↦
      rw (at, sweep_one)
        (elim (Bool-cases (test e)) [
          | inl on ↦ rw on (fd_cache_del-Counted sys c i keep k)
          | inr off ↦ rw off k
        ])
]

pub sweep-Counted :
    (sys : Sys) (test : Entry → Bool) (keep : Bool) (n i : ℕ) (c : Cache)
    → Counted c
    → Counted (sweep sys test keep n i c)
unfolding sweep
sweep-Counted sys test keep zero i c k = k
sweep-Counted sys test keep (suc n) i c k =
    sweep-Counted sys test keep n (suc i) (sweep_one sys test keep c i)
      (sweep_one-Counted sys test keep c i k)

inactive_rounds-Counted :
    (sys : Sys) (n i : ℕ) (r : Round) → Counted r.cache → Counted (inactive_rounds sys n i r).cache
unfolding inactive_rounds inactive_round
inactive_rounds-Counted sys zero i r k = k
inactive_rounds-Counted sys (suc n) i r k =
    inactive_rounds-Counted sys n (suc i) (inactive_round sys r i)
      (sweep_one-Counted sys (is_inactive sys.now) true r.cache i k)

-- After the inactive descriptors are closed, the counters are still the numbers of open
-- descriptors.
pub fd_cache_close_inactive-Counted :
    (sys : Sys) (c : Cache) → Counted c → Counted (fd_cache_close_inactive sys c)
unfolding fd_cache_close_inactive
fd_cache_close_inactive-Counted sys c k =
    let r =
      inactive_rounds sys fd_entries 0
        (record { cache = c; found_error = false; active_error = false }) in
    let first =
      inactive_rounds-Counted sys fd_entries 0
        (record { cache = c; found_error = false; active_error = false }) k in
    let swept = sweep-Counted sys is_pending false fd_entries 0 r.cache first in
    elim (Bool-cases (r.found_error && not r.active_error)) [
      | inl expired ↦ rw (expired, fd_cache_close_inactive) (same-Counted _ _ swept)
      | inr active ↦ rw (active, fd_cache_close_inactive) first
    ]
