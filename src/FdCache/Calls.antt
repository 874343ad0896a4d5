-- ===== src/FdCache/Calls.antt =====
-- src/fd_cache.c: the functions that the procedures, the mount service and the main loop call.
use nfsrods.Prelude.{
  ℕ, zero, suc, ◌+◌, Bool, true, false, not, ◌&&◌, ◌||◌, ◌==◌, ltb, if◌then◌else◌, ◌∷◌, Option,
  none, some, set, get_elem?,
}
use nfsrods.Errno.{eio, eloop}
use nfsrods.Backend.{FilePath, Stat}
use nfsrods.Fh.Handles.{Handle, get_gen}
use nfsrods.FdCache.Table.{
  Cache, Entry, Kind, Result, Sys, fd_entries, inactive_timeout, pending_error_timeout, idx_by_fd,
  idx_by_fh, fd_cache_del, fd_cache_add, sync_ok, in_use, is_open, regenerate_write_verifier,
}

-- The file is still the one that the handle was made for.
abbrev pub same_object : Handle → Option Stat → Bool
same_object fh none = false
same_object fh (some buf) = fh.dev == buf.dev && fh.ino == buf.ino && fh.gen == get_gen buf

-- The part of `fd_open` that opens a file which is not in the cache.
unfoldable pub open_new : Sys → Cache → FilePath → Handle → Kind → Bool → Cache × Result
unfolding get_gen
open_new sys c path fh kind allow_caching = elim (sys.open_file path kind) [
  | Result.failed errno ↦ (c, Result.failed errno)
  | Result.opened fd ↦
      if not (same_object fh (sys.fstat fd))
      then (record c { closed = fd ∷ c.closed }, Result.failed eloop)
      else (if allow_caching then fd_cache_add sys c fd fh kind else c, Result.opened fd)
]

unfoldable pub fd_open : Sys → Cache → FilePath → Handle → Kind → Bool → Cache × Result
unfolding open_new
fd_open sys c path fh kind allow_caching = elim (idx_by_fh c fh kind) [
  | none ↦ open_new sys c path fh kind allow_caching
  | some idx ↦ elim (get_elem? c.entries idx) [
    | none ↦ (c, Result.failed eio)
    | some e ↦ elim e.fd [
      | none ↦ ((fd_cache_del sys c idx false).0, Result.failed eio)
      | some fd ↦ (c, Result.opened fd)
    ]
  ]
]

-- `fd_close`; the result is whether it returns 0.
unfoldable pub fd_close : Sys → Cache → ℕ → Kind → Bool → Cache × Bool
fd_close sys c fd kind really_close = elim (idx_by_fd c fd kind) [
  | some idx ↦ elim (get_elem? c.entries idx) [
    | none ↦ (c, false)
    | some e ↦
        let c' = record c { entries = set c.entries idx (record e { use_time = sys.now }) } in
        if really_close then fd_cache_del sys c' idx false else (c', true)
  ]
  | none ↦ (record c { closed = fd ∷ c.closed }, sync_ok sys kind fd && sys.close_ok fd)
]

unfoldable pub fd_sync : Sys → Cache → Handle → Cache × Bool
fd_sync sys c fh = elim (idx_by_fh c fh Kind.write) [
  | some idx ↦ fd_cache_del sys c idx false
  | none ↦ (c, true)
]

-- The body of a loop over the array that deletes the entries which satisfy a test.
unfoldable pub sweep_one : Sys → (Entry → Bool) → Bool → Cache → ℕ → Cache
sweep_one sys test keep_on_error c i = elim (get_elem? c.entries i) [
  | none ↦ c
  | some e ↦ if test e then (fd_cache_del sys c i keep_on_error).0 else c
]

-- `for (i = 0; i < FD_ENTRIES; i++)` with that body, from slot `i` on, for `n` more rounds.
unfoldable pub sweep : Sys → (Entry → Bool) → Bool → ℕ → ℕ → Cache → Cache
unfolding sweep_one
sweep sys test keep_on_error zero i c = c
sweep sys test keep_on_error (suc n) i c =
    sweep sys test keep_on_error n (suc i) (sweep_one sys test keep_on_error c i)

unfoldable pub fd_cache_purge : Sys → Cache → Cache
unfolding sweep
fd_cache_purge sys c = sweep sys in_use true fd_entries 0 c

abbrev pub is_inactive : ℕ → Entry → Bool
is_inactive now e = in_use e && is_open e && ltb (e.use_time + inactive_timeout) now

abbrev pub is_pending : Entry → Bool
is_pending e = in_use e && not (is_open e)

abbrev pub is_recent : ℕ → Entry → Bool
is_recent now e = is_pending e && ltb now (e.use_time + pending_error_timeout)

-- What the first loop of `fd_cache_close_inactive` has reached: the cache, `found_error`, `active_error`.
pub record Round : Type 0 where
  pub cache : Cache
  pub found_error : Bool
  pub active_error : Bool

abbrev pub flag : (Entry → Bool) → Option Entry → Bool
flag test none = false
flag test (some e) = test e

unfoldable pub inactive_round : Sys → Round → ℕ → Round
unfolding sweep_one
inactive_round sys r i =
    let c = sweep_one sys (is_inactive sys.now) true r.cache i in
    record {
      cache = c;
      found_error = r.found_error || flag is_pending (get_elem? c.entries i);
      active_error = r.active_error || flag (is_recent sys.now) (get_elem? c.entries i);
    }

unfoldable pub inactive_rounds : Sys → ℕ → ℕ → Round → Round
unfolding inactive_round
inactive_rounds sys zero i r = r
inactive_rounds sys (suc n) i r = inactive_rounds sys n (suc i) (inactive_round sys r i)

unfoldable pub fd_cache_close_inactive : Sys → Cache → Cache
unfolding sweep inactive_rounds regenerate_write_verifier
fd_cache_close_inactive sys c =
    let start : Round = record { cache = c; found_error = false; active_error = false } in
    let r = inactive_rounds sys fd_entries 0 start in
    let swept = sweep sys is_pending false fd_entries 0 r.cache in
    if r.found_error && not r.active_error
    then record swept { verifier = regenerate_write_verifier sys fd_entries swept.verifier }
    else r.cache
