-- ===== src/Tests/Caches.antt =====
-- Runs of the model of src/fh_cache.c.
use nfsrods.Prelude.{
  ◌≡◌, refl, inl, true, false, [], ◌∷◌, none, some, bytes, replicate, length-replicate, get_elem?,
  arith,
}
use nfsrods.Fh.Handles.{NfsFh, fh_valid, nfh_valid, fh_hash}
use nfsrods.Fh.Resolve.{fh_decomp_raw, fh_rec, scan, visit}
use nfsrods.FhCache.Table.{
  Entry, Cache, init, find, index, lru, slot_for, add, lookup_at, lookup, blank, cache_entries,
}
use nfsrods.FhCache.Invariant.{WellFormed, Victim, lru-Victim}
use nfsrods.FhCache.Keep.{
  init-WellFormed, add-WellFormed, lookup-WellFormed, add_keeps_last, get_elem?-replicate,
}
use nfsrods.FhCache.Paths.{lookup-add}
use nfsrods.FhCache.Decomp.{World, search_object, store, resolve, fh_decomp}
use nfsrods.FhCache.Objects.{Resolves, fh_decomp-Resolves, fh_decomp_failure, fh_decomp-WellFormed}
use nfsrods.Tests.Samples.{small_fs, dir_stat, file_stat, file_a, handle_a, no_stat}

abbrev pub world : World
world = record { fs = small_fs; brute_force = false; mtab = none; junk = dir_stat }

abbrev pub wire_a : NfsFh
wire_a = record { data_len = 22; len = 1; obj = handle_a }

abbrev wire_short : NfsFh
wire_short = record { data_len = 3; len = 1; obj = handle_a }

abbrev one_entry : Cache
one_entry = record {
  entries = record { dev = 1; ino = 5; path = file_a; use_time = 1 } ∷ [];
  max = 0;
  uses = 0;
  hits = 0;
  time = 1;
  last = none;
}

abbrev pub no_entry : Cache
no_entry = record { entries = []; max = 0; uses = 0; hits = 0; time = 0; last = none }

-- The handle is found by the search, on a cache without entries.
fh_decomp-Resolves_example :
    Resolves small_fs 1 5 file_a (fh_decomp world (λ fsid. none) no_entry no_stat wire_a).stat_cache
unfolding fh_decomp nfh_valid resolve lookup index find search_object fh_decomp_raw fh_rec scan
    visit fh_hash store fh_valid
fh_decomp-Resolves_example =
    fh_decomp-Resolves world (λ fsid. none) no_entry no_stat wire_a file_a (λ p. refl) refl
      (λ e. ground arith) (inl refl) refl

fh_decomp_failure_example :
    (fh_decomp world (λ fsid. none) no_entry no_stat wire_short).stat_cache.valid ≡ false
unfolding fh_decomp nfh_valid
fh_decomp_failure_example = fh_decomp_failure world (λ fsid. none) no_entry no_stat wire_short refl

fh_decomp-WellFormed_example : WellFormed (fh_decomp world (λ fsid. none) init no_stat wire_a).cache
unfolding fh_valid
fh_decomp-WellFormed_example =
    fh_decomp-WellFormed world (λ fsid. none) init no_stat wire_a refl init-WellFormed

lookup-add_example :
    let r = lookup small_fs (add init 1 5 file_a) no_stat 1 5 in
    (r.result ≡ some file_a) × (r.stat_cache ≡ record { valid = true; stat = file_stat })
lookup-add_example =
    lookup-add init init-WellFormed 1 5 refl file_a small_fs no_stat file_stat refl refl refl

-- A second object is added after "/a".
with_a-WellFormed : WellFormed (add init 1 5 file_a)
with_a-WellFormed = add-WellFormed init 1 5 file_a init-WellFormed refl

-- The cache after a lookup of "/a": the entry in slot 0 is the last one returned.
abbrev looked_up : Cache
looked_up = (lookup small_fs (add init 1 5 file_a) no_stat 1 5).cache

abbrev kept : Entry
kept = record { dev = 1; ino = 5; path = file_a; use_time = 2 }

add_keeps_last_example : get_elem? (add looked_up 1 2 (bytes "/")).entries 0 ≡ some kept
unfolding lookup lookup_at index find slot_for lru add init
add_keeps_last_example =
    add_keeps_last looked_up 1 2 (bytes "/") 0 kept
      (lookup-WellFormed small_fs (add init 1 5 file_a) no_stat 1 5 with_a-WellFormed refl) refl
      refl refl refl

-- A full array of entries that were never used since.
abbrev full : Cache
full = record {
  entries = replicate cache_entries blank;
  max = 4095;
  uses = 0;
  hits = 0;
  time = 0;
  last = some 0;
}

full-WellFormed : WellFormed full
full-WellFormed = record {
  size = length-replicate cache_entries blank;
  within = omega arith;
  fresh = λ i e room le at. absurd (omega arith);
  kept = λ i e. ground arith;
  kept_used = λ i e room. absurd (omega arith);
  times = λ i e at. ground (arith, get_elem?-replicate cache_entries i blank e at);
}

lru-Victim_example : Victim full (lru full).0 × ((lru full).1 ≡ full)
lru-Victim_example = lru-Victim full full-WellFormed refl
