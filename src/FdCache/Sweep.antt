-- ===== src/FdCache/Sweep.antt =====
-- src/fd_cache.c: the state of the array during and after `fd_cache_purge`.
use nfsrods.Prelude.{
  ℕ, zero, suc, ◌+◌, ◌<◌, ◌≡◌, refl, ◌∙◌, inl, inr, ◌⊎◌, ◌≢◌, true, List, [], ◌∷◌, if◌then◌else◌,
  none, some, set, get_elem?, lt_of_get_elem?, arith, Bool-cases, Option-cases,
}
use nfsrods.FhCache.Find.{get_elem?-set_cases}
use nfsrods.FdCache.Table.{
  Cache, Entry, Kind, Sys, fd_entries, finish_del, del_at, fd_cache_del, in_use,
}
use nfsrods.FdCache.Calls.{sweep_one, sweep, fd_cache_purge}
use nfsrods.FdCache.Counts.{Counted, open_count}
use nfsrods.FdCache.Keep.{sweep_one-Counted, sweep-Counted}

-- The first `n` slots hold no open descriptor.
abbrev ClosedBelow : ℕ → Cache → Type 0
ClosedBelow n c = (j : ℕ) (e : Entry) → j < n → get_elem? c.entries j ≡ some e → e.fd ≡ none

-- Deleting an entry writes its slot only, and what it writes is closed.
del_at-closed :
    (sys : Sys) (c : Cache) (i : ℕ) (e : Entry)
    → (v : Entry) × ((del_at sys c i true e).0.entries ≡ set c.entries i v) × (v.fd ≡ none)
unfolding del_at finish_del
del_at-closed sys c i e = elim (Option-cases e.fd) [
  | inl pending ↦ (e, ground arith, pending)
  | inr (fd, live) ↦
      let ok = (del_at sys c i true e).1 in
      let v =
        if ok
        then (record e { fd = none; use_time = 0; dev = 0; ino = 0; gen = 0 })
        else (record e { fd = none }) in
      (v, ground arith, ground arith)
]

del-closed :
    (sys : Sys) (c : Cache) (i j : ℕ) (x : Entry)
    → get_elem? (fd_cache_del sys c i true).0.entries j ≡ some x
    → (x.fd ≡ none) ⊎ ((j ≢ i) × (get_elem? c.entries j ≡ some x))
unfolding fd_cache_del
del-closed sys c i j x there = elim (Option-cases (get_elem? c.entries i)) [
  | inl missing ↦ inr (ground arith)
  | inr (e, at) ↦
      let (v, same, closed) = del_at-closed sys c i e in
      elim (get_elem?-set_cases c.entries i j v x (ground (arith, same))) [
        | inl (_, q) ↦ inl (ground arith)
        | inr (ne, old) ↦ inr (ground arith)
      ]
]

-- The body of the loop closes its slot and opens none.
sweep_one-closed :
    (sys : Sys) (c : Cache) (i j : ℕ) (x : Entry)
    → Counted c
    → get_elem? (sweep_one sys in_use true c i).entries j ≡ some x
    → (x.fd ≡ none) ⊎ ((j ≢ i) × (get_elem? c.entries j ≡ some x))
unfolding sweep_one
sweep_one-closed sys c i j x k there = elim (Option-cases (get_elem? c.entries i)) [
  | inl missing ↦ inr (ground arith)
  | inr (e, at) ↦ elim (Bool-cases (in_use e)) [
    | inl used ↦ del-closed sys c i j x (ground arith)
    | inr free ↦ let empty = k.idle i e at (ground arith) in ground arith
  ]
]

sweep-ClosedBelow :
    (sys : Sys) (n i : ℕ) (c : Cache)
    → Counted c
    → ClosedBelow i c
    → ClosedBelow (i + n) (sweep sys in_use true n i c)
unfolding sweep
sweep-ClosedBelow sys zero i c k done j e lt at = done j e (omega arith) at
sweep-ClosedBelow sys (suc n) i c k done j e lt at =
    sweep-ClosedBelow sys n (suc i) (sweep_one sys in_use true c i)
      (sweep_one-Counted sys in_use true c i k)
      (λ m x less there. elim (sweep_one-closed sys c i m x k there) [
        | inl closed ↦ closed
        | inr (ne, old) ↦ done m x (omega arith) old
      ])
      j e (omega arith) at

-- After a purge of a cache whose counters are right, no slot of the array holds an open descriptor.
pub fd_cache_purge-closed :
    (sys : Sys) (c : Cache) (i : ℕ) (e : Entry)
    → Counted c
    → get_elem? (fd_cache_purge sys c).entries i ≡ some e
    → e.fd ≡ none
unfolding fd_cache_purge
fd_cache_purge-closed sys c i e k at =
    sweep-ClosedBelow sys fd_entries 0 c k (λ j x lt there. absurd (omega arith)) i e
      (omega (
        arith,
        lt_of_get_elem? (fd_cache_purge sys c).entries i at,
        (sweep-Counted sys in_use true fd_entries 0 c k).size,
      ))
      at

open_count-closed :
    (kind : Kind) (es : List Entry)
    → ((i : ℕ) (e : Entry) → get_elem? es i ≡ some e → e.fd ≡ none)
    → open_count kind es ≡ 0
unfolding open_count
open_count-closed kind [] h = refl
open_count-closed kind (e ∷ es) h =
    let first = h 0 e refl in ground (arith, open_count-closed kind es (λ i x at. h (suc i) x at))

-- After a purge of a cache whose counters are right, both counters are 0.
pub fd_cache_purge-idle :
    (sys : Sys) (c : Cache)
    → Counted c
    → ((fd_cache_purge sys c).readers ≡ 0) × ((fd_cache_purge sys c).writers ≡ 0)
unfolding fd_cache_purge
fd_cache_purge-idle sys c k =
    let after = sweep-Counted sys in_use true fd_entries 0 c k in
    let closed = λ (i : ℕ) (e : Entry) (at : get_elem? (fd_cache_purge sys c).entries i ≡ some e).
      fd_cache_purge-closed sys c i e k at in
    (
      after.readers_count ∙ open_count-closed Kind.read _ closed,
      after.writers_count ∙ open_count-closed Kind.write _ closed,
    )
