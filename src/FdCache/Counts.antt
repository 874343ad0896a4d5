-- ===== src/FdCache/Counts.antt =====
-- src/fd_cache.c: the statistics `fd_cache_readers` and `fd_cache_writers`, and the operations on one
-- slot.
use nfsrods.Prelude.{
  ℕ, zero, suc, ◌+◌, ◌≤◌, ◌<◌, ◌≡◌, refl, ap, inl, inr, Bool, true, not, ◌&&◌, ◌||◌, if◌then◌else◌,
  List, [], ◌∷◌, none, some, set, get_elem?, length, length-set, length-replicate, replicate, arith,
  Option-cases,
}
use nfsrods.Fh.Handles.{Handle}
use nfsrods.FhCache.Find.{get_elem?-set_cases}
use nfsrods.FdCache.Table.{
  Cache, Entry, Kind, Sys, init, fd_entries, kind_eq, unused, search_slot, is_unused,
  fd_cache_unused, count_one, sync_ok, del_at, fd_cache_del, fd_cache_add, is_open,
}

abbrev weight : Kind → Entry → ℕ
weight kind e = if is_open e && kind_eq e.kind kind then 1 else 0

-- How many descriptors of this kind are open.
unfoldable pub open_count : Kind → List Entry → ℕ
open_count kind [] = 0
open_count kind (e ∷ es) = weight kind e + open_count kind es

pub record Counted (c : Cache) : Type 0 where
  pub size : length c.entries ≡ fd_entries
  pub readers_count : c.readers ≡ open_count Kind.read c.entries
  pub writers_count : c.writers ≡ open_count Kind.write c.entries
  -- A slot that counts as empty holds no open descriptor.
  pub idle : (i : ℕ) (e : Entry) → get_elem? c.entries i ≡ some e → e.use_time ≡ 0 → e.fd ≡ none

open_count-set :
    (kind : Kind) (es : List Entry) (i : ℕ) (e v : Entry)
    → get_elem? es i ≡ some e
    → open_count kind (set es i v) + weight kind e ≡ open_count kind es + weight kind v
unfolding open_count
open_count-set kind [] i e v h = absurd (ground arith)
open_count-set kind (x ∷ es) zero e v h = ground arith
open_count-set kind (x ∷ es) (suc i) e v h = omega (arith, open_count-set kind es i e v h)

pub search_slot-some :
    (test : Entry → Bool) (es : List Entry) (i : ℕ)
    → search_slot test es ≡ some i
    → (e : Entry) × (get_elem? es i ≡ some e) × (test e ≡ true)
unfolding search_slot
search_slot-some test [] i h = absurd (ground arith)
search_slot-some test (e ∷ es) zero h = (e, refl, ground arith)
search_slot-some test (e ∷ es) (suc i) h = search_slot-some test es i (ground arith)

weight-le :
    (kind : Kind) (es : List Entry) (i : ℕ) (e : Entry)
    → get_elem? es i ≡ some e
    → weight kind e ≤ open_count kind es
unfolding open_count
weight-le kind [] i e h = absurd (ground arith)
weight-le kind (x ∷ es) zero e h = ground arith
weight-le kind (x ∷ es) (suc i) e h = omega (arith, weight-le kind es i e h)

module _ (c : Cache) (i : ℕ) (e : Entry) (at : get_elem? c.entries i ≡ some e) (k : Counted c) where
  -- The slot is overwritten, and the counters follow what it held and holds.
  pub set-Counted :
      (d : Cache) (v : Entry)
      → d.entries ≡ set c.entries i v
      → d.readers + weight Kind.read e ≡ c.readers + weight Kind.read v
      → d.writers + weight Kind.write e ≡ c.writers + weight Kind.write v
      → (v.use_time ≡ 0 → v.fd ≡ none)
      → Counted d
  set-Counted d v same r w idle = record {
    size = omega (arith, ap length same, length-set c.entries i v, k.size);
    readers_count =
        rw same (omega (arith, open_count-set Kind.read c.entries i e v at, k.readers_count));
    writers_count =
        rw same (omega (arith, open_count-set Kind.write c.entries i e v at, k.writers_count));
    idle = λ j x there zero_use. elim (get_elem?-set_cases c.entries i j v x (rw same at there)) [
      | inl (_, q) ↦ ground arith
      | inr (_, old) ↦ k.idle j x old zero_use
    ];
  }

  pub del_at-Counted : (sys : Sys) (keep : Bool) → Counted (del_at sys c i keep e).0
  unfolding del_at
  del_at-Counted sys keep = elim (Option-cases e.fd) [
    | inl pending ↦
        set-Counted (del_at sys c i keep e).0 (if not keep then unused e.kind else e) (ground arith)
          (ground arith) (ground arith) (λ z. ground arith)
    | inr (fd, open_fd) ↦
        let ok = sync_ok sys e.kind fd && sys.close_ok fd in
        let v = if ok || not keep then unused e.kind else (record e { fd = none }) in
        set-Counted (del_at sys c i keep e).0 v (ground arith)
          (ground (arith, k.readers_count, weight-le Kind.read c.entries i e at))
          (ground (arith, k.writers_count, weight-le Kind.write c.entries i e at))
          (λ z. ground arith)
  ]

pub fd_cache_del-Counted :
    (sys : Sys) (c : Cache) (i : ℕ) (keep : Bool)
    → Counted c
    → Counted (fd_cache_del sys c i keep).0
unfolding fd_cache_del
fd_cache_del-Counted sys c i keep k = elim (Option-cases (get_elem? c.entries i)) [
  | inl missing ↦ rw (missing, fd_cache_del) k
  | inr (e, at) ↦ rw (at, fd_cache_del) (del_at-Counted c i e at k sys keep)
]

pub fd_cache_add-Counted :
    (sys : Sys) (c : Cache) (fd : ℕ) (fh : Handle) (kind : Kind)
    → 0 < sys.now
    → Counted c
    → Counted (fd_cache_add sys c fd fh kind)
unfolding fd_cache_add fd_cache_unused
fd_cache_add-Counted sys c fd fh kind clock k = elim (Option-cases (fd_cache_unused c)) [
  | inl full ↦ rw (full, fd_cache_add) k
  | inr (i, free) ↦
      let (e, at, empty) = search_slot-some is_unused c.entries i free in
      let gone = k.idle i e at (ground arith) in
      let new : Entry = record {
        fd = some fd;
        kind = kind;
        use_time = sys.now;
        dev = fh.dev;
        ino = fh.ino;
        gen = fh.gen;
      } in
      rw (free, fd_cache_add)
        (set-Counted c i e at k (record (count_one kind c) { entries = set c.entries i new }) new
          refl (ground arith) (ground arith) (λ z. absurd (omega arith)))
]

replicate-closed : (kind : Kind) (n : ℕ) → 0 ≡ open_count kind (replicate n (unused Kind.read))
unfolding open_count
replicate-closed kind zero = refl
replicate-closed kind (suc n) = ground (arith, replicate-closed kind n)

replicate-idle :
    (n i : ℕ) (e : Entry) → get_elem? (replicate n (unused Kind.read)) i ≡ some e → e.fd ≡ none
replicate-idle zero i e h = absurd (ground arith)
replicate-idle (suc n) zero e h = ground arith
replicate-idle (suc n) (suc i) e h = replicate-idle n i e h

-- The empty cache has no open descriptor, and counts none.
pub init-Counted : Counted init
unfolding init
init-Counted = record {
  size = length-replicate fd_entries (unused Kind.read);
  readers_count = replicate-closed Kind.read fd_entries;
  writers_count = replicate-closed Kind.write fd_entries;
  idle = λ i e at empty. replicate-idle fd_entries i e at;
}
