-- ===== src/FhCache/Keep.antt =====
-- src/fh_cache.c: the invariant of the array over its operations, and the entry returned last.
use nfsrods.Prelude.{
  ℕ, zero, suc, ◌+◌, ◌-◌, ◌≤◌, ◌<◌, ◌≡◌, ◌≢◌, refl, ap, ◌∙◌, inl, inr, Bool, true, false, not, ◌||◌,
  ◌==◌, ltb, Option, none, some, get_elem?, length, replicate, length-set, length-replicate,
  get_elem?-set_ne, lt_of_get_elem?, arith, Bool-cases, Option-cases,
}
use native.Mathlib.Decide.{dec_lt}
use nfsrods.Backend.{FilePath, FileSys, StatCache}
use nfsrods.FhCache.Table.{
  Entry, Cache, blank, cache_entries, next_time, is_last, has_key, lru, init, inval, index,
  slot_for, write, add, touch, lookup,
}
use nfsrods.FhCache.Find.{find-some, get_elem?-set_cases}
use nfsrods.FhCache.Invariant.{WellFormed, lru-Victim}

-- Not the device and inode of the invalid handle.
abbrev pub is_key : ℕ → ℕ → Bool
is_key dev ino = not (dev == 0) || not (ino == 0)

-- What `slot_for` returns: a slot inside the array, and the cache with at most `max` advanced.
pub record Placed (c : Cache) (i : ℕ) (d : Cache) : Type 0 where
  pub inside : i < cache_entries
  pub searched : i ≤ c.max
  pub same_entries : d.entries ≡ c.entries
  pub same_last : d.last ≡ c.last
  pub same_time : d.time ≡ c.time
  pub grows : c.max ≤ d.max
  pub by_one : d.max ≤ c.max + 1
  pub within : d.max < cache_entries
  pub used : d.max < cache_entries - 1 → i < d.max

pub get_elem?-replicate : (n i : ℕ) (x e : Entry) → get_elem? (replicate n x) i ≡ some e → e ≡ x
get_elem?-replicate zero i x e h = absurd (ground arith)
get_elem?-replicate (suc n) zero x e h = ground arith
get_elem?-replicate (suc n) (suc i) x e h = get_elem?-replicate n i x e h

pub blank_no_key :
    (dev ino : ℕ) (e : Entry) → is_key dev ino ≡ true → has_key dev ino e ≡ true → e ≢ blank
blank_no_key dev ino e key hit p = ground arith

module _ (c : Cache) (wf : WellFormed c) where
  index_used :
      (dev ino i : ℕ)
      → is_key dev ino ≡ true
      → index c dev ino ≡ some i
      → (e : Entry) × (get_elem? c.entries i ≡ some e)
        × (has_key dev ino e ≡ true)
        × (i ≤ c.max)
        × (c.max < cache_entries - 1 → i < c.max)
  unfolding index
  index_used dev ino i key h =
      let (e, at, lt, inside, hit, path) = find-some dev ino (c.max + 1) c.entries i h in
      (
        e,
        at,
        hit,
        omega arith,
        λ room. elim (dec_lt i c.max) [
          | yes below ↦ below
          | no above ↦ absurd (blank_no_key dev ino e key hit (wf.fresh i e room (omega arith) at))
        ],
      )

  lru-Placed_full : c.max ≡ cache_entries - 1 → Placed c (lru c).0 (lru c).1
  lru-Placed_full full =
      let (v, same) = lru-Victim c wf full in
      ground (arith, lt_of_get_elem? c.entries (lru c).0 v.at, wf.size)

  lru-Placed : Placed c (lru c).0 (lru c).1
  unfolding lru
  lru-Placed = elim (Bool-cases (ltb c.max (cache_entries - 1))) [
    | inl room ↦ ground arith
    | inr full ↦ lru-Placed_full (ground (arith, wf.within))
  ]

  pub slot_for-Placed :
      (dev ino : ℕ) → is_key dev ino ≡ true → Placed c (slot_for c dev ino).0 (slot_for c dev ino).1
  unfolding slot_for
  slot_for-Placed dev ino key = elim (Option-cases (index c dev ino)) [
    | inl missing ↦ rw (missing, slot_for) lru-Placed
    | inr (i, found) ↦
        let (e, at, hit, le, used) = index_used dev ino i key found in
        rw (found, slot_for)
          (record {
            inside = omega (arith, lt_of_get_elem? c.entries i at, wf.size);
            searched = le;
            same_entries = refl;
            same_last = refl;
            same_time = refl;
            grows = omega arith;
            by_one = omega arith;
            within = wf.within;
            used = used;
          })
  ]

-- A write into such a slot keeps the array well-formed.
write-WellFormed :
    (c d : Cache) (i dev ino : ℕ) (path : FilePath)
    → WellFormed c
    → Placed c i d
    → WellFormed (write (i, d) dev ino path)
write-WellFormed c d i dev ino path wf p = record {
  size = omega (arith, length-set d.entries i new, ap length p.same_entries, wf.size);
  within = p.within;
  fresh = λ j e room le at. elim (get_elem?-set_cases d.entries i j new e at) [
    | inl (q, _) ↦ absurd (omega (arith, p.used room))
    | inr (_, at') ↦ wf.fresh j e (omega (arith, p.grows)) (omega (arith, p.grows)) (ground arith)
  ];
  kept = λ j e. ground (arith, wf.kept j);
  kept_used = λ j e room. ground (arith, wf.kept_used j);
  times = λ j e at. elim (get_elem?-set_cases d.entries i j new e at) [
    | inl (_, q) ↦ ground arith
    | inr (_, at') ↦ wf.times j e (ground arith)
  ];
}
  where
    new : Entry
    new = record { dev = dev; ino = ino; path = path; use_time = next_time d }

-- `fh_cache_add` keeps the cache well-formed.
pub add-WellFormed :
    (c : Cache) (dev ino : ℕ) (path : FilePath)
    → WellFormed c
    → is_key dev ino ≡ true
    → WellFormed (add c dev ino path)
unfolding add
add-WellFormed c dev ino path wf key =
    write-WellFormed c (slot_for c dev ino).1 (slot_for c dev ino).0 dev ino path wf
      (slot_for-Placed c wf dev ino key)

pub init-WellFormed : WellFormed init
unfolding init
init-WellFormed = record {
  size = length-replicate cache_entries blank;
  within = omega arith;
  fresh = λ i e room le at. get_elem?-replicate cache_entries i blank e at;
  kept = λ i e. absurd (ground arith);
  kept_used = λ i e room. absurd (ground arith);
  times = λ i e at. ground (arith, get_elem?-replicate cache_entries i blank e at);
}

-- Clearing an entry keeps the cache well-formed.
inval-WellFormed : (c : Cache) (i : ℕ) → WellFormed c → WellFormed (inval c i)
unfolding inval
inval-WellFormed c i wf = record {
  size = omega (arith, length-set c.entries i blank, wf.size);
  within = wf.within;
  fresh = λ j e room le at. elim (get_elem?-set_cases c.entries i j blank e at) [
    | inl (_, q) ↦ q
    | inr (_, at') ↦ wf.fresh j e room le at'
  ];
  kept = wf.kept;
  kept_used = wf.kept_used;
  times = λ j e at. elim (get_elem?-set_cases c.entries i j blank e at) [
    | inl (_, q) ↦ ground arith
    | inr (_, at') ↦ wf.times j e at'
  ];
}

touch-WellFormed :
    (c : Cache) (i : ℕ) (e : Entry)
    → WellFormed c
    → get_elem? c.entries i ≡ some e
    → (c.max < cache_entries - 1 → i < c.max)
    → WellFormed (touch c i e)
touch-WellFormed c i e wf at used = record {
  size = omega (arith, length-set c.entries i new, wf.size);
  within = wf.within;
  fresh = λ j x room le at'. elim (get_elem?-set_cases c.entries i j new x at') [
    | inl (q, _) ↦ absurd (omega (arith, used room))
    | inr (_, at'') ↦ wf.fresh j x room le at''
  ];
  kept = λ j p. ground (arith, lt_of_get_elem? c.entries i at, wf.size);
  kept_used = λ j p room. ground (arith, used room);
  times = λ j x at'. elim (get_elem?-set_cases c.entries i j new x at') [
    | inl (_, q) ↦ ground arith
    | inr (_, at'') ↦ wf.times j x at''
  ];
}
  where
    new : Entry
    new = record e { use_time = next_time c }

-- `fh_cache_lookup` keeps the cache well-formed, whether it hits, misses, or clears a stale entry.
pub lookup-WellFormed :
    (fs : FileSys) (c : Cache) (sc : StatCache) (dev ino : ℕ)
    → WellFormed c
    → is_key dev ino ≡ true
    → WellFormed (lookup fs c sc dev ino).cache
unfolding lookup
lookup-WellFormed fs c sc dev ino wf key = elim (Option-cases (index c dev ino)) [
  | inl missing ↦ rw (missing, lookup) wf
  | inr (i, found) ↦
      let (e, at, hit, le, used) = index_used c wf dev ino i key found in
      rw (found, at, lookup)
        (ground (
          arith,
          inval-WellFormed c i wf,
          touch-WellFormed c i e wf at used,
          Option-cases (fs.lstat e.path),
        ))
]

lru_ne_last : (c : Cache) (i : ℕ) → WellFormed c → c.last ≡ some i → (lru c).0 ≢ i
unfolding lru
lru_ne_last c i wf last same = elim (Bool-cases (ltb c.max (cache_entries - 1))) [
  | inl room ↦ absurd (ground (arith, wf.kept_used i last))
  | inr full ↦
      let (v, _) = lru-Victim c wf (ground (arith, wf.within)) in
      absurd (last_not_last c.last i last (rw same at v.not_last))
]
  where
    last_not_last : (l : Option ℕ) (k : ℕ) → l ≡ some k → is_last l k ≡ false → ⊥
    last_not_last none k p q = absurd (ground arith)
    last_not_last (some j) k p q = absurd (ground arith)

slot_ne_last :
    (c : Cache) (dev ino i : ℕ) (e : Entry)
    → WellFormed c
    → is_key dev ino ≡ true
    → c.last ≡ some i
    → get_elem? c.entries i ≡ some e
    → has_key dev ino e ≡ false
    → (slot_for c dev ino).0 ≢ i
unfolding slot_for
slot_ne_last c dev ino i e wf key last at other = elim (Option-cases (index c dev ino)) [
  | inl missing ↦ rw (missing, slot_for) (lru_ne_last c i wf last)
  | inr (k, found) ↦
      let (x, there, hit, le, used) = index_used c wf dev ino k key found in
      rw (found, slot_for) (λ p. absurd (ground (arith, (rw p at there))))
]

-- In a well-formed cache, the entry that a lookup returned last survives an `fh_cache_add` of any
-- other object than its own and than the invalid one, also when the array is full and the clock has
-- wrapped.
pub add_keeps_last :
    (c : Cache) (dev ino : ℕ) (path : FilePath) (i : ℕ) (e : Entry)
    → WellFormed c
    → is_key dev ino ≡ true
    → c.last ≡ some i
    → get_elem? c.entries i ≡ some e
    → has_key dev ino e ≡ false
    → get_elem? (add c dev ino path).entries i ≡ some e
unfolding add
add_keeps_last c dev ino path i e wf key last at other =
    let p = slot_for-Placed c wf dev ino key in
    get_elem?-set_ne (slot_for c dev ino).1.entries _
      (slot_ne_last c dev ino i e wf key last at other)
    ∙ (rw p.same_entries at)
