-- ===== src/FhCache/Table.antt =====
-- src/fh_cache.c: the array of the file handle cache. An operation takes the state of the file's
-- static variables and returns it changed.
use nfsrods.Prelude.{
  ℕ, zero, suc, ◌+◌, ◌-◌, ◌%◌, Bool, true, false, not, ◌&&◌, ◌==◌, ltb, if◌then◌else◌, List, [],
  ◌∷◌, Option, none, some, set, get_elem?, replicate,
}
use nfsrods.Backend.{FilePath, FileSys, StatCache, u32_mod}

-- `CACHE_ENTRIES`, `UINT_MAX`.
abbrev pub cache_entries : ℕ
cache_entries = 4096

abbrev pub uint_max : ℕ
uint_max = u32_mod - 1

-- `unfs3_cache_t`
pub record Entry : Type 0 where
  pub dev : ℕ
  pub ino : ℕ
  pub path : FilePath
  pub use_time : ℕ

abbrev pub blank : Entry
blank = record { dev = 0; ino = 0; path = []; use_time = 0 }

-- `fh_cache`, `fh_cache_max`, `fh_cache_use`, `fh_cache_hit`, `fh_cache_time`, `fh_last_entry` (-1 is
-- `none`).
pub record Cache : Type 0 where
  pub entries : List Entry
  pub max : ℕ
  pub uses : ℕ
  pub hits : ℕ
  pub time : ℕ
  pub last : Option ℕ

-- `fh_cache_init` over the variables' initial values.
unfoldable pub init : Cache
init = record {
  entries = replicate cache_entries blank;
  max = 0;
  uses = 0;
  hits = 0;
  time = 0;
  last = none;
}

-- `++fh_cache_time`, an unsigned int.
abbrev pub next_time : Cache → ℕ
next_time c = (c.time + 1) % u32_mod

abbrev pub is_last : Option ℕ → ℕ → Bool
is_last none i = false
is_last (some j) i = i == j

-- What the loop of `fh_cache_lru` finds: an empty slot, or the best slot when it ends.
pub data Slot : Type 0 where
  empty : ℕ → Slot
  oldest : ℕ → Slot

unfoldable pub lru_scan : Option ℕ → ℕ → ℕ → ℕ → List Entry → Slot
lru_scan last i best best_idx [] = Slot.oldest best_idx
lru_scan last i best best_idx (e ∷ es) =
    let skip = is_last last i in
    let better = not skip && ltb e.use_time best in
    let rest =
      lru_scan last (i + 1) (if better then e.use_time else best) (if better then i else best_idx)
        es in
    if not skip && e.use_time == 0 then Slot.empty i else rest

unfoldable pub lru : Cache → ℕ × Cache
unfolding lru_scan
lru c =
    if ltb c.max (cache_entries - 1)
    then (c.max, record c { max = c.max + 1 })
    else elim (lru_scan c.last 0 uint_max 0 c.entries) [
      | Slot.empty i ↦ (i, c)
      | Slot.oldest i ↦ (if i == 0 && is_last c.last 0 then 1 else i, c)
    ]

-- `fh_cache_inval`
unfoldable pub inval : Cache → ℕ → Cache
inval c idx = record c { entries = set c.entries idx blank }

abbrev pub has_key : ℕ → ℕ → Entry → Bool
has_key dev ino e = e.dev == dev && e.ino == ino

-- The loop of `fh_cache_index`: the first of the first `n` entries with this key.
unfoldable pub find : ℕ → ℕ → ℕ → List Entry → Option ℕ
find n dev ino [] = none
find zero dev ino (e ∷ es) = none
find (suc n) dev ino (e ∷ es) =
    let rest = find n dev ino es in
    if has_key dev ino e then some 0 else elim rest [ none ↦ none | some i ↦ some (suc i) ]

unfoldable pub index : Cache → ℕ → ℕ → Option ℕ
unfolding find
index c dev ino = find (c.max + 1) dev ino c.entries

-- The slot that `fh_cache_add` writes, and the cache with the slot taken.
unfoldable pub slot_for : Cache → ℕ → ℕ → ℕ × Cache
unfolding index lru
slot_for c dev ino = elim (index c dev ino) [ none ↦ lru c | some i ↦ (i, c) ]

abbrev pub write : ℕ × Cache → ℕ → ℕ → FilePath → Cache
write (i, c) dev ino path =
    let now = next_time c in
    record c {
      entries = set c.entries i (record { dev = dev; ino = ino; path = path; use_time = now });
      time = now;
    }

-- `fh_cache_add`; what it returns is the path it was given, as stored.
unfoldable pub add : Cache → ℕ → ℕ → FilePath → Cache
unfolding slot_for
add c dev ino path = write (slot_for c dev ino) dev ino path

-- `fh_cache_lookup`, with the stat cache that it leaves.
pub record Looked : Type 0 where
  pub result : Option FilePath
  pub cache : Cache
  pub stat_cache : StatCache

abbrev pub touch : Cache → ℕ → Entry → Cache
touch c i e =
    let now = next_time c in
    record c { entries = set c.entries i (record e { use_time = now }); time = now; last = some i }

unfoldable pub lookup_at : FileSys → Cache → StatCache → ℕ → ℕ → ℕ → Entry → Looked
unfolding inval
lookup_at fs c sc dev ino i e = elim (fs.lstat e.path) [
  | none ↦ record { result = none; cache = inval c i; stat_cache = sc }
  | some buf ↦
      if buf.dev == dev && buf.ino == ino
      then record {
        result = some e.path;
        cache = touch c i e;
        stat_cache = record { valid = true; stat = buf };
      }
      else record { result = none; cache = inval c i; stat_cache = sc }
]

-- An index that `fh_cache_index` returns is one of the array's, so the third case does not occur.
unfoldable pub lookup : FileSys → Cache → StatCache → ℕ → ℕ → Looked
unfolding index lookup_at
lookup fs c sc dev ino = elim (index c dev ino) [
  | none ↦ record { result = none; cache = c; stat_cache = sc }
  | some i ↦ elim (get_elem? c.entries i) [
    | none ↦ record { result = none; cache = c; stat_cache = sc }
    | some e ↦ lookup_at fs c sc dev ino i e
  ]
]
