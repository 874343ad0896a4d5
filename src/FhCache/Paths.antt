-- ===== src/FhCache/Paths.antt =====
-- The file handle cache as a map from device and inode to paths.
use nfsrods.Prelude.{
  ℕ, suc, ◌+◌, ◌-◌, ◌≤◌, ◌<◌, ◌≡◌, ◌≢◌, ap, ◌∙◌, inl, inr, true, false, ◌&&◌, ◌==◌, Option, some,
  set, get_elem?, length, arith, Bool-cases, Option-cases,
}
use native.Mathlib.Decide.{dec_lt}
use nfsrods.Backend.{FilePath, Stat, FileSys, StatCache}
use nfsrods.FhCache.Table.{
  Entry, Cache, cache_entries, next_time, has_key, index, slot_for, add, lookup,
}
use nfsrods.FhCache.Find.{
  find_of_path, path_of, path_of-set_found, path_of-set_new, path_of-set_ne, path_of-suc,
  get_elem?-set_cases,
}
use nfsrods.FhCache.Invariant.{WellFormed}
use nfsrods.FhCache.Keep.{is_key, slot_for-Placed, blank_no_key}

-- The path that the cache holds for an object.
pub cached : Cache → ℕ → ℕ → Option FilePath
cached c dev ino = path_of (c.max + 1) dev ino c.entries

same_key : (dev ino : ℕ) → (dev == dev && ino == ino) ≡ true
same_key dev ino = ground arith

module _ (c : Cache) (wf : WellFormed c) (dev ino : ℕ) (key : is_key dev ino ≡ true)
    (path : FilePath) where
  -- What is added is found, whatever slot it took.
  pub cached-add_self : cached (add c dev ino path) dev ino ≡ some path
  unfolding cached add index
  cached-add_self =
      let p = slot_for-Placed c wf dev ino key in
      elim (Option-cases (index c dev ino)) [
        | inl missing ↦
            path_of-set_new dev ino (c.max + 1) ((slot_for c dev ino).1.max + 1)
              (slot_for c dev ino).1.entries (slot_for c dev ino).0 _ (rw p.same_entries missing)
              (omega (arith, p.searched)) (omega (arith, p.grows))
              (omega (arith, p.inside, ap length p.same_entries, wf.size)) (same_key dev ino)
        | inr (k, found) ↦
            rw (found, slot_for)
              (path_of-set_found dev ino (c.max + 1) c.entries k
                (record { dev = dev; ino = ino; path = path; use_time = next_time c }) found
                (same_key dev ino))
      ]

  -- A slot that is searched only now was never used.
  unsearched :
      (e : Entry) (i d n : ℕ)
      → is_key d n ≡ true
      → c.max < cache_entries - 1
      → i ≤ c.max
      → (v : Entry) → get_elem? (set c.entries i v) (c.max + 1) ≡ some e
      → has_key d n e ≡ false
  unsearched e i d n key' room le v at = elim (get_elem?-set_cases c.entries i (c.max + 1) v e at) [
    | inl (q, _) ↦ absurd (omega arith)
    | inr (_, there) ↦ elim (Bool-cases (has_key d n e)) [
      | inl hit ↦
          absurd (blank_no_key d n e key' hit (wf.fresh (c.max + 1) e room (omega arith) there))
      | inr miss ↦ miss
    ]
  ]

  wider :
      (i m d n : ℕ) (v : Entry)
      → is_key d n ≡ true
      → i ≤ c.max
      → c.max ≤ m
      → m ≤ c.max + 1
      → m < cache_entries
      → path_of (m + 1) d n (set c.entries i v) ≡ path_of (c.max + 1) d n (set c.entries i v)
  wider i m d n v key' le grows by_one within = elim (dec_lt c.max m) [
    | yes more ↦
        let p : m + 1 ≡ suc (c.max + 1) = omega arith in
        rw p (
          path_of-suc d n (c.max + 1) (set c.entries i v)
            (λ e at. unsearched e i d n key' (omega arith) le v at))
    | no same ↦ let p : m ≡ c.max = omega arith in rw p
  ]

  -- When an object is added to a well-formed cache, every other object keeps the path that the cache
  -- has for it, unless its slot was the one taken; neither of the two is the invalid one.
  pub cached-add_ne :
      (d n : ℕ)
      → is_key d n ≡ true
      → (dev == d && ino == n) ≡ false
      → index c d n ≢ some (slot_for c dev ino).0
      → cached (add c dev ino path) d n ≡ cached c d n
  unfolding cached add index
  cached-add_ne d n key' other kept =
      let p = slot_for-Placed c wf dev ino key in
      rw p.same_entries (
        wider (slot_for c dev ino).0 (slot_for c dev ino).1.max d n _ key' p.searched p.grows
          p.by_one p.within
        ∙ path_of-set_ne d n (c.max + 1) c.entries (slot_for c dev ino).0 _ kept other)

  -- A lookup right after an object was added to a well-formed cache returns its path and fills the
  -- stat cache, if the path still leads to the object; the object is not the invalid one.
  pub lookup-add :
      (fs : FileSys) (sc : StatCache) (buf : Stat)
      → fs.lstat path ≡ some buf
      → buf.dev ≡ dev
      → buf.ino ≡ ino
      → let r = lookup fs (add c dev ino path) sc dev ino in
        (r.result ≡ some path) × (r.stat_cache ≡ record { valid = true; stat = buf })
  unfolding lookup index
  lookup-add fs sc buf read d i =
      let (k, e, found, at, same) =
        find_of_path dev ino ((add c dev ino path).max + 1) (add c dev ino path).entries path
          (unfold cached in cached-add_self) in
      ground arith
