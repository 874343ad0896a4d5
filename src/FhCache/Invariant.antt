-- ===== src/FhCache/Invariant.antt =====
-- What holds of the file handle cache between requests.
use nfsrods.Prelude.{
  ℕ, ◌+◌, ◌-◌, ◌≤◌, ◌<◌, ◌≡◌, refl, inl, inr, ◌⊎◌, true, false, ◌&&◌, ◌==◌, if◌then◌else◌, List, [],
  ◌∷◌, Option, none, some, get_elem?, length, get_elem?_of_lt, arith, Bool-cases,
}
use nfsrods.Backend.{u32_mod}
use nfsrods.FhCache.Table.{
  Entry, Cache, Slot, blank, cache_entries, uint_max, is_last, lru_scan, lru,
}
use nfsrods.FhCache.Lru.{NoneOlder, UsedAt, NoneOlder-get, UsedAt-get, scan_empty, scan_oldest}

pub record WellFormed (c : Cache) : Type 0 where
  pub size : length c.entries ≡ cache_entries
  pub within : c.max < cache_entries
  -- Until the array is full, the slots from `max` on were never used.
  pub fresh :
      (i : ℕ) (e : Entry)
      → c.max < cache_entries - 1
      → c.max ≤ i
      → get_elem? c.entries i ≡ some e
      → e ≡ blank
  pub kept : (i : ℕ) → c.last ≡ some i → i < cache_entries
  pub kept_used : (i : ℕ) → c.last ≡ some i → c.max < cache_entries - 1 → i < c.max
  pub times : (i : ℕ) (e : Entry) → get_elem? c.entries i ≡ some e → e.use_time < u32_mod

Slot-cases : (s : Slot) → ((k : ℕ) × (s ≡ Slot.empty k)) ⊎ ((k : ℕ) × (s ≡ Slot.oldest k))
Slot-cases (Slot.empty k) = inl (k, refl)
Slot-cases (Slot.oldest k) = inr (k, refl)

-- The slot holds an entry, is not the one to keep, and no other such slot was used before it.
pub record Victim (c : Cache) (k : ℕ) : Type 0 where
  pub entry : Entry
  pub at : get_elem? c.entries k ≡ some entry
  pub not_last : is_last c.last k ≡ false
  pub least :
      (j : ℕ) (x : Entry)
      → get_elem? c.entries j ≡ some x
      → is_last c.last j ≡ false
      → entry.use_time ≤ x.use_time

last_is_one_slot : (last : Option ℕ) → is_last last 0 ≡ true → is_last last 1 ≡ false
last_is_one_slot none h = refl
last_is_one_slot (some j) h = ground arith

module _ (c : Cache) (wf : WellFormed c) where
  used-Victim :
      (k b : ℕ) → NoneOlder c.last 0 c.entries b → UsedAt c.last 0 c.entries k b → Victim c k
  used-Victim k b older used =
      let (j, e, p, at, u, l) = UsedAt-get c.last 0 c.entries k b used in
      let q : k ≡ j = omega arith in
      record {
        entry = e;
        at = rw q at;
        not_last = l;
        least = λ i x there other.
            let r : 0 + i ≡ i = omega arith in
            let bound = NoneOlder-get c.last 0 c.entries b i x older there (rw r other) in
            omega arith;
      }

  NoneOlder-zero : (last : Option ℕ) (i : ℕ) (es : List Entry) → NoneOlder last i es 0
  NoneOlder-zero last i [] = tt
  NoneOlder-zero last i (e ∷ es) = (inr (omega arith), NoneOlder-zero last (i + 1) es)

  default-Victim :
      (k : ℕ)
      → NoneOlder c.last 0 c.entries uint_max
      → k < cache_entries
      → is_last c.last k ≡ false
      → Victim c k
  default-Victim k older small other =
      let (e, at) = get_elem?_of_lt c.entries k (omega (arith, wf.size)) in
      record {
        entry = e;
        at = at;
        not_last = other;
        least = λ i x there o.
            let r : 0 + i ≡ i = omega arith in
            let bound = NoneOlder-get c.last 0 c.entries uint_max i x older there (rw r o) in
            omega (arith, wf.times k e at);
      }

  -- A slot that is not the default of the scan is not the one to keep.
  oldest-Victim :
      (k : ℕ)
      → lru_scan c.last 0 uint_max 0 c.entries ≡ Slot.oldest k
      → Victim c (if k == 0 && is_last c.last 0 then 1 else k)
  oldest-Victim k e =
      let (b, le, older, chosen) = scan_oldest c.last 0 uint_max 0 c.entries k e in
      elim (Bool-cases (k == 0 && is_last c.last 0)) [
        | inl stomp ↦ rw stomp (elim chosen [
          | inl (p, q) ↦
              default-Victim 1 (rw q at older) (omega arith)
                (ground (arith, last_is_one_slot c.last))
          | inr used ↦ absurd (ground (arith, (used-Victim k b older used).not_last))
        ])
        | inr fine ↦ rw fine (elim chosen [
          | inl (p, q) ↦ default-Victim k (rw q at older) (omega arith) (ground arith)
          | inr used ↦ used-Victim k b older used
        ])
      ]

  -- In a well-formed cache whose array is full, `fh_cache_lru` chooses a slot that holds an entry and
  -- is not the one that a lookup returned last, such that no other such slot was used earlier; and
  -- it leaves the cache as it is.
  pub lru-Victim : c.max ≡ cache_entries - 1 → Victim c (lru c).0 × ((lru c).1 ≡ c)
  unfolding lru
  lru-Victim full = elim (Slot-cases (lru_scan c.last 0 uint_max 0 c.entries)) [
    | inl (k, e) ↦
        let v =
          used-Victim k 0 (NoneOlder-zero c.last 0 c.entries)
            (scan_empty c.last 0 uint_max 0 c.entries k e) in
        let chosen : lru c ≡ (k, c) = ground arith in rw chosen (v, refl)
    | inr (k, e) ↦
        let idx : ℕ = if k == 0 && is_last c.last 0 then 1 else k in
        let chosen : lru c ≡ (idx, c) = ground arith in rw chosen (oldest-Victim k e, refl)
  ]
