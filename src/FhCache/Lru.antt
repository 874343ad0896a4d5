-- ===== src/FhCache/Lru.antt =====
-- Which slot a new entry takes: `fh_cache_lru` of src/fh_cache.c.
use nfsrods.Prelude.{
  ℕ, zero, suc, ◌+◌, ◌≤◌, ◌≡◌, refl, ◌⊎◌, inl, inr, true, false, ltb, List, [], ◌∷◌, Option, some,
  get_elem?, arith, Bool-cases,
}
use nfsrods.FhCache.Table.{Entry, Slot, is_last, lru_scan}

-- Every entry but the one that must be kept was last used at `b` or later; slots count from `i`.
abbrev pub NoneOlder : Option ℕ → ℕ → List Entry → ℕ → Type 0
NoneOlder last i [] b = Unit {0}
NoneOlder last i (e ∷ es) b =
    ((is_last last i ≡ true) ⊎ (b ≤ e.use_time)) × NoneOlder last (i + 1) es b

-- Slot `k` is there, is not the one that must be kept, and was last used at `b`.
abbrev pub UsedAt : Option ℕ → ℕ → List Entry → ℕ → ℕ → Type 0
UsedAt last i [] k b = ⊥
UsedAt last i (e ∷ es) k b =
    ((k ≡ i) × (e.use_time ≡ b) × (is_last last i ≡ false)) ⊎ UsedAt last (i + 1) es k b

pub NoneOlder-get :
    (last : Option ℕ) (i : ℕ) (es : List Entry) (b j : ℕ) (e : Entry)
    → NoneOlder last i es b
    → get_elem? es j ≡ some e
    → is_last last (i + j) ≡ false
    → b ≤ e.use_time
NoneOlder-get last i [] b j e h at other = absurd (ground arith)
NoneOlder-get last i (x ∷ es) b zero e h at other =
    let p : i + 0 ≡ i = omega arith in let other' = rw p at other in ground arith
NoneOlder-get last i (x ∷ es) b (suc j) e h at other =
    let p : i + suc j ≡ (i + 1) + j = omega arith in
    NoneOlder-get last (i + 1) es b j e h.1 at (rw p at other)

pub UsedAt-get :
    (last : Option ℕ) (i : ℕ) (es : List Entry) (k b : ℕ)
    → UsedAt last i es k b
    → (j : ℕ) × (e : Entry) × (k ≡ i + j)
      × (get_elem? es j ≡ some e)
      × (e.use_time ≡ b)
      × (is_last last k ≡ false)
UsedAt-get last i [] k b h = absurd h
UsedAt-get last i (e ∷ es) k b (inl (p, u, l)) = (0, e, omega arith, refl, u, rw p l)
UsedAt-get last i (e ∷ es) k b (inr h) =
    let (j, x, p, at, u, l) = UsedAt-get last (i + 1) es k b h in (suc j, x, omega arith, at, u, l)

pub scan_empty :
    (last : Option ℕ) (i best best_idx : ℕ) (es : List Entry) (k : ℕ)
    → lru_scan last i best best_idx es ≡ Slot.empty k
    → UsedAt last i es k 0
unfolding lru_scan
scan_empty last i best best_idx [] k h = absurd (ground arith)
scan_empty last i best best_idx (e ∷ es) k h =
    ground
      (arith, scan_empty last (i + 1) e.use_time i es k, scan_empty last (i + 1) best best_idx es k)

pub scan_oldest :
    (last : Option ℕ) (i best best_idx : ℕ) (es : List Entry) (k : ℕ)
    → lru_scan last i best best_idx es ≡ Slot.oldest k
    → (b : ℕ) × (b ≤ best)
      × NoneOlder last i es b
      × (((k ≡ best_idx) × (b ≡ best)) ⊎ UsedAt last i es k b)
unfolding lru_scan
scan_oldest last i best best_idx [] k h = (best, omega arith, tt, ground arith)
scan_oldest last i best best_idx (e ∷ es) k h = elim (Bool-cases (is_last last i)) [
  | inl kept ↦
      let (b, le, older, at) = scan_oldest last (i + 1) best best_idx es k (ground arith) in
      (b, le, (inl kept, older), ground arith)
  | inr other ↦ elim (Bool-cases (ltb e.use_time best)) [
    | inl better ↦
        let (b, le, older, at) = scan_oldest last (i + 1) e.use_time i es k (ground arith) in
        (b, ground arith, (inr le, older), ground arith)
    | inr worse ↦
        let (b, le, older, at) = scan_oldest last (i + 1) best best_idx es k (ground arith) in
        (b, le, (inr (ground arith), older), ground arith)
  ]
]
