-- ===== src/FhCache/Find.antt =====
-- The search of the array, and how a write changes what later searches see.
use nfsrods.Prelude.{
  ℕ, zero, suc, ◌≤◌, ◌<◌, ◌≡◌, ◌≢◌, refl, ap, ◌⊎◌, inl, inr, true, false, if◌then◌else◌, List, [],
  ◌∷◌, Option, none, some, set, get_elem?, length, arith, Option-cases,
}
use nfsrods.Backend.{FilePath}
use nfsrods.FhCache.Table.{Entry, has_key, find}

-- The path of the first entry with the key, among the first `n`.
pub path_of : ℕ → ℕ → ℕ → List Entry → Option FilePath
path_of n dev ino [] = none
path_of zero dev ino (e ∷ es) = none
path_of (suc n) dev ino (e ∷ es) =
    let rest = path_of n dev ino es in if has_key dev ino e then some e.path else rest

module _ (dev ino : ℕ) where
  -- What `find` returns is in range, and is an entry with the key and the path.
  pub find-some :
      (n : ℕ) (es : List Entry) (k : ℕ)
      → find n dev ino es ≡ some k
      → (e : Entry) × (get_elem? es k ≡ some e)
        × (k < n)
        × (k < length es)
        × (has_key dev ino e ≡ true)
        × (path_of n dev ino es ≡ some e.path)
  unfolding find path_of
  find-some n [] k h = absurd (ground arith)
  find-some zero (e ∷ es) k h = absurd (ground arith)
  find-some (suc n) (e ∷ es) zero h =
      (e, refl, omega arith, omega arith, ground arith, ground arith)
  find-some (suc n) (e ∷ es) (suc k) h =
      let (e', at, lt, inside, key, path) = find-some n es k (ground arith) in
      (e', at, omega arith, omega arith, key, ground arith)

  pub find-none : (n : ℕ) (es : List Entry) → find n dev ino es ≡ none → path_of n dev ino es ≡ none
  unfolding find path_of
  find-none n [] h = refl
  find-none zero (e ∷ es) h = refl
  find-none (suc n) (e ∷ es) h = ground (arith, find-none n es)

  pub find_of_path :
      (n : ℕ) (es : List Entry) (p : FilePath)
      → path_of n dev ino es ≡ some p
      → (k : ℕ) × (e : Entry) × (find n dev ino es ≡ some k)
        × (get_elem? es k ≡ some e)
        × (e.path ≡ p)
  find_of_path n es p h = elim (Option-cases (find n dev ino es)) [
    | inl e ↦ absurd (ground (arith, find-none n es e))
    | inr (k, e) ↦
        let (x, at, lt, inside, key, path) = find-some n es k e in (k, x, e, at, ground arith)
  ]

  -- A write over the entry that was found, with its key.
  pub path_of-set_found :
      (n : ℕ) (es : List Entry) (k : ℕ) (v : Entry)
      → find n dev ino es ≡ some k
      → has_key dev ino v ≡ true
      → path_of n dev ino (set es k v) ≡ some v.path
  unfolding find path_of
  path_of-set_found n [] k v h key = absurd (ground arith)
  path_of-set_found zero (e ∷ es) k v h key = absurd (ground arith)
  path_of-set_found (suc n) (e ∷ es) zero v h key = ground arith
  path_of-set_found (suc n) (e ∷ es) (suc k) v h key = ground (arith, path_of-set_found n es k v)

  -- A write of a key that was not there.
  pub path_of-set_new :
      (n m : ℕ) (es : List Entry) (k : ℕ) (v : Entry)
      → find n dev ino es ≡ none
      → k < n
      → n ≤ m
      → k < length es
      → has_key dev ino v ≡ true
      → path_of m dev ino (set es k v) ≡ some v.path
  unfolding find path_of
  path_of-set_new n m [] k v h lt le inside key = absurd (omega arith)
  path_of-set_new zero m (e ∷ es) k v h lt le inside key = absurd (omega arith)
  path_of-set_new (suc n) zero (e ∷ es) k v h lt le inside key = absurd (omega arith)
  path_of-set_new (suc n) (suc m) (e ∷ es) zero v h lt le inside key = ground arith
  path_of-set_new (suc n) (suc m) (e ∷ es) (suc k) v h lt le inside key =
      ground (arith, path_of-set_new n m es k v)

  -- A write of another key, elsewhere.
  pub path_of-set_ne :
      (n : ℕ) (es : List Entry) (k : ℕ) (v : Entry)
      → find n dev ino es ≢ some k
      → has_key dev ino v ≡ false
      → path_of n dev ino (set es k v) ≡ path_of n dev ino es
  unfolding find path_of
  path_of-set_ne n [] k v h key = refl
  path_of-set_ne zero (e ∷ es) zero v h key = refl
  path_of-set_ne zero (e ∷ es) (suc k) v h key = refl
  path_of-set_ne (suc n) (e ∷ es) zero v h key = ground arith
  path_of-set_ne (suc n) (e ∷ es) (suc k) v h key = ground (arith, path_of-set_ne n es k v)

  -- One more entry to search makes no difference if it has another key.
  pub path_of-suc :
      (n : ℕ) (es : List Entry)
      → ((e : Entry) → get_elem? es n ≡ some e → has_key dev ino e ≡ false)
      → path_of (suc n) dev ino es ≡ path_of n dev ino es
  unfolding path_of
  path_of-suc n [] h = refl
  path_of-suc zero (e ∷ []) h = ground (arith, h e)
  path_of-suc zero (e ∷ x ∷ es) h = ground (arith, h e)
  path_of-suc (suc n) (e ∷ es) h = ground (arith, path_of-suc n es h)

-- What is read after a write.
pub get_elem?-set_cases {ℓ} :
    {A : Type ℓ} (xs : List A) (k j : ℕ) (v e : A)
    → get_elem? (set xs k v) j ≡ some e
    → ((j ≡ k) × (e ≡ v)) ⊎ ((j ≢ k) × (get_elem? xs j ≡ some e))
get_elem?-set_cases [] k j v e h = absurd (ground arith)
get_elem?-set_cases (x ∷ xs) zero zero v e h = inl (refl, ground arith)
get_elem?-set_cases (x ∷ xs) zero (suc j) v e h = inr (λ p. absurd (omega arith), h)
get_elem?-set_cases (x ∷ xs) (suc k) zero v e h = inr (λ p. absurd (omega arith), h)
get_elem?-set_cases (x ∷ xs) (suc k) (suc j) v e h = elim (get_elem?-set_cases xs k j v e h) [
  | inl (p, q) ↦ inl (ap suc p, q)
  | inr (p, q) ↦ inr (λ s. p (omega arith), q)
]
