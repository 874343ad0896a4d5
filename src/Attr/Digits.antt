-- ===== src/Attr/Digits.antt =====
-- What the helpers of src/attr.c compute, said without their loops.
use nfsrods.Prelude.{
  ℕ, zero, suc, ◌+◌, ◌*◌, ◌/◌, ◌%◌, ◌≤◌, ◌<◌, ◌≡◌, ◌≢◌, ◌⊎◌, inl, inr, refl, ap, ◌∙◌, ◌==◌, not,
  ◌||◌, if◌then◌else◌, List, [], ◌∷◌, get_or, length, arith, Bool-cases,
}
use nfsrods.Fh.Handles.{slash}
use nfsrods.Attr.Mode.{permission_loop, permission, last_slash, file_name_last_index}

-- What one digit asks for: reading or executing is 1, writing alone 2, reading and writing 3.
unfoldable pub asked : ℕ → ℕ
asked d =
    if d == 2 || d == 3
    then 2
    else if d == 5 || d == 4 || d == 1
    then 1
    else if d == 6 || d == 7
    then 3
    else 0

one_digit :
    (rest : ℕ → ℕ) (p status : ℕ)
    → p < 8
    → (if p == 2 || p == 3
        then 2
        else rest
            (if p == 5 || p == 4 || p == 1 then 1 else if p == 6 || p == 7 then 3 else status))
      ≡ (if asked p == 2 then 2 else rest (if p == 0 then status else asked p))
unfolding asked
one_digit rest zero status small = refl
one_digit rest (suc zero) status small = refl
one_digit rest (suc (suc zero)) status small = refl
one_digit rest (suc (suc (suc zero))) status small = refl
one_digit rest (suc (suc (suc (suc zero)))) status small = refl
one_digit rest (suc (suc (suc (suc (suc zero))))) status small = refl
one_digit rest (suc (suc (suc (suc (suc (suc zero)))))) status small = refl
one_digit rest (suc (suc (suc (suc (suc (suc (suc zero))))))) status small = refl
one_digit rest (suc (suc (suc (suc (suc (suc (suc (suc p)))))))) status small = absurd (omega arith)

-- One round of the loop.
round :
    (n x p status : ℕ)
    → p < 8
    → permission_loop (suc n) (x * 8 + p) status
      ≡ (if asked p == 2 then 2 else permission_loop n x (if p == 0 then status else asked p))
unfolding permission_loop
round n x p status small =
    let lowest : (x * 8 + p) % 8 ≡ p = omega arith in
    let rest : (x * 8 + p) / 8 ≡ x = omega arith in
    rw (lowest, rest) (one_digit (permission_loop n x) p status small)

last_round :
    (p status : ℕ)
    → p < 8
    → permission_loop 1 p status ≡ (if asked p == 2 then 2 else if p == 0 then status else asked p)
unfolding permission_loop
last_round p status small =
    let shape : p ≡ 0 * 8 + p = omega arith in
    ap (λ v. permission_loop 1 v status) shape ∙ round 0 0 p status small

asked-zero : asked 0 ≡ 0
unfolding asked
asked-zero = refl

-- The permission for the mode with the octal digits `u`, `g` and `o` is to write if a digit writes
-- without reading; else it is what the owner's digit asks for, the group's where the owner's is 0,
-- and the others' where both are 0.
pub permission-digits :
    (u g o : ℕ)
    → u < 8
    → g < 8
    → o < 8
    → permission (u * 64 + g * 8 + o) ≡ (
        if asked u == 2 || asked g == 2 || asked o == 2
        then 2
        else if not (u == 0)
        then asked u
        else if not (g == 0)
        then asked g
        else asked o)
unfolding permission permission_loop
permission-digits u g o hu hg ho =
    let shape : u * 64 + g * 8 + o ≡ (u * 8 + g) * 8 + o = omega arith in
    rw (shape, round 2 (u * 8 + g) o 0 ho, round 1 u g _ hg, last_round u _ hu)
      (ground (arith, asked-zero))

last_slash-le : (path : List ℕ) (n : ℕ) → last_slash path n ≤ n
unfolding last_slash
last_slash-le path zero = omega arith
last_slash-le path (suc n) = ground (arith, last_slash-le path n)

last_slash-at :
    (path : List ℕ) (n : ℕ) → (last_slash path n ≡ 0) ⊎ (get_or path (last_slash path n) 0 ≡ slash)
unfolding last_slash
last_slash-at path zero = inl refl
last_slash-at path (suc n) = elim (Bool-cases (get_or path (suc n) 0 == slash)) [
  | inl here ↦ inr (rw (here, last_slash) (ground arith))
  | inr further ↦ rw (further, last_slash) (last_slash-at path n)
]

last_slash-after :
    (path : List ℕ) (n j : ℕ) → last_slash path n < j → j ≤ n → get_or path j 0 ≢ slash
unfolding last_slash
last_slash-after path zero j lo hi = absurd (omega arith)
last_slash-after path (suc n) j lo hi = ground (arith, last_slash-after path n j)

get_or-end : (path : List ℕ) (j : ℕ) → length path ≤ j → get_or path j 0 ≡ 0
get_or-end [] j h = refl
get_or-end (c ∷ path) zero h = absurd (omega arith)
get_or-end (c ∷ path) (suc j) h = get_or-end path j (omega arith)

-- The index is 0 or that of a slash.
pub file_name_last_index-at :
    (path : List ℕ)
    → (file_name_last_index path ≡ 0) ⊎ (get_or path (file_name_last_index path) 0 ≡ slash)
unfolding file_name_last_index
file_name_last_index-at path = last_slash-at path (length path)

-- No slash of the path stands after the index.
pub file_name_last_index-after :
    (path : List ℕ) (j : ℕ) → file_name_last_index path < j → get_or path j 0 ≢ slash
unfolding file_name_last_index
file_name_last_index-after path j after =
    ground (arith, last_slash-after path (length path) j after, get_or-end path j)
