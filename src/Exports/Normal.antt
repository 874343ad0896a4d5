-- ===== src/Exports/Normal.antt =====
-- src/Config/exports.y: the paths that `normpath` gives.
use nfsrods.Prelude.{
  ℕ, ◌<◌, ◌≡◌, refl, ap, ◌==◌, ltb, Bool, true, false, not, ◌&&◌, inl, inr, List, [], ◌∷◌, length,
  arith, Bool-cases, if◌then◌else◌,
}
use nfsrods.Fh.Handles.{slash}
use nfsrods.Exports.Names.{starts_slash, single_slashes, without_slash, normpath}

-- No slash is next to a slash.
abbrev pub no_double : List ℕ → Bool
no_double [] = true
no_double (c ∷ cs) = not (c == slash && starts_slash cs) && no_double cs

starts_slash-single : (p : List ℕ) → starts_slash (single_slashes p) ≡ starts_slash p
unfolding single_slashes
starts_slash-single [] = refl
starts_slash-single (c ∷ cs) =
    ground (arith, starts_slash-single cs, Bool-cases (c == slash && starts_slash cs))

single_slashes-no_double : (p : List ℕ) → no_double (single_slashes p) ≡ true
unfolding single_slashes
single_slashes-no_double [] = refl
single_slashes-no_double (c ∷ cs) = ground (
  arith,
  single_slashes-no_double cs,
  starts_slash-single cs,
  Bool-cases (c == slash && starts_slash cs),
)

single_slashes-id : (p : List ℕ) → no_double p ≡ true → single_slashes p ≡ p
unfolding single_slashes
single_slashes-id [] h = refl
single_slashes-id (c ∷ cs) h =
    let apart : (c == slash && starts_slash cs) ≡ false = ground (arith, h) in
    let rest : no_double cs ≡ true = ground (arith, h) in rw (apart, single_slashes-id cs rest)

without_slash-no_double : (p : List ℕ) → no_double p ≡ true → no_double (without_slash p) ≡ true
unfolding without_slash
without_slash-no_double [] h = refl
without_slash-no_double (c ∷ []) h = ground (arith, h)
without_slash-no_double (c ∷ d ∷ []) h = ground (arith, h)
without_slash-no_double (c ∷ d ∷ e ∷ cs) h =
    let rest : no_double (d ∷ e ∷ cs) ≡ true = ground (arith, h) in
    ground (arith, h, without_slash-no_double (d ∷ e ∷ cs) rest)

without_slash_twice :
    (p : List ℕ)
    → no_double p ≡ true
    → 1 < length p
    → without_slash (without_slash p) ≡ without_slash p
unfolding without_slash
without_slash_twice [] h l = refl
without_slash_twice (c ∷ []) h l = absurd (omega arith)
without_slash_twice (c ∷ d ∷ []) h l = ground (arith, h)
without_slash_twice (c ∷ d ∷ e ∷ []) h l =
    ground (arith, h, without_slash_twice (d ∷ e ∷ []) (ground (arith, h)) (omega arith))
without_slash_twice (c ∷ d ∷ e ∷ f ∷ cs) h l =
    ap (λ r. c ∷ r) (without_slash_twice (d ∷ e ∷ f ∷ cs) (ground (arith, h)) (omega arith))

-- The path that `normpath` gives has no two slashes in a row, and to normalize it again changes
-- nothing.
pub normpath_twice :
    (p : List ℕ) → (no_double (normpath p) ≡ true) × (normpath (normpath p) ≡ normpath p)
unfolding normpath
normpath_twice p =
    let n = single_slashes p in
    let clean : no_double n ≡ true = single_slashes-no_double p in
    elim (Bool-cases (ltb 1 (length n))) [
      | inr short ↦ rw (short, single_slashes-id n clean, short) (clean, refl)
      | inl long ↦
          let m = without_slash n in
          let kept : no_double m ≡ true = without_slash-no_double n clean in
          let again = single_slashes-id m kept in
          let once : without_slash m ≡ m = without_slash_twice n clean (ground (arith, long)) in
          let stays : (if ltb 1 (length m) then without_slash m else m) ≡ m =
            elim (Bool-cases (ltb 1 (length m))) [ inl e ↦ rw (e, once) | inr e ↦ rw e ] in
          rw (long, again) (kept, stays)
    ]
