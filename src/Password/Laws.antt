-- ===== src/Password/Laws.antt =====
-- What the text functions of src/password.c keep of their arguments.
use nfsrods.Prelude.{
  ℕ, zero, suc, ◌+◌, ◌-◌, ◌*◌, ◌/◌, ◌%◌, ◌≤◌, ◌<◌, ◌≡◌, ◌≢◌, refl, ap, inl, inr, ◌==◌, leb,
  if◌then◌else◌, List, [], ◌∷◌, ◌++◌, some, length, take, drop, length-take, get_elem?, arith,
  Bool-cases,
}
use nfsrods.Fh.Handles.{slash}
use nfsrods.Password.{nibble_as_hexchar, hexify, until_slash, mnt_cmd_argument}

-- The value of a hexadecimal digit, and the bytes that pairs of digits stand for.
abbrev pub value_of : ℕ → ℕ
value_of c = if leb c 57 then c - 48 else c - 87

abbrev pub read_hex : List ℕ → List ℕ
read_hex [] = []
read_hex (a ∷ []) = []
read_hex (a ∷ (b ∷ cs)) = (value_of a * 16 + value_of b) ∷ read_hex cs

abbrev pub AllBytes : List ℕ → Type 0
AllBytes ds = (i d : ℕ) → get_elem? ds i ≡ some d → d < 256

value_of-nibble : (c : ℕ) → c < 16 → value_of (nibble_as_hexchar c) ≡ c
unfolding nibble_as_hexchar
value_of-nibble c small = ground arith

-- The hexadecimal text of a list of bytes is read back as the same bytes.
pub read_hex-hexify : (digest : List ℕ) → AllBytes digest → read_hex (hexify digest) ≡ digest
unfolding hexify
read_hex-hexify [] all = refl
read_hex-hexify (d ∷ digest) all =
    let small = all 0 d refl in
    let high = value_of-nibble ((d / 16) % 16) (omega arith) in
    let low = value_of-nibble (d % 16) (omega arith) in
    let whole : value_of (nibble_as_hexchar ((d / 16) % 16)) * 16
          + value_of (nibble_as_hexchar (d % 16))
        ≡ d =
      omega (arith, high, low, small) in
    rw (whole, read_hex-hexify digest (λ i x at. all (suc i) x at)) refl

until_slash-split :
    (n : ℕ) (cs : List ℕ)
    → until_slash (take n cs) ++ drop (length (until_slash (take n cs))) cs ≡ cs
unfolding until_slash
until_slash-split zero cs = refl
until_slash-split (suc n) [] = refl
until_slash-split (suc n) (c ∷ cs) = elim (Bool-cases (c == slash)) [
  | inl end ↦ rw (end, until_slash) refl
  | inr more ↦ rw (more, until_slash) (ap (λ l. c ∷ l) (until_slash-split n cs))
]

until_slash-none : (cs : List ℕ) (i : ℕ) → get_elem? (until_slash cs) i ≢ some slash
unfolding until_slash
until_slash-none [] i h = ground arith
until_slash-none (c ∷ cs) zero h = ground arith
until_slash-none (c ∷ cs) (suc i) h = ground (arith, until_slash-none cs i)

until_slash-le : (cs : List ℕ) → length (until_slash cs) ≤ length cs
unfolding until_slash
until_slash-le [] = omega arith
until_slash-le (c ∷ cs) = ground (arith, until_slash-le cs)

-- The argument of a mount command and the path that is left make up, one after the other, what
-- stood after the command, and the argument has at most `maxlen` bytes.
pub mnt_cmd_argument_splits :
    (dpath cmd : List ℕ) (maxlen : ℕ)
    → let r = mnt_cmd_argument dpath cmd maxlen in
      (r.0 ++ r.1 ≡ drop (length cmd) dpath) × (length r.0 ≤ maxlen)
unfolding mnt_cmd_argument
mnt_cmd_argument_splits dpath cmd maxlen =
    let after = drop (length cmd) dpath in
    (
      until_slash-split maxlen after,
      omega (arith, until_slash-le (take maxlen after), length-take maxlen after),
    )

-- No byte of the argument of a mount command is a slash.
pub mnt_cmd_argument-slash :
    (dpath cmd : List ℕ) (maxlen i : ℕ)
    → get_elem? (mnt_cmd_argument dpath cmd maxlen).0 i ≢ some slash
unfolding mnt_cmd_argument
mnt_cmd_argument-slash dpath cmd maxlen i =
    until_slash-none (take maxlen (drop (length cmd) dpath)) i
