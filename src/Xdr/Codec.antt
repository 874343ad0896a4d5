-- ===== src/Xdr/Codec.antt =====
-- src/xdr.c: how its functions are put together. One function codes and decodes a type, as the
-- direction of the stream tells it; here `put` is the bytes it writes, `get` what it reads and what
-- is left of the stream, and none is the result FALSE. `Fits` are the values that a C variable of
-- the type can hold and the protocol can carry.
pub mod Laws
pub mod Library
pub mod Unions
pub mod Chains
use nfsrods.Prelude.{
  ℕ, ◌%◌, ◌<◌, ◌^◌, ◌≡◌, ◌==◌, Bool, true, false, if◌then◌else◌, List, ◌++◌, Option, none, some,
  length, [], ◌≢◌,
}

pub record Codec (A : Type 0) : Type 1 where
  pub put : A → Option (List ℕ)
  pub get : List ℕ → Option (A × List ℕ)
  pub Fits : A → Type 0

-- The value is written, in words of four bytes, and read back from the start of any stream.
pub record Coded {A : Type 0} (put : A → Option (List ℕ)) (get : List ℕ → Option (A × List ℕ))
    (a : A) : Type 0 where
  pub wire : List ℕ
  pub written : put a ≡ some wire
  pub aligned : length wire % 4 ≡ 0
  pub read_back : (rest : List ℕ) → get (wire ++ rest) ≡ some (a, rest)

abbrev pub Lawful : {A : Type 0} → Codec A → Type 0
Lawful {A = A} c = (a : A) → c.Fits a → Coded c.put c.get a

-- `if (!first) return FALSE; if (!second) return FALSE;`
abbrev pub both_written : Option (List ℕ) → Option (List ℕ) → Option (List ℕ)
both_written none ys = none
both_written (some xs) none = none
both_written (some xs) (some ys) = some (xs ++ ys)

abbrev pub then_read :
    {A B : Type 0} → Option (A × List ℕ) → (A → List ℕ → Option (B × List ℕ)) → Option (B × List ℕ)
then_read none k = none
then_read (some r) k = k r.0 r.1

abbrev pub after_reading : {A B : Type 0} → (A → B) → Option (A × List ℕ) → Option (B × List ℕ)
after_reading f none = none
after_reading f (some r) = some (f r.0, r.1)

-- Two members, one after the other.
unfoldable pub both : {A B : Type 0} → Codec A → Codec B → Codec (A × B)
both c d = record {
  put = λ p. both_written (c.put p.0) (d.put p.1);
  get = λ s. then_read (c.get s) (λ a rest. after_reading (λ b. (a, b)) (d.get rest));
  Fits = λ p. c.Fits p.0 × d.Fits p.1;
}

-- The members of a struct.
abbrev pub struct : {A S : Type 0} → (S → A) → (A → S) → Codec A → Codec S
struct members make c = record {
  put = λ v. c.put (members v);
  get = λ s. after_reading make (c.get s);
  Fits = λ v. c.Fits (members v);
}

-- The empty case of a union: `default: break;`
abbrev pub nothing : Codec (Unit {0})
nothing = record { put = λ v. some []; get = λ s. some (tt, s); Fits = λ v. Unit {0} }
